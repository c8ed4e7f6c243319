-- ===== src/Gateway/Concurrent/Accounts.antt =====
-- The counters, the events and the costs while requests are in flight.
use neu_rust.Prelude.{◌≡◌, ◌≤◌, ◌<◌, ◌+◌, arith, List, ℕ, length}
use neu_rust.Gateway.Concurrent.Tally.{
  total, is_open, is_announcing, is_recording, completions, total-append, total-moved,
  advance-Keeps, begin-total,
}
use neu_rust.Prelude.Keys.{nat_eq, text_eq}
use neu_rust.Cache.Tiered.{Semantic}
use neu_rust.Cache.Key.{Hasher}
use neu_rust.Gateway.Inference.{ChatCompletionRequest}
use neu_rust.Routing.Provider.{Provider, ProviderConfig}
use neu_rust.Gateway.Concurrent.{
  System, begin, arrive, advance, Move, pick, Reach, start, arrives, moves,
}

-- The errors, the events and the requests in flight are together no more than the requests, and
-- each completion that is published or about to be has its cost, recorded or about to be.
pub record IsAccounted {S C : Type 0} (s : System S C) : Type 0 where
  pub outcomes :
      s.gateway.error_count + length s.gateway.events + total is_open s.tasks
      ≤ s.gateway.request_count
  pub paired :
      completions s.gateway.events + total is_announcing s.tasks
      ≡ length s.gateway.costs + length s.gateway.lost + total is_recording s.tasks

module _ {S C : Type 0} (sem : Semantic C) (h : Hasher) (configs : List ProviderConfig)
    (providers : List (Provider S)) where
  Move-IsAccounted :
      {s u : System S C}
      → Move sem h configs providers s u
      → IsAccounted s
      → IsAccounted u × (u.gateway.request_count ≡ s.gateway.request_count)
  Move-IsAccounted {s} (pick c t before after split) v =
      let (g', ts) = advance sem h configs providers c t s.gateway in
      let k = advance-Keeps sem h configs providers c t s.gateway in
      (
        record {
          outcomes = omega (
            arith,
            k.outcomes,
            k.counted,
            v.outcomes,
            total-moved is_open t before ts after s.tasks split,
          );
          paired = omega (
            arith,
            k.paired,
            v.paired,
            total-moved is_announcing t before ts after s.tasks split,
            total-moved is_recording t before ts after s.tasks split,
          );
        },
        k.counted,
      )

  arrive-IsAccounted :
      (q : ChatCompletionRequest) (s : System S C)
      → s.gateway.request_count + 1 < 0x10000000000000000
      → IsAccounted s
      → let u = arrive sem h configs providers q s in
        IsAccounted u × (u.gateway.request_count ≡ s.gateway.request_count + 1)
  arrive-IsAccounted q s fits v =
      let ts = begin sem h configs providers q in
      let (opened, silent, free) = begin-total sem h configs providers q in
      (
        record {
          outcomes = omega (arith, v.outcomes, opened, total-append is_open ts s.tasks);
          paired = omega (
            arith,
            v.paired,
            silent,
            free,
            total-append is_announcing ts s.tasks,
            total-append is_recording ts s.tasks,
          );
        },
        omega arith,
      )

  -- Whatever calls are interleaved, and in whatever order: while fewer than 2 ^ 64 requests have
  -- come in all, each arrival is counted once, the errors and the events published are together no
  -- more than the requests that are counted and no longer in flight, and the whole completions
  -- published or about to be are as many as the costs recorded, lost to a failure of the event
  -- store, or about to be one of these. What the streams publish later is not counted here.
  pub Reach-IsAccounted :
      {s : System S C} {n : ℕ} {t : System S C}
      → Reach sem h configs providers s n t
      → s.gateway.request_count + n < 0x10000000000000000
      → IsAccounted s
      → IsAccounted t × (t.gateway.request_count ≡ s.gateway.request_count + n)
  Reach-IsAccounted start fits v = (v, omega arith)
  Reach-IsAccounted (arrives {n} {t} q r) fits v =
      let (v', counted) = Reach-IsAccounted r (omega arith) v in
      let (w, more) = arrive-IsAccounted q t (omega arith) v' in (w, omega arith)
  Reach-IsAccounted (moves r m) fits v =
      let (v', counted) = Reach-IsAccounted r fits v in
      let (w, same) = Move-IsAccounted m v' in (w, omega arith)
