-- ===== src/Tests/Concurrent.antt =====
-- Calls in flight at concrete inputs.
use neu_rust.Prelude.{◌≡◌, ◌+◌, ◌∷◌, ◌++◌, [], refl, arith, ℕ, true, List}
use neu_rust.Prelude.Text.{utf8}
use neu_rust.Prelude.Keys.{nat_eq, text_eq}
use neu_rust.Prelude.Sort.{sort_by}
use neu_rust.Gateway.State.{priority_of, find_provider}
use neu_rust.Gateway.Inference.{validate}
use neu_rust.Gateway.Concurrent.{
  System, Task, Reach, running, looking, arrive, advance, begin, start, arrives, moves, pick,
}
use neu_rust.Gateway.Concurrent.Accounts.{IsAccounted, Reach-IsAccounted}
use neu_rust.Tests.Data.{sum_hash, servers, server}
use neu_rust.Tests.Gateway.{at_once, no_semantic, gateway, configs, call}

abbrev idle : System ℕ ℕ
idle = running gateway []

abbrev Reaches : ℕ → System ℕ ℕ → Type 0
Reaches n t = Reach no_semantic sum_hash configs servers idle n t

abbrev coming : System ℕ ℕ → System ℕ ℕ
coming s = arrive no_semantic sum_hash configs servers call s

abbrev look : Task ℕ
look = looking (server (utf8 "b") true) call

-- Two equal calls, of which the second to arrive has looked into the cache.
abbrev looked : System ℕ ℕ
looked =
    let (g, ts) =
      advance no_semantic sum_hash configs servers at_once look (coming (coming idle)).gateway in
    running g (ts ++ look ∷ [])

-- What the call that has looked does next.
abbrev looked_first : List (Task ℕ)
looked_first =
    (advance no_semantic sum_hash configs servers at_once look (coming (coming idle)).gateway).1

abbrev both_looked : System ℕ ℕ
both_looked =
    let (g, ts) = advance no_semantic sum_hash configs servers at_once look looked.gateway in
    running g (looked_first ++ (ts ++ []))

two_waiting : (coming (coming idle)).tasks ≡ look ∷ look ∷ []
unfolding begin validate find_provider sort_by priority_of
two_waiting = refl

looked-Reach : Reaches 2 looked
looked-Reach =
    moves (arrives call (arrives call start)) (pick at_once look [] (look ∷ []) two_waiting)

Reach-IsAccounted_example : IsAccounted looked × (looked.gateway.request_count ≡ 0 + 2)
Reach-IsAccounted_example =
    Reach-IsAccounted no_semantic sum_hash configs servers looked-Reach (omega arith)
      (record { outcomes = omega arith; paired = refl })
