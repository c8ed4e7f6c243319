-- ===== src/Cache/Warming/RoundTrip.antt =====
-- What survives a restart: the cache warmed from its own dump, and the dump file under failures.
use neu_rust.Prelude.Keys.{nat_eq, text_eq}
use neu_rust.Prelude.{
  ◌≡◌, ◌≤◌, ◌<◌, ◌+◌, ◌∷◌, [], arith, inl, inr, false, some, ℕ, List, length, All, In,
  take_of_length-le, ◌∙◌, ap, ==_iff, ◌≢◌, if-both, sym, refl, true, Bool, Bool-cases, is_empty,
}
use neu_rust.Prelude.Maps
use neu_rust.Cache.Warming.{
  load, warm, dump_once, dump_loop, DumpFile, round, CacheWarmer, dump, IoOutcome, LoopState, Wake,
  tick, shutdown, absent, unreadable, corrupt, Files, tmp_path, put_file, rename,
}
use neu_rust.Cache.Exact.{
  insert_warm, new, top_by_hit_count, ExactCache, insert_entry, more_hits, live_entries, dump_entry,
}
use neu_rust.Cache.Entry.{CacheDumpEntry, CacheEntry, is_expired}
use neu_rust.Cache.Exact.Reads.{make_room_of_lt}
use neu_rust.Prelude.Sort.{sort_by, length-sort_by, All-sort_by, In-sort_by}
use neu_rust.Prelude.Maps.{Distinct, length-insert-le, lookup-insert, lookup-insert_self}
use neu_rust.Cache.Exact.Dump.{length-live_entries-le, All-live_entries, In-live_entries}
use neu_rust.Prelude.Text.{Str, str_eq_iff, str_eq}
use mathlib.Core.Path.{subst}

-- The entry that warming makes of an entry of the dump.
abbrev pub warmed : ℕ → ExactCache → CacheDumpEntry → CacheEntry
warmed now c d = record {
  response = d.response;
  hit_count = d.hit_count;
  created_at = now;
  ttl = c.default_ttl;
}

insert_warm-map :
    (now : ℕ) (c : ExactCache) (d : CacheDumpEntry)
    → length c.map < c.max_entries
    → insert_warm now c d.hash d.response d.hit_count
      ≡ record c { map = Maps.insert d.hash (warmed now c d) c.map }
unfolding insert_warm insert_entry
insert_warm-map now c d h = rw (make_room_of_lt now c.max_entries 4 c.map h)

load-cons :
    (now : ℕ) (d : CacheDumpEntry) (ds : List CacheDumpEntry) (c : ExactCache)
    → length c.map < c.max_entries
    → load now (d ∷ ds) c
      ≡ load now ds (record c { map = Maps.insert d.hash (warmed now c d) c.map })
unfolding load
load-cons now d ds c h = ap (load now ds) (insert_warm-map now c d h)

-- With room for the entries, warming keeps an entry that every entry with its hash agrees with.
load-keeps :
    (now : ℕ) (d : CacheDumpEntry) (ds : List CacheDumpEntry) (c : ExactCache)
    → length c.map + length ds ≤ c.max_entries
    → All (λ x. x.hash ≡ d.hash → x ≡ d) ds
    → Maps.lookup d.hash c.map ≡ some (warmed now c d)
    → Maps.lookup d.hash (load now ds c).map ≡ some (warmed now c d)
unfolding load
load-keeps now d [] c room same h = h
load-keeps now d (x ∷ ds) c room same h =
    ap (λ r. Maps.lookup d.hash r.map) (load-cons now x ds c (omega arith))
    ∙ load-keeps now d ds (record c { map = Maps.insert x.hash (warmed now c x) c.map })
        (omega (arith, length-insert-le x.hash (warmed now c x) c.map)) same.1
        (ground (arith, lookup-insert x.hash d.hash (warmed now c x) c.map, same.0))

load-stores :
    (now : ℕ) (d : CacheDumpEntry) (ds : List CacheDumpEntry) (c : ExactCache)
    → length c.map + length ds ≤ c.max_entries
    → All (λ x. x.hash ≡ d.hash → x ≡ d) ds
    → In d ds
    → Maps.lookup d.hash (load now ds c).map ≡ some (warmed now c d)
unfolding load
load-stores now d [] c room same inside = absurd inside
load-stores now d (x ∷ ds) c room same (inl here) =
    ap (λ r. Maps.lookup d.hash r.map) (load-cons now x ds c (omega arith))
    ∙ load-keeps now d ds (record c { map = Maps.insert x.hash (warmed now c x) c.map })
        (omega (arith, length-insert-le x.hash (warmed now c x) c.map)) same.1
        (ground (arith, lookup-insert x.hash d.hash (warmed now c x) c.map, ==_iff x.hash d.hash))
load-stores now d (x ∷ ds) c room same (inr later) =
    ap (λ r. Maps.lookup d.hash r.map) (load-cons now x ds c (omega arith))
    ∙ load-stores now d ds (record c { map = Maps.insert x.hash (warmed now c x) c.map })
        (omega (arith, length-insert-le x.hash (warmed now c x) c.map)) same.1 later

top-all :
    (now n : ℕ) (c : ExactCache)
    → length c.map ≤ n
    → top_by_hit_count now c n ≡ sort_by more_hits (live_entries now c.map)
unfolding top_by_hit_count
top-all now n c h = take_of_length-le n _ (
    omega
      (arith, length-sort_by more_hits (live_entries now c.map), length-live_entries-le now c.map))

-- A cache of distinct hashes is dumped and read into a new cache that has room for its entries,
-- where the warmer's limit is no smaller than the cache. Then every entry that had not expired at
-- the time of the dump is there again, with its response and its hits, and a new time to live.
pub warm-dump :
    (now later : ℕ) (w : CacheWarmer) (c : ExactCache) (max_entries ttl k : ℕ) (e : CacheEntry)
    → Distinct c.map
    → length c.map ≤ w.max_warm_entries
    → length c.map ≤ max_entries
    → Maps.lookup k c.map ≡ some e
    → is_expired now e ≡ false
    → Maps.lookup k
        (warm later w
          (dump (top_by_hit_count now c w.max_warm_entries))
          (new max_entries ttl)).0.map
      ≡ some
          (record { response = e.response; hit_count = e.hit_count; created_at = later; ttl = ttl })
unfolding warm new
warm-dump now later w c max_entries ttl k e d fits room found fresh =
    let ds : List CacheDumpEntry = sort_by more_hits (live_entries now c.map) in
    let size : length ds ≤ length c.map = omega (
      arith,
      length-sort_by more_hits (live_entries now c.map),
      length-live_entries-le now c.map,
    ) in
    rw
      (top-all now w.max_warm_entries c fits, take_of_length-le w.max_warm_entries ds (omega arith))
      (load-stores later (dump_entry (k, e)) ds
        (record { map = []; max_entries = max_entries; default_ttl = ttl }) (omega arith)
        (All-sort_by more_hits _ (live_entries now c.map)
          (All-live_entries now k e c.map d (inr found)))
        (In-sort_by more_hits _ (live_entries now c.map)
          (In-live_entries now k e c.map found fresh)))

-- The dump file can be read, if it is there at all.
abbrev pub IsReadable : DumpFile → Type 0
IsReadable absent = Unit
IsReadable unreadable = ⊥
IsReadable corrupt = ⊥
IsReadable (dump ds) = Unit

str_eq_self : (s : Str) → str_eq s s ≡ true
str_eq_self s = (str_eq_iff s s).1 refl

str_eq_apart : (s t : Str) → s ≢ t → str_eq s t ≡ false
str_eq_apart s t apart = elim (Bool-cases (str_eq s t)) [
  | inl same ↦ absurd (apart ((str_eq_iff s t).0 same))
  | inr other ↦ other
]

put_file_other :
    (path p : Str) (content : DumpFile) (files : Files)
    → p ≢ path
    → put_file path content files p ≡ files p
put_file_other path p content files apart = rw (str_eq_apart p path apart) refl

-- What is written under another path and then renamed is what stands there.
rename-put_file :
    (from to : Str) (content : DumpFile) (files : Files)
    → from ≢ to
    → rename from to (put_file from content files) to ≡ content
rename-put_file from to content files apart =
    rw (str_eq_apart from to apart, str_eq_self to, str_eq_self from) refl

dump_once-IsReadable :
    (now : ℕ) (w : CacheWarmer) (io : IoOutcome) (c : ExactCache) (files : Files)
    → tmp_path w ≢ w.dump_path
    → IsReadable (files w.dump_path)
    → IsReadable ((dump_once now w io c files).0 w.dump_path)
unfolding dump_once
dump_once-IsReadable now w io c files apart h =
    let top = top_by_hit_count now c w.max_warm_entries in
    let back : w.dump_path ≢ tmp_path w = λ e. apart (sym e) in
    let P : Files × Bool → Type 0 = λ o. IsReadable (o.0 w.dump_path) in
    let kept : (content : DumpFile) → IsReadable (put_file (tmp_path w) content files w.dump_path) =
      λ content.
        subst IsReadable (sym (put_file_other (tmp_path w) w.dump_path content files back)) h in
    if-both P (is_empty top) h (
      if-both P io.serialized
        (if-both P io.written
          (if-both P io.renamed
            (subst IsReadable
              (sym (rename-put_file (tmp_path w) w.dump_path (dump top) files apart)) tt)
            (kept (dump top)))
          (kept io.left_over))
        h)

-- Whatever writes and renames fail and whatever they leave in the temporary file, the file that
-- the next start reads stays a complete dump, if it was absent or a dump at first, and if the
-- configured path is not its own temporary path, as one is that ends in ".tmp".
pub dump_loop-IsReadable :
    (w : CacheWarmer) (s : LoopState) (es : List Wake)
    → tmp_path w ≢ w.dump_path
    → IsReadable (s.files w.dump_path)
    → IsReadable ((dump_loop w s es).files w.dump_path)
unfolding dump_loop round
dump_loop-IsReadable w s [] apart h = h
dump_loop-IsReadable w s (tick now c io ∷ es) apart h =
    if-both {A = LoopState} (λ t. IsReadable (t.files w.dump_path)) s.stopped h
      (dump_loop-IsReadable w (round w s (tick now c io)) es apart
        (dump_once-IsReadable now w io c s.files apart h))
dump_loop-IsReadable w s (shutdown now c io ∷ es) apart h =
    if-both {A = LoopState} (λ t. IsReadable (t.files w.dump_path)) s.stopped h
      (dump_loop-IsReadable w (round w s (shutdown now c io)) es apart
        (dump_once-IsReadable now w io c s.files apart h))
