-- ===== src/Cache/Warming.antt =====
-- Dumping the cache to disk and warming it from there, cache/warming.rs. The file system answers
-- each write and rename with success or failure.
pub mod RoundTrip
use neu_rust.Prelude.{
  ◌+◌, ◌∷◌, if◌then◌else◌, [], true, false, none, some, Bool, List, Option, ℕ, get_or, leb, take,
  is_empty, length, ◌%◌, ◌++◌, ◌&&◌, ◌||◌, ◌==◌, not,
}
use neu_rust.Prelude.Text.{Str, utf8, str_eq}
use neu_rust.Cache.Entry.{CacheDumpEntry}
use neu_rust.Cache.Exact.{ExactCache, insert_warm, top_by_hit_count}

pub record CacheWarmer : Type 0 where
  pub dump_path : Str
  pub dump_interval : ℕ
  pub max_warm_entries : ℕ

-- `CacheWarmer::from_config`, with the interval in seconds.
unfoldable pub from_config : Option Str → Option ℕ → Option ℕ → CacheWarmer
from_config dump_path dump_interval_sec max_warm_entries = record {
  dump_path = get_or dump_path (utf8 "./cache_dump.bin");
  dump_interval = get_or dump_interval_sec 300;
  max_warm_entries = get_or max_warm_entries 10000;
}

-- The dump file: not there, not readable, not a dump, or a dump.
pub data DumpFile : Type 0 where
  absent unreadable corrupt : DumpFile
  dump : List CacheDumpEntry → DumpFile

-- The loop of `warm` over the entries.
unfoldable pub load : ℕ → List CacheDumpEntry → ExactCache → ExactCache
load now [] c = c
load now (d ∷ ds) c = load now ds (insert_warm now c d.hash d.response d.hit_count)

-- The cache after `warm`, and the number of entries loaded; `none` is an error.
unfoldable pub warm : ℕ → CacheWarmer → DumpFile → ExactCache → ExactCache × Option ℕ
unfolding load
warm now w absent c = (c, some 0)
warm now w unreadable c = (c, none)
warm now w corrupt c = (c, none)
warm now w (dump ds) c =
    let chosen = take w.max_warm_entries ds in (load now chosen c, some (length chosen))

-- The files of the disk, as `warm` would find them at their paths.
abbrev pub Files : Type 0
Files = Str → DumpFile

abbrev pub put_file : Str → DumpFile → Files → Files
put_file path content files p = if str_eq p path then content else files p

-- `rename`, which does nothing to a file and itself.
abbrev pub rename : Str → Str → Files → Files
rename from to files =
    if str_eq from to then files else put_file to (files from) (put_file from absent files)

-- A path up to its last slash, and the name behind it.
abbrev pub split_name : Str → Str × Str
split_name [] = ([], [])
split_name (b ∷ s) =
    let (dir, name) = split_name s in
    if is_empty dir && not (b == 47) then ([], b ∷ name) else (b ∷ dir, name)

-- What is before the last dot.
abbrev pub before_dot : Str → Option Str
before_dot [] = none
before_dot (b ∷ s) = elim (before_dot s) [
  | some t ↦ some (b ∷ t)
  | none ↦ if b == 46 then some [] else none
]

-- `file_stem`; a dot at the front begins no extension.
abbrev pub file_stem : Str → Str
file_stem name = elim (before_dot name) [ none ↦ name | some t ↦ if is_empty t then name else t ]

-- `with_extension`, of a path that ends in no slash.
unfoldable pub with_extension : Str → Str → Str
with_extension path ext =
    let (dir, name) = split_name path in
    if is_empty name || str_eq name (utf8 "..") then path else dir ++ (file_stem name ++ (46 ∷ ext))

abbrev pub tmp_path : CacheWarmer → Str
tmp_path w = with_extension w.dump_path (utf8 "tmp")

-- How the parts of one dump end: serialising, writing the temporary file (which may leave anything
-- there), and renaming it.
pub record IoOutcome : Type 0 where
  pub serialized : Bool
  pub written : Bool
  pub left_over : DumpFile
  pub renamed : Bool

unfoldable pub dump_once : ℕ → CacheWarmer → IoOutcome → ExactCache → Files → Files × Bool
dump_once now w io c files =
    let top = top_by_hit_count now c w.max_warm_entries in
    let written = put_file (tmp_path w) (dump top) files in
    if is_empty top
    then (files, true)
    else if io.serialized
    then if io.written
      then if io.renamed then (rename (tmp_path w) w.dump_path written, true) else (written, false)
      else (put_file (tmp_path w) io.left_over files, false)
    else (files, false)

-- What wakes the loop: the interval, or the shutdown; with the time, the cache as it is then and
-- the outcome of the dump.
pub data Wake : Type 0 where
  tick : ℕ → ExactCache → IoOutcome → Wake
  shutdown : ℕ → ExactCache → IoOutcome → Wake

-- The state of `dump_loop`: the files, the failures in a row, the back-offs, and whether it ended.
pub record LoopState : Type 0 where
  pub files : Files
  pub failures : ℕ
  pub backoffs : ℕ
  pub stopped : Bool

-- One round; `consecutive_failures` is a `u32`.
unfoldable pub round : CacheWarmer → LoopState → Wake → LoopState
unfolding dump_once
round w s (shutdown now c io) = record s {
  files = (dump_once now w io c s.files).0;
  stopped = true;
}
round w s (tick now c io) =
    let (files, success) = dump_once now w io c s.files in
    let failures : ℕ = if success then 0 else (s.failures + 1) % 0x100000000 in
    record s {
      files = files;
      failures = failures;
      backoffs = if leb 5 failures then s.backoffs + 1 else s.backoffs;
    }

unfoldable pub dump_loop : CacheWarmer → LoopState → List Wake → LoopState
unfolding round
dump_loop w s [] = s
dump_loop w s (e ∷ es) = if s.stopped then s else dump_loop w (round w s e) es
