-- ===== src/Provider/Refresh.antt =====
-- provider.go: `newMMDBProvider`, `refreshChanged` and `close` on the provider's state. Each
-- function below is one stretch that no lock interrupts; a `Handle` is a `*Reader`, told from the
-- others by its number.
pub mod Opening
pub mod Renewal
pub mod Runs
pub mod Counts
pub mod Accounts
use traefik_plugin_ipgeoloca.Base.{
  ℕ, zero, suc, ◌+◌, List, [], ◌∷◌, ◌++◌, Option, none, some, Bool, true, false, ◌==◌,
  if◌then◌else◌, length, any, Result, ok, err, map,
}
use traefik_plugin_ipgeoloca.Base.Text.{Str}
use traefik_plugin_ipgeoloca.Value.{Float}
use traefik_plugin_ipgeoloca.Cache.{ResultCache, reset}
use traefik_plugin_ipgeoloca.Database.{FileSystem, Database, OpenError, open_reader, changed}

pub record Handle : Type 0 where
  pub id : ℕ
  pub database : Database

pub data ProviderError : Type 0 where
  no_databases : ProviderError
  open_failed : OpenError → ProviderError

-- An error of `newMMDBProvider`, and the numbers of the handles that it opened and of those that it
-- closed before it returned.
pub record Failure : Type 0 where
  pub error : ProviderError
  pub opened : List ℕ
  pub closed : List ℕ

abbrev pub ids : List Handle → List ℕ
ids [] = []
ids (h ∷ handles) = h.id ∷ ids handles

abbrev pub paths_of : List Handle → List Str
paths_of [] = []
paths_of (h ∷ handles) = h.database.path ∷ paths_of handles

-- The disk at the calls of one `OpenReader`: its Stat and its reading.
pub record OpenTimes : Type 0 where
  pub at_stat : FileSystem
  pub at_open : FileSystem

-- The disk at the three calls of a refresh of one database: `Changed`, and `OpenReader`'s Stat
-- and reading.
pub record Moments : Type 0 where
  pub at_changed : FileSystem
  pub at_stat : FileSystem
  pub at_open : FileSystem

-- Where the goroutine of `watch` stands: between two refreshes, before it takes the lock with the
-- replacements it opened, by index, or before `cache.reset()` with the handles it retired.
pub data Phase : Type 0 where
  resting : Phase
  scanned : List (Option Handle) → Phase
  swapped : List Handle → Phase

-- `pending` are the handles that goroutines will close after five seconds, `closed` the numbers of
-- those closed, and `next_id` the number of the next one to be opened.
pub record State : Type 0 where
  pub readers : List Handle
  pub cache : Option ResultCache
  pub stopped : Bool
  pub phase : Phase
  pub pending : List (List Handle)
  pub closed : List ℕ
  pub next_id : ℕ

-- An index of `replacements` that is set.
abbrev pub is_some : Option Handle → Bool
is_some none = false
is_some (some h) = true

module _ (uint_of_float : Float → ℕ) (in_memory : Bool) where
  -- The loop of `newMMDBProvider`, with the handles opened so far; the disk is that at each index.
  unfoldable pub open_all :
      (ℕ → OpenTimes) → List Handle → ℕ → List Str → Result Failure (List Handle)
  open_all disk opened id [] = ok opened
  open_all disk opened id (path ∷ paths) =
      elim (open_reader uint_of_float (disk id).at_stat (disk id).at_open path in_memory) [
        | err e ↦ err (record { error = open_failed e; opened = ids opened; closed = ids opened })
        | ok d ↦ open_all disk (opened ++ (record { id = id; database = d } ∷ [])) (suc id) paths
      ]

  unfoldable pub new_mmdb_provider :
      (ℕ → OpenTimes) → Option ResultCache → List Str → Result Failure State
  new_mmdb_provider disk cache paths =
      if length paths == 0
      then err (record { error = no_databases; opened = []; closed = [] })
      else elim (open_all disk [] 0 paths) [
        | err f ↦ err f
        | ok readers ↦ ok (record {
          readers = readers;
          cache = cache;
          stopped = false;
          phase = resting;
          pending = [];
          closed = [];
          next_id = length paths;
        })
      ]

  -- One round of the first loop of `refreshChanged`.
  unfoldable pub replacement : Moments → Database → Option Database
  replacement m d =
      if changed m.at_changed d
      then elim (open_reader uint_of_float m.at_stat m.at_open d.path in_memory) [
        | ok fresh ↦ some fresh
        | err e ↦ none
      ]
      else none

  -- That loop from index i on: the replacement at each index, and the next number.
  unfoldable pub scan : (ℕ → Moments) → ℕ → ℕ → List Handle → List (Option Handle) × ℕ
  scan moments i id [] = ([], id)
  scan moments i id (h ∷ current) = elim (replacement (moments i) h.database) [
    | none ↦ (let (rest, id') = scan moments (suc i) id current in (none ∷ rest, id'))
    | some d ↦
        (let (rest, id') = scan moments (suc i) (suc id) current in
          (some (record { id = id; database = d }) ∷ rest, id'))
  ]

  unfoldable pub scan_readers : (ℕ → Moments) → State → State
  scan_readers moments s =
      let (replacements, id) = scan moments 0 s.next_id s.readers in
      record s {
        phase = if any is_some replacements then scanned replacements else resting;
        next_id = id;
      }

-- The loop under the lock: the readers, and the retired ones. A replacement whose index is out of
-- range is dropped.
unfoldable pub swap : List Handle → List (Option Handle) → List Handle × List Handle
swap [] replacements = ([], [])
swap (h ∷ readers) [] = (h ∷ readers, [])
swap (h ∷ readers) (none ∷ replacements) =
    let (readers', retired) = swap readers replacements in (h ∷ readers', retired)
swap (h ∷ readers) (some fresh ∷ replacements) =
    let (readers', retired) = swap readers replacements in (fresh ∷ readers', h ∷ retired)

unfoldable pub swap_readers : List (Option Handle) → State → State
swap_readers replacements s =
    let (readers, retired) = swap s.readers replacements in
    record s { readers = readers; phase = swapped retired }

-- `p.cache.reset()`, and the start of the goroutine that waits.
unfoldable pub reset_cache : List Handle → State → State
reset_cache retired s = record s {
  cache = reset s.cache;
  phase = resting;
  pending = retired ∷ s.pending;
}

-- The end of a goroutine that waited, of the ones still waiting.
unfoldable pub release : List (List Handle) → List Handle → List (List Handle) → State → State
release before retired after s = record s {
  pending = before ++ after;
  closed = ids retired ++ s.closed;
}

unfoldable pub close : State → State
close s = record s { readers = []; stopped = true; closed = ids s.readers ++ s.closed }

module _ (uint_of_float : Float → ℕ) (in_memory : Bool) where
  -- What `refreshChanged` does behind its scan.
  unfoldable pub finish_refresh : Phase → State → State
  finish_refresh resting s = s
  finish_refresh (scanned replacements) s =
      let (readers, retired) = swap s.readers replacements in
      reset_cache retired (swap_readers replacements s)
  finish_refresh (swapped retired) s = reset_cache retired s

  -- `refreshChanged` where nothing comes between its parts.
  unfoldable pub refresh_changed : (ℕ → Moments) → State → State
  refresh_changed moments s =
      let s' = scan_readers uint_of_float in_memory moments s in finish_refresh s'.phase s'
