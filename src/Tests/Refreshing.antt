-- ===== src/Tests/Refreshing.antt =====
-- The provider of two small databases, one of which changes on disk.
use traefik_plugin_ipgeoloca.Base.{
  ℕ, ◌≡◌, ◌≤◌, refl, List, [], ◌∷◌, Option, none, some, true, false, ◌⊎◌, if◌then◌else◌, length, ok,
  arith,
}
use traefik_plugin_ipgeoloca.Base.Text.{Str, codes, str_eq}
use traefik_plugin_ipgeoloca.Cache.{reset}
use traefik_plugin_ipgeoloca.Database.{FileSystem, Database}
use traefik_plugin_ipgeoloca.Provider.Refresh.{
  Handle, OpenTimes, Moments, resting, scanned, State, ids, new_mmdb_provider, scan_readers,
  swap_readers, close, refresh_changed,
}
use traefik_plugin_ipgeoloca.Provider.Refresh.Opening.{HasOpened, new_mmdb_provider-HasOpened}
use traefik_plugin_ipgeoloca.Provider.Refresh.Renewal.{
  AreRenewed, databases_of, refresh_changed-AreRenewed,
}
use traefik_plugin_ipgeoloca.Provider.Refresh.Runs.{
  Reach, here, next, scans, swaps, Serving, Reach-paths,
}
use traefik_plugin_ipgeoloca.Provider.Refresh.Accounts.{Reach-serving, Reach-tally}
use traefik_plugin_ipgeoloca.Provider.Refresh.Counts.{count, tally, pending_ids}
use traefik_plugin_ipgeoloca.Tests.Program.{decoder, reading, refreshing}
use traefik_plugin_ipgeoloca.Tests.Database.{small, truncated, in_memory_reader}

-- A disk with the small database under every path, last written at a time.
abbrev pub disk : ℕ → FileSystem
disk time = record {
  stat = λ path. some (record { is_dir = false; size = length small; mod_time = time });
  read_file = λ path. some small;
  open_path = λ path. none;
}

-- The disk at the calls of `New`: each file is written once more between its Stat and its reading.
abbrev pub at_start : ℕ → OpenTimes
at_start n = record { at_stat = disk 1; at_open = disk 2 }

abbrev first_path : Str
first_path = codes "a"

abbrev pub two_paths : List Str
two_paths = first_path ∷ codes "b" ∷ []

abbrev pub database : Str → ℕ → Database
database path time = record {
  path = path;
  reader = in_memory_reader;
  file_size = length small;
  mod_time = time;
}

abbrev handle : ℕ → Str → ℕ → Handle
handle id path time = record { id = id; database = database path time }

abbrev served : State
served = record {
  readers = handle 0 first_path 1 ∷ handle 1 (codes "b") 1 ∷ [];
  cache = none;
  stopped = false;
  phase = resting;
  pending = [];
  closed = [];
  next_id = 2;
}

opened : new_mmdb_provider truncated true at_start none two_paths ≡ ok served
unfolding decoder reading refreshing
opened = refl

new_mmdb_provider-HasOpened_example :
    HasOpened truncated true at_start two_paths
      (new_mmdb_provider truncated true at_start none two_paths)
new_mmdb_provider-HasOpened_example =
    new_mmdb_provider-HasOpened truncated true at_start none two_paths

-- The first file is gone at the time of the refresh, the second one is new.
abbrev later : FileSystem
later = record (disk 2) {
  stat = λ path.
      if str_eq path first_path
      then none
      else some (record { is_dir = false; size = length small; mod_time = 2 });
}

abbrev moments : ℕ → Moments
moments i = record { at_changed = later; at_stat = later; at_open = later }

refresh_changed-AreRenewed_example :
    AreRenewed truncated true moments 0
      (databases_of served.readers)
      (databases_of (refresh_changed truncated true moments served).readers)
    × ((refresh_changed truncated true moments served ≡ served)
        ⊎ ((refresh_changed truncated true moments served).cache ≡ reset served.cache))
refresh_changed-AreRenewed_example = refresh_changed-AreRenewed truncated true moments served refl

abbrev replacements : List (Option Handle)
replacements = none ∷ some (handle 2 (codes "b") 2) ∷ []

abbrev scanned_state : State
scanned_state = scan_readers truncated true moments served

scanned_phase : scanned_state.phase ≡ scanned replacements
unfolding decoder reading refreshing
scanned_phase = refl

abbrev swapped_state : State
swapped_state = swap_readers replacements scanned_state

run_to_swap : Reach truncated true served swapped_state
run_to_swap =
    next (next here (scans moments served refl)) (swaps replacements scanned_state scanned_phase)

Reach-paths_example :
    Serving truncated true two_paths swapped_state
    × ((u : State)
        → Reach truncated true (close swapped_state) u
        → (u.stopped ≡ true) × (u.readers ≡ []))
Reach-paths_example = Reach-paths truncated true two_paths at_start none opened run_to_swap

Reach-serving_example :
    (1 ≤ count 2 (ids swapped_state.readers)
      → (count 2 (ids swapped_state.readers) ≡ 1)
        × (count 2 (pending_ids swapped_state.pending) ≡ 0)
        × (count 2 swapped_state.closed ≡ 0))
    × (count 2 swapped_state.closed ≤ 1)
Reach-serving_example =
    Reach-serving truncated true at_start none two_paths served opened swapped_state run_to_swap 2

three_opened : swapped_state.next_id ≡ 3
unfolding decoder reading refreshing
three_opened = refl

still_running : swapped_state.stopped ≡ false
unfolding decoder reading refreshing
still_running = refl

Reach-tally_example : tally 1 swapped_state ≡ 1
Reach-tally_example =
    Reach-tally truncated true at_start none two_paths served opened swapped_state run_to_swap 1
      still_running (omega (arith, three_opened))

-- A refresh that `close` overtakes opens a handle that is never closed.
lost_after_close : tally 2 (swap_readers replacements (close scanned_state)) ≡ 0
unfolding decoder reading refreshing
lost_after_close = refl
