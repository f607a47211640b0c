-- ===== src/Tests/Ledger.antt =====
-- A ledger over a file system kept in memory.
use meowith.Base.{ℕ, ◌+◌, ◌*◌, ◌≡◌, refl, true, false, none, some, [], ◌∷◌, arith}
use meowith.Base.Dict.{Dict, lookup, insert, remove, total}
use meowith.Base.Result.{ok, err}
use meowith.Ledger.State.{
  Env, Ledger, FilePath, committed, uncommitted, ExtFragmentMeta, not_found,
  insufficient_disk_space, Reservation,
}
use meowith.Ledger.Ops.{try_reserve, delete_chunk, commit_chunk, get_available_space}
use meowith.Ledger.Sweep.{clean_broken_chunks, sweep_broken, stale_reservations}
use meowith.Ledger.Balance.{Accounted}
use meowith.Ledger.Housekeeping.{Swept, clean_broken_chunks-Swept}
use meowith.Ledger.History.{reserves, releases, commits, deletes, pauses, step, run, run-Accounted}
use meowith.Ledger.Space.{try_reserve_within}

abbrev path_code : FilePath → ℕ
path_code (committed id) = 2 * id
path_code (uncommitted id) = 2 * id + 1

-- Files by the code of their path, with their size on disk; and a store of fragment metadata.
abbrev pub memory : Env
memory = record {
  Files = Dict ℕ;
  remove_file = λ p fs. elim (lookup (path_code p) fs) [
    | none ↦ none
    | some _ ↦ some (remove (path_code p) fs)
  ];
  rename = λ p q fs. elim (lookup (path_code p) fs) [
    | none ↦ none
    | some n ↦ some (insert (path_code q) n (remove (path_code p) fs))
  ];
  size_on_disk = λ p fs. lookup (path_code p) fs;
  MetaStore = Dict ExtFragmentMeta;
  meta_insert = λ id m s. ok (insert id m s);
  meta_get = λ id s. elim (lookup id s) [ none ↦ err not_found | some m ↦ ok m ];
  meta_remove = λ id s. remove id s;
}

abbrev empty : Ledger memory
empty = record {
  chunk_set = [];
  reservation_map = [];
  uncommited_map = [];
  ext_metadata_store = some [];
  max_physical_size = 1000;
  disk_physical_size = 0;
  disk_content_size = 0;
  disk_reserved_size = 0;
  paused = false;
  files = [];
}

abbrev half_done : Reservation
half_done = record { file_space = 300; completed = 0; durable = true; last_update = 0 }

-- Fragment 1 is stored, fragment 2 is reserved for a durable upload that has written a file, and
-- fragment 3 is reserved with no file yet.
abbrev pub busy : Ledger memory
busy = record empty {
  chunk_set = (1, record { disk_content_size = 90; disk_physical_size = 100 }) ∷ [];
  reservation_map =
      (2, half_done)
      ∷ (3, record { file_space = 50; completed = 0; durable = false; last_update = 0 })
      ∷ [];
  uncommited_map = (2, record { access = 0 }) ∷ (3, record { access = 0 }) ∷ [];
  disk_physical_size = 100;
  disk_content_size = 90;
  disk_reserved_size = 350;
  files = (2, 100) ∷ (5, 128) ∷ [];
}

pub busy-Accounted : Accounted busy
unfolding total lookup
busy-Accounted = record {
  reserved_sum = refl;
  content_sum = refl;
  physical_sum = refl;
  reservations_once = (refl, (refl, tt));
  chunks_once = (refl, tt);
  apart = λ k h. ground arith;
}

reserve_runs : (try_reserve 600 7 8 true 4 10 busy).1 ≡ err insufficient_disk_space
unfolding try_reserve get_available_space
reserve_runs = refl

history_runs :
    (run busy (reserves 200 7 8 false 4 10 ∷ deletes 1 ∷ commits 2 ∷ [])).disk_reserved_size ≡ 550
unfolding run step try_reserve delete_chunk commit_chunk get_available_space insert lookup remove
history_runs = refl

run-Accounted_example :
    Accounted (run busy (reserves 200 7 8 false 4 10 ∷ releases 2 300 11 ∷ deletes 1 ∷ pauses ∷ []))
unfolding lookup
run-Accounted_example =
    run-Accounted busy (reserves 200 7 8 false 4 10 ∷ releases 2 300 11 ∷ deletes 1 ∷ pauses ∷ [])
      busy-Accounted ((refl, refl), (tt, (tt, (tt, tt))))

-- Two hours later both reservations are stale. The file of fragment 3 was never made.
clean_broken_chunks-Swept_example : Swept busy (clean_broken_chunks 7_200_000_000_000 busy)
clean_broken_chunks-Swept_example = clean_broken_chunks-Swept 7_200_000_000_000 busy busy-Accounted

sweep_leaks :
    ((clean_broken_chunks 7_200_000_000_000 busy).0.disk_reserved_size ≡ 50)
    × ((clean_broken_chunks 7_200_000_000_000 busy).0.reservation_map ≡ [])
unfolding clean_broken_chunks sweep_broken stale_reservations lookup remove
sweep_leaks = (refl, refl)

try_reserve_within_example :
    (get_available_space (try_reserve 200 7 8 true 4 10 busy).0 + 200 ≡ get_available_space busy)
unfolding try_reserve get_available_space insert
try_reserve_within_example =
    (try_reserve_within busy 200 7 8 true 4 10 {x = 4} (omega arith) (omega arith) (omega arith)
      refl).1
