-- ===== src/Ledger/Sweep.antt =====
-- The housekeeper of node/src/io/fragment_ledger.rs: the task that `FragmentLedger::new` spawns
-- runs these two sweeps in turn. The result `none` is a panic of the task.
use meowith.Base.{ℕ, ◌-◌, Bool, Option, none, some, List, [], ◌∷◌, ltb, if◌then◌else◌}
use meowith.Base.Dict.{Dict, lookup, remove, contains_key}
use meowith.Base.Result.{ok, err}
use meowith.Ledger.State.{
  Env, Ledger, internal, MeowithIoResult, Reservation, CommitInfo, get_path, fetch_sub,
  validity_time,
}
use meowith.Ledger.Ops.{ext_remove, delete_chunk}

-- `Instant::elapsed() > max`; an instant in the future has elapsed zero.
abbrev pub is_stale : ℕ → ℕ → Bool
is_stale now since = ltb validity_time (now - since)

unfoldable pub stale_reservations : ℕ → Dict Reservation → List ℕ
stale_reservations now [] = []
stale_reservations now ((id, r) ∷ m) =
    let rest = stale_reservations now m in if is_stale now r.last_update then id ∷ rest else rest

unfoldable pub stale_uncommitted : ℕ → Dict CommitInfo → List ℕ
stale_uncommitted now [] = []
stale_uncommitted now ((id, info) ∷ m) =
    let rest = stale_uncommitted now m in if is_stale now info.access then id ∷ rest else rest

module _ {E : Env} where
  -- The maps after one round of the loop of `clean_broken_chunks`, before the file is removed.
  abbrev pub unlist_broken : ℕ → Ledger E → Ledger E
  unlist_broken id l = record l {
    uncommited_map = remove id l.uncommited_map;
    reservation_map = remove id l.reservation_map;
    ext_metadata_store = ext_remove id l;
  }

  -- The same with the file removed.
  abbrev pub sweep_one : ℕ → Reservation → E.Files → Ledger E → Ledger E
  sweep_one id reservation files' l = record (unlist_broken id l) {
    files = files';
    disk_reserved_size = fetch_sub l.disk_reserved_size reservation.file_space;
  }

  unfoldable pub sweep_broken : List ℕ → Ledger E → Ledger E × Option (MeowithIoResult (Unit {0}))
  sweep_broken [] l = (l, some (ok tt))
  sweep_broken (id ∷ mark) l = elim (lookup id l.reservation_map) [
    | none ↦ (l, none)
    | some reservation ↦
        let path = get_path id (contains_key id l.uncommited_map) in
        elim (E.remove_file path l.files) [
          | none ↦ (unlist_broken id l, some (err internal))
          | some files' ↦ sweep_broken mark (sweep_one id reservation files' l)
        ]
  ]

  unfoldable pub clean_broken_chunks : ℕ → Ledger E → Ledger E × Option (MeowithIoResult (Unit {0}))
  clean_broken_chunks now l = sweep_broken (stale_reservations now l.reservation_map) l

  unfoldable pub sweep_uncommitted : List ℕ → Ledger E → Ledger E × MeowithIoResult (Unit {0})
  sweep_uncommitted [] l = (l, ok tt)
  sweep_uncommitted (id ∷ mark) l =
      let (l', r) = delete_chunk id l in
      elim r [ err e ↦ (l', err e) | ok _ ↦ sweep_uncommitted mark l' ]

  unfoldable pub clean_uncommitted : ℕ → Ledger E → Ledger E × MeowithIoResult (Unit {0})
  clean_uncommitted now l = sweep_uncommitted (stale_uncommitted now l.uncommited_map) l
