-- ===== src/Ledger/Ops.antt =====
-- The operations on one fragment of node/src/io/fragment_ledger.rs. Each runs under the write
-- lock of the map that it changes first, and is one step here.
use meowith.Base.{ℕ, ◌+◌, ◌-◌, ◌%◌, Bool, true, false, Option, none, some, ltb, ◌==◌, if◌then◌else◌}
use meowith.Base.Dict.{lookup, insert, remove, contains_key}
use meowith.Base.Result.{ok, err}
use meowith.Ledger.State.{
  Env, Ledger, MeowithIoError, not_found, internal, insufficient_disk_space, MeowithIoResult,
  Reservation, FragmentMeta, committed, uncommitted, get_path, u64_mod, fetch_add, fetch_sub,
}

module _ {E : Env} where
  unfoldable pub get_available_space : Ledger E → ℕ
  get_available_space l =
      let used = (l.disk_physical_size + l.disk_reserved_size) % u64_mod in
      l.max_physical_size - used

  unfoldable pub pause : Ledger E → Ledger E
  pause l = record l { paused = true }

  unfoldable pub resume : Ledger E → Ledger E
  resume l = record l { paused = false }

  unfoldable pub shutdown : Ledger E → Ledger E
  shutdown l = record l { paused = true; ext_metadata_store = none }

  unfoldable pub fragment_exists : ℕ → Ledger E → Bool
  fragment_exists chunk_id l = contains_key chunk_id l.chunk_set

  unfoldable pub existing_fragment_meta : ℕ → Ledger E → Option FragmentMeta
  existing_fragment_meta chunk_id l = lookup chunk_id l.chunk_set

  unfoldable pub existing_or_reserved_fragment_meta : ℕ → Ledger E → Option FragmentMeta
  unfolding existing_fragment_meta
  existing_or_reserved_fragment_meta chunk_id l = elim (lookup chunk_id l.reservation_map) [
    | some reserved ↦
        some (record { disk_content_size = reserved.completed; disk_physical_size = 0 })
    | none ↦ existing_fragment_meta chunk_id l
  ]

  abbrev pub ext_remove : ℕ → Ledger E → Option E.MetaStore
  ext_remove id l = elim l.ext_metadata_store [
    | none ↦ none
    | some store ↦ some (E.meta_remove id store)
  ]

  -- The maps and the counter that a new reservation changes, `id` being the fresh uuid.
  abbrev pub reserved_as : ℕ → ℕ → Bool → ℕ → E.MetaStore → Ledger E → Ledger E
  reserved_as id size durable now store l = record l {
    ext_metadata_store = some store;
    reservation_map =
        insert id
          (record { file_space = size; completed = 0; durable = durable; last_update = now })
          l.reservation_map;
    disk_reserved_size = fetch_add l.disk_reserved_size size;
    uncommited_map = insert id (record { access = now }) l.uncommited_map;
  }

  -- `id` is what `Uuid::new_v4` returns.
  unfoldable pub try_reserve :
      (size bucket_id file_id : ℕ) (durable : Bool) (id now : ℕ)
      → Ledger E
      → Ledger E × MeowithIoResult ℕ
  try_reserve size bucket_id file_id durable id now l =
      if l.paused
      then (l, err MeowithIoError.paused)
      else if ltb (get_available_space l) size
      then (l, err insufficient_disk_space)
      else elim l.ext_metadata_store [
        | none ↦ (l, err internal)
        | some store ↦
            elim (E.meta_insert id (record { bucket_id = bucket_id; file_id = file_id }) store) [
              | err e ↦ (l, err e)
              | ok store' ↦ (reserved_as id size durable now store' l, ok id)
            ]
      ]

  unfoldable pub refresh_reservation : ℕ → ℕ → Ledger E → Ledger E × MeowithIoResult Reservation
  refresh_reservation id now l = elim (lookup id l.reservation_map) [
    | none ↦ (l, err not_found)
    | some r ↦
        let r' = record r { last_update = now } in
        (record l { reservation_map = insert id r' l.reservation_map }, ok r')
  ]

  unfoldable pub resume_reservation : ℕ → ℕ → Ledger E → Ledger E × MeowithIoResult Reservation
  resume_reservation id now l = refresh_reservation id now l

  unfoldable pub pause_reservation : ℕ → ℕ → Ledger E → Ledger E × MeowithIoResult (Unit {0})
  pause_reservation id now l =
      let (l', r) = refresh_reservation id now l in (l', elim r [ ok _ ↦ ok tt | err e ↦ err e ])

  -- The file is removed last, and the result tells of it; the maps and the counter have changed.
  unfoldable pub cancel_reservation : ℕ → Ledger E → Ledger E × MeowithIoResult (Unit {0})
  cancel_reservation id l = elim (lookup id l.reservation_map) [
    | none ↦ (l, ok tt)
    | some r ↦
        let path = get_path id (contains_key id l.uncommited_map) in
        let l' : Ledger E = record l {
          reservation_map = remove id l.reservation_map;
          uncommited_map = remove id l.uncommited_map;
          ext_metadata_store = ext_remove id l;
          disk_reserved_size = fetch_sub l.disk_reserved_size r.file_space;
        } in
        elim (E.remove_file path l.files) [
          | none ↦ (l', err internal)
          | some files' ↦ (record l' { files = files' }, ok tt)
        ]
  ]

  -- The three branches of `release_reservation`, for the reservation `r` of `id`.
  abbrev pub release_completed : ℕ → ℕ → Ledger E → Ledger E × MeowithIoResult (Unit {0})
  release_completed id size_actual l =
      elim (E.size_on_disk (get_path id (contains_key id l.uncommited_map)) l.files) [
        | none ↦ (l, err internal)
        | some physical_size ↦ (
          record l {
            disk_physical_size = fetch_add l.disk_physical_size physical_size;
            disk_content_size = fetch_add l.disk_content_size size_actual;
            reservation_map = remove id l.reservation_map;
            disk_reserved_size = fetch_sub l.disk_reserved_size size_actual;
            chunk_set =
                insert id
                  (record { disk_content_size = size_actual; disk_physical_size = physical_size })
                  l.chunk_set;
          },
          ok tt,
        )
      ]

  abbrev pub release_broken : ℕ → ℕ → ℕ → Reservation → Ledger E → Ledger E
  release_broken id size_actual now r l = record l {
    reservation_map =
        insert id (record r { completed = size_actual; last_update = now }) l.reservation_map;
  }

  abbrev pub release_dropped : ℕ → Reservation → Ledger E → Ledger E × MeowithIoResult (Unit {0})
  release_dropped id r l =
      let path = get_path id (contains_key id l.uncommited_map) in
      let l' : Ledger E = record l {
        reservation_map = remove id l.reservation_map;
        uncommited_map = remove id l.uncommited_map;
        disk_reserved_size = fetch_sub l.disk_reserved_size r.file_space;
      } in
      elim (E.remove_file path l.files) [
        | none ↦ (l', err internal)
        | some files' ↦ (record l' { files = files' }, ok tt)
      ]

  unfoldable pub release_reservation :
      (id size_actual now : ℕ) → Ledger E → Ledger E × MeowithIoResult (Unit {0})
  release_reservation id size_actual now l = elim (lookup id l.reservation_map) [
    | none ↦ (l, err not_found)
    | some r ↦
        if size_actual == r.file_space
        then release_completed id size_actual l
        else if r.durable
        then (release_broken id size_actual now r l, ok tt)
        else release_dropped id r l
  ]

  unfoldable pub commit_chunk : ℕ → Ledger E → Ledger E × MeowithIoResult (Unit {0})
  commit_chunk id l = elim (lookup id l.uncommited_map) [
    | none ↦ (l, ok tt)
    | some _ ↦
        let l' : Ledger E = record l { uncommited_map = remove id l.uncommited_map } in
        elim (E.rename (uncommitted id) (committed id) l.files) [
          | none ↦ (l', err internal)
          | some files' ↦ (record l' { files = files' }, ok tt)
        ]
  ]

  unfoldable pub commit_alive : ℕ → ℕ → Ledger E → Ledger E × MeowithIoResult (Unit {0})
  commit_alive chunk_id now l =
      let (l', reservation) = refresh_reservation chunk_id now l in
      elim (lookup chunk_id l'.uncommited_map) [
        | some _ ↦ (
          record l' {
            uncommited_map = insert chunk_id (record { access = now }) l'.uncommited_map;
          },
          ok tt,
        )
        | none ↦ (l', elim reservation [ ok _ ↦ ok tt | err _ ↦ err not_found ])
      ]

  -- The bookkeeping of `delete_chunk`, once the file is gone.
  abbrev pub forget_chunk : ℕ → Ledger E → Ledger E
  forget_chunk chunk_id l = elim (lookup chunk_id l.chunk_set) [
    | some chunk ↦ record l {
      chunk_set = remove chunk_id l.chunk_set;
      disk_content_size = fetch_sub l.disk_content_size chunk.disk_content_size;
      disk_physical_size = fetch_sub l.disk_physical_size chunk.disk_physical_size;
    }
    | none ↦ elim (lookup chunk_id l.reservation_map) [
      | some broken ↦ record l {
        reservation_map = remove chunk_id l.reservation_map;
        disk_reserved_size = fetch_sub l.disk_reserved_size broken.file_space;
      }
      | none ↦ l
    ]
  ]

  unfoldable pub delete_chunk : ℕ → Ledger E → Ledger E × MeowithIoResult (Unit {0})
  delete_chunk chunk_id l =
      let path = get_path chunk_id (contains_key chunk_id l.uncommited_map) in
      let l' : Ledger E = record l {
        ext_metadata_store = ext_remove chunk_id l;
        uncommited_map = remove chunk_id l.uncommited_map;
      } in
      elim (E.remove_file path l.files) [
        | none ↦ (l', err not_found)
        | some files' ↦ (forget_chunk chunk_id (record l' { files = files' }), ok tt)
      ]
