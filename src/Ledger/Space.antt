-- ===== src/Ledger/Space.antt =====
-- Reserving space: the limit, the refusals, and what becomes of a reservation.
use meowith.Base.{
  ℕ, ◌+◌, ◌≤◌, ◌<◌, ◌≡◌, ◌≢◌, inl, inr, Bool, false, none, some, arith, Bool-cases, if◌then◌else◌,
}
use meowith.Base.Dict.{lookup, contains_key, lookup-insert, lookup-remove, remove-insert_new}
use meowith.Base.Result.{ok, err}
use meowith.Ledger.State.{
  Env, Ledger, MeowithIoError, Reservation, get_path, u64_mod, fetch_add, fetch_sub,
}
use meowith.Ledger.Ops.{
  get_available_space, try_reserve, cancel_reservation, release_reservation, delete_chunk,
  fragment_exists, existing_fragment_meta, existing_or_reserved_fragment_meta,
}
use meowith.Ledger.Balance.{Accounted}

module _ {E : Env} (l : Ledger E) where
  -- A reservation of at least one byte that succeeds leaves the space in use within the limit of the node, and takes
  -- its size from the space that is available, if what was in use before fits a word.
  pub try_reserve_within :
      (size bucket_id file_id : ℕ) (durable : Bool) (id now : ℕ) {x : ℕ}
      → 0 < size
      → l.disk_physical_size + l.disk_reserved_size < u64_mod
      → l.max_physical_size < u64_mod
      → (try_reserve size bucket_id file_id durable id now l).1 ≡ ok x
      → let l' = (try_reserve size bucket_id file_id durable id now l).0 in
        (l'.disk_physical_size + l'.disk_reserved_size ≤ l.max_physical_size)
        × (get_available_space l' + size ≡ get_available_space l)
  unfolding try_reserve get_available_space
  try_reserve_within size bucket_id file_id durable id now pos h m e = ground arith

  pub try_reserve_id :
      (size bucket_id file_id : ℕ) (durable : Bool) (id now : ℕ) {x : ℕ}
      → (try_reserve size bucket_id file_id durable id now l).1 ≡ ok x
      → x ≡ id
  unfolding try_reserve
  try_reserve_id size bucket_id file_id durable id now h = ground arith

  -- A reservation that fails for any reason leaves the ledger as it was.
  pub try_reserve_failed :
      (size bucket_id file_id : ℕ) (durable : Bool) (id now : ℕ) {e : MeowithIoError}
      → (try_reserve size bucket_id file_id durable id now l).1 ≡ err e
      → (try_reserve size bucket_id file_id durable id now l).0 ≡ l
  unfolding try_reserve
  try_reserve_failed size bucket_id file_id durable id now h = ground arith

  -- Cancelling a reservation under a fresh id undoes it in both maps and in the counter, also
  -- when the file cannot be removed because nothing was uploaded.
  pub cancel_reservation-try_reserve :
      (size bucket_id file_id : ℕ) (durable : Bool) (id now : ℕ)
      → lookup id l.reservation_map ≡ none
      → lookup id l.uncommited_map ≡ none
      → l.disk_reserved_size < u64_mod
      → let l' =
          (cancel_reservation id (try_reserve size bucket_id file_id durable id now l).0).0 in
        (l'.reservation_map ≡ l.reservation_map)
        × (l'.uncommited_map ≡ l.uncommited_map)
        × (l'.disk_reserved_size ≡ l.disk_reserved_size)
  unfolding try_reserve cancel_reservation
  cancel_reservation-try_reserve size bucket_id file_id durable id now fr fu small =
      let r : Reservation = record {
        file_space = size;
        completed = 0;
        durable = durable;
        last_update = now;
      } in
      ground (
        arith,
        lookup-insert id id r l.reservation_map,
        remove-insert_new id r l.reservation_map,
        remove-insert_new id (record { access = now }) l.uncommited_map,
      )

  -- An upload that stops at `n` bytes, short of the reserved size. A durable one keeps its
  -- reservation and its space, and a query answers `n`; any other is dropped with its space.
  pub release_reservation_short :
      (id n now : ℕ) (r : Reservation)
      → lookup id l.reservation_map ≡ some r
      → n ≢ r.file_space
      → let l' = (release_reservation id n now l).0 in
        (fragment_exists id l' ≡ fragment_exists id l)
        × (if r.durable
            then (existing_or_reserved_fragment_meta id l'
                ≡ some (record { disk_content_size = n; disk_physical_size = 0 }))
              × (l'.disk_reserved_size ≡ l.disk_reserved_size)
            else (lookup id l'.reservation_map ≡ none)
              × (l'.disk_reserved_size ≡ fetch_sub l.disk_reserved_size r.file_space))
  unfolding release_reservation existing_or_reserved_fragment_meta fragment_exists
  release_reservation_short id n now r e ne = elim (Bool-cases r.durable) [
    | inl d ↦ rw d (
        ground (
          arith,
          lookup-insert id id (record r { completed = n; last_update = now }) l.reservation_map,
        ))
    | inr d ↦ rw d (ground (arith, lookup-remove id id l.reservation_map))
  ]

  -- An upload that reaches the reserved size, its file's size on disk being known: the fragment
  -- is stored with its size, its reservation is gone, and its space is used instead of reserved.
  release_reservation_full :
      (id now physical : ℕ) (r : Reservation)
      → lookup id l.reservation_map ≡ some r
      → E.size_on_disk (get_path id (contains_key id l.uncommited_map)) l.files ≡ some physical
      → let l' = (release_reservation id r.file_space now l).0 in
        (existing_fragment_meta id l'
          ≡ some (record { disk_content_size = r.file_space; disk_physical_size = physical }))
        × (lookup id l'.reservation_map ≡ none)
        × (l'.disk_reserved_size ≡ fetch_sub l.disk_reserved_size r.file_space)
        × (l'.disk_physical_size ≡ fetch_add l.disk_physical_size physical)
        × (l'.uncommited_map ≡ l.uncommited_map)
  unfolding release_reservation existing_fragment_meta
  release_reservation_full id now physical r e f = ground (
    arith,
    lookup-insert id id (record { disk_content_size = r.file_space; disk_physical_size = physical })
        l.chunk_set,
    lookup-remove id id l.reservation_map,
  )

  -- A fragment whose deletion succeeds, in a ledger with balanced counters, is stored no more,
  -- reserved no more, and no longer waits for a commit.
  delete_chunk_gone :
      (id : ℕ)
      → Accounted l
      → (delete_chunk id l).1 ≡ ok tt
      → let l' = (delete_chunk id l).0 in
        (lookup id l'.uncommited_map ≡ none)
        × (fragment_exists id l' ≡ false)
        × (lookup id l'.reservation_map ≡ none)
  unfolding delete_chunk fragment_exists
  delete_chunk_gone id h done = ground (
    arith,
    h.apart id,
    lookup-remove id id l.uncommited_map,
    lookup-remove id id l.chunk_set,
    lookup-remove id id l.reservation_map,
  )
