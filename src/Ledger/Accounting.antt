-- ===== src/Ledger/Accounting.antt =====
-- Every operation of the ledger on one fragment keeps its counters balanced with its maps,
-- whether it succeeds or fails.
use meowith.Base.{ℕ, ◌≡◌, refl, inl, inr, Bool, none, some, arith, Option-cases}
use meowith.Base.Dict.{lookup, contains_key}
use meowith.Ledger.State.{Env, Ledger, Reservation, get_path}
use meowith.Ledger.Ops.{
  refresh_reservation, release_reservation, try_reserve, cancel_reservation, delete_chunk,
  commit_chunk, commit_alive, release_completed,
}
use meowith.Ledger.Balance.{
  Accounted, reserve-Balanced, unreserve-Balanced, touch-Balanced, unstore-Balanced,
  complete-Balanced,
}

module _ {E : Env} (l : Ledger E) (h : Accounted l) where
  pub try_reserve-Accounted :
      (size bucket_id file_id : ℕ) (durable : Bool) (id now : ℕ)
      → lookup id l.reservation_map ≡ none
      → lookup id l.chunk_set ≡ none
      → Accounted (try_reserve size bucket_id file_id durable id now l).0
  unfolding try_reserve
  try_reserve-Accounted size bucket_id file_id durable id now fresh_r fresh_c = ground (
    arith,
    reserve-Balanced h id
        (record { file_space = size; completed = 0; durable = durable; last_update = now }) fresh_r
        fresh_c,
  )

  pub refresh_reservation-Accounted : (id now : ℕ) → Accounted (refresh_reservation id now l).0
  unfolding refresh_reservation
  refresh_reservation-Accounted id now = elim (Option-cases (lookup id l.reservation_map)) [
    | inl e ↦ rw (e, refresh_reservation) h
    | inr (r, e) ↦
        rw (e, refresh_reservation) (touch-Balanced h id r (record r { last_update = now }) e refl)
  ]

  pub cancel_reservation-Accounted : (id : ℕ) → Accounted (cancel_reservation id l).0
  unfolding cancel_reservation
  cancel_reservation-Accounted id = elim (Option-cases (lookup id l.reservation_map)) [
    | inl e ↦ rw (e, cancel_reservation) h
    | inr (r, e) ↦ ground (arith, unreserve-Balanced h id r e)
  ]

  pub commit_chunk-Accounted : (id : ℕ) → Accounted (commit_chunk id l).0
  unfolding commit_chunk
  commit_chunk-Accounted id = ground arith

  pub delete_chunk-Accounted : (id : ℕ) → Accounted (delete_chunk id l).0
  unfolding delete_chunk
  delete_chunk-Accounted id = elim (Option-cases (lookup id l.chunk_set)) [
    | inr (m, e) ↦ ground (arith, unstore-Balanced h id m e)
    | inl e ↦ elim (Option-cases (lookup id l.reservation_map)) [
      | inr (r, f) ↦ ground (arith, unreserve-Balanced h id r f)
      | inl f ↦ ground arith
    ]
  ]

  pub commit_alive-Accounted : (id now : ℕ) → Accounted (commit_alive id now l).0
  unfolding commit_alive
  commit_alive-Accounted id now = ground (arith, refresh_reservation-Accounted id now)

  release_completed-Accounted :
      (id size_actual : ℕ) (r : Reservation)
      → lookup id l.reservation_map ≡ some r
      → size_actual ≡ r.file_space
      → Accounted (release_completed id size_actual l).0
  release_completed-Accounted id size_actual r e same =
      elim (Option-cases
        (E.size_on_disk (get_path id (contains_key id l.uncommited_map)) l.files)) [
          | inl f ↦ rw (f, release_completed) h
          | inr (n, f) ↦ rw (f, release_completed) (complete-Balanced h id r size_actual n e same)
        ]

  pub release_reservation-Accounted :
      (id size_actual now : ℕ) → Accounted (release_reservation id size_actual now l).0
  unfolding release_reservation
  release_reservation-Accounted id size_actual now =
      elim (Option-cases (lookup id l.reservation_map)) [
        | inl e ↦ rw (e, release_reservation) h
        | inr (r, e) ↦ ground (
          arith,
          release_completed-Accounted id size_actual r e,
          unreserve-Balanced h id r e,
          touch-Balanced h id r (record r { completed = size_actual; last_update = now }) e refl,
        )
      ]
