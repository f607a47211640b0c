-- ===== src/Ledger/Housekeeping.antt =====
-- The sweeps of the housekeeper: they never panic, and what they do to the counters.
use meowith.Base.{
  ℕ, ◌+◌, ◌%◌, ◌≡◌, ◌≢◌, inl, inr, Option, none, some, List, [], ◌∷◌, arith, Option-cases,
}
use meowith.Base.Dict.{
  Dict, lookup, remove, total, NodupKeys, contains_key, lookup-remove, remove-absent, total-remove,
}
use meowith.Base.Result.{ok, err}
use meowith.Ledger.State.{Env, Ledger, Reservation, MeowithIoResult, get_path, u64_mod}
use meowith.Ledger.Ops.{delete_chunk}
use meowith.Ledger.Sweep.{
  stale_reservations, sweep_broken, clean_broken_chunks, sweep_uncommitted, clean_uncommitted,
  sweep_one,
}
use meowith.Ledger.Balance.{Accounted, file_space_of, unreserve-Balanced}
use meowith.Ledger.Accounting.{delete_chunk-Accounted}

-- The marked ids can be taken out of the map one after the other.
abbrev Listed : List ℕ → Dict Reservation → Type 0
Listed [] m = Unit
Listed (id ∷ mark) m = (lookup id m ≢ none) × Listed mark (remove id m)

Listed-cons :
    (mark : List ℕ) (id : ℕ) (r : Reservation) (m : Dict Reservation)
    → lookup id m ≡ none
    → Listed mark m
    → Listed mark ((id, r) ∷ m)
unfolding lookup remove
Listed-cons [] id r m absent h = tt
Listed-cons (k ∷ mark) id r m absent h =
    ground (arith, lookup-remove k id m, Listed-cons mark id r (remove k m))

stale_reservations-Listed :
    (now : ℕ) (m : Dict Reservation) → NodupKeys m → Listed (stale_reservations now m) m
unfolding stale_reservations lookup remove
stale_reservations-Listed now [] u = tt
stale_reservations-Listed now ((id, r) ∷ m) u = ground (
  arith,
  stale_reservations-Listed now m u.1,
  remove-absent id m u.0,
  Listed-cons (stale_reservations now m) id r m u.0,
)

module _ {E : Env} where
  -- What a sweep leaves: balanced counters if every file was removed, and if a removal failed
  -- the counter still holds the space of the reservation that went with it.
  abbrev pub Swept : Ledger E → Ledger E × Option (MeowithIoResult (Unit {0})) → Type 0
  Swept l (l', none) = ⊥
  Swept l (l', some (ok _)) = Accounted l'
  Swept l (l', some (err _)) =
      (id : ℕ) × (r : Reservation) × (lookup id l.reservation_map ≡ some r)
      × (lookup id l'.reservation_map ≡ none)
      × (l'.disk_reserved_size ≡ (total file_space_of l'.reservation_map + r.file_space) % u64_mod)

  Swept-mono :
      (l m : Ledger E) (s : Ledger E × Option (MeowithIoResult (Unit {0})))
      → ((k : ℕ) (r : Reservation)
          → lookup k m.reservation_map ≡ some r
          → lookup k l.reservation_map ≡ some r)
      → Swept m s
      → Swept l s
  Swept-mono l m (l', none) sub h = h
  Swept-mono l m (l', some (ok _)) sub h = h
  Swept-mono l m (l', some (err _)) sub (id, r, found, gone, left) =
      (id, r, sub id r found, gone, left)

  sweep_broken-Swept :
      (mark : List ℕ) (l : Ledger E)
      → Accounted l
      → Listed mark l.reservation_map
      → Swept l (sweep_broken mark l)
  unfolding sweep_broken
  sweep_broken-Swept [] l h listed = h
  sweep_broken-Swept (id ∷ mark) l h listed = elim (Option-cases (lookup id l.reservation_map)) [
    | inl e ↦ absurd (listed.0 e)
    | inr (r, e) ↦
        elim (Option-cases
          (E.remove_file (get_path id (contains_key id l.uncommited_map)) l.files)) [
            | inl f ↦
                rw (e, f, sweep_broken)
                  (
                    id,
                    r,
                    e,
                    ground (arith, lookup-remove id id l.reservation_map),
                    omega (
                      arith,
                      h.reserved_sum,
                      total-remove file_space_of id r l.reservation_map h.reservations_once e,
                    ),
                  )
            | inr (files', f) ↦
                rw (e, f, sweep_broken)
                  (Swept-mono l (sweep_one id r files' l)
                    (sweep_broken mark (sweep_one id r files' l))
                    (λ k v g. ground (arith, lookup-remove id k l.reservation_map))
                    (sweep_broken-Swept mark (sweep_one id r files' l) (unreserve-Balanced h id r e)
                      listed.1))
          ]
  ]

  -- The sweep of broken reservations never panics. If every removal of a file succeeds it keeps
  -- the counters balanced; at the first that fails it stops, and some reservation is gone from
  -- the map whose space is still counted as reserved.
  pub clean_broken_chunks-Swept :
      (now : ℕ) (l : Ledger E) → Accounted l → Swept l (clean_broken_chunks now l)
  unfolding clean_broken_chunks
  clean_broken_chunks-Swept now l h =
      sweep_broken-Swept (stale_reservations now l.reservation_map) l h
        (stale_reservations-Listed now l.reservation_map h.reservations_once)

  sweep_uncommitted-Accounted :
      (mark : List ℕ) (l : Ledger E) → Accounted l → Accounted (sweep_uncommitted mark l).0
  unfolding sweep_uncommitted
  sweep_uncommitted-Accounted [] l h = h
  sweep_uncommitted-Accounted (id ∷ mark) l h = ground (
    arith,
    delete_chunk-Accounted l h id,
    sweep_uncommitted-Accounted mark (delete_chunk id l).0 (delete_chunk-Accounted l h id),
  )

  pub clean_uncommitted-Accounted :
      (now : ℕ) (l : Ledger E) → Accounted l → Accounted (clean_uncommitted now l).0
  unfolding clean_uncommitted
  clean_uncommitted-Accounted now l h = sweep_uncommitted-Accounted _ l h
