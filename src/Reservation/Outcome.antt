-- ===== src/Reservation/Outcome.antt =====
-- What `reserve_chunks` leaves, when it succeeds and when it fails.
use meowith.Base.{
  ℕ, ◌≡◌, refl, sym, subst, inl, inr, Bool, true, false, List, [], ◌∷◌, Bool-cases, Option-cases,
  ltb,
}
use meowith.Base.Dict.{Dict, insert, NodupKeys, insert-NodupKeys}
use meowith.Base.Result.{Result, ok, err}
use meowith.Ledger.State.{Env}
use meowith.Ledger.Ops.{get_available_space}
use meowith.Reservation.Targets.{ReservationMode}
use meowith.Reservation.Fit.{resolve_targets-Fit}
use meowith.Reservation.Reserve.{
  ReserveFlags, NodeClientError, Peers, AppState, insert_all, reserve_chunks, refresh_peer_data,
  safe_refresh_peer_data, refresh_due, retry_targets, after_refresh, targets_of,
}
use meowith.Reservation.Rollback.{SameReservations, Ready, reserve_all-SameReservations}

insert_all-NodupKeys :
    (peers : List (ℕ × ℕ)) (m : Dict ℕ) → NodupKeys m → NodupKeys (insert_all peers m)
insert_all-NodupKeys [] m u = u
insert_all-NodupKeys ((peer, storage) ∷ peers) m u =
    insert_all-NodupKeys peers (insert peer storage m) (insert-NodupKeys peer storage m u)

module _ {E : Env} {P : Peers} (me heart_beat_interval_seconds now : ℕ) where
  -- A refresh keeps the ledger, and the map has each node once.
  pub record Refreshed (s s' : AppState E P) : Type 0 where
    pub ledger : s'.fragment_ledger ≡ s.fragment_ledger
    pub once : NodupKeys s'.node_storage_map

  pub safe_refresh_peer_data-Refreshed :
      (s : AppState E P)
      → NodupKeys s.node_storage_map
      → Refreshed s (safe_refresh_peer_data me heart_beat_interval_seconds now s).0
  unfolding safe_refresh_peer_data refresh_peer_data
  safe_refresh_peer_data-Refreshed s u =
      elim (Bool-cases (refresh_due heart_beat_interval_seconds now s.last_peer_refresh)) [
        | inl d ↦ rw d (elim (Option-cases (P.fetch_peer_storage_info s.net).1) [
          | inl h ↦ record {
            ledger = rw (refresh_peer_data, h) refl;
            once = rw (refresh_peer_data, h) u;
          }
          | inr (peers, h) ↦ record {
            ledger = rw (refresh_peer_data, h) refl;
            once = rw (refresh_peer_data, h) (insert_all-NodupKeys peers s.node_storage_map u);
          }
        ])
        | inr d ↦ rw d (record { ledger = refl; once = u })
      ]

  module _ (size bucket_id file_id : ℕ) (flags : ReserveFlags) (mode : ReservationMode)
      (new_id : ℕ → ℕ) where
    pub targets_once :
        (s : AppState E P)
        → NodupKeys s.node_storage_map
        → NodupKeys (targets_of me heart_beat_interval_seconds now size mode s).0
    targets_once s u =
        (resolve_targets-Fit me (get_available_space s.fragment_ledger) s.node_storage_map size mode
          u).distinct

    retry_targets-SameReservations :
        (s : AppState E P) {e : NodeClientError}
        → NodupKeys s.node_storage_map
        → Ready new_id s.fragment_ledger
        → (retry_targets me heart_beat_interval_seconds now size bucket_id file_id flags mode new_id
            s).1
          ≡ err e
        → SameReservations s.fragment_ledger
            (retry_targets me heart_beat_interval_seconds now size bucket_id file_id flags mode
              new_id s).0.fragment_ledger
    retry_targets-SameReservations s {e = e} u ready failed =
        elim (Bool-cases (ltb 0 (targets_of me heart_beat_interval_seconds now size mode s).1)) [
          | inl d ↦ rw d (record { reservations = refl; uncommitted = refl; reserved = refl })
          | inr d ↦ rw d (
              reserve_all-SameReservations me heart_beat_interval_seconds now bucket_id file_id
                flags new_id (targets_of me heart_beat_interval_seconds now size mode s).0 s {e = e}
                ready (targets_once s u) (rw d at failed))
        ]

    after_refresh-SameReservations :
        (s : AppState E P) (p : AppState E P × Result NodeClientError Bool) {e : NodeClientError}
        → Ready new_id s.fragment_ledger
        → Refreshed s p.0
        → (after_refresh me heart_beat_interval_seconds now size bucket_id file_id flags mode new_id
            p).1
          ≡ err e
        → SameReservations s.fragment_ledger
            (after_refresh me heart_beat_interval_seconds now size bucket_id file_id flags mode
              new_id p).0.fragment_ledger
    after_refresh-SameReservations s (s', err _) ready h failed =
        rw (h.ledger) (record { reservations = refl; uncommitted = refl; reserved = refl })
    after_refresh-SameReservations s (s', ok false) ready h failed =
        rw (h.ledger) (record { reservations = refl; uncommitted = refl; reserved = refl })
    after_refresh-SameReservations s (s', ok true) {e = e} ready h failed =
        subst
          (λ l.
            SameReservations l
              (retry_targets me heart_beat_interval_seconds now size bucket_id file_id flags mode
                new_id s').0.fragment_ledger)
          (h.ledger)
          (retry_targets-SameReservations s' {e = e} h.once
            (subst (Ready new_id) (sym h.ledger) ready) failed)

    -- A reservation that fails, at whatever point, leaves this node's ledger with the
    -- reservations, the uncommitted fragments and the reserved space that it had: what it had
    -- reserved here is cancelled. The ids to come must be fresh, and the storage map a map.
    pub reserve_chunks-SameReservations :
        (s : AppState E P) {e : NodeClientError}
        → NodupKeys s.node_storage_map
        → Ready new_id s.fragment_ledger
        → (reserve_chunks me heart_beat_interval_seconds now size bucket_id file_id flags mode
            new_id s).1
          ≡ err e
        → SameReservations s.fragment_ledger
            (reserve_chunks me heart_beat_interval_seconds now size bucket_id file_id flags mode
              new_id s).0.fragment_ledger
    unfolding reserve_chunks
    reserve_chunks-SameReservations s {e = e} u ready failed =
        elim (Bool-cases (ltb 0 (targets_of me heart_beat_interval_seconds now size mode s).1)) [
          | inl d ↦ rw d (
              after_refresh-SameReservations s
                (safe_refresh_peer_data me heart_beat_interval_seconds now s) {e = e} ready
                (safe_refresh_peer_data-Refreshed s u) (rw d at failed))
          | inr d ↦ rw d (
              reserve_all-SameReservations me heart_beat_interval_seconds now bucket_id file_id
                flags new_id (targets_of me heart_beat_interval_seconds now size mode s).0 s {e = e}
                ready (targets_once s u) (rw d at failed))
        ]
