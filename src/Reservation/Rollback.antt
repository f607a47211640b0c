-- ===== src/Reservation/Rollback.antt =====
-- A reservation that fails leaves this node's ledger with the reservations that it had.
use meowith.Base.{
  ℕ, ◌<◌, ◌≡◌, refl, sym, ap, ◌∙◌, subst, inl, inr, Bool, true, false, Option, none, some, List, [],
  ◌∷◌, ◌++◌, arith, Bool-cases, length, ◌==◌,
}
use meowith.Base.Dict.{lookup, NodupKeys}
use meowith.Base.Result.{ok, err}
use meowith.Ledger.State.{Env, Ledger, MeowithIoResult, u64_mod}
use meowith.Ledger.Ops.{try_reserve, cancel_reservation}
use meowith.Ledger.Space.{try_reserve_id, try_reserve_failed, cancel_reservation-try_reserve}
use meowith.Transfer.Upload.{MdsftpError, MdsftpResult}
use meowith.Reservation.Reserve.{
  ReserveFlags, NodeClientError, ReservedFragment, Peers, AppState, try_reserve_chunk, local_answer,
  reserve_local, reserve_remote, reserve_on, reserve_failed, reserve_answer, full_node,
  reserve_targets, cancel_fragments, reserve_all, settle,
}
use meowith.Reservation.Held.{
  AllRemote, OneLocal, AllRemote-snoc, OneLocal-snoc_local, OneLocal-snoc_remote, Held, Held-end,
  Held-tail, Held-me,
}

-- Two ledgers with the same reservations.
pub record SameReservations {E : Env} (l l' : Ledger E) : Type 0 where
  pub reservations : l'.reservation_map ≡ l.reservation_map
  pub uncommitted : l'.uncommited_map ≡ l.uncommited_map
  pub reserved : l'.disk_reserved_size ≡ l.disk_reserved_size

-- A ledger in which the ids to come are fresh, with a counter that fits its word.
pub record Ready {E : Env} (new_id : ℕ → ℕ) (l : Ledger E) : Type 0 where
  pub fresh : (n : ℕ) → lookup (new_id n) l.reservation_map ≡ none
  pub fresh_uncommitted : (n : ℕ) → lookup (new_id n) l.uncommited_map ≡ none
  pub small : l.disk_reserved_size < u64_mod

module _ {E : Env} {P : Peers} (me heart_beat_interval_seconds now : ℕ) where
  cancel_fragments-AllRemote :
      (fs : List ReservedFragment) (s : AppState E P)
      → AllRemote fs
      → (cancel_fragments me heart_beat_interval_seconds now fs s).fragment_ledger
        ≡ s.fragment_ledger
  unfolding cancel_fragments
  cancel_fragments-AllRemote [] s h = refl
  cancel_fragments-AllRemote (f ∷ fs) s h = cancel_fragments-AllRemote fs _ h.1 ∙ rw (h.0) refl

  cancel_fragments-OneLocal :
      (id : ℕ) (fs : List ReservedFragment) (s : AppState E P)
      → OneLocal id fs
      → (cancel_fragments me heart_beat_interval_seconds now fs s).fragment_ledger
        ≡ (cancel_reservation id s.fragment_ledger).0
  unfolding cancel_fragments
  cancel_fragments-OneLocal id [] s h = elim h [ ]
  cancel_fragments-OneLocal id (f ∷ fs) s (inl (l, i, h)) =
      cancel_fragments-AllRemote fs _ h ∙ rw (l, i) refl
  cancel_fragments-OneLocal id (f ∷ fs) s (inr (r, h)) =
      cancel_fragments-OneLocal id fs _ h ∙ rw r refl

  -- The ledger and the answer after a target on another node.
  abbrev Elsewhere : Ledger E → AppState E P × MdsftpResult ReservedFragment → Type 0
  Elsewhere l (s, ok f) = (s.fragment_ledger ≡ l) × (f.remote ≡ true)
  Elsewhere l (s, err _) = s.fragment_ledger ≡ l

  reserve_failed-Elsewhere :
      (node_id : ℕ) (e : MdsftpError) (full : Option ℕ) (s : AppState E P)
      → Elsewhere s.fragment_ledger
          (reserve_failed me heart_beat_interval_seconds now node_id e full s)
  reserve_failed-Elsewhere node_id e none s = refl
  reserve_failed-Elsewhere node_id e (some free_space) s = refl

  reserve_answer-Elsewhere :
      (node_id size : ℕ) (r : MdsftpResult (ℕ × ℕ)) (s : AppState E P)
      → Elsewhere s.fragment_ledger
          (reserve_answer me heart_beat_interval_seconds now node_id size r s)
  reserve_answer-Elsewhere node_id size (ok (chunk_id, chunk_buffer)) s = (refl, refl)
  reserve_answer-Elsewhere node_id size (err e) s =
      reserve_failed-Elsewhere node_id e (full_node e) s

  module _ (bucket_id file_id : ℕ) (flags : ReserveFlags) where
    reserve_on-Elsewhere :
        (node_id size : ℕ) (c : P.Net × MdsftpResult (Unit {0})) (s : AppState E P)
        → Elsewhere s.fragment_ledger
            (reserve_on me heart_beat_interval_seconds now node_id size bucket_id file_id flags c s)
    reserve_on-Elsewhere node_id size (net, err e) s = refl
    reserve_on-Elsewhere node_id size (net, ok _) s =
        let (net', r) = P.try_reserve node_id size file_id bucket_id flags net in
        reserve_answer-Elsewhere node_id size r (record s { net = net' })

    -- The ledger and the answer after a target on this node.
    abbrev Here :
        (size new_id : ℕ) → Ledger E → AppState E P × MdsftpResult ReservedFragment → Type 0
    Here size new_id l (s, ok f) =
        (s.fragment_ledger ≡ (try_reserve size bucket_id file_id flags.durable new_id now l).0)
        × (f.remote ≡ false)
        × (f.chunk_id ≡ new_id)
    Here size new_id l (s, err _) = s.fragment_ledger ≡ l

    local_answer-Here :
        (size new_id : ℕ) (s : AppState E P) (p : Ledger E × MeowithIoResult ℕ)
        → p ≡ try_reserve size bucket_id file_id flags.durable new_id now s.fragment_ledger
        → Here size new_id s.fragment_ledger
            (local_answer me heart_beat_interval_seconds now size p s)
    local_answer-Here size new_id s (l, ok id) e = (
      ap (λ q. q.0) e,
      refl,
      try_reserve_id s.fragment_ledger size bucket_id file_id flags.durable new_id now
          (sym (ap (λ q. q.1) e)),
    )
    local_answer-Here size new_id s (l, err x) e =
        ap (λ q. q.0) e
        ∙ try_reserve_failed s.fragment_ledger size bucket_id file_id flags.durable new_id now
            (sym (ap (λ q. q.1) e))

    -- A target that was reserved adds its fragment to what is held; one that failed adds none.
    abbrev Advanced :
        (new_id : ℕ → ℕ)
        → Ledger E
        → List (ℕ × ℕ)
        → List ReservedFragment
        → AppState E P × MdsftpResult ReservedFragment
        → Type 0
    Advanced new_id l targets fs (s, ok f) =
        Held now bucket_id file_id flags me new_id l targets (fs ++ f ∷ []) s.fragment_ledger
    Advanced new_id l targets fs (s, err _) =
        Held now bucket_id file_id flags me new_id l targets fs s.fragment_ledger

    Elsewhere-Advanced :
        (new_id : ℕ → ℕ) (l l' : Ledger E) (targets : List (ℕ × ℕ)) (fs : List ReservedFragment)
        (p : AppState E P × MdsftpResult ReservedFragment)
        → Held now bucket_id file_id flags me new_id l targets fs l'
        → Elsewhere l' p
        → Advanced new_id l targets fs p
    Elsewhere-Advanced new_id l l' targets fs (s, ok f) (inl (h, e)) (q, r) =
        inl (AllRemote-snoc fs f h r, q ∙ e)
    Elsewhere-Advanced new_id l l' targets fs (s, ok f) (inr (n, size, u, h, e)) (q, r) =
        inr (n, size, u, OneLocal-snoc_remote (new_id n) fs f h r, q ∙ e)
    Elsewhere-Advanced new_id l l' targets fs (s, err _) (inl (h, e)) q = inl (h, q ∙ e)
    Elsewhere-Advanced new_id l l' targets fs (s, err _) (inr (n, size, u, h, e)) q =
        inr (n, size, u, h, q ∙ e)

    Here-Advanced :
        (new_id : ℕ → ℕ) (l l' : Ledger E) (size : ℕ) (targets : List (ℕ × ℕ))
        (fs : List ReservedFragment) (p : AppState E P × MdsftpResult ReservedFragment)
        → AllRemote fs
        → l' ≡ l
        → lookup me targets ≡ none
        → Here size (new_id (length fs)) l' p
        → Advanced new_id l targets fs p
    Here-Advanced new_id l l' size targets fs (s, ok f) h e u (q, r, i) = inr (
      length fs,
      size,
      u,
      subst (λ x. OneLocal x (fs ++ f ∷ [])) i (OneLocal-snoc_local fs f h r),
      q
          ∙ ap
              (λ x. (try_reserve size bucket_id file_id flags.durable (new_id (length fs)) now x).0)
              e,
    )
    Here-Advanced new_id l l' size targets fs (s, err _) h e u q = inl (h, q ∙ e)

    try_reserve_chunk-Advanced :
        (new_id : ℕ → ℕ) (l : Ledger E) (node_id size : ℕ) (targets : List (ℕ × ℕ))
        (fs : List ReservedFragment) (s : AppState E P)
        → Held now bucket_id file_id flags me new_id l
            ((node_id, size) ∷ targets)
            fs
            s.fragment_ledger
        → lookup node_id targets ≡ none
        → Advanced new_id l targets fs (
            try_reserve_chunk me heart_beat_interval_seconds now node_id size bucket_id file_id
              flags
              (new_id (length fs))
              s)
    unfolding try_reserve_chunk lookup
    try_reserve_chunk-Advanced new_id l node_id size targets fs s h u =
        elim (Bool-cases (node_id == me)) [
          | inl e ↦ rw e (
              let (all, same) =
                Held-me now bucket_id file_id flags me new_id l s.fragment_ledger node_id size
                  targets fs e h in
              Here-Advanced new_id l s.fragment_ledger size targets fs
                (reserve_local me heart_beat_interval_seconds now size bucket_id file_id flags
                  (new_id (length fs)) s)
                all same (ground arith) (local_answer-Here size (new_id (length fs)) s _ refl))
          | inr e ↦ rw e (
              Elsewhere-Advanced new_id l s.fragment_ledger targets fs
                (reserve_remote me heart_beat_interval_seconds now node_id size bucket_id file_id
                  flags s)
                (Held-tail now bucket_id file_id flags me new_id l s.fragment_ledger (node_id, size)
                  targets fs h)
                (reserve_on-Elsewhere node_id size (P.channel node_id s.net) s))
        ]

    -- The loop over targets that are distinct.
    abbrev Reserved :
        (new_id : ℕ → ℕ) → Ledger E → AppState E P × List ReservedFragment × Bool → Type 0
    Reserved new_id l (s, fs, _) =
        Held now bucket_id file_id flags me new_id l [] fs s.fragment_ledger

    reserve_targets-Reserved :
        (new_id : ℕ → ℕ) (l : Ledger E) (targets : List (ℕ × ℕ)) (fs : List ReservedFragment)
        (s : AppState E P)
        → NodupKeys targets
        → Held now bucket_id file_id flags me new_id l targets fs s.fragment_ledger
        → Reserved new_id l (
            reserve_targets me heart_beat_interval_seconds now bucket_id file_id flags new_id
              targets fs s)
    unfolding reserve_targets
    reserve_targets-Reserved new_id l [] fs s u h = h
    reserve_targets-Reserved new_id l ((node_id, size) ∷ targets) fs s u h =
        next
          (try_reserve_chunk me heart_beat_interval_seconds now node_id size bucket_id file_id flags
            (new_id (length fs)) s)
          (try_reserve_chunk-Advanced new_id l node_id size targets fs s h u.0)
          (λ fs' s' a. reserve_targets-Reserved new_id l targets fs' s' u.1 a)
      where
        next :
            (p : AppState E P × MdsftpResult ReservedFragment)
            → Advanced new_id l targets fs p
            → ((fs' : List ReservedFragment) (s' : AppState E P)
                → Held now bucket_id file_id flags me new_id l targets fs' s'.fragment_ledger
                → Reserved new_id l (
                    reserve_targets me heart_beat_interval_seconds now bucket_id file_id flags
                      new_id targets fs' s'))
            → Reserved new_id l (elim p.1 [
              | err _ ↦ (p.0, fs, false)
              | ok f ↦
                  reserve_targets me heart_beat_interval_seconds now bucket_id file_id flags new_id
                    targets
                    (fs ++ f ∷ [])
                    p.0
            ])
        next (s', err _) a later = Held-end now bucket_id file_id flags me new_id l _ targets fs a
        next (s', ok f) a later = later (fs ++ f ∷ []) s' a

    -- What was held is given back.
    cancel_fragments-SameReservations :
        (new_id : ℕ → ℕ) (l : Ledger E) (fs : List ReservedFragment) (s : AppState E P)
        → Ready new_id l
        → Held now bucket_id file_id flags me new_id l [] fs s.fragment_ledger
        → SameReservations l
            (cancel_fragments me heart_beat_interval_seconds now fs s).fragment_ledger
    cancel_fragments-SameReservations new_id l fs s ready (inl (h, e)) =
        rw (cancel_fragments-AllRemote fs s h, e)
          (record { reservations = refl; uncommitted = refl; reserved = refl })
    cancel_fragments-SameReservations new_id l fs s ready (inr (n, size, _, h, e)) =
        let (a, b, c) =
          cancel_reservation-try_reserve l size bucket_id file_id flags.durable (new_id n) now
            (ready.fresh n) (ready.fresh_uncommitted n) ready.small in
        rw (cancel_fragments-OneLocal (new_id n) fs s h, e)
          (record { reservations = a; uncommitted = b; reserved = c })

    settle-SameReservations :
        (new_id : ℕ → ℕ) (l : Ledger E) (p : AppState E P × List ReservedFragment × Bool)
        {e : NodeClientError}
        → Ready new_id l
        → Reserved new_id l p
        → (settle me heart_beat_interval_seconds now p).1 ≡ err e
        → SameReservations l (settle me heart_beat_interval_seconds now p).0.fragment_ledger
    settle-SameReservations new_id l (s, fs, true) ready held failed = absurd (ground arith)
    settle-SameReservations new_id l (s, fs, false) ready held failed =
        cancel_fragments-SameReservations new_id l fs s ready held

    pub reserve_all-SameReservations :
        (new_id : ℕ → ℕ) (targets : List (ℕ × ℕ)) (s : AppState E P) {e : NodeClientError}
        → Ready new_id s.fragment_ledger
        → NodupKeys targets
        → (reserve_all me heart_beat_interval_seconds now bucket_id file_id flags new_id targets
            s).1
          ≡ err e
        → SameReservations s.fragment_ledger
            (reserve_all me heart_beat_interval_seconds now bucket_id file_id flags new_id targets
              s).0.fragment_ledger
    unfolding reserve_all
    reserve_all-SameReservations new_id targets s {e = e} ready u failed =
        settle-SameReservations new_id s.fragment_ledger
          (reserve_targets me heart_beat_interval_seconds now bucket_id file_id flags new_id targets
            [] s)
          {e = e} ready
          (reserve_targets-Reserved new_id s.fragment_ledger targets [] s u (inl (tt, refl))) failed
