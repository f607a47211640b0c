-- ===== src/Reservation/Success.antt =====
-- What `reserve_chunks` returns when it succeeds.
use mathlib.Core.List.{append_assoc, append-nil}
use meowith.Base.{
  ℕ, ◌≡◌, refl, sym, ap, ◌∙◌, subst, inl, inr, Bool, true, false, Option, none, some, List, [], ◌∷◌,
  ◌++◌, map, arith, Bool-cases, length, ltb, ◌==◌,
}
use meowith.Base.Dict.{NodupKeys}
use meowith.Base.Result.{Result, ok, err}
use meowith.Ledger.State.{Env, Ledger, MeowithIoResult}
use meowith.Ledger.Ops.{get_available_space}
use meowith.Transfer.Upload.{MdsftpError, MdsftpResult}
use meowith.Reservation.Targets.{ReservationMode}
use meowith.Reservation.Capacity.{sizes, resolve_targets-sizes}
use meowith.Reservation.Reserve.{
  ReserveFlags, NodeClientError, ReservedFragment, Peers, AppState, try_reserve_chunk,
  reserve_local, local_answer, reserve_on, reserve_failed, reserve_answer, full_node,
  reserve_targets, reserve_all, settle, reserve_chunks, safe_refresh_peer_data, retry_targets,
  after_refresh, targets_of,
}
use meowith.Reservation.Outcome.{Refreshed, safe_refresh_peer_data-Refreshed, targets_once}

abbrev pub target_of : ReservedFragment → ℕ × ℕ
target_of f = (f.node_id, f.size)

-- The fragments of a reservation of `size` bytes: on distinct nodes, and of that size together.
pub record Covers (size : ℕ) (fs : List ReservedFragment) : Type 0 where
  pub nodes_once : NodupKeys (map target_of fs)
  pub all_bytes : sizes (map target_of fs) ≡ size

map-snoc :
    (fs : List ReservedFragment) (f : ReservedFragment)
    → map target_of (fs ++ f ∷ []) ≡ map target_of fs ++ target_of f ∷ []
map-snoc [] f = refl
map-snoc (g ∷ fs) f = ap (λ ts. target_of g ∷ ts) (map-snoc fs f)

module _ {E : Env} {P : Peers} (me heart_beat_interval_seconds now : ℕ) where
  -- A fragment that was reserved is of its target.
  abbrev OfTarget : ℕ × ℕ → AppState E P × MdsftpResult ReservedFragment → Type 0
  OfTarget t (s, ok f) = target_of f ≡ t
  OfTarget t (s, err _) = Unit

  local_answer-OfTarget :
      (size : ℕ) (p : Ledger E × MeowithIoResult ℕ) (s : AppState E P)
      → OfTarget (me, size) (local_answer me heart_beat_interval_seconds now size p s)
  local_answer-OfTarget size (l, ok id) s = refl
  local_answer-OfTarget size (l, err _) s = tt

  reserve_failed-OfTarget :
      (node_id size : ℕ) (e : MdsftpError) (full : Option ℕ) (s : AppState E P)
      → OfTarget
          (node_id, size)
          (reserve_failed me heart_beat_interval_seconds now node_id e full s)
  reserve_failed-OfTarget node_id size e none s = tt
  reserve_failed-OfTarget node_id size e (some _) s = tt

  reserve_answer-OfTarget :
      (node_id size : ℕ) (r : MdsftpResult (ℕ × ℕ)) (s : AppState E P)
      → OfTarget
          (node_id, size)
          (reserve_answer me heart_beat_interval_seconds now node_id size r s)
  reserve_answer-OfTarget node_id size (ok _) s = refl
  reserve_answer-OfTarget node_id size (err e) s =
      reserve_failed-OfTarget node_id size e (full_node e) s

  module _ (bucket_id file_id : ℕ) (flags : ReserveFlags) where
    reserve_on-OfTarget :
        (node_id size : ℕ) (c : P.Net × MdsftpResult (Unit {0})) (s : AppState E P)
        → OfTarget
            (node_id, size)
            (reserve_on me heart_beat_interval_seconds now node_id size bucket_id file_id flags c s)
    reserve_on-OfTarget node_id size (net, err _) s = tt
    reserve_on-OfTarget node_id size (net, ok _) s =
        let (net', r) = P.try_reserve node_id size file_id bucket_id flags net in
        reserve_answer-OfTarget node_id size r (record s { net = net' })

    try_reserve_chunk-OfTarget :
        (node_id size new_id : ℕ) (s : AppState E P)
        → OfTarget
            (node_id, size)
            (try_reserve_chunk me heart_beat_interval_seconds now node_id size bucket_id file_id
              flags new_id s)
    unfolding try_reserve_chunk
    try_reserve_chunk-OfTarget node_id size new_id s = elim (Bool-cases (node_id == me)) [
      | inl e ↦ rw e (
          subst
            (λ n.
              OfTarget (n, size)
                (reserve_local me heart_beat_interval_seconds now size bucket_id file_id flags
                  new_id s))
            (ground arith) (local_answer-OfTarget size _ s))
      | inr e ↦ rw e (reserve_on-OfTarget node_id size (P.channel node_id s.net) s)
    ]

    -- The fragments of the loop are of the targets so far.
    abbrev OfTargets : List (ℕ × ℕ) → AppState E P × List ReservedFragment × Bool → Type 0
    OfTargets ts (s, fs, true) = map target_of fs ≡ ts
    OfTargets ts (s, fs, false) = Unit

    reserve_targets-OfTargets :
        (new_id : ℕ → ℕ) (targets : List (ℕ × ℕ)) (fs : List ReservedFragment) (s : AppState E P)
        → OfTargets (map target_of fs ++ targets) (
            reserve_targets me heart_beat_interval_seconds now bucket_id file_id flags new_id
              targets fs s)
    unfolding reserve_targets
    reserve_targets-OfTargets new_id [] fs s = sym (append-nil (map target_of fs))
    reserve_targets-OfTargets new_id ((node_id, size) ∷ targets) fs s =
        next
          (try_reserve_chunk me heart_beat_interval_seconds now node_id size bucket_id file_id flags
            (new_id (length fs)) s)
          (try_reserve_chunk-OfTarget node_id size (new_id (length fs)) s)
          (λ fs' s'. reserve_targets-OfTargets new_id targets fs' s')
      where
        next :
            (p : AppState E P × MdsftpResult ReservedFragment)
            → OfTarget (node_id, size) p
            → ((fs' : List ReservedFragment) (s' : AppState E P)
                → OfTargets (map target_of fs' ++ targets) (
                    reserve_targets me heart_beat_interval_seconds now bucket_id file_id flags
                      new_id targets fs' s'))
            → OfTargets (map target_of fs ++ (node_id, size) ∷ targets) (elim p.1 [
              | err _ ↦ (p.0, fs, false)
              | ok f ↦
                  reserve_targets me heart_beat_interval_seconds now bucket_id file_id flags new_id
                    targets
                    (fs ++ f ∷ [])
                    p.0
            ])
        next (s', err _) t later = tt
        next (s', ok f) t later =
            subst
              (λ ts. OfTargets ts (
                reserve_targets me heart_beat_interval_seconds now bucket_id file_id flags new_id
                  targets (fs ++ f ∷ []) s'))
              (ap (λ ts. ts ++ targets) (map-snoc fs f)
                ∙ append_assoc (map target_of fs) (target_of f ∷ []) targets
                ∙ ap (λ u. map target_of fs ++ u ∷ targets) t)
              (later (fs ++ f ∷ []) s')

    settle-target_of :
        (targets : List (ℕ × ℕ)) (p : AppState E P × List ReservedFragment × Bool)
        (fs : List ReservedFragment)
        → OfTargets targets p
        → (settle me heart_beat_interval_seconds now p).1 ≡ ok fs
        → map target_of fs ≡ targets
    settle-target_of targets (s, fs', true) fs h done = ground (arith, h)
    settle-target_of targets (s, fs', false) fs h done = absurd (ground arith)

    reserve_all-target_of :
        (new_id : ℕ → ℕ) (targets : List (ℕ × ℕ)) (s : AppState E P) (fs : List ReservedFragment)
        → (reserve_all me heart_beat_interval_seconds now bucket_id file_id flags new_id targets
            s).1
          ≡ ok fs
        → map target_of fs ≡ targets
    unfolding reserve_all
    reserve_all-target_of new_id targets s fs done =
        settle-target_of targets
          (reserve_targets me heart_beat_interval_seconds now bucket_id file_id flags new_id targets
            [] s)
          fs (reserve_targets-OfTargets new_id targets [] s) done

  module _ (size bucket_id file_id : ℕ) (flags : ReserveFlags) (mode : ReservationMode)
      (new_id : ℕ → ℕ) where
    -- Targets that leave no rest cover the size.
    reserve_all-Covers :
        (s : AppState E P) (fs : List ReservedFragment)
        → NodupKeys s.node_storage_map
        → ltb 0 (targets_of me heart_beat_interval_seconds now size mode s).1 ≡ false
        → (reserve_all me heart_beat_interval_seconds now bucket_id file_id flags new_id
            (targets_of me heart_beat_interval_seconds now size mode s).0
            s).1
          ≡ ok fs
        → Covers size fs
    reserve_all-Covers s fs u full done =
        let (total, _) =
          resolve_targets-sizes me (get_available_space s.fragment_ledger) s.node_storage_map size
            mode u in
        let same = reserve_all-target_of bucket_id file_id flags new_id _ s fs done in
        record {
          nodes_once = rw same (
              targets_once me heart_beat_interval_seconds now size bucket_id file_id flags mode
                new_id s u);
          all_bytes = rw same (ground (arith, total));
        }

    retry_targets-Covers :
        (s : AppState E P) (fs : List ReservedFragment)
        → NodupKeys s.node_storage_map
        → (retry_targets me heart_beat_interval_seconds now size bucket_id file_id flags mode new_id
            s).1
          ≡ ok fs
        → Covers size fs
    retry_targets-Covers s fs u done =
        elim (Bool-cases (ltb 0 (targets_of me heart_beat_interval_seconds now size mode s).1)) [
          | inl d ↦ absurd (ground arith)
          | inr d ↦ reserve_all-Covers s fs u d (rw d at done)
        ]

    after_refresh-Covers :
        (s : AppState E P) (p : AppState E P × Result NodeClientError Bool)
        (fs : List ReservedFragment)
        → Refreshed me heart_beat_interval_seconds now s p.0
        → (after_refresh me heart_beat_interval_seconds now size bucket_id file_id flags mode new_id
            p).1
          ≡ ok fs
        → Covers size fs
    after_refresh-Covers s (s', err _) fs h done = absurd (ground arith)
    after_refresh-Covers s (s', ok false) fs h done = absurd (ground arith)
    after_refresh-Covers s (s', ok true) fs h done = retry_targets-Covers s' fs h.once done

    -- A reservation that succeeds returns fragments on distinct nodes whose sizes add up to the
    -- size asked for, if the storage map has each node once.
    pub reserve_chunks-Covers :
        (s : AppState E P) (fs : List ReservedFragment)
        → NodupKeys s.node_storage_map
        → (reserve_chunks me heart_beat_interval_seconds now size bucket_id file_id flags mode
            new_id s).1
          ≡ ok fs
        → Covers size fs
    unfolding reserve_chunks
    reserve_chunks-Covers s fs u done =
        elim (Bool-cases (ltb 0 (targets_of me heart_beat_interval_seconds now size mode s).1)) [
          | inl d ↦
              after_refresh-Covers s (safe_refresh_peer_data me heart_beat_interval_seconds now s)
                fs (safe_refresh_peer_data-Refreshed me heart_beat_interval_seconds now s u)
                (rw d at done)
          | inr d ↦ reserve_all-Covers s fs u d (rw d at done)
        ]
