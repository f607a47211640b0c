-- ===== src/Reservation/Held.antt =====
-- What the fragments reserved so far hold of this node's ledger.
use meowith.Base.{ℕ, ◌≡◌, refl, ◌⊎◌, inl, inr, true, false, none, List, [], ◌∷◌, ◌++◌, arith, ◌==◌}
use meowith.Base.Dict.{lookup}
use meowith.Ledger.State.{Env, Ledger}
use meowith.Ledger.Ops.{try_reserve}
use meowith.Reservation.Reserve.{ReserveFlags, ReservedFragment}

abbrev pub AllRemote : List ReservedFragment → Type 0
AllRemote [] = Unit
AllRemote (f ∷ fs) = (f.remote ≡ true) × AllRemote fs

-- One local fragment, of the id `id`.
abbrev pub OneLocal : ℕ → List ReservedFragment → Type 0
OneLocal id [] = ⊥
OneLocal id (f ∷ fs) =
    ((f.remote ≡ false) × (f.chunk_id ≡ id) × AllRemote fs) ⊎ ((f.remote ≡ true) × OneLocal id fs)

pub AllRemote-snoc :
    (fs : List ReservedFragment) (f : ReservedFragment)
    → AllRemote fs
    → f.remote ≡ true
    → AllRemote (fs ++ f ∷ [])
AllRemote-snoc [] f h e = (e, tt)
AllRemote-snoc (g ∷ fs) f h e = (h.0, AllRemote-snoc fs f h.1 e)

pub OneLocal-snoc_local :
    (fs : List ReservedFragment) (f : ReservedFragment)
    → AllRemote fs
    → f.remote ≡ false
    → OneLocal f.chunk_id (fs ++ f ∷ [])
OneLocal-snoc_local [] f h e = inl (e, refl, tt)
OneLocal-snoc_local (g ∷ fs) f h e = inr (h.0, OneLocal-snoc_local fs f h.1 e)

pub OneLocal-snoc_remote :
    (id : ℕ) (fs : List ReservedFragment) (f : ReservedFragment)
    → OneLocal id fs
    → f.remote ≡ true
    → OneLocal id (fs ++ f ∷ [])
OneLocal-snoc_remote id [] f h e = elim h [ ]
OneLocal-snoc_remote id (g ∷ fs) f (inl (l, i, h)) e = inl (l, i, AllRemote-snoc fs f h e)
OneLocal-snoc_remote id (g ∷ fs) f (inr (r, h)) e = inr (r, OneLocal-snoc_remote id fs f h e)

-- What the fragments so far hold of this node's ledger.
module _ {E : Env} (now bucket_id file_id : ℕ) (flags : ReserveFlags) where
  -- The reservations of the ledger `l` with what the fragments so far hold of it: nothing, or
  -- one reservation of the size of this node's target, which then is no target any more.
  abbrev pub Held :
      (me : ℕ) (new_id : ℕ → ℕ)
      → Ledger E
      → List (ℕ × ℕ)
      → List ReservedFragment
      → Ledger E
      → Type 0
  Held me new_id l targets fs l' =
      (AllRemote fs × (l' ≡ l))
      ⊎ ((n : ℕ) × (size : ℕ) × (lookup me targets ≡ none)
          × OneLocal (new_id n) fs
          × (l' ≡ (try_reserve size bucket_id file_id flags.durable (new_id n) now l).0))

  pub Held-end :
      (me : ℕ) (new_id : ℕ → ℕ) (l l' : Ledger E) (targets : List (ℕ × ℕ))
      (fs : List ReservedFragment)
      → Held me new_id l targets fs l'
      → Held me new_id l [] fs l'
  unfolding lookup
  Held-end me new_id l l' targets fs (inl h) = inl h
  Held-end me new_id l l' targets fs (inr (n, size, _, h, e)) = inr (n, size, refl, h, e)

  pub Held-tail :
      (me : ℕ) (new_id : ℕ → ℕ) (l l' : Ledger E) (t : ℕ × ℕ) (targets : List (ℕ × ℕ))
      (fs : List ReservedFragment)
      → Held me new_id l (t ∷ targets) fs l'
      → Held me new_id l targets fs l'
  unfolding lookup
  Held-tail me new_id l l' t targets fs (inl h) = inl h
  Held-tail me new_id l l' t targets fs (inr (n, size, u, h, e)) = inr (n, size, ground arith, h, e)

  -- While this node is still to come, nothing is held.
  pub Held-me :
      (me : ℕ) (new_id : ℕ → ℕ) (l l' : Ledger E) (node_id size : ℕ) (targets : List (ℕ × ℕ))
      (fs : List ReservedFragment)
      → (node_id == me) ≡ true
      → Held me new_id l ((node_id, size) ∷ targets) fs l'
      → AllRemote fs × (l' ≡ l)
  unfolding lookup
  Held-me me new_id l l' node_id size targets fs i (inl h) = h
  Held-me me new_id l l' node_id size targets fs i (inr (n, _, u, h, e)) = absurd (ground arith)
