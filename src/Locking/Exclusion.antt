-- ===== src/Locking/Exclusion.antt =====
-- The permits of every lock are its guards': what one semaphore protects, it protects.
use meowith.Base.{
  ℕ, ◌+◌, ◌≤◌, ◌<◌, ◌≡◌, refl, ◌≢◌, inl, inr, true, false, none, some, List, arith, ◌==◌,
  if◌then◌else◌, Option-cases, Bool-cases,
}
use meowith.Base.Dict.{
  lookup, total, NodupKeys, lookup-insert, lookup-remove, insert-NodupKeys, remove-NodupKeys,
  total-insert_new, total-insert_same, total-remove, total-ge, total-ge_two,
}
use meowith.Base.Result.{err}
use meowith.Locking.Table.{
  Semaphore, IsLawful, LockKind, read, write, Guard, FileLockTable, permits, new_table, acquire,
  create_lock, try_lock, begin_drop, end_drop, remove_entry, Step, locks, begins_drop, ends_drop,
  removes, Reach, start, later, lock_taken,
}

module _ (M : Semaphore) (max_readers : ℕ) (L : IsLawful M) where
  abbrev pub Table : Type 0
  Table = FileLockTable M max_readers

  -- The permits of the lock `x` that a guard holds.
  abbrev pub held : ℕ → Guard → ℕ
  held x g = if g.locker == x then permits M max_readers g.kind else 0

  pub record Inv (t : Table) : Type 0 where
    pub balanced :
        (x : ℕ) → M.available_permits (t.semaphores x) + total (held x) t.guards ≡ max_readers
    pub unused : (x : ℕ) → t.next_locker ≤ x → total (held x) t.guards ≡ 0
    pub created : (key x : ℕ) → lookup key t.lock_table ≡ some x → x < t.next_locker
    pub guards_once : NodupKeys t.guards

  Inv-new : Inv (new_table M max_readers)
  unfolding total lookup
  Inv-new = record {
    balanced = λ x. omega (arith, L.available-new max_readers);
    unused = λ x h. refl;
    created = λ key x h. cc;
    guards_once = tt;
  }

  acquire-Inv :
      (t : Table) (id key locker : ℕ) (kind : LockKind)
      → Inv t
      → lookup id t.guards ≡ none
      → locker < t.next_locker
      → Inv (acquire M max_readers id key locker kind t).0
  unfolding acquire
  acquire-Inv t id key locker kind h fresh old =
      elim (Option-cases (M.try_acquire_many (permits M max_readers kind) (t.semaphores locker))) [
        | inl e ↦ rw (e, acquire) h
        | inr (sem, e) ↦
            rw (e, acquire)
              (record {
                balanced = λ x. ground (
                  arith,
                  h.balanced x,
                  L.available-acquire _ _ _ e,
                  total-insert_new (held x) id g t.guards fresh,
                );
                unused = λ x le.
                    ground (arith, h.unused x le, total-insert_new (held x) id g t.guards fresh);
                created = h.created;
                guards_once = insert-NodupKeys id g t.guards h.guards_once;
              })
      ]
    where
      g : Guard
      g = record { key = key; locker = locker; kind = kind; dropping = false }

  create_lock-Inv : (t : Table) (key : ℕ) → Inv t → Inv (create_lock M max_readers key t)
  create_lock-Inv t key h = record {
    balanced = λ x. ground (arith, h.balanced x, h.unused x, L.available-new max_readers);
    unused = λ x le. h.unused x (omega arith);
    created =
        λ k x e. ground (arith, h.created k x, lookup-insert key k t.next_locker t.lock_table);
    guards_once = h.guards_once;
  }

  try_lock-Inv :
      (t : Table) (id key : ℕ) (kind : LockKind)
      → Inv t
      → lookup id t.guards ≡ none
      → Inv (try_lock M max_readers id key kind t).0
  unfolding try_lock
  try_lock-Inv t id key kind h fresh = elim (Option-cases (lookup key t.lock_table)) [
    | inl e ↦
        rw (e, try_lock)
          (acquire-Inv (create_lock M max_readers key t) id key t.next_locker kind
            (create_lock-Inv t key h) fresh (omega arith))
    | inr (x, e) ↦ rw (e, try_lock) (acquire-Inv t id key x kind h fresh (h.created key x e))
  ]

  begin_drop-Inv : (t : Table) (id : ℕ) → Inv t → Inv (begin_drop M max_readers id t)
  unfolding begin_drop
  begin_drop-Inv t id h = elim (Option-cases (lookup id t.guards)) [
    | inl e ↦ rw (e, begin_drop) h
    | inr (g, e) ↦ elim (Bool-cases g.dropping) [
      | inl d ↦ rw (e, begin_drop) (rw d h)
      | inr d ↦
          rw (e, begin_drop)
            (rw d (record {
              balanced = λ x. omega (
                arith,
                h.balanced x,
                total-insert_same (held x) id (record g { dropping = true }) g t.guards e refl,
              );
              unused = λ x le. omega (
                arith,
                h.unused x le,
                total-insert_same (held x) id (record g { dropping = true }) g t.guards e refl,
              );
              created = h.created;
              guards_once = insert-NodupKeys id _ t.guards h.guards_once;
            }))
    ]
  ]

  end_drop-Inv : (t : Table) (id : ℕ) → Inv t → Inv (end_drop M max_readers id t)
  unfolding end_drop
  end_drop-Inv t id h = elim (Option-cases (lookup id t.guards)) [
    | inl e ↦ rw (e, end_drop) h
    | inr (g, e) ↦ elim (Bool-cases g.dropping) [
      | inr d ↦ rw (e, end_drop) (rw d h)
      | inl d ↦
          rw (e, end_drop)
            (rw d (record {
              balanced = λ x. ground (
                arith,
                h.balanced x,
                L.available-add (permits M max_readers g.kind) (t.semaphores g.locker),
                total-remove (held x) id g t.guards h.guards_once e,
              );
              unused = λ x le.
                  omega (arith, h.unused x le, total-remove (held x) id g t.guards h.guards_once e);
              created = h.created;
              guards_once = remove-NodupKeys id t.guards h.guards_once;
            }))
    ]
  ]

  remove_entry-Inv :
      (t : Table) (key : ℕ) (rest : List ℕ) → Inv t → Inv (remove_entry M max_readers key rest t)
  unfolding remove_entry
  remove_entry-Inv t key rest h = record {
    balanced = h.balanced;
    unused = h.unused;
    created = λ k x e. ground (arith, h.created k x, lookup-remove key k t.lock_table);
    guards_once = h.guards_once;
  }

  pub Step-Inv : {s t : Table} → Step M max_readers s t → Inv s → Inv t
  Step-Inv {s} (locks id key kind fresh) h = try_lock-Inv s id key kind h fresh
  Step-Inv {s} (begins_drop id) h = begin_drop-Inv s id h
  Step-Inv {s} (ends_drop id) h = end_drop-Inv s id h
  Step-Inv {s} (removes before after key e) h = remove_entry-Inv s key _ h

  pub Reach-Inv : {t : Table} → Reach M max_readers t → Inv t
  Reach-Inv start = Inv-new
  Reach-Inv (later r st) = Step-Inv st (Reach-Inv r)

  -- In every reachable table with at least one reader allowed, a write guard has its lock for
  -- itself: no other guard is of the same lock, also while either is being dropped.
  pub write_excludes :
      {t : Table}
      → 0 < max_readers
      → Reach M max_readers t
      → (i j : ℕ) (g g' : Guard) → lookup i t.guards ≡ some g
      → lookup j t.guards ≡ some g'
      → g.kind ≡ write
      → i ≢ j
      → g'.locker ≢ g.locker
  write_excludes {t} pos r i j g g' ei ej w ne = ground (
    arith,
    (Reach-Inv r).balanced g.locker,
    total-ge_two (held g.locker) i j g g' t.guards ne ei ej,
  )

  -- In every reachable table, an attempt to write to a key whose lock has a guard is refused and
  -- changes nothing.
  try_write_taken :
      {t : Table}
      → 0 < max_readers
      → Reach M max_readers t
      → (id key i : ℕ) (g : Guard) → lookup key t.lock_table ≡ some g.locker
      → lookup i t.guards ≡ some g
      → try_lock M max_readers id key write t ≡ (t, err lock_taken)
  unfolding try_lock acquire
  try_write_taken {t} pos r id key i g e ei =
      elim (Option-cases (M.try_acquire_many max_readers (t.semaphores g.locker))) [
        | inl f ↦ rw (e, try_lock) (rw (f, acquire) refl)
        | inr (sem, f) ↦ absurd (
            ground (
              arith,
              L.available-acquire _ _ _ f,
              (Reach-Inv r).balanced g.locker,
              total-ge (held g.locker) i g t.guards ei,
              kind_pos g.kind,
            ))
      ]
    where
      kind_pos : (k : LockKind) → 0 < permits M max_readers k
      kind_pos read = omega arith
      kind_pos write = pos
