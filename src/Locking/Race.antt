-- ===== src/Locking/Race.antt =====
-- Two locks for one key: an entry is removed while a new guard holds its lock.
use meowith.Base.{
  ℕ, ◌+◌, ◌≡◌, refl, subst, ◌≢◌, inl, inr, Bool, true, false, none, some, [], ◌∷◌, arith,
  Option-cases,
}
use meowith.Base.Dict.{lookup, insert, remove}
use meowith.Locking.Table.{
  Semaphore, IsLawful, write, Guard, update, FileLockTable, new_table, acquire, create_lock,
  try_lock, begin_drop, end_drop, remove_entry, locks, begins_drop, ends_drop, removes, Reach,
  start, later,
}

module _ (M : Semaphore) (max_readers : ℕ) (L : IsLawful M) where
  abbrev write_guard : ℕ → ℕ → Bool → Guard
  write_guard key locker dropping = record {
    key = key;
    locker = locker;
    kind = write;
    dropping = dropping;
  }

  take_all :
      (s : M.Sem)
      → M.available_permits s ≡ max_readers
      → (t : M.Sem) × (M.try_acquire_many max_readers s ≡ some t)
        × (M.available_permits t + max_readers ≡ max_readers)
  take_all s free = elim (Option-cases (M.try_acquire_many max_readers s)) [
    | inl e ↦ absurd (omega (arith, L.acquire-none max_readers s e))
    | inr (t, e) ↦ (t, e, omega (arith, L.available-acquire max_readers s t e))
  ]

  -- The table after a write guard was taken of a lock.
  abbrev taken :
      (id key locker : ℕ) → M.Sem → FileLockTable M max_readers → FileLockTable M max_readers
  taken id key locker s t = record t {
    semaphores = update t.semaphores locker s;
    guards = insert id (write_guard key locker false) t.guards;
  }

  write_to :
      (t : FileLockTable M max_readers) (id key locker : ℕ) (s : M.Sem)
      → Reach M max_readers t
      → lookup id t.guards ≡ none
      → lookup key t.lock_table ≡ some locker
      → M.try_acquire_many max_readers (t.semaphores locker) ≡ some s
      → Reach M max_readers (taken id key locker s t)
  unfolding try_lock acquire
  write_to t id key locker s r fresh e f =
      subst (Reach M max_readers) (rw (e, try_lock) (rw (f, acquire) refl))
        (later r (locks id key write fresh))

  write_new :
      (t : FileLockTable M max_readers) (id key : ℕ) (s : M.Sem)
      → Reach M max_readers t
      → lookup id t.guards ≡ none
      → lookup key t.lock_table ≡ none
      → M.try_acquire_many max_readers (M.new max_readers) ≡ some s
      → Reach M max_readers (taken id key t.next_locker s (create_lock M max_readers key t))
  unfolding try_lock acquire
  write_new t id key s r fresh e f =
      subst (Reach M max_readers) (rw (e, try_lock) (ground (arith, f)))
        (later r (locks id key write fresh))

  abbrev Table : Type 0
  Table = FileLockTable M max_readers

  module _ (key : ℕ) (s s' : M.Sem) where
    abbrev first_writes : Table
    first_writes = taken 0 key 0 s (create_lock M max_readers key (new_table M max_readers))

    abbrev first_drops : Table
    first_drops = record first_writes {
      guards = (0, write_guard key 0 true) ∷ [];
      spawned = key ∷ [];
    }

    abbrev first_gone : Table
    first_gone = record first_drops {
      guards = [];
      semaphores = update first_writes.semaphores 0 (M.add_permits max_readers s);
    }

    abbrev second_writes : Table
    second_writes = taken 1 key 0 s' first_gone

    abbrev entry_gone : Table
    entry_gone = record second_writes { lock_table = []; spawned = [] }

    abbrev third_writes : Table
    third_writes = taken 2 key 1 s (create_lock M max_readers key entry_gone)

    drops : begin_drop M max_readers 0 first_writes ≡ first_drops
    unfolding begin_drop lookup insert
    drops = ground arith

    gone : end_drop M max_readers 0 first_drops ≡ first_gone
    unfolding end_drop lookup remove
    gone = refl

    removed : remove_entry M max_readers key [] second_writes ≡ entry_gone
    unfolding remove_entry remove insert
    removed = ground arith

    third_reached :
        M.try_acquire_many max_readers (M.new max_readers) ≡ some s
        → M.try_acquire_many max_readers (M.add_permits max_readers s) ≡ some s'
        → Reach M max_readers third_writes
    unfolding lookup insert
    third_reached e f =
        write_new entry_gone 2 key s
          (subst (Reach M max_readers) removed (
            later
              (write_to first_gone 1 key 0 s'
                (subst (Reach M max_readers) gone (
                  later
                    (subst (Reach M max_readers) drops (
                      later (write_new (new_table M max_readers) 0 key s start refl refl e)
                        (begins_drop 0)))
                    (ends_drop 0)))
                refl (ground arith) f)
              (removes [] [] key refl)))
          refl refl e

  -- Write locks of one key overlap, whatever the key and the number of readers: some reachable
  -- table has two write guards of it, of different locks, and neither is being dropped.
  pub writers_overlap :
      (key : ℕ)
      → (t : FileLockTable M max_readers) × Reach M max_readers t
        × (g : Guard) × (g' : Guard) × (lookup 1 t.guards ≡ some g)
        × (lookup 2 t.guards ≡ some g')
        × (g.kind ≡ write)
        × (g'.kind ≡ write)
        × (g.key ≡ key)
        × (g'.key ≡ key)
        × (g.dropping ≡ false)
        × (g'.dropping ≡ false)
        × (g.locker ≢ g'.locker)
  unfolding lookup insert
  writers_overlap key =
      let (s, e, _) = take_all (M.new max_readers) (L.available-new max_readers) in
      let (s', f, _) = take_all (M.add_permits max_readers s) (
        omega (
          arith,
          L.available-add max_readers s,
          L.available-acquire max_readers _ s e,
          L.available-new max_readers,
        )) in
      (
        third_writes key s s',
        third_reached key s s' e f,
        write_guard key 0 false,
        write_guard key 1 false,
        refl,
        refl,
        refl,
        refl,
        refl,
        refl,
        refl,
        refl,
        omega arith,
      )
