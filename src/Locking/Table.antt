-- ===== src/Locking/Table.antt =====
-- The lock table and its guards. Each lock of the table owns a semaphore; a guard owns permits of
-- it and only a weak reference to the lock, which the table alone keeps alive. Dropping a guard
-- may spawn a task that removes the table's entry later.
use meowith.Base.{
  ℕ, suc, ◌+◌, ◌<◌, ◌≡◌, Bool, true, false, Option, none, some, List, [], ◌∷◌, ◌++◌, ◌==◌,
  if◌then◌else◌,
}
use meowith.Base.Dict.{Dict, lookup, insert, remove}
use meowith.Base.Result.{Result, ok, err}

-- `tokio::sync::Semaphore`, which is not in the repository, and what its documentation says.
pub record Semaphore : Type 1 where
  pub Sem : Type 0
  pub new : ℕ → Sem
  pub available_permits : Sem → ℕ
  pub try_acquire_many : ℕ → Sem → Option Sem
  -- The drop of a permit.
  pub add_permits : ℕ → Sem → Sem

pub record IsLawful (M : Semaphore) : Type 0 where
  pub available-new : (n : ℕ) → M.available_permits (M.new n) ≡ n
  pub available-acquire :
      (n : ℕ) (s t : M.Sem)
      → M.try_acquire_many n s ≡ some t
      → M.available_permits t + n ≡ M.available_permits s
  pub acquire-none : (n : ℕ) (s : M.Sem) → M.try_acquire_many n s ≡ none → M.available_permits s < n
  pub available-add :
      (n : ℕ) (s : M.Sem) → M.available_permits (M.add_permits n s) ≡ M.available_permits s + n

pub data FileLockError : Type 0 where
  lock_taken : FileLockError

pub data LockKind : Type 0 where
  read write : LockKind

-- A `FileReadGuard` or `FileWriteGuard`. `dropping` once its `drop` has run, while it still has
-- its permits.
pub record Guard : Type 0 where
  pub key : ℕ
  pub locker : ℕ
  pub kind : LockKind
  pub dropping : Bool

abbrev pub update {ℓ} : {A : Type ℓ} → (ℕ → A) → ℕ → A → ℕ → A
update f i a j = if i == j then a else f j

module _ (M : Semaphore) (max_readers : ℕ) where
  -- The permits that a guard holds.
  abbrev pub permits : LockKind → ℕ
  permits read = 1
  permits write = max_readers

  -- Lockers are numbered as they are created. `spawned` holds the keys that tasks spawned by
  -- `drop` are still to remove.
  pub record FileLockTable : Type 0 where
    pub lock_table : Dict ℕ
    pub semaphores : ℕ → M.Sem
    pub next_locker : ℕ
    pub guards : Dict Guard
    pub spawned : List ℕ

  abbrev pub new_table : FileLockTable
  new_table = record {
    lock_table = [];
    semaphores = λ _. M.new max_readers;
    next_locker = 0;
    guards = [];
    spawned = [];
  }

  -- `FileReadGuard::new` and `FileWriteGuard::new` with `is_attempt`; `id` names the new guard.
  unfoldable pub acquire :
      (id key locker : ℕ) (kind : LockKind) → FileLockTable → FileLockTable × Result FileLockError ℕ
  acquire id key locker kind t = elim (M.try_acquire_many (permits kind) (t.semaphores locker)) [
    | none ↦ (t, err lock_taken)
    | some sem ↦ (
      record t {
        semaphores = update t.semaphores locker sem;
        guards =
            insert id (record { key = key; locker = locker; kind = kind; dropping = false })
              t.guards;
      },
      ok id,
    )
  ]

  -- `FileLock::new`, and its insertion into the table.
  abbrev pub create_lock : ℕ → FileLockTable → FileLockTable
  create_lock key t = record t {
    lock_table = insert key t.next_locker t.lock_table;
    semaphores = update t.semaphores t.next_locker (M.new max_readers);
    next_locker = suc t.next_locker;
  }

  -- `try_read` and `try_write`. `read` and `write` have the same effect when they return; until
  -- the permits are there they wait, and the table's mutex with them.
  unfoldable pub try_lock :
      (id key : ℕ) (kind : LockKind) → FileLockTable → FileLockTable × Result FileLockError ℕ
  try_lock id key kind t = elim (lookup key t.lock_table) [
    | some locker ↦ acquire id key locker kind t
    | none ↦ acquire id key t.next_locker kind (create_lock key t)
  ]

  -- The lock of a guard is alive while the table has it under the guard's key.
  abbrev pub upgrade : Guard → FileLockTable → Bool
  upgrade g t = elim (lookup g.key t.lock_table) [ none ↦ false | some locker ↦ locker == g.locker ]

  -- `release_read` and `release_write`: whether the guard's drop spawns the removal of its key.
  abbrev pub spawns_removal : Guard → FileLockTable → Bool
  spawns_removal g t = if upgrade g t then last_guard g.kind else false
    where
      last_guard : LockKind → Bool
      last_guard read = M.available_permits (t.semaphores g.locker) + 1 == max_readers
      last_guard write = true

  -- `Drop::drop` of a guard.
  unfoldable pub begin_drop : ℕ → FileLockTable → FileLockTable
  begin_drop id t = elim (lookup id t.guards) [
    | none ↦ t
    | some g ↦ if g.dropping then t else record t {
      guards = insert id (record g { dropping = true }) t.guards;
      spawned = if spawns_removal g t then g.key ∷ t.spawned else t.spawned;
    }
  ]

  -- After `drop` its fields are dropped, and the permits go back.
  unfoldable pub end_drop : ℕ → FileLockTable → FileLockTable
  end_drop id t = elim (lookup id t.guards) [
    | none ↦ t
    | some g ↦
        if g.dropping
        then record t {
          guards = remove id t.guards;
          semaphores =
              update t.semaphores g.locker (M.add_permits (permits g.kind) (t.semaphores g.locker));
        }
        else t
  ]

  -- A spawned task removes its key.
  unfoldable pub remove_entry : ℕ → List ℕ → FileLockTable → FileLockTable
  remove_entry key rest t = record t { lock_table = remove key t.lock_table; spawned = rest }

  -- The tasks of a node interleave: a call on the table under its mutex, the two halves of the
  -- drop of a guard, and any spawned removal.
  pub data Step (t : FileLockTable) : FileLockTable → Type 0 where
    locks :
        (id key : ℕ) (kind : LockKind)
        → lookup id t.guards ≡ none
        → Step t (try_lock id key kind t).0
    begins_drop : (id : ℕ) → Step t (begin_drop id t)
    ends_drop : (id : ℕ) → Step t (end_drop id t)
    removes :
        (before after : List ℕ) (key : ℕ)
        → t.spawned ≡ before ++ key ∷ after
        → Step t (remove_entry key (before ++ after) t)

  pub data Reach : FileLockTable → Type 0 where
    start : Reach new_table
    later : {s t : FileLockTable} → Reach s → Step s t → Reach t
