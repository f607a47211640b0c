-- ===== src/Tests/Locking.antt =====
-- A lock table over counting semaphores.
use meowith.Base.{ℕ, ◌+◌, ◌-◌, ◌≡◌, refl, ◌≢◌, false, none, some, arith, leb, if◌then◌else◌}
use meowith.Base.Dict.{lookup, insert}
use meowith.Base.Result.{err}
use meowith.Locking.Table.{
  Semaphore, IsLawful, FileLockTable, Guard, read, write, try_lock, acquire, new_table, locks,
  Reach, start, later, lock_taken,
}
use meowith.Locking.Exclusion.{write_excludes}
use meowith.Locking.Race.{writers_overlap}

abbrev pub counting : Semaphore
counting = record {
  Sem = ℕ;
  new = λ n. n;
  available_permits = λ s. s;
  try_acquire_many = λ n s. if leb n s then some (s - n) else none;
  add_permits = λ n s. s + n;
}

counting-IsLawful : IsLawful counting
counting-IsLawful = record {
  available-new = λ n. refl;
  available-acquire = λ n s t e. ground arith;
  acquire-none = λ n s e. ground arith;
  available-add = λ n s. refl;
}

abbrev Table : Type 0
Table = FileLockTable counting 2

written : Table
written = (try_lock counting 2 0 9 write (new_table counting 2)).0

written-Reach : Reach counting 2 written
unfolding written lookup
written-Reach = later start (locks 0 9 write refl)

abbrev writer : Guard
writer = record { key = 9; locker = 0; kind = write; dropping = false }

third_reader :
    (try_lock counting 2 2 9 read
      (try_lock counting 2 1 9 read (try_lock counting 2 0 9 read (new_table counting 2)).0).0).1
    ≡ err lock_taken
unfolding try_lock acquire lookup insert
third_reader = refl

-- A reader of another key beside the writer.
shared : Table
shared = (try_lock counting 2 1 8 read written).0

shared-Reach : Reach counting 2 shared
unfolding shared written try_lock acquire lookup insert
shared-Reach = later written-Reach (locks 1 8 read refl)

abbrev reader : Guard
reader = record { key = 8; locker = 1; kind = read; dropping = false }

write_excludes_example : reader.locker ≢ writer.locker
unfolding shared written try_lock acquire lookup insert
write_excludes_example =
    write_excludes counting 2 counting-IsLawful (omega arith) shared-Reach 0 1 writer reader refl
      refl refl (omega arith)

writers_overlap_example :
    (t : Table) × Reach counting 2 t
    × (g : Guard) × (g' : Guard) × (lookup 1 t.guards ≡ some g)
    × (lookup 2 t.guards ≡ some g')
    × (g.kind ≡ write)
    × (g'.kind ≡ write)
    × (g.key ≡ 9)
    × (g'.key ≡ 9)
    × (g.dropping ≡ false)
    × (g'.dropping ≡ false)
    × (g.locker ≢ g'.locker)
writers_overlap_example = writers_overlap counting 2 counting-IsLawful 9
