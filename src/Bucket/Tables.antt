-- ===== src/Bucket/Tables.antt =====
-- The statements on the rows of a bucket: data/src/access/file_access.rs.
use meowith.Base.{
  ℕ, zero, suc, ◌==◌, Bool, true, false, ◌&&◌, if◌then◌else◌, Option, none, some, List, [], ◌∷◌,
  ◌++◌,
}
use meowith.Base.Int.{ℤ, pos, ◌+i64◌, neg, eq_ℤ, negsuc}
use meowith.Reservation.Reserve.{internal_error}
use meowith.Bucket.Paths.{Text, text_eq, split_path}
use meowith.Bucket.State.{
  Directory, File, Bucket, World, M, ◌>>=◌, ◌>>◌, return, fail, get, modify, found, execute,
  execute_write, find_directory, erase_directory, put_directory, find_file, erase_file, put_file,
  unwrap_or_empty, unwrap_or_root, full_path, is_directory, is_file, attempt, lift,
}

unfoldable pub get_directory : Option Text → M (Option Directory)
get_directory none = return none
get_directory (some path) = do
  let (parent, name) = split_path path
  execute
  rows ← get (λ w. w.directories)
  d ← found (find_directory (unwrap_or_empty parent) name rows)
  return (some d)

unfoldable pub insert_directory : Directory → M (Unit {0})
insert_directory d = execute_write (λ w. record w { directories = put_directory d w.directories })

unfoldable pub delete_directory : Directory → M (Unit {0})
delete_directory d =
    execute_write (λ w. record w { directories = erase_directory d.parent d.name w.directories })

-- A batch that deletes a row and inserts another one.
abbrev pub batch_directory : Bool → Directory → Directory → List Directory → List Directory
batch_directory delete_wins old new ds =
    if is_directory old.parent old.name new && delete_wins
    then erase_directory old.parent old.name ds
    else put_directory new (erase_directory old.parent old.name ds)

unfoldable pub update_directory_path : Directory → Option Text → Text → M Directory
update_directory_path d parent name = do
  let new_dir : Directory = record d { parent = unwrap_or_empty parent; name = name }
  execute_write
      (λ w. record w { directories = batch_directory w.delete_wins d new_dir w.directories })
  return new_dir

abbrev pub children : Text → List Directory → List Directory
children parent [] = []
children parent (d ∷ ds) =
    let rest = children parent ds in if text_eq d.parent parent then d ∷ rest else rest

unfoldable pub get_sub_dirs : Text → M (List Directory)
get_sub_dirs path = execute >> get (λ w. children path w.directories)

abbrev pub files_of : ℕ → List File → List File
files_of directory [] = []
files_of directory (f ∷ fs) =
    let rest = files_of directory fs in if f.directory == directory then f ∷ rest else rest

unfoldable pub get_files_from_directory : Option ℕ → M (List File)
get_files_from_directory directory =
    execute >> get (λ w. files_of (unwrap_or_root directory) w.files)

abbrev pub first {ℓ} : {A : Type ℓ} → List A → Option A
first [] = none
first (x ∷ xs) = some x

unfoldable pub maybe_get_first_child_from_directory : Option Text → M (Option Directory)
maybe_get_first_child_from_directory directory =
    execute >> get (λ w. first (children (unwrap_or_empty directory) w.directories))

unfoldable pub maybe_get_first_file_from_directory : Option ℕ → M (Option File)
maybe_get_first_file_from_directory directory =
    execute >> get (λ w. first (files_of (unwrap_or_root directory) w.files))

-- `DirectoryIterator`: the directories below those in the queue, level by level. Each round takes a
-- directory from the queue, so as many rounds as there are directories below, and one, are enough.
unfoldable pub iterate : ℕ → List Directory → M (List Directory)
iterate rounds [] = return []
iterate zero (d ∷ queue) = fail internal_error
iterate (suc rounds) (d ∷ queue) = get_sub_dirs (full_path d) >>= λ rows.
    iterate rounds (queue ++ rows) >>= λ rest. return (rows ++ rest)

-- The id of the directory that is found, or of the root.
abbrev pub id_or_root : Option Directory → ℕ
id_or_root none = 0
id_or_root (some d) = d.id

unfoldable pub get_file : Option ℕ → Text → M File
get_file directory name = do
  execute
  rows ← get (λ w. w.files)
  found (find_file (unwrap_or_root directory) name rows)

unfoldable pub get_file_dir : Option Text → Text → M (File × Option Directory)
get_file_dir directory name = do
  directory ← get_directory directory
  execute
  rows ← get (λ w. w.files)
  file ← found (find_file (id_or_root directory) name rows)
  return (file, directory)

unfoldable pub maybe_get_file_dir : Option Text → Text → M (Option File × Option Directory)
maybe_get_file_dir directory name = do
  directory ← get_directory directory
  execute
  rows ← get (λ w. w.files)
  return (find_file (id_or_root directory) name rows, directory)

abbrev pub batch_file : Bool → File → File → List File → List File
batch_file delete_wins old new fs =
    if is_file old.directory old.name new && delete_wins
    then erase_file old.directory old.name fs
    else put_file new (erase_file old.directory old.name fs)

unfoldable pub update_file_path : File → Option ℕ → Text → M File
update_file_path f directory name = do
  let new_file : File = record f { directory = unwrap_or_root directory; name = name }
  execute_write (λ w. record w { files = batch_file w.delete_wins f new_file w.files })
  return new_file

-- The counters of a bucket, two `i64`.
abbrev pub Counters : Type 0
Counters = ℤ × ℤ

abbrev pub counters : Bucket → Counters
counters b = (b.file_count, b.space_taken)

abbrev pub set_counters : Counters → Bucket → Bucket
set_counters c b = record b { file_count = c.0; space_taken = c.1 }

abbrev pub add : Counters → Counters → Counters
add c d = (c.0 +i64 d.0, c.1 +i64 d.1)

abbrev pub same : Counters → Counters → Bool
same c d = eq_ℤ c.0 d.0 && eq_ℤ c.1 d.1

abbrev pub next_rival : List Counters → World → World
next_rival [] w = w
next_rival (r ∷ rs) w = record w {
  rivals = rs;
  bucket = set_counters (add (counters w.bucket) r) w.bucket;
}

-- One try: the counters are written if they are still those that were read; the answer holds
-- whether they were, and those that are there.
unfoldable pub try_update : Counters → Counters → M (Bool × Counters)
try_update expected delta = do
  modify (λ w. next_rival w.rivals w)
  now ← get (λ w. counters w.bucket)
  execute_write (λ w.
      if same now expected
      then record w { bucket = set_counters (add expected delta) w.bucket }
      else w)
  return (same now expected, now)

abbrev pub query_attempts : ℕ
query_attempts = 2048

unfoldable pub update_loop : ℕ → Counters → Counters → M (Unit {0})
update_loop zero expected delta = fail internal_error
update_loop (suc attempts) expected delta = try_update expected delta >>= λ answer. elim answer.0 [
  | true ↦ return tt
  | false ↦ update_loop attempts answer.1 delta
]

unfoldable pub update_bucket_space : Bucket → ℤ → ℤ → M (Unit {0})
update_bucket_space b file_count_delta space_taken_delta =
    update_loop query_attempts (counters b) (file_count_delta, space_taken_delta)

-- `try_join!`. Both statements go out; the one that still runs when the other fails is taken to
-- come to its end.
abbrev pub try_join : M (Unit {0}) → M (Unit {0}) → M (Unit {0})
try_join a b = do first ← attempt a; second ← attempt b; lift first; lift second

unfoldable pub delete_file : File → Bucket → M (Unit {0})
delete_file f b =
    try_join (execute_write (λ w. record w { files = erase_file f.directory f.name w.files }))
      (update_bucket_space b (negsuc 0) (neg (pos f.size)))

unfoldable pub insert_file : File → Bucket → M (Unit {0})
insert_file f b =
    try_join (execute_write (λ w. record w { files = put_file f w.files }))
      (update_bucket_space b (pos 1) (pos f.size))
