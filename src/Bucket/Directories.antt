-- ===== src/Bucket/Directories.antt =====
-- Directories: `try_mkdir` of node/src/public/service/file_access_service.rs, and
-- node/src/public/service/directory_action_service.rs.
use meowith.Base.{
  ℕ, zero, suc, ◌+◌, Bool, true, false, ◌||◌, if◌then◌else◌, Option, none, some, List, [], ◌∷◌,
  ◌++◌, length,
}
use meowith.Base.Result.{Result, ok, err}
use meowith.Reservation.Reserve.{
  NodeClientError, internal_error, bad_request, not_empty, entity_exists,
}
use meowith.Permission.Lists.{to_u64}
use meowith.Permission.Access.{
  user_permission, write, delete, rename, BucketAccessor, has_permission,
}
use meowith.Bucket.Paths.{Text, text_eq, is_empty, normalize, slash, split_path, join_parent_name}
use meowith.Bucket.State.{
  Directory, World, M, ◌>>=◌, ◌>>◌, return, fail, lift, get, modify, attempt, full_path,
  unwrap_or_empty,
}
use meowith.Bucket.Tables.{
  get_directory, insert_directory, delete_directory, update_directory_path, iterate,
  maybe_get_first_child_from_directory, maybe_get_first_file_from_directory,
}

-- The path of a request, which `prepare_path` has accepted.
pub record EntryPath : Type 0 where
  pub app_id : ℕ
  pub bucket_id : ℕ
  pub path : Text

abbrev pub delete_allowance : ℕ
delete_allowance = to_u64 user_permission (delete ∷ write ∷ [])

abbrev pub create_directory_allowance : ℕ
create_directory_allowance = to_u64 user_permission (write ∷ [])

abbrev pub rename_directory_allowance : ℕ
rename_directory_allowance = to_u64 user_permission (write ∷ rename ∷ [])

abbrev pub permitted : BucketAccessor → EntryPath → ℕ → M (Unit {0})
permitted accessor e requested = lift (has_permission accessor e.app_id e.bucket_id requested)

-- The loop that goes up to the first directory that is there. A path has fewer parents than bytes.
unfoldable pub missing : ℕ → Option Text → M (List (Option Text × Text))
missing rounds none = return []
missing zero (some path) = fail internal_error
missing (suc rounds) (some path) = do
  there ← attempt (get_directory (some path))
  elim there [
    | ok _ ↦ return []
    | err _ ↦ do rest ← missing rounds (split_path path).0; return (split_path path ∷ rest)
  ]

unfoldable pub new_directory : Option Text × Text → M Directory
new_directory (parent, name) = do
  id ← get (λ w. w.next_id)
  modify (λ w. record w { next_id = w.next_id + 1 })
  let d : Directory = record { parent = unwrap_or_empty parent; name = name; id = id }
  insert_directory d
  return d

-- The last directory is the answer.
unfoldable pub create_all : List (Option Text × Text) → Option Text × Text → M (Option Directory)
create_all [] last = do d ← new_directory last; return (some d)
create_all (entry ∷ entries) last = new_directory entry >> create_all entries last

abbrev pub make_path : Text → M (Option Directory)
make_path path = do
  to_create ← missing (length path) (split_path path).0
  create_all to_create (split_path path)

unfoldable pub try_mkdir : Text → M (Option Directory)
try_mkdir path = if is_empty path then return none else do
  existing ← attempt (get_directory (some path))
  elim existing [ ok d ↦ return d | err _ ↦ make_path path ]

unfoldable pub do_create_directory : EntryPath → BucketAccessor → M (Unit {0})
do_create_directory e accessor = do
  permitted accessor e create_directory_allowance
  _ ← try_mkdir e.path
  return tt

abbrev pub refuse_if_some : {A : Type 0} → Option A → M (Unit {0})
refuse_if_some none = return tt
refuse_if_some (some _) = fail not_empty

unfoldable pub no_child : Bool → Directory → M (Unit {0})
no_child false d = return tt
no_child true d = maybe_get_first_child_from_directory (some (full_path d)) >>= refuse_if_some

unfoldable pub dir_empty : Directory → Bool → M (Unit {0})
dir_empty d check_dir =
    no_child check_dir d >> (maybe_get_first_file_from_directory (some d.id) >>= refuse_if_some)

-- `unwrap` of a directory that was found by a path.
abbrev pub unwrap : {A : Type 0} → Option A → M A
unwrap none = fail internal_error
unwrap (some a) = return a

-- The rounds of an iteration below a directory: one for each row, and one.
abbrev pub rounds_of : World → ℕ
rounds_of w = suc (length w.directories)

unfoldable pub delete_children : Directory → List Directory → M (Unit {0})
delete_children d [] = return tt
delete_children d (child ∷ rest) =
    dir_empty d false >> (delete_directory child >> delete_children d rest)

unfoldable pub delete_below : Bool → Directory → M (Unit {0})
delete_below true d = do
  rounds ← get rounds_of
  below ← iterate rounds (d ∷ [])
  delete_children d below
delete_below false d = dir_empty d true

unfoldable pub do_delete_directory : EntryPath → Bool → BucketAccessor → M (Unit {0})
do_delete_directory e recursive accessor = do
  permitted accessor e delete_allowance
  if is_empty e.path then fail bad_request else do
    d ← get_directory (some e.path)
    d ← unwrap d
    delete_below recursive d
    delete_directory d

-- The new path of everything below a directory: what is cut off the path of the directory itself
-- is nothing.
abbrev pub new_local_parent_path : Text → Text
new_local_parent_path new_parent_path = normalize (new_parent_path ++ slash ∷ [])

unfoldable pub rename_children : Text → List Directory → M (Unit {0})
rename_children new_parent_path [] = return tt
rename_children new_parent_path (d ∷ ds) =
    update_directory_path d (some (new_local_parent_path new_parent_path)) d.name
    >> rename_children new_parent_path ds

abbrev pub path_of : Option Directory → Option Text
path_of none = none
path_of (some d) = some (full_path d)

abbrev pub refuse_existing : Result NodeClientError (Option Directory) → M (Unit {0})
refuse_existing (ok _) = fail entity_exists
refuse_existing (err _) = return tt

abbrev pub move_directory : Directory → Text → M (Unit {0})
move_directory original to = do
  attempt (get_directory (some to)) >>= refuse_existing
  new_parent ← try_mkdir (unwrap_or_empty (split_path to).0)
  rounds ← get rounds_of
  to_rename ← iterate rounds (original ∷ [])
  rename_children (join_parent_name (unwrap_or_empty (path_of new_parent)) (split_path to).1)
      to_rename
  _ ← update_directory_path original (path_of new_parent) (split_path to).1
  return tt

unfoldable pub do_rename_directory : EntryPath → Text → BucketAccessor → M (Unit {0})
do_rename_directory e to accessor = do
  permitted accessor e rename_directory_allowance
  if text_eq e.path to
      then return tt
      else if is_empty e.path || is_empty to
      then fail bad_request
      else do
        original ← get_directory (some e.path)
        original ← unwrap original
        move_directory original to
