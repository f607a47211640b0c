-- ===== src/Bucket/Listing.antt =====
-- Lists of directories and files: node/src/public/service/file_list_service.rs.
use meowith.Base.{
  ℕ, zero, suc, ◌-◌, ◌^◌, ◌||◌, Bool, true, false, leb, if◌then◌else◌, Option, none, some, List, [],
  ◌∷◌, ◌++◌, take, drop, map, length,
}
use meowith.Base.Result.{Result, ok, err}
use meowith.Reservation.Reserve.{NodeClientError, bad_request, not_found, internal_error}
use meowith.Permission.Lists.{to_u64}
use meowith.Permission.Access.{user_permission, read, list_bucket, list_directory, BucketAccessor}
use meowith.Bucket.Paths.{Text, is_empty, split_path}
use meowith.Bucket.State.{
  Directory, File, M, ◌>>=◌, ◌>>◌, return, fail, lift, get, attempt, execute, full_path, id_of,
}
use meowith.Bucket.Tables.{get_directory, get_sub_dirs, get_files_from_directory, get_file_dir}
use meowith.Bucket.Directories.{EntryPath, permitted}

pub record PaginationInfo : Type 0 where
  pub start : Option ℕ
  pub end : Option ℕ

abbrev pub is_some : Option ℕ → Bool
is_some none = false
is_some (some n) = true

abbrev pub unwrap_or : Option ℕ → ℕ → ℕ
unwrap_or none default = default
unwrap_or (some n) default = n

abbrev pub usize_max : ℕ
usize_max = 2 ^ 64 - 1

unfoldable pub is_paginated : PaginationInfo → Bool
is_paginated p = is_some p.start || is_some p.end

-- The start and the end that a request is completed with. The end is taken from the start.
unfoldable pub completed : PaginationInfo → ℕ × ℕ
completed p = (unwrap_or p.start 0, unwrap_or p.start usize_max)

unfoldable pub validate : PaginationInfo → Result {0, 0} NodeClientError Unit
unfolding is_paginated completed
validate p =
    if is_paginated p
    then (if leb (completed p).1 (completed p).0 then err bad_request else ok tt)
    else ok tt

pub record Entity : Type 0 where
  pub name : Text
  pub dir : Option ℕ
  pub dir_id : Option ℕ
  pub size : ℕ
  pub is_dir : Bool

-- `skip` and `take` of a stream.
abbrev pub page {ℓ} : {A : Type ℓ} → PaginationInfo → List A → List A
page p rows =
    if is_paginated p
    then take ((completed p).1 - (completed p).0) (drop (completed p).0 rows)
    else rows

abbrev pub list_bucket_allowance : ℕ
list_bucket_allowance = to_u64 user_permission (list_bucket ∷ [])

abbrev pub list_dir_allowance : ℕ
list_dir_allowance = to_u64 user_permission (list_directory ∷ [])

abbrev pub download_allowance : ℕ
download_allowance = to_u64 user_permission (read ∷ [])

-- The entity of a directory, by its path or its name.
abbrev pub directory_entity : (Directory → Text) → Directory → Entity
directory_entity name d = record {
  name = name d;
  dir = none;
  dir_id = some d.id;
  size = 0;
  is_dir = true;
}

abbrev pub file_entity : Option ℕ → File → Entity
file_entity dir f = record {
  name = f.name;
  dir = dir;
  dir_id = none;
  size = f.size;
  is_dir = false;
}

abbrev pub collect_files : List File → Bool → List Entity
collect_files [] include_dir = []
collect_files (f ∷ fs) include_dir =
    file_entity (if include_dir then some f.directory else none) f ∷ collect_files fs include_dir

unfoldable pub do_list_bucket_files : EntryPath → BucketAccessor → PaginationInfo → M (List Entity)
unfolding is_paginated completed
do_list_bucket_files e accessor p = do
  lift (validate p)
  permitted accessor e list_bucket_allowance
  execute
  rows ← get (λ w. w.files)
  return (collect_files (page p rows) true)

unfoldable pub do_list_bucket_directories :
    EntryPath → BucketAccessor → PaginationInfo → M (List Entity)
unfolding is_paginated completed
do_list_bucket_directories e accessor p = do
  lift (validate p)
  permitted accessor e list_bucket_allowance
  execute
  rows ← get (λ w. w.directories)
  return (map (directory_entity full_path) (page p rows))

-- The files, if there is room left behind the directories.
abbrev pub files_after : ℕ → Option ℕ → M (List Entity)
files_after zero directory = return []
files_after (suc room) directory = do
  rows ← get_files_from_directory directory
  return (take (suc room) (collect_files rows false))

unfoldable pub do_list_dir : EntryPath → BucketAccessor → PaginationInfo → M (List Entity)
unfolding completed
do_list_dir e accessor p = do
  lift (validate p)
  permitted accessor e list_dir_allowance
  dir ← get_directory (if is_empty e.path then none else some e.path)
  sub_dirs ← get_sub_dirs e.path
  let room = (completed p).1 - (completed p).0
  files ← files_after (room - length sub_dirs) (id_of dir)
  return (map (directory_entity (λ d. d.name)) (take room sub_dirs) ++ files)

abbrev pub stat_of :
    Result NodeClientError (Option Directory)
    → Result NodeClientError (File × Option Directory)
    → M Entity
stat_of (ok (some d)) file = return (directory_entity (λ d. d.name) d)
stat_of (ok none) (ok (f, dir)) = return (file_entity (id_of dir) f)
stat_of (ok none) (err _) = fail internal_error
stat_of (err _) (ok (f, dir)) = return (file_entity (id_of dir) f)
stat_of (err _) (err _) = fail not_found

unfoldable pub do_stat_file : EntryPath → BucketAccessor → M Entity
do_stat_file e accessor = do
  permitted accessor e download_allowance
  if is_empty e.path then fail not_found else do
    dir_result ← attempt (get_directory (some e.path))
    file_result ← attempt (get_file_dir (split_path e.path).0 (split_path e.path).1)
    stat_of dir_result file_result
