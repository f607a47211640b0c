-- ===== src/Bucket/Upload.antt =====
-- Uploads, up to the entry of the file: `handle_upload_oneshot`, `start_upload_session` and
-- `end_session` of node/src/public/service/file_access_service.rs.
use meowith.Base.{ℕ, ◌+◌, if◌then◌else◌, Option, none, some, List, [], ◌∷◌}
use meowith.Base.Int.{ℤ, pos, ◌+i64◌, as_i64, ltb_ℤ}
use meowith.Base.Result.{Result, ok, err}
use meowith.Files.Model.{FileChunk}
use meowith.Reservation.Reserve.{NodeClientError, bad_request, insufficient_storage}
use meowith.Permission.Lists.{to_u64}
use meowith.Permission.Access.{
  user_permission, write, delete, overwrite, BucketAccessor, has_permission,
}
use meowith.Bucket.Paths.{Text, split_path}
use meowith.Bucket.State.{
  File, Bucket, M, ◌>>=◌, ◌>>◌, return, fail, lift, get, modify, attempt, id_of,
}
use meowith.Bucket.Tables.{get_file, get_file_dir, insert_file}
use meowith.Bucket.Directories.{EntryPath, permitted, try_mkdir}
use meowith.Bucket.Files.{Reachable, do_delete_file, get_bucket}

abbrev pub upload_allowance : ℕ
upload_allowance = to_u64 user_permission (write ∷ [])

abbrev pub upload_overwrite_allowance : ℕ
upload_overwrite_allowance = to_u64 user_permission (write ∷ delete ∷ overwrite ∷ [])

-- What the calls of other components return: the reserved space of the sessions of the bucket, the
-- reservation of the chunks, the start of the session, the transfers to the chunks, and the commits
-- that reject and that end them.
pub record Calls : Type 0 where
  pub reserved_space : Result NodeClientError ℤ
  pub reservation : Result NodeClientError (List FileChunk)
  pub start_session : Result NodeClientError (Unit {0})
  pub transfers : Result NodeClientError (Unit {0})
  pub rejected : Result NodeClientError (Unit {0})
  pub committed : Result NodeClientError (Unit {0})

-- The file of the path that is there; it is deleted at once unless uploads are atomic.
abbrev pub overwrite_file : Reachable → EntryPath → BucketAccessor → Bucket → File → M (Option File)
overwrite_file reachable e accessor b f = do
  permitted accessor e upload_overwrite_allowance
  if b.atomic_upload then return (some f) else (do_delete_file reachable f b >> return none)

unfoldable pub clear_path : Reachable → EntryPath → BucketAccessor → Bucket → M (Option File)
clear_path reachable e accessor b = do
  there ← attempt (get_file_dir (split_path e.path).0 (split_path e.path).1)
  elim there [ ok file ↦ overwrite_file reachable e accessor b file.0 | err _ ↦ return none ]

-- The quota, against the row that was read at the start.
unfoldable pub within_quota : Bucket → ℕ → ℤ → M (Unit {0})
within_quota b size reserved =
    if ltb_ℤ b.quota (b.space_taken +i64 as_i64 (pos size) +i64 reserved)
    then fail insufficient_storage
    else return tt

unfoldable pub make_parent : Option Text → M (Option ℕ)
make_parent none = return (some 0)
make_parent (some path) = do d ← try_mkdir path; return (id_of d)

abbrev pub ok_of : {A : Type 0} → Result NodeClientError A → Option A
ok_of (ok a) = some a
ok_of (err _) = none

abbrev pub unwrap_or {ℓ} : {A : Type ℓ} → Option A → A → A
unwrap_or none default = default
unwrap_or (some a) default = a

abbrev pub delete_old : Reachable → Bucket → Option File → M (Unit {0})
delete_old reachable b none = return tt
delete_old reachable b (some f) = do_delete_file reachable f b

abbrev pub directory_or_root : Option ℕ → ℕ
directory_or_root none = 0
directory_or_root (some id) = id

-- The entry of the file, when its chunks are committed.
unfoldable pub end_session :
    Reachable
    → Calls
    → Option Text × Text
    → ℕ
    → List FileChunk
    → Bucket
    → Option (Option File)
    → ℕ
    → M (Unit {0})
end_session reachable calls path size fragments b old_file file_id = do
  lift calls.committed
  directory ← make_parent path.0
  let f : File = record {
    directory = directory_or_root directory;
    name = path.1;
    id = file_id;
    size = size;
    chunk_ids = fragments;
  }
  there ← attempt (get_file directory path.1)
  delete_old reachable b (unwrap_or old_file (ok_of there))
  insert_file f b

abbrev pub transferred : Result NodeClientError (Unit {0}) → Calls → M (Unit {0}) → M (Unit {0})
transferred (err e) calls end = lift calls.rejected >> fail e
transferred (ok _) calls end = end

unfoldable pub handle_upload_oneshot :
    Reachable → EntryPath → ℕ → BucketAccessor → Calls → M (Unit {0})
handle_upload_oneshot reachable e size accessor calls = do
  permitted accessor e upload_allowance
  b ← get_bucket
  old_file ← clear_path reachable e accessor b
  reserved ← lift calls.reserved_space
  within_quota b size reserved
  file_id ← get (λ w. w.next_id)
  modify (λ w. record w { next_id = w.next_id + 1 })
  fragments ← lift calls.reservation
  lift calls.start_session
  transferred calls.transfers calls
      (end_session reachable calls (split_path e.path) size fragments b (some old_file) file_id)

abbrev pub as_bad_request : Result {0, 0} NodeClientError Unit → Result {0, 0} NodeClientError Unit
as_bad_request (ok _) = ok tt
as_bad_request (err _) = err bad_request

-- The file that is there is not kept for later: the end of the session looks for it again.
unfoldable pub start_upload_session :
    Reachable → EntryPath → ℕ → BucketAccessor → Calls → M (Unit {0})
start_upload_session reachable e size accessor calls = do
  lift (as_bad_request (has_permission accessor e.app_id e.bucket_id upload_allowance))
  b ← get_bucket
  _ ← clear_path reachable e accessor b
  reserved ← lift calls.reserved_space
  within_quota b size reserved
  modify (λ w. record w { next_id = w.next_id + 1 })
  _ ← lift calls.reservation
  lift calls.start_session
