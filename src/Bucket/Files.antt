-- ===== src/Bucket/Files.antt =====
-- Files: node/src/public/service/file_action_service.rs.
use meowith.Base.{ℕ, Bool, if◌then◌else◌, Option, none, some, List, [], ◌∷◌, ◌++◌}
use meowith.Files.Model.{FileChunk}
use meowith.Permission.Access.{BucketAccessor}
use meowith.Bucket.Paths.{Text, text_eq, split_path}
use meowith.Bucket.State.{File, Bucket, M, ◌>>=◌, ◌>>◌, return, get, modify, execute, id_of}
use meowith.Bucket.Tables.{get_file_dir, maybe_get_file_dir, update_file_path, delete_file}
use meowith.Bucket.Directories.{EntryPath, permitted, delete_allowance}

-- The node itself, and the nodes to which it gets a channel.
abbrev pub Reachable : Type 0
Reachable = ℕ → Bool

-- The chunks whose deletion is asked for; what comes of it is only logged.
unfoldable pub reached : Reachable → List FileChunk → List FileChunk
reached reachable [] = []
reached reachable (chunk ∷ chunks) =
    let rest = reached reachable chunks in if reachable chunk.server_id then chunk ∷ rest else rest

unfoldable pub do_delete_file : Reachable → File → Bucket → M (Unit {0})
do_delete_file reachable f b =
    modify (λ w. record w { deleted = w.deleted ++ reached reachable f.chunk_ids })
    >> delete_file f b

unfoldable pub get_bucket : M Bucket
get_bucket = execute >> get (λ w. w.bucket)

unfoldable pub delete_file_srv : Reachable → EntryPath → BucketAccessor → M (Unit {0})
delete_file_srv reachable e accessor = do
  permitted accessor e delete_allowance
  b ← get_bucket
  file ← get_file_dir (split_path e.path).0 (split_path e.path).1
  do_delete_file reachable file.0 b

-- A file at the new path is deleted, if the token allows that.
abbrev pub clear_target : Reachable → EntryPath → BucketAccessor → Option File → M (Unit {0})
clear_target reachable e accessor none = return tt
clear_target reachable e accessor (some f) = do
  permitted accessor e delete_allowance
  b ← get_bucket
  do_delete_file reachable f b

unfoldable pub rename_file_srv : Reachable → EntryPath → Text → BucketAccessor → M (Unit {0})
rename_file_srv reachable e to accessor = if text_eq e.path to then return tt else do
  old_file ← get_file_dir (split_path e.path).0 (split_path e.path).1
  new_file ← maybe_get_file_dir (split_path to).0 (split_path to).1
  clear_target reachable e accessor new_file.0
  _ ← update_file_path old_file.0 (id_of new_file.1) (split_path to).1
  return tt
