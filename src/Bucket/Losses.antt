-- ===== src/Bucket/Losses.antt =====
-- Requests on files that lose one, or that need no permission.
use meowith.Base.{
  ℕ, ◌≡◌, refl, ap, ap₂, ◌∙◌, sym, Bool, true, false, if◌then◌else◌, Option, none, some, List, ◌++◌,
  ==_refl,
}
use meowith.Base.Int.{ℤ, pos, ◌+i64◌, as_i64, ltb_ℤ}
use meowith.Base.Result.{ok, err}
use meowith.Reservation.Reserve.{insufficient_storage}
use meowith.Permission.Access.{BucketAccessor, has_permission}
use meowith.Bucket.Paths.{Text, text_eq, split_path}
use meowith.Bucket.State.{
  Directory, File, Bucket, World, return, ◌>>◌, find_file, id_of, is_file, erase_file,
}
use meowith.Bucket.Tables.{id_or_root, update_file_path, batch_file}
use meowith.Bucket.Directories.{EntryPath, delete_allowance}
use meowith.Bucket.Files.{Reachable, reached, rename_file_srv, do_delete_file}
use meowith.Bucket.Upload.{
  Calls, handle_upload_oneshot, clear_path, within_quota, upload_allowance,
  upload_overwrite_allowance,
}
use meowith.Bucket.Rows.{erase_file_found, find_file-erase_file, text_eq_refl}
use meowith.Bucket.Quiet.{Quiet, quiet_outcome, quiet_do_delete_file, deleted_file}
use meowith.Bucket.Lookups.{quiet_get_file_dir, quiet_maybe_get_file_dir, directory_at}
use meowith.Bucket.Accounting.{Accounted, moved}
use meowith.Bucket.Moves.{quiet_get_bucket, unwrap_or_root-id_of}

quiet_update_file_path :
    (f : File) (directory : Option ℕ) (name : Text) (w : World)
    → Quiet w
    → update_file_path f directory name w ≡ (
      record w { files = batch_file w.delete_wins f (moved f directory name) w.files },
      ok (moved f directory name),
    )
unfolding update_file_path
quiet_update_file_path f directory name w q = rw (quiet_outcome w q) refl

-- A file is renamed by any token, whatever its application and its permits, if the new path leads
-- to a directory that has no file of the name, and no statement fails.
pub rename_file_srv_unchecked :
    (reachable : Reachable) (e : EntryPath) (to : Text) (accessor : BucketAccessor) (w : World)
    (d d' : Option Directory) (f : File)
    → Quiet w
    → text_eq e.path to ≡ false
    → directory_at (split_path e.path).0 w.directories ≡ ok d
    → find_file (id_or_root d) (split_path e.path).1 w.files ≡ some f
    → directory_at (split_path to).0 w.directories ≡ ok d'
    → find_file (id_or_root d') (split_path to).1 w.files ≡ none
    → rename_file_srv reachable e to accessor w ≡ (
      record w {
        files = batch_file w.delete_wins f (moved f (id_of d') (split_path to).1) w.files;
      },
      ok tt,
    )
unfolding rename_file_srv
rename_file_srv_unchecked reachable e to accessor w d d' f q other at there at' free =
    rw
      (
        other,
        quiet_get_file_dir (split_path e.path).0 (split_path e.path).1 w q,
        at,
        there,
        quiet_maybe_get_file_dir (split_path to).0 (split_path to).1 w q,
        at',
        free,
        quiet_update_file_path f (id_of d') (split_path to).1 w q,
      )
      refl

moved_onto_itself :
    (f : File) (d : Option Directory) (name : Text) (delete_wins : Bool) (fs : List File)
    → delete_wins ≡ true
    → f.directory ≡ id_or_root d
    → f.name ≡ name
    → batch_file delete_wins f (moved f (id_of d) name) fs ≡ erase_file f.directory f.name fs
moved_onto_itself f d name delete_wins fs wins h h' =
    let same : is_file f.directory f.name (moved f (id_of d) name) ≡ true =
      rw (h, h', unwrap_or_root-id_of d, ==_refl (id_or_root d), text_eq_refl name) refl in
    rw (same, wins) refl

-- A file that is renamed to another spelling of its own path is lost: the request succeeds, the
-- deletion of its chunks was asked for, and the path leads to no file any more. This is for a
-- token that may delete, and a bucket whose counters are right and whose files have different
-- keys, while no statement fails and nobody else changes the counters, and for a database in which
-- a batch that deletes a row and inserts it leaves none.
pub rename_onto_itself :
    (reachable : Reachable) (e : EntryPath) (to : Text) (accessor : BucketAccessor) (w : World)
    (d : Option Directory) (f : File)
    → Accounted w
    → text_eq e.path to ≡ false
    → split_path to ≡ split_path e.path
    → directory_at (split_path e.path).0 w.directories ≡ ok d
    → find_file (id_or_root d) (split_path e.path).1 w.files ≡ some f
    → has_permission accessor e.app_id e.bucket_id delete_allowance ≡ ok tt
    → (w' : World) × (rename_file_srv reachable e to accessor w ≡ (w', ok tt))
      × (w'.deleted ≡ w.deleted ++ reached reachable f.chunk_ids)
      × (find_file (id_or_root d) (split_path e.path).1 w'.files ≡ none)
unfolding rename_file_srv
rename_onto_itself reachable e to accessor w d f a other spelling at there allowed =
    let name = (split_path e.path).1 in
    let q = a.quiet in
    let after : World = deleted_file reachable f w in
    let q' : Quiet after = record { no_fault = q.no_fault; no_rival = q.no_rival } in
    let key = erase_file_found (id_or_root d) name w.files f a.unique there in
    (
      record after { files = batch_file after.delete_wins f (moved f (id_of d) name) after.files },
      rw
          (
            other,
            spelling,
            quiet_get_file_dir (split_path e.path).0 name w q,
            at,
            there,
            quiet_maybe_get_file_dir (split_path e.path).0 name w q,
            at,
            there,
            allowed,
            quiet_get_bucket w q,
            quiet_do_delete_file reachable f w.bucket w q,
            quiet_update_file_path f (id_of d) name after q',
          )
          refl,
      refl,
      ap (find_file (id_or_root d) name)
            (moved_onto_itself f d name after.delete_wins after.files a.deletes key.2 key.3)
          ∙ ap₂ (λ x y. find_file x y (erase_file f.directory f.name after.files)) (sym key.2)
              (sym key.3)
          ∙ find_file-erase_file f.directory f.name after.files,
    )

overwritten :
    (reachable : Reachable) (f : File) (b : Bucket) (atomic : Bool) (w : World)
    → Quiet w
    → atomic ≡ false
    → (if atomic then return (some f) else (do_delete_file reachable f b >> return none)) w
      ≡ (deleted_file reachable f w, ok none)
overwritten reachable f b true w q h = cc (h)
overwritten reachable f b false w q h = rw (quiet_do_delete_file reachable f b w q) refl

-- An upload over an existing file, to a bucket whose uploads are not atomic, that is refused for
-- lack of space has deleted the file, although the space that it took counted against the upload.
-- Refused is what the sum of `i64`s finds over the quota; no statement fails, nobody else changes
-- the counters, and the token may upload and overwrite.
pub refused_upload_deletes :
    (reachable : Reachable) (e : EntryPath) (size : ℕ) (reserved : ℤ) (accessor : BucketAccessor)
    (calls : Calls) (w : World) (d : Option Directory) (f : File)
    → Quiet w
    → has_permission accessor e.app_id e.bucket_id upload_allowance ≡ ok tt
    → has_permission accessor e.app_id e.bucket_id upload_overwrite_allowance ≡ ok tt
    → directory_at (split_path e.path).0 w.directories ≡ ok d
    → find_file (id_or_root d) (split_path e.path).1 w.files ≡ some f
    → w.bucket.atomic_upload ≡ false
    → calls.reserved_space ≡ ok reserved
    → ltb_ℤ w.bucket.quota (w.bucket.space_taken +i64 as_i64 (pos size) +i64 reserved) ≡ true
    → handle_upload_oneshot reachable e size accessor calls w
      ≡ (deleted_file reachable f w, err insufficient_storage)
unfolding handle_upload_oneshot clear_path within_quota
refused_upload_deletes reachable e size reserved accessor calls w d f q may_upload may_overwrite at
      there plain known over =
    rw
      (
        may_upload,
        quiet_get_bucket w q,
        quiet_get_file_dir (split_path e.path).0 (split_path e.path).1 w q,
        at,
        there,
        may_overwrite,
        overwritten reachable f w.bucket w.bucket.atomic_upload w q plain,
        known,
        over,
      )
      refl
