-- ===== src/Bucket/Entering.antt =====
-- An upload in one request keeps the counters of a bucket.
use meowith.Base.{◌≡◌, refl, ap₂, ◌∙◌, sym, Bool, true, false, if◌then◌else◌, Option, none, some}
use meowith.Base.Result.{Result, ok, err}
use meowith.Reservation.Reserve.{NodeClientError}
use meowith.Permission.Access.{BucketAccessor, has_permission}
use meowith.Bucket.Paths.{Text, split_path}
use meowith.Bucket.State.{Directory, File, Bucket, World, M, bind, find_file, return, ◌>>◌}
use meowith.Bucket.Tables.{id_or_root}
use meowith.Bucket.Directories.{EntryPath}
use meowith.Bucket.Files.{Reachable, do_delete_file}
use meowith.Bucket.Upload.{overwrite_file, clear_path, upload_overwrite_allowance}
use meowith.Bucket.Rows.{erase_file_found, find_file-erase_file}
use meowith.Bucket.Quiet.{quiet_do_delete_file, deleted_file}
use meowith.Bucket.Lookups.{quiet_get_file_dir, directory_at, file_in, or_missing}
use meowith.Bucket.Accounting.{Accounted, Post, deleted_file-Accounted, find_file_self}

-- What is known of the file at a path, where `there` is the directory that it leads to: it is the
-- one that is to be deleted later, and there is none if that is nothing.
abbrev pub Known : Result NodeClientError (Option Directory) → Text → Option File → World → Type 0
Known (ok d) name old w = find_file (id_or_root d) name w.files ≡ old
Known (err _) name old w = old ≡ none

abbrev pub Cleared :
    Option Text → Text → Result NodeClientError (Option Directory) → Option File → World → Type 0
Cleared path name there old w = (directory_at path w.directories ≡ there) × Known there name old w

overwrite_file-Post :
    (reachable : Reachable) (e : EntryPath) (accessor : BucketAccessor) (b : Bucket)
    (path : Option Text) (name : Text) (d : Option Directory) (f : File) (w : World)
    → Accounted w
    → directory_at path w.directories ≡ ok d
    → find_file (id_or_root d) name w.files ≡ some f
    → Post (Cleared path name (ok d)) (overwrite_file reachable e accessor b f w)
overwrite_file-Post reachable e accessor b path name d f w a h there =
    allowed (has_permission accessor e.app_id e.bucket_id upload_overwrite_allowance)
      b.atomic_upload
  where
    allowed :
        (r : Result {0, 0} NodeClientError Unit) (atomic : Bool)
        → Post (Cleared path name (ok d)) (
            bind {A = Unit {0}} {B = Option File}
              (w, r)
              (λ _.
                if atomic then return (some f) else (do_delete_file reachable f b >> return none)))
    allowed (err _) atomic = a
    allowed (ok _) true = (a, (h, there))
    allowed (ok _) false =
        let key = erase_file_found (id_or_root d) name w.files f a.unique there in
        rw (quiet_do_delete_file reachable f b w a.quiet) (
          deleted_file-Accounted reachable f w a
              (find_file_self (id_or_root d) name w.files f a.unique there),
          (
            h,
            ap₂ (λ x y. find_file x y (deleted_file reachable f w).files) (sym key.2) (sym key.3)
                ∙ find_file-erase_file f.directory f.name w.files,
          ),
        )

pub clear_path-Post :
    (reachable : Reachable) (e : EntryPath) (accessor : BucketAccessor) (b : Bucket) (w : World)
    → Accounted w
    → Post
        (Cleared
          (split_path e.path).0
          (split_path e.path).1
          (directory_at (split_path e.path).0 w.directories))
        (clear_path reachable e accessor b w)
unfolding clear_path
clear_path-Post reachable e accessor b w a =
    rw (quiet_get_file_dir (split_path e.path).0 (split_path e.path).1 w a.quiet)
      (at_directory (directory_at (split_path e.path).0 w.directories) refl)
  where
    at_file :
        (d : Option Directory) (o : Option File)
        → directory_at (split_path e.path).0 w.directories ≡ ok d
        → find_file (id_or_root d) (split_path e.path).1 w.files ≡ o
        → Post (Cleared (split_path e.path).0 (split_path e.path).1 (ok d)) (
            (elim (or_missing d o) as (λ _. M (Option File)) [
              | ok file ↦ overwrite_file reachable e accessor b file.0
              | err _ ↦ return none
            ])
              w)
    at_file d none h there = (a, (h, there))
    at_file d (some f) h there =
        overwrite_file-Post reachable e accessor b (split_path e.path).0 (split_path e.path).1 d f w
          a h there

    at_directory :
        (r : Result NodeClientError (Option Directory))
        → directory_at (split_path e.path).0 w.directories ≡ r
        → Post (Cleared (split_path e.path).0 (split_path e.path).1 r) (
            (elim (file_in r (split_path e.path).1 w.files) as (λ _. M (Option File)) [
              | ok file ↦ overwrite_file reachable e accessor b file.0
              | err _ ↦ return none
            ])
              w)
    at_directory (err _) h = (a, (h, refl))
    at_directory (ok d) h =
        at_file d (find_file (id_or_root d) (split_path e.path).1 w.files) h refl
