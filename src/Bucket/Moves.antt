-- ===== src/Bucket/Moves.antt =====
-- Deleting and renaming files keeps the counters of a bucket.
use meowith.Base.{
  ℕ, ◌<◌, ◌≡◌, refl, ap, ap₂, ==_refl, ◌∙◌, sym, Option, none, some, List, Bool-cases, inl, inr,
}
use meowith.Base.Result.{Result, ok, err}
use meowith.Reservation.Reserve.{NodeClientError}
use meowith.Permission.Access.{BucketAccessor, has_permission}
use meowith.Bucket.Paths.{Text, text_eq, split_path}
use meowith.Bucket.State.{
  Directory, File, Bucket, World, bind, return, ◌>>=◌, ◌>>◌, find_file, is_file, erase_file,
  unwrap_or_empty, unwrap_or_root, id_of,
}
use meowith.Bucket.Tables.{update_file_path, get_file_dir, batch_file, id_or_root}
use meowith.Bucket.Directories.{EntryPath, delete_allowance}
use meowith.Bucket.Files.{
  Reachable, do_delete_file, delete_file_srv, rename_file_srv, clear_target, get_bucket,
}
use meowith.Bucket.Rows.{
  find_file-erase_file, find_file_other, is_file-eq, erase_file_found, text_eq_refl,
}
use meowith.Bucket.Quiet.{Quiet, quiet_execute, quiet_outcome, quiet_do_delete_file, deleted_file}
use meowith.Bucket.Lookups.{
  quiet_get_file_dir, quiet_maybe_get_file_dir, directory_at, file_in, or_missing, maybe_in,
  directory_found,
}
use meowith.Bucket.Accounting.{
  Accounted, Post, Any, bind-Post, deleted_file-Accounted, moved-Accounted, erased-Accounted, moved,
  find_file_self, find_directory-All,
}

pub get_bucket-Post : (w : World) → Accounted w → Post Any (get_bucket w)
unfolding get_bucket
get_bucket-Post w a = rw (quiet_execute w a.quiet) (a, tt)

pub quiet_get_bucket : (w : World) → Quiet w → get_bucket w ≡ (w, ok w.bucket)
unfolding get_bucket
quiet_get_bucket w q = rw (quiet_execute w q) refl

pub delete-Post :
    (reachable : Reachable) (f : File) (b : Bucket) (w : World)
    → Accounted w
    → find_file f.directory f.name w.files ≡ some f
    → Post {A = Unit {0}} Any (do_delete_file reachable f b w)
delete-Post reachable f b w a h =
    rw (quiet_do_delete_file reachable f b w a.quiet) (deleted_file-Accounted reachable f w a h, tt)

-- A file that a path leads to has a row.
abbrev pub HasRow : File × Option Directory → World → Type 0
HasRow found w = find_file found.0.directory found.0.name w.files ≡ some found.0

or_missing-Post :
    (d : Option Directory) (name : Text) (o : Option File) (w : World)
    → Accounted w
    → find_file (id_or_root d) name w.files ≡ o
    → Post HasRow (w, or_missing d o)
or_missing-Post d name none w a h = a
or_missing-Post d name (some f) w a h = (a, find_file_self (id_or_root d) name w.files f a.unique h)

file_in-Post :
    (r : Result NodeClientError (Option Directory)) (name : Text) (w : World)
    → Accounted w
    → Post HasRow (w, file_in r name w.files)
file_in-Post (err e) name w a = a
file_in-Post (ok d) name w a =
    or_missing-Post d name (find_file (id_or_root d) name w.files) w a refl

get_file_dir-Post :
    (path : Option Text) (name : Text) (w : World)
    → Accounted w
    → Post HasRow (get_file_dir path name w)
get_file_dir-Post path name w a =
    rw (quiet_get_file_dir path name w a.quiet)
      (file_in-Post (directory_at path w.directories) name w a)

pub lift-Post :
    {A : Type 0} (r : Result NodeClientError A) (w : World) → Accounted w → Post Any (w, r)
lift-Post (ok a) w acc = (acc, tt)
lift-Post (err e) w acc = acc

pub delete_file_srv-Post :
    (reachable : Reachable) (e : EntryPath) (accessor : BucketAccessor) (w : World)
    → Accounted w
    → Post {A = Unit {0}} Any (delete_file_srv reachable e accessor w)
unfolding delete_file_srv
delete_file_srv-Post reachable e accessor w a =
    bind-Post Any Any _ _
      (lift-Post (has_permission accessor e.app_id e.bucket_id delete_allowance) w a)
      (λ _ w a _. bind-Post Any Any (get_bucket w) _ (get_bucket-Post w a) (λ b w a _.
        bind-Post HasRow Any _ _ (get_file_dir-Post (split_path e.path).0 (split_path e.path).1 w a)
          (λ found w a row. delete-Post reachable found.0 b w a row)))

-- The batch at the end of a rename.
update-Post :
    (f : File) (directory : Option ℕ) (name : Text) (w : World)
    → Accounted w
    → Accounted (record w { files = batch_file w.delete_wins f (moved f directory name) w.files })
    → Post {A = File} Any (update_file_path f directory name w)
unfolding update_file_path
update-Post f directory name w a after = rw (quiet_outcome w a.quiet) (after, tt)

directory_found-some :
    (o : Option Directory) (d : Directory) → directory_found o ≡ ok (some d) → o ≡ some d
directory_found-some none d h = cc (h)
directory_found-some (some g) d h = cc (h)

pub id-lt-next :
    (d : Option Directory) (path : Option Text) (w : World)
    → Accounted w
    → directory_at path w.directories ≡ ok d
    → unwrap_or_root (id_of d) < w.next_id
id-lt-next none path w a h = a.next_root
id-lt-next (some d) none w a h = cc (h)
id-lt-next (some d) (some path) w a h =
    find_directory-All (λ (g : Directory). g.id < w.next_id) (unwrap_or_empty (split_path path).0)
      (split_path path).1 w.directories d a.next_directory (directory_found-some _ d h)

pub unwrap_or_root-id_of : (d : Option Directory) → unwrap_or_root (id_of d) ≡ id_or_root d
unwrap_or_root-id_of none = refl
unwrap_or_root-id_of (some d) = refl

-- That the batch at the end of a rename keeps the counters.
abbrev Ready : File → Option ℕ → Text → Unit {0} → World → Type 0
Ready f directory name _ w =
    Accounted (record w { files = batch_file w.delete_wins f (moved f directory name) w.files })

-- The batch, after the file at the new path was deleted.
deleted-Ready :
    (reachable : Reachable) (f g : File) (directory : Option ℕ) (name : Text) (w : World)
    → Accounted w
    → find_file f.directory f.name w.files ≡ some f
    → find_file (unwrap_or_root directory) name w.files ≡ some g
    → unwrap_or_root directory < w.next_id
    → Ready f directory name tt (deleted_file reachable g w)
deleted-Ready reachable f g directory name w a row there lt =
    let own = find_file_self (unwrap_or_root directory) name w.files g a.unique there in
    let after = deleted_file-Accounted reachable g w a own in
    let key = erase_file_found (unwrap_or_root directory) name w.files g a.unique there in
    let left : List File = erase_file g.directory g.name w.files in
    elim (Bool-cases (is_file g.directory g.name f)) [
      | inl same ↦
          let k = is_file-eq g.directory g.name f same in
          erased-Accounted f directory name (deleted_file reachable g w) after
            (ap₂ (λ x y. find_file x y left) k.0 k.1
              ∙ find_file-erase_file g.directory g.name w.files)
            (rw (k.0, k.1, key.2, key.3)
              (rw (==_refl (unwrap_or_root directory), text_eq_refl name) refl))
      | inr other ↦
          moved-Accounted f directory name (deleted_file reachable g w) after
            (find_file_other f.directory f.name g.directory g.name w.files f row other)
            (ap₂ (λ x y. find_file x y left) (sym key.2) (sym key.3)
              ∙ find_file-erase_file g.directory g.name w.files)
            lt
    ]

clear_target-Post :
    (reachable : Reachable) (e : EntryPath) (accessor : BucketAccessor) (f : File)
    (there : Option File) (directory : Option ℕ) (name : Text) (w : World)
    → Accounted w
    → find_file f.directory f.name w.files ≡ some f
    → find_file (unwrap_or_root directory) name w.files ≡ there
    → unwrap_or_root directory < w.next_id
    → Post (Ready f directory name) (clear_target reachable e accessor there w)
clear_target-Post reachable e accessor f none directory name w a row free lt =
    (a, moved-Accounted f directory name w a row free lt)
clear_target-Post reachable e accessor f (some g) directory name w a row there lt =
    allowed (has_permission accessor e.app_id e.bucket_id delete_allowance)
  where
    allowed :
        (r : Result {0, 0} NodeClientError Unit)
        → Post (Ready f directory name) (
            bind {A = Unit {0}} {B = Unit {0}}
              (w, r)
              (λ _ w.
                bind {A = Bucket} {B = Unit {0}}
                  (get_bucket w)
                  (λ b. do_delete_file reachable g b)))
    allowed (err e) = a
    allowed (ok _) =
        rw (quiet_get_bucket w a.quiet, quiet_do_delete_file reachable g w.bucket w a.quiet)
          (
            deleted_file-Accounted reachable g w a
                (find_file_self (unwrap_or_root directory) name w.files g a.unique there),
            deleted-Ready reachable f g directory name w a row there lt,
          )

-- The rest of a rename, from what the two paths lead to.
found-Post :
    (reachable : Reachable) (e : EntryPath) (accessor : BucketAccessor) (f : File)
    (r : Result NodeClientError (Option Directory)) (name : Text) (w : World)
    → Accounted w
    → find_file f.directory f.name w.files ≡ some f
    → (path : Option Text) → directory_at path w.directories ≡ r
    → Post {A = Unit {0}} Any (
        bind {A = Option File × Option Directory} {B = Unit {0}}
          (w, maybe_in r name w.files)
          (λ there.
            clear_target reachable e accessor there.0
            >> (update_file_path f (id_of there.1) name >>= λ _. return tt)))
found-Post reachable e accessor f (err er) name w a row path h = a
found-Post reachable e accessor f (ok d) name w a row path h =
    bind-Post (Ready f (id_of d) name) Any _ _
      (clear_target-Post reachable e accessor f (find_file (id_or_root d) name w.files) (id_of d)
        name w a row (ap (λ id. find_file id name w.files) (unwrap_or_root-id_of d))
        (id-lt-next d path w a h))
      (λ _ w a ready.
        bind-Post Any Any _ _ (update-Post f (id_of d) name w a ready) (λ _ w a _. (a, tt)))

pub rename_file_srv-Post :
    (reachable : Reachable) (e : EntryPath) (to : Text) (accessor : BucketAccessor) (w : World)
    → Accounted w
    → Post {A = Unit {0}} Any (rename_file_srv reachable e to accessor w)
unfolding rename_file_srv
rename_file_srv-Post reachable e to accessor w a = elim (Bool-cases (text_eq e.path to)) [
  | inl same ↦ rw same (a, tt)
  | inr other ↦ rw other (
      bind-Post HasRow Any _ _ (get_file_dir-Post (split_path e.path).0 (split_path e.path).1 w a)
        (λ found w a row.
          rw (quiet_maybe_get_file_dir (split_path to).0 (split_path to).1 w a.quiet) (
            found-Post reachable e accessor found.0 (directory_at (split_path to).0 w.directories)
              (split_path to).1 w a row (split_path to).0 refl)))
]
