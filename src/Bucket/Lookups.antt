-- ===== src/Bucket/Lookups.antt =====
-- What a path leads to: the reading statements on a bucket when none fails.
use meowith.Base.{◌≡◌, refl, Option, none, some, List}
use meowith.Base.Result.{Result, ok, err}
use meowith.Reservation.Reserve.{NodeClientError, not_found}
use meowith.Bucket.Paths.{Text, split_path}
use meowith.Bucket.State.{
  Directory, File, World, execute, bind, find_directory, find_file, found, unwrap_or_empty,
}
use meowith.Bucket.Tables.{get_directory, get_file_dir, maybe_get_file_dir, id_or_root}
use meowith.Bucket.Quiet.{Quiet, quiet_execute}

abbrev pub or_not_found {ℓ} : {A : Type ℓ} → Option A → Result NodeClientError A
or_not_found none = err not_found
or_not_found (some a) = ok a

abbrev pub directory_found : Option Directory → Result NodeClientError (Option Directory)
directory_found none = err not_found
directory_found (some d) = ok (some d)

-- The directory that a path leads to; no path leads to the root.
abbrev pub directory_at : Option Text → List Directory → Result NodeClientError (Option Directory)
directory_at none rows = ok none
directory_at (some path) rows =
    directory_found (find_directory (unwrap_or_empty (split_path path).0) (split_path path).1 rows)

found_directory :
    (o : Option Directory) (w : World)
    → bind {A = Directory} {B = Option Directory} (found o w) (λ d w. (w, ok (some d)))
      ≡ (w, directory_found o)
found_directory none w = refl
found_directory (some d) w = refl

pub quiet_get_directory :
    (path : Option Text) (w : World)
    → Quiet w
    → get_directory path w ≡ (w, directory_at path w.directories)
unfolding get_directory
quiet_get_directory none w q = refl
quiet_get_directory (some path) w q = rw (quiet_execute w q) (
    found_directory
      (find_directory (unwrap_or_empty (split_path path).0) (split_path path).1 w.directories) w)

abbrev pub or_missing :
    Option Directory → Option File → Result NodeClientError (File × Option Directory)
or_missing d none = err not_found
or_missing d (some f) = ok (f, d)

-- The file of a name in a directory.
abbrev pub file_in :
    Result NodeClientError (Option Directory)
    → Text
    → List File
    → Result NodeClientError (File × Option Directory)
file_in (err e) name fs = err e
file_in (ok d) name fs = or_missing d (find_file (id_or_root d) name fs)

found_file :
    (o : Option File) (d : Option Directory) (w : World)
    → bind {A = File} {B = File × Option Directory} (found o w) (λ f w. (w, ok (f, d)))
      ≡ (w, or_missing d o)
found_file none d w = refl
found_file (some f) d w = refl

abbrev pub maybe_in :
    Result NodeClientError (Option Directory)
    → Text
    → List File
    → Result NodeClientError (Option File × Option Directory)
maybe_in (err e) name fs = err e
maybe_in (ok d) name fs = ok (find_file (id_or_root d) name fs, d)

pub quiet_get_file_dir :
    (path : Option Text) (name : Text) (w : World)
    → Quiet w
    → get_file_dir path name w ≡ (w, file_in (directory_at path w.directories) name w.files)
unfolding get_file_dir
quiet_get_file_dir path name w q =
    rw (quiet_get_directory path w q) (rest (directory_at path w.directories))
  where
    rest :
        (r : Result NodeClientError (Option Directory))
        → bind {A = Option Directory} {B = File × Option Directory}
            (w, r)
            (λ d w. bind {A = Unit {0}} {B = File × Option Directory} (execute w) (λ _ w.
              bind {A = File} {B = File × Option Directory}
                (found (find_file (id_or_root d) name w.files) w)
                (λ f w. (w, ok (f, d)))))
          ≡ (w, file_in r name w.files)
    rest (err e) = refl
    rest (ok d) = rw (quiet_execute w q) (found_file (find_file (id_or_root d) name w.files) d w)

pub quiet_maybe_get_file_dir :
    (path : Option Text) (name : Text) (w : World)
    → Quiet w
    → maybe_get_file_dir path name w ≡ (w, maybe_in (directory_at path w.directories) name w.files)
unfolding maybe_get_file_dir
quiet_maybe_get_file_dir path name w q =
    rw (quiet_get_directory path w q) (rest (directory_at path w.directories))
  where
    rest :
        (r : Result NodeClientError (Option Directory))
        → bind {A = Option Directory} {B = Option File × Option Directory}
            (w, r)
            (λ d w.
              bind {A = Unit {0}} {B = Option File × Option Directory}
                (execute w)
                (λ _ w. (w, ok (find_file (id_or_root d) name w.files, d))))
          ≡ (w, maybe_in r name w.files)
    rest (err e) = refl
    rest (ok d) = rw (quiet_execute w q) refl
