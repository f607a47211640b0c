-- ===== src/Bucket/Pages.antt =====
-- What a request for a page of a list is answered.
use meowith.Base.{ℕ, ◌≡◌, refl, some, arith}
use meowith.Base.Result.{err}
use meowith.Reservation.Reserve.{bad_request}
use meowith.Permission.Access.{BucketAccessor}
use meowith.Bucket.State.{World}
use meowith.Bucket.Directories.{EntryPath}
use meowith.Bucket.Listing.{
  PaginationInfo, validate, do_list_bucket_files, do_list_bucket_directories, do_list_dir,
}

validate_start :
    (start : ℕ) (p : PaginationInfo) → p.start ≡ some start → validate p ≡ err bad_request
unfolding validate
validate_start start p h = rw h (ground arith)

-- Every list that is asked for from a start on is refused, whatever the end and the token, and
-- before anything is read.
pub start_refused :
    (e : EntryPath) (accessor : BucketAccessor) (p : PaginationInfo) (w : World) (start : ℕ)
    → p.start ≡ some start
    → (do_list_bucket_files e accessor p w ≡ (w, err bad_request))
      × (do_list_bucket_directories e accessor p w ≡ (w, err bad_request))
      × (do_list_dir e accessor p w ≡ (w, err bad_request))
unfolding do_list_bucket_files do_list_bucket_directories do_list_dir
start_refused e accessor p w start h =
    let refused = validate_start start p h in (rw refused refl, rw refused refl, rw refused refl)
