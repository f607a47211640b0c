-- ===== src/Bucket/Served.antt =====
-- The requests that act on the files of a bucket, one after the other.
use meowith.Base.{ℕ, List, [], ◌∷◌}
use meowith.Base.Result.{Result, ok, err}
use meowith.Reservation.Reserve.{NodeClientError}
use meowith.Permission.Access.{BucketAccessor}
use meowith.Bucket.Paths.{Text}
use meowith.Bucket.State.{World}
use meowith.Bucket.Directories.{EntryPath, do_create_directory}
use meowith.Bucket.Files.{Reachable, delete_file_srv, rename_file_srv}
use meowith.Bucket.Upload.{Calls, handle_upload_oneshot}
use meowith.Bucket.Accounting.{Accounted, Post, Any}
use meowith.Bucket.Moves.{delete_file_srv-Post, rename_file_srv-Post}
use meowith.Bucket.Making.{do_create_directory-Post}
use meowith.Bucket.Entries.{handle_upload_oneshot-Post}

pub data Request : Type 0 where
  delete_file : EntryPath → Request
  rename_file : EntryPath → Text → Request
  upload_oneshot : EntryPath → ℕ → Calls → Request
  create_directory : EntryPath → Request

unfoldable pub serve :
    Reachable → BucketAccessor → Request → World → World × Result NodeClientError (Unit {0})
serve reachable accessor (delete_file e) = delete_file_srv reachable e accessor
serve reachable accessor (rename_file e to) = rename_file_srv reachable e to accessor
serve reachable accessor (upload_oneshot e size calls) =
    handle_upload_oneshot reachable e size accessor calls
serve reachable accessor (create_directory e) = do_create_directory e accessor

unfoldable pub serve_all : Reachable → List (BucketAccessor × Request) → World → World
unfolding serve
serve_all reachable [] w = w
serve_all reachable ((accessor, r) ∷ requests) w =
    serve_all reachable requests (serve reachable accessor r w).0

Post-Accounted :
    (r : World × Result NodeClientError (Unit {0})) → Post {A = Unit {0}} Any r → Accounted r.0
Post-Accounted (w, ok _) p = p.0
Post-Accounted (w, err _) p = p

serve-Accounted :
    (reachable : Reachable) (accessor : BucketAccessor) (r : Request) (w : World)
    → Accounted w
    → Accounted (serve reachable accessor r w).0
unfolding serve
serve-Accounted reachable accessor (delete_file e) w a =
    Post-Accounted _ (delete_file_srv-Post reachable e accessor w a)
serve-Accounted reachable accessor (rename_file e to) w a =
    Post-Accounted _ (rename_file_srv-Post reachable e to accessor w a)
serve-Accounted reachable accessor (upload_oneshot e size calls) w a =
    Post-Accounted _ (handle_upload_oneshot-Post reachable e size accessor calls w a)
serve-Accounted reachable accessor (create_directory e) w a =
    Post-Accounted _ (do_create_directory-Post e accessor w a)

-- Requests that delete, rename and upload files and create directories, served one after the other
-- while no statement of the database fails and nobody else changes the bucket: whatever they are
-- answered, the counters of the bucket are the number of its files and the sum of their sizes, as
-- an `i64` has them (exactly, while they are below 2^63), and no two files have one key, if that was
-- so before. A batch of statements that deletes a row and inserts it is taken to leave none.
pub serve_all-Accounted :
    (reachable : Reachable) (requests : List (BucketAccessor × Request)) (w : World)
    → Accounted w
    → Accounted (serve_all reachable requests w)
unfolding serve_all
serve_all-Accounted reachable [] w a = a
serve_all-Accounted reachable ((accessor, r) ∷ requests) w a =
    serve_all-Accounted reachable requests (serve reachable accessor r w).0
      (serve-Accounted reachable accessor r w a)
