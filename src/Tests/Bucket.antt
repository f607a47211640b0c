-- ===== src/Tests/Bucket.antt =====
-- The examples in the documentation of data/src/pathlib.rs, and requests on a small bucket.
use meowith.Base.{ℕ, ◌≡◌, refl, true, false, none, some, List, [], ◌∷◌, map, arith, All}
use meowith.Base.Int.{pos, ◌+i64◌}
use meowith.Base.Result.{ok, err}
use Prim.Native.String.{String}
use Prim.Native.Char.{code}
use meowith.Files.Model.{FileChunk}
use meowith.Reservation.Reserve.{bad_request, insufficient_storage}
use meowith.Permission.Words.{and_word, or_word}
use meowith.Permission.Lists.{check_permission, to_u64, bit}
use meowith.Permission.Access.{BucketAccessor, has_permission}
use meowith.Bucket.Paths.{
  Text, split_path, skip, split, join, join_parent_name, normalize, replace_all, trim_start,
  trim_end,
}
use meowith.Bucket.Segments.{parent_of, split_path-join_parent_name}
use meowith.Bucket.State.{World, Directory, File, find_file, find_directory}
use meowith.Bucket.Tables.{update_bucket_space, batch_file}
use meowith.Bucket.Counters.{Applied, update_bucket_space-Applied}
use meowith.Bucket.Attempts.{update_bucket_space_ends}
use meowith.Bucket.Directories.{
  EntryPath, try_mkdir, do_delete_directory, rename_children, new_local_parent_path,
}
use meowith.Bucket.Files.{Reachable, rename_file_srv, reached}
use meowith.Bucket.Listing.{
  PaginationInfo, do_list_bucket_files, do_list_bucket_directories, do_list_dir,
}
use meowith.Bucket.Upload.{Calls, handle_upload_oneshot}
use meowith.Bucket.Quiet.{Quiet, deleted_file}
use meowith.Bucket.Accounting.{Accounted, moved}
use meowith.Bucket.Served.{
  Request, upload_oneshot, rename_file, delete_file, serve_all, serve_all-Accounted,
}
use meowith.Bucket.Losses.{rename_file_srv_unchecked, rename_onto_itself, refused_upload_deletes}
use meowith.Bucket.Pages.{start_refused}
use meowith.Bucket.Trees.{Gone, do_delete_directory_orphans}
use meowith.Bucket.Closed.{Outcome, try_mkdir-Outcome, root-IsClosed}
use meowith.Bucket.Renames.{IsThere, rename_children_flattens}

abbrev codes : String → Text
codes String.[] = []
codes (String.◌∷◌ c s) = code c ∷ codes s

split_path_test :
    map split_path (
      codes "/a/path/to/a.txt"
      ∷ codes "a\\path\\to/a.txt"
      ∷ codes "a.txt"
      ∷ codes "/a.txt"
      ∷ codes "d/a/./"
      ∷ codes "d/.."
      ∷ [])
    ≡ (some (codes "a/path/to"), codes "a.txt")
      ∷ (some (codes "a/path/to"), codes "a.txt")
      ∷ (none, codes "a.txt")
      ∷ (none, codes "a.txt")
      ∷ (some (codes "d"), codes "a")
      ∷ (some (codes "d"), [])
      ∷ []
unfolding split_path skip split join normalize replace_all trim_start trim_end
split_path_test = refl

abbrev accessor : BucketAccessor
accessor = record { permits = record { bucket_id = 2; allowance = 127 } ∷ []; app_id = 1 }

abbrev at_path : Text → EntryPath
at_path path = record { app_id = 1; bucket_id = 2; path = path }

abbrev chunk : ℕ → FileChunk
chunk id = record { server_id = 7; chunk_id = id; chunk_size = 10; chunk_order = 0 }

-- `a/f` and `a/b/g`, of ten bytes each.
abbrev world : World
world = record {
  directories =
      record { parent = []; name = codes "a"; id = 1 }
      ∷ record { parent = codes "a"; name = codes "b"; id = 2 }
      ∷ [];
  files =
      record { directory = 2; name = codes "g"; id = 11; size = 10; chunk_ids = chunk 21 ∷ [] }
      ∷ [];
  bucket = record {
    atomic_upload = false;
    quota = pos 15;
    file_count = pos 1;
    space_taken = pos 10;
  };
  deleted = [];
  next_id = 30;
  faults = [];
  rivals = [];
  delete_wins = true;
}

world-Quiet : Quiet world
world-Quiet = record { no_fault = refl; no_rival = refl }

world-Accounted : Accounted world
unfolding find_file
world-Accounted = record {
  quiet = world-Quiet;
  deletes = refl;
  counted = refl;
  spaced = refl;
  unique = (refl, tt);
  next_root = omega arith;
  next_file = (omega arith, tt);
  next_directory = (omega arith, (omega arith, tt));
}

abbrev everyone : Reachable
everyone server = true

abbrev calls : Calls
calls = record {
  reserved_space = ok (pos 0);
  reservation = ok (chunk 22 ∷ []);
  start_session = ok tt;
  transfers = ok tt;
  rejected = ok tt;
  committed = ok tt;
}

abbrev requests : List (BucketAccessor × Request)
requests =
    (accessor, upload_oneshot (at_path (codes "c/h")) 5 calls)
    ∷ (accessor, rename_file (at_path (codes "a/b/g")) (codes "k"))
    ∷ (accessor, delete_file (at_path (codes "c/h")))
    ∷ []

serve_all-Accounted_example : Accounted (serve_all everyone requests world)
serve_all-Accounted_example = serve_all-Accounted everyone requests world world-Accounted

split_path-join_parent_name_example :
    (split_path (join_parent_name (join (codes "a" ∷ codes "b" ∷ [])) (codes "g"))
      ≡ (parent_of (codes "a" ∷ codes "b" ∷ []), codes "g"))
    × (normalize (join_parent_name (join (codes "a" ∷ codes "b" ∷ [])) (codes "g"))
        ≡ join_parent_name (join (codes "a" ∷ codes "b" ∷ [])) (codes "g"))
split_path-join_parent_name_example =
    split_path-join_parent_name (codes "a" ∷ codes "b" ∷ []) (codes "g")
      ((refl, refl, (refl, tt)), ((refl, refl, (refl, tt)), tt)) (refl, refl, (refl, tt)) refl

-- Another task enters a file of three bytes first.
abbrev busy : World
busy = record world { rivals = (pos 1, pos 3) ∷ [] }

update_bucket_space-Applied_example :
    Applied (pos 1, pos 5) busy (update_bucket_space busy.bucket (pos 1) (pos 5) busy)
update_bucket_space-Applied_example = update_bucket_space-Applied busy.bucket (pos 1) (pos 5) busy

update_bucket_space_ends_example :
    (w' : World) × (update_bucket_space busy.bucket (pos 1) (pos 5) busy ≡ (w', ok tt))
update_bucket_space_ends_example =
    update_bucket_space_ends busy.bucket (pos 1) (pos 5) busy refl (omega arith)

-- A token of another application renames a file.
abbrev stranger : BucketAccessor
stranger = record { permits = []; app_id = 9 }

abbrev g : File
g = record { directory = 2; name = codes "g"; id = 11; size = 10; chunk_ids = chunk 21 ∷ [] }

rename_file_srv_unchecked_example :
    rename_file_srv everyone (at_path (codes "a/b/g")) (codes "k") stranger world
    ≡ (record world { files = batch_file true g (moved g none (codes "k")) world.files }, ok tt)
unfolding split_path skip split join normalize replace_all trim_start trim_end find_directory
    find_file
rename_file_srv_unchecked_example =
    rename_file_srv_unchecked everyone (at_path (codes "a/b/g")) (codes "k") stranger world
      (some (record { parent = codes "a"; name = codes "b"; id = 2 })) none g world-Quiet refl refl
      refl refl refl

rename_onto_itself_example :
    (w' : World) × (rename_file_srv everyone
        (at_path (codes "a/b/g"))
        (codes "a/b/g/.")
        accessor
        world
      ≡ (w', ok tt))
    × (w'.deleted ≡ chunk 21 ∷ [])
    × (find_file 2 (codes "g") w'.files ≡ none)
unfolding split_path skip split join normalize replace_all trim_start trim_end find_directory
    find_file has_permission check_permission and_word or_word to_u64 bit reached
rename_onto_itself_example =
    rename_onto_itself everyone (at_path (codes "a/b/g")) (codes "a/b/g/.") accessor world
      (some (record { parent = codes "a"; name = codes "b"; id = 2 })) g world-Accounted refl refl
      refl refl refl

refused_upload_deletes_example :
    handle_upload_oneshot everyone (at_path (codes "a/b/g")) 10 accessor calls world
    ≡ (deleted_file everyone g world, err insufficient_storage)
unfolding split_path skip split join normalize replace_all trim_start trim_end find_directory
    find_file has_permission check_permission and_word or_word to_u64 bit ◌+i64◌
refused_upload_deletes_example =
    refused_upload_deletes everyone (at_path (codes "a/b/g")) 10 (pos 0) accessor calls world
      (some (record { parent = codes "a"; name = codes "b"; id = 2 })) g world-Quiet refl refl refl
      refl refl refl refl

abbrev second_page : PaginationInfo
second_page = record { start = some 10; end = some 20 }

start_refused_example :
    (do_list_bucket_files (at_path []) accessor second_page world ≡ (world, err bad_request))
    × (do_list_bucket_directories (at_path []) accessor second_page world
        ≡ (world, err bad_request))
    × (do_list_dir (at_path []) accessor second_page world ≡ (world, err bad_request))
start_refused_example = start_refused (at_path []) accessor second_page world 10 refl

-- The file `a/b/g` stays behind without its directory.
do_delete_directory_orphans_example :
    (w' : World) × (do_delete_directory (at_path (codes "a")) true accessor world ≡ (w', ok tt))
    × (w'.files ≡ g ∷ [])
    × All (Gone w'.directories) (record { parent = codes "a"; name = codes "b"; id = 2 } ∷ [])
unfolding split_path skip split join normalize replace_all trim_start trim_end find_directory
    has_permission check_permission and_word or_word to_u64 bit join_parent_name
do_delete_directory_orphans_example =
    do_delete_directory_orphans (at_path (codes "a")) accessor world
      (record { parent = []; name = codes "a"; id = 1 }) world-Quiet refl refl refl refl (refl, tt)

-- `a/b` and `a/b/c` of a directory that is renamed to `k`.
abbrev descendants : List Directory
descendants =
    record { parent = codes "a"; name = codes "b"; id = 2 }
    ∷ record { parent = codes "a/b"; name = codes "c"; id = 3 }
    ∷ []

rename_children_flattens_example :
    (w' : World) × (rename_children (codes "k") descendants world ≡ (w', ok tt))
    × All (IsThere (new_local_parent_path (codes "k")) w'.directories) descendants
unfolding normalize replace_all trim_start trim_end
rename_children_flattens_example =
    rename_children_flattens (codes "k") descendants world world-Quiet (refl, (refl, tt))

-- The directory `a` alone; `a/b` and `a/b/c` are made below it.
abbrev alone : World
alone = record world { directories = record { parent = []; name = codes "a"; id = 1 } ∷ [] }

try_mkdir-Outcome_example :
    Outcome (codes "c") (codes "b" ∷ codes "a" ∷ []) (try_mkdir (codes "a/b/c") alone)
unfolding join
try_mkdir-Outcome_example =
    try_mkdir-Outcome (codes "c") (codes "b" ∷ codes "a" ∷ []) alone
      (record { no_fault = refl; no_rival = refl })
      (root-IsClosed (record { parent = []; name = codes "a"; id = 1 }) refl)
      (
        ((refl, refl, (refl, tt)), refl),
        (((refl, refl, (refl, tt)), refl), (((refl, refl, (refl, tt)), refl), tt)),
      )
