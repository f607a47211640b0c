-- ===== src/Bucket/Entries.antt =====
-- The entry of an uploaded file keeps the counters of a bucket.
use meowith.Base.{
  ℕ, ◌+◌, ◌<◌, ◌≡◌, refl, ap₂, ◌∙◌, sym, Bool, true, false, if◌then◌else◌, Option, none, some, List,
  arith,
}
use meowith.Base.Int.{ℤ, pos, as_i64, ◌+i64◌, ltb_ℤ}
use meowith.Base.Result.{Result, ok, err}
use meowith.Files.Model.{FileChunk}
use meowith.Reservation.Reserve.{NodeClientError, insufficient_storage}
use meowith.Permission.Access.{BucketAccessor, has_permission}
use meowith.Bucket.Paths.{Text, is_empty, split_path}
use meowith.Bucket.State.{
  Directory, File, Bucket, World, M, fail, find_file, unwrap_or_root, return, found,
}
use meowith.Bucket.Tables.{get_file, insert_file}
use meowith.Bucket.Directories.{EntryPath}
use meowith.Bucket.Files.{Reachable}
use meowith.Bucket.Upload.{
  Calls, within_quota, delete_old, directory_or_root, end_session, transferred,
  handle_upload_oneshot, upload_allowance,
}
use meowith.Bucket.Rows.{erase_file_found, find_file-erase_file}
use meowith.Bucket.Quiet.{
  Quiet, quiet_execute, quiet_do_delete_file, quiet_insert_file, deleted_file,
}
use meowith.Bucket.Lookups.{directory_at, or_not_found}
use meowith.Bucket.Accounting.{
  Accounted, Post, Any, bind-Post, lift_bind-Post, deleted_file-Accounted, with_file-Accounted,
  find_file_self,
}
use meowith.Bucket.Moves.{quiet_get_bucket}
use meowith.Bucket.Entering.{Known, Cleared, clear_path-Post}
use meowith.Bucket.Making.{All_map}
use meowith.Bucket.Places.{AtKey, split_path-is_empty, make_parent-Post}

delete_old-Post :
    (reachable : Reachable) (b : Bucket) (name : Text) (old : Option File) (directory : Option ℕ)
    (w : World)
    → Accounted w
    → AtKey name old directory w
    → Post (λ _. AtKey name none directory) (delete_old reachable b old w)
delete_old-Post reachable b name none directory w a key = (a, key)
delete_old-Post reachable b name (some f) directory w a key =
    let own = erase_file_found (directory_or_root directory) name w.files f a.unique key.0 in
    rw (quiet_do_delete_file reachable f b w a.quiet) (
      deleted_file-Accounted reachable f w a
          (find_file_self (directory_or_root directory) name w.files f a.unique key.0),
      (
        ap₂ (λ x y. find_file x y (deleted_file reachable f w).files) (sym own.2) (sym own.3)
            ∙ find_file-erase_file f.directory f.name w.files,
        key.1,
      ),
    )

insert_file-Post :
    (f : File) (b : Bucket) (w : World)
    → Accounted w
    → find_file f.directory f.name w.files ≡ none
    → f.directory < w.next_id
    → Post {A = Unit {0}} Any (insert_file f b w)
insert_file-Post f b w a free lt =
    rw (quiet_insert_file f b w a.quiet) (with_file-Accounted f w a free lt, tt)

quiet_get_file :
    (directory : Option ℕ) (name : Text) (w : World)
    → Quiet w
    → get_file directory name w
      ≡ (w, or_not_found (find_file (unwrap_or_root directory) name w.files))
unfolding get_file
quiet_get_file directory name w q =
    rw (quiet_execute w q) (found_lem (find_file (unwrap_or_root directory) name w.files))
  where
    found_lem : (o : Option File) → found o w ≡ (w, or_not_found o)
    found_lem none = refl
    found_lem (some f) = refl

end_session-Post :
    (reachable : Reachable) (calls : Calls) (path : Option Text) (name : Text) (size : ℕ)
    (fragments : List FileChunk) (b : Bucket) (old : Option File) (file_id : ℕ)
    (there : Result NodeClientError (Option Directory)) (w : World)
    → Accounted w
    → ((s : Text) → path ≡ some s → is_empty s ≡ false)
    → Cleared path name there old w
    → Post {A = Unit {0}} Any
        (end_session reachable calls (path, name) size fragments b (some old) file_id w)
unfolding end_session
end_session-Post reachable calls path name size fragments b old file_id there w a full c =
    lift_bind-Post Any calls.committed _ w a (λ _.
      bind-Post (AtKey name old) Any _ _ (make_parent-Post there path name old w a full c.0 c.1)
        (λ directory w a key. rw (quiet_get_file directory name w a.quiet) (
          bind-Post (λ _. AtKey name none directory) Any _ _
            (delete_old-Post reachable b name old directory w a key)
            (λ _ w a free.
              insert_file-Post
                (record {
                  directory = directory_or_root directory;
                  name = name;
                  id = file_id;
                  size = size;
                  chunk_ids = fragments;
                })
                b w a free.0 free.1))))

next_id-Accounted : (w : World) → Accounted w → Accounted (record w { next_id = w.next_id + 1 })
next_id-Accounted w a = record {
  quiet = record { no_fault = a.quiet.no_fault; no_rival = a.quiet.no_rival };
  deletes = a.deletes;
  counted = a.counted;
  spaced = a.spaced;
  unique = a.unique;
  next_root = omega arith;
  next_file =
      All_map (λ (f : File). f.directory < w.next_id) (λ (f : File). f.directory < w.next_id + 1)
        w.files (λ f h. omega arith) a.next_file;
  next_directory =
      All_map (λ (d : Directory). d.id < w.next_id) (λ (d : Directory). d.id < w.next_id + 1)
        w.directories (λ d h. omega arith) a.next_directory;
}

next_id-Known :
    (there : Result NodeClientError (Option Directory)) (name : Text) (old : Option File)
    (w : World)
    → Known there name old w
    → Known there name old (record w { next_id = w.next_id + 1 })
next_id-Known (ok d) name old w k = k
next_id-Known (err _) name old w k = k

transferred-Post :
    (r : Result NodeClientError (Unit {0})) (calls : Calls) (end : M (Unit {0})) (w : World)
    → Accounted w
    → Post {A = Unit {0}} Any (end w)
    → Post {A = Unit {0}} Any (transferred r calls end w)
transferred-Post (ok _) calls end w a p = p
transferred-Post (err e) calls end w a p = lift_bind-Post Any calls.rejected _ w a (λ _. a)

within_quota-Post :
    (b : Bucket) (size : ℕ) (reserved : ℤ) (w : World) (R : Unit {0} → World → Type 0)
    → Accounted w
    → R tt w
    → Post R (within_quota b size reserved w)
unfolding within_quota
within_quota-Post b size reserved w R a h =
    decide (ltb_ℤ b.quota (b.space_taken +i64 as_i64 (pos size) +i64 reserved))
  where
    decide : (over : Bool) → Post R ((if over then fail insufficient_storage else return tt) w)
    decide true = a
    decide false = (a, h)

pub handle_upload_oneshot-Post :
    (reachable : Reachable) (e : EntryPath) (size : ℕ) (accessor : BucketAccessor) (calls : Calls)
    (w : World)
    → Accounted w
    → Post {A = Unit {0}} Any (handle_upload_oneshot reachable e size accessor calls w)
unfolding handle_upload_oneshot
handle_upload_oneshot-Post reachable e size accessor calls w a =
    let path = (split_path e.path).0 in
    let name = (split_path e.path).1 in
    lift_bind-Post Any (has_permission accessor e.app_id e.bucket_id upload_allowance) _ w a (λ _.
      rw (quiet_get_bucket w a.quiet) (
        bind-Post (Cleared path name (directory_at path w.directories)) Any _ _
          (clear_path-Post reachable e accessor w.bucket w a)
          (λ old w' a c. lift_bind-Post Any calls.reserved_space _ w' a (λ reserved.
            bind-Post (λ _. Cleared path name (directory_at path w.directories) old) Any _ _
              (within_quota-Post w.bucket size reserved w'
                (λ _. Cleared path name (directory_at path w.directories) old) a c)
              (λ _ w'' a c.
                let next = next_id-Accounted w'' a in
                lift_bind-Post Any calls.reservation _ _ next (λ fragments.
                  lift_bind-Post Any calls.start_session _ _ next (λ _.
                    transferred-Post calls.transfers calls _ _ next (
                      end_session-Post reachable calls path name size fragments w.bucket old
                        w''.next_id (directory_at path w.directories) _ next
                        (split_path-is_empty e.path)
                        (
                          c.0,
                          next_id-Known (directory_at path w.directories) name old w'' c.1,
                        )))))))))
