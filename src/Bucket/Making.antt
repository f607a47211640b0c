-- ===== src/Bucket/Making.antt =====
-- Making directories: what `try_mkdir` answers, and what it leaves.
use meowith.Base.{
  ℕ, zero, suc, ◌+◌, ◌<◌, ◌≤◌, ◌≡◌, refl, true, false, Option, none, some, List, [], ◌∷◌, All,
  arith, Bool-cases, inl, inr, length,
}
use meowith.Base.Result.{Result, ok, err}
use meowith.Reservation.Reserve.{NodeClientError}
use meowith.Permission.Access.{BucketAccessor, has_permission}
use meowith.Bucket.Paths.{Text, is_empty, split_path}
use meowith.Bucket.State.{
  Directory, File, World, M, erase_directory, put_directory, is_directory, unwrap_or_empty,
  unwrap_or_root, id_of, return, ◌>>=◌,
}
use meowith.Bucket.Tables.{insert_directory}
use meowith.Bucket.Directories.{
  missing, new_directory, create_all, make_path, try_mkdir, EntryPath, do_create_directory,
  create_directory_allowance,
}
use meowith.Bucket.Quiet.{Quiet, quiet_outcome}
use meowith.Bucket.Lookups.{quiet_get_directory, directory_at}
use meowith.Bucket.Accounting.{Accounted, Post, Any, bind-Post, lift_bind-Post}

erase_directory-All :
    (P : Directory → Type 0) (p n : Text) (ds : List Directory)
    → All P ds
    → All P (erase_directory p n ds)
unfolding erase_directory
erase_directory-All P p n [] h = tt
erase_directory-All P p n (d ∷ ds) h = elim (Bool-cases (is_directory p n d)) [
  | inl e ↦ rw e (erase_directory-All P p n ds h.1)
  | inr e ↦ rw e (h.0, erase_directory-All P p n ds h.1)
]

pub All_map :
    {A : Type 0} (P Q : A → Type 0) (xs : List A) → ((x : A) → P x → Q x) → All P xs → All Q xs
All_map P Q [] f h = tt
All_map P Q (x ∷ xs) f h = (f x h.0, All_map P Q xs f h.1)

-- The row of a new directory, and the world that has it.
abbrev pub made : Option Text × Text → World → Directory
made entry w = record { parent = unwrap_or_empty entry.0; name = entry.1; id = w.next_id }

abbrev pub with_directory : Option Text × Text → World → World
with_directory entry w = record w {
  next_id = w.next_id + 1;
  directories = put_directory (made entry w) w.directories;
}

pub quiet_new_directory :
    (entry : Option Text × Text) (w : World)
    → Quiet w
    → new_directory entry w ≡ (with_directory entry w, ok (made entry w))
unfolding new_directory insert_directory
quiet_new_directory (parent, name) w q =
    rw
      (quiet_outcome (record w { next_id = w.next_id + 1 })
        (record { no_fault = q.no_fault; no_rival = q.no_rival }))
      refl

with_directory-Accounted :
    (entry : Option Text × Text) (w : World) → Accounted w → Accounted (with_directory entry w)
with_directory-Accounted entry w a = record {
  quiet = record { no_fault = a.quiet.no_fault; no_rival = a.quiet.no_rival };
  deletes = a.deletes;
  counted = a.counted;
  spaced = a.spaced;
  unique = a.unique;
  next_root = omega arith;
  next_file =
      All_map (λ (f : File). f.directory < w.next_id) (λ (f : File). f.directory < w.next_id + 1)
        w.files (λ f h. omega arith) a.next_file;
  next_directory = (
    omega arith,
    erase_directory-All (λ (d : Directory). d.id < w.next_id + 1) (unwrap_or_empty entry.0) entry.1
        w.directories
        (All_map (λ (d : Directory). d.id < w.next_id) (λ (d : Directory). d.id < w.next_id + 1)
          w.directories (λ d h. omega arith) a.next_directory),
  );
}

-- That the files are the same, and ids have only been given.
abbrev pub Later : World → World → Type 0
Later w w' = (w'.files ≡ w.files) × (w.next_id ≤ w'.next_id)

abbrev Still : {A : Type 0} → World → A → World → Type 0
Still w a w' = Later w w'

-- A directory of a fresh id.
abbrev Fresh : World → Option Directory → World → Type 0
Fresh w d w' =
    Later w w' × (w.next_id ≤ unwrap_or_root (id_of d)) × (unwrap_or_root (id_of d) < w'.next_id)

missing-Post :
    (rounds : ℕ) (path : Option Text) (w : World)
    → Accounted w
    → Post (Still w) (missing rounds path w)
unfolding missing
missing-Post rounds none w a = (a, (refl, omega arith))
missing-Post zero (some path) w a = a
missing-Post (suc rounds) (some path) w a =
    rw (quiet_get_directory (some path) w a.quiet)
      (go_up (directory_at (some path) w.directories) (missing-Post rounds (split_path path).0 w a))
  where
    go_up :
        (r : Result NodeClientError (Option Directory))
        → Post (Still w) (missing rounds (split_path path).0 w)
        → Post (Still w) (
            (elim r as (λ _. M (List (Option Text × Text))) [
              | ok _ ↦ return []
              | err _ ↦
                  (missing rounds (split_path path).0 >>= λ rest. return (split_path path ∷ rest))
            ])
              w)
    go_up (ok _) p = (a, (refl, omega arith))
    go_up (err _) p = bind-Post (Still w) (Still w) _ _ p (λ rest w' a' later. (a', later))

create_all-Post :
    (entries : List (Option Text × Text)) (last : Option Text × Text) (before w : World)
    → Accounted w
    → Later before w
    → Post (Fresh before) (create_all entries last w)
unfolding create_all
create_all-Post [] last before w a later =
    rw (quiet_new_directory last w a.quiet)
      (with_directory-Accounted last w a, ((later.0, omega (arith, later.1)), later.1, omega arith))
create_all-Post (entry ∷ entries) last before w a later = rw (quiet_new_directory entry w a.quiet) (
    create_all-Post entries last before (with_directory entry w)
      (with_directory-Accounted entry w a) (later.0, omega (arith, later.1)))

make_path-Post : (path : Text) (w : World) → Accounted w → Post (Fresh w) (make_path path w)
make_path-Post path w a =
    bind-Post (Still w) (Fresh w) _ _ (missing-Post (length path) (split_path path).0 w a)
      (λ entries w' a' later. create_all-Post entries (split_path path) w w' a' later)

-- The directory that the path led to, or a fresh one if it led to none.
abbrev pub Made :
    World → Result NodeClientError (Option Directory) → Option Directory → World → Type 0
Made w (ok there) d w' = Later w w' × (d ≡ there)
Made w (err _) d w' = Fresh w d w'

pub try_mkdir-Post :
    (path : Text) (w : World)
    → Accounted w
    → is_empty path ≡ false
    → Post (Made w (directory_at (some path) w.directories)) (try_mkdir path w)
unfolding try_mkdir
try_mkdir-Post path w a h =
    rw (h, quiet_get_directory (some path) w a.quiet)
      (made_or_found (directory_at (some path) w.directories))
  where
    made_or_found :
        (r : Result NodeClientError (Option Directory))
        → Post
            (Made w r)
            ((elim r as (λ _. M (Option Directory)) [ ok d ↦ return d | err _ ↦ make_path path ]) w)
    made_or_found (ok d) = (a, ((refl, omega arith), refl))
    made_or_found (err _) = make_path-Post path w a

try_mkdir_empty : (path : Text) (w : World) → is_empty path ≡ true → try_mkdir path w ≡ (w, ok none)
unfolding try_mkdir
try_mkdir_empty path w h = rw h refl

pub do_create_directory-Post :
    (e : EntryPath) (accessor : BucketAccessor) (w : World)
    → Accounted w
    → Post {A = Unit {0}} Any (do_create_directory e accessor w)
unfolding do_create_directory
do_create_directory-Post e accessor w a =
    lift_bind-Post Any (has_permission accessor e.app_id e.bucket_id create_directory_allowance) _ w
      a
      (λ _. elim (Bool-cases (is_empty e.path)) [
        | inl empty ↦ rw (try_mkdir_empty e.path w empty) (a, tt)
        | inr full ↦
            bind-Post (Made w (directory_at (some e.path) w.directories)) Any _ _
              (try_mkdir-Post e.path w a full) (λ _ w a _. (a, tt))
      ])
