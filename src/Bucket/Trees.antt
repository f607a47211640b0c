-- ===== src/Bucket/Trees.antt =====
-- What the requests on directories leave of a tree.
use meowith.Base.{
  ℕ, zero, suc, ◌≤◌, ◌≡◌, refl, ap, true, false, none, some, List, [], ◌∷◌, ◌++◌, All, length,
  arith,
}
use mathlib.Core.List.{append-nil}
use meowith.Base.Result.{ok}
use meowith.Permission.Access.{BucketAccessor, has_permission}
use meowith.Bucket.Paths.{Text, is_empty}
use meowith.Bucket.State.{
  Directory, World, bind, return, find_directory, erase_directory, full_path,
}
use meowith.Bucket.Tables.{
  children, files_of, get_sub_dirs, iterate, delete_directory, maybe_get_first_file_from_directory,
}
use meowith.Bucket.Directories.{
  EntryPath, delete_allowance, dir_empty, no_child, delete_children, delete_below,
  do_delete_directory, rounds_of,
}
use meowith.Bucket.Quiet.{Quiet, quiet_execute, quiet_outcome}
use meowith.Bucket.Making.{All_map}
use meowith.Bucket.Lookups.{quiet_get_directory, directory_at}

quiet_get_sub_dirs :
    (path : Text) (w : World)
    → Quiet w
    → get_sub_dirs path w ≡ (w, ok (children path w.directories))
unfolding get_sub_dirs
quiet_get_sub_dirs path w q = rw (quiet_execute w q) refl

-- Directories without directories below them.
abbrev pub Leaves : World → List Directory → Type 0
Leaves w cs = All (λ (c : Directory). children (full_path c) w.directories ≡ []) cs

iterate_none : (rounds : ℕ) (w : World) → iterate rounds [] w ≡ (w, ok [])
unfolding iterate
iterate_none zero w = refl
iterate_none (suc rounds) w = refl

iterate-Leaves :
    (cs : List Directory) (rounds : ℕ) (w : World)
    → Quiet w
    → Leaves w cs
    → length cs ≤ rounds
    → iterate rounds cs w ≡ (w, ok [])
unfolding iterate
iterate-Leaves [] rounds w q h le = iterate_none rounds w
iterate-Leaves (c ∷ cs) zero w q h le = absurd (omega arith)
iterate-Leaves (c ∷ cs) (suc rounds) w q h le =
    rw (quiet_get_sub_dirs (full_path c) w q, h.0, append-nil cs)
      (ap (λ r. bind {A = List Directory} {B = List Directory} r (λ rest. return ([] ++ rest)))
        (iterate-Leaves cs rounds w q h.1 (omega arith)))

children-length : (path : Text) (ds : List Directory) → length (children path ds) ≤ length ds
children-length path [] = omega arith
children-length path (d ∷ ds) = ground (arith, children-length path ds)

iterate_below :
    (d : Directory) (w : World)
    → Quiet w
    → Leaves w (children (full_path d) w.directories)
    → iterate (rounds_of w) (d ∷ []) w ≡ (w, ok (children (full_path d) w.directories))
unfolding iterate
iterate_below d w q h =
    rw
      (
        quiet_get_sub_dirs (full_path d) w q,
        iterate-Leaves (children (full_path d) w.directories) (length w.directories) w q h
            (children-length (full_path d) w.directories),
        append-nil (children (full_path d) w.directories),
      )
      refl

-- The rows of directories without those of a list.
abbrev pub erase_all : List Directory → List Directory → List Directory
erase_all [] rows = rows
erase_all (d ∷ ds) rows = erase_all ds (erase_directory d.parent d.name rows)

abbrev pub with_rows : List Directory → World → World
with_rows rows w = record w { directories = rows }

quiet_dir_empty :
    (d : Directory) (w : World)
    → Quiet w
    → files_of d.id w.files ≡ []
    → dir_empty d false w ≡ (w, ok tt)
unfolding dir_empty no_child maybe_get_first_file_from_directory
quiet_dir_empty d w q h = rw (quiet_execute w q, h) refl

quiet_delete_directory :
    (d : Directory) (w : World)
    → Quiet w
    → delete_directory d w ≡ (with_rows (erase_directory d.parent d.name w.directories) w, ok tt)
unfolding delete_directory
quiet_delete_directory d w q = rw (quiet_outcome w q) refl

pub rows-Quiet : (rows : List Directory) (w : World) → Quiet w → Quiet (with_rows rows w)
rows-Quiet rows w q = record { no_fault = q.no_fault; no_rival = q.no_rival }

quiet_delete_children :
    (d : Directory) (cs : List Directory) (w : World)
    → Quiet w
    → files_of d.id w.files ≡ []
    → delete_children d cs w ≡ (with_rows (erase_all cs w.directories) w, ok tt)
unfolding delete_children
quiet_delete_children d [] w q h = refl
quiet_delete_children d (c ∷ cs) w q h =
    let w' = with_rows (erase_directory c.parent c.name w.directories) w in
    rw
      (
        quiet_dir_empty d w q h,
        quiet_delete_directory c w q,
        quiet_delete_children d cs w'
            (rows-Quiet (erase_directory c.parent c.name w.directories) w q) h,
      )
      refl

find-erase_directory :
    (p n : Text) (rows : List Directory) → find_directory p n (erase_directory p n rows) ≡ none
unfolding find_directory erase_directory
find-erase_directory p n [] = refl
find-erase_directory p n (d ∷ rows) = ground (arith, find-erase_directory p n rows)

find_none-erase_directory :
    (p n p' n' : Text) (rows : List Directory)
    → find_directory p n rows ≡ none
    → find_directory p n (erase_directory p' n' rows) ≡ none
unfolding find_directory erase_directory
find_none-erase_directory p n p' n' [] h = refl
find_none-erase_directory p n p' n' (d ∷ rows) h =
    ground (arith, find_none-erase_directory p n p' n' rows)

-- That the row of a directory is gone.
abbrev pub Gone : List Directory → Directory → Type 0
Gone rows d = find_directory d.parent d.name rows ≡ none

erase_all-Gone :
    (d : Directory) (cs rows : List Directory) → Gone rows d → Gone (erase_all cs rows) d
erase_all-Gone d [] rows h = h
erase_all-Gone d (c ∷ cs) rows h =
    erase_all-Gone d cs (erase_directory c.parent c.name rows)
      (find_none-erase_directory d.parent d.name c.parent c.name rows h)

all-Gone : (cs rows : List Directory) → All (Gone (erase_all cs rows)) cs
all-Gone [] rows = tt
all-Gone (c ∷ cs) rows = (
  erase_all-Gone c cs (erase_directory c.parent c.name rows)
      (find-erase_directory c.parent c.name rows),
  all-Gone cs (erase_directory c.parent c.name rows),
)

-- A recursive deletion of a directory that has no file of its own, and whose directories have no
-- directories below them, succeeds whatever files those have: it removes their rows and leaves
-- every row of a file. It is for a token that may delete, and while no statement fails.
pub do_delete_directory_orphans :
    (e : EntryPath) (accessor : BucketAccessor) (w : World) (d : Directory)
    → Quiet w
    → has_permission accessor e.app_id e.bucket_id delete_allowance ≡ ok tt
    → is_empty e.path ≡ false
    → directory_at (some e.path) w.directories ≡ ok (some d)
    → files_of d.id w.files ≡ []
    → Leaves w (children (full_path d) w.directories)
    → (w' : World) × (do_delete_directory e true accessor w ≡ (w', ok tt))
      × (w'.files ≡ w.files)
      × All (Gone w'.directories) (children (full_path d) w.directories)
unfolding do_delete_directory delete_below
do_delete_directory_orphans e accessor w d q allowed full at no_files leaves =
    let cs = children (full_path d) w.directories in
    let rows = erase_all cs w.directories in
    (
      with_rows (erase_directory d.parent d.name rows) w,
      rw
          (
            allowed,
            full,
            quiet_get_directory (some e.path) w q,
            at,
            iterate_below d w q leaves,
            quiet_delete_children d cs w q no_files,
            quiet_delete_directory d (with_rows rows w) (rows-Quiet rows w q),
          )
          refl,
      refl,
      All_map (Gone rows) (Gone (erase_directory d.parent d.name rows)) cs
          (λ c h. find_none-erase_directory c.parent c.name d.parent d.name rows h)
          (all-Gone cs w.directories),
    )
