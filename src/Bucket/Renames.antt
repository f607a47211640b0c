-- ===== src/Bucket/Renames.antt =====
-- Where a renamed directory leaves what is below it.
use meowith.Base.{
  ◌≡◌, refl, ap, ◌∙◌, sym, Bool, true, false, some, List, [], ◌∷◌, All, arith, Bool-cases, inl, inr,
}
use meowith.Base.Result.{ok}
use meowith.Bucket.Paths.{Text, text_eq}
use meowith.Bucket.State.{
  Directory, World, find_directory, erase_directory, put_directory, is_directory,
}
use meowith.Bucket.Tables.{update_directory_path, batch_directory}
use meowith.Bucket.Directories.{rename_children, new_local_parent_path}
use meowith.Bucket.Rows.{text_eq_refl, text_eq-eq}
use meowith.Bucket.Quiet.{Quiet, quiet_outcome}
use meowith.Bucket.Trees.{with_rows, rows-Quiet}

-- A directory that is moved below a path.
abbrev below : Text → Directory → Directory
below parent d = record d { parent = parent }

-- The rows after directories are moved.
abbrev moved_rows : Text → Bool → List Directory → List Directory → List Directory
moved_rows parent delete_wins [] rows = rows
moved_rows parent delete_wins (d ∷ ds) rows =
    moved_rows parent delete_wins ds (batch_directory delete_wins d (below parent d) rows)

quiet_update_directory :
    (d : Directory) (parent : Text) (w : World)
    → Quiet w
    → update_directory_path d (some parent) d.name w ≡ (
      with_rows (batch_directory w.delete_wins d (below parent d) w.directories) w,
      ok (below parent d),
    )
unfolding update_directory_path
quiet_update_directory d parent w q = rw (quiet_outcome w q) refl

quiet_rename_children :
    (path : Text) (ds : List Directory) (w : World)
    → Quiet w
    → rename_children path ds w ≡ (
      with_rows (moved_rows (new_local_parent_path path) w.delete_wins ds w.directories) w,
      ok tt,
    )
unfolding rename_children
quiet_rename_children path [] w q = refl
quiet_rename_children path (d ∷ ds) w q =
    let parent = new_local_parent_path path in
    let rows = batch_directory w.delete_wins d (below parent d) w.directories in
    rw
      (
        quiet_update_directory d parent w q,
        quiet_rename_children path ds (with_rows rows w) (rows-Quiet rows w q),
      )
      refl

-- That there is a directory of a name below a path.
abbrev pub IsThere : Text → List Directory → Directory → Type 0
IsThere parent rows d = (e : Directory) × (find_directory parent d.name rows ≡ some e)

-- A directory that is found has the key.
pub found_key :
    (p n : Text) (rows : List Directory) (e : Directory)
    → find_directory p n rows ≡ some e
    → is_directory p n e ≡ true
unfolding find_directory
found_key p n [] e h = cc (h)
found_key p n (d ∷ rows) e h = elim (Bool-cases (is_directory p n d)) [
  | inl s ↦ let here : d ≡ e = ground (arith, s) in sym (ap (is_directory p n) here) ∙ s
  | inr s ↦ found_key p n rows e (ground (arith, s))
]

pub find_directory_other :
    (p n p' n' : Text) (rows : List Directory) (e : Directory)
    → find_directory p n rows ≡ some e
    → is_directory p' n' e ≡ false
    → find_directory p n (erase_directory p' n' rows) ≡ some e
unfolding find_directory erase_directory
find_directory_other p n p' n' [] e h other = cc (h)
find_directory_other p n p' n' (d ∷ rows) e h other = elim (Bool-cases (is_directory p n d)) [
  | inl s ↦
      let here : d ≡ e = ground (arith, s) in
      let kept : is_directory p' n' d ≡ false = ap (is_directory p' n') here ∙ other in
      rw (kept, s) (ap some here)
  | inr s ↦
      let later : find_directory p n rows ≡ some e = ground (arith, s) in
      elim (Bool-cases (is_directory p' n' d)) [
        | inl gone ↦ rw gone (find_directory_other p n p' n' rows e later other)
        | inr kept ↦ rw (kept, s) (find_directory_other p n p' n' rows e later other)
      ]
]

-- A test that fails one way fails the other way.
text_eq_other : (s t : Text) → text_eq s t ≡ false → text_eq t s ≡ false
text_eq_other s t h = elim (Bool-cases (text_eq t s)) [
  | inl same ↦ cc (h, ap (text_eq s) (text_eq-eq t s same), text_eq_refl s)
  | inr other ↦ other
]

batch_below :
    (parent : Text) (delete_wins : Bool) (d : Directory) (rows : List Directory)
    → text_eq d.parent parent ≡ false
    → batch_directory delete_wins d (below parent d) rows
      ≡ put_directory (below parent d) (erase_directory d.parent d.name rows)
batch_below parent delete_wins d rows other = rw (text_eq_other d.parent parent other) refl

put-IsThere :
    (parent : Text) (d c : Directory) (rows : List Directory)
    → IsThere parent rows c
    → IsThere parent (put_directory (below parent d) rows) c
unfolding find_directory
put-IsThere parent d c rows (e, h) = elim (Bool-cases (text_eq d.name c.name)) [
  | inl same ↦ (below parent d, rw (text_eq_refl parent, same) refl)
  | inr other ↦
      let key = found_key parent c.name rows e h in
      let name : text_eq e.name c.name ≡ true = ground (arith, key) in
      let apart : is_directory parent d.name e ≡ false =
        rw (text_eq-eq e.name c.name name, text_eq_other d.name c.name other) (ground arith) in
      (
        e,
        rw (text_eq_refl parent, other)
            (find_directory_other parent c.name parent d.name rows e h apart),
      )
]

erase-IsThere :
    (parent : Text) (d c : Directory) (rows : List Directory)
    → text_eq d.parent parent ≡ false
    → IsThere parent rows c
    → IsThere parent (erase_directory d.parent d.name rows) c
erase-IsThere parent d c rows other (e, h) =
    let key = found_key parent c.name rows e h in
    let same : text_eq e.parent parent ≡ true = ground (arith, key) in
    let apart : is_directory d.parent d.name e ≡ false =
      rw (text_eq-eq e.parent parent same, text_eq_other d.parent parent other) refl in
    (e, find_directory_other parent c.name d.parent d.name rows e h apart)

moved-IsThere :
    (parent : Text) (delete_wins : Bool) (d c : Directory) (rows : List Directory)
    → text_eq d.parent parent ≡ false
    → IsThere parent rows c
    → IsThere parent (batch_directory delete_wins d (below parent d) rows) c
moved-IsThere parent delete_wins d c rows other there =
    rw (batch_below parent delete_wins d rows other) (
      put-IsThere parent d c (erase_directory d.parent d.name rows)
        (erase-IsThere parent d c rows other there))

moved_itself :
    (parent : Text) (delete_wins : Bool) (d : Directory) (rows : List Directory)
    → text_eq d.parent parent ≡ false
    → IsThere parent (batch_directory delete_wins d (below parent d) rows) d
unfolding find_directory
moved_itself parent delete_wins d rows other =
    rw (batch_below parent delete_wins d rows other)
      (below parent d, rw (text_eq_refl parent, text_eq_refl d.name) refl)

still-IsThere :
    (parent : Text) (delete_wins : Bool) (ds : List Directory) (c : Directory)
    (rows : List Directory)
    → All (λ (d : Directory). text_eq d.parent parent ≡ false) ds
    → IsThere parent rows c
    → IsThere parent (moved_rows parent delete_wins ds rows) c
still-IsThere parent delete_wins [] c rows other there = there
still-IsThere parent delete_wins (d ∷ ds) c rows other there =
    still-IsThere parent delete_wins ds c (batch_directory delete_wins d (below parent d) rows)
      other.1 (moved-IsThere parent delete_wins d c rows other.0 there)

all-IsThere :
    (parent : Text) (delete_wins : Bool) (ds rows : List Directory)
    → All (λ (d : Directory). text_eq d.parent parent ≡ false) ds
    → All (IsThere parent (moved_rows parent delete_wins ds rows)) ds
all-IsThere parent delete_wins [] rows other = tt
all-IsThere parent delete_wins (d ∷ ds) rows other = (
  still-IsThere parent delete_wins ds d (batch_directory delete_wins d (below parent d) rows)
      other.1 (moved_itself parent delete_wins d rows other.0),
  all-IsThere parent delete_wins ds (batch_directory delete_wins d (below parent d) rows) other.1,
)

-- A rename that moves everything below a directory to a path flattens it: for each of the
-- directories, however deep it was, there is then one of its name right below that path, if none of
-- them was there before and no statement fails.
pub rename_children_flattens :
    (path : Text) (ds : List Directory) (w : World)
    → Quiet w
    → All (λ (d : Directory). text_eq d.parent (new_local_parent_path path) ≡ false) ds
    → (w' : World) × (rename_children path ds w ≡ (w', ok tt))
      × All (IsThere (new_local_parent_path path) w'.directories) ds
rename_children_flattens path ds w q other =
    let parent = new_local_parent_path path in
    (
      with_rows (moved_rows parent w.delete_wins ds w.directories) w,
      quiet_rename_children path ds w q,
      all-IsThere parent w.delete_wins ds w.directories other,
    )
