-- ===== src/Bucket/State.antt =====
-- A bucket in the database: its tables as data/src/model/file_model.rs declares them, and the calls
-- of data/src/access/file_access.rs that read and write them.
use meowith.Base.{
  ◌≡◌, refl, ap, ℕ, ◌==◌, Bool, ◌&&◌, if◌then◌else◌, Option, none, some, List, [], ◌∷◌,
}
use meowith.Base.Int.{ℤ}
use meowith.Base.Result.{Result, ok, err}
use meowith.Files.Model.{FileChunk}
use meowith.Reservation.Reserve.{NodeClientError, internal_error, not_found}
use meowith.Bucket.Paths.{Text, text_eq, join_parent_name}

-- Times are left out.
pub record Directory : Type 0 where
  pub parent : Text
  pub name : Text
  pub id : ℕ

pub record File : Type 0 where
  pub directory : ℕ
  pub name : Text
  pub id : ℕ
  pub size : ℕ
  pub chunk_ids : List FileChunk

pub record Bucket : Type 0 where
  pub atomic_upload : Bool
  pub quota : ℤ
  pub file_count : ℤ
  pub space_taken : ℤ

-- What becomes of a statement: it works, it fails without an effect, or it takes effect although its
-- answer is an error, as that of a write that times out may.
pub data Fault : Type 0 where
  works refused timed_out : Fault

-- The rows of one bucket, the chunks whose deletion was asked for, and the next id that is given.
-- `faults` tells what becomes of each statement that is executed; behind its end all work.
-- `rivals` are the changes that other tasks make to the counters of the bucket, one before each
-- try to update them. `delete_wins` tells what is left when one batch deletes a row and inserts it.
pub record World : Type 0 where
  pub directories : List Directory
  pub files : List File
  pub bucket : Bucket
  pub deleted : List FileChunk
  pub next_id : ℕ
  pub faults : List Fault
  pub rivals : List (ℤ × ℤ)
  pub delete_wins : Bool

abbrev pub M : Type 0 → Type 0
M A = World → World × Result NodeClientError A

abbrev pub bind :
    {A B : Type 0} → World × Result NodeClientError A → (A → M B) → World × Result NodeClientError B
bind (w, ok a) f = f a w
bind (w, err e) f = (w, err e)

infixl 5 ◌>>=◌ ◌>>◌
abbrev pub ◌>>=◌ : {A B : Type 0} → M A → (A → M B) → M B
◌>>=◌ m f w = bind (m w) f

abbrev pub ◌>>◌ : {A B : Type 0} → M A → M B → M B
◌>>◌ m k w = bind (m w) (λ _. k)

abbrev pub return : {A : Type 0} → A → M A
return a w = (w, ok a)

abbrev pub fail : {A : Type 0} → NodeClientError → M A
fail e w = (w, err e)

abbrev pub lift : {A : Type 0} → Result NodeClientError A → M A
lift r w = (w, r)

-- The result of a call whose error is looked at.
abbrev pub attempted :
    {A : Type 0}
    → World × Result NodeClientError A
    → World × Result NodeClientError (Result NodeClientError A)
attempted (w, r) = (w, ok r)

abbrev pub attempt : {A : Type 0} → M A → M (Result NodeClientError A)
attempt m w = attempted (m w)

abbrev pub get : {A : Type 0} → (World → A) → M A
get f w = (w, ok (f w))

abbrev pub modify : (World → World) → M (Unit {0})
modify f w = (f w, ok tt)

abbrev pub next_fault : List Fault → World → World × Result NodeClientError Fault
next_fault [] w = (w, ok works)
next_fault (fault ∷ faults) w = (record w { faults = faults }, ok fault)

unfoldable pub outcome : M Fault
outcome w = next_fault w.faults w

pub outcome_lem : (w : World) → w.faults ≡ [] → outcome w ≡ (w, ok works)
unfolding outcome
outcome_lem w h = ap (λ faults. next_fault faults w) h

abbrev pub settle : (World → World) → Fault → M (Unit {0})
settle change works = modify change
settle change refused = fail internal_error
settle change timed_out = modify change >> fail internal_error

-- `execute` of one statement that changes the database, and of one that only reads.
abbrev pub execute_write : (World → World) → M (Unit {0})
execute_write change = outcome >>= settle change

unfoldable pub execute : M (Unit {0})
execute = outcome >>= settle (λ w. w)

pub execute_lem : (w : World) → w.faults ≡ [] → execute w ≡ (w, ok tt)
unfolding execute
execute_lem w h = rw (outcome_lem w h) refl

abbrev pub found : {A : Type 0} → Option A → M A
found none = fail not_found
found (some a) = return a

abbrev pub is_directory : Text → Text → Directory → Bool
is_directory parent name d = text_eq d.parent parent && text_eq d.name name

unfoldable pub find_directory : Text → Text → List Directory → Option Directory
find_directory parent name [] = none
find_directory parent name (d ∷ ds) =
    if is_directory parent name d then some d else find_directory parent name ds

-- Every row but the one of the key.
unfoldable pub erase_directory : Text → Text → List Directory → List Directory
erase_directory parent name [] = []
erase_directory parent name (d ∷ ds) =
    let rest = erase_directory parent name ds in
    if is_directory parent name d then rest else d ∷ rest

-- An insertion replaces the row of its key.
abbrev pub put_directory : Directory → List Directory → List Directory
put_directory d ds = d ∷ erase_directory d.parent d.name ds

abbrev pub is_file : ℕ → Text → File → Bool
is_file directory name f = (f.directory == directory) && text_eq f.name name

unfoldable pub find_file : ℕ → Text → List File → Option File
find_file directory name [] = none
find_file directory name (f ∷ fs) =
    if is_file directory name f then some f else find_file directory name fs

unfoldable pub erase_file : ℕ → Text → List File → List File
erase_file directory name [] = []
erase_file directory name (f ∷ fs) =
    let rest = erase_file directory name fs in if is_file directory name f then rest else f ∷ rest

abbrev pub put_file : File → List File → List File
put_file f fs = f ∷ erase_file f.directory f.name fs

abbrev pub unwrap_or_empty : Option Text → Text
unwrap_or_empty none = []
unwrap_or_empty (some s) = s

abbrev pub unwrap_or_root : Option ℕ → ℕ
unwrap_or_root none = 0
unwrap_or_root (some id) = id

abbrev pub full_path : Directory → Text
full_path d = join_parent_name d.parent d.name

abbrev pub id_of : Option Directory → Option ℕ
id_of none = none
id_of (some d) = some d.id
