-- ===== src/Bucket/Accounting.antt =====
-- The counters of a bucket and its rows, over deletions and renames of files.
use meowith.Base.{
  ℕ, ◌+◌, ◌<◌, ◌^◌, ◌≡◌, refl, ap, ap₂, ◌∙◌, sym, subst, Bool, true, Option, none, some, List, [],
  ◌∷◌, length, All, arith, Bool-cases, inl, inr,
}
use meowith.Base.Int.{pos, negsuc, neg, as_i64, ◌+i64◌, +ℤ-neg, +ℤ-pos, +i64-as_i64, as_i64_small}
use meowith.Base.Result.{Result, ok, err}
use meowith.Reservation.Reserve.{NodeClientError}
use meowith.Bucket.Paths.{Text}
use meowith.Bucket.State.{
  Directory, File, World, bind, erase_file, put_file, find_file, find_directory, is_file,
  is_directory, M, unwrap_or_root,
}
use meowith.Bucket.Tables.{batch_file}
use meowith.Bucket.Rows.{
  space_of, Unique, erase_file_found, erase_file-Unique, put_file-Unique, erase_file-none,
  find_file-none-erase, is_file-eq,
}
use meowith.Bucket.Files.{Reachable}
use meowith.Bucket.Quiet.{Quiet, deleted_file, with_file}

-- The counters are those of the rows as an `i64` has them, that is exactly while they are below
-- 2^63, no two files have one key, ids are below the next one, and
-- nothing fails and nobody else is at work.
pub record Accounted (w : World) : Type 0 where
  pub quiet : Quiet w
  pub deletes : w.delete_wins ≡ true
  pub counted : w.bucket.file_count ≡ as_i64 (pos (length w.files))
  pub spaced : w.bucket.space_taken ≡ as_i64 (pos (space_of w.files))
  pub unique : Unique w.files
  pub next_root : 0 < w.next_id
  pub next_file : All (λ (f : File). f.directory < w.next_id) w.files
  pub next_directory : All (λ (d : Directory). d.id < w.next_id) w.directories

-- Counters that an `i64` has room for are exact.
Accounted-exact :
    (w : World)
    → Accounted w
    → length w.files < 2 ^ 63
    → space_of w.files < 2 ^ 63
    → (w.bucket.file_count ≡ pos (length w.files)) × (w.bucket.space_taken ≡ pos (space_of w.files))
Accounted-exact w a n s =
    (a.counted ∙ as_i64_small (length w.files) n, a.spaced ∙ as_i64_small (space_of w.files) s)

-- What holds of a result and the world that it comes with.
abbrev pub Post : {A : Type 0} → (A → World → Type 0) → World × Result NodeClientError A → Type 0
Post Q (w, ok a) = Accounted w × Q a w
Post Q (w, err e) = Accounted w

pub bind-Post :
    {A B : Type 0} (Q : A → World → Type 0) (R : B → World → Type 0)
    (r : World × Result NodeClientError A) (f : A → M B)
    → Post Q r
    → ((a : A) (w : World) → Accounted w → Q a w → Post R (f a w))
    → Post R (bind r f)
bind-Post Q R (w, ok a) f p k = k a w p.0 p.1
bind-Post Q R (w, err e) f p k = p

-- A call that leaves the world as it is.
pub lift_bind-Post :
    {A B : Type 0} (R : B → World → Type 0) (r : Result NodeClientError A) (f : A → M B) (w : World)
    → Accounted w
    → ((a : A) → Post R (f a w))
    → Post R (bind (w, r) f)
lift_bind-Post R (ok x) f w a k = k x
lift_bind-Post R (err e) f w a k = a

abbrev pub Any : {A : Type 0} → A → World → Type 0
Any a w = Unit

erase_file-All :
    (P : File → Type 0) (d : ℕ) (n : Text) (fs : List File) → All P fs → All P (erase_file d n fs)
unfolding erase_file
erase_file-All P d n [] h = tt
erase_file-All P d n (f ∷ fs) h = elim (Bool-cases (is_file d n f)) [
  | inl e ↦ rw e (erase_file-All P d n fs h.1)
  | inr e ↦ rw e (h.0, erase_file-All P d n fs h.1)
]

pub find_file-All :
    (P : File → Type 0) (d : ℕ) (n : Text) (fs : List File) (f : File)
    → All P fs
    → find_file d n fs ≡ some f
    → P f
unfolding find_file
find_file-All P d n [] f h e = cc (e)
find_file-All P d n (g ∷ fs) f h e = elim (Bool-cases (is_file d n g)) [
  | inl s ↦ subst P (ground (arith, s)) h.0
  | inr s ↦ find_file-All P d n fs f h.1 (ground (arith, s))
]

pub find_directory-All :
    (P : Directory → Type 0) (p n : Text) (ds : List Directory) (d : Directory)
    → All P ds
    → find_directory p n ds ≡ some d
    → P d
unfolding find_directory
find_directory-All P p n [] d h e = cc (e)
find_directory-All P p n (g ∷ ds) d h e = elim (Bool-cases (is_directory p n g)) [
  | inl s ↦ subst P (ground (arith, s)) h.0
  | inr s ↦ find_directory-All P p n ds d h.1 (ground (arith, s))
]

-- A file that is found has its own key.
pub find_file_self :
    (d : ℕ) (n : Text) (fs : List File) (f : File)
    → Unique fs
    → find_file d n fs ≡ some f
    → find_file f.directory f.name fs ≡ some f
find_file_self d n fs f u h =
    let known = erase_file_found d n fs f u h in ap₂ (λ x y. find_file x y fs) known.2 known.3 ∙ h

-- Deleting a file that has a row.
pub deleted_file-Accounted :
    (reachable : Reachable) (f : File) (w : World)
    → Accounted w
    → find_file f.directory f.name w.files ≡ some f
    → Accounted (deleted_file reachable f w)
deleted_file-Accounted reachable f w a h =
    let left : List File = erase_file f.directory f.name w.files in
    let gone = erase_file_found f.directory f.name w.files f a.unique h in
    record {
      quiet = record { no_fault = a.quiet.no_fault; no_rival = a.quiet.no_rival };
      deletes = a.deletes;
      counted =
          ap (λ c. c +i64 negsuc 0) (a.counted ∙ ap (λ n. as_i64 (pos n)) (omega (arith, gone.0)))
          ∙ +i64-as_i64 (pos (1 + length left)) (negsuc 0)
          ∙ ap as_i64 (+ℤ-neg 1 (length left));
      spaced =
          ap (λ s. s +i64 neg (pos f.size)) (a.spaced ∙ ap (λ n. as_i64 (pos n)) (sym gone.1))
          ∙ +i64-as_i64 (pos (f.size + space_of left)) (neg (pos f.size))
          ∙ ap as_i64 (+ℤ-neg f.size (space_of left));
      unique = erase_file-Unique f.directory f.name w.files a.unique;
      next_root = a.next_root;
      next_file =
          erase_file-All (λ (g : File). g.directory < w.next_id) f.directory f.name w.files
            a.next_file;
      next_directory = a.next_directory;
    }

-- Entering a file where there is none.
pub with_file-Accounted :
    (f : File) (w : World)
    → Accounted w
    → find_file f.directory f.name w.files ≡ none
    → f.directory < w.next_id
    → Accounted (with_file f w)
with_file-Accounted f w a h lt =
    let kept = erase_file-none f.directory f.name w.files h in
    record {
      quiet = record { no_fault = a.quiet.no_fault; no_rival = a.quiet.no_rival };
      deletes = a.deletes;
      counted =
          ap (λ c. c +i64 pos 1) a.counted
          ∙ +i64-as_i64 (pos (length w.files)) (pos 1)
          ∙ ap as_i64 (+ℤ-pos (length w.files) 1)
          ∙ ap (λ n. as_i64 (pos n)) (omega (arith, ap length kept));
      spaced =
          ap (λ s. s +i64 pos f.size) a.spaced
          ∙ +i64-as_i64 (pos (space_of w.files)) (pos f.size)
          ∙ ap as_i64 (+ℤ-pos (space_of w.files) f.size)
          ∙ ap (λ n. as_i64 (pos n)) (omega (arith, ap space_of kept));
      unique = put_file-Unique f w.files a.unique;
      next_root = a.next_root;
      next_file = (lt, subst (All (λ (g : File). g.directory < w.next_id)) (sym kept) a.next_file);
      next_directory = a.next_directory;
    }

-- The file of a row, moved.
abbrev pub moved : File → Option ℕ → Text → File
moved f directory name = record f { directory = unwrap_or_root directory; name = name }

-- Rows that are as many and take as much space.
rows-Accounted :
    (fs : List File) (w : World)
    → Accounted w
    → length fs ≡ length w.files
    → space_of fs ≡ space_of w.files
    → Unique fs
    → All (λ (g : File). g.directory < w.next_id) fs
    → Accounted (record w { files = fs })
rows-Accounted fs w a n s u b = record {
  quiet = record { no_fault = a.quiet.no_fault; no_rival = a.quiet.no_rival };
  deletes = a.deletes;
  counted = a.counted ∙ ap (λ k. as_i64 (pos k)) (sym n);
  spaced = a.spaced ∙ ap (λ k. as_i64 (pos k)) (sym s);
  unique = u;
  next_root = a.next_root;
  next_file = b;
  next_directory = a.next_directory;
}

other_key :
    (old new : File) (delete_wins : Bool) (fs : List File)
    → find_file old.directory old.name fs ≡ some old
    → find_file new.directory new.name fs ≡ none
    → batch_file delete_wins old new fs ≡ put_file new (erase_file old.directory old.name fs)
other_key old new delete_wins fs h free = elim (Bool-cases (is_file old.directory old.name new)) [
  | inl e ↦
      let same = is_file-eq old.directory old.name new e in
      cc (ap₂ (λ x y. find_file x y fs) same.0 same.1, h, free)
  | inr e ↦ rw e refl
]

-- A row that is moved to a key without a row.
pub moved-Accounted :
    (f : File) (directory : Option ℕ) (name : Text) (w : World)
    → Accounted w
    → find_file f.directory f.name w.files ≡ some f
    → find_file (unwrap_or_root directory) name w.files ≡ none
    → unwrap_or_root directory < w.next_id
    → Accounted (record w { files = batch_file w.delete_wins f (moved f directory name) w.files })
moved-Accounted f directory name w a h free lt =
    let new : File = moved f directory name in
    let left : List File = erase_file f.directory f.name w.files in
    let gone = erase_file_found f.directory f.name w.files f a.unique h in
    let kept =
      erase_file-none (unwrap_or_root directory) name left
        (find_file-none-erase (unwrap_or_root directory) name f.directory f.name w.files free) in
    let rows : batch_file w.delete_wins f new w.files ≡ new ∷ left =
      other_key f new w.delete_wins w.files h free ∙ ap (λ fs. new ∷ fs) kept in
    rows-Accounted (batch_file w.delete_wins f new w.files) w a
      (ap length rows ∙ omega (arith, gone.0)) (ap space_of rows ∙ omega (arith, gone.1))
      (subst Unique (sym rows) (
        find_file-none-erase (unwrap_or_root directory) name f.directory f.name w.files free,
        erase_file-Unique f.directory f.name w.files a.unique,
      ))
      (subst (All (λ (g : File). g.directory < w.next_id)) (sym rows) (
        lt,
        erase_file-All (λ (g : File). g.directory < w.next_id) f.directory f.name w.files
            a.next_file,
      ))

-- A row that is deleted and inserted in one batch is gone.
pub erased-Accounted :
    (f : File) (directory : Option ℕ) (name : Text) (w : World)
    → Accounted w
    → find_file f.directory f.name w.files ≡ none
    → is_file f.directory f.name (moved f directory name) ≡ true
    → Accounted (record w { files = batch_file w.delete_wins f (moved f directory name) w.files })
erased-Accounted f directory name w a h e =
    let rows : batch_file w.delete_wins f (moved f directory name) w.files ≡ w.files =
      rw (e, a.deletes) (erase_file-none f.directory f.name w.files h) in
    rows-Accounted (batch_file w.delete_wins f (moved f directory name) w.files) w a
      (ap length rows) (ap space_of rows) (subst Unique (sym rows) a.unique)
      (subst (All (λ (g : File). g.directory < w.next_id)) (sym rows) a.next_file)
