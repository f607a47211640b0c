-- ===== src/Bucket/Climb.antt =====
-- The way up a path: the loop of `try_mkdir` of node/src/public/service/file_access_service.rs.
use meowith.Base.{
  ℕ, zero, suc, ◌≤◌, ◌≡◌, refl, ap, sym, ◌∙◌, false, if◌then◌else◌, Option, none, some, List, [],
  ◌∷◌, ◌++◌, All, length, length-append, arith,
}
use mathlib.Core.List.{reverse, reverse-cons, reverse-reverse}
use meowith.Base.Result.{ok, err}
use meowith.Bucket.Paths.{
  Text, slash, dots, is_empty, text_eq, split, join, split_path, join_parent_name,
}
use meowith.Bucket.State.{Directory, World, M, return, ◌>>=◌, find_directory, unwrap_or_empty}
use meowith.Bucket.Directories.{missing}
use meowith.Bucket.Quiet.{Quiet}
use meowith.Bucket.Lookups.{quiet_get_directory, directory_found}
use meowith.Bucket.Segments.{
  IsProper, parent_of, split-join, join-IsTrimmed, join_parent_name-join, All-reverse,
  split_path-join_parent_name,
}

-- A segment that may be the name of a directory.
abbrev pub IsName : Text → Type 0
IsName s = IsProper s × (text_eq s dots ≡ false)

-- The path of segments that are listed from the last to the first.
abbrev pub path_to : List Text → Text
path_to rs = join (reverse rs)

-- The same, or nothing for the root.
abbrev pub up : List Text → Option Text
up [] = none
up (n ∷ rs) = some (path_to (n ∷ rs))

pub proper : (rs : List Text) → All IsName rs → All IsProper rs
proper [] h = tt
proper (n ∷ rs) h = (h.0.0, proper rs h.1)

parent_of_last : (ss : List Text) (n : Text) → parent_of (ss ++ n ∷ []) ≡ some (join (ss ++ n ∷ []))
parent_of_last [] n = refl
parent_of_last (s ∷ ss) n = refl

parent_of-reverse : (rs : List Text) → parent_of (reverse rs) ≡ up rs
parent_of-reverse [] = refl
parent_of-reverse (n ∷ rs) = rw (reverse-cons n rs) (parent_of_last (reverse rs) n)

pub unwrap_up : (rs : List Text) → unwrap_or_empty (up rs) ≡ path_to rs
unwrap_up [] = unfold join in refl
unwrap_up (n ∷ rs) = refl

pub split_up :
    (n : Text) (rs : List Text) → All IsName (n ∷ rs) → split_path (path_to (n ∷ rs)) ≡ (up rs, n)
split_up n rs h =
    let all = All-reverse rs (proper rs h.1) in
    let joined : path_to (n ∷ rs) ≡ join_parent_name (path_to rs) n =
      ap join (reverse-cons n rs) ∙ sym (join_parent_name-join (reverse rs) n all) in
    rw (joined, (split_path-join_parent_name (reverse rs) n all h.0.0 h.0.1).0)
      (ap (λ p. (p, n)) (parent_of-reverse rs))

-- The segments of a joined path.
segments_of :
    (ss : List Text) → All IsProper ss → (if is_empty (join ss) then [] else split (join ss)) ≡ ss
segments_of [] h = unfold join in refl
segments_of (s ∷ ss) h = rw ((join-IsTrimmed s ss h).1) (split-join s ss h)

-- Segments are known by their path.
pub path_to_injective :
    (rs ts : List Text) → All IsName rs → All IsName ts → path_to rs ≡ path_to ts → rs ≡ ts
path_to_injective rs ts h k e =
    let same : reverse rs ≡ reverse ts =
      sym (segments_of (reverse rs) (All-reverse rs (proper rs h)))
      ∙ ap (λ p. if is_empty p then [] else split p) e
      ∙ segments_of (reverse ts) (All-reverse ts (proper ts k)) in
    sym (reverse-reverse rs) ∙ ap reverse same ∙ reverse-reverse ts

length-join : (ss : List Text) → All IsProper ss → length ss ≤ length (join ss)
unfolding join
length-join [] h = omega arith
length-join ([] ∷ ss) h = cc (h.0.0)
length-join ((c ∷ s) ∷ []) h = omega arith
length-join ((c ∷ s) ∷ t ∷ ss) h =
    rw (length-append s (slash ∷ join (t ∷ ss))) (omega (arith, length-join (t ∷ ss) h.1))

length-reverse : (rs : List Text) → length (reverse rs) ≡ length rs
length-reverse [] = refl
length-reverse (n ∷ rs) =
    rw (reverse-cons n rs, length-append (reverse rs) (n ∷ [])) (omega (arith, length-reverse rs))

-- A path has at least as many bytes as segments.
pub path_to_long : (rs : List Text) → All IsName rs → length rs ≤ length (path_to rs)
path_to_long rs h =
    omega (arith, length-reverse rs, length-join (reverse rs) (All-reverse rs (proper rs h)))

full : (s : Text) → 1 ≤ length s → is_empty s ≡ false
full [] h = absurd (omega arith)
full (c ∷ s) h = refl

pub path_to_full :
    (n : Text) (rs : List Text) → All IsName (n ∷ rs) → is_empty (path_to (n ∷ rs)) ≡ false
path_to_full n rs h = let long = path_to_long (n ∷ rs) h in full (path_to (n ∷ rs)) (omega arith)

-- The directories on a path that the loop finds missing, up to the first that is there.
abbrev pub unless_found {ℓ} : {A : Type ℓ} → Option Directory → List A → List A
unless_found none entries = entries
unless_found (some _) entries = []

abbrev pub climb : List Directory → List Text → List (Option Text × Text)
climb rows [] = []
climb rows (n ∷ rs) = unless_found (find_directory (path_to rs) n rows) ((up rs, n) ∷ climb rows rs)

-- The loop comes to its end if it has a round for each segment.
pub missing-climb :
    (rounds : ℕ) (rs : List Text) (w : World)
    → Quiet w
    → All IsName rs
    → length rs ≤ rounds
    → missing rounds (up rs) w ≡ (w, ok (climb w.directories rs))
unfolding missing
missing-climb rounds [] w q h le = refl
missing-climb zero (n ∷ rs) w q h le = absurd (omega arith)
missing-climb (suc rounds) (n ∷ rs) w q h le =
    rw (quiet_get_directory (some (path_to (n ∷ rs))) w q, split_up n rs h, unwrap_up rs)
      (look (find_directory (path_to rs) n w.directories)
        (missing-climb rounds rs w q h.1 (omega arith)))
  where
    look :
        (o : Option Directory)
        → missing rounds (up rs) w ≡ (w, ok (climb w.directories rs))
        → (elim (directory_found o) as (λ _. M (List (Option Text × Text))) [
          | ok _ ↦ return []
          | err _ ↦
              (missing rounds (split_path (path_to (n ∷ rs))).0 >>= λ rest.
              return (split_path (path_to (n ∷ rs)) ∷ rest))
        ])
            w
          ≡ (w, ok (unless_found o ((up rs, n) ∷ climb w.directories rs)))
    look (some d) rest = refl
    look none rest = rw (split_up n rs h, rest) refl
