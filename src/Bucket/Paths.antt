-- ===== src/Bucket/Paths.antt =====
-- Paths: data/src/pathlib.rs. A text is the list of its bytes.
use meowith.Base.{
  ℕ, ◌+◌, ◌%◌, ◌^◌, Bool, true, false, ◌&&◌, ◌||◌, ◌==◌, ltb, if◌then◌else◌, Option, none, some,
  List, [], ◌∷◌, ◌++◌, length,
}
use mathlib.Core.List.{reverse}

abbrev pub Text : Type 0
Text = List ℕ

abbrev pub slash : ℕ
slash = b'/'

abbrev pub dot : Text
dot = b'.' ∷ []

abbrev pub dots : Text
dots = b'.' ∷ b'.' ∷ []

abbrev pub text_eq : Text → Text → Bool
text_eq [] [] = true
text_eq [] (d ∷ t) = false
text_eq (c ∷ s) [] = false
text_eq (c ∷ s) (d ∷ t) = (c == d) && text_eq s t

abbrev pub is_empty : Text → Bool
is_empty [] = true
is_empty (c ∷ s) = false

-- What the class `[\\/]` matches.
abbrev pub is_separator : ℕ → Bool
is_separator c = (c == slash) || (c == b'\\')

-- Each run of separators becomes one slash; the flag tells whether the last byte was in a run.
unfoldable pub replace_all : Bool → Text → Text
replace_all in_run [] = []
replace_all in_run (c ∷ s) =
    let rest = replace_all (is_separator c) s in
    if is_separator c then (if in_run then rest else slash ∷ rest) else c ∷ rest

unfoldable pub trim_start : Text → Text
trim_start [] = []
trim_start (c ∷ s) = let rest = trim_start s in if c == slash then rest else c ∷ s

abbrev pub push_trimmed : ℕ → Text → Text
push_trimmed c [] = if c == slash then [] else c ∷ []
push_trimmed c (d ∷ s) = c ∷ d ∷ s

unfoldable pub trim_end : Text → Text
trim_end [] = []
trim_end (c ∷ s) = push_trimmed c (trim_end s)

unfoldable pub normalize : Text → Text
normalize path = trim_end (trim_start (replace_all false path))

abbrev pub push_first : ℕ → List Text → List Text
push_first c [] = (c ∷ []) ∷ []
push_first c (segment ∷ segments) = (c ∷ segment) ∷ segments

-- The parts of a path between its slashes.
unfoldable pub split : Text → List Text
split [] = [] ∷ []
split (c ∷ s) = let rest = split s in if c == slash then [] ∷ rest else push_first c rest

unfoldable pub join : List Text → Text
join [] = []
join (s ∷ []) = s
join (s ∷ t ∷ segments) = s ++ slash ∷ join (t ∷ segments)

-- The segments in reverse, without those at the end that a `Path` skips: the empty ones, and those
-- that are a dot, unless the path begins with it.
unfoldable pub skip : List Text → List Text
skip [] = []
skip (s ∷ []) = if is_empty s then [] else s ∷ []
skip (s ∷ t ∷ segments) =
    let rest = skip (t ∷ segments) in if is_empty s || text_eq s dot then rest else s ∷ t ∷ segments

-- `Path::file_name`, of the last component: a dot and two dots are no names.
abbrev pub file_name : Text → Text
file_name s = if text_eq s dot || text_eq s dots then [] else s

-- `None` if the text is empty.
abbrev pub non_empty : Text → Option Text
non_empty [] = none
non_empty (c ∷ s) = some (c ∷ s)

abbrev pub parent_and_name : List Text → Option Text × Text
parent_and_name [] = (none, normalize [])
parent_and_name (s ∷ segments) =
    (non_empty (normalize (join (reverse (skip segments)))), normalize (file_name s))

unfoldable pub split_path : Text → Option Text × Text
split_path file_path = parent_and_name (skip (reverse (split file_path)))

unfoldable pub join_parent_name : Text → Text → Text
join_parent_name [] name = name
join_parent_name (c ∷ parent) name = (c ∷ parent) ++ slash ∷ name

pub record FsLimitConfiguration : Type 0 where
  pub max_path_length : ℕ
  pub max_directory_depth : ℕ

-- The sum of two `u32`.
unfoldable pub auto_reject_path_length : FsLimitConfiguration → ℕ
auto_reject_path_length c = (c.max_path_length + 32) % 2 ^ 32

unfoldable pub count_slashes : Text → ℕ
count_slashes [] = 0
count_slashes (c ∷ s) = let rest = count_slashes s in if c == slash then rest + 1 else rest

-- The lengths and the count are cast to `u32`.
unfoldable pub prepare_path : Text → FsLimitConfiguration → Option Text
unfolding auto_reject_path_length
prepare_path path c =
    if ltb (auto_reject_path_length c) (length path % 2 ^ 32)
    then none
    else if ltb c.max_directory_depth ((count_slashes (normalize path) % 2 ^ 32 + 1) % 2 ^ 32)
        || ltb c.max_path_length (length (normalize path) % 2 ^ 32)
    then none
    else some (normalize path)
