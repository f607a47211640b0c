-- ===== src/Bucket/Segments.antt =====
-- Paths as lists of segments: what data/src/pathlib.rs takes apart and puts together.
use meowith.Base.{
  ℕ, ◌≡◌, refl, sym, ap, ◌∙◌, Bool, true, false, Option, none, some, List, [], ◌∷◌, ◌++◌, All,
  All-append, arith,
}
use mathlib.Core.List.{reverse, reverse-append, reverse-cons, reverse-reverse, append_assoc}
use meowith.Bucket.Paths.{
  Text, slash, dot, dots, text_eq, is_empty, is_separator, replace_all, trim_start, trim_end,
  push_trimmed, normalize, split, join, skip, split_path, join_parent_name, file_name, non_empty,
  parent_and_name,
}

abbrev pub NoSeparator : Text → Type 0
NoSeparator s = All (λ c. is_separator c ≡ false) s

-- A segment that a path is made of.
abbrev pub IsProper : Text → Type 0
IsProper s = (is_empty s ≡ false) × (text_eq s dot ≡ false) × NoSeparator s

-- The path of a list of segments, if it has one.
abbrev pub parent_of : List Text → Option Text
parent_of [] = none
parent_of (s ∷ segments) = some (join (s ∷ segments))

split_last : (s : Text) → NoSeparator s → split s ≡ s ∷ []
unfolding split
split_last [] h = refl
split_last (c ∷ s) h = ground (arith, split_last s h.1)

split_first : (s t : Text) → NoSeparator s → split (s ++ slash ∷ t) ≡ s ∷ split t
unfolding split
split_first [] t h = refl
split_first (c ∷ s) t h = ground (arith, split_first s t h.1)

pub split-join :
    (s : Text) (segments : List Text)
    → All IsProper (s ∷ segments)
    → split (join (s ∷ segments)) ≡ s ∷ segments
unfolding join
split-join s [] h = split_last s h.0.2
split-join s (t ∷ segments) h =
    split_first s (join (t ∷ segments)) h.0.2 ∙ ap (◌∷◌ s) (split-join t segments h.1)

skip_proper : (segments : List Text) → All IsProper segments → skip segments ≡ segments
unfolding skip
skip_proper [] h = refl
skip_proper (s ∷ []) h = ground arith
skip_proper (s ∷ t ∷ segments) h = rw (h.0.0, h.0.1) refl

pub All-reverse : (segments : List Text) → All IsProper segments → All IsProper (reverse segments)
All-reverse [] h = tt
All-reverse (s ∷ segments) h =
    rw (reverse-cons s segments)
      (All-append IsProper (reverse segments) (s ∷ []) (All-reverse segments h.1) (h.0, tt))

replace_all_rest :
    (s t : Text) → NoSeparator s → replace_all false (s ++ t) ≡ s ++ replace_all false t
unfolding replace_all
replace_all_rest [] t h = refl
replace_all_rest (c ∷ s) t h = rw h.0 (ap (◌∷◌ c) (replace_all_rest s t h.1))

replace_all_self : (s : Text) → NoSeparator s → replace_all false s ≡ s
unfolding replace_all
replace_all_self [] h = refl
replace_all_self (c ∷ s) h = rw h.0 (ap (◌∷◌ c) (replace_all_self s h.1))

replace_all-join :
    (in_run : Bool) (s : Text) (segments : List Text)
    → All IsProper (s ∷ segments)
    → replace_all in_run (join (s ∷ segments)) ≡ join (s ∷ segments)
unfolding replace_all join
replace_all-join in_run [] segments h = cc (h.0.0)
replace_all-join in_run (c ∷ s) [] h = rw h.0.2.0 (ap (◌∷◌ c) (replace_all_self s h.0.2.1))
replace_all-join in_run (c ∷ s) (t ∷ segments) h = rw h.0.2.0 (
    ap (◌∷◌ c) (
      replace_all_rest s (slash ∷ join (t ∷ segments)) h.0.2.1
      ∙ ap (λ r. s ++ slash ∷ r) (replace_all-join true t segments h.1)))

trim_start-join :
    (s : Text) (segments : List Text)
    → All IsProper (s ∷ segments)
    → trim_start (join (s ∷ segments)) ≡ join (s ∷ segments)
unfolding trim_start join
trim_start-join [] segments h = cc (h.0.0)
trim_start-join (c ∷ s) [] h = ground arith
trim_start-join (c ∷ s) (t ∷ segments) h = ground arith

abbrev IsTrimmed : Text → Type 0
IsTrimmed s = (trim_end s ≡ s) × (is_empty s ≡ false)

cons-IsTrimmed : (c : ℕ) (s : Text) → IsTrimmed s → IsTrimmed (c ∷ s)
unfolding trim_end
cons-IsTrimmed c [] h = cc (h.1)
cons-IsTrimmed c (d ∷ s) h = (ap (push_trimmed c) h.0, refl)

append-IsTrimmed : (s t : Text) → IsTrimmed t → IsTrimmed (s ++ t)
append-IsTrimmed [] t h = h
append-IsTrimmed (c ∷ s) t h = cons-IsTrimmed c (s ++ t) (append-IsTrimmed s t h)

segment-IsTrimmed : (c : ℕ) (s : Text) → NoSeparator (c ∷ s) → IsTrimmed (c ∷ s)
unfolding trim_end
segment-IsTrimmed c [] h = (ground arith, refl)
segment-IsTrimmed c (d ∷ s) h = cons-IsTrimmed c (d ∷ s) (segment-IsTrimmed d s h.1)

pub join-IsTrimmed :
    (s : Text) (segments : List Text)
    → All IsProper (s ∷ segments)
    → IsTrimmed (join (s ∷ segments))
unfolding join
join-IsTrimmed [] segments h = cc (h.0.0)
join-IsTrimmed (c ∷ s) [] h = segment-IsTrimmed c s h.0.2
join-IsTrimmed (c ∷ s) (t ∷ segments) h =
    append-IsTrimmed (c ∷ s) (slash ∷ join (t ∷ segments))
      (cons-IsTrimmed slash (join (t ∷ segments)) (join-IsTrimmed t segments h.1))

normalize-join :
    (segments : List Text) → All IsProper segments → normalize (join segments) ≡ join segments
unfolding normalize
normalize-join [] h = unfold join replace_all trim_start trim_end in refl
normalize-join (s ∷ segments) h =
    rw (replace_all-join false s segments h, trim_start-join s segments h)
      ((join-IsTrimmed s segments h).0)

join_append :
    (s : Text) (segments : List Text) (name : Text)
    → join (s ∷ segments ++ name ∷ []) ≡ join (s ∷ segments) ++ slash ∷ name
unfolding join
join_append s [] name = refl
join_append s (t ∷ segments) name =
    ap (λ r. s ++ slash ∷ r) (join_append t segments name)
    ∙ sym (append_assoc s (slash ∷ join (t ∷ segments)) (slash ∷ name))

join_parent_name_lem :
    (parent name : Text)
    → is_empty parent ≡ false
    → join_parent_name parent name ≡ parent ++ slash ∷ name
unfolding join_parent_name
join_parent_name_lem [] name h = cc (h)
join_parent_name_lem (c ∷ parent) name h = refl

pub join_parent_name-join :
    (segments : List Text) (name : Text)
    → All IsProper segments
    → join_parent_name (join segments) name ≡ join (segments ++ name ∷ [])
join_parent_name-join [] name h = unfold join join_parent_name in refl
join_parent_name-join (s ∷ segments) name h =
    join_parent_name_lem (join (s ∷ segments)) name ((join-IsTrimmed s segments h).1)
    ∙ sym (join_append s segments name)

non_empty_lem : (s : Text) → is_empty s ≡ false → non_empty s ≡ some s
non_empty_lem [] h = cc (h)
non_empty_lem (c ∷ s) h = refl

non_empty-join :
    (segments : List Text) → All IsProper segments → non_empty (join segments) ≡ parent_of segments
non_empty-join [] h = unfold join in refl
non_empty-join (s ∷ segments) h =
    non_empty_lem (join (s ∷ segments)) ((join-IsTrimmed s segments h).1)

file_name_lem :
    (name : Text) → IsProper name → text_eq name dots ≡ false → normalize (file_name name) ≡ name
file_name_lem name n d = rw (n.1, d) (unfold join in normalize-join (name ∷ []) (n, tt))

parent_and_name_lem :
    (segments : List Text) (name : Text)
    → All IsProper segments
    → IsProper name
    → text_eq name dots ≡ false
    → parent_and_name (name ∷ reverse segments) ≡ (parent_of segments, name)
parent_and_name_lem segments name h n d =
    rw
      (
        file_name_lem name n d,
        skip_proper (reverse segments) (All-reverse segments h),
        reverse-reverse segments,
        normalize-join segments h,
        non_empty-join segments h,
      )
      refl

split-append :
    (segments : List Text) (name : Text)
    → All IsProper segments
    → IsProper name
    → split (join (segments ++ name ∷ [])) ≡ segments ++ name ∷ []
split-append [] name h n = split-join name [] (n, tt)
split-append (s ∷ segments) name h n =
    split-join s (segments ++ name ∷ []) (All-append IsProper (s ∷ segments) (name ∷ []) h (n, tt))

-- A name under a directory is taken apart into the path of the directory and the name, and the path
-- is normal, if all segments are neither empty nor a dot and have no separator, and the name is not
-- two dots.
pub split_path-join_parent_name :
    (segments : List Text) (name : Text)
    → All IsProper segments
    → IsProper name
    → text_eq name dots ≡ false
    → (split_path (join_parent_name (join segments) name) ≡ (parent_of segments, name))
      × (normalize (join_parent_name (join segments) name) ≡ join_parent_name (join segments) name)
unfolding split_path
split_path-join_parent_name segments name h n d =
    let all = All-append IsProper segments (name ∷ []) h (n, tt) in
    rw (join_parent_name-join segments name h) (
      rw
          (
            split-append segments name h n,
            reverse-append segments (name ∷ []),
            skip_proper (name ∷ reverse segments) (n, All-reverse segments h),
          )
          (parent_and_name_lem segments name h n d),
      normalize-join (segments ++ name ∷ []) all,
    )
