-- ===== src/Bucket/Rows.antt =====
-- Rows of files: what is found, erased and put, and how many bytes they take.
use meowith.Base.{
  ℕ, suc, ◌+◌, ◌≡◌, refl, ap, ap₂, ◌∙◌, sym, true, false, List, [], ◌∷◌, length, arith, none, some,
  Bool-cases, inl, inr, ==_refl,
}
use meowith.Bucket.Paths.{Text, text_eq}
use meowith.Bucket.State.{File, is_file, find_file, erase_file, put_file}

pub text_eq_refl : (s : Text) → text_eq s s ≡ true
text_eq_refl [] = refl
text_eq_refl (c ∷ s) = rw (==_refl c) (text_eq_refl s)

pub text_eq-eq : (s t : Text) → text_eq s t ≡ true → s ≡ t
text_eq-eq [] [] h = refl
text_eq-eq [] (d ∷ t) h = cc (h)
text_eq-eq (c ∷ s) [] h = cc (h)
text_eq-eq (c ∷ s) (d ∷ t) h = ground (arith, text_eq-eq s t)

pub is_file-eq :
    (directory : ℕ) (name : Text) (f : File)
    → is_file directory name f ≡ true
    → (f.directory ≡ directory) × (f.name ≡ name)
is_file-eq directory name f h = (ground arith, text_eq-eq f.name name (ground arith))

-- The bytes of all files.
abbrev pub space_of : List File → ℕ
space_of [] = 0
space_of (f ∷ fs) = f.size + space_of fs

-- No two rows have one key.
abbrev pub Unique : List File → Type 0
Unique [] = Unit
Unique (f ∷ fs) = (find_file f.directory f.name fs ≡ none) × Unique fs

pub erase_file-none :
    (directory : ℕ) (name : Text) (fs : List File)
    → find_file directory name fs ≡ none
    → erase_file directory name fs ≡ fs
unfolding find_file erase_file
erase_file-none directory name [] h = refl
erase_file-none directory name (f ∷ fs) h = ground (arith, erase_file-none directory name fs)

pub find_file-erase_file :
    (directory : ℕ) (name : Text) (fs : List File)
    → find_file directory name (erase_file directory name fs) ≡ none
unfolding find_file erase_file
find_file-erase_file directory name [] = refl
find_file-erase_file directory name (f ∷ fs) =
    ground (arith, find_file-erase_file directory name fs)

pub find_file-none-erase :
    (d : ℕ) (n : Text) (d' : ℕ) (n' : Text) (fs : List File)
    → find_file d n fs ≡ none
    → find_file d n (erase_file d' n' fs) ≡ none
unfolding find_file erase_file
find_file-none-erase d n d' n' [] h = refl
find_file-none-erase d n d' n' (f ∷ fs) h = ground (arith, find_file-none-erase d n d' n' fs)

pub erase_file-Unique : (d : ℕ) (n : Text) (fs : List File) → Unique fs → Unique (erase_file d n fs)
unfolding erase_file
erase_file-Unique d n [] u = tt
erase_file-Unique d n (f ∷ fs) u = elim (Bool-cases (is_file d n f)) [
  | inl e ↦ rw e (erase_file-Unique d n fs u.1)
  | inr e ↦ rw e (find_file-none-erase f.directory f.name d n fs u.0, erase_file-Unique d n fs u.1)
]

pub put_file-Unique : (f : File) (fs : List File) → Unique fs → Unique (put_file f fs)
put_file-Unique f fs u =
    (find_file-erase_file f.directory f.name fs, erase_file-Unique f.directory f.name fs u)

-- Erasing a row that is found takes it away, and no other.
pub erase_file_found :
    (d : ℕ) (n : Text) (fs : List File) (f : File)
    → Unique fs
    → find_file d n fs ≡ some f
    → (suc (length (erase_file d n fs)) ≡ length fs)
      × (f.size + space_of (erase_file d n fs) ≡ space_of fs)
      × (f.directory ≡ d)
      × (f.name ≡ n)
unfolding find_file erase_file
erase_file_found d n [] f u h = cc (h)
erase_file_found d n (g ∷ fs) f u h = elim (Bool-cases (is_file d n g)) [
  | inl e ↦
      let same = is_file-eq d n g e in
      let gone = sym (ap₂ (λ a b. find_file a b fs) same.0 same.1) ∙ u.0 in
      let here : g ≡ f = ground (arith, e) in
      rw (e, erase_file-none d n fs gone)
        (
          refl,
          ap (λ (x : File). x.size + space_of fs) (sym here),
          ap (λ (x : File). x.directory) (sym here) ∙ same.0,
          ap (λ (x : File). x.name) (sym here) ∙ same.1,
        )
  | inr e ↦
      let rest = erase_file_found d n fs f u.1 (ground (arith, e)) in
      rw e (omega (arith, rest.0), omega (arith, rest.1), rest.2, rest.3)
]

-- A row of another key is still found when one is erased.
pub find_file_other :
    (d : ℕ) (n : Text) (d' : ℕ) (n' : Text) (fs : List File) (f : File)
    → find_file d n fs ≡ some f
    → is_file d' n' f ≡ false
    → find_file d n (erase_file d' n' fs) ≡ some f
unfolding find_file erase_file
find_file_other d n d' n' [] f h other = cc (h)
find_file_other d n d' n' (g ∷ fs) f h other = elim (Bool-cases (is_file d n g)) [
  | inl e ↦
      let here : g ≡ f = ground (arith, e) in
      let kept : is_file d' n' g ≡ false = ap (is_file d' n') here ∙ other in
      rw (kept, e) (ap some here)
  | inr e ↦
      let later : find_file d n fs ≡ some f = ground (arith, e) in
      elim (Bool-cases (is_file d' n' g)) [
        | inl gone ↦ rw gone (find_file_other d n d' n' fs f later other)
        | inr kept ↦ rw (kept, e) (find_file_other d n d' n' fs f later other)
      ]
]

pub is_file-find_file :
    (d : ℕ) (n : Text) (f g : File) (fs : List File)
    → is_file d n f ≡ true
    → find_file f.directory f.name fs ≡ some g
    → find_file d n fs ≡ some g
is_file-find_file d n f g fs e h =
    let same = is_file-eq d n f e in sym (ap₂ (λ x y. find_file x y fs) same.0 same.1) ∙ h
