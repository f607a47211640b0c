-- ===== src/Bucket/Ancestors.antt =====
-- The directories on a path, under the insertions of `try_mkdir` of
-- node/src/public/service/file_access_service.rs.
use meowith.Base.{
  ◌≡◌, refl, ap₂, subst, sym, ◌∙◌, true, Option, none, some, List, [], ◌∷◌, ◌++◌, All, Bool-cases,
  inl, inr, arith,
}
use meowith.Base.Result.{ok}
use meowith.Bucket.Paths.{Text}
use meowith.Bucket.State.{
  Directory, World, is_directory, find_directory, erase_directory, put_directory, unwrap_or_empty,
}
use meowith.Bucket.Directories.{create_all}
use meowith.Bucket.Rows.{text_eq_refl, text_eq-eq}
use meowith.Bucket.Renames.{found_key, find_directory_other}
use meowith.Bucket.Quiet.{Quiet}
use meowith.Bucket.Making.{made, with_directory, quiet_new_directory}
use meowith.Bucket.Climb.{IsName, path_to, up, unwrap_up, climb, unless_found}

abbrev pub There : List Directory → Text → Text → Type 0
There rows p n = (d : Directory) × (find_directory p n rows ≡ some d)

-- That every directory on a path is there.
abbrev pub Ancestors : List Directory → List Text → Type 0
Ancestors rows [] = Unit
Ancestors rows (n ∷ rs) = There rows (path_to rs) n × Ancestors rows rs

-- That every directory has its parent.
abbrev pub IsClosed : List Directory → Type 0
IsClosed rows =
    (n : Text) (rs : List Text) → All IsName rs → There rows (path_to rs) n → Ancestors rows rs

abbrev pub Keeps : List Directory → List Directory → Type 0
Keeps rows rows' = (p n : Text) → There rows p n → There rows' p n

is_directory-eq :
    (p n : Text) (d : Directory) → is_directory p n d ≡ true → (d.parent ≡ p) × (d.name ≡ n)
is_directory-eq p n d h = (text_eq-eq d.parent p (ground arith), text_eq-eq d.name n (ground arith))

is_directory_self : (d : Directory) → is_directory d.parent d.name d ≡ true
is_directory_self d = rw (text_eq_refl d.parent, text_eq_refl d.name) refl

put_directory-Keeps : (d : Directory) (rows : List Directory) → Keeps rows (put_directory d rows)
unfolding find_directory
put_directory-Keeps d rows p n (e, h) = elim (Bool-cases (is_directory p n d)) [
  | inl same ↦ (d, rw same refl)
  | inr other ↦ (
    e,
    rw other (
        find_directory_other p n d.parent d.name rows e h
          (elim (Bool-cases (is_directory d.parent d.name e)) [
            | inr apart ↦ apart
            | inl same ↦
                let a = is_directory-eq d.parent d.name e same in
                let b = is_directory-eq p n e (found_key p n rows e h) in
                let self : is_directory p n d ≡ true =
                  sym (ap₂ (λ x y. is_directory x y d) (sym a.0 ∙ b.0) (sym a.1 ∙ b.1))
                  ∙ is_directory_self d in
                cc (self, other)
          ])),
  )
]

erase_directory-There :
    (p n p' n' : Text) (rows : List Directory)
    → There (erase_directory p' n' rows) p n
    → There rows p n
unfolding find_directory erase_directory
erase_directory-There p n p' n' [] h = h
erase_directory-There p n p' n' (d ∷ rows) (e, h) = elim (Bool-cases (is_directory p n d)) [
  | inl same ↦ (d, rw same refl)
  | inr other ↦ rw other (
      erase_directory-There p n p' n' rows (elim (Bool-cases (is_directory p' n' d)) [
        | inl gone ↦ (e, ground (arith, gone, h))
        | inr kept ↦ (e, ground (arith, kept, other, h))
      ]))
]

-- A directory that is there after an insertion was there before, or is the one inserted.
put_directory-There :
    (Q : Text → Text → Type 0) (d : Directory) (rows : List Directory)
    → ((p n : Text) → There rows p n → Q p n)
    → Q d.parent d.name
    → (p n : Text) → There (put_directory d rows) p n
    → Q p n
unfolding find_directory
put_directory-There Q d rows old new p n (e, h) = elim (Bool-cases (is_directory p n d)) [
  | inl same ↦ let key = is_directory-eq p n d same in subst (λ x. x) (ap₂ Q key.0 key.1) new
  | inr other ↦
      old p n (erase_directory-There p n d.parent d.name rows (e, ground (arith, other, h)))
]

-- The world after directories are made.
abbrev pub after : List (Option Text × Text) → World → World
after [] w = w
after (entry ∷ entries) w = after entries (with_directory entry w)

with_directory-Quiet :
    (entry : Option Text × Text) (w : World) → Quiet w → Quiet (with_directory entry w)
with_directory-Quiet entry w q = record { no_fault = q.no_fault; no_rival = q.no_rival }

pub quiet_create_all :
    (entries : List (Option Text × Text)) (last : Option Text × Text) (w : World)
    → Quiet w
    → create_all entries last w
      ≡ (after (entries ++ last ∷ []) w, ok (some (made last (after entries w))))
unfolding create_all
quiet_create_all [] last w q = rw (quiet_new_directory last w q) refl
quiet_create_all (entry ∷ entries) last w q =
    rw
      (
        quiet_new_directory entry w q,
        quiet_create_all entries last (with_directory entry w) (with_directory-Quiet entry w q),
      )
      refl

-- The last directory that is made is found.
pub after_last :
    (entries : List (Option Text × Text)) (last : Option Text × Text) (w : World)
    → find_directory (unwrap_or_empty last.0) last.1 (after (entries ++ last ∷ []) w).directories
      ≡ some (made last (after entries w))
unfolding find_directory
after_last [] last w = rw (is_directory_self (made last w)) refl
after_last (entry ∷ entries) last w = after_last entries last (with_directory entry w)

pub after-Keeps :
    (entries : List (Option Text × Text)) (w : World)
    → Keeps w.directories (after entries w).directories
after-Keeps [] w p n h = h
after-Keeps (entry ∷ entries) w p n h =
    after-Keeps entries (with_directory entry w) p n
      (put_directory-Keeps (made entry w) w.directories p n h)

-- That a property of a parent and a name holds of entries.
abbrev pub Each : (Text → Text → Type 0) → List (Option Text × Text) → Type 0
Each Q entries = All (λ (e : Option Text × Text). Q (unwrap_or_empty e.0) e.1) entries

pub after-There :
    (entries : List (Option Text × Text)) (w : World)
    → Each (There (after entries w).directories) entries
after-There [] w = tt
after-There (entry ∷ entries) w = (
  after-Keeps entries (with_directory entry w) (unwrap_or_empty entry.0) entry.1
      (made entry w, unfold find_directory in rw (is_directory_self (made entry w)) refl),
  after-There entries (with_directory entry w),
)

-- What holds of the directories before and of the entries holds of the directories afterwards.
pub after_all :
    (Q : Text → Text → Type 0) (entries : List (Option Text × Text)) (w : World)
    → ((p n : Text) → There w.directories p n → Q p n)
    → Each Q entries
    → (p n : Text) → There (after entries w).directories p n
    → Q p n
after_all Q [] w old new = old
after_all Q (entry ∷ entries) w old new =
    after_all Q entries (with_directory entry w)
      (put_directory-There Q (made entry w) w.directories old new.0) new.1

pub Ancestors-Keeps :
    (rows rows' : List Directory) (rs : List Text)
    → Keeps rows rows'
    → Ancestors rows rs
    → Ancestors rows' rs
Ancestors-Keeps rows rows' [] keeps h = tt
Ancestors-Keeps rows rows' (n ∷ rs) keeps h =
    (keeps (path_to rs) n h.0, Ancestors-Keeps rows rows' rs keeps h.1)

-- When the missing directories are there, all on the path are.
pub climb-Ancestors :
    (rows rows' : List Directory) (rs : List Text)
    → IsClosed rows
    → Keeps rows rows'
    → All IsName rs
    → Each (There rows') (climb rows rs)
    → Ancestors rows' rs
climb-Ancestors rows rows' [] closed keeps h each = tt
climb-Ancestors rows rows' (n ∷ rs) closed keeps h each =
    look (find_directory (path_to rs) n rows) (climb-Ancestors rows rows' rs closed keeps h.1) refl
      each
  where
    look :
        (o : Option Directory)
        → (Each (There rows') (climb rows rs) → Ancestors rows' rs)
        → find_directory (path_to rs) n rows ≡ o
        → Each (There rows') (unless_found o ((up rs, n) ∷ climb rows rs))
        → Ancestors rows' (n ∷ rs)
    look (some d) rest e each =
        (keeps (path_to rs) n (d, e), Ancestors-Keeps rows rows' rs keeps (closed n rs h.1 (d, e)))
    look none rest e each = (subst (λ p. There rows' p n) (unwrap_up rs) each.0, rest each.1)
