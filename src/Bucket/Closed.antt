-- ===== src/Bucket/Closed.antt =====
-- What `try_mkdir` of node/src/public/service/file_access_service.rs makes of a tree whose
-- directories have their parents.
use meowith.Base.{
  ◌≡◌, refl, ap, subst, sym, ◌∙◌, true, Option, none, some, List, [], ◌∷◌, ◌++◌, length, ◌≤◌, All,
  All-append, Bool-cases, inl, inr, arith,
}
use meowith.Base.Result.{Result, ok, err}
use meowith.Reservation.Reserve.{NodeClientError}
use meowith.Bucket.Paths.{Text, is_empty, text_eq}
use meowith.Bucket.State.{Directory, World, find_directory, unwrap_or_empty, return, M}
use meowith.Bucket.Directories.{make_path, try_mkdir}
use meowith.Bucket.Rows.{text_eq-eq}
use meowith.Bucket.Renames.{found_key}
use meowith.Bucket.Quiet.{Quiet}
use meowith.Bucket.Lookups.{quiet_get_directory, directory_found}
use meowith.Bucket.Making.{made}
use meowith.Bucket.Climb.{
  IsName, path_to, up, unwrap_up, split_up, path_to_injective, path_to_long, path_to_full, climb,
  unless_found, missing-climb,
}
use meowith.Bucket.Ancestors.{
  There, Ancestors, IsClosed, after, Each, after-Keeps, after-There, after_all, after_last,
  quiet_create_all, climb-Ancestors, Ancestors-Keeps,
}

-- That the directories on the path to a parent are there.
abbrev Parented : List Directory → Text → Text → Type 0
Parented rows p n = (ts : List Text) → All IsName ts → path_to ts ≡ p → Ancestors rows ts

entry-Parented :
    (rows : List Directory) (n : Text) (rs : List Text)
    → All IsName rs
    → Ancestors rows rs
    → Parented rows (unwrap_or_empty (up rs)) n
entry-Parented rows n rs h a ts k e =
    subst (Ancestors rows) (path_to_injective rs ts h k (sym (e ∙ unwrap_up rs))) a

unless_found-Each :
    (Q : Text → Text → Type 0) (o : Option Directory) (entries : List (Option Text × Text))
    → Each Q entries
    → Each Q (unless_found o entries)
unless_found-Each Q (some d) entries h = tt
unless_found-Each Q none entries h = h

All-left : {A : Type 0} (P : A → Type 0) (xs ys : List A) → All P (xs ++ ys) → All P xs
All-left P [] ys h = tt
All-left P (x ∷ xs) ys h = (h.0, All-left P xs ys h.1)

climb-Parented :
    (rows rows' : List Directory) (rs : List Text)
    → All IsName rs
    → Ancestors rows' rs
    → Each (Parented rows') (climb rows rs)
climb-Parented rows rows' [] h a = tt
climb-Parented rows rows' (n ∷ rs) h a =
    unless_found-Each (Parented rows') (find_directory (path_to rs) n rows)
      ((up rs, n) ∷ climb rows rs)
      (entry-Parented rows' n rs h.1 a.1, climb-Parented rows rows' rs h.1 a.1)

quiet_make_path :
    (n : Text) (rs : List Text) (w : World)
    → Quiet w
    → All IsName (n ∷ rs)
    → length rs ≤ length (path_to (n ∷ rs))
    → make_path (path_to (n ∷ rs)) w ≡ (
      after (climb w.directories rs ++ (up rs, n) ∷ []) w,
      ok (some (made (up rs, n) (after (climb w.directories rs) w))),
    )
quiet_make_path n rs w q h le =
    rw (split_up n rs h, missing-climb (length (path_to (n ∷ rs))) rs w q h.1 le)
      (quiet_create_all (climb w.directories rs) (up rs, n) w q)

-- What is asked of a directory that is made or found.
abbrev pub Outcome : Text → List Text → World × Result NodeClientError (Option Directory) → Type 0
Outcome n rs r =
    (w' : World) × (d : Directory) × (r ≡ (w', ok (some d)))
    × (find_directory (path_to rs) n w'.directories ≡ some d)
    × Ancestors w'.directories rs
    × IsClosed w'.directories

make_path-Outcome :
    (n : Text) (rs : List Text) (w : World)
    → Quiet w
    → IsClosed w.directories
    → All IsName (n ∷ rs)
    → Outcome n rs (make_path (path_to (n ∷ rs)) w)
make_path-Outcome n rs w q closed h =
    let entries = climb w.directories rs in
    let last : Option Text × Text = (up rs, n) in
    let w' = after (entries ++ last ∷ []) w in
    let keeps = after-Keeps (entries ++ last ∷ []) w in
    let long = path_to_long (n ∷ rs) h in
    let each =
      All-left (λ (e : Option Text × Text). There w'.directories (unwrap_or_empty e.0) e.1) entries
        (last ∷ []) (after-There (entries ++ last ∷ []) w) in
    let a = climb-Ancestors w.directories w'.directories rs closed keeps h.1 each in
    (
      w',
      made last (after entries w),
      quiet_make_path n rs w q h (omega arith),
      subst
          (λ p.
            find_directory p n (after (entries ++ last ∷ []) w).directories
            ≡ some (made last (after entries w)))
          (unwrap_up rs) (after_last entries last w),
      a,
      λ m ts k there.
          after_all (Parented w'.directories) (entries ++ last ∷ []) w
            (λ p l old ts k e.
              Ancestors-Keeps w.directories w'.directories ts keeps
                (closed l ts k (subst (λ x. There w.directories x l) (sym e) old)))
            (All-append
              (λ (e : Option Text × Text). Parented w'.directories (unwrap_or_empty e.0) e.1)
              entries (last ∷ []) (climb-Parented w.directories w'.directories rs h.1 a)
              (entry-Parented w'.directories n rs h.1 a, tt))
            (path_to ts) m there ts k refl,
    )

-- A directory is made with all that are missing above it: if no statement fails, every directory
-- has its parent, and the segments of the path may be names, then `try_mkdir` succeeds, what it
-- answers is found under the path, every directory on the way is there, and every directory has its
-- parent still.
pub try_mkdir-Outcome :
    (n : Text) (rs : List Text) (w : World)
    → Quiet w
    → IsClosed w.directories
    → All IsName (n ∷ rs)
    → Outcome n rs (try_mkdir (path_to (n ∷ rs)) w)
unfolding try_mkdir
try_mkdir-Outcome n rs w q closed h =
    rw
      (
        path_to_full n rs h,
        quiet_get_directory (some (path_to (n ∷ rs))) w q,
        split_up n rs h,
        unwrap_up rs,
      )
      (look (find_directory (path_to rs) n w.directories) refl)
  where
    look :
        (o : Option Directory)
        → find_directory (path_to rs) n w.directories ≡ o
        → Outcome n rs (
            (elim (directory_found o) as (λ _. M (Option Directory)) [
              | ok d ↦ return d
              | err _ ↦ make_path (path_to (n ∷ rs))
            ])
              w)
    look (some d) e = (w, d, refl, e, closed n rs h.1 (d, e), closed)
    look none e = make_path-Outcome n rs w q closed h

-- A directory in the root has its parent.
pub root-IsClosed : (d : Directory) → is_empty d.parent ≡ true → IsClosed (d ∷ [])
unfolding find_directory
root-IsClosed d root n [] names h = tt
root-IsClosed d root n (m ∷ rs) names (e, h) =
    let here = found_key (path_to (m ∷ rs)) n (d ∷ []) e h in
    elim (Bool-cases (text_eq d.parent (path_to (m ∷ rs)))) [
      | inl same ↦
          cc (
            path_to_full m rs names,
            ap is_empty (text_eq-eq d.parent (path_to (m ∷ rs)) same),
            root,
          )
      | inr apart ↦ let gone : none ≡ some e = ground (arith, apart, h) in cc (gone)
    ]
