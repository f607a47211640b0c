-- ===== src/Bucket/Places.antt =====
-- Where `end_session` of node/src/public/service/file_access_service.rs enters an uploaded file.
use meowith.Base.{
  ℕ, ◌<◌, ◌≤◌, ◌≡◌, refl, subst, ◌==◌, ap, ap₂, ◌∙◌, sym, false, Option, none, some, List, [], ◌∷◌,
  All, arith,
}
use mathlib.Core.List.{reverse}
use meowith.Base.Result.{Result, ok, err}
use meowith.Reservation.Reserve.{NodeClientError}
use meowith.Bucket.Paths.{Text, is_empty, split_path, split, skip, parent_and_name, non_empty}
use meowith.Bucket.State.{Directory, File, World, find_file, unwrap_or_root, id_of}
use meowith.Bucket.Tables.{id_or_root}
use meowith.Bucket.Upload.{make_parent, directory_or_root}
use meowith.Bucket.Lookups.{directory_at}
use meowith.Bucket.Accounting.{Accounted, Post, bind-Post}
use meowith.Bucket.Moves.{id-lt-next}
use meowith.Bucket.Entering.{Known}
use meowith.Bucket.Making.{Made, try_mkdir-Post}

-- That the file to be deleted, or none, is the one of the key.
abbrev pub AtKey : Text → Option File → Option ℕ → World → Type 0
AtKey name old directory w =
    (find_file (directory_or_root directory) name w.files ≡ old)
    × (directory_or_root directory < w.next_id)

directory_or_root-id_of : (d : Option Directory) → directory_or_root (id_of d) ≡ id_or_root d
directory_or_root-id_of none = refl
directory_or_root-id_of (some d) = refl

unwrap_or_root-directory_or_root : (id : Option ℕ) → unwrap_or_root id ≡ directory_or_root id
unwrap_or_root-directory_or_root none = refl
unwrap_or_root-directory_or_root (some id) = refl

-- No file is in a directory whose id is still to be given.
find_file_fresh :
    (id n : ℕ) (name : Text) (fs : List File)
    → All (λ (f : File). f.directory < n) fs
    → n ≤ id
    → find_file id name fs ≡ none
unfolding find_file
find_file_fresh id n name [] h le = refl
find_file_fresh id n name (f ∷ fs) h le =
    let other : (f.directory == id) ≡ false = ground arith in
    rw other (find_file_fresh id n name fs h.1 le)

non_empty-is_empty : (s t : Text) → non_empty s ≡ some t → is_empty t ≡ false
non_empty-is_empty [] t h = cc (h)
non_empty-is_empty (c ∷ s) t h = ground arith

parent-is_empty :
    (segments : List Text) (path : Text)
    → (parent_and_name segments).0 ≡ some path
    → is_empty path ≡ false
parent-is_empty [] path h = cc (h)
parent-is_empty (s ∷ segments) path h = non_empty-is_empty _ path h

pub split_path-is_empty : (e path : Text) → (split_path e).0 ≡ some path → is_empty path ≡ false
unfolding split_path
split_path-is_empty e path h = parent-is_empty (skip (reverse (split e))) path h

Made-AtKey :
    (there : Result NodeClientError (Option Directory)) (path : Option Text) (name : Text)
    (old : Option File) (d : Option Directory) (w w' : World)
    → Accounted w
    → Accounted w'
    → directory_at path w.directories ≡ there
    → Known there name old w
    → Made w there d w'
    → AtKey name old (id_of d) w'
Made-AtKey (ok g) path name old d w w' a a' h known m = (
  ap₂ (λ id fs. find_file id name fs) (directory_or_root-id_of d ∙ ap id_or_root m.1) m.0.0 ∙ known,
  omega (
    arith,
    id-lt-next g path w a h,
    ap (λ x. directory_or_root (id_of x)) m.1,
    unwrap_or_root-directory_or_root (id_of g),
    m.0.1,
  ),
)
Made-AtKey (err _) path name old d w w' a a' h known m = (
  ap (λ fs. find_file (directory_or_root (id_of d)) name fs) m.0.0
      ∙ find_file_fresh (directory_or_root (id_of d)) w.next_id name w.files a.next_file
          (omega (arith, m.1, unwrap_or_root-directory_or_root (id_of d)))
      ∙ sym known,
  omega (arith, m.2, unwrap_or_root-directory_or_root (id_of d)),
)

root_of :
    (g : Option Directory)
    → ◌≡◌ {A = Result NodeClientError (Option Directory)} (ok none) (ok g)
    → none ≡ g
root_of none h = refl
root_of (some d) h = cc (h)

pub make_parent-Post :
    (there : Result NodeClientError (Option Directory)) (path : Option Text) (name : Text)
    (old : Option File) (w : World)
    → Accounted w
    → ((s : Text) → path ≡ some s → is_empty s ≡ false)
    → directory_at path w.directories ≡ there
    → Known there name old w
    → Post (AtKey name old) (make_parent path w)
unfolding make_parent
make_parent-Post (ok g) none name old w a full h known =
    (a, (ap (λ id. find_file id name w.files) (ap id_or_root (root_of g h)) ∙ known, a.next_root))
make_parent-Post (err _) none name old w a full h known = cc (h)
make_parent-Post there (some s) name old w a full h known =
    bind-Post (Made w (directory_at (some s) w.directories)) (AtKey name old) _ _
      (try_mkdir-Post s w a (full s refl))
      (λ d w' a' m. (
        a',
        Made-AtKey (directory_at (some s) w.directories) (some s) name old d w w' a a' refl
            (subst (λ r. Known r name old w) (sym h) known) m,
      ))
