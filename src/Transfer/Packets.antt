-- ===== src/Transfer/Packets.antt =====
-- Predicates on the packets of an upload: their bytes, their numbers and their flags.
use mathlib.Core.List.{append_assoc}
use meowith.Base.{
  ℕ, suc, ◌+◌, ◌≤◌, ◌≡◌, refl, sym, ap, true, false, some, List, [], ◌∷◌, ◌++◌, arith, length, take,
  drop, All, length-append, take-append_self,
}
use meowith.Base.Result.{ok, err}
use meowith.Transfer.Upload.{Packet, MdsftpResult, read_exact}

abbrev pub contents : List Packet → List ℕ
contents [] = []
contents (p ∷ ps) = p.content ++ contents ps

-- The packets carry the numbers from `id` on.
abbrev pub Numbered : ℕ → List Packet → Type 0
Numbered id [] = Unit
Numbered id (p ∷ ps) = (p.id ≡ id) × Numbered (id + 1) ps

-- The last packet, and no other, is flagged.
abbrev pub OnlyLast : List Packet → Type 0
OnlyLast [] = ⊥
OnlyLast (p ∷ []) = p.is_last ≡ true
OnlyLast (p ∷ q ∷ ps) = (p.is_last ≡ false) × OnlyLast (q ∷ ps)

pub contents-append : (ps qs : List Packet) → contents (ps ++ qs) ≡ contents ps ++ contents qs
contents-append [] qs = refl
contents-append (p ∷ ps) qs =
    rw (contents-append ps qs) (sym (append_assoc p.content (contents ps) (contents qs)))

pub Numbered-append :
    (id : ℕ) (ps qs : List Packet)
    → Numbered id ps
    → Numbered (id + length ps) qs
    → Numbered id (ps ++ qs)
Numbered-append id [] qs h k = let e : id + 0 ≡ id = omega arith in rw e at k
Numbered-append id (p ∷ ps) qs h k =
    let e : id + suc (length ps) ≡ id + 1 + length ps = omega arith in
    (h.0, Numbered-append (id + 1) ps qs h.1 (rw e at k))

pub OnlyLast-snoc :
    (ps : List Packet) (p : Packet)
    → All (λ q. q.is_last ≡ false) ps
    → p.is_last ≡ true
    → OnlyLast (ps ++ p ∷ [])
OnlyLast-snoc [] p h e = e
OnlyLast-snoc (q ∷ []) p h e = (h.0, e)
OnlyLast-snoc (q ∷ r ∷ ps) p h e = (h.0, OnlyLast-snoc (r ∷ ps) p h.1 e)

pub read_exact-some :
    (n : ℕ) (xs a b : List ℕ)
    → read_exact n xs ≡ some (a, b)
    → (a ≡ take n xs) × (b ≡ drop n xs) × (n ≤ length xs)
unfolding read_exact
read_exact-some n xs a b h = ground arith

-- Packets that hold the first `size` bytes, in order, with the last of them flagged.
pub record Complete (size : ℕ) (before : List ℕ) (ps : List Packet) : Type 0 where
  pub bytes : contents ps ≡ take size before
  pub enough : size ≤ length before
  pub numbered : Numbered 0 ps
  pub only_last : OnlyLast ps

-- From the bytes before and behind the packets.
pub complete :
    (size : ℕ) (before after : List ℕ) (ps : List Packet)
    → contents ps ++ after ≡ before
    → length (contents ps) ≡ size
    → Numbered 0 ps
    → OnlyLast ps
    → Complete size before ps
complete size before after ps e len k o = record {
  bytes = rw (← e, ← len) (sym (take-append_self (contents ps) after));
  enough = omega (arith, ap length e, length-append (contents ps) after);
  numbered = k;
  only_last = o;
}

abbrev pub Uploaded : (size : ℕ) → List ℕ → List Packet × MdsftpResult (Unit {0}) → Type 0
Uploaded size before (ps, ok _) = Complete size before ps
Uploaded size before (ps, err _) = Unit
