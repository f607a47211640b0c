-- ===== src/Session/Slices.antt =====
-- The parts of a file that its chunks hold.
use meowith.Base.{
  ℕ, zero, suc, ◌+◌, ◌-◌, ◌≤◌, ◌≡◌, refl, sym, ap, ap₂, ◌∙◌, List, [], ◌∷◌, ◌++◌, arith, take, drop,
  take_all, length-take,
}
use meowith.Files.Model.{FileChunk}

abbrev pub total_size : List FileChunk → ℕ
total_size [] = 0
total_size (c ∷ cs) = c.chunk_size + total_size cs

-- What the chunks of a file hold after its first `n` bytes were uploaded, in order.
abbrev pub filled : (n : ℕ) (file : List ℕ) → List FileChunk → List (List ℕ)
filled n file [] = []
filled n file (c ∷ cs) =
    take n (take c.chunk_size file) ∷ filled (n - c.chunk_size) (drop c.chunk_size file) cs

-- What they hold of a file that is uploaded.
abbrev pub slices : (file : List ℕ) → List FileChunk → List (List ℕ)
slices file [] = []
slices file (c ∷ cs) = take c.chunk_size file ∷ slices (drop c.chunk_size file) cs

take_none : (n : ℕ) → take {A = ℕ} n [] ≡ []
take_none zero = refl
take_none (suc n) = refl

pub take-take-drop :
    (n k : ℕ) (xs : List ℕ) → n ≤ k → take n (take k xs) ++ take (k - n) (drop n xs) ≡ take k xs
take-take-drop zero k xs h = let e : k - 0 ≡ k = omega arith in rw e refl
take-take-drop (suc n) zero xs h = absurd (omega arith)
take-take-drop (suc n) (suc k) [] h = take_none (suc k - suc n)
take-take-drop (suc n) (suc k) (x ∷ xs) h =
    let e : suc k - suc n ≡ k - n = omega arith in
    rw e (ap (◌∷◌ x) (take-take-drop n k xs (omega arith)))

drop_none : (n : ℕ) → drop {A = ℕ} n [] ≡ []
drop_none zero = refl
drop_none (suc n) = refl

pub drop-drop : (n k : ℕ) (xs : List ℕ) → drop n (drop k xs) ≡ drop (k + n) xs
drop-drop n zero xs = let e : 0 + n ≡ n = omega arith in rw e refl
drop-drop n (suc k) [] = drop_none n ∙ sym (drop_none (suc k + n))
drop-drop n (suc k) (x ∷ xs) =
    let e : suc k + n ≡ suc (k + n) = omega arith in rw e (drop-drop n k xs)

pub take-take_more : (m k : ℕ) (xs : List ℕ) → k ≤ m → take m (take k xs) ≡ take k xs
take-take_more m k xs h = take_all m (take k xs) (omega (arith, length-take k xs))

pub take-append-take :
    (k n size : ℕ) (xs : List ℕ)
    → k ≤ size
    → take k (take size xs) ++ take n (take (size - k) (drop k xs)) ≡ take (k + n) (take size xs)
take-append-take zero n size xs h =
    let e : size - 0 ≡ size = omega arith in let f : 0 + n ≡ n = omega arith in rw (e, f) refl
take-append-take (suc k) n zero xs h = absurd (omega arith)
take-append-take (suc k) n (suc size) [] h =
    ap (take n) (take_none (suc size - suc k)) ∙ take_none n ∙ sym (take_none (suc k + n))
take-append-take (suc k) n (suc size) (x ∷ xs) h =
    let e : suc size - suc k ≡ size - k = omega arith in
    let f : suc k + n ≡ suc (k + n) = omega arith in
    rw (e, f) (ap (◌∷◌ x) (take-append-take k n size xs (omega arith)))

pub filled_all :
    (n : ℕ) (file : List ℕ) (cs : List FileChunk)
    → total_size cs ≤ n
    → filled n file cs ≡ slices file cs
filled_all n file [] h = refl
filled_all n file (c ∷ cs) h =
    ap₂ ◌∷◌ (take-take_more n c.chunk_size file (omega arith))
      (filled_all (n - c.chunk_size) (drop c.chunk_size file) cs (omega arith))
