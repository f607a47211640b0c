-- ===== src/Session/Transfers.antt =====
-- What the transfers of a resumed upload leave in the chunks.
use meowith.Base.{
  ℕ, ◌+◌, ◌-◌, ◌≤◌, ◌≡◌, refl, sym, ap, ap₂, ◌∙◌, ◌⊎◌, inl, inr, Bool, true, false, Bool-cases,
  subst, Option, none, some, List, [], ◌∷◌, arith, length, take, drop, ltb, ==_refl, if◌then◌else◌,
  length-take, length-drop,
}
use meowith.Base.Result.{ok, err}
use meowith.Files.Model.{FileChunk}
use meowith.Reservation.Reserve.{NodeClientError}
use meowith.Session.State.{NodeClientResponse}
use meowith.Session.Resume.{Interruption, unopened, after, inbound, transfer_all, then_others}
use meowith.Session.Slices.{
  total_size, filled, slices, take-take-drop, drop-drop, take-take_more, take-append-take,
}

abbrev pub is_interrupted : List (Option Interruption) → Bool
is_interrupted [] = false
is_interrupted (none ∷ is) = is_interrupted is
is_interrupted (some _ ∷ is) = true

-- Either each chunk holds its part of the file, or a transfer was interrupted and they hold the first
-- bytes of the file in their order, no fewer than before.
abbrev pub Ends :
    (n : ℕ) (file : List ℕ)
    → List FileChunk
    → List (Option Interruption)
    → List (List ℕ) × NodeClientResponse (Unit {0})
    → Type 0
Ends n file cs is (contents, r) =
    (contents ≡ slices file cs) × (r ≡ ok tt)
    ⊎ (m : ℕ) × (e : NodeClientError) × (n ≤ m)
      × (m ≤ total_size cs)
      × (contents ≡ filled m file cs)
      × (r ≡ err e)
      × (is_interrupted is ≡ true)

abbrev first_size : List FileChunk → ℕ
first_size [] = 0
first_size (c ∷ cs) = c.chunk_size

-- A chunk that is not appended to had nothing.
kept :
    (append : Bool) (k : ℕ) (xs : List ℕ)
    → (append ≡ true) ⊎ (k ≡ 0)
    → (if append then take k xs else []) ≡ take k xs
kept true k xs h = refl
kept false k xs (inl h) = cc (h)
kept false k xs (inr h) = rw h refl

-- One more chunk that has its part.
pub more-Ends :
    (k k' : ℕ) (file : List ℕ) (c : FileChunk) (cs : List FileChunk)
    (is is' : List (Option Interruption)) (rest : List (List ℕ) × NodeClientResponse (Unit {0}))
    → k ≤ c.chunk_size + k'
    → is_interrupted is' ≡ is_interrupted is
    → Ends k' (drop c.chunk_size file) cs is' rest
    → Ends k file (c ∷ cs) is (take c.chunk_size file ∷ rest.0, rest.1)
more-Ends k k' file c cs is is' (contents, r) le same (inl (e, f)) =
    inl (ap (◌∷◌ (take c.chunk_size file)) e, f)
more-Ends k k' file c cs is is' (contents, r) le same (inr (m, e, ge, le', held, f, i)) =
    let behind : c.chunk_size + m - c.chunk_size ≡ m = omega arith in
    inr (
      c.chunk_size + m,
      e,
      omega arith,
      omega arith,
      rw behind
          (ap₂ ◌∷◌ (sym (take-take_more (c.chunk_size + m) c.chunk_size file (omega arith))) held),
      f,
      sym same ∙ i,
    )

-- A transfer that stops after `n` bytes of a chunk that had `k`.
stopped-Ends :
    (k n : ℕ) (file : List ℕ) (c : FileChunk) (cs : List FileChunk)
    (is : List (Option Interruption)) (e : NodeClientError)
    → k ≤ c.chunk_size
    → is_interrupted is ≡ true
    → Ends k file (c ∷ cs) is (
      take (k + n) (take c.chunk_size file) ∷ filled (k - c.chunk_size) (drop c.chunk_size file) cs,
      err e,
    )
stopped-Ends k n file c cs is e h i = elim (Bool-cases (ltb c.chunk_size (k + n))) [
  | inl whole ↦
      let none_left : c.chunk_size - c.chunk_size ≡ k - c.chunk_size = omega arith in
      inr (
        c.chunk_size,
        e,
        h,
        omega arith,
        ap₂ ◌∷◌
            (take-take_more (k + n) c.chunk_size file (ground arith)
              ∙ sym (take-take_more c.chunk_size c.chunk_size file (omega arith)))
            (ap (λ j. filled j (drop c.chunk_size file) cs) (sym none_left)),
        refl,
        i,
      )
  | inr part ↦
      let none_left : k + n - c.chunk_size ≡ k - c.chunk_size = ground arith in
      inr (
        k + n,
        e,
        omega arith,
        ground arith,
        ap (λ j. take (k + n) (take c.chunk_size file) ∷ filled j (drop c.chunk_size file) cs)
            (sym none_left),
        refl,
        i,
      )
]

-- A transfer that is not interrupted.
inbound_whole :
    (append : Bool) (k : ℕ) (c : FileChunk) (file : List ℕ)
    → k ≤ c.chunk_size
    → (append ≡ true) ⊎ (k ≡ 0)
    → c.chunk_size ≤ length file
    → inbound append (c.chunk_size - k) (take k (take c.chunk_size file)) (drop k file) none
      ≡ (take c.chunk_size file, ok tt)
inbound_whole append k c file h b room =
    let here = length-take (c.chunk_size - k) (drop k file) in
    let behind = length-drop k file in
    let enough : length (take (c.chunk_size - k) (drop k file)) ≡ c.chunk_size - k =
      omega (arith, here, behind) in
    rw (kept append k (take c.chunk_size file) b, take-take-drop k c.chunk_size file h, enough)
      (rw (==_refl (c.chunk_size - k)) refl)

whole-Ends :
    (append : Bool) (k : ℕ) (c : FileChunk) (cs : List FileChunk) (file : List ℕ)
    (is is' : List (Option Interruption))
    (rest : List ℕ → List (List ℕ) → List (List ℕ) × NodeClientResponse (Unit {0}))
    → k ≤ c.chunk_size
    → (append ≡ true) ⊎ (k ≡ 0)
    → length file ≡ c.chunk_size + total_size cs
    → is_interrupted is' ≡ is_interrupted is
    → Ends 0
        (drop c.chunk_size file)
        cs
        is'
        (rest (drop c.chunk_size file) (filled 0 (drop c.chunk_size file) cs))
    → Ends k file (c ∷ cs) is (
        then_others
          (inbound append (c.chunk_size - k) (take k (take c.chunk_size file)) (drop k file) none)
          (filled (k - c.chunk_size) (drop c.chunk_size file) cs)
          (rest
            (drop (c.chunk_size - k) (drop k file))
            (filled (k - c.chunk_size) (drop c.chunk_size file) cs)))
whole-Ends append k c cs file is is' rest h b whole same ends =
    let none_left : k - c.chunk_size ≡ 0 = omega arith in
    let through : k + (c.chunk_size - k) ≡ c.chunk_size = omega arith in
    let held = inbound_whole append k c file h b (omega arith) in
    let contents = filled 0 (drop c.chunk_size file) cs in
    rw (none_left, drop-drop (c.chunk_size - k) k file, through)
      (subst
        (λ p.
          Ends k file (c ∷ cs) is (then_others p contents (rest (drop c.chunk_size file) contents)))
        (sym held)
        (more-Ends k 0 file c cs is is' (rest (drop c.chunk_size file) contents) (omega arith) same
          ends))

pub transfer_all-Ends :
    (append : Bool) (k : ℕ) (cs : List FileChunk) (file : List ℕ) (is : List (Option Interruption))
    → k ≤ first_size cs
    → (append ≡ true) ⊎ (k ≡ 0)
    → length file ≡ total_size cs
    → Ends k file cs is (transfer_all append k cs (filled k file cs) (drop k file) is)
unfolding transfer_all
transfer_all-Ends append k [] file is h b whole = inl (refl, refl)
transfer_all-Ends append k (c ∷ cs) file [] h b whole =
    whole-Ends append k c cs file [] []
      (λ reader contents. transfer_all false 0 cs contents reader []) h b whole refl
      (transfer_all-Ends false 0 cs (drop c.chunk_size file) [] (omega arith) (inr refl)
        (omega (arith, length-drop c.chunk_size file)))
transfer_all-Ends append k (c ∷ cs) file (none ∷ is) h b whole =
    whole-Ends append k c cs file (none ∷ is) is
      (λ reader contents. transfer_all false 0 cs contents reader is) h b whole refl
      (transfer_all-Ends false 0 cs (drop c.chunk_size file) is (omega arith) (inr refl)
        (omega (arith, length-drop c.chunk_size file)))
transfer_all-Ends append k (c ∷ cs) file (some unopened ∷ is) h b whole =
    inr (k, _, omega arith, omega arith, refl, refl, refl)
transfer_all-Ends append k (c ∷ cs) file (some (after n) ∷ is) h b whole =
    rw (kept append k (take c.chunk_size file) b, take-append-take k n c.chunk_size file h)
      (stopped-Ends k n file c cs (some (after n) ∷ is) _ h refl)
