-- ===== src/Files/Ranges.antt =====
-- A download sends the bytes of the range, over all chunks of the file.
use Prim.Native.Nat.{min, max}
use meowith.Base.{
  ℕ, ◌+◌, ◌-◌, ◌%◌, ◌^◌, ◌<◌, ◌≡◌, refl, sym, ap, ◌∙◌, inl, inr, false, not, ◌||◌, Option, none,
  some, List, [], ◌∷◌, ◌++◌, map, arith, length, take, drop, All, length-append, length-drop,
  take-append, drop-append, take_all, leb, ◌==◌, Bool-cases,
}
use mathlib.Core.Path.{ap₂}
use meowith.Base.Result.{ok}
use meowith.Transfer.Upload.{ChunkRange, new_range, range_size, into_option}
use meowith.Files.Model.{FileChunk, sort_by_chunk_order}
use meowith.Files.Download.{
  whole_range, chunk_range, chunk_ranges, download_plan, outbound_bytes, download_bytes,
}

-- What one chunk adds to the answer.
abbrev part : List ℕ → Option ChunkRange → List ℕ
part xs none = []
part xs (some r) = outbound_bytes xs (into_option r)

-- Cuts of one list that are as long are equal.
take_same : (j k : ℕ) (xs : List ℕ) → min j (length xs) ≡ min k (length xs) → take j xs ≡ take k xs
take_same j k xs h = elim (Bool-cases (leb (length xs) j)) [
  | inl e ↦ take_all j xs (ground arith) ∙ sym (take_all k xs (ground arith))
  | inr e ↦ ap (λ (n : ℕ). take n xs) (ground arith)
]

take_none : (k : ℕ) (xs : List ℕ) → min k (length xs) ≡ 0 → [] ≡ take k xs
take_none k xs h = take_same 0 k xs (omega arith)

outbound_bytes-cut :
    (a b : ℕ) (xs : List ℕ)
    → a < b
    → b < 2 ^ 63
    → outbound_bytes xs (into_option (record { start = a; end = b })) ≡ take (b - a) (drop a xs)
unfolding outbound_bytes into_option range_size
outbound_bytes-cut a b xs lt small =
    let e : ((a + b) % 2 ^ 64 == 0) ≡ false = ground arith in
    rw e (ap (λ (n : ℕ). take n (drop a xs)) (omega arith))

outbound_bytes-whole : (xs : List ℕ) → outbound_bytes xs (into_option whole_range) ≡ xs
unfolding outbound_bytes into_option
outbound_bytes-whole xs = refl

new_range-ok : (a b : ℕ) → a < b → new_range a b ≡ ok (record { start = a; end = b })
unfolding new_range
new_range-ok a b lt = ground arith

chunk_range-part :
    (start first last : ℕ) (xs : List ℕ)
    → start + length xs < 2 ^ 63
    → last < 2 ^ 63
    → (r : Option ChunkRange) × (chunk_range start (length xs) first last ≡ ok r)
      × (part xs r ≡ take (last + 1 - max start first) (drop (first - start) xs))
unfolding chunk_range
chunk_range-part start first last xs small small' =
    elim (Bool-cases (leb (min (start + length xs) (last + 1)) (max start first))) [
      | inl e ↦ (
        none,
        rw (e, chunk_range) refl,
        take_none _ (drop (first - start) xs) (ground (arith, length-drop (first - start) xs)),
      )
      | inr e ↦
          elim (Bool-cases (
            not (min (start + length xs) (last + 1) == start + length xs)
            || not (max start first == start))) [
              | inr f ↦ (
                some whole_range,
                rw (e, chunk_range) (rw f refl),
                sym (
                    let d : first - start ≡ 0 = ground arith in
                    rw (d, outbound_bytes-whole) (take_all _ xs (ground arith))),
              )
              | inl f ↦ (
                some (record {
                  start = max start first - start;
                  end = min (start + length xs) (last + 1) - start;
                }),
                rw (e, chunk_range)
                    (rw f (
                      rw
                        (new_range-ok (max start first - start)
                          (min (start + length xs) (last + 1) - start) (ground arith))
                        refl)),
                outbound_bytes-cut _ _ xs (ground arith) (ground arith)
                    ∙ (let d : max start first - start ≡ first - start = omega arith in
                        rw d (
                          take_same _ _ (drop (first - start) xs)
                            (ground (arith, length-drop (first - start) xs)))),
              )
            ]
    ]

-- The bytes of the file, chunk after chunk.
abbrev pub file_bytes : (FileChunk → List ℕ) → List FileChunk → List ℕ
file_bytes content [] = []
file_bytes content (c ∷ cs) = content c ++ file_bytes content cs

-- The slice of two lists joined.
slice-append :
    (start first last : ℕ) (xs ys : List ℕ)
    → take (last + 1 - max start first) (drop (first - start) (xs ++ ys))
      ≡ take (last + 1 - max start first) (drop (first - start) xs)
        ++ take (last + 1 - max (start + length xs) first) (drop (first - (start + length xs)) ys)
slice-append start first last xs ys = rw drop-append (
    take-append _ (drop (first - start) xs) (drop (first - start - length xs) ys)
    ∙ ap₂
        (λ (a b : ℕ).
          take (last + 1 - max start first) (drop (first - start) xs) ++ take a (drop b ys))
        (omega (arith, length-drop (first - start) xs)) (omega arith))

module _ (content : FileChunk → List ℕ) where
  -- Each chunk holds as many bytes as its record says.
  abbrev pub Sized : List FileChunk → Type 0
  Sized = All (λ c. length (content c) ≡ c.chunk_size)

  chunk_ranges-bytes :
      (start first last : ℕ) (cs : List FileChunk)
      → Sized cs
      → start + length (file_bytes content cs) < 2 ^ 63
      → last < 2 ^ 63
      → (plan : List (FileChunk × Option ChunkRange)) × (chunk_ranges start first last cs ≡ ok plan)
        × (download_bytes content plan
            ≡ take (last + 1 - max start first) (drop (first - start) (file_bytes content cs)))
  unfolding chunk_ranges download_bytes
  chunk_ranges-bytes start first last [] h small small' = (
    [],
    refl,
    take_none _ (drop (first - start) [])
        (omega (arith, length-drop (first - start) (let e : List ℕ = [] in e))),
  )
  chunk_ranges-bytes start first last (c ∷ cs) h small small' =
      let fits = length-append (content c) (file_bytes content cs) in
      let (r, e, p) = chunk_range-part start first last (content c) (omega (arith, fits)) small' in
      let (plan, f, q) =
        chunk_ranges-bytes (start + length (content c)) first last cs h.1 (omega (arith, fits))
          small' in
      (
        (c, r) ∷ plan,
        rw (← h.0, chunk_ranges) (rw e (rw f refl)),
        joined c r plan
            ∙ ap₂ ◌++◌ p q
            ∙ sym (slice-append start first last (content c) (file_bytes content cs)),
      )
    where
      joined :
          (c : FileChunk) (r : Option ChunkRange) (plan : List (FileChunk × Option ChunkRange))
          → download_bytes content ((c, r) ∷ plan)
            ≡ part (content c) r ++ download_bytes content plan
      joined c none plan = refl
      joined c (some r) plan = refl

  -- A download of the range from `first` to `last`, both included, never fails on the range of a
  -- chunk, and writes the bytes of the file from `first` on, up to and with `last`, or up to its
  -- end; if each chunk has the size that its record says, and the sizes fit the source's words.
  pub download_plan-bytes :
      (chunks : List FileChunk) (first last : ℕ)
      → Sized (sort_by_chunk_order chunks)
      → length (file_bytes content (sort_by_chunk_order chunks)) < 2 ^ 63
      → last < 2 ^ 63
      → (plan : List (FileChunk × Option ChunkRange)) × (download_plan chunks (some (first, last))
          ≡ ok plan)
        × (download_bytes content plan
            ≡ take
                (last + 1 - first)
                (drop first (file_bytes content (sort_by_chunk_order chunks))))
  unfolding download_plan
  download_plan-bytes chunks first last h small small' =
      let (plan, e, p) =
        chunk_ranges-bytes 0 first last (sort_by_chunk_order chunks) h (omega arith) small' in
      (
        plan,
        e,
        p
            ∙ ap₂ (λ (a b : ℕ). take a (drop b (file_bytes content (sort_by_chunk_order chunks))))
                (omega arith) (omega arith),
      )

  whole_ranges :
      (cs : List FileChunk)
      → download_bytes content (map (λ c. (c, some whole_range)) cs) ≡ file_bytes content cs
  unfolding download_bytes
  whole_ranges [] = refl
  whole_ranges (c ∷ cs) = ap₂ ◌++◌ (outbound_bytes-whole (content c)) (whole_ranges cs)

  -- A download without a range writes the bytes of all chunks, in their order.
  download_plan-whole :
      (chunks : List FileChunk)
      → (plan : List (FileChunk × Option ChunkRange)) × (download_plan chunks none ≡ ok plan)
        × (download_bytes content plan ≡ file_bytes content (sort_by_chunk_order chunks))
  unfolding download_plan
  download_plan-whole chunks = (_, refl, whole_ranges (sort_by_chunk_order chunks))
