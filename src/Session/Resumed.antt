-- ===== src/Session/Resumed.antt =====
-- What a resumed upload leaves in the chunks.
use meowith.Base.{
  ℕ, zero, suc, ◌+◌, ◌-◌, ◌<◌, ◌≤◌, ◌≡◌, refl, sym, ap, ◌∙◌, ◌⊎◌, inl, inr, true, Bool-cases, subst,
  Option, some, List, [], ◌∷◌, arith, length, drop, ltb, ◌==◌, if◌then◌else◌, length-drop,
}
use meowith.Base.Result.{ok}
use meowith.Files.Model.{FileChunk}
use meowith.Reservation.Reserve.{bad_request}
use meowith.Session.State.{NodeClientResponse}
use meowith.Session.Resume.{
  Interruption, position, transfer_all, with_first, as_bad_request, upload_rest, upload,
  upload_after, sum_queries,
}
use meowith.Session.Slices.{total_size, filled, drop-drop, take-take_more, filled_all}
use meowith.Session.Transfers.{Ends, more-Ends, transfer_all-Ends}

as_bad_request-Ends :
    (n : ℕ) (file : List ℕ) (cs : List FileChunk) (is : List (Option Interruption))
    (p : List (List ℕ) × NodeClientResponse (Unit {0}))
    → Ends n file cs is p
    → Ends n file cs is (p.0, as_bad_request p.1)
as_bad_request-Ends n file cs is (contents, r) (inl (e, f)) = inl (e, ap as_bad_request f)
as_bad_request-Ends n file cs is (contents, r) (inr (m, e, ge, le, held, f, i)) =
    inr (m, bad_request, ge, le, held, ap as_bad_request f, i)

-- What the loop does from a position on.
abbrev go_on_at :
    (n : ℕ)
    → List FileChunk
    → List (List ℕ)
    → (reader : List ℕ) → List (Option Interruption)
    → ℕ × ℕ
    → List (List ℕ) × NodeClientResponse (Unit {0})
unfolding transfer_all
go_on_at n cs contents reader is (i, skip) =
    with_first i contents
      (transfer_all (ltb 0 n) (if ltb 0 n then skip else 0) (drop i cs) (drop i contents) reader is)

appends : (n k : ℕ) → k ≤ n → (ltb 0 n ≡ true) ⊎ (k ≡ 0)
appends zero k h = inr (omega arith)
appends (suc n) k h = inl (ground arith)

-- From the first chunk with room for more, of chunks behind `curr` bytes that are full.
upload_rest_from :
    (curr n idx : ℕ) (cs : List FileChunk) (file : List ℕ) (is : List (Option Interruption))
    → curr ≤ n
    → n < curr + total_size cs
    → length file ≡ total_size cs
    → (i : ℕ) × (skip : ℕ) × (position curr n idx cs ≡ some (idx + i, skip))
      × Ends
          (n - curr)
          file
          cs
          is
          (go_on_at n cs (filled (n - curr) file cs) (drop (n - curr) file) is (i, skip))
unfolding position go_on_at
upload_rest_from curr n idx [] file is le lt whole = absurd (omega arith)
upload_rest_from curr n idx (c ∷ cs) file is le lt whole =
    elim (Bool-cases (ltb n (curr + c.chunk_size))) [
      | inl room ↦
          let skip : c.chunk_size - (curr + c.chunk_size - n) ≡ n - curr = ground arith in
          let same : (if ltb 0 n then n - curr else 0) ≡ n - curr = ground arith in
          let same_idx : idx + 0 ≡ idx = omega arith in
          (
            0,
            n - curr,
            rw room (λ j. some (sym same_idx j, skip j)),
            rw same (
                as_bad_request-Ends (n - curr) file (c ∷ cs) is _ (
                  transfer_all-Ends (ltb 0 n) (n - curr) (c ∷ cs) file is (ground arith)
                    (appends n (n - curr) (omega arith)) whole)),
          )
      | inr full ↦
          let (i, skip, e, rest) =
            upload_rest_from (curr + c.chunk_size) n (suc idx) cs (drop c.chunk_size file) is
              (ground arith) (omega arith) (omega (arith, length-drop c.chunk_size file)) in
          let next_idx : suc idx + i ≡ idx + suc i = omega arith in
          let left : n - curr - c.chunk_size ≡ n - (curr + c.chunk_size) = omega arith in
          let behind : c.chunk_size + (n - (curr + c.chunk_size)) ≡ n - curr = ground arith in
          let bytes : drop (n - curr) file
              ≡ drop (n - (curr + c.chunk_size)) (drop c.chunk_size file) =
            sym (
              drop-drop (n - (curr + c.chunk_size)) c.chunk_size file
              ∙ ap (λ k. drop k file) behind) in
          (
            suc i,
            skip,
            rw full (e ∙ λ j. some (next_idx j, skip)),
            rw (left, bytes, take-take_more (n - curr) c.chunk_size file (ground arith))
                (more-Ends (n - curr) (n - (curr + c.chunk_size)) file c cs is is _ (omega arith)
                  refl rest),
          )
    ]

upload_rest-Ends :
    (n : ℕ) (file : List ℕ) (cs : List FileChunk) (is : List (Option Interruption))
    → n < total_size cs
    → length file ≡ total_size cs
    → Ends n file cs is (upload_rest n cs (filled n file cs) (drop n file) is)
unfolding upload_rest go_on_at
upload_rest-Ends n file cs is lt whole =
    let (i, skip, e, rest) = upload_rest_from 0 n 0 cs file is (omega arith) (omega arith) whole in
    let start : n - 0 ≡ n = omega arith in
    let index : 0 + i ≡ i = omega arith in
    let at : position 0 n 0 cs ≡ some (i, skip) = e ∙ λ j. some (index j, skip) in
    rw at (
      subst (λ m. Ends m file cs is (go_on_at n cs (filled m file cs) (drop m file) is (i, skip)))
        start rest)

-- An upload whose first `n` bytes are in the chunks, in their order, that is given the bytes behind
-- them, and whose nodes answer `n` bytes in all: either it succeeds, and each chunk holds its part
-- of the file; or a transfer was interrupted, it fails, and the chunks hold the first bytes of the
-- file in their order, no fewer than before. So it is wherever the upload had stopped, within a
-- chunk, between two, before the first byte or after the last, if the chunks have room for exactly
-- the file.
pub upload-Ends :
    (n : ℕ) (file : List ℕ) (chunks : List FileChunk)
    (queries : List (NodeClientResponse (Option ℕ))) (is : List (Option Interruption))
    → length file ≡ total_size chunks
    → n ≤ total_size chunks
    → sum_queries queries ≡ ok n
    → Ends n file chunks is
        (upload (total_size chunks) chunks queries (filled n file chunks) (drop n file) is)
unfolding upload upload_after
upload-Ends n file chunks queries is whole le answered =
    rw answered (elim (Bool-cases (n == total_size chunks)) [
      | inl done ↦ rw done (inl (filled_all n file chunks (ground arith), refl))
      | inr more ↦ rw more (upload_rest-Ends n file chunks is (ground arith) whole)
    ])
