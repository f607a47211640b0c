-- ===== src/Session/Resume.antt =====
-- Where an upload goes on: `handle_upload_durable` and `resume_upload_session` of
-- node/src/public/service/file_access_service.rs, and what `inbound_transfer` of
-- file_io_service.rs writes. A chunk of another node is taken to be written as one of this node is.
use meowith.Base.{
  ℕ, suc, ◌+◌, ◌-◌, Bool, false, Option, none, some, List, [], ◌∷◌, ◌++◌, length, take, drop, ltb,
  ◌==◌, if◌then◌else◌,
}
use meowith.Base.Result.{ok, err}
use meowith.Files.Model.{FileChunk}
use meowith.Reservation.Reserve.{internal_error, bad_request}
use meowith.Session.State.{NodeClientResponse}

abbrev pub unwrap_or_zero : Option ℕ → ℕ
unwrap_or_zero none = 0
unwrap_or_zero (some n) = n

-- `try_join_all`, and the sum.
abbrev pub add_query : NodeClientResponse (Option ℕ) → NodeClientResponse ℕ → NodeClientResponse ℕ
add_query (err e) rest = err e
add_query (ok size) (err e) = err e
add_query (ok size) (ok rest) = ok (unwrap_or_zero size + rest)

abbrev pub sum_queries : List (NodeClientResponse (Option ℕ)) → NodeClientResponse ℕ
sum_queries [] = ok 0
sum_queries (q ∷ qs) = add_query q (sum_queries qs)

-- The first chunk that is not full: its index, and how many bytes it has.
unfoldable pub position : (curr already_uploaded idx : ℕ) → List FileChunk → Option (ℕ × ℕ)
position curr already_uploaded idx [] = none
position curr already_uploaded idx (c ∷ cs) =
    let next = position (curr + c.chunk_size) already_uploaded (suc idx) cs in
    if ltb already_uploaded (curr + c.chunk_size)
    then some (idx, c.chunk_size - (curr + c.chunk_size - already_uploaded))
    else next

-- How the transfer of a chunk is interrupted: before its stream is open, or when some bytes have been
-- written.
pub data Interruption : Type 0 where
  unopened : Interruption
  after : ℕ → Interruption

-- A chunk takes the bytes of the reader that it has no room for yet, behind what it has or in place
-- of it; it is an error if the reader has fewer.
abbrev pub inbound :
    (append : Bool) (missing : ℕ) (content reader : List ℕ)
    → Option Interruption
    → List ℕ × NodeClientResponse (Unit {0})
inbound append missing content reader none = (
  (if append then content else []) ++ take missing reader,
  if length (take missing reader) == missing then ok tt else err bad_request,
)
inbound append missing content reader (some unopened) = (content, err internal_error)
inbound append missing content reader (some (after n)) =
    ((if append then content else []) ++ take n (take missing reader), err internal_error)

-- The interruption of the next transfer, and those of the others; behind the end there is none.
abbrev pub next_interruption : List (Option Interruption) → Option Interruption
next_interruption [] = none
next_interruption (i ∷ is) = i

abbrev pub later_interruptions : List (Option Interruption) → List (Option Interruption)
later_interruptions [] = []
later_interruptions (i ∷ is) = is

-- The other chunks are as they were if the transfer of this one fails.
abbrev pub then_others :
    List ℕ × NodeClientResponse (Unit {0})
    → List (List ℕ)
    → List (List ℕ) × NodeClientResponse (Unit {0})
    → List (List ℕ) × NodeClientResponse (Unit {0})
then_others (held, ok _) contents (rest, r) = (held ∷ rest, r)
then_others (held, err e) contents rest = (held ∷ contents, err e)

-- The loop over the chunks that are left, with what each of them holds; an error ends it.
unfoldable pub transfer_all :
    (first : Bool) (skip : ℕ)
    → List FileChunk
    → List (List ℕ)
    → (reader : List ℕ) → List (Option Interruption)
    → List (List ℕ) × NodeClientResponse (Unit {0})
transfer_all first skip (c ∷ cs) (content ∷ contents) reader is =
    let rest =
      transfer_all false 0 cs contents (drop (c.chunk_size - skip) reader)
        (later_interruptions is) in
    then_others (inbound first (c.chunk_size - skip) content reader (next_interruption is)) contents
      rest
transfer_all first skip _ contents reader is = (contents, ok tt)

-- Every error of the transfers is answered as a bad request.
abbrev pub as_bad_request : NodeClientResponse (Unit {0}) → NodeClientResponse (Unit {0})
as_bad_request (ok _) = ok tt
as_bad_request (err _) = err bad_request

abbrev pub with_first :
    (i : ℕ)
    → List (List ℕ)
    → List (List ℕ) × NodeClientResponse (Unit {0})
    → List (List ℕ) × NodeClientResponse (Unit {0})
with_first i contents (rest, r) = (take i contents ++ rest, as_bad_request r)

abbrev pub transfer_from :
    (already_uploaded : ℕ)
    → Option (ℕ × ℕ)
    → List FileChunk
    → List (List ℕ)
    → (reader : List ℕ) → List (Option Interruption)
    → List (List ℕ) × NodeClientResponse (Unit {0})
transfer_from already_uploaded none chunks contents reader is = (contents, err internal_error)
transfer_from already_uploaded (some (i, skip)) chunks contents reader is =
    let first = ltb 0 already_uploaded in
    with_first i contents
      (transfer_all first (if first then skip else 0) (drop i chunks) (drop i contents) reader is)

-- What the chunks hold after the rest of an upload.
unfoldable pub upload_rest :
    (uploaded : ℕ)
    → List FileChunk
    → List (List ℕ)
    → (reader : List ℕ) → List (Option Interruption)
    → List (List ℕ) × NodeClientResponse (Unit {0})
unfolding position transfer_all
upload_rest already_uploaded chunks contents reader is =
    transfer_from already_uploaded (position 0 already_uploaded 0 chunks) chunks contents reader is

unfoldable pub upload_after :
    NodeClientResponse ℕ
    → (size : ℕ) → List FileChunk
    → List (List ℕ)
    → (reader : List ℕ) → List (Option Interruption)
    → List (List ℕ) × NodeClientResponse (Unit {0})
unfolding upload_rest
upload_after (err e) size chunks contents reader is = (contents, err e)
upload_after (ok already_uploaded) size chunks contents reader is =
    if already_uploaded == size
    then (contents, ok tt)
    else upload_rest already_uploaded chunks contents reader is

-- Data that comes to a session of `size` bytes, whose chunks hold `contents`, and whose nodes answer
-- the queries of the chunks.
unfoldable pub upload :
    (size : ℕ)
    → List FileChunk
    → List (NodeClientResponse (Option ℕ))
    → List (List ℕ)
    → (reader : List ℕ) → List (Option Interruption)
    → List (List ℕ) × NodeClientResponse (Unit {0})
unfolding upload_after
upload size chunks queries contents reader is =
    upload_after (sum_queries queries) size chunks contents reader is
