-- ===== src/Files/Download.antt =====
-- `handle_download` of file_access_service.rs, from the chunks and the satisfiable range on, and
-- the bytes that `outbound_transfer` (file_io_service.rs) copies for each chunk.
use Prim.Native.Nat.{min, max}
use meowith.Base.{
  ℕ, ◌+◌, ◌-◌, not, ◌||◌, Option, none, some, List, [], ◌∷◌, ◌++◌, map, take, drop, leb, ◌==◌,
  if◌then◌else◌,
}
use meowith.Base.Result.{ok, ◌>>=◌}
use meowith.Transfer.Upload.{ChunkRange, MdsftpResult, new_range, range_size, into_option}
use meowith.Files.Model.{FileChunk, sort_by_chunk_order}

abbrev pub whole_range : ChunkRange
whole_range = record { start = 0; end = 0 }

-- One round of the loop over the chunks. The source's inclusive ends, `i64`s that can be -1, are
-- kept here as one more: `end'` is `end + 1`, and the bytes asked for go up to `last`.
unfoldable pub chunk_range : (start size first last : ℕ) → MdsftpResult (Option ChunkRange)
chunk_range start size first last =
    let end' = start + size in
    let in_range_start = max start first in
    let in_range_end' = min end' (last + 1) in
    if leb in_range_end' in_range_start
    then ok none
    else if not (in_range_end' == end') || not (in_range_start == start)
    then (new_range (in_range_start - start) (in_range_end' - start) >>= λ r. ok (some r))
    else ok (some whole_range)

unfoldable pub chunk_ranges :
    (start first last : ℕ) → List FileChunk → MdsftpResult (List (FileChunk × Option ChunkRange))
chunk_ranges start first last [] = ok []
chunk_ranges start first last (c ∷ cs) = chunk_range start c.chunk_size first last >>= λ r.
    chunk_ranges (start + c.chunk_size) first last cs >>= λ rs. ok ((c, r) ∷ rs)

-- The chunks to send with their ranges; `range` is what `to_satisfiable_range` returned.
unfoldable pub download_plan :
    List FileChunk → Option (ℕ × ℕ) → MdsftpResult (List (FileChunk × Option ChunkRange))
download_plan chunks none = ok (map (λ c. (c, some whole_range)) (sort_by_chunk_order chunks))
download_plan chunks (some (first, last)) = chunk_ranges 0 first last (sort_by_chunk_order chunks)

-- The bytes of one chunk under its range, `none` being the whole chunk.
unfoldable pub outbound_bytes : List ℕ → Option ChunkRange → List ℕ
outbound_bytes bytes none = bytes
outbound_bytes bytes (some r) = take (range_size r) (drop r.start bytes)

-- The spawned loop: what it writes, with the bytes of the chunks as `content`.
unfoldable pub download_bytes : (FileChunk → List ℕ) → List (FileChunk × Option ChunkRange) → List ℕ
download_bytes content [] = []
download_bytes content ((c, none) ∷ plan) = download_bytes content plan
download_bytes content ((c, some r) ∷ plan) =
    outbound_bytes (content c) (into_option r) ++ download_bytes content plan
