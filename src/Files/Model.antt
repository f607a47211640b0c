-- ===== src/Files/Model.antt =====
-- The chunks of a file, and their order.
use meowith.Base.{ℕ, List, [], ◌∷◌, leb, if◌then◌else◌}

pub record FileChunk : Type 0 where
  pub server_id : ℕ
  pub chunk_id : ℕ
  pub chunk_size : ℕ
  pub chunk_order : ℕ

-- `sort_by_key(|c| c.chunk_order)`, a stable sort.
unfoldable pub insert_chunk : FileChunk → List FileChunk → List FileChunk
insert_chunk c [] = c ∷ []
insert_chunk c (d ∷ ds) =
    if leb c.chunk_order d.chunk_order then c ∷ d ∷ ds else d ∷ insert_chunk c ds

unfoldable pub sort_by_chunk_order : List FileChunk → List FileChunk
sort_by_chunk_order [] = []
sort_by_chunk_order (c ∷ cs) = insert_chunk c (sort_by_chunk_order cs)
