-- ===== src/Wire/Header.antt =====
-- The header of a packet: an id of one byte, and two words of four bytes, the first byte highest.
use meowith.Base.{
  ℕ, ◌+◌, ◌*◌, ◌/◌, ◌%◌, ◌^◌, ◌≤◌, ◌<◌, ◌≡◌, refl, Option, none, some, List, [], ◌∷◌, ◌++◌, arith,
  length, take, drop, leb, if◌then◌else◌,
}

abbrev pub header_size : ℕ
header_size = 9

pub record MdsftpHeader : Type 0 where
  pub packet_id : ℕ
  pub stream_id : ℕ
  pub payload_size : ℕ

-- `u32::to_be_bytes` and `u32::from_be_bytes`.
abbrev pub to_be_bytes : ℕ → List ℕ
to_be_bytes n = n / 2 ^ 24 % 2 ^ 8 ∷ n / 2 ^ 16 % 2 ^ 8 ∷ n / 2 ^ 8 % 2 ^ 8 ∷ n % 2 ^ 8 ∷ []

abbrev pub from_be_bytes : (a b c d : ℕ) → ℕ
from_be_bytes a b c d = a * 2 ^ 24 + b * 2 ^ 16 + c * 2 ^ 8 + d

-- An array of nine bytes; `none` is a list of another length, which no caller has.
unfoldable pub read_header : List ℕ → Option MdsftpHeader
read_header (p ∷ a ∷ b ∷ c ∷ d ∷ e ∷ f ∷ g ∷ h ∷ []) = some (record {
  packet_id = p;
  stream_id = from_be_bytes a b c d;
  payload_size = from_be_bytes e f g h;
})
read_header _ = none

-- The buffer after the write; `none` is the panic on a buffer that is too short.
unfoldable pub write_header : MdsftpHeader → List ℕ → Option (List ℕ)
write_header h buf =
    if leb header_size (length buf)
    then some (
        h.packet_id ∷ to_be_bytes h.stream_id ++ to_be_bytes h.payload_size ++ drop header_size buf)
    else none

-- The fields of a header fit their types.
pub record FitsTypes (h : MdsftpHeader) : Type 0 where
  pub small_packet_id : h.packet_id < 2 ^ 8
  pub small_stream_id : h.stream_id < 2 ^ 32
  pub small_payload_size : h.payload_size < 2 ^ 32

from_be_bytes-to_be_bytes :
    (n : ℕ)
    → n < 2 ^ 32
    → from_be_bytes (n / 2 ^ 24 % 2 ^ 8) (n / 2 ^ 16 % 2 ^ 8) (n / 2 ^ 8 % 2 ^ 8) (n % 2 ^ 8) ≡ n
from_be_bytes-to_be_bytes n small = omega arith

header_path :
    (h : MdsftpHeader) {m n : ℕ}
    → m ≡ h.stream_id
    → n ≡ h.payload_size
    → some (record { packet_id = h.packet_id; stream_id = m; payload_size = n }) ≡ some h
header_path h e f = rw (e, f) refl

pub read_header-bytes :
    (h : MdsftpHeader)
    → FitsTypes h
    → read_header (h.packet_id ∷ to_be_bytes h.stream_id ++ to_be_bytes h.payload_size) ≡ some h
unfolding read_header
read_header-bytes h fits =
    header_path h (from_be_bytes-to_be_bytes h.stream_id fits.small_stream_id)
      (from_be_bytes-to_be_bytes h.payload_size fits.small_payload_size)

-- A header whose fields fit their types, written to a buffer of at least nine bytes, is read back
-- from its first nine bytes, and the bytes behind them are those of the buffer.
read_header-write_header :
    (h : MdsftpHeader) (buf : List ℕ)
    → FitsTypes h
    → header_size ≤ length buf
    → (out : List ℕ) × (write_header h buf ≡ some out)
      × (read_header (take header_size out) ≡ some h)
      × (drop header_size out ≡ drop header_size buf)
unfolding read_header write_header
read_header-write_header h buf fits enough = (
  h.packet_id ∷ to_be_bytes h.stream_id ++ to_be_bytes h.payload_size ++ drop header_size buf,
  ground arith,
  read_header-bytes h fits,
  refl,
)
