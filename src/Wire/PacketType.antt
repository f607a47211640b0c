-- ===== src/Wire/PacketType.antt =====
-- The packet types, with the numbers that the derived conversions give them.
use meowith.Base.{
  ◌^◌, ◌<◌, ℕ, ◌+◌, List, [], ◌∷◌, ◌≡◌, ◌↔◌, refl, sym, ap, ◌∙◌, subst, inl, inr, Bool-cases, Bool,
  Option, none, some, arith, leb, ◌==◌, if◌then◌else◌,
}

pub data MdsftpPacketType : Type 0 where
  file_chunk retrieve put recv_ack delete_chunk reserve reserve_cancel : MdsftpPacketType
  reserve_ok reserve_err lock_req lock_acquire lock_err put_ok put_err : MdsftpPacketType
  commit commit_ok commit_err query query_response : MdsftpPacketType
  channel_open channel_close channel_err : MdsftpPacketType

-- `IntoPrimitive`.
unfoldable pub to_u8 : MdsftpPacketType → ℕ
to_u8 file_chunk = 1
to_u8 retrieve = 2
to_u8 put = 3
to_u8 recv_ack = 4
to_u8 delete_chunk = 5
to_u8 reserve = 6
to_u8 reserve_cancel = 7
to_u8 reserve_ok = 8
to_u8 reserve_err = 9
to_u8 lock_req = 10
to_u8 lock_acquire = 11
to_u8 lock_err = 12
to_u8 put_ok = 13
to_u8 put_err = 14
to_u8 commit = 15
to_u8 commit_ok = 16
to_u8 commit_err = 17
to_u8 query = 18
to_u8 query_response = 19
to_u8 channel_open = 128
to_u8 channel_close = 129
to_u8 channel_err = 130

unfoldable pub is_system : MdsftpPacketType → Bool
unfolding to_u8
is_system t = leb 128 (to_u8 t)

unfoldable pub payload_size : MdsftpPacketType → ℕ
payload_size file_chunk = 6
payload_size retrieve = 34
payload_size put = 25
payload_size recv_ack = 4
payload_size reserve = 9 + 16 + 16
payload_size reserve_cancel = 16
payload_size reserve_ok = 18
payload_size reserve_err = 8
payload_size lock_req = 17
payload_size lock_acquire = 17
payload_size lock_err = 17
payload_size channel_open = 0
payload_size channel_close = 0
payload_size channel_err = 0
payload_size delete_chunk = 16
payload_size put_ok = 2
payload_size put_err = 1
payload_size commit = 17
payload_size query = 16
payload_size query_response = 9
payload_size commit_ok = 0
payload_size commit_err = 1

abbrev pub all_types : List MdsftpPacketType
all_types =
    file_chunk ∷ retrieve ∷ put ∷ recv_ack ∷ delete_chunk ∷ reserve ∷ reserve_cancel ∷ reserve_ok
    ∷ reserve_err ∷ lock_req ∷ lock_acquire ∷ lock_err ∷ put_ok ∷ put_err ∷ commit ∷ commit_ok
    ∷ commit_err ∷ query ∷ query_response ∷ channel_open ∷ channel_close ∷ channel_err ∷ []

-- `TryFromPrimitive`: the type of this number.
abbrev pub find_type : ℕ → List MdsftpPacketType → Option MdsftpPacketType
unfolding to_u8
find_type n [] = none
find_type n (t ∷ ts) = if to_u8 t == n then some t else find_type n ts

unfoldable pub try_from_u8 : ℕ → Option MdsftpPacketType
unfolding find_type
try_from_u8 n = find_type n all_types

find_type-to_u8 :
    (n : ℕ) (ts : List MdsftpPacketType) (t : MdsftpPacketType)
    → find_type n ts ≡ some t
    → to_u8 t ≡ n
unfolding find_type
find_type-to_u8 n [] t h = absurd (ground arith)
find_type-to_u8 n (u ∷ ts) t h = elim (Bool-cases (to_u8 u == n)) [
  | inl e ↦ ap (λ o. elim o [ none ↦ 0 | some v ↦ to_u8 v ]) (sym (rw e at h)) ∙ ground arith
  | inr e ↦ find_type-to_u8 n ts t (rw e at h)
]

try_from_u8-to_u8 : (t : MdsftpPacketType) → try_from_u8 (to_u8 t) ≡ some t
unfolding try_from_u8 to_u8
try_from_u8-to_u8 file_chunk = refl
try_from_u8-to_u8 retrieve = refl
try_from_u8-to_u8 put = refl
try_from_u8-to_u8 recv_ack = refl
try_from_u8-to_u8 delete_chunk = refl
try_from_u8-to_u8 reserve = refl
try_from_u8-to_u8 reserve_cancel = refl
try_from_u8-to_u8 reserve_ok = refl
try_from_u8-to_u8 reserve_err = refl
try_from_u8-to_u8 lock_req = refl
try_from_u8-to_u8 lock_acquire = refl
try_from_u8-to_u8 lock_err = refl
try_from_u8-to_u8 put_ok = refl
try_from_u8-to_u8 put_err = refl
try_from_u8-to_u8 commit = refl
try_from_u8-to_u8 commit_ok = refl
try_from_u8-to_u8 commit_err = refl
try_from_u8-to_u8 query = refl
try_from_u8-to_u8 query_response = refl
try_from_u8-to_u8 channel_open = refl
try_from_u8-to_u8 channel_close = refl
try_from_u8-to_u8 channel_err = refl

-- A byte is read as a packet type exactly if it is the number of that type, so no two types share
-- a number.
pub try_from_u8_lem : (n : ℕ) (t : MdsftpPacketType) → (try_from_u8 n ≡ some t) ↔ (to_u8 t ≡ n)
unfolding try_from_u8
try_from_u8_lem n t = (
  λ h. find_type-to_u8 n all_types t h,
  λ h. subst (λ m. try_from_u8 m ≡ some t) h (try_from_u8-to_u8 t),
)

pub to_u8-lt : (t : MdsftpPacketType) → to_u8 t < 2 ^ 8
unfolding to_u8
to_u8-lt t = ground arith
