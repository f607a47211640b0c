-- ===== src/Ledger/Balance.antt =====
-- The counters of the ledger against its maps, and what one change of a map keeps of that.
use meowith.Base.{ℕ, ◌+◌, ◌%◌, ◌≡◌, ◌≢◌, none, some, arith}
use meowith.Base.Dict.{
  Dict, lookup, insert, remove, total, NodupKeys, lookup-insert, lookup-remove, insert-NodupKeys,
  remove-NodupKeys, total-insert_new, total-insert_same, total-remove,
}
use meowith.Ledger.State.{Env, Ledger, Reservation, FragmentMeta, u64_mod, fetch_add, fetch_sub}

abbrev pub file_space_of : Reservation → ℕ
file_space_of r = r.file_space

abbrev pub content_of : FragmentMeta → ℕ
content_of m = m.disk_content_size

abbrev pub physical_of : FragmentMeta → ℕ
physical_of m = m.disk_physical_size

-- The counters are the sums over the maps (of words), each map has an id at most once, and no
-- id is both reserved and stored.
pub record Balanced (chunks : Dict FragmentMeta) (reservations : Dict Reservation)
    (reserved content physical : ℕ) : Type 0 where
  pub reserved_sum : reserved ≡ total file_space_of reservations % u64_mod
  pub content_sum : content ≡ total content_of chunks % u64_mod
  pub physical_sum : physical ≡ total physical_of chunks % u64_mod
  pub reservations_once : NodupKeys reservations
  pub chunks_once : NodupKeys chunks
  pub apart : (k : ℕ) → lookup k reservations ≢ none → lookup k chunks ≡ none

abbrev pub Accounted : {E : Env} → Ledger E → Type 0
Accounted l =
    Balanced l.chunk_set l.reservation_map l.disk_reserved_size l.disk_content_size
      l.disk_physical_size

fetch_add-mod : (a n : ℕ) → fetch_add (a % u64_mod) n ≡ (a + n) % u64_mod
fetch_add-mod a n = omega arith

fetch_sub-mod : (a b n : ℕ) → b + n ≡ a → fetch_sub (a % u64_mod) n ≡ b % u64_mod
fetch_sub-mod a b n h = omega arith

module _ {cs : Dict FragmentMeta} {rs : Dict Reservation} {r c p : ℕ}
    (h : Balanced cs rs r c p) where
  open h use {reserved_sum, content_sum, physical_sum, reservations_once, chunks_once, apart}

  -- A reservation under an id that neither map has.
  pub reserve-Balanced :
      (id : ℕ) (v : Reservation)
      → lookup id rs ≡ none
      → lookup id cs ≡ none
      → Balanced cs (insert id v rs) (fetch_add r v.file_space) c p
  reserve-Balanced id v fresh_r fresh_c = record {
    reserved_sum =
        rw (reserved_sum, total-insert_new file_space_of id v rs fresh_r)
          (fetch_add-mod (total file_space_of rs) v.file_space);
    content_sum = content_sum;
    physical_sum = physical_sum;
    reservations_once = insert-NodupKeys id v rs reservations_once;
    chunks_once = chunks_once;
    apart = λ k present. ground (arith, lookup-insert id k v rs, apart k);
  }

  -- A reservation gone from the map and from the counter.
  pub unreserve-Balanced :
      (id : ℕ) (v : Reservation)
      → lookup id rs ≡ some v
      → Balanced cs (remove id rs) (fetch_sub r v.file_space) c p
  unreserve-Balanced id v found = record {
    reserved_sum = rw reserved_sum (
        fetch_sub-mod (total file_space_of rs) (total file_space_of (remove id rs)) v.file_space
          (total-remove file_space_of id v rs reservations_once found));
    content_sum = content_sum;
    physical_sum = physical_sum;
    reservations_once = remove-NodupKeys id rs reservations_once;
    chunks_once = chunks_once;
    apart = λ k present. ground (arith, lookup-remove id k rs, apart k);
  }

  -- A reservation changed in what the counter does not show.
  pub touch-Balanced :
      (id : ℕ) (v w : Reservation)
      → lookup id rs ≡ some v
      → w.file_space ≡ v.file_space
      → Balanced cs (insert id w rs) r c p
  touch-Balanced id v w found same = record {
    reserved_sum = rw (total-insert_same file_space_of id w v rs found same) reserved_sum;
    content_sum = content_sum;
    physical_sum = physical_sum;
    reservations_once = insert-NodupKeys id w rs reservations_once;
    chunks_once = chunks_once;
    apart = λ k present. ground (arith, lookup-insert id k w rs, apart k);
  }

  pub store-Balanced :
      (id : ℕ) (m : FragmentMeta)
      → lookup id rs ≡ none
      → lookup id cs ≡ none
      → Balanced
          (insert id m cs)
          rs
          r
          (fetch_add c m.disk_content_size)
          (fetch_add p m.disk_physical_size)
  store-Balanced id m fresh_r fresh_c = record {
    reserved_sum = reserved_sum;
    content_sum =
        rw (content_sum, total-insert_new content_of id m cs fresh_c)
          (fetch_add-mod (total content_of cs) m.disk_content_size);
    physical_sum =
        rw (physical_sum, total-insert_new physical_of id m cs fresh_c)
          (fetch_add-mod (total physical_of cs) m.disk_physical_size);
    reservations_once = reservations_once;
    chunks_once = insert-NodupKeys id m cs chunks_once;
    apart = λ k present. ground (arith, lookup-insert id k m cs, apart k);
  }

  pub unstore-Balanced :
      (id : ℕ) (m : FragmentMeta)
      → lookup id cs ≡ some m
      → Balanced
          (remove id cs)
          rs
          r
          (fetch_sub c m.disk_content_size)
          (fetch_sub p m.disk_physical_size)
  unstore-Balanced id m found = record {
    reserved_sum = reserved_sum;
    content_sum = rw content_sum (
        fetch_sub-mod (total content_of cs) (total content_of (remove id cs)) m.disk_content_size
          (total-remove content_of id m cs chunks_once found));
    physical_sum = rw physical_sum (
        fetch_sub-mod (total physical_of cs) (total physical_of (remove id cs)) m.disk_physical_size
          (total-remove physical_of id m cs chunks_once found));
    reservations_once = reservations_once;
    chunks_once = remove-NodupKeys id cs chunks_once;
    apart = λ k present. ground (arith, lookup-remove id k cs, apart k);
  }

-- A reservation that becomes a stored fragment of its size.
pub complete-Balanced :
    {cs : Dict FragmentMeta} {rs : Dict Reservation} {r c p : ℕ}
    → Balanced cs rs r c p
    → (id : ℕ) (v : Reservation) (n physical : ℕ) → lookup id rs ≡ some v
    → n ≡ v.file_space
    → Balanced
        (insert id (record { disk_content_size = n; disk_physical_size = physical }) cs)
        (remove id rs)
        (fetch_sub r n)
        (fetch_add c n)
        (fetch_add p physical)
complete-Balanced {cs} {rs} h id v n physical found same = rw same (
    store-Balanced (unreserve-Balanced h id v found) id
      (record { disk_content_size = v.file_space; disk_physical_size = physical })
      (ground (arith, lookup-remove id id rs)) (h.apart id (ground arith)))
