-- ===== src/Ledger/State.antt =====
-- The state of `InternalLedger` (node/src/io/fragment_ledger.rs) and what it calls outside the
-- repository. Ids are `Uuid`s as numbers, instants are nanoseconds of one clock, sizes are `u64`s.
use meowith.Base.{ℕ, ◌+◌, ◌-◌, ◌*◌, ◌%◌, ◌^◌, Bool, true, false, Option}
use meowith.Base.Dict.{Dict}
use meowith.Base.Result.{Result}

-- `MeowithIoError`, without the boxed cause of `Internal`.
pub data MeowithIoError : Type 0 where
  not_found internal invalid_data_dir insufficient_disk_space paused : MeowithIoError

abbrev pub MeowithIoResult {ℓ} : Type ℓ → Type ℓ
MeowithIoResult A = Result MeowithIoError A

pub record Reservation : Type 0 where
  pub file_space : ℕ
  pub completed : ℕ
  pub durable : Bool
  pub last_update : ℕ

pub record FragmentMeta : Type 0 where
  pub disk_content_size : ℕ
  pub disk_physical_size : ℕ

pub record CommitInfo : Type 0 where
  pub access : ℕ

pub record ExtFragmentMeta : Type 0 where
  pub bucket_id : ℕ
  pub file_id : ℕ

-- `get_path`: below the data directory a fragment's file is named by its id, and ends in
-- `.uncommited` while the fragment is not committed.
pub data FilePath : Type 0 where
  committed : ℕ → FilePath
  uncommitted : ℕ → FilePath

abbrev pub get_path : ℕ → Bool → FilePath
get_path id true = uncommitted id
get_path id false = committed id

-- The file system (`tokio::fs`, the `filesize` crate) and the store behind the trait
-- `ExtFragmentMetaStore` (a `sled` database). `none` is an error of the call.
pub record Env : Type 1 where
  pub Files : Type 0
  pub remove_file : FilePath → Files → Option Files
  pub rename : FilePath → FilePath → Files → Option Files
  pub size_on_disk : FilePath → Files → Option ℕ
  pub MetaStore : Type 0
  pub meta_insert : ℕ → ExtFragmentMeta → MetaStore → MeowithIoResult MetaStore
  pub meta_get : ℕ → MetaStore → MeowithIoResult ExtFragmentMeta
  -- Each caller drops the result of `remove`.
  pub meta_remove : ℕ → MetaStore → MetaStore

pub record Ledger (E : Env) : Type 0 where
  pub chunk_set : Dict FragmentMeta
  pub reservation_map : Dict Reservation
  pub uncommited_map : Dict CommitInfo
  pub ext_metadata_store : Option E.MetaStore
  pub max_physical_size : ℕ
  pub disk_physical_size : ℕ
  pub disk_content_size : ℕ
  pub disk_reserved_size : ℕ
  pub paused : Bool
  pub files : E.Files

-- `AtomicU64::fetch_add` and `fetch_sub` wrap around.
abbrev pub u64_mod : ℕ
u64_mod = 2 ^ 64

abbrev pub fetch_add : ℕ → ℕ → ℕ
fetch_add a b = (a + b) % u64_mod

abbrev pub fetch_sub : ℕ → ℕ → ℕ
fetch_sub a b = (a + (u64_mod - b % u64_mod)) % u64_mod

-- `DURABLE_UPLOAD_SESSION_VALIDITY_TIME_SECS`, as a duration.
abbrev pub validity_time : ℕ
validity_time = 3600 * 1_000_000_000
