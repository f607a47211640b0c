-- ===== src/Handler/State.antt =====
-- The state of `MeowithMDSFTPChannelPacketHandler` with the ledger and the locks that it shares
-- with the other handlers of the node, and a monad for its operations.
use meowith.Base.{ℕ, Bool, true, false, Option, none, List, [], ◌∷◌, ◌++◌}
use meowith.Base.Result.{ok, err}
use meowith.Ledger.State.{Env, Ledger, FilePath, MeowithIoResult}
use meowith.Locking.Table.{Semaphore, FileLockTable}
use meowith.Transfer.Upload.{MdsftpResult, MdsftpError, ChunkRange}
use meowith.Wire.Message.{Sent}

-- Where received bytes go: the file of a fragment, or the stream of a download.
pub data Target : Type 0 where
  fragment : (chunk_id : ℕ) → Target
  output : Target

-- Where the bytes of an upload come from.
pub data Source : Type 0 where
  fragment_file : (chunk_id : ℕ) → Source
  input : Source

pub record ReservationDetails : Type 0 where
  pub id : ℕ
  pub size : ℕ
  pub durable : Bool

-- Guards are named by numbers; a sender or a token is there or not.
pub record MeowithMdsftpChannelPacketHandler : Type 0 where
  pub read_guard : Option ℕ
  pub write_guard : Option ℕ
  pub recv_ack_sender : Bool
  pub chunk_buffer : ℕ
  pub fragment_size : ℕ
  pub reservation_details : Option ReservationDetails
  pub auto_close : Bool
  pub receive_file_stream : Option Target
  pub upload_file_stream : Option Source
  pub upload_local_file_stream : Option Source
  pub upload_cancel : Bool
  pub data_transferred : ℕ

abbrev pub new_handler : (chunk_buffer fragment_size : ℕ) → MeowithMdsftpChannelPacketHandler
new_handler chunk_buffer fragment_size = record {
  read_guard = none;
  write_guard = none;
  recv_ack_sender = false;
  chunk_buffer = chunk_buffer;
  fragment_size = fragment_size;
  reservation_details = none;
  auto_close = true;
  receive_file_stream = none;
  upload_file_stream = none;
  upload_local_file_stream = none;
  upload_cancel = false;
  data_transferred = 0;
}

-- What goes out of the handler: calls of its channel, an upload that it starts or cancels, and an
-- acknowledgement that it passes on to the upload.
pub data Effect : Type 0 where
  sent : Sent → Effect
  handler_closed : MdsftpResult (Unit {0}) → Effect
  upload_started : Option Source → (size chunk_buffer : ℕ) (range : Option ChunkRange) → Effect
  upload_cancelled : Effect
  ack_passed : ℕ → Effect

-- The calls of `tokio` that the handler makes: opening, writing and closing files and the stream of
-- a download, where `none` is an error, and the error of sending on the channel. The stream of a
-- download takes some of the bytes that are written, and it is an error if these are not all.
pub record Io (E : Env) : Type 0 where
  pub open_read : FilePath → E.Files → Bool
  pub open_write : FilePath → E.Files → Option E.Files
  pub open_append : FilePath → E.Files → Option E.Files
  pub write_all : FilePath → List ℕ → E.Files → Option E.Files
  pub shutdown : FilePath → E.Files → Option E.Files
  pub flush : FilePath → E.Files → Option E.Files
  pub output_takes : List ℕ → ℕ
  pub output_ends : Bool
  pub send : Sent → Option MdsftpError

module _ (E : Env) (M : Semaphore) (max_readers : ℕ) where
  pub record World : Type 0 where
    pub ledger : Ledger E
    pub locks : FileLockTable M max_readers
    pub next_guard : ℕ
    pub received : List ℕ
    pub handler : MeowithMdsftpChannelPacketHandler
    pub effects : List Effect

  abbrev pub Op : Type 0 → Type 0
  Op A = World → World × MdsftpResult A

module _ {E : Env} {M : Semaphore} {max_readers : ℕ} where
  unfoldable pub pure : {A : Type 0} → A → Op E M max_readers A
  pure a w = (w, ok a)

  unfoldable pub raise : {A : Type 0} → MdsftpError → Op E M max_readers A
  raise e w = (w, err e)

  unfoldable pub go_on :
      {A B : Type 0}
      → (A → Op E M max_readers B)
      → World E M max_readers × MdsftpResult A
      → World E M max_readers × MdsftpResult B
  go_on f (w, ok a) = f a w
  go_on f (w, err e) = (w, err e)

  infixl 5 ◌>>=◌ ◌>>◌
  unfoldable pub ◌>>=◌ :
      {A B : Type 0} → Op E M max_readers A → (A → Op E M max_readers B) → Op E M max_readers B
  (m >>= f) w = go_on f (m w)

  unfoldable pub ◌>>◌ :
      {B : Type 0} → Op E M max_readers (Unit {0}) → Op E M max_readers B → Op E M max_readers B
  m >> k = m >>= λ _. k

  unfoldable pub gets : {A : Type 0} → (World E M max_readers → A) → Op E M max_readers A
  gets f w = (w, ok (f w))

  unfoldable pub modify :
      (MeowithMdsftpChannelPacketHandler → MeowithMdsftpChannelPacketHandler)
      → Op E M max_readers (Unit {0})
  modify f w = (record w { handler = f w.handler }, ok tt)

  unfoldable pub emit : Effect → Op E M max_readers (Unit {0})
  emit e w = (record w { effects = w.effects ++ e ∷ [] }, ok tt)

  -- A call of the ledger, whose result is looked at, or turned into an error.
  unfoldable pub on_ledger :
      {A : Type 0}
      → (Ledger E → Ledger E × MeowithIoResult A)
      → Op E M max_readers (MeowithIoResult A)
  on_ledger f w = let (l, r) = f w.ledger in (record w { ledger = l }, ok r)

  unfoldable pub or_error : {A : Type 0} → MdsftpError → MeowithIoResult A → Op E M max_readers A
  or_error e (ok a) w = (w, ok a)
  or_error e (err _) w = (w, err e)
