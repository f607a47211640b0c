-- ===== src/Channel/Pending.antt =====
-- Requests that wait on a channel: `InternalMDSFTPChannel` of protocol/src/mdsftp/channel.rs. A
-- sender of tokio's is the number of the task that holds its receiver.
use meowith.Base.{ℕ, Bool, true, false, Option, none, some, List, [], ◌∷◌, ◌++◌, if◌then◌else◌}
use meowith.Base.Result.{ok, err}
use meowith.Locking.Table.{LockKind}
use meowith.Transfer.Upload.{
  MdsftpResult, MdsftpError, remote_error, no_such_chunk_id, interrupted, reserve_error,
}
use meowith.Wire.PacketType.{MdsftpPacketType}
use meowith.Wire.Message.{
  ChunkErrorKind, Sent, Message, read_payload, request_lock, try_reserve, query_chunk, request_put,
  lock_acquire, lock_err, reserve_ok, reserve_err, put_ok, put_err, query_response, commit_err,
  commit_ok,
}
use meowith.Wire.Stream.{MdsftpRawPacket}
use meowith.Wire.Delivery.{raw_packet}

-- The kinds of request; a channel waits for one answer of each kind.
pub data Kind : Type 0 where
  lock reserve put query commit : Kind

pub record InternalMdsftpChannel : Type 0 where
  pub id : ℕ
  pub incoming_handler : Bool
  pub handler_sender : Option ℕ
  pub lock_sender : Option ℕ
  pub reserve_sender : Option ℕ
  pub put_sender : Option ℕ
  pub query_sender : Option ℕ
  pub commit_sender : Option ℕ

abbrev pub new_channel : ℕ → InternalMdsftpChannel
new_channel id = record {
  id = id;
  incoming_handler = false;
  handler_sender = none;
  lock_sender = none;
  reserve_sender = none;
  put_sender = none;
  query_sender = none;
  commit_sender = none;
}

-- The sender of a kind, and the channel with another one.
abbrev pub sender : Kind → InternalMdsftpChannel → Option ℕ
sender lock c = c.lock_sender
sender reserve c = c.reserve_sender
sender put c = c.put_sender
sender query c = c.query_sender
sender commit c = c.commit_sender

abbrev pub set_sender : Kind → Option ℕ → InternalMdsftpChannel → InternalMdsftpChannel
set_sender lock tx c = record c { lock_sender = tx }
set_sender reserve tx c = record c { reserve_sender = tx }
set_sender put tx c = record c { put_sender = tx }
set_sender query tx c = record c { query_sender = tx }
set_sender commit tx c = record c { commit_sender = tx }

-- What a task that waits is given: the result of its request, or the end of the handler.
pub data Answer : Type 0 where
  lock_acquire_result : (kind : LockKind) (chunk_id : ℕ) → Answer
  reserve_result : (chunk_id chunk_buffer : ℕ) → Answer
  put_result : (chunk_buffer : ℕ) → Answer
  query_result : (size : ℕ) → Answer
  commit_result : Answer
  failed : MdsftpError → Answer
  handler_closed : MdsftpResult (Unit {0}) → Answer

abbrev pub Deliveries : Type 0
Deliveries = List (ℕ × Answer)

abbrev pub deliver_to : Option ℕ → Answer → Deliveries
deliver_to none a = []
deliver_to (some task) a = (task, a) ∷ []

-- `From<ChunkErrorKind> for MDSFTPError`.
abbrev pub into_error : ChunkErrorKind → MdsftpError
into_error ChunkErrorKind.not_available = remote_error
into_error ChunkErrorKind.not_found = no_such_chunk_id

-- The sender methods that wait for an answer.
abbrev pub request_kind : Sent → Option Kind
request_kind (request_lock _ _) = some lock
request_kind (try_reserve _ _ _ _) = some reserve
request_kind (request_put _ _ _) = some put
request_kind (query_chunk _) = some query
request_kind (Sent.commit _ _) = some commit
request_kind _ = none

-- A waiting sender that is replaced is dropped, and its task is told that it was interrupted.
abbrev pub await_answer :
    ℕ → Option Kind → InternalMdsftpChannel → InternalMdsftpChannel × Deliveries
await_answer task none c = (c, [])
await_answer task (some k) c =
    (set_sender k (some task) c, deliver_to (sender k c) (failed interrupted))

-- The call of a sender method by `task`: the channel, the packet that goes out, and the tasks that
-- are told.
unfoldable pub call :
    ℕ → Sent → InternalMdsftpChannel → InternalMdsftpChannel × MdsftpRawPacket × Deliveries
call task s c =
    let (c', told) = await_answer task (request_kind s) c in (c', raw_packet (c.id, s), told)

-- The kind of the requests that a packet answers, and the answer in it.
abbrev pub response_kind : MdsftpPacketType → Option Kind
response_kind MdsftpPacketType.reserve_ok = some reserve
response_kind MdsftpPacketType.reserve_err = some reserve
response_kind MdsftpPacketType.lock_acquire = some lock
response_kind MdsftpPacketType.lock_err = some lock
response_kind MdsftpPacketType.put_err = some put
response_kind MdsftpPacketType.put_ok = some put
response_kind MdsftpPacketType.commit_err = some commit
response_kind MdsftpPacketType.commit_ok = some commit
response_kind MdsftpPacketType.query_response = some query
response_kind _ = none

abbrev pub answer_of : Message → Option Answer
answer_of (reserve_ok chunk_id chunk_buffer) = some (reserve_result chunk_id chunk_buffer)
answer_of (reserve_err max_space) = some (failed (reserve_error max_space))
answer_of (lock_acquire kind chunk_id) = some (lock_acquire_result kind chunk_id)
answer_of (lock_err kind) = some (failed (into_error kind))
answer_of (put_err kind) = some (failed (into_error kind))
answer_of (put_ok chunk_buffer) = some (put_result chunk_buffer)
answer_of (commit_err kind) = some (failed (into_error kind))
answer_of commit_ok = some commit_result
answer_of (query_response (some size)) = some (query_result size)
answer_of (query_response none) = some (failed no_such_chunk_id)
answer_of _ = none

-- What a packet does to the channel: tasks are told, or the handler is given a message.
pub record Handled : Type 0 where
  pub channel : InternalMdsftpChannel
  pub told : Deliveries
  pub forwarded : Option Message

abbrev pub quiet : InternalMdsftpChannel → Handled
quiet c = record { channel = c; told = []; forwarded = none }

-- A task that no longer waits makes `tx.send(..).await.unwrap()` panic, which is `none`.
abbrev pub tell :
    (waits : ℕ → Bool) → Option ℕ → Option Answer → InternalMdsftpChannel → Option Handled
tell waits none a c = some (quiet c)
tell waits (some task) none c = some (quiet c)
tell waits (some task) (some a) c =
    if waits task
    then some (record { channel = c; told = (task, a) ∷ []; forwarded = none })
    else none

abbrev pub forward : MdsftpResult Message → InternalMdsftpChannel → MdsftpResult Handled
forward (err e) c = err e
forward (ok m) c = ok (record { channel = c; told = []; forwarded = some m })

abbrev pub panic_or : Option Handled → Option (MdsftpResult Handled)
panic_or none = none
panic_or (some h) = some (ok h)

abbrev pub read_answer : MdsftpResult Message → Option Answer
read_answer (err e) = none
read_answer (ok m) = answer_of m

abbrev pub handle_as :
    (waits : ℕ → Bool)
    → Option Kind
    → MdsftpResult Message
    → InternalMdsftpChannel
    → Option (MdsftpResult Handled)
handle_as waits (some k) m c =
    panic_or (tell waits (sender k c) (read_answer m) (set_sender k none c))
handle_as waits none m c = some (if c.incoming_handler then forward m c else ok (quiet c))

unfoldable pub handle_packet :
    (waits : ℕ → Bool) → MdsftpRawPacket → InternalMdsftpChannel → Option (MdsftpResult Handled)
handle_packet waits p c =
    handle_as waits (response_kind p.packet_type) (read_payload p.packet_type p.payload) c

-- `mark_handler_closed`.
unfoldable pub mark_handler_closed :
    MdsftpResult (Unit {0}) → InternalMdsftpChannel → InternalMdsftpChannel × Deliveries
mark_handler_closed result c =
    (record c { handler_sender = none }, deliver_to c.handler_sender (handler_closed result))

abbrev pub interrupts_handler : Option ℕ → Bool → Bool
interrupts_handler none handler = false
interrupts_handler (some _) handler = handler

-- `interrupt`: the tasks that are told, and whether the handler's `handle_interrupt` is called. The
-- channel keeps its senders.
unfoldable pub interrupt : InternalMdsftpChannel → Deliveries × Bool
interrupt c = (
  deliver_to c.lock_sender (failed interrupted)
      ++ deliver_to c.reserve_sender (failed interrupted)
      ++ deliver_to c.put_sender (failed interrupted)
      ++ deliver_to c.query_sender (failed interrupted)
      ++ deliver_to c.commit_sender (failed interrupted)
      ++ deliver_to c.handler_sender (handler_closed (ok tt)),
  interrupts_handler c.handler_sender c.incoming_handler,
)

-- `set_incoming_handler`, and what `send_content` and `retrieve_content` do to the channel: a new
-- handler, and a task that waits for its end. A sender that is replaced tells nothing.
unfoldable pub set_incoming_handler : ℕ → InternalMdsftpChannel → InternalMdsftpChannel
set_incoming_handler task c = record c { handler_sender = some task; incoming_handler = true }
