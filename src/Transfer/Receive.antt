-- ===== src/Transfer/Receive.antt =====
-- The receiving side: `handle_file_chunk` of channel_handler.rs, for a channel that was prepared
-- by `start_receiving` or `delegate_download`.
use meowith.Base.{
  ℕ, ◌+◌, ◌%◌, ◌^◌, Bool, true, false, Option, none, some, List, [], ◌∷◌, ◌++◌, length,
  if◌then◌else◌,
}
use meowith.Base.Result.{ok, err}
use meowith.Transfer.Upload.{
  Packet, MdsftpResult, MdsftpError, connection_error, internal, reservation_error,
}

-- The fields of `MeowithMDSFTPChannelPacketHandler` that a file chunk changes: the open stream,
-- as the bytes written to it, and the count; and what it did, in order.
pub data Event : Type 0 where
  released : (id size : ℕ) → Event
  acknowledged : ℕ → Event
  closed : Event

-- `receive_file_stream` tells whether the stream is there, `target` holds the bytes written to it.
pub record Receiver : Type 0 where
  pub receive_file_stream : Bool
  pub target : List ℕ
  pub data_transferred : ℕ
  pub reservation_details : Option (ℕ × ℕ)
  pub events : List Event

-- What the calls of a file chunk outside the handler return: whether the write, and the shutdown
-- or flush of the stream, succeed; whether the reservation is released; the error of an answer.
pub record Outcomes : Type 0 where
  pub write_all : Bool
  pub close_stream : Bool
  pub release : Bool
  pub respond : Option MdsftpError

abbrev pub log : Event → Receiver → Receiver
log e r = record r { events = r.events ++ e ∷ [] }

abbrev pub acknowledge_last : Outcomes → ℕ → Receiver → Receiver × MdsftpResult (Unit {0})
acknowledge_last o id r = elim o.respond [
  | some e ↦ (r, err e)
  | none ↦ (log closed (log (acknowledged id) r), ok tt)
]

-- After the last chunk: release the reservation, acknowledge, close.
abbrev pub finish_receiving : Outcomes → ℕ → Receiver → Receiver × MdsftpResult (Unit {0})
finish_receiving o id r = elim r.reservation_details [
  | some (chunk, size) ↦
      if o.release
      then acknowledge_last o id (log (released chunk size) r)
      else (r, err reservation_error)
  | none ↦ acknowledge_last o id r
]

abbrev pub write_chunk : Packet → Receiver → Receiver
write_chunk p r = record r {
  target = r.target ++ p.content;
  data_transferred = (r.data_transferred + length p.content) % 2 ^ 64;
}

unfoldable pub handle_file_chunk : Outcomes → Packet → Receiver → Receiver × MdsftpResult (Unit {0})
handle_file_chunk o p r =
    if r.receive_file_stream
    then (if o.write_all
        then (if p.is_last
            then (if o.close_stream
                then finish_receiving o p.id
                    (record (write_chunk p r) { receive_file_stream = false })
                else (log closed (write_chunk p r), err internal))
            else elim o.respond [
              | some e ↦ (write_chunk p r, err e)
              | none ↦ (log (acknowledged p.id) (write_chunk p r), ok tt)
            ])
        else (log closed r, err internal))
    else (r, err connection_error)

abbrev pub no_failure : Outcomes
no_failure = record { write_all = true; close_stream = true; release = true; respond = none }

-- The packets of a channel, in the order of the connection, while nothing fails.
unfoldable pub receive_all : List Packet → Receiver → Receiver
receive_all [] r = r
receive_all (p ∷ ps) r = receive_all ps (handle_file_chunk no_failure p r).0
