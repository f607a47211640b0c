-- ===== src/Lib.antt =====
-- Verification of Meowith, a distributed file store: nodes keep fragments of files on their disks,
-- transfer them over the protocol MDSFTP, and serve the files of buckets to clients.
--
-- The parts that are modelled, and where.
--
-- * Ledger is node/src/io/fragment_ledger.rs: which fragments a node has, which are reserved, which
--   wait for a commit, and how much space that takes. `Ledger` is `InternalLedger`; each method is
--   a function of its name in Ledger/Ops.antt and Ledger/Sweep.antt (the housekeeper). The disk and
--   the metadata store are the parameter `Env`. The atomic counters wrap around at 2^64. A method
--   is one step, since it holds the write lock of the map that it changes first; History runs
--   methods in any order. An operator `+` or `-` of the source on a `u64` wraps, as in a release
--   build.
-- * Locking is node/src/locking: the table of locks by fragment, whose semaphore is the parameter
--   `Semaphore` with the laws `IsLawful`. The drop of a guard has two steps, `begin_drop` for
--   `Drop::drop` and `end_drop` for the permits, and the removal of an entry that it may spawn is a
--   third. `Step` interleaves them with attempts on the table.
-- * Transfer is the transfer of a fragment between nodes. Upload is
--   node/src/file_transfer/transfer_manager.rs, with acknowledgements as a list of what the channel
--   will deliver; a wait ends with that list. Receive is `handle_file_chunk` of
--   node/src/file_transfer/channel_handler.rs. ChunkRange is from protocol/src/mdsftp/data.rs.
-- * Files is the download of a file: the plan of `handle_download` in
--   node/src/public/service/file_access_service.rs, and what `outbound_transfer` in
--   node/src/public/service/file_io_service.rs copies of each chunk.
-- * Reservation is node/src/public/service/reservation_service.rs: Targets chooses the nodes that
--   take a file's bytes (`resolve_targets`, `push_most_used`), Reserve reserves on each and cancels
--   all when one fails (`reserve_chunks`, `try_reserve_chunk`), with `AppState` of node/src/lib.rs
--   and its refresh of the storage map. Local targets go to the ledger of Ledger; channels to other
--   nodes and the controller are the parameter `Peers`. A call reads the clock once, and takes its
--   fresh ids from a function of the number of fragments so far.
-- * Wire is the format of packets: the header of protocol/src/mdsftp/net/wire.rs, the types of
--   protocol/src/mdsftp/net/packet_type.rs with the conversions that `num_enum` derives, and the
--   flags of protocol/src/mdsftp/data.rs. Message has the payloads: `payload` is what the sender
--   methods of protocol/src/mdsftp/channel.rs write, `read_payload` what `handle_packet` reads.
--   Stream is protocol/src/mdsftp/net/packet_writer.rs and the loop of packet_reader.rs beside it,
--   up to the dispatch. Bytes are numbers.
-- * Channel is a connection between two nodes. Pending has the requests that wait on a channel and
--   the answers to them (`InternalMDSFTPChannel`); Connection the map and the counter of channels
--   (`PacketReader`) with protocol/src/mdsftp/connection.rs; Dispatch what the reader does with a
--   packet; Pool the choice of a connection in protocol/src/mdsftp/pool.rs. The random ids, the
--   result of a TLS connection, the tasks that still wait and the handler of a channel are
--   arguments.
-- * Handler is the whole of node/src/file_transfer/channel_handler.rs, over the ledger and the lock
--   table. `World` is the node's state as one handler sees it, an `Op` is an operation on it that
--   may fail, and `Io` has the calls of the file system and of the connection, each of which may
--   fail. Transfers and Requests have a function for each handler of a message, and Messages chooses
--   it.
-- * Session is the durable upload: State has the sessions, their lock and their reserved space
--   (node/src/public/service/durable_transfer_session_manager.rs, over the table of
--   data/src/access/file_access.rs), Resume where `handle_upload_durable` of
--   node/src/public/service/file_access_service.rs goes on and what the chunks hold afterwards, when
--   the nodes give the answers and the transfers the interruptions that are its arguments (a chunk
--   of another node is taken to be written as one of this node is), and Handle the states that it
--   takes the session through.
-- * Permission is commons/src/permission/check.rs over data/src/model/permission_model.rs: Words has
--   the operators on words of a width, Lists the conversions between lists and words, and Access
--   the two checks, `has_permission` of node/src/public/middleware/user_middleware.rs and
--   `has_app_permission` of dashboard/src/public/service/mod.rs. What the database gives is an
--   argument.
-- * Bucket is the tree of directories and files of a bucket. Paths is data/src/pathlib.rs on lists of
--   bytes; State and Tables are the rows of one bucket and the statements of
--   data/src/access/file_access.rs on them. A list says what becomes of each statement: it works, it
--   fails, or it takes effect although its answer is an error. The counters of the bucket are `i64`s
--   and are changed in between by a list of other tasks' changes. Both lists are in the `World` that
--   every request goes through. Directories, Files, Listing and Upload are
--   directory_action_service.rs, file_action_service.rs, file_list_service.rs and the uploads of
--   file_access_service.rs in node/src/public/service. What the other components answer to an upload
--   (`Calls`), the nodes that are reached, and what a batch leaves of a row that it deletes and
--   inserts are arguments.
-- * Base has the shared lists, maps, tests on numbers and results, and Tests runs the definitions.
--
-- They meet as follows. An upload reserves its space by `reserve_chunks`, on the ledger of this
-- node and of others. A download sends the range of each chunk by `mdsftp_upload`; the receiver
-- releases the reservation of the ledger when the last packet came; every file is opened under a
-- guard of the lock table. The packets of a connection go from `write_packets` to `read_packets`, by
-- `dispatch` to a channel, and there to the task that waits or to the handler. The services of a
-- bucket decide by `has_permission` of Permission; an upload there takes the fragments that
-- Reservation chose, and the chunks that it lists are those that a download plans from.
--
-- Most loops are structural: over the list of marked ids, over the packets still to send, over the
-- acknowledgements to come, over the chunks. Four take fuel. The reader takes it for the bytes that
-- are still to come: each round takes a header of nine bytes, and as many rounds as there are
-- packets, and one, are enough. The walk over a directory tree takes as many rounds as there are
-- directory rows, and one. `try_mkdir` goes up a path at most as many times as the path has bytes,
-- since each segment has one. The update of the counters of a bucket has the 2048 attempts of the
-- source. A wait whose acknowledgements run out is the error `interrupted`, as when the channel is
-- closed. Times are nanoseconds, and ids are numbers for `Uuid`s; a fresh id is an argument.
--
-- Not modelled: the scan of the data directory at boot, the content of files on disk, the sweep of
-- stale connections and the closing of the pool, the tables of the database that hold no directory,
-- file, bucket or upload, the controller, the rest of the dashboard, configuration and HTTP. Logging,
-- the progress counter of an upload, and the errors of a file that is sought or read for an upload are
-- left out.
pub mod Base
pub mod Ledger
pub mod Locking
pub mod Transfer
pub mod Files
pub mod Reservation
pub mod Wire
pub mod Channel
pub mod Handler
pub mod Session
pub mod Permission
pub mod Bucket
pub mod Tests
