-- ===== src/Tests/Handler.antt =====
-- Channels of a node whose ledger is kept in memory.
use meowith.Base.{ℕ, ◌+◌, ◌*◌, ◌≡◌, refl, true, Option, none, some, [], ◌∷◌, arith, length}
use meowith.Base.Dict.{lookup, insert}
use meowith.Ledger.State.{FilePath, committed, uncommitted, Reservation}
use meowith.Ledger.Ops.{existing_or_reserved_fragment_meta, refresh_reservation, resume_reservation}
use meowith.Locking.Table.{new_table, try_lock, acquire}
use meowith.Handler.State.{
  Io, World, new_handler, ◌>>=◌, ◌>>◌, go_on, gets, modify, emit, on_ledger, pure, raise,
}
use meowith.Handler.Streams.{
  respond_with, respond, attempt, set_guard, locked_or, with_files, on_files, open_stream,
  start_receiving, write_all,
}
use meowith.Handler.Transfers.{
  close_failed, or_close, after_write, receive_chunk, handle_file_chunk, accept_put, put_resumed,
  handle_put,
}
use meowith.Handler.Requests.{handle_interrupt}
use meowith.Handler.Committed.{handle_commit-clean_uncommitted}
use meowith.Handler.Requests.{handle_commit}
use meowith.Ledger.Sweep.{clean_uncommitted}
use meowith.Ledger.State.{FragmentMeta}
use meowith.Handler.Interrupted.{receive_chunks, interrupt_forgets}
use meowith.Tests.Ledger.{memory, busy}
use meowith.Tests.Locking.{counting}

abbrev path_code : FilePath → ℕ
path_code (committed id) = 2 * id
path_code (uncommitted id) = 2 * id + 1

abbrev size_of : Option ℕ → ℕ
size_of none = 0
size_of (some n) = n

abbrev memory_io : Io memory
memory_io = record {
  open_read = λ p fs. true;
  open_write = λ p fs. some (insert (path_code p) 0 fs);
  open_append = λ p fs. some fs;
  write_all = λ p bytes fs.
      some (insert (path_code p) (size_of (lookup (path_code p) fs) + length bytes) fs);
  shutdown = λ p fs. some fs;
  flush = λ p fs. some fs;
  output_takes = length;
  output_ends = true;
  send = λ s. none;
}

abbrev node : World memory counting 2
node = record {
  ledger = busy;
  locks = new_table counting 2;
  next_guard = 0;
  received = [];
  handler = new_handler 10 4;
  effects = [];
}

-- Fragment 4 is stored and waits for its commit.
abbrev stored_4 : FragmentMeta
stored_4 = record { disk_content_size = 90; disk_physical_size = 100 }

abbrev waiting : World memory counting 2
waiting = record node {
  ledger = record busy {
    chunk_set = (4, stored_4) ∷ [];
    uncommited_map = (4, record { access = 0 }) ∷ (3, record { access = 0 }) ∷ [];
  };
}

handle_commit-clean_uncommitted_example :
    lookup 4
      (clean_uncommitted 7_200_000_000_000
        (handle_commit memory_io 50 4
          (record { reject = true; keep_alive = true; final = true })
          waiting).0.ledger).0.chunk_set
    ≡ some stored_4
unfolding lookup
handle_commit-clean_uncommitted_example =
    handle_commit-clean_uncommitted memory_io 50 7_200_000_000_000 4
      (record { reject = true; keep_alive = true; final = true }) waiting stored_4 refl refl

-- Fragment 2 has 100 of its 300 bytes.
abbrev half : Reservation
half = record { file_space = 300; completed = 100; durable = true; last_update = 0 }

abbrev half_done : World memory counting 2
half_done = record node { ledger = record busy { reservation_map = (2, half) ∷ [] } }

-- It gets two more, and is then said to have two.
interrupt_forgets_example :
    existing_or_reserved_fragment_meta 2
      (handle_interrupt memory_io 60
        (receive_chunks memory_io 60 0
          ((1 ∷ 2 ∷ []) ∷ [])
          (handle_put memory_io 60 (record { append = true }) 2 200 half_done).0).0).0.ledger
    ≡ some (record { disk_content_size = 2; disk_physical_size = 0 })
unfolding lookup insert receive_chunks handle_put put_resumed accept_put resume_reservation
    refresh_reservation start_receiving attempt set_guard locked_or open_stream on_files with_files
    try_lock acquire ◌>>=◌ ◌>>◌ go_on gets modify emit on_ledger pure raise respond respond_with
    handle_file_chunk receive_chunk or_close close_failed write_all after_write
interrupt_forgets_example =
    interrupt_forgets memory_io 60 (record { append = true }) 2 200 ((1 ∷ 2 ∷ []) ∷ []) half
      half_done refl refl refl refl refl (omega arith)
