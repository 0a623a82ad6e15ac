-- ===== src/Examples/Connections.antt =====
-- Connections, clients and the listener.
use laguna.Prelude.{
  zero, Bool-cases, inl, inr, ◌==◌, ℕ, suc, ◌+◌, ◌≤◌, List, [], ◌∷◌, ◌++◌, length, Bytes, codes,
  Bool, true, false, none, some, ◌≡◌, ◌≢◌, refl, Error, eof, canceled, errors_new, Result, ok, err,
  arith, All, Option,
}
use laguna.Prelude.Int.{ℤ, pos}
use laguna.Utils.Context.{Ctx, background}
use laguna.Utils.Retry.{Waits}
use laguna.Utils.Semaphore.{new_semaphore}
use laguna.Query.{new_query, get_method_id}
use laguna.Query.Builder.{parse_tokens}
use laguna.Query.Builder.Lines.{IsWord}
use laguna.Storage.Laws.{value, new_lem}
use laguna.Database.{Database, log_query}
use laguna.Database.Exec.{effects}
use laguna.Handlers.{Input, Server}
use laguna.Transport.Connection.{looping, closed, handle_connection}
use laguna.Transport.Connection.Session.{
  Command, IsCommand, requests, replies, queries, Accepts, connection_serves,
}
use laguna.Transport.Connection.Ending.{connection_ends, canceled_connection}
use laguna.Transport.Client.{Client, send}
use laguna.Transport.Client.Sending.{send_reconnects}
use laguna.Transport.Listener.{TcpConf, TcpListener, new_listener, accepting, Event, events}
use laguna.Transport.Listener.Bounds.{listener_bound}
use laguna.Examples.Stores.{set_command, memory_wal, empty_storage}
use laguna.Examples.Clients.{server}
use laguna.Examples.Runs.{first_wal, first_db, answered_log}

-- SET k v, and then GET k.
abbrev two_commands : List Command
two_commands =
    record { word = codes "SET"; words = codes "k" ∷ (codes "v" ∷ []); query = set_command }
    ∷ (record {
      word = codes "GET";
      words = codes "k" ∷ [];
      query = new_query get_method_id (codes "k" ∷ []);
    }
        ∷ [])

set-IsWord : All IsWord (codes "SET" ∷ (codes "k" ∷ (codes "v" ∷ [])))
set-IsWord = omega arith

get-IsWord : All IsWord (codes "GET" ∷ (codes "k" ∷ []))
get-IsWord = omega arith

set_parsed : parse_tokens (codes "SET" ∷ (codes "k" ∷ (codes "v" ∷ []))) ≡ ok set_command
unfolding parse_tokens laguna.Prelude.str_eq
set_parsed = refl

get_parsed :
    parse_tokens (codes "GET" ∷ (codes "k" ∷ [])) ≡ ok (new_query get_method_id (codes "k" ∷ []))
unfolding parse_tokens laguna.Prelude.str_eq
get_parsed = refl

two_commands-IsCommand : All IsCommand two_commands
two_commands-IsCommand = ((set-IsWord, set_parsed), ((get-IsWord, get_parsed), tt))

-- The log over segment files takes both: the first is written, and the second is none of its queries.
two_commands-Accepts : Accepts first_wal background (queries two_commands) first_db
unfolding Accepts log_query laguna.Database.set_in_wal laguna.Database.execute laguna.Storage.set
    laguna.Storage.Memory.engine_set laguna.Storage.Memory.set_key laguna.Storage.Memory.get_shard
    laguna.Storage.new laguna.Storage.Memory.new_engine laguna.Storage.Memory.new_in_memory
    laguna.Storage.Memory.shard_id laguna.Storage.Memory.sum64 laguna.Wal.FileLog.write_call
    laguna.Wal.FileLog.wait_response laguna.Wal.Worker.run laguna.Wal.Worker.turn
    laguna.Wal.Worker.new_wal laguna.Wal.Worker.flush_now laguna.Wal.Flush.flush
    laguna.Wal.Flush.flush_write laguna.Utils.Retry.with_retry laguna.Utils.Retry.retry_loop
    laguna.Logs.Writer.write_to laguna.Segment.Opening.new_segment_manager
    laguna.Utils.IdGenerator.new laguna.Utils.IdGenerator.next_id laguna.Segment.Manager.write
    laguna.Segment.Manager.create_batch laguna.Wal.Row.marshal laguna.Wal.Row.marshal_args
    laguna.Prelude.Binary.put_be laguna.Segment.Manager.process_batches laguna.Segment.Manager.fits
    laguna.Segment.Manager.batch_size laguna.Segment.Manager.write_batch
    laguna.Segment.Manager.write_in_seg laguna.Segment.Manager.lock
    laguna.Segment.Manager.file_write laguna.Segment.Manager.flatten
    laguna.Segment.Manager.entries_loop laguna.Utils.Future.Deadline.get_response_with_deadline
    laguna.Utils.Future.Deadline.get_response
two_commands-Accepts = ((answered_log, refl), ((answered_log, refl), tt))

abbrev file_server : Server first_wal
file_server = record { db = first_db; sent = []; failure = none }

abbrev no_net_error : Error → Bool
no_net_error e = false

connection_serves_example :
    (s' : Server first_wal) × (handle_connection first_wal no_net_error background 3
        (record { bytes = requests two_commands; status = eof })
        file_server
      ≡ (s', closed))
    × (s'.sent ≡ [] ++ replies (queries two_commands) (value empty_storage))
    × ((j : Bytes) → value s'.db.st j ≡ effects (queries two_commands) (value empty_storage) j)
unfolding laguna.Handlers.is_eof_error
connection_serves_example =
    connection_serves first_wal no_net_error background eof two_commands file_server refl refl
      two_commands-IsCommand two_commands-Accepts refl (new_lem (pos 3)).0 refl

-- Two lines that are no commands, and a torn one.
abbrev noise : Input
noise = record { bytes = codes "a\nb\nc"; status = eof }

connection_ends_example :
    (handle_connection memory_wal no_net_error background 3 noise server).1 ≢ looping
unfolding laguna.Handlers.is_eof_error
connection_ends_example = connection_ends memory_wal no_net_error background noise server refl refl

abbrev done_ctx : Ctx
done_ctx = record { err = some canceled; tx = none }

canceled_connection_example :
    handle_connection memory_wal no_net_error done_ctx 1000 noise server ≡ (server, looping)
unfolding laguna.Handlers.is_eof_error
canceled_connection_example =
    canceled_connection memory_wal no_net_error done_ctx canceled 1000 noise server refl refl refl

-- A network that remembers what was written; the connection 0 is broken, and the next one has the number 1.
abbrev Written : Type 0
Written = List (ℕ × Bytes)

abbrev dial_next : Bytes → Written → Written × Result ℕ
dial_next address n = (n, ok 1)

abbrev take_deadline : ℕ → ℤ → Written → Written × Result (Unit {0})
take_deadline conn deadline n = (n, ok tt)

abbrev write_unless_broken : ℕ → Bytes → Written → Written × Result (Unit {0})
write_unless_broken zero req n = (n, err (errors_new (codes "broken pipe")))
write_unless_broken (suc conn) req n = ((suc conn, req) ∷ n, ok tt)

abbrev broken_client : Client Written ℕ dial_next take_deadline write_unless_broken
broken_client = record {
  conn = some 0;
  address = codes "master";
  resp_size = pos 4096;
  deadline = pos 5;
  retry_count = pos 3;
  net = [];
}

abbrev no_wait : Waits
no_wait n = none

send_reconnects_example :
    send Written ℕ dial_next take_deadline write_unless_broken background no_wait
      (codes "request")
      broken_client
    ≡ (record broken_client { conn = some 1; net = [] }, ok 1)
send_reconnects_example =
    send_reconnects Written ℕ dial_next take_deadline write_unless_broken background no_wait
      (codes "request") broken_client 0 1 (errors_new (codes "broken pipe")) [] [] [] refl refl refl
      refl refl

abbrev one_at_a_time : TcpConf
one_at_a_time = record {
  address = [];
  max_conn = pos 1;
  max_message_size = pos 0;
  idle_timeout = pos 0;
  sem_wait_timeout = pos 0;
}

abbrev one_listener : TcpListener
one_listener = record {
  address = codes "0.0.0.0:8080";
  max_conn = pos 1;
  max_msg_size = pos 4096;
  idle_timeout = pos 300000000000;
  sem_wait_timeout = pos 5000000000;
  sem = new_semaphore 1;
}

one_listener_made : new_listener one_at_a_time ≡ ok one_listener
unfolding new_listener
one_listener_made = refl

-- Two clients at once, and a third one behind the first.
abbrev three_clients : List Event
three_clients =
    Event.connected (ok tt) true
    ∷ (Event.connected (ok tt) true ∷ (Event.served 0 ∷ (Event.connected (ok tt) true ∷ [])))

listener_bound_example :
    (length (events three_clients (accepting one_listener)).serving ≤ 1)
    × ((events three_clients (accepting one_listener)).sem.taken
        ≡ length (events three_clients (accepting one_listener)).serving)
    × (length (events three_clients (accepting one_listener)).serving
          + (length (events three_clients (accepting one_listener)).shut
              + length (events three_clients (accepting one_listener)).dropped)
        ≡ (events three_clients (accepting one_listener)).accepted)
listener_bound_example =
    listener_bound one_at_a_time one_listener 1 three_clients one_listener_made refl
