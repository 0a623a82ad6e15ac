-- ===== src/Examples/Runs.antt =====
-- Two runs of the program over one directory.
use laguna.Prelude.{
  ℕ, suc, ◌+◌, ◌<◌, ◌≤◌, ◌≡◌, refl, arith, List, [], ◌∷◌, ◌++◌, Bytes, codes, none, true, false,
  str_lt, ◌≢◌, err, non_read_op_slave, sym, ap, ◌∙◌, ok, All,
}
use laguna.Prelude.Int.{pos}
use laguna.Utils.Context.{background}
use laguna.Storage
use laguna.Storage.Memory.{new_engine, set_key}
use laguna.Storage.Laws.{value, new_lem}
use laguna.Wal.Restore.{query_of}
use laguna.Wal.Worker.{Turn, write, receive}
use laguna.Wal.FileLog.{FileLog, Wait, all_files, start_log}
use laguna.Wal.FileLog.Log.{file_log, file_wal_accepted}
use laguna.Wal.FileLog.Turns.{IsLoggable}
use laguna.Wal.FileLog.Quiet.{IsQuiet, queries_in, queries_in_lem}
use laguna.Wal.FileLog.Reopen.{Follows, first_start, first_log, first_log-IsQuiet}
use laguna.Database.{Wal, set_in_wal, execute, new_database}
use laguna.Database.Exec.{effect, effects}
use laguna.Database.Restore.{empty_view, Serves}
use laguna.Wal.FileLog.{file_wal, write_call, wait_response}
use laguna.Query.{set_method_id}
use laguna.Database.Refused.{refused_comes_back}
use laguna.Database.Lifetime.{Life, Life-values}
use laguna.Database.Durability.{Run, RunDatabase, RunIsDurable, RunServes, open_database, survives}
use laguna.Examples.Stores.{set_command, set_command-IsExecutable}
use laguna.Logs.Segments.Restart.{names_of}
use mathlib.Core.List.{map}

abbrev pub wal_dir : Bytes
wal_dir = codes "wal"

-- A batch size of one: the row is flushed when the worker receives it, which is behind the
-- registration of its future.
abbrev pub one_by_one : ℕ → List Turn
one_by_one i = write i ∷ (write i ∷ (write i ∷ (receive ∷ [])))

abbrev pub at_once : ℕ → Wait
at_once i = record { before = none; turns = []; after = none }

abbrev pub run_from : ℕ → Run
run_from n = record {
  size = 1;
  max_size = 1000;
  schedule = one_by_one;
  waits = at_once;
  clock = λ k. (n + suc k) ∷ [];
  fresh = n ∷ [];
}

abbrev pub first : Run
first = run_from 0

abbrev pub second : Run
second = run_from 7

pub first-Follows : Follows first.clock (first.fresh ∷ [])
unfolding str_lt
first-Follows = record { above = (λ k. ground arith, tt); grows = λ i j h. ground (arith, h) }

abbrev pub first_db : RunDatabase wal_dir first
first_db = record {
  st = Storage.new (new_engine (pos 3));
  wal = first_log first.clock first.max_size first.fresh;
  is_master = true;
}

abbrev pub first_wal : Wal
first_wal = file_wal first.size wal_dir first.schedule first.waits

abbrev written_db : RunDatabase wal_dir first
written_db = (execute first_wal background set_command first_db).0

pub none_logged : queries_in wal_dir (all_files first_db.wal) ≡ []
none_logged =
    let (quiet, empty) = first_log-IsQuiet first.fresh first.max_size first.clock first-Follows in
    queries_in_lem wal_dir first_db.wal quiet ∙ ap (map query_of) empty

first_db-IsDurable : RunIsDurable wal_dir first first_db
first_db-IsDurable = record {
  on = refl;
  master = refl;
  valid = (new_lem (pos 3)).0;
  good = (first_log-IsQuiet first.fresh first.max_size first.clock first-Follows).0;
  executable = rw none_logged tt;
  replayed = λ j. rw none_logged (unfold effects in sym ((new_lem (pos 3)).1 j));
}

set_is_answered_here : (execute first_wal background set_command first_db).1 ≡ ok (codes "OK")
unfolding execute Storage.set laguna.Storage.Memory.engine_set set_key
    laguna.Storage.Memory.get_shard Storage.new new_engine laguna.Storage.Memory.new_in_memory
    laguna.Storage.Memory.shard_id laguna.Storage.Memory.sum64 laguna.Wal.FileLog.write_call
    laguna.Wal.FileLog.wait_response laguna.Wal.Worker.run laguna.Wal.Worker.turn
    laguna.Wal.Worker.new_wal laguna.Wal.Worker.flush_now laguna.Wal.Flush.flush
    laguna.Wal.Flush.flush_write laguna.Utils.Retry.with_retry laguna.Utils.Retry.retry_loop
    laguna.Logs.Writer.write_to laguna.Segment.Opening.new_segment_manager
    laguna.Utils.IdGenerator.new laguna.Utils.IdGenerator.next_id laguna.Segment.Manager.write
    laguna.Segment.Manager.create_batch laguna.Wal.Row.marshal laguna.Wal.Row.marshal_args
    laguna.Prelude.Binary.put_be laguna.Segment.Manager.process_batches laguna.Segment.Manager.fits
    laguna.Segment.Manager.batch_size laguna.Segment.Manager.write_batch
    laguna.Segment.Manager.write_in_seg laguna.Segment.Manager.lock
    laguna.Segment.Manager.file_write laguna.Segment.Manager.flatten
    laguna.Segment.Manager.entries_loop laguna.Utils.Future.Deadline.get_response_with_deadline
    laguna.Utils.Future.Deadline.get_response
set_is_answered_here = refl

pub set_command-IsLoggable : IsLoggable set_command
set_command-IsLoggable = record {
  short = (omega arith, (omega arith, tt));
  method_fits = omega arith;
  count_fits = omega arith;
}

one_served : RunServes wal_dir first first_db ((background, set_command) ∷ []) written_db
one_served =
    Serves.next (codes "OK") refl set_command-IsExecutable set_command-IsLoggable
      set_is_answered_here Serves.here

-- The log behind the call and behind its wait.
abbrev pub called_log : FileLog
called_log = (write_call 1 wal_dir one_by_one at_once background set_command first_db.wal).0

call_written :
    write_call 1 wal_dir one_by_one at_once background set_command first_db.wal ≡ (called_log, ok 0)
unfolding execute Storage.set laguna.Storage.Memory.engine_set set_key
    laguna.Storage.Memory.get_shard Storage.new new_engine laguna.Storage.Memory.new_in_memory
    laguna.Storage.Memory.shard_id laguna.Storage.Memory.sum64 laguna.Wal.FileLog.write_call
    laguna.Wal.FileLog.wait_response laguna.Wal.Worker.run laguna.Wal.Worker.turn
    laguna.Wal.Worker.new_wal laguna.Wal.Worker.flush_now laguna.Wal.Flush.flush
    laguna.Wal.Flush.flush_write laguna.Utils.Retry.with_retry laguna.Utils.Retry.retry_loop
    laguna.Logs.Writer.write_to laguna.Segment.Opening.new_segment_manager
    laguna.Utils.IdGenerator.new laguna.Utils.IdGenerator.next_id laguna.Segment.Manager.write
    laguna.Segment.Manager.create_batch laguna.Wal.Row.marshal laguna.Wal.Row.marshal_args
    laguna.Prelude.Binary.put_be laguna.Segment.Manager.process_batches laguna.Segment.Manager.fits
    laguna.Segment.Manager.batch_size laguna.Segment.Manager.write_batch
    laguna.Segment.Manager.write_in_seg laguna.Segment.Manager.lock
    laguna.Segment.Manager.file_write laguna.Segment.Manager.flatten
    laguna.Segment.Manager.entries_loop laguna.Utils.Future.Deadline.get_response_with_deadline
    laguna.Utils.Future.Deadline.get_response
call_written = refl

abbrev pub answered_log : FileLog
answered_log = (wait_response 1 wal_dir one_by_one at_once background 0 called_log).0

call_answered :
    wait_response 1 wal_dir one_by_one at_once background 0 called_log ≡ (answered_log, ok none)
unfolding execute Storage.set laguna.Storage.Memory.engine_set set_key
    laguna.Storage.Memory.get_shard Storage.new new_engine laguna.Storage.Memory.new_in_memory
    laguna.Storage.Memory.shard_id laguna.Storage.Memory.sum64 laguna.Wal.FileLog.write_call
    laguna.Wal.FileLog.wait_response laguna.Wal.Worker.run laguna.Wal.Worker.turn
    laguna.Wal.Worker.new_wal laguna.Wal.Worker.flush_now laguna.Wal.Flush.flush
    laguna.Wal.Flush.flush_write laguna.Utils.Retry.with_retry laguna.Utils.Retry.retry_loop
    laguna.Logs.Writer.write_to laguna.Segment.Opening.new_segment_manager
    laguna.Utils.IdGenerator.new laguna.Utils.IdGenerator.next_id laguna.Segment.Manager.write
    laguna.Segment.Manager.create_batch laguna.Wal.Row.marshal laguna.Wal.Row.marshal_args
    laguna.Prelude.Binary.put_be laguna.Segment.Manager.process_batches laguna.Segment.Manager.fits
    laguna.Segment.Manager.batch_size laguna.Segment.Manager.write_batch
    laguna.Segment.Manager.write_in_seg laguna.Segment.Manager.lock
    laguna.Segment.Manager.file_write laguna.Segment.Manager.flatten
    laguna.Segment.Manager.entries_loop laguna.Utils.Future.Deadline.get_response_with_deadline
    laguna.Utils.Future.Deadline.get_response
call_answered = refl

answered-IsQuiet : IsQuiet answered_log
answered-IsQuiet =
    (file_wal_accepted 1 wal_dir one_by_one at_once background set_command first_db.wal called_log
      answered_log 0 (first_log-IsQuiet first.fresh first.max_size first.clock first-Follows).0
      set_command-IsLoggable call_written call_answered).0

file_wal_accepted_example :
    IsQuiet answered_log
    × (queries_in wal_dir (all_files answered_log)
        ≡ queries_in wal_dir (all_files first_db.wal) ++ (set_command ∷ []))
file_wal_accepted_example =
    file_wal_accepted 1 wal_dir one_by_one at_once background set_command first_db.wal called_log
      answered_log 0 (first_log-IsQuiet first.fresh first.max_size first.clock first-Follows).0
      set_command-IsLoggable call_written call_answered

-- A slave with that log refuses the query, and keeps it.
abbrev first_slave : RunDatabase wal_dir first
first_slave = record first_db { is_master = false }

set_is_logged : set_in_wal first_wal background set_command first_db.wal ≡ (answered_log, ok tt)
unfolding set_in_wal execute Storage.set laguna.Storage.Memory.engine_set set_key
    laguna.Storage.Memory.get_shard Storage.new new_engine laguna.Storage.Memory.new_in_memory
    laguna.Storage.Memory.shard_id laguna.Storage.Memory.sum64 laguna.Wal.FileLog.write_call
    laguna.Wal.FileLog.wait_response laguna.Wal.Worker.run laguna.Wal.Worker.turn
    laguna.Wal.Worker.new_wal laguna.Wal.Worker.flush_now laguna.Wal.Flush.flush
    laguna.Wal.Flush.flush_write laguna.Utils.Retry.with_retry laguna.Utils.Retry.retry_loop
    laguna.Logs.Writer.write_to laguna.Segment.Opening.new_segment_manager
    laguna.Utils.IdGenerator.new laguna.Utils.IdGenerator.next_id laguna.Segment.Manager.write
    laguna.Segment.Manager.create_batch laguna.Wal.Row.marshal laguna.Wal.Row.marshal_args
    laguna.Prelude.Binary.put_be laguna.Segment.Manager.process_batches laguna.Segment.Manager.fits
    laguna.Segment.Manager.batch_size laguna.Segment.Manager.write_batch
    laguna.Segment.Manager.write_in_seg laguna.Segment.Manager.lock
    laguna.Segment.Manager.file_write laguna.Segment.Manager.flatten
    laguna.Segment.Manager.entries_loop laguna.Utils.Future.Deadline.get_response_with_deadline
    laguna.Utils.Future.Deadline.get_response
set_is_logged = refl

slave_log : (execute first_wal background set_command first_slave).0.wal ≡ answered_log
unfolding set_in_wal execute Storage.set laguna.Storage.Memory.engine_set set_key
    laguna.Storage.Memory.get_shard Storage.new new_engine laguna.Storage.Memory.new_in_memory
    laguna.Storage.Memory.shard_id laguna.Storage.Memory.sum64 laguna.Wal.FileLog.write_call
    laguna.Wal.FileLog.wait_response laguna.Wal.Worker.run laguna.Wal.Worker.turn
    laguna.Wal.Worker.new_wal laguna.Wal.Worker.flush_now laguna.Wal.Flush.flush
    laguna.Wal.Flush.flush_write laguna.Utils.Retry.with_retry laguna.Utils.Retry.retry_loop
    laguna.Logs.Writer.write_to laguna.Segment.Opening.new_segment_manager
    laguna.Utils.IdGenerator.new laguna.Utils.IdGenerator.next_id laguna.Segment.Manager.write
    laguna.Segment.Manager.create_batch laguna.Wal.Row.marshal laguna.Wal.Row.marshal_args
    laguna.Prelude.Binary.put_be laguna.Segment.Manager.process_batches laguna.Segment.Manager.fits
    laguna.Segment.Manager.batch_size laguna.Segment.Manager.write_batch
    laguna.Segment.Manager.write_in_seg laguna.Segment.Manager.lock
    laguna.Segment.Manager.file_write laguna.Segment.Manager.flatten
    laguna.Segment.Manager.entries_loop laguna.Utils.Future.Deadline.get_response_with_deadline
    laguna.Utils.Future.Deadline.get_response
slave_log = refl

set_is_no_get : set_method_id ≢ 1
set_is_no_get h = omega arith

refused_comes_back_example :
    ((execute first_wal background set_command first_slave).1 ≡ err non_read_op_slave)
    × ((execute first_wal background set_command first_slave).0.st ≡ first_slave.st)
    × (queries_in wal_dir (all_files (execute first_wal background set_command first_slave).0.wal)
        ≡ queries_in wal_dir (all_files first_db.wal) ++ (set_command ∷ []))
    × (db' : RunDatabase wal_dir first) × (new_database first_wal
          (Storage.new (new_engine (pos 3)))
          false
          answered_log
        ≡ ok db')
    × ((j : Bytes)
        → value db'.st j
          ≡ effect set_command (effects (queries_in wal_dir (all_files first_db.wal)) empty_view) j)
refused_comes_back_example =
    refused_comes_back first_wal (file_log 1 wal_dir one_by_one at_once) false (pos 3) background
      set_command first_slave answered_log refl set_is_no_get set_command-IsExecutable
      set_command-IsLoggable refl
      (first_log-IsQuiet first.fresh first.max_size first.clock first-Follows).0 (rw none_logged tt)
      (rw set_is_logged refl) answered-IsQuiet refl (rw slave_log refl)

first_starts : start_log wal_dir first.max_size first.clock [] first.fresh [] ≡ ok first_db.wal
first_starts = first_start wal_dir first.fresh first.max_size first.clock

first_opens : open_database wal_dir first (pos 3) first_db.wal ≡ ok first_db
unfolding laguna.Database.new_database laguna.Wal.FileLog.stream_files
    laguna.Wal.Restore.restore_stream laguna.Wal.Restore.restore_loop
    laguna.Logs.Segments.restore_system laguna.Utils.Dir.read_dir laguna.Logs.Segments.restore_names
    laguna.Wal.Worker.new_wal laguna.Segment.Opening.new_segment_manager laguna.Prelude.str_eq
    laguna.Logs.Reader.read laguna.Logs.Reader.bytes_reader laguna.Database.exec_all
    laguna.Logs.Reader.tail_loop laguna.Logs.Reader.feed laguna.Logs.Reader.feed_all
    laguna.Utils.IdGenerator.new laguna.Utils.IdGenerator.new_with_start laguna.Wal.Restore.last_id
    laguna.Logs.Segments.restore_index laguna.Logs.Segments.restore_entries
    laguna.Logs.Reader.parse_loop laguna.Logs.Reader.split_chunks laguna.Wal.Row.unmarshal
    laguna.Wal.Row.read_row laguna.Prelude.Binary.read_be laguna.Prelude.Binary.read_full
    laguna.Database.restore_batches
first_opens = refl

-- One run, which has answered one request.
one-Life : Life wal_dir first written_db (set_command ∷ [])
one-Life =
    Life.serves first first_db written_db [] ((background, set_command) ∷ [])
      (Life.begins first (pos 3) first_db.wal first_db first-Follows first_starts first_opens)
      one_served

written_log : written_db.wal ≡ answered_log
unfolding execute Storage.set laguna.Storage.Memory.engine_set set_key
    laguna.Storage.Memory.get_shard Storage.new new_engine laguna.Storage.Memory.new_in_memory
    laguna.Storage.Memory.shard_id laguna.Storage.Memory.sum64 laguna.Wal.FileLog.write_call
    laguna.Wal.FileLog.wait_response laguna.Wal.Worker.run laguna.Wal.Worker.turn
    laguna.Wal.Worker.new_wal laguna.Wal.Worker.flush_now laguna.Wal.Flush.flush
    laguna.Wal.Flush.flush_write laguna.Utils.Retry.with_retry laguna.Utils.Retry.retry_loop
    laguna.Logs.Writer.write_to laguna.Segment.Opening.new_segment_manager
    laguna.Utils.IdGenerator.new laguna.Utils.IdGenerator.next_id laguna.Segment.Manager.write
    laguna.Segment.Manager.create_batch laguna.Wal.Row.marshal laguna.Wal.Row.marshal_args
    laguna.Prelude.Binary.put_be laguna.Segment.Manager.process_batches laguna.Segment.Manager.fits
    laguna.Segment.Manager.batch_size laguna.Segment.Manager.write_batch
    laguna.Segment.Manager.write_in_seg laguna.Segment.Manager.lock
    laguna.Segment.Manager.file_write laguna.Segment.Manager.flatten
    laguna.Segment.Manager.entries_loop laguna.Utils.Future.Deadline.get_response_with_deadline
    laguna.Utils.Future.Deadline.get_response
written_log = refl

second-Follows : Follows second.clock (names_of (all_files written_db.wal))
unfolding execute Storage.set laguna.Storage.Memory.engine_set set_key
    laguna.Storage.Memory.get_shard Storage.new new_engine laguna.Storage.Memory.new_in_memory
    laguna.Storage.Memory.shard_id laguna.Storage.Memory.sum64 laguna.Wal.FileLog.write_call
    laguna.Wal.FileLog.wait_response laguna.Wal.Worker.run laguna.Wal.Worker.turn
    laguna.Wal.Worker.new_wal laguna.Wal.Worker.flush_now laguna.Wal.Flush.flush
    laguna.Wal.Flush.flush_write laguna.Utils.Retry.with_retry laguna.Utils.Retry.retry_loop
    laguna.Logs.Writer.write_to laguna.Segment.Opening.new_segment_manager
    laguna.Utils.IdGenerator.new laguna.Utils.IdGenerator.next_id laguna.Segment.Manager.write
    laguna.Segment.Manager.create_batch laguna.Wal.Row.marshal laguna.Wal.Row.marshal_args
    laguna.Prelude.Binary.put_be laguna.Segment.Manager.process_batches laguna.Segment.Manager.fits
    laguna.Segment.Manager.batch_size laguna.Segment.Manager.write_batch
    laguna.Segment.Manager.write_in_seg laguna.Segment.Manager.lock
    laguna.Segment.Manager.file_write laguna.Segment.Manager.flatten
    laguna.Segment.Manager.entries_loop laguna.Utils.Future.Deadline.get_response_with_deadline
    laguna.Utils.Future.Deadline.get_response str_lt
second-Follows = record { above = (λ k. ground arith, tt); grows = λ i j h. ground (arith, h) }

-- The second run finds the files of the first one.
second_start :
    (s : FileLog) × (start_log wal_dir second.max_size second.clock [] second.fresh
        (all_files written_db.wal)
      ≡ ok s)
    × (db : RunDatabase wal_dir second) × (open_database wal_dir second (pos 5) s ≡ ok db)
    × ((j : Bytes) → value db.st j ≡ value written_db.st j)
    × RunIsDurable wal_dir second db
second_start =
    survives wal_dir first second (pos 5) first_db written_db ((background, set_command) ∷ [])
      first_db-IsDurable one_served second-Follows

two-Life : Life wal_dir second second_start.2 (set_command ∷ [])
two-Life =
    Life.starts_again first second (pos 5) written_db (set_command ∷ []) second_start.0
      second_start.2 one-Life second-Follows second_start.1 second_start.3

Life-values_example :
    RunIsDurable wal_dir second second_start.2
    × ((j : Bytes) → value second_start.2.st j ≡ effects (set_command ∷ []) empty_view j)
Life-values_example = Life-values wal_dir second second_start.2 (set_command ∷ []) two-Life
