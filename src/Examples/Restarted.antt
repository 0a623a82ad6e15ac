-- ===== src/Examples/Restarted.antt =====
-- A program that is started again.
use laguna.Prelude.{
  ℕ, suc, ◌+◌, ◌<◌, ◌≡◌, refl, sym, ap, ◌∙◌, arith, List, [], ◌∷◌, Bytes, codes, none, true, false,
  str_lt, ok, All, Option, Result,
}
use laguna.Prelude.Int.{pos}
use laguna.Utils.Context.{background}
use laguna.Storage
use laguna.Storage.Memory.{new_engine, set_key}
use laguna.Storage.Laws.{value, new_lem}
use laguna.Database.{Database, execute}
use laguna.Database.Exec.{effects}
use laguna.Database.Restore.{IsDurable, Serves}
use laguna.Logs.Segments.Restart.{names_of}
use laguna.Wal.FileLog.{all_files}
use laguna.Wal.FileLog.Reopen.{Follows, first_log, first_log-IsQuiet}
use laguna.Wiring.{Config, zero_config}
use laguna.Wiring.Log.{Settings, settings, settings_of, enabled, program_wal}
use laguna.Wiring.Start.{Disk, Started, init_replication, init_db}
use laguna.Wiring.Durable.{program_log}
use laguna.Wiring.Restart.{init_db_survives}
use laguna.Examples.Stores.{set_command, set_command-IsExecutable}
use laguna.Examples.Programs.{dial_one, no_deadline, write_all}
use laguna.Examples.Runs.{
  wal_dir, one_by_one, at_once, first, second, answered_log, first-Follows, none_logged,
  set_command-IsLoggable,
}

-- A master without replication, with a batch size of one.
abbrev master_config : Config
master_config = record zero_config {
  wal = record {
    enable = true;
    flush_interval = pos 0;
    flush_batch_size = pos 1;
    max_segment_size = 1000;
    directory = wal_dir;
  };
  replication = record zero_config.replication { is_master = true };
}

abbrev one_setting : Settings
one_setting = settings master_config.wal 1

abbrev program_db : Database (program_wal one_by_one at_once)
program_db = record {
  st = Storage.new (new_engine (pos 3));
  wal = enabled one_setting (first_log first.clock first.max_size first.fresh);
  is_master = true;
}

abbrev served_db : Database (program_wal one_by_one at_once)
served_db = (execute (program_wal one_by_one at_once) background set_command program_db).0

program_db-IsDurable :
    IsDurable (program_wal one_by_one at_once) (program_log one_by_one at_once) program_db
program_db-IsDurable = record {
  on = refl;
  master = refl;
  valid = (new_lem (pos 3)).0;
  good = (first_log-IsQuiet first.fresh first.max_size first.clock first-Follows).0;
  executable = rw none_logged tt;
  replayed = λ j. rw none_logged (unfold effects in sym ((new_lem (pos 3)).1 j));
}

set_is_served :
    (execute (program_wal one_by_one at_once) background set_command program_db).1 ≡ ok (codes "OK")
unfolding execute Storage.set laguna.Storage.Memory.engine_set set_key
    laguna.Storage.Memory.get_shard Storage.new new_engine laguna.Storage.Memory.new_in_memory
    laguna.Storage.Memory.shard_id laguna.Storage.Memory.sum64 laguna.Wal.FileLog.write_call
    laguna.Wal.FileLog.wait_response laguna.Wal.Worker.run laguna.Wal.Worker.turn
    laguna.Wal.Worker.new_wal laguna.Wal.Worker.flush_now laguna.Wal.Flush.flush
    laguna.Wal.Flush.flush_write laguna.Utils.Retry.with_retry laguna.Utils.Retry.retry_loop
    laguna.Logs.Writer.write_to laguna.Segment.Opening.new_segment_manager
    laguna.Utils.IdGenerator.new laguna.Utils.IdGenerator.next_id laguna.Segment.Manager.write
    laguna.Segment.Manager.create_batch laguna.Wal.Row.marshal laguna.Wal.Row.marshal_args
    laguna.Prelude.Binary.put_be laguna.Segment.Manager.process_batches laguna.Segment.Manager.fits
    laguna.Segment.Manager.batch_size laguna.Segment.Manager.write_batch
    laguna.Segment.Manager.write_in_seg laguna.Segment.Manager.lock
    laguna.Segment.Manager.file_write laguna.Segment.Manager.flatten
    laguna.Segment.Manager.entries_loop laguna.Utils.Future.Deadline.get_response_with_deadline
    laguna.Utils.Future.Deadline.get_response
set_is_served = refl

program_served :
    Serves
      (program_wal one_by_one at_once)
      (program_log one_by_one at_once)
      program_db
      ((background, set_command) ∷ [])
      served_db
program_served =
    Serves.next (codes "OK") refl set_command-IsExecutable set_command-IsLoggable set_is_served
      Serves.here

served_log : served_db.wal ≡ enabled one_setting answered_log
unfolding execute Storage.set laguna.Storage.Memory.engine_set set_key
    laguna.Storage.Memory.get_shard Storage.new new_engine laguna.Storage.Memory.new_in_memory
    laguna.Storage.Memory.shard_id laguna.Storage.Memory.sum64 laguna.Wal.FileLog.write_call
    laguna.Wal.FileLog.wait_response laguna.Wal.Worker.run laguna.Wal.Worker.turn
    laguna.Wal.Worker.new_wal laguna.Wal.Worker.flush_now laguna.Wal.Flush.flush
    laguna.Wal.Flush.flush_write laguna.Utils.Retry.with_retry laguna.Utils.Retry.retry_loop
    laguna.Logs.Writer.write_to laguna.Segment.Opening.new_segment_manager
    laguna.Utils.IdGenerator.new laguna.Utils.IdGenerator.next_id laguna.Segment.Manager.write
    laguna.Segment.Manager.create_batch laguna.Wal.Row.marshal laguna.Wal.Row.marshal_args
    laguna.Prelude.Binary.put_be laguna.Segment.Manager.process_batches laguna.Segment.Manager.fits
    laguna.Segment.Manager.batch_size laguna.Segment.Manager.write_batch
    laguna.Segment.Manager.write_in_seg laguna.Segment.Manager.lock
    laguna.Segment.Manager.file_write laguna.Segment.Manager.flatten
    laguna.Segment.Manager.entries_loop laguna.Utils.Future.Deadline.get_response_with_deadline
    laguna.Utils.Future.Deadline.get_response
served_log = refl

-- The directory that is left.
abbrev left_disk : Disk
left_disk = record {
  dir = λ name. ok (all_files answered_log);
  outcomes = [];
  clock = second.clock;
  fresh = second.fresh;
}

left-Follows : Follows left_disk.clock (names_of (all_files answered_log))
unfolding execute Storage.set laguna.Storage.Memory.engine_set set_key
    laguna.Storage.Memory.get_shard Storage.new new_engine laguna.Storage.Memory.new_in_memory
    laguna.Storage.Memory.shard_id laguna.Storage.Memory.sum64 laguna.Wal.FileLog.write_call
    laguna.Wal.FileLog.wait_response laguna.Wal.Worker.run laguna.Wal.Worker.turn
    laguna.Wal.Worker.new_wal laguna.Wal.Worker.flush_now laguna.Wal.Flush.flush
    laguna.Wal.Flush.flush_write laguna.Utils.Retry.with_retry laguna.Utils.Retry.retry_loop
    laguna.Logs.Writer.write_to laguna.Segment.Opening.new_segment_manager
    laguna.Utils.IdGenerator.new laguna.Utils.IdGenerator.next_id laguna.Segment.Manager.write
    laguna.Segment.Manager.create_batch laguna.Wal.Row.marshal laguna.Wal.Row.marshal_args
    laguna.Prelude.Binary.put_be laguna.Segment.Manager.process_batches laguna.Segment.Manager.fits
    laguna.Segment.Manager.batch_size laguna.Segment.Manager.write_batch
    laguna.Segment.Manager.write_in_seg laguna.Segment.Manager.lock
    laguna.Segment.Manager.file_write laguna.Segment.Manager.flatten
    laguna.Segment.Manager.entries_loop laguna.Utils.Future.Deadline.get_response_with_deadline
    laguna.Utils.Future.Deadline.get_response str_lt
left-Follows = record { above = (λ k. ground arith, tt); grows = λ i j h. ground (arith, h) }

one_settings : settings_of master_config.wal ≡ ok one_setting
unfolding settings_of laguna.Wal.Worker.batch_size_of
one_settings = refl

no_replication :
    init_replication
      (Unit {0})
      (Unit {0})
      dial_one
      no_deadline
      write_all
      tt
      one_by_one
      at_once
      master_config
    ≡ ok none
unfolding init_replication
no_replication = refl

init_db_survives_example :
    (s : Started (Unit {0}) (Unit {0}) dial_one no_deadline write_all tt one_by_one at_once)
    × (init_db
          (Unit {0})
          (Unit {0})
          dial_one
          no_deadline
          write_all
          tt
          one_by_one
          at_once
          left_disk
          master_config
        ≡ ok s)
    × ((j : Bytes) → value s.db.st j ≡ value served_db.st j)
    × IsDurable (program_wal one_by_one at_once) (program_log one_by_one at_once) s.db
init_db_survives_example =
    init_db_survives (Unit {0}) (Unit {0}) dial_one no_deadline write_all tt one_by_one at_once
      one_by_one at_once program_db served_db ((background, set_command) ∷ []) one_setting
      one_setting answered_log left_disk master_config none refl program_db-IsDurable program_served
      served_log refl refl one_settings refl refl refl left-Follows no_replication
