-- ===== src/Examples/Replicas.antt =====
-- A slave that asks for rows.
use laguna.Prelude.{
  ℕ, List, [], ◌∷◌, ◌++◌, Bytes, codes, Option, none, some, ◌≡◌, ◌≢◌, refl, Error, Result, ok, err,
  errors_new, no_new_logs, All, arith,
}
use laguna.Prelude.Int.{pos}
use laguna.Utils.Context.{Ctx, background}
use laguna.Storage
use laguna.Storage.{Storage}
use laguna.Storage.Memory.{new_engine}
use laguna.Storage.Laws.{value, IsValid, new_lem}
use laguna.Wal.Row.{Row}
use laguna.Database.Exec.{effects}
use laguna.Replication.Protocol
use laguna.Replication.Protocol.{write_message, read_message, conn_target_write}
use laguna.Replication.Slave.{Slave, exec_storage, get_updates}
use laguna.Replication.Slave.Apply.{IsReplicable, logged, exec_storage_lem}
use laguna.Replication.Slave.Sync.{get_updates_error}
use laguna.Examples.Parts.{
  set_row, del_row, two_rows, set_row_bytes, del_row_bytes, set_row-IsEncodable,
  del_row-IsEncodable,
}
use laguna.Prelude.{index_not_found}
use laguna.Utils.Retry.{Waits}
use laguna.Segment.Index.{IndexEntry}
use laguna.Replication.Protocol.{put_request}
use laguna.Prelude.{replicate, ◌==◌, if◌then◌else◌}
use laguna.Replication.Slave.Loop.{start_replication}
use laguna.Replication.Master.CatchUp.{catches_up}
use laguna.Replication.Master.Replay.{replay_harmless}
use laguna.Replication.Master.Round.{from_master}
use mathlib.Core.List.{map}

abbrev empty_storage : Storage
empty_storage = Storage.new (new_engine (pos 3))

two_rows-IsReplicable : All IsReplicable two_rows
two_rows-IsReplicable =
    (IsReplicable.set 1 (codes "k") (codes "v") [], (IsReplicable.del 2 (codes "k") [], tt))

-- A slave whose own log is the list of its rows.
abbrev keep_rows : List Row → List Row → List Row × Result (Unit {0})
keep_rows rows l = (l ++ rows, ok tt)

abbrev no_master : Ctx → Bytes → Result Bytes
no_master ctx request = err (errors_new (codes "refused"))

abbrev new_slave : (send : Ctx → Bytes → Result Bytes) → Slave (List Row) keep_rows send
new_slave send = record { st = empty_storage; log_writer = some []; last_lsn_written = 0 }

flatten_sent : Protocol.flatten two_rows ≡ ok (set_row_bytes ++ del_row_bytes)
unfolding Protocol.flatten laguna.Wal.Row.marshal laguna.Wal.Row.marshal_args
    laguna.Prelude.Binary.put_be
flatten_sent = refl

refused :
    (get_updates (List Row) keep_rows no_master background (new_slave no_master)).1
    ≡ err (errors_new (codes "refused"))
unfolding get_updates laguna.Replication.Slave.send_req
refused = refl

is_refused : (get_updates (List Row) keep_rows no_master background (new_slave no_master)).1 ≢ ok tt
is_refused h = cc (refused, h)

get_updates_error_example :
    (get_updates (List Row) keep_rows no_master background (new_slave no_master)).0.last_lsn_written
    ≡ 0
get_updates_error_example =
    get_updates_error (List Row) keep_rows no_master background (new_slave no_master) is_refused

abbrev no_wait : Waits
no_wait n = none

-- A master whose log has the two rows from any id on.
abbrev found_at_once : ℕ → ℕ → Result IndexEntry
found_at_once lsn n = ok (record { lsn = lsn; file_name = codes "a"; offset = 0 })

abbrev two_rows_from : Bytes → ℕ → Result (List Row)
two_rows_from name offset = ok two_rows

abbrev send_to_master : Ctx → Bytes → Result Bytes
send_to_master = from_master found_at_once no_wait two_rows_from background

abbrev fed_slave : Slave (List Row) keep_rows send_to_master
fed_slave = new_slave send_to_master

-- The master's index leads to the first row, and has nothing behind the second one.
abbrev only_first : ℕ → ℕ → Result IndexEntry
only_first lsn n =
    if lsn == 1
    then ok (record { lsn = lsn; file_name = codes "a"; offset = 0 })
    else err index_not_found

abbrev send_to_indexed : Ctx → Bytes → Result Bytes
send_to_indexed = from_master only_first no_wait two_rows_from background

abbrev following : Slave (List Row) keep_rows send_to_indexed
following = new_slave send_to_indexed

catches_up_example :
    (s' : Slave (List Row) keep_rows send_to_indexed) × (start_replication
        (List Row)
        keep_rows
        send_to_indexed
        (replicate 4 background)
        following
      ≡ (s', ok tt))
    × (s'.last_lsn_written ≡ 2)
    × (s'.st ≡ (exec_storage background two_rows empty_storage).0)
    × (s'.log_writer ≡ some two_rows)
    × ((j : Bytes) → value s'.st j ≡ effects (map logged two_rows) (value empty_storage) j)
unfolding laguna.Replication.Slave.write_log
catches_up_example =
    catches_up only_first no_wait two_rows_from background (List Row) keep_rows 3 background
      following (record { lsn = 1; file_name = codes "a"; offset = 0 }) set_row (del_row ∷ [])
      (set_row_bytes ++ del_row_bytes) refl refl (omega arith) refl refl (omega arith) (λ n h. refl)
      (λ n. refl) (new_lem (pos 3)).0 (set_row-IsEncodable, (del_row-IsEncodable, tt))
      two_rows-IsReplicable refl flatten_sent (omega arith)

-- A slave that has both rows in its storage and in its log, and stands at the first one again.
abbrev applied_storage : Storage
applied_storage = (exec_storage background two_rows empty_storage).0

abbrev again : Slave (List Row) keep_rows send_to_indexed
again = record { st = applied_storage; log_writer = some two_rows; last_lsn_written = 0 }

applied_lem :
    IsValid applied_storage
    × ((j : Bytes)
        → value applied_storage j ≡ effects (map logged two_rows) (value empty_storage) j)
applied_lem =
    let (_, valid, law) =
      exec_storage_lem background two_rows empty_storage refl two_rows-IsReplicable
        (new_lem (pos 3)).0 in
    (valid, law)

replay_harmless_example :
    (s' : Slave (List Row) keep_rows send_to_indexed) × (start_replication
        (List Row)
        keep_rows
        send_to_indexed
        (replicate 4 background)
        again
      ≡ (s', ok tt))
    × (s'.last_lsn_written ≡ 2)
    × ((j : Bytes) → value s'.st j ≡ value applied_storage j)
    × (s'.log_writer ≡ some (two_rows ++ two_rows))
unfolding laguna.Replication.Slave.write_log
replay_harmless_example =
    replay_harmless only_first no_wait two_rows_from background (List Row) keep_rows 3 background
      again (record { lsn = 1; file_name = codes "a"; offset = 0 }) set_row (del_row ∷ [])
      (set_row_bytes ++ del_row_bytes) (value empty_storage) refl applied_lem.1 refl refl refl refl
      (omega arith) (λ n h. refl) (λ n. refl) applied_lem.0
      (set_row-IsEncodable, (del_row-IsEncodable, tt)) two_rows-IsReplicable refl flatten_sent
      (omega arith)
