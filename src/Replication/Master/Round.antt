-- ===== src/Replication/Master/Round.antt =====
-- A slave whose connection leads to a master.
use laguna.Prelude.{
  ℕ, ◌+◌, ◌%◌, ◌^◌, ◌<◌, ◌≡◌, refl, arith, List, [], ◌∷◌, append-nil, length, Bytes, none, All,
  Result, ok,
}
use laguna.Utils.Context.{Ctx}
use laguna.Utils.Retry.{Waits}
use laguna.Segment.Index.{IndexEntry}
use laguna.Storage.Laws.{value, IsValid}
use laguna.Wal.Row.{Row}
use laguna.Wal.Row.Codec.{IsEncodable}
use laguna.Database.Exec.{effects}
use laguna.Replication.Protocol.{flatten}
use laguna.Replication.Slave.{Slave, last_lsn, exec_storage, write_log, get_updates}
use laguna.Replication.Slave.Apply.{IsReplicable, logged}
use laguna.Replication.Slave.Sync.{LogTakes, get_updates_lem}
use laguna.Replication.Master.{handle}
use laguna.Replication.Master.Answers.{handle_rows}
use mathlib.Core.List.{map}

module _ (lookups : ℕ → ℕ → Result IndexEntry) (waits : Waits)
    (rows_from : Bytes → ℕ → Result (List Row)) (served : Ctx) where
  -- What a new connection to the master delivers behind a request.
  abbrev pub from_master : Ctx → Bytes → Result Bytes
  from_master ctx request =
      ok
        (handle lookups waits rows_from served (ok request)
          (record { sent = []; failure = none })).0.sent

  module _ (L : Type 0) (write : List Row → L → L × Result (Unit {0})) where
    -- One round of a slave against the master's handler. Where the master's index has the id behind the
    -- slave's position, and its log has rows from there on that the format can hold, the round ends with
    -- no error, the slave's position is the id of the last of those rows, and the value of every key is
    -- what the queries of those rows make of it, in order: the storage is what one execution of the rows
    -- makes of it, and the slave's log what one write does; the request's id is not 0, the slave's own log
    -- takes the rows, and their binary forms are shorter than 2 ^ 31.
    pub replication_round :
        (ctx : Ctx) (s : Slave L write from_master) (e : IndexEntry) (r : Row) (rows : List Row)
        (bytes : Bytes)
        → ctx.err ≡ none
        → served.err ≡ none
        → 0 < (s.last_lsn_written + 1) % 2 ^ 64
        → lookups ((s.last_lsn_written + 1) % 2 ^ 64) 0 ≡ ok e
        → rows_from e.file_name e.offset ≡ ok (r ∷ rows)
        → IsValid s.st
        → All IsEncodable (r ∷ rows)
        → All IsReplicable (r ∷ rows)
        → LogTakes L write from_master (r ∷ rows) s
        → flatten (r ∷ rows) ≡ ok bytes
        → length bytes < 2 ^ 31
        → ((get_updates L write from_master ctx s).1 ≡ ok tt)
          × ((get_updates L write from_master ctx s).0.last_lsn_written ≡ last_lsn r rows)
          × ((get_updates L write from_master ctx s).0.st ≡ (exec_storage ctx (r ∷ rows) s.st).0)
          × ((get_updates L write from_master ctx s).0.log_writer
              ≡ (write_log L write from_master (r ∷ rows) s).0.log_writer)
          × IsValid (get_updates L write from_master ctx s).0.st
          × ((j : Bytes)
              → value (get_updates L write from_master ctx s).0.st j
                ≡ effects (map logged (r ∷ rows)) (value s.st) j)
    replication_round ctx s e r rows bytes h h' p l g v x y t f n =
        let answer =
          handle_rows lookups waits rows_from served ((s.last_lsn_written + 1) % 2 ^ 64)
            (record { sent = []; failure = none }) e r rows bytes h' p (omega arith) refl l g f in
        get_updates_lem L write from_master ctx r rows s bytes [] h v x y t f n
          (rw answer (rw append-nil refl))
