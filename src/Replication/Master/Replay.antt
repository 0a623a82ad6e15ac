-- ===== src/Replication/Master/Replay.antt =====
-- A slave that starts again at the first row, with what it already has.
use laguna.Prelude.{
  ℕ, suc, ◌+◌, ◌%◌, ◌^◌, ◌<◌, ◌≡◌, sym, ◌∙◌, arith, List, ◌∷◌, replicate, length, Bytes, none, All,
  Result, ok,
}
use laguna.Utils.Context.{Ctx}
use laguna.Utils.Retry.{Waits}
use laguna.Segment.Index.{IndexEntry}
use laguna.Storage.Laws.{value, IsValid}
use laguna.Wal.Row.{Row}
use laguna.Wal.Row.Codec.{IsEncodable}
use laguna.Database.Exec.{View, effects, effects_cong}
use laguna.Database.Replay.{effects_again}
use laguna.Replication.Protocol.{flatten}
use laguna.Replication.Slave.{Slave, last_lsn, write_log}
use laguna.Replication.Slave.Apply.{IsReplicable, logged}
use laguna.Replication.Slave.Sync.{LogTakes}
use laguna.Replication.Slave.Loop.{start_replication}
use laguna.Replication.Master.CatchUp.{IsMissing, catches_up}
use laguna.Replication.Master.Round.{from_master}
use mathlib.Core.List.{map}

module _ (lookups : ℕ → ℕ → Result IndexEntry) (waits : Waits)
    (rows_from : Bytes → ℕ → Result (List Row)) (served : Ctx) (L : Type 0)
    (write : List Row → L → L × Result (Unit {0})) where
  -- A slave at position 0 whose storage already holds what the master's rows make of some map, as one
  -- has that was started again on its own log: if its master sends it those rows, from the first on,
  -- and none behind the last of them, then after any number of rounds, one at least, the loop still
  -- runs, the slave stands at the last row and every key has the value that it had before; but its own
  -- log, if it has one, is what one more write of all the rows makes of it.
  pub replay_harmless :
      (k : ℕ) (ctx : Ctx) (s : Slave L write (from_master lookups waits rows_from served))
      (e : IndexEntry) (r : Row) (rows : List Row) (bytes : Bytes) (f : View)
      → s.last_lsn_written ≡ 0
      → ((j : Bytes) → value s.st j ≡ effects (map logged (r ∷ rows)) f j)
      → ctx.err ≡ none
      → served.err ≡ none
      → lookups 1 0 ≡ ok e
      → rows_from e.file_name e.offset ≡ ok (r ∷ rows)
      → 0 < (last_lsn r rows + 1) % 2 ^ 64
      → IsMissing lookups waits rows_from served L write ((last_lsn r rows + 1) % 2 ^ 64)
      → ((n : ℕ) → waits n ≡ none)
      → IsValid s.st
      → All IsEncodable (r ∷ rows)
      → All IsReplicable (r ∷ rows)
      → LogTakes L write (from_master lookups waits rows_from served) (r ∷ rows) s
      → flatten (r ∷ rows) ≡ ok bytes
      → length bytes < 2 ^ 31
      → (s' : Slave L write (from_master lookups waits rows_from served)) × (start_replication L
            write
            (from_master lookups waits rows_from served)
            (replicate (suc k) ctx)
            s
          ≡ (s', ok tt))
        × (s'.last_lsn_written ≡ last_lsn r rows)
        × ((j : Bytes) → value s'.st j ≡ value s.st j)
        × (s'.log_writer
            ≡ (write_log L write
                (from_master lookups waits rows_from served)
                (r ∷ rows)
                s).0.log_writer)
  replay_harmless k ctx s e r rows bytes f z held x y l g q h w v a b t p n =
      let first : (s.last_lsn_written + 1) % 2 ^ 64 ≡ 1 = rw z (omega arith) in
      let (s', runs, stands, _, written, law) =
        catches_up lookups waits rows_from served L write k ctx s e r rows bytes x y
          (rw first (omega arith)) (rw first l) g q h w v a b t p n in
      let qs = map logged (r ∷ rows) in
      (
        s',
        runs,
        stands,
        λ j.
            law j
            ∙ effects_cong qs (value s.st) (effects qs f) j (held j)
            ∙ effects_again qs f j
            ∙ sym (held j),
        written,
      )
