-- ===== src/Replication/Master/CatchUp.antt =====
-- A slave that follows a master.
use laguna.Prelude.{
  ℕ, zero, suc, ◌+◌, ◌%◌, ◌^◌, ◌<◌, ◌≡◌, refl, ◌∙◌, arith, List, [], ◌∷◌, append-nil, replicate,
  length, Bytes, Option, none, some, All, index_not_found, no_new_logs, Error, Result, ok, err,
}
use laguna.Utils.Context.{Ctx}
use laguna.Utils.Retry.{Waits}
use laguna.Segment.Index.{IndexEntry}
use laguna.Storage.Laws.{value, IsValid}
use laguna.Wal.Row.{Row}
use laguna.Wal.Row.Codec.{IsEncodable}
use laguna.Database.Exec.{effects}
use laguna.Replication.Protocol.{flatten}
use laguna.Replication.Slave.{Slave, last_lsn, exec_storage, write_log, get_updates}
use laguna.Replication.Slave.Apply.{IsReplicable, logged}
use laguna.Replication.Slave.Sync.{LogTakes, get_updates_no_new_logs}
use laguna.Replication.Slave.Loop.{unless_ended, after_round, start_replication}
use laguna.Replication.Master.Answers.{handle_missing}
use laguna.Replication.Master.Round.{from_master, replication_round}
use mathlib.Core.List.{map}

module _ (lookups : ℕ → ℕ → Result IndexEntry) (waits : Waits)
    (rows_from : Bytes → ℕ → Result (List Row)) (served : Ctx) (L : Type 0)
    (write : List Row → L → L × Result (Unit {0})) where
  abbrev Following : Type 0
  Following = Slave L write (from_master lookups waits rows_from served)

  -- The master's index has no row of this id, at any attempt.
  abbrev pub IsMissing : ℕ → Type 0
  IsMissing lsn = (n : ℕ) → n < 3 → lookups lsn n ≡ err index_not_found

  idle_round :
      (ctx : Ctx) (s : Following)
      → ctx.err ≡ none
      → served.err ≡ none
      → 0 < (s.last_lsn_written + 1) % 2 ^ 64
      → IsMissing ((s.last_lsn_written + 1) % 2 ^ 64)
      → ((n : ℕ) → waits n ≡ none)
      → get_updates L write (from_master lookups waits rows_from served) ctx s
        ≡ (s, err no_new_logs)
  idle_round ctx s x y p h w =
      let answer =
        handle_missing lookups waits rows_from served ((s.last_lsn_written + 1) % 2 ^ 64)
          (record { sent = []; failure = none }) y p (omega arith) refl h w in
      get_updates_no_new_logs L write (from_master lookups waits rows_from served) ctx s [] x
        (rw answer (rw append-nil refl))

  alive :
      (o : Option Error) (s : Following) (rest : Following × Result (Unit {0}))
      → o ≡ none
      → unless_ended L write (from_master lookups waits rows_from served) o s rest ≡ rest
  alive none s rest h = refl
  alive (some e) s rest h = absurd (cc h)

  idle_rounds :
      (k : ℕ) (ctx : Ctx) (s : Following)
      → ctx.err ≡ none
      → served.err ≡ none
      → 0 < (s.last_lsn_written + 1) % 2 ^ 64
      → IsMissing ((s.last_lsn_written + 1) % 2 ^ 64)
      → ((n : ℕ) → waits n ≡ none)
      → start_replication L write (from_master lookups waits rows_from served) (replicate k ctx) s
        ≡ (s, ok tt)
  unfolding start_replication
  idle_rounds zero ctx s x y p h w = refl
  idle_rounds (suc k) ctx s x y p h w =
      alive ctx.err s _ x ∙ rw (idle_round ctx s x y p h w) (idle_rounds k ctx s x y p h w)

  -- A slave that follows a master whose log does not change meanwhile: if the master has rows behind the
  -- slave's position, all of which it can send at once and the slave can take, and none behind the last
  -- of them, then after any number of rounds, one at least, the loop still runs and the slave stands
  -- at the last row; its storage, with the counter of its transactions, is what one execution of the
  -- rows makes of it, its own log, if it has one, is what one write of the rows makes of it, and the
  -- value of every key is what the queries of those rows make of it, in order.
  pub catches_up :
      (k : ℕ) (ctx : Ctx) (s : Following) (e : IndexEntry) (r : Row) (rows : List Row)
      (bytes : Bytes)
      → ctx.err ≡ none
      → served.err ≡ none
      → 0 < (s.last_lsn_written + 1) % 2 ^ 64
      → lookups ((s.last_lsn_written + 1) % 2 ^ 64) 0 ≡ ok e
      → rows_from e.file_name e.offset ≡ ok (r ∷ rows)
      → 0 < (last_lsn r rows + 1) % 2 ^ 64
      → IsMissing ((last_lsn r rows + 1) % 2 ^ 64)
      → ((n : ℕ) → waits n ≡ none)
      → IsValid s.st
      → All IsEncodable (r ∷ rows)
      → All IsReplicable (r ∷ rows)
      → LogTakes L write (from_master lookups waits rows_from served) (r ∷ rows) s
      → flatten (r ∷ rows) ≡ ok bytes
      → length bytes < 2 ^ 31
      → (s' : Following) × (start_replication L write
            (from_master lookups waits rows_from served)
            (replicate (suc k) ctx)
            s
          ≡ (s', ok tt))
        × (s'.last_lsn_written ≡ last_lsn r rows)
        × (s'.st ≡ (exec_storage ctx (r ∷ rows) s.st).0)
        × (s'.log_writer
            ≡ (write_log L write
                (from_master lookups waits rows_from served)
                (r ∷ rows)
                s).0.log_writer)
        × ((j : Bytes) → value s'.st j ≡ effects (map logged (r ∷ rows)) (value s.st) j)
  unfolding start_replication
  catches_up k ctx s e r rows bytes x y p l g q h w v a b t f n =
      let send = from_master lookups waits rows_from served in
      let (o, stands, once, written, _, law) =
        replication_round lookups waits rows_from served L write ctx s e r rows bytes x y p l g v a
          b t f n in
      let s' = (get_updates L write send ctx s).0 in
      let rest = idle_rounds k ctx s' x y (rw stands q) (rw stands h) w in
      (
        s',
        alive ctx.err s _ x
            ∙ (went_well (get_updates L write send ctx s)
                  (λ z. start_replication L write send (replicate k ctx) z) o
                ∙ rest),
        stands,
        once,
        written,
        law,
      )
    where
      went_well :
          (p : Following × Result (Unit {0})) (next : Following → Following × Result (Unit {0}))
          → p.1 ≡ ok tt
          → after_round L write (from_master lookups waits rows_from served) p next ≡ next p.0
      went_well (z, ok _) next c = refl
      went_well (z, err d) next c = refl
      went_well (z, Result.fault d) next c = absurd (cc c)
