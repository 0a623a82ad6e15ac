-- ===== src/Database/Refused.antt =====
-- A write that a slave refuses, and what its next start makes of it.
use laguna.Prelude.{
  ◌≡◌, ◌≢◌, refl, ◌∙◌, arith, [], ◌∷◌, ◌++◌, Bytes, Bool, true, false, ◌==◌, All, All-append, ok,
  err, non_read_op_slave,
}
use laguna.Prelude.Int.{ℤ}
use laguna.Utils.Context.{Ctx}
use laguna.Query.{Query, get_method_id}
use laguna.Query.Builder.Outcome.{IsExecutable}
use laguna.Storage
use laguna.Storage.Memory.{new_engine}
use laguna.Storage.Laws.{value}
use laguna.Database.{Wal, Database, set_in_wal, exec_checked, execute, new_database}
use laguna.Database.Exec.{effect, effects, effects-append}
use laguna.Database.Log.{Log, set_in_wal_ok}
use laguna.Database.Restore.{empty_view}
use laguna.Database.Start.{start_values}

module _ (w : Wal) (l : Log w) where
  -- The answer is the refusal, and the log's state is the one behind the write.
  refused_lem :
      (ctx : Ctx) (q : Query) (db : Database w)
      → db.is_master ≡ false
      → (q.method_id == get_method_id) ≡ false
      → w.is_enable db.wal ≡ true
      → (set_in_wal w ctx q db.wal).1 ≡ ok tt
      → execute w ctx q db
        ≡ (record db { wal = (set_in_wal w ctx q db.wal).0 }, err non_read_op_slave)
  unfolding execute exec_checked
  refused_lem ctx q db m n on o = rw (on, o, n, m)

  -- On a slave whose log is sound, holds executable queries and acknowledges a query that is no GET, the
  -- query is refused and the storage stays as it is, but the query is the last of the log. A start, in
  -- either role, on any sound log with those queries succeeds, and executes the refused query behind
  -- the others: every key has the value that the refused query makes of theirs.
  pub refused_comes_back :
      (b : Bool) (shards : ℤ) (ctx : Ctx) (q : Query) (db : Database w) (s : w.State)
      → db.is_master ≡ false
      → q.method_id ≢ get_method_id
      → IsExecutable q
      → l.Takes q
      → w.is_enable db.wal ≡ true
      → l.IsGood db.wal
      → All IsExecutable (l.entries db.wal)
      → (set_in_wal w ctx q db.wal).1 ≡ ok tt
      → l.IsGood s
      → w.is_enable s ≡ true
      → l.entries s ≡ l.entries (execute w ctx q db).0.wal
      → ((execute w ctx q db).1 ≡ err non_read_op_slave)
        × ((execute w ctx q db).0.st ≡ db.st)
        × (l.entries (execute w ctx q db).0.wal ≡ l.entries db.wal ++ (q ∷ []))
        × (db' : Database w) × (new_database w (Storage.new (new_engine shards)) b s ≡ ok db')
        × ((j : Bytes) → value db'.st j ≡ effect q (effects (l.entries db.wal) empty_view) j)
  refused_comes_back b shards ctx q db s m n x t on g executable o g' on' kept =
      let no_get : (q.method_id == get_method_id) ≡ false = ground arith in
      let e = refused_lem ctx q db m no_get on o in
      let (_, longer, _) = set_in_wal_ok w l ctx q db.wal g t no_get o in
      let logged : l.entries (execute w ctx q db).0.wal ≡ l.entries db.wal ++ (q ∷ []) =
        rw e longer in
      let all = All-append IsExecutable (l.entries db.wal) (q ∷ []) executable (x, tt) in
      let same = kept ∙ logged in
      let (db', opened, values) = start_values w l b shards s g' on' (rw same all) in
      (
        rw e refl,
        rw e refl,
        logged,
        db',
        opened,
        λ j.
            values j
            ∙ rw (same, effects-append (l.entries db.wal) (q ∷ []) empty_view)
                (unfold effects in refl),
      )
