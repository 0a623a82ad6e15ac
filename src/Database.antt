-- ===== src/Database.antt =====
-- internal/database/database.go: queries through the log to the storage, and the restore at the start.
pub mod Exec
pub mod Replay
pub mod Safety
pub mod Log
pub mod Restore
pub mod Start
pub mod Refused
pub mod Durability
pub mod Lifetime
use laguna.Prelude.{
  ℕ, List, [], ◌∷◌, Bytes, codes, Bool, true, false, ◌&&◌, not, Option, none, some, ◌==◌, get_elem?,
  if◌then◌else◌,
}
use laguna.Prelude.{
  Error, Result, ok, err, fault, index, ◌>>=◌, non_read_op_slave, unknown_command, wrapped,
  wrap_err, ◌>>>◌,
}
use laguna.Utils.Context.{Ctx, background}
use laguna.Query.{
  Query, set_method_id, get_method_id, del_method_id, set_key_idx, set_value_idx, get_key_idx,
  del_key_idx,
}
use laguna.Storage
use laguna.Storage.{Storage}

-- The interface `WAL`. `response` is GetResponseWithDeadline on what `write` returned, under the
-- deadline of one second: the answer of the log, or the error of the wait. `restore_stream` lists what
-- the calls of `Next` return until the stream is closed.
pub record Wal : Type 1 where
  pub State : Type 0
  pub Future : Type 0
  pub is_enable : State → Bool
  pub write : Ctx → Query → State → State × Result Future
  pub response : Ctx → Future → State → State × Result (Option Error)
  pub restore_stream : State → State × Result (List (Result (List Query)))

-- The calls of the storage by `exec`, as functions of its state. `"OK"` is returned beside the error.
abbrev ok_text : Storage × Result (Unit {0}) → Storage × Result Bytes
ok_text (s, r) = (s, r >>= λ _. ok (codes "OK"))

-- An index that is out of range panics before the storage is called.
abbrev pub with_arg :
    Storage → Option Bytes → (Bytes → Storage × Result Bytes) → Storage × Result Bytes
with_arg s arg f = (s, index arg) >>> λ a _. f a

unfoldable pub exec : Ctx → Query → Storage → Storage × Result Bytes
exec ctx q s =
    if q.method_id == get_method_id
    then with_arg s (get_elem? q.args get_key_idx) (λ key. Storage.get ctx key s)
    else if q.method_id == set_method_id
    then with_arg s (get_elem? q.args set_key_idx) (λ key.
      with_arg s (get_elem? q.args set_value_idx) (λ value. ok_text (Storage.set ctx key value s)))
    else if q.method_id == del_method_id
    then with_arg s (get_elem? q.args del_key_idx) (λ key. ok_text (Storage.delete ctx key s))
    else (s, err (unknown_command q.method_id))

-- The loops of `restoreFromWal` over one batch, and over the stream.
unfoldable pub exec_all : List Query → Storage → Storage × Result (Unit {0})
exec_all [] s = (s, ok tt)
exec_all (q ∷ qs) s =
    wrap_err (codes "execute query: ") (exec background q s) >>> λ _ s'. exec_all qs s'

unfoldable pub restore_batches : List (Result (List Query)) → Storage → Storage × Result (Unit {0})
restore_batches [] s = (s, ok tt)
restore_batches (batch ∷ rest) s = wrap_err (codes "read wal: ") (s, batch) >>> λ qs s'.
    exec_all qs s' >>> λ _ s''. restore_batches rest s''

-- What `setInWal` makes of the two errors of the wait.
abbrev pub answer : Option Error → Result (Unit {0})
answer none = ok tt
answer (some e) = err e

module _ (w : Wal) where
  pub record Database : Type 0 where
    pub st : Storage
    pub wal : w.State
    pub is_master : Bool

  -- A GET is not logged.
  unfoldable pub set_in_wal : Ctx → Query → w.State → w.State × Result (Unit {0})
  set_in_wal ctx q s =
      if q.method_id == get_method_id
      then (s, ok tt)
      else w.write ctx q s >>> λ future s'.
          w.response ctx future s' >>> λ reply s''. (s'', answer reply)

  -- The call of `setInWal`, and the database with the log's new state.
  unfoldable pub log_query : Ctx → Query → Database → Database × Result (Unit {0})
  unfolding set_in_wal
  log_query ctx q db =
      if w.is_enable db.wal
      then (let (s, r) = set_in_wal ctx q db.wal in (record db { wal = s }, r))
      else (db, ok tt)

  -- What follows the log: the check of the role, and the storage.
  unfoldable pub exec_checked : Ctx → Query → Database → Database × Result Bytes
  unfolding exec
  exec_checked ctx q db =
      if not db.is_master && not (q.method_id == get_method_id)
      then (db, err non_read_op_slave)
      else (let (s, r) = exec ctx q db.st in (record db { st = s }, r))

  unfoldable pub execute : Ctx → Query → Database → Database × Result Bytes
  unfolding log_query exec_checked
  execute ctx q db = log_query ctx q db >>> λ _ db'. exec_checked ctx q db'

  -- The batches of the stream, on the storage of the database.
  abbrev pub restore_all : Database → List (Result (List Query)) → Database × Result (Unit {0})
  restore_all db batches = let (s, r) = restore_batches batches db.st in (record db { st = s }, r)

  unfoldable pub restore_from_wal : Database → Database × Result (Unit {0})
  unfolding restore_batches
  restore_from_wal db =
      if w.is_enable db.wal
      then (let (s, stream) = w.restore_stream db.wal in
          wrap_err (codes "read wal: ") (record db { wal = s }, stream) >>> λ batches db'.
          restore_all db' batches)
      else (db, ok tt)

  unfoldable pub new_database : Storage → Bool → w.State → Result Database
  unfolding restore_from_wal
  new_database st is_master wal =
      let (db, r) = restore_from_wal (record { st = st; wal = wal; is_master = is_master }) in
      r >>= λ _. ok db
