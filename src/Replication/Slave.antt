-- ===== src/Replication/Slave.antt =====
-- internal/database/replication/slave.go: the slave asks for the rows behind its last one, and applies
-- what it gets.
pub mod Apply
pub mod Sync
pub mod Loop
use laguna.Prelude.{
  ℕ, suc, ◌+◌, ◌-◌, ◌%◌, ◌^◌, List, [], ◌∷◌, length, get_elem?, ◌==◌, if◌then◌else◌, Option, none,
  some, str_eq, Bool,
}
use laguna.Prelude.{
  ◌++◌, decimal, Bytes, codes, Error, error_text, no_new_logs, unknown_command, Result, ok, err,
  fault, index, ◌>>=◌, ◌>>>◌, wrap_err,
}
use laguna.Utils.Context.{Ctx, unless_done, check_done}
use laguna.Query.{set_method_id, del_method_id, set_key_idx, set_value_idx, del_key_idx}
use laguna.Storage
use laguna.Storage.{Storage}
use laguna.Wal.Row.{Row}
use laguna.Logs.Reader.{read, bytes_reader}
use laguna.Replication.Protocol.{Request, put_request, Response, read_message}

-- fmt.Errorf("failed to execute method %d: %w", method, err)
abbrev method_err : ℕ → Storage × Result (Unit {0}) → Storage × Result (Unit {0})
method_err m p = wrap_err (codes "failed to execute method " ++ (decimal m ++ codes ": ")) p

-- The calls of the storage for one row.
unfoldable pub exec_row : Ctx → Row → Storage → Storage × Result (Unit {0})
exec_row ctx r s =
    if r.method_id == set_method_id
    then (s, index (get_elem? r.args set_key_idx)) >>> (λ key s'.
        (s', index (get_elem? r.args set_value_idx)) >>> λ value s''.
        method_err r.method_id (Storage.set ctx key value s''))
    else if r.method_id == del_method_id
    then (s, index (get_elem? r.args del_key_idx))
      >>> (λ key s'. method_err r.method_id (Storage.delete ctx key s'))
    else (s, err (unknown_command r.method_id))

-- `execStorage`: the first error ends the loop, and what was applied stays applied.
unfoldable pub exec_storage : Ctx → List Row → Storage → Storage × Result (Unit {0})
exec_storage ctx [] s = (s, ok tt)
exec_storage ctx (r ∷ rows) s = exec_row ctx r s >>> λ _ s'. exec_storage ctx rows s'

-- The lsn of the last row of a list that is not empty.
abbrev pub last_lsn : Row → List Row → ℕ
last_lsn r [] = r.lsn_id
last_lsn r (r' ∷ rows) = last_lsn r' rows

-- The slave's own log is written by `write`, the LogWriter; without one `log_writer` is `none`.
-- `send` is the TCP client: what the connection delivers behind the request.
module _ (L : Type 0) (write : List Row → L → L × Result (Unit {0}))
    (send : Ctx → Bytes → Result Bytes) where
  pub record Slave : Type 0 where
    pub st : Storage
    pub log_writer : Option L
    pub last_lsn_written : ℕ

  unfoldable pub write_log : List Row → Slave → Slave × Result (Unit {0})
  write_log rows s = elim s.log_writer [
    | none ↦ (s, ok tt)
    | some l ↦ (let (l', r) = write rows l in (record s { log_writer = some l' }, r))
  ]

  abbrev pub apply_rows : Ctx → List Row → Slave → Slave × Result (Unit {0})
  apply_rows ctx rows s = let (st, r) = exec_storage ctx rows s.st in (record s { st = st }, r)

  abbrev pub move_to : ℕ → Slave → Slave × Result (Unit {0})
  move_to lsn s = (record s { last_lsn_written = lsn }, ok tt)

  -- The storage and the position, behind the log.
  abbrev pub apply_and_move : Ctx → Row → List Row → Slave → Slave × Result (Unit {0})
  apply_and_move ctx r rows s = apply_rows ctx (r ∷ rows) s >>> λ _ s'. move_to (last_lsn r rows) s'

  unfoldable pub process_rows : Ctx → List Row → Slave → Slave × Result (Unit {0})
  process_rows ctx [] s = (s, ok tt)
  process_rows ctx (r ∷ rows) s =
      unless_done ctx.err s (write_log (r ∷ rows) s >>> λ _ s'. apply_and_move ctx r rows s')

  -- What `sendReq` makes of a response with an error.
  abbrev response_error : Response → Error → Result Response
  response_error resp e =
      if str_eq (error_text e) (error_text no_new_logs) then err no_new_logs else err e

  abbrev check_response : Response → Option Error → Result Response
  check_response resp none = ok resp
  check_response resp (some e) = response_error resp e

  unfoldable pub send_req : Ctx → ℕ → Result Response
  send_req ctx lsn_id = check_done ctx.err (
      send ctx (put_request (record { lsn_id = lsn_id })) >>= λ bs.
      read_message bs >>= λ resp. check_response resp resp.failure)

  -- What `getUpdates` does with the data of a response.
  unfoldable pub take_data : Ctx → Bytes → Slave → Slave × Result (Unit {0})
  take_data ctx [] s = (s, ok tt)
  take_data ctx (b ∷ bs) s =
      (s, read (bytes_reader (b ∷ bs))) >>> λ rows s'. process_rows ctx rows s'

  unfoldable pub get_updates : Ctx → Slave → Slave × Result (Unit {0})
  get_updates ctx s = unless_done ctx.err s (
      (s, send_req ctx ((s.last_lsn_written + 1) % 2 ^ 64)) >>> λ resp s'.
      take_data ctx resp.bytes s')
