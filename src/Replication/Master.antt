-- ===== src/Replication/Master.antt =====
-- internal/database/replication/master.go: the master answers a request by the rows of its log.
pub mod Answers
pub mod Round
pub mod CatchUp
pub mod Replay
use laguna.Prelude.{
  ℕ, suc, ◌==◌, List, [], ◌∷◌, ◌++◌, take, Bytes, codes, Bool, true, false, if◌then◌else◌, Option,
  none, some,
}
use laguna.Prelude.{
  Error, index_not_found, no_new_logs, wrapped, errors_new, Result, ok, err, fault, ◌>>=◌, ◌>>>◌,
}
use laguna.Prelude.Int.{pos}
use laguna.Utils.Context.{Ctx, unless_done}
use laguna.Utils.Retry.{Waits, with_retry}
use laguna.Segment.Index.{IndexEntry}
use laguna.Wal.Row.{Row}
use laguna.Logs.Writer.{Target, write_to}
use laguna.Replication.Protocol.{Request, req_size, get_request, write_message, conn_target_write}

-- What was sent on a connection, and the error with which it refuses what is sent, if it does. The
-- error of a buffered writer stays.
pub record Conn : Type 0 where
  pub sent : Bytes
  pub failure : Option Error

abbrev put_out : Option Error → Bytes → Conn → Conn × Result (Unit {0})
put_out none bytes c = (record c { sent = c.sent ++ bytes }, ok tt)
put_out (some e) bytes c = (c, err e)

-- A write to the buffered writer and its flush.
unfoldable pub send_out : Bytes → Conn → Conn × Result (Unit {0})
send_out bytes c = put_out c.failure bytes c

-- `getReq`, of what the first read of the connection returns.
unfoldable pub get_req : Result Bytes → Result Request
get_req chunk = chunk >>= λ bs. get_request (take req_size bs)

-- `writeError`
unfoldable pub write_error : Error → Conn → Conn × Result (Unit {0})
unfolding send_out
write_error e c = send_out (write_message (record { bytes = []; failure = some e })) c

-- errors.Is(err, segment.ErrNotFound)
unfoldable pub is_not_found : Error → Bool
is_not_found index_not_found = true
is_not_found (wrapped text e) = is_not_found e
is_not_found _ = false

-- The target of the connection, flushed behind it.
abbrev pub conn_target : Target Conn
conn_target rows c = (c, conn_target_write rows) >>> λ bytes c'. send_out bytes c'

-- A call, and what follows it; its error is answered.
abbrev pub or_answer {ℓ} :
    {A : Type ℓ} → Result A → Conn → (A → Conn × Result (Unit {0})) → Conn × Result (Unit {0})
or_answer (ok a) c next = next a
or_answer (err e) c next = write_error e c
or_answer (fault x) c next = (c, fault x)

-- `lookups n` is what GetIndex of the request's id returns at the n-th attempt, and `rows_from` is
-- ReadFrom on the directory of the log.
module _ (lookups : ℕ → ℕ → Result IndexEntry) (waits : Waits)
    (rows_from : Bytes → ℕ → Result (List Row)) where
  abbrev pub lookup_attempt : ℕ → ℕ → ℕ × Result IndexEntry
  lookup_attempt lsn n = (suc n, lookups lsn n)

  unfoldable pub find_index : ℕ → Result IndexEntry
  find_index lsn = (with_retry (pos 3) (pos 200000000) waits (some (lookup_attempt lsn)) 0).1

  abbrev pub answer_rows : List Row → Conn → Conn × Result (Unit {0})
  answer_rows [] c = write_error no_new_logs c
  answer_rows (r ∷ rows) c = write_to (some conn_target) (r ∷ rows) c

  -- What follows the search for the index.
  abbrev pub on_index : Result IndexEntry → Conn → Conn × Result (Unit {0})
  on_index (ok e) c = or_answer (rows_from e.file_name e.offset) c λ rows. answer_rows rows c
  on_index (err e) c = if is_not_found e then write_error no_new_logs c else write_error e c
  on_index (fault x) c = (c, fault x)

  -- Master.Handle
  unfoldable pub handle : Ctx → Result Bytes → Conn → Conn × Result (Unit {0})
  unfolding find_index
  handle ctx chunk c = unless_done ctx.err c (
      or_answer (get_req chunk) c λ req.
        if req.lsn_id == 0
        then write_error (errors_new (codes "lsnID is 0")) c
        else on_index (find_index req.lsn_id) c)
