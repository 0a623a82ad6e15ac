-- ===== src/Replication/Slave/Sync.antt =====
-- One round of the slave against what a master sends.
use laguna.Prelude.{
  ◌≡◌, ◌≢◌, refl, ◌∙◌, arith, ◌+◌, ◌%◌, ◌^◌, ◌<◌, List, [], ◌∷◌, ◌++◌, length, Bytes, Option, none,
  some, All,
}
use laguna.Prelude.{Result, ok, err, fault, no_new_logs, error_text, str_eq, ◌>>>◌}
use laguna.Utils.Context.{Ctx}
use laguna.Storage.{Storage}
use laguna.Storage.Laws.{value, IsValid}
use laguna.Wal.Row.{Row}
use laguna.Wal.Row.Codec.{IsEncodable}
use laguna.Logs.Reader.{read, bytes_reader, feed, feed_all, tail_loop, split_chunks}
use laguna.Prelude.{◌⊎◌, inl, inr}
use laguna.Replication.Protocol.{Response}
use laguna.Replication.Slave.{move_to, apply_and_move}
use laguna.Logs.Reader.Chunks.{read-bytes_reader}
use laguna.Database.Exec.{effects}
use laguna.Replication.Protocol.{flatten, put_request, write_message}
use laguna.Replication.Protocol.Messages.{read_message-write_message}
use laguna.Replication.Slave.{
  last_lsn, exec_storage, Slave, process_rows, write_log, get_updates, take_data, send_req,
}
use laguna.Replication.Slave.Apply.{IsReplicable, logged, exec_storage_lem}
use mathlib.Core.List.{map}

Option-cases {ℓ} : {A : Type ℓ} (o : Option A) → ((a : A) × (o ≡ some a)) ⊎ (o ≡ none)
Option-cases none = inr refl
Option-cases (some a) = inl (a, refl)

module _ (L : Type 0) (write : List Row → L → L × Result (Unit {0}))
    (send : Ctx → Bytes → Result Bytes) where
  -- The slave's own log took the rows, or it has none.
  abbrev pub LogTakes : List Row → Slave L write send → Type 0
  LogTakes rows s = (write_log L write send rows s).1 ≡ ok tt

  st-write_log :
      (rows : List Row) (s : Slave L write send)
      → ((write_log L write send rows s).0.st ≡ s.st)
        × ((write_log L write send rows s).0.last_lsn_written ≡ s.last_lsn_written)
  unfolding write_log
  st-write_log rows s = ground arith

  -- Rows that the log takes and the storage can apply move the slave behind the last of them.
  process_rows_lem :
      (ctx : Ctx) (r : Row) (rows : List Row) (s : Slave L write send)
      → ctx.err ≡ none
      → All IsReplicable (r ∷ rows)
      → IsValid s.st
      → LogTakes (r ∷ rows) s
      → ((process_rows L write send ctx (r ∷ rows) s).1 ≡ ok tt)
        × ((process_rows L write send ctx (r ∷ rows) s).0.last_lsn_written ≡ last_lsn r rows)
        × ((process_rows L write send ctx (r ∷ rows) s).0.st ≡ (exec_storage ctx (r ∷ rows) s.st).0)
        × ((process_rows L write send ctx (r ∷ rows) s).0.log_writer
            ≡ (write_log L write send (r ∷ rows) s).0.log_writer)
        × IsValid (process_rows L write send ctx (r ∷ rows) s).0.st
        × ((j : Bytes)
            → value (process_rows L write send ctx (r ∷ rows) s).0.st j
              ≡ effects (map logged (r ∷ rows)) (value s.st) j)
  unfolding process_rows
  process_rows_lem ctx r rows s h x v t =
      let (kept, _) = st-write_log (r ∷ rows) s in
      let (a, w, law) = exec_storage_lem ctx (r ∷ rows) s.st h x v in
      simp h (rw (t, kept, a) (refl, refl, refl, refl, w, law))

  -- A round that does not end well leaves the slave's position where it was.
  after_write :
      (ctx : Ctx) (r : Row) (rows : List Row) (p : Slave L write send × Result (Unit {0}))
      → ((p >>> λ _ s'. apply_and_move L write send ctx r rows s').1 ≡ ok tt → ⊥)
      → (p >>> λ _ s'. apply_and_move L write send ctx r rows s').0.last_lsn_written
        ≡ p.0.last_lsn_written
  after_write ctx r rows (s, err e) n = refl
  after_write ctx r rows (s, fault x) n = refl
  after_write ctx r rows (s, ok _) n = applied (exec_storage ctx (r ∷ rows) s.st) n
    where
      applied :
          (q : Storage × Result (Unit {0}))
          → (((record s { st = q.0 }, q.1) >>> λ _ s'. move_to L write send (last_lsn r rows) s').1
                ≡ ok tt
              → ⊥)
          → ((record s { st = q.0 }, q.1) >>> λ _ s'.
              move_to L write send (last_lsn r rows) s').0.last_lsn_written
            ≡ s.last_lsn_written
      applied (st, ok _) k = absurd (k refl)
      applied (st, err e) k = refl
      applied (st, fault x) k = refl

  process_rows_error :
      (ctx : Ctx) (rows : List Row) (s : Slave L write send)
      → (process_rows L write send ctx rows s).1 ≢ ok tt
      → (process_rows L write send ctx rows s).0.last_lsn_written ≡ s.last_lsn_written
  unfolding process_rows
  process_rows_error ctx [] s n = refl
  process_rows_error ctx (r ∷ rows) s n = elim (Option-cases ctx.err) [
    | inl (e, h) ↦ simp h
    | inr h ↦ simp h (
        after_write ctx r rows (write_log L write send (r ∷ rows) s) (simp h at n)
        ∙ (st-write_log (r ∷ rows) s).1)
  ]

  take_data_error :
      (ctx : Ctx) (bytes : Bytes) (s : Slave L write send)
      → (take_data L write send ctx bytes s).1 ≢ ok tt
      → (take_data L write send ctx bytes s).0.last_lsn_written ≡ s.last_lsn_written
  unfolding take_data
  take_data_error ctx [] s n = refl
  take_data_error ctx (b ∷ bs) s n = parsed (read (bytes_reader (b ∷ bs))) n
    where
      parsed :
          (r : Result (List Row))
          → ((s, r) >>> λ rows s'. process_rows L write send ctx rows s').1 ≢ ok tt
          → ((s, r) >>> λ rows s'. process_rows L write send ctx rows s').0.last_lsn_written
            ≡ s.last_lsn_written
      parsed (ok rows) k = process_rows_error ctx rows s k
      parsed (err e) k = refl
      parsed (fault x) k = refl

  -- A round of the slave that returns an error, or does not return, leaves its position where it was, so
  -- that the next round asks for the same rows again.
  pub get_updates_error :
      (ctx : Ctx) (s : Slave L write send)
      → (get_updates L write send ctx s).1 ≢ ok tt
      → (get_updates L write send ctx s).0.last_lsn_written ≡ s.last_lsn_written
  unfolding get_updates
  get_updates_error ctx s n = elim (Option-cases ctx.err) [
    | inl (e, h) ↦ simp h
    | inr h ↦
        simp h
          (answered (send_req L write send ctx ((s.last_lsn_written + 1) % 2 ^ 64)) (simp h at n))
  ]
    where
      answered :
          (r : Result Response)
          → ((s, r) >>> λ resp s'. take_data L write send ctx resp.bytes s').1 ≢ ok tt
          → ((s, r) >>> λ resp s'. take_data L write send ctx resp.bytes s').0.last_lsn_written
            ≡ s.last_lsn_written
      answered (ok resp) k = take_data_error ctx resp.bytes s k
      answered (err e) k = refl
      answered (fault x) k = refl

  -- The request of a slave for the row behind its last one.
  abbrev pub next_request : Slave L write send → Bytes
  next_request s = put_request (record { lsn_id = (s.last_lsn_written + 1) % 2 ^ 64 })

  take_data_lem :
      (ctx : Ctx) (r : Row) (rows : List Row) (bytes : Bytes) (s : Slave L write send)
      → All IsEncodable (r ∷ rows)
      → flatten (r ∷ rows) ≡ ok bytes
      → take_data L write send ctx bytes s ≡ process_rows L write send ctx (r ∷ rows) s
  unfolding take_data
  take_data_lem ctx r rows [] s x f = absurd (cc (read-bytes_reader (r ∷ rows) [] x f, nothing))
    where
      nothing : read (bytes_reader []) ≡ ok []
      nothing = unfold read bytes_reader feed feed_all tail_loop split_chunks in refl
  take_data_lem ctx r rows (b ∷ bs) s x f = rw (read-bytes_reader (r ∷ rows) (b ∷ bs) x f)

  -- Where the master answers the slave's request with rows, in the message that it writes for them, the
  -- slave ends the round with no error, behind the last of those rows, and the value of every key is
  -- what the rows' queries make of it, in order.
  pub get_updates_lem :
      (ctx : Ctx) (r : Row) (rows : List Row) (s : Slave L write send) (bytes rest : Bytes)
      → ctx.err ≡ none
      → IsValid s.st
      → All IsEncodable (r ∷ rows)
      → All IsReplicable (r ∷ rows)
      → LogTakes (r ∷ rows) s
      → flatten (r ∷ rows) ≡ ok bytes
      → length bytes < 2 ^ 31
      → send ctx (next_request s)
        ≡ ok (write_message (record { bytes = bytes; failure = none }) ++ rest)
      → ((get_updates L write send ctx s).1 ≡ ok tt)
        × ((get_updates L write send ctx s).0.last_lsn_written ≡ last_lsn r rows)
        × ((get_updates L write send ctx s).0.st ≡ (exec_storage ctx (r ∷ rows) s.st).0)
        × ((get_updates L write send ctx s).0.log_writer
            ≡ (write_log L write send (r ∷ rows) s).0.log_writer)
        × IsValid (get_updates L write send ctx s).0.st
        × ((j : Bytes)
            → value (get_updates L write send ctx s).0.st j
              ≡ effects (map logged (r ∷ rows)) (value s.st) j)
  unfolding get_updates send_req
  get_updates_lem ctx r rows s bytes rest h v x y t f short sent =
      let got =
        (read_message-write_message bytes rest no_new_logs short
          (unfold error_text in omega arith)).0 in
      simp (h, sent, got, take_data_lem ctx r rows bytes s x f)
        (process_rows_lem ctx r rows s h y v t)

  -- Where the master answers that there are no new logs, the round ends with that error, and the slave
  -- is as it was.
  pub get_updates_no_new_logs :
      (ctx : Ctx) (s : Slave L write send) (rest : Bytes)
      → ctx.err ≡ none
      → send ctx (next_request s)
        ≡ ok (write_message (record { bytes = []; failure = some no_new_logs }) ++ rest)
      → get_updates L write send ctx s ≡ (s, err no_new_logs)
  unfolding get_updates send_req error_text str_eq
  get_updates_no_new_logs ctx s rest h sent =
      let got = (read_message-write_message [] rest no_new_logs (omega arith) (omega arith)).1 in
      simp (h, sent, got)
