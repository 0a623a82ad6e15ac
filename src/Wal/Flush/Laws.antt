-- ===== src/Wal/Flush/Laws.antt =====
-- What a flush does with the buffered rows and with those who wait.
use laguna.Prelude.{
  ℕ, ◌≡◌, ◌≢◌, refl, ap, sym, append-nil, ◌∙◌, arith, List, [], ◌∷◌, ◌++◌, Bytes, Option, none,
  some, true, false, Result, ok, err, fault, blocked_forever, errors_new,
}
use laguna.Prelude.Int.{pos}
use laguna.Utils.Retry.{retry_loop, with_retry}
use laguna.Utils.Retry.Laws.{with_retry_first, loop_err, loop_fault, first_delay, jitter_ok}
use laguna.Wal.Row.{Row}
use laguna.Logs.Writer.{write_to}
use laguna.Segment.Manager
use laguna.Segment.Manager.{Manager, Batch, Failure, create_batch, flatten, fits, batch_size}
use laguna.Segment.Manager.Log.{IsReady, log_bytes, write_lem}
use laguna.Segment.Manager.Locking.{failed_write_blocks}
use laguna.Replication.Protocol
use laguna.Wal.Flush.{Worker, background_waits, flush_write, flush}
use mathlib.Core.List.{map}

write_to_ok :
    (rows : List Row) (bytes : Bytes) (m : Manager)
    → IsReady m
    → Protocol.flatten rows ≡ ok bytes
    → (m' : Manager) × (write_to (some Manager.write) rows m ≡ (m', ok tt))
      × IsReady m'
      × (log_bytes m' ≡ log_bytes m ++ bytes)
write_to_ok [] bytes m v h =
    let none_left : [] ≡ bytes = unfold Protocol.flatten in cc h in
    (m, unfold write_to in refl, v, rw (← none_left) (sym (append-nil (log_bytes m))))
write_to_ok (r ∷ rows) bytes m v h =
    let (e, v', l) = write_lem (r ∷ rows) bytes m v h in
    (
      (Manager.write (r ∷ rows) m).0,
      unfold write_to in ap (λ o. ((Manager.write (r ∷ rows) m).0, o)) e,
      v',
      l,
    )

-- The log behind a flush is what the write of its rows leaves.
pub store-flush :
    (w : Worker) (bytes : Bytes)
    → IsReady w.store
    → Protocol.flatten w.query_buf ≡ ok bytes
    → (flush w).0.store ≡ (write_to (some Manager.write) w.query_buf w.store).0
unfolding flush flush_write
store-flush w bytes v h =
    let (m', e, _, _) = write_to_ok w.query_buf bytes w.store v h in
    let r =
      with_retry_first (pos 2) (pos 100000000) background_waits
        (write_to (some Manager.write) w.query_buf) w.store m' tt e in
    rw r (sym (ap (λ (p : Manager × Result (Unit {0})). p.0) e))

-- On a disk that does not fail, a flush of rows that have a binary form empties the buffer, adds the
-- rows to the log in order, and answers every waiting future, once, that there was no error.
pub flush_lem :
    (w : Worker) (bytes : Bytes)
    → IsReady w.store
    → Protocol.flatten w.query_buf ≡ ok bytes
    → ((flush w).1 ≡ ok tt)
      × ((flush w).0.query_buf ≡ [])
      × ((flush w).0.future_resp ≡ [])
      × ((flush w).0.answers ≡ w.answers ++ map (λ (i : ℕ). (i, none)) w.future_resp)
      × IsReady (flush w).0.store
      × (log_bytes (flush w).0.store ≡ log_bytes w.store ++ bytes)
unfolding flush flush_write
flush_lem w bytes v h =
    let (m', e, v', l) = write_to_ok w.query_buf bytes w.store v h in
    let r =
      with_retry_first (pos 2) (pos 100000000) background_waits
        (write_to (some Manager.write) w.query_buf) w.store m' tt e in
    rw r (refl, refl, refl, refl, v', l)

-- If the first write of a flush fails on the disk, for rows that have bytes and fit the current segment,
-- the retry of `flush` never returns: nobody who waits is answered.
pub flush_blocks :
    (w : Worker) (r : Row) (rows : List Row) (batch : Batch) (f : Failure)
    (more : List (Option Failure))
    → w.query_buf ≡ r ∷ rows
    → w.store.locked ≡ false
    → w.store.outcomes ≡ some f ∷ more
    → create_batch w.query_buf ≡ ok batch
    → flatten batch ≢ []
    → fits w.store.cur_seg (batch_size batch) ≡ true
    → ((flush w).1 ≡ fault blocked_forever)
      × ((flush w).0.future_resp ≡ w.future_resp)
      × ((flush w).0.answers ≡ w.answers)
unfolding flush flush_write with_retry
flush_blocks w r rows batch f more q u o c n e =
    let (a, l, blocked) =
      failed_write_blocks w.query_buf w.query_buf batch batch w.store f more u o c n e c n in
    let m = (Manager.write w.query_buf w.store).0 in
    let first = to_writer w.store (err f.error) a in
    let second = to_writer m (fault blocked_forever) blocked in
    let again_now : retry_loop 100000000 background_waits attempt 2 0 (errors_new []) w.store
        ≡ ((Manager.write w.query_buf m).0, fault blocked_forever) =
      loop_err 100000000 background_waits attempt 1 0 (errors_new []) w.store m f.error first
      ∙ (rw (first_delay 100000000 (omega arith) (omega arith), jitter_ok 100000000 (omega arith))
            refl
          ∙ loop_fault 100000000 background_waits attempt 0 1 f.error m
              (Manager.write w.query_buf m).0 blocked_forever second) in
    rw again_now (refl, refl, refl)
  where
    attempt : Manager → Manager × Result (Unit {0})
    attempt = write_to (some Manager.write) w.query_buf

    to_writer :
        (m : Manager) (x : Result (Unit {0}))
        → (Manager.write w.query_buf m).1 ≡ x
        → attempt m ≡ ((Manager.write w.query_buf m).0, x)
    to_writer m x h =
        rw q (unfold write_to in ap (λ o. ((Manager.write (r ∷ rows) m).0, o)) (rw q at h))
