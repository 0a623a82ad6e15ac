-- ===== src/Wal/Worker/Early.antt =====
-- A row that is acknowledged before it is written.
use laguna.Prelude.{
  ◌∙◌, ℕ, ◌==◌, ◌≤◌, ◌≡◌, refl, ap, arith, List, [], ◌∷◌, ◌++◌, ltb, leb, if◌then◌else◌, true,
  false, Bytes, none, ok, All,
}
use laguna.Query.{Query}
use laguna.Segment.Manager.{Manager}
use laguna.Segment.Manager.Log.{IsReady, log_bytes}
use laguna.Wal.Row.{Row, new_row}
use laguna.Wal.Row.Codec.{IsShort}
use laguna.Utils.IdGenerator
use laguna.Replication.Protocol.{flatten}
use laguna.Wal.Flush.Laws.{flush_lem}
use laguna.Wal.Worker.{
  Call, called, delivered, running, System, update, write_turn, taken, new_wal, flush_now, Turn,
  write, receive, tick, turn, run,
}
use laguna.Wal.Worker.Sound.{flatten_total}

abbrev pub two_calls : Query → Query → ℕ → Call
two_calls q q' i = if i == 0 then called none q else called none q'

-- The worker has the first row in its buffer when the second call sends its row and registers, and
-- the ticker fires.
abbrev pub early_schedule : List Turn
early_schedule =
    write 0 ∷ (write 0 ∷ (write 0 ∷ (receive ∷ (write 1 ∷ (write 1 ∷ (write 1 ∷ (tick ∷ [])))))))

module _ (size : ℕ) (store : Manager) (q q' : Query) (n : 2 ≤ size) where
  abbrev row : Row
  row = new_row 1 q.method_id q.args

  abbrev row' : Row
  row' = new_row 2 q'.method_id q'.args

  abbrev with_row : System
  with_row = write_turn size 0 (called none q) (new_wal store (two_calls q q'))

  abbrev sent_row : System
  sent_row = record with_row {
    query_ch = row ∷ [];
    calls = update with_row.calls 0 delivered;
    sent = row ∷ [];
  }

  abbrev buffered : System
  buffered = taken size row [] (write_turn size 0 delivered sent_row)

  abbrev with_both : System
  with_both = write_turn size 1 (called none q') buffered

  abbrev sent_both : System
  sent_both = record with_both {
    query_ch = row' ∷ [];
    calls = update with_both.calls 1 delivered;
    sent = row ∷ (row' ∷ []);
  }

  abbrev ticked : System
  ticked = flush_now running (write_turn size 1 delivered sent_both)

  room : ltb 0 size ≡ true
  room = ground arith

  not_full : leb size 1 ≡ false
  not_full = ground arith

  sends_row : turn size (write 0) with_row ≡ sent_row
  unfolding turn new_wal IdGenerator.next_id IdGenerator.new
  sends_row = rw room refl

  buffers_row : turn size receive (write_turn size 0 delivered sent_row) ≡ buffered
  unfolding turn new_wal IdGenerator.next_id IdGenerator.new
  buffers_row = rw not_full refl

  sends_both : turn size (write 1) with_both ≡ sent_both
  unfolding turn new_wal IdGenerator.next_id IdGenerator.new
  sends_both = rw room refl

  early_run : run size early_schedule (new_wal store (two_calls q q')) ≡ ticked
  unfolding run turn new_wal IdGenerator.next_id IdGenerator.new
  early_run =
      ap (run size (write 0 ∷ (receive ∷ (write 1 ∷ (write 1 ∷ (write 1 ∷ (tick ∷ [])))))))
        sends_row
      ∙ (ap (run size (write 1 ∷ (write 1 ∷ (write 1 ∷ (tick ∷ []))))) buffers_row
          ∙ ap (run size (write 1 ∷ (tick ∷ []))) sends_both)

-- For any two queries with arguments that the format can hold, a batch size of two at least, and a disk
-- that does not fail, there is an interleaving in which both calls of `Write` are answered that
-- there was no error, while the log holds only the first row, and the second is still in the channel.
pub early_answer :
    (size : ℕ) (store : Manager) (q q' : Query)
    → 2 ≤ size
    → IsReady store
    → All IsShort q.args
    → (ts : List Turn) × (bytes : Bytes) × (flatten (new_row 1 q.method_id q.args ∷ []) ≡ ok bytes)
      × (log_bytes (run size ts (new_wal store (two_calls q q'))).worker.store
          ≡ log_bytes store ++ bytes)
      × ((run size ts (new_wal store (two_calls q q'))).worker.answers
          ≡ (0, none) ∷ ((1, none) ∷ []))
      × ((run size ts (new_wal store (two_calls q q'))).query_ch
          ≡ new_row 2 q'.method_id q'.args ∷ [])
unfolding flush_now new_wal
early_answer size store q q' n r h =
    let (bytes, f) = flatten_total (new_row 1 q.method_id q.args ∷ []) (h, tt) in
    let (_, _, _, a, _, l) =
      flush_lem (write_turn size 1 delivered (sent_both size store q q' n)).worker bytes r f in
    let end = early_run size store q q' n in
    (early_schedule, bytes, f, rw end l, rw end a, rw end refl)
