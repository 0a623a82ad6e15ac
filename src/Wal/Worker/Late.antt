-- ===== src/Wal/Worker/Late.antt =====
-- A future that is registered behind the flush of its row.
use laguna.Prelude.{
  ℕ, zero, suc, ◌≡◌, refl, ap, ◌∙◌, List, [], ◌∷◌, ◌++◌, replicate, Bytes, none, ok, All,
}
use laguna.Query.{Query}
use laguna.Segment.Manager.{Manager}
use laguna.Segment.Manager.Log.{IsReady, log_bytes}
use laguna.Wal.Row.{Row, new_row}
use laguna.Wal.Row.Codec.{IsShort}
use laguna.Utils.IdGenerator
use laguna.Replication.Protocol.{flatten}
use laguna.Wal.Flush.Laws.{flush_lem}
use laguna.Wal.Worker.{
  Call, called, delivered, running, System, update, write_turn, taken, new_wal, flush_now, Turn,
  write, receive, tick, tick_turn, worker_turn, turn, run,
}
use laguna.Wal.Worker.Sound.{flatten_total}

abbrev pub one_call : Query → ℕ → Call
one_call q i = called none q

-- The worker takes and flushes the row before the call registers its future.
abbrev late_schedule : List Turn
late_schedule = write 0 ∷ (write 0 ∷ (receive ∷ (write 0 ∷ [])))

run-append :
    (size : ℕ) (ts us : List Turn) (s : System)
    → run size (ts ++ us) s ≡ run size us (run size ts s)
unfolding run
run-append size [] us s = refl
run-append size (t ∷ ts) us s = run-append size ts us (turn size t s)

idle_tick :
    (size : ℕ) (s : System) → s.mode ≡ running → s.worker.query_buf ≡ [] → turn size tick s ≡ s
unfolding turn
idle_tick size s m b = ap (λ k. worker_turn size tick k s) m ∙ ap (λ buf. tick_turn size buf s) b

idle_ticks :
    (size n : ℕ) (s : System)
    → s.mode ≡ running
    → s.worker.query_buf ≡ []
    → run size (replicate n tick) s ≡ s
unfolding run
idle_ticks size zero s m b = refl
idle_ticks size (suc n) s m b =
    ap (run size (replicate n tick)) (idle_tick size s m b) ∙ idle_ticks size n s m b

module _ (store : Manager) (q : Query) where
  abbrev late_row : Row
  late_row = new_row 1 q.method_id q.args

  abbrev numbered_one : System
  numbered_one = write_turn 1 0 (called none q) (new_wal store (one_call q))

  abbrev sent_one : System
  sent_one = record numbered_one {
    query_ch = late_row ∷ [];
    calls = update numbered_one.calls 0 delivered;
    sent = late_row ∷ [];
  }

  abbrev taken_one : System
  taken_one = taken 1 late_row [] sent_one

  abbrev registered_one : System
  registered_one = write_turn 1 0 delivered (flush_now running taken_one)

  late_run : run 1 late_schedule (new_wal store (one_call q)) ≡ registered_one
  unfolding run turn new_wal flush_now IdGenerator.next_id IdGenerator.new
  late_run = refl

-- For any query with arguments that the format can hold, a batch size of one and a disk that does not
-- fail, there is an interleaving behind which the row is in the log, and its future waits, however often
-- the ticker fires, as long as no other call runs.
pub late_future :
    (store : Manager) (q : Query) (n : ℕ)
    → IsReady store
    → All IsShort q.args
    → (ts : List Turn) × (bytes : Bytes) × (flatten (new_row 1 q.method_id q.args ∷ []) ≡ ok bytes)
      × (log_bytes (run 1 (ts ++ replicate n tick) (new_wal store (one_call q))).worker.store
          ≡ log_bytes store ++ bytes)
      × ((run 1 (ts ++ replicate n tick) (new_wal store (one_call q))).worker.future_resp ≡ 0 ∷ [])
      × ((run 1 (ts ++ replicate n tick) (new_wal store (one_call q))).worker.answers ≡ [])
unfolding flush_now new_wal
late_future store q n r h =
    let (bytes, f) = flatten_total (new_row 1 q.method_id q.args ∷ []) (h, tt) in
    let (o, b, w, a, _, l) = flush_lem (taken_one store q).worker bytes r f in
    let end =
      run-append 1 late_schedule (replicate n tick) (new_wal store (one_call q))
      ∙ ap (run 1 (replicate n tick)) (late_run store q)
      ∙ idle_ticks 1 n (registered_one store q) (rw o refl) b in
    (late_schedule, bytes, f, rw end l, rw end (ap (λ t. t ++ (0 ∷ [])) w), rw end a)
