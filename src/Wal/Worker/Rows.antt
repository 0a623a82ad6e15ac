-- ===== src/Wal/Worker/Rows.antt =====
-- Where the rows are that the calls sent: in the log, in the buffer or in the channel.
use laguna.Prelude.{
  ℕ, ◌≤◌, ◌≡◌, refl, sym, arith, List, [], ◌∷◌, ◌++◌, append-nil, length, Bytes, Bool, true, false,
  ok,
}
use laguna.Segment.Manager.{Manager}
use laguna.Segment.Manager.Log.{IsReady, log_bytes}
use laguna.Wal.Row.{Row}
use laguna.Replication.Protocol.{flatten}
use laguna.Wal.Worker.{
  Call, Mode, running, draining, stopped, stuck, System, new_wal, Turn, write, receive, tick,
  cancel, drain, taken, flush_if, receive_turn, drain_turn, worker_turn, turn, run,
}
use laguna.Wal.Worker.Sound.{
  Sends, IsSound, flush_now-IsSound, taken-IsSound, moved-IsSound, tick_turn-IsSound,
  write_turn-IsSound,
}

flush_if-IsSound :
    (size : ℕ) (base : Bytes) (s : System) (b : Bool)
    → IsSound size base s
    → IsSound size base (flush_if size b s)
flush_if-IsSound size base s true v = flush_now-IsSound size base s v running tt
flush_if-IsSound size base s false v = v

module _ (size : ℕ) (base : Bytes) (s : System) (v : IsSound size base s) where
  receive_turn-IsSound :
      (ch : List Row) → s.query_ch ≡ ch → IsSound size base (receive_turn size ch s)
  receive_turn-IsSound [] e = v
  receive_turn-IsSound (r ∷ rest) e =
      flush_if-IsSound size base (taken size r rest s) _ (taken-IsSound size base s v r rest e)

  drain_turn-IsSound : (ch : List Row) → s.query_ch ≡ ch → IsSound size base (drain_turn size ch s)
  drain_turn-IsSound [] e = flush_now-IsSound size base s v stopped tt
  drain_turn-IsSound (r ∷ rest) e = taken-IsSound size base s v r rest e

  worker_turn-IsSound : (t : Turn) (m : Mode) → IsSound size base (worker_turn size t m s)
  worker_turn-IsSound (write i) m = v
  worker_turn-IsSound receive running = receive_turn-IsSound s.query_ch refl
  worker_turn-IsSound receive draining = v
  worker_turn-IsSound receive stopped = v
  worker_turn-IsSound receive (stuck x) = v
  worker_turn-IsSound tick running = tick_turn-IsSound size base s v s.worker.query_buf
  worker_turn-IsSound tick draining = v
  worker_turn-IsSound tick stopped = v
  worker_turn-IsSound tick (stuck x) = v
  worker_turn-IsSound cancel running = moved-IsSound size base s v draining tt
  worker_turn-IsSound cancel draining = v
  worker_turn-IsSound cancel stopped = v
  worker_turn-IsSound cancel (stuck x) = v
  worker_turn-IsSound drain running = v
  worker_turn-IsSound drain draining = drain_turn-IsSound s.query_ch refl
  worker_turn-IsSound drain stopped = v
  worker_turn-IsSound drain (stuck x) = v

  pub turn-IsSound : (t : Turn) → IsSound size base (turn size t s)
  unfolding turn
  turn-IsSound (write i) = write_turn-IsSound size base s v i (s.calls i) refl
  turn-IsSound receive = worker_turn-IsSound receive s.mode
  turn-IsSound tick = worker_turn-IsSound tick s.mode
  turn-IsSound cancel = worker_turn-IsSound cancel s.mode
  turn-IsSound drain = worker_turn-IsSound drain s.mode

pub run-IsSound :
    (size : ℕ) (base : Bytes) (ts : List Turn) (s : System)
    → IsSound size base s
    → IsSound size base (run size ts s)
unfolding run
run-IsSound size base [] s v = v
run-IsSound size base (t ∷ ts) s v =
    run-IsSound size base ts (turn size t s) (turn-IsSound size base s v t)

pub new_wal-IsSound :
    (size : ℕ) (store : Manager) (calls : ℕ → Call)
    → IsReady store
    → ((i : ℕ) → Sends (calls i))
    → IsSound size (log_bytes store) (new_wal store calls)
unfolding new_wal
new_wal-IsSound size store calls r h = record {
  ready = r;
  live = tt;
  written = [];
  bytes = [];
  form = unfold flatten in refl;
  log = sym (append-nil (log_bytes store));
  in_order = refl;
  forms = tt;
  sends = h;
  room = omega arith;
}

-- On a disk that does not fail, in every interleaving of the worker with any calls of `Write` whose
-- arguments are short enough for the format: no row is lost, doubled or overtaken. The log is what it
-- was at the start, followed by the first of the rows that were sent; the others are in the buffer
-- and then in the channel, in order, and the channel never holds more than its capacity.
pub run_rows :
    (size : ℕ) (store : Manager) (calls : ℕ → Call) (ts : List Turn)
    → IsReady store
    → ((i : ℕ) → Sends (calls i))
    → (written : List Row) × (bytes : Bytes) × (flatten written ≡ ok bytes)
      × (log_bytes (run size ts (new_wal store calls)).worker.store ≡ log_bytes store ++ bytes)
      × ((run size ts (new_wal store calls)).sent
          ≡ written
            ++ ((run size ts (new_wal store calls)).worker.query_buf
                ++ (run size ts (new_wal store calls)).query_ch))
      × (length (run size ts (new_wal store calls)).query_ch ≤ size)
run_rows size store calls ts r h =
    let v =
      run-IsSound size (log_bytes store) ts (new_wal store calls)
        (new_wal-IsSound size store calls r h) in
    (v.written, v.bytes, v.form, v.log, v.in_order, v.room)
