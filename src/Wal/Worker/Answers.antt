-- ===== src/Wal/Worker/Answers.antt =====
-- Which futures are answered, how often, and when.
use laguna.Prelude.{
  ℕ, ◌≤◌, ◌≡◌, refl, arith, List, [], ◌∷◌, ◌++◌, Bytes, Option, none, Error, Bool, true, false, All,
}
use laguna.Segment.Manager.{Manager}
use laguna.Segment.Manager.Log.{IsReady, log_bytes}
use laguna.Wal.Row.{Row}
use laguna.Wal.Row.Codec.{IsShort}
use laguna.Wal.Worker.{
  Call, called, numbered, delivered, refused, returned, Mode, running, draining, stopped, stuck,
  System, new_wal, Turn, write, receive, tick, cancel, drain, taken, flush_if, receive_turn,
  drain_turn, worker_turn, turn, run,
}
use laguna.Wal.Worker.Sound.{IsSound, Sends, taken-IsSound}
use laguna.Wal.Worker.Rows.{new_wal-IsSound, turn-IsSound}
use laguna.Wal.Worker.Fair.{
  answered, count, IsFair, flush_now-IsFair, same-IsFair, write_turn-IsFair, tick_turn-IsFair,
  taken-IsFair,
}

flush_if-IsFair :
    (size : ℕ) (base : Bytes) (s : System) (b : Bool)
    → IsSound size base s
    → IsFair s
    → IsFair (flush_if size b s)
flush_if-IsFair size base s true v f = flush_now-IsFair size base s v f running
flush_if-IsFair size base s false v f = f

module _ (size : ℕ) (base : Bytes) (s : System) (v : IsSound size base s) (f : IsFair s) where
  receive_turn-IsFair : (ch : List Row) → s.query_ch ≡ ch → IsFair (receive_turn size ch s)
  receive_turn-IsFair [] e = f
  receive_turn-IsFair (r ∷ rest) e =
      flush_if-IsFair size base (taken size r rest s) _ (taken-IsSound size base s v r rest e)
        (taken-IsFair size base s v f r rest)

  drain_turn-IsFair : (ch : List Row) → IsFair (drain_turn size ch s)
  drain_turn-IsFair [] = flush_now-IsFair size base s v f stopped
  drain_turn-IsFair (r ∷ rest) = taken-IsFair size base s v f r rest

  worker_turn-IsFair : (t : Turn) (m : Mode) → IsFair (worker_turn size t m s)
  worker_turn-IsFair receive running = receive_turn-IsFair s.query_ch refl
  worker_turn-IsFair tick running = tick_turn-IsFair size base s v f s.worker.query_buf
  worker_turn-IsFair cancel running =
      same-IsFair size base s v f (record s { mode = draining }) refl refl refl refl
  worker_turn-IsFair drain draining = drain_turn-IsFair s.query_ch
  worker_turn-IsFair (write i) m = f
  worker_turn-IsFair receive draining = f
  worker_turn-IsFair receive stopped = f
  worker_turn-IsFair receive (stuck x) = f
  worker_turn-IsFair tick draining = f
  worker_turn-IsFair tick stopped = f
  worker_turn-IsFair tick (stuck x) = f
  worker_turn-IsFair cancel draining = f
  worker_turn-IsFair cancel stopped = f
  worker_turn-IsFair cancel (stuck x) = f
  worker_turn-IsFair drain running = f
  worker_turn-IsFair drain stopped = f
  worker_turn-IsFair drain (stuck x) = f

  turn-IsFair : (t : Turn) → IsFair (turn size t s)
  unfolding turn
  turn-IsFair (write i) = write_turn-IsFair size base s v f i (s.calls i) refl
  turn-IsFair receive = worker_turn-IsFair receive s.mode
  turn-IsFair tick = worker_turn-IsFair tick s.mode
  turn-IsFair cancel = worker_turn-IsFair cancel s.mode
  turn-IsFair drain = worker_turn-IsFair drain s.mode

run-IsFair :
    (size : ℕ) (base : Bytes) (ts : List Turn) (s : System)
    → IsSound size base s
    → IsFair s
    → IsFair (run size ts s)
unfolding run
run-IsFair size base [] s v f = f
run-IsFair size base (t ∷ ts) s v f =
    run-IsFair size base ts (turn size t s) (turn-IsSound size base s v t)
      (turn-IsFair size base s v f t)

-- A call of `Write` that has not begun.
abbrev pub IsNew : Call → Type 0
IsNew (called e q) = All IsShort q.args
IsNew _ = ⊥

new-Sends : (c : Call) → IsNew c → Sends c
new-Sends (called e q) h = h
new-Sends (numbered r) h = absurd h
new-Sends delivered h = absurd h
new-Sends (refused x) h = absurd h
new-Sends returned h = absurd h

-- On a disk that does not fail, in every interleaving of the worker with any calls of `Write` that have
-- not begun and whose arguments are short enough for the format: the futures that were answered, and
-- then those that wait, are those that calls have registered, in order; no future is registered
-- twice, so that none is answered twice; and no answer is an error.
pub run_answers :
    (size : ℕ) (store : Manager) (calls : ℕ → Call) (ts : List Turn)
    → IsReady store
    → ((i : ℕ) → IsNew (calls i))
    → (answered (run size ts (new_wal store calls)).worker.answers
          ++ (run size ts (new_wal store calls)).worker.future_resp
        ≡ (run size ts (new_wal store calls)).registered)
      × ((i : ℕ) → count i (run size ts (new_wal store calls)).registered ≤ 1)
      × All
          (λ (p : ℕ × Option Error). p.1 ≡ none)
          (run size ts (new_wal store calls)).worker.answers
run_answers size store calls ts r h =
    let v = new_wal-IsSound size store calls r (λ i. new-Sends (calls i) (h i)) in
    let f = run-IsFair size (log_bytes store) ts (new_wal store calls) v new_wal-IsFair in
    (f.fair, f.once, f.good)
  where
    new_wal-IsFair : IsFair (new_wal store calls)
    new_wal-IsFair =
        unfold new_wal in
        record { fair = refl; good = tt; once = λ i. omega arith; fresh = λ i k. refl }
