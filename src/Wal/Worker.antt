-- ===== src/Wal/Worker.antt =====
-- internal/database/wal/wal.go: the calls of `Write` and the worker that they share a channel, a mutex
-- and an id generator with, as the single accesses that other goroutines can come between.
pub mod Sound
pub mod Rows
pub mod Fair
pub mod Answers
pub mod Shutdown
pub mod Early
pub mod Late
use laguna.Prelude.{
  ℕ, suc, ◌==◌, List, [], ◌∷◌, ◌++◌, length, ltb, leb, if◌then◌else◌, Bytes, Option, none, some,
  Error, Bool, true, false,
}
use laguna.Prelude.{Result, ok, err, fault, Fault, makechan_size, codes}
use laguna.Prelude.Int.{ℤ, pos, negsuc, is_nonpositive}
use laguna.Query.{Query}
use laguna.Utils.IdGenerator
use laguna.Utils.IdGenerator.{Generator}
use laguna.Segment.Manager.{Manager}
use laguna.Wal.Row.{Row, new_row}
use laguna.Wal.Flush.{Worker, flush}

-- A call of `Write`: in front of the check of its context, which finds an error or none; with its row;
-- behind the send; returned, with the error or the future.
pub data Call : Type 0 where
  called : Option Error → Query → Call
  numbered : Row → Call
  delivered : Call
  refused : Error → Call
  returned : Call

-- The worker in its loop, in the loop that empties the channel, or behind it; or a flush did not return.
pub data Mode : Type 0 where
  running draining stopped : Mode
  stuck : Fault → Mode

-- The log: what the worker and the calls share. `sent` and `registered` remember, for the statements,
-- which rows went into the channel and whose futures into `future_resp`, in order. A call is known by
-- its number, which is that of its future.
pub record System : Type 0 where
  pub worker : Worker
  pub query_ch : List Row
  pub lsn_gen : Generator
  pub calls : ℕ → Call
  pub mode : Mode
  pub sent : List Row
  pub registered : List ℕ

abbrev pub default_flush_batch_size : ℕ
default_flush_batch_size = 100

-- The batch size of NewWAL, which is the capacity of the channel; a negative one makes it panic.
unfoldable pub batch_size_of : ℤ → Result ℕ
batch_size_of (pos ℕ.zero) = ok default_flush_batch_size
batch_size_of (pos (suc n)) = ok (suc n)
batch_size_of (negsuc n) = fault makechan_size

-- An enabled log, with the calls that will be made.
unfoldable pub new_wal : Manager → (ℕ → Call) → System
new_wal store calls = record {
  worker = record { store = store; query_buf = []; future_resp = []; answers = [] };
  query_ch = [];
  lsn_gen = IdGenerator.new;
  calls = calls;
  mode = running;
  sent = [];
  registered = [];
}

abbrev pub update : (ℕ → Call) → ℕ → Call → ℕ → Call
update calls i c j = if i == j then c else calls j

abbrev pub buffer : Row → Worker → Worker
buffer r w = record w { query_buf = w.query_buf ++ (r ∷ []) }

abbrev pub next_mode : Result (Unit {0}) → Mode → Mode
next_mode (fault x) m = stuck x
next_mode _ m = m

-- A flush, and the mode behind it.
unfoldable pub flush_now : Mode → System → System
flush_now m s = record s { worker = (flush s.worker).0; mode = next_mode (flush s.worker).1 m }

-- Who runs next: a call of `Write`; the worker, with the case of `select` that it takes.
pub data Turn : Type 0 where
  write : ℕ → Turn
  receive tick cancel drain : Turn

module _ (size : ℕ) where
  -- The next access of a call: its row with the next id; the send, which waits while the channel is
  -- full; the future, under the mutex.
  abbrev pub write_turn : ℕ → Call → System → System
  write_turn i (called (some e) q) s = record s { calls = update s.calls i (refused e) }
  write_turn i (called none q) s = record s {
    lsn_gen = (IdGenerator.next_id s.lsn_gen).0;
    calls =
        update s.calls i (numbered (new_row (IdGenerator.next_id s.lsn_gen).1 q.method_id q.args));
  }
  write_turn i (numbered r) s =
      if ltb (length s.query_ch) size
      then record s {
        query_ch = s.query_ch ++ (r ∷ []);
        calls = update s.calls i delivered;
        sent = s.sent ++ (r ∷ []);
      }
      else s
  write_turn i delivered s = record s {
    worker = record s.worker { future_resp = s.worker.future_resp ++ (i ∷ []) };
    calls = update s.calls i returned;
    registered = s.registered ++ (i ∷ []);
  }
  write_turn i _ s = s

  abbrev pub taken : Row → List Row → System → System
  taken r rest s = record s { query_ch = rest; worker = buffer r s.worker }

  abbrev pub flush_if : Bool → System → System
  flush_if true s = flush_now running s
  flush_if false s = s

  -- A row from the channel, and a flush if the buffer is full.
  abbrev pub receive_turn : List Row → System → System
  receive_turn [] s = s
  receive_turn (r ∷ rest) s =
      flush_if (leb size (length (s.worker.query_buf ++ (r ∷ [])))) (taken r rest s)

  abbrev pub tick_turn : List Row → System → System
  tick_turn [] s = s
  tick_turn (r ∷ rest) s = flush_now running s

  -- The loop behind the context's end, which ends by a flush when the channel is empty.
  abbrev pub drain_turn : List Row → System → System
  drain_turn [] s = flush_now stopped s
  drain_turn (r ∷ rest) s = taken r rest s

  abbrev pub worker_turn : Turn → Mode → System → System
  worker_turn receive running s = receive_turn s.query_ch s
  worker_turn tick running s = tick_turn s.worker.query_buf s
  worker_turn cancel running s = record s { mode = draining }
  worker_turn drain draining s = drain_turn s.query_ch s
  worker_turn _ _ s = s

  unfoldable pub turn : Turn → System → System
  turn (write i) s = write_turn i (s.calls i) s
  turn receive s = worker_turn receive s.mode s
  turn tick s = worker_turn tick s.mode s
  turn cancel s = worker_turn cancel s.mode s
  turn drain s = worker_turn drain s.mode s

  unfoldable pub run : List Turn → System → System
  run [] s = s
  run (t ∷ ts) s = run ts (turn t s)
