-- ===== src/Wal/Flush.antt =====
-- internal/database/wal/wal.go: `flush`, which writes the buffered rows and answers those who wait.
pub mod Laws
use laguna.Prelude.{
  ℕ, List, [], ◌∷◌, ◌++◌, Option, none, some, Error, Result, ok, err, fault, ◌>>>◌,
}
use laguna.Prelude.Int.{pos}
use laguna.Utils.Retry.{Waits, with_retry}
use laguna.Wal.Row.{Row}
use laguna.Logs.Writer.{write_to}
use laguna.Segment.Manager
use laguna.Segment.Manager.{Manager}
use mathlib.Core.List.{map}

-- The log's worker: its writer, the rows that it buffers, the futures that wait (by number), and what
-- was put into futures so far.
pub record Worker : Type 0 where
  pub store : Manager
  pub query_buf : List Row
  pub future_resp : List ℕ
  pub answers : List (ℕ × Option Error)

-- context.Background() is never done.
abbrev pub background_waits : Waits
background_waits i = none

-- The writes of `flush`: two attempts, with a base delay of 100 milliseconds.
unfoldable pub flush_write : List Row → Manager → Manager × Result (Unit {0})
flush_write rows m =
    with_retry (pos 2) (pos 100000000) background_waits (some (write_to (some Manager.write) rows))
      m

-- Every waiting future is given the same answer and closed.
abbrev pub answer_all : Option Error → Worker → Worker
answer_all e w = record w {
  answers = w.answers ++ map (λ (i : ℕ). (i, e)) w.future_resp;
  future_resp = [];
}

-- Behind the writes: an error is only logged and handed to the futures, and the rows stay buffered.
abbrev pub flushed : Worker → Manager × Result (Unit {0}) → Worker × Result (Unit {0})
flushed w (m, ok _) = (answer_all none (record w { store = m; query_buf = [] }), ok tt)
flushed w (m, err e) = (answer_all (some e) (record w { store = m }), ok tt)
flushed w (m, fault x) = (record w { store = m }, fault x)

unfoldable pub flush : Worker → Worker × Result (Unit {0})
flush w = flushed w (flush_write w.query_buf w.store)
