-- ===== src/Wal/Worker/Shutdown.antt =====
-- What the worker does when its context ends.
use laguna.Prelude.{◌≡◌, List, []}
use laguna.Segment.Manager.{Manager}
use laguna.Wal.Row.{Row}
use laguna.Wal.Worker.{stopped, System}

-- The worker has ended, and nothing is left to write or to answer.
record IsDone (sent : List Row) (s : System) : Type 0 where
  ended : s.mode ≡ stopped
  channel : s.query_ch ≡ []
  buffer : s.worker.query_buf ≡ []
  futures : s.worker.future_resp ≡ []
  same : s.sent ≡ sent
