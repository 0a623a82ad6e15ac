-- ===== src/Replication/Slave/Loop.antt =====
-- internal/database/replication/slave.go: the constructors, and startReplication, round after round. The
-- interval between two rounds is only waited for.
use laguna.Prelude.{List, [], ◌∷◌, Bytes, Option, none, some, Error, Result, ok, err, fault}
use laguna.Utils.Context.{Ctx}
use laguna.Storage.{Storage}
use laguna.Wal.Row.{Row}
use laguna.Replication.Slave.{Slave, get_updates}

module _ (L : Type 0) (write : List Row → L → L × Result (Unit {0}))
    (send : Ctx → Bytes → Result Bytes) where
  -- NewSlaveWithWal and NewSlave; the position is 0, whatever the storage and the log hold.
  unfoldable pub new_slave_with_wal : L → Storage → Slave L write send
  new_slave_with_wal l st = record { st = st; log_writer = some l; last_lsn_written = 0 }

  unfoldable pub new_slave : Storage → Slave L write send
  new_slave st = record { st = st; log_writer = none; last_lsn_written = 0 }

  -- What follows a round: an error is logged, and only makes the wait longer.
  abbrev pub after_round :
      Slave L write send × Result (Unit {0})
      → (Slave L write send → Slave L write send × Result (Unit {0}))
      → Slave L write send × Result (Unit {0})
  after_round (s, ok _) next = next s
  after_round (s, err e) next = next s
  after_round (s, fault x) next = (s, fault x)

  -- One round, in front of which the loop looks at the context.
  abbrev pub unless_ended :
      Option Error
      → Slave L write send
      → Slave L write send × Result (Unit {0})
      → Slave L write send × Result (Unit {0})
  unless_ended none s rest = rest
  unless_ended (some e) s rest = (s, ok tt)

  -- The loop, over the states of its context that its rounds find.
  unfoldable pub start_replication :
      List Ctx → Slave L write send → Slave L write send × Result (Unit {0})
  start_replication [] s = (s, ok tt)
  start_replication (ctx ∷ ctxs) s =
      unless_ended ctx.err s
        (after_round (get_updates L write send ctx s) λ s'. start_replication ctxs s')
