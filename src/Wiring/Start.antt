-- ===== src/Wiring/Start.antt =====
-- internal/database/initialization.go, internal/database/replication/initialization.go and main.go: how
-- the program is put together by its configuration, and how it ends.
use laguna.Prelude.{
  ℕ, List, [], Bytes, Bool, Option, none, some, not_exist, Result, ok, err, fault, nil_pointer,
  ◌>>=◌, if◌then◌else◌,
}
use laguna.Prelude.Int.{ℤ}
use laguna.Utils.Dir.{Files}
use laguna.Storage
use laguna.Storage.{Storage}
use laguna.Segment.Manager.{File, Failure, Manager}
use laguna.Segment.Opening.{new_file_segment, new_segment_manager}
use laguna.Transport.Client.{Client, new_client}
use laguna.Transport.Listener.{TcpListener, new_listener}
use laguna.Database.{Database, new_database}
use laguna.Wal.Worker.{Turn}
use laguna.Wal.FileLog.{Wait, read_only, opened_disk}
use laguna.Wiring.{Config, WalConf, new_engine, Listener, tcp, cli, new_listener_of}
use laguna.Wiring.Log.{ProgramLog, new_wal_of, program_wal}

-- What the program finds: the files of a directory (none if it is made), or why it cannot be made; the
-- outcomes of the next writes to the disk, as far as they are no plain successes; and the names that the clock gives to new files.
pub record Disk : Type 0 where
  pub dir : Bytes → Result (List File)
  pub outcomes : List (Option Failure)
  pub clock : ℕ → Bytes
  pub fresh : Bytes

abbrev pub files_at : Bytes → Bytes → Result (List File) → Files
files_at directory fresh (ok fs) = opened_disk directory fresh fs
files_at directory fresh (err e) = record {
  names = err not_exist;
  make = err e;
  content = λ p. err not_exist;
}
files_at directory fresh (fault x) = record {
  names = fault x;
  make = fault x;
  content = λ p. fault x;
}

abbrev pub files_read : Result (List File) → List File
files_read (ok fs) = read_only fs
files_read (err e) = []
files_read (fault x) = []

-- initSegmentManager
unfoldable pub init_segment_manager : Disk → WalConf → Result Manager
init_segment_manager d c =
    new_file_segment (files_at c.directory d.fresh (d.dir c.directory)) c.directory d.fresh
      c.max_segment_size
    >>= λ segment. ok (new_segment_manager d.clock d.outcomes [] segment)

-- initWal
unfoldable pub init_wal : Disk → WalConf → Manager → Result ProgramLog
init_wal d c sm = new_wal_of c (files_read (d.dir c.directory)) sm

-- What the network and the logger return to the calls at the end of the program: for the socket of the
-- listener, for that of the replication, and for Sync.
pub record Ending : Type 0 where
  pub listener : Result (Unit {0})
  pub replication : Result (Unit {0})
  pub sync : Result (Unit {0})

-- An error that is only logged, or ignored.
abbrev pub error_logged : Result (Unit {0}) → Result (Unit {0})
error_logged (ok u) = ok u
error_logged (err e) = ok tt
error_logged (fault x) = fault x

-- `ls.Close()`: tcpListener.Close, or the terminal's, which only logs.
unfoldable pub close_listener : Listener → Result (Unit {0}) → Result (Unit {0})
close_listener (tcp l) closing = error_logged closing
close_listener cli closing = ok tt

module _ (N : Type 0) (Connection : Type 0) (dial : Bytes → N → N × Result Connection)
    (set_deadline : Connection → ℤ → N → N × Result (Unit {0}))
    (write : Connection → Bytes → N → N × Result (Unit {0})) (net : N) (schedule : ℕ → List Turn)
    (waits : ℕ → Wait) where
  -- The replication: a master with the log's directory and its listener; a slave with its interval, its
  -- client, and whether it has a log to write to.
  pub data Replication : Type 0 where
    master : Bytes → TcpListener → Replication
    slave : ℤ → Client N Connection dial set_deadline write → Bool → Replication

  -- `initMaster`
  unfoldable pub init_master : Config → Result Replication
  init_master c = new_listener c.replication.server >>= λ l. ok (master c.wal.directory l)

  abbrev pub with_client :
      Config → Client N Connection dial set_deadline write × Result (Unit {0}) → Result Replication
  with_client c (client, ok _) = ok (slave c.replication.sync_interval client c.wal.enable)
  with_client c (client, err e) = err e
  with_client c (client, fault x) = fault x

  -- `initSlave`
  unfoldable pub init_slave : Config → Result Replication
  init_slave c =
      with_client c (new_client N Connection dial set_deadline write c.replication.client net)

  -- InitReplication, which returns nil where the replication is disabled.
  unfoldable pub init_replication : Config → Result (Option Replication)
  init_replication c =
      if c.replication.enable
      then (if c.replication.is_master
          then (init_master c >>= λ r. ok (some r))
          else (init_slave c >>= λ r. ok (some r)))
      else ok none

  -- InitDB
  abbrev pub Started : Type 0
  Started = record { db : Database (program_wal schedule waits); repl : Option Replication }

  unfoldable pub init_db : Disk → Config → Result Started
  init_db d c = do
    sm ← init_segment_manager d c.wal
    log ← init_wal d c.wal sm
    db ←
        new_database (program_wal schedule waits) (Storage.new (new_engine c.engine))
          c.replication.is_master log
    repl ← init_replication c
    ok (record { db = db; repl = repl })

  -- Client.Close, which ignores the error of the connection; a client whose connection could not be made
  -- has none.
  abbrev close_client : Option Connection → Result (Unit {0}) → Result (Unit {0})
  close_client none closing = fault nil_pointer
  close_client (some conn) closing = error_logged closing

  -- `repl.Close()` in `main`: a call on a nil interface, Master.Close or Slave.Close.
  unfoldable pub close_replication : Option Replication → Result (Unit {0}) → Result (Unit {0})
  close_replication none closing = fault nil_pointer
  close_replication (some (master directory l)) closing = error_logged closing
  close_replication (some (slave interval client logs)) closing = close_client client.conn closing

  -- `main`, up to the end of its context and behind it. An error of InitDB is log.Fatal, which ends the
  -- program; a panic of a constructor or of a call at the end ends it, too. Between the constructors
  -- and the end, goroutines are started, of which none is waited for.
  unfoldable pub main : Ending → Disk → Config → Result (Unit {0})
  main ending d c = do
    started ← init_db d c
    ls ← new_listener_of c.transport
    _ ← close_listener ls ending.listener
    _ ← close_replication started.repl ending.replication
    error_logged ending.sync
