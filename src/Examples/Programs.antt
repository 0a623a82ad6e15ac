-- ===== src/Examples/Programs.antt =====
-- Programs as they are configured.
use laguna.Prelude.{
  ℕ, ◌≡◌, refl, List, [], ◌∷◌, Bytes, codes, false, none, not_exist, Result, ok, err, if◌then◌else◌,
  str_eq,
}
use laguna.Prelude.Int.{ℤ}
use laguna.Storage
use laguna.Segment.Manager
use laguna.Segment.Manager.{Manager}
use laguna.Segment.Opening.{new_segment_manager}
use laguna.Segment.Manager.Log.{IsReady}
use laguna.Database.{Database, execute}
use laguna.Wal.Worker.{Turn}
use laguna.Wal.FileLog.{Wait}
use laguna.Wiring.{Config, WalConf, zero_config, new_engine, cli, new_listener_of}
use laguna.Wiring.Log.{Settings, settings, settings_of, default_directory, program_wal, disabled}
use laguna.Wiring.Start.{Disk, Replication, Started, init_segment_manager, init_db, main}
use laguna.Wiring.Roles.{HasRole, init_db_roles}
use laguna.Wiring.Defaults.{zero_segments}
use laguna.Examples.Parts.{set_row, set_row_bytes, marshal-set_row}

-- A network of one connection.
abbrev pub dial_one : Bytes → Unit {0} → Unit {0} × Result (Unit {0})
dial_one address n = (n, ok tt)

abbrev pub no_deadline : Unit {0} → ℤ → Unit {0} → Unit {0} × Result (Unit {0})
no_deadline conn d n = (n, ok tt)

abbrev pub write_all : Unit {0} → Bytes → Unit {0} → Unit {0} × Result (Unit {0})
write_all conn bytes n = (n, ok tt)

abbrev no_turns : ℕ → List Turn
no_turns i = []

abbrev no_waits : ℕ → Wait
no_waits i = record { before = none; turns = []; after = none }

-- An empty directory `wal`, and no other that could be made.
abbrev one_directory : Disk
one_directory = record {
  dir = λ name. if str_eq name (codes "wal") then ok [] else err not_exist;
  outcomes = [];
  clock = λ k. k ∷ [];
  fresh = codes "a";
}

-- A configuration that names nothing but the directory.
abbrev plain_config : Config
plain_config = record zero_config { wal = record zero_config.wal { directory = codes "wal" } }

abbrev PlainStarted : Type 0
PlainStarted = Started (Unit {0}) (Unit {0}) dial_one no_deadline write_all tt no_turns no_waits

abbrev plain_started : PlainStarted
plain_started = record {
  db = record {
    st = Storage.new (new_engine plain_config.engine);
    wal = disabled;
    is_master = false;
  };
  repl = none;
}

plain_starts :
    init_db
      (Unit {0})
      (Unit {0})
      dial_one
      no_deadline
      write_all
      tt
      no_turns
      no_waits
      one_directory
      plain_config
    ≡ ok plain_started
unfolding init_db init_segment_manager str_eq laguna.Segment.Opening.new_file_segment
    laguna.Utils.Dir.read_dir laguna.Segment.Opening.open_file laguna.Wiring.Start.init_wal
    laguna.Wiring.Log.new_wal_of laguna.Database.new_database laguna.Wiring.Start.init_replication
plain_starts = refl

init_db_roles_example :
    HasRole
      (Unit {0})
      (Unit {0})
      dial_one
      no_deadline
      write_all
      tt
      no_turns
      no_waits
      plain_config
      none
    × (plain_started.db.is_master ≡ false)
init_db_roles_example =
    init_db_roles (Unit {0}) (Unit {0}) dial_one no_deadline write_all tt no_turns no_waits
      one_directory plain_config plain_started plain_starts

abbrev default_settings : Settings
default_settings = settings zero_config.wal 100

zero_settings : settings_of zero_config.wal ≡ ok default_settings
unfolding settings_of laguna.Wal.Worker.batch_size_of
zero_settings = refl

no_empty_name : one_directory.dir [] ≡ err not_exist
unfolding str_eq
no_empty_name = refl

-- The manager of the empty directory.
abbrev plain_manager : Manager
plain_manager =
    new_segment_manager one_directory.clock [] []
      (record { file = record { name = codes "a"; content = [] }; size = 0; max_size = 0 })

plain_opens : init_segment_manager one_directory plain_config.wal ≡ ok plain_manager
unfolding init_segment_manager str_eq new_segment_manager laguna.Segment.Opening.new_file_segment
    laguna.Utils.Dir.read_dir laguna.Segment.Opening.open_file
plain_opens = refl

plain_manager-IsReady : IsReady plain_manager
unfolding new_segment_manager
plain_manager-IsReady = record { unlocked = refl; no_failures = refl; sized = refl }

plain_settings : settings_of plain_config.wal ≡ ok (settings plain_config.wal 100)
unfolding settings_of laguna.Wal.Worker.batch_size_of
plain_settings = refl

zero_segments_example :
    ((settings plain_config.wal 100).max_segment_size ≡ 1000000)
    × ((Manager.write (set_row ∷ []) plain_manager).1 ≡ ok tt)
    × ((Manager.write (set_row ∷ []) plain_manager).0.cur_seg.file.content ≡ set_row_bytes)
    × ((Manager.write (set_row ∷ []) plain_manager).0.cur_seg.max_size ≡ 0)
zero_segments_example =
    zero_segments one_directory plain_config.wal (settings plain_config.wal 100) plain_manager
      plain_manager set_row 0
      (0 ∷ 0 ∷ 0 ∷ 0 ∷ 0 ∷ 0 ∷ 1 ∷ 0 ∷ 0 ∷ 2 ∷ 0 ∷ 1 ∷ 107 ∷ 0 ∷ 1 ∷ 118 ∷ []) refl plain_settings
      plain_opens plain_manager-IsReady refl marshal-set_row
