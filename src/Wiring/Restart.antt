-- ===== src/Wiring/Restart.antt =====
-- InitDB on the files that another run of the program has left.
use laguna.Prelude.{
  ℕ, ◌≡◌, refl, sym, ap, ◌∙◌, List, [], Bytes, true, Option, Result, ok, >>=-eq-ok, Bool-cases, inl,
  inr, str_eq, codes,
}
use laguna.Prelude.Int.{ℤ}
use laguna.Utils.Context.{Ctx}
use laguna.Query.{Query}
use laguna.Storage.Memory
use laguna.Storage.Laws.{value}
use laguna.Database.{Database}
use laguna.Database.Exec.{effects}
use laguna.Database.Start.{start_lem}
use laguna.Database.Restore.{IsDurable, Serves, Serves-IsDurable, empty_view}
use laguna.Segment.Manager.{File, Manager}
use laguna.Segment.Opening.{new_file_segment, new_segment_manager}
use laguna.Logs.Segments.Restart.{names_of}
use laguna.Wal.Worker.{Turn}
use laguna.Wal.FileLog.{FileLog, Wait, all_files, opened_disk, started, start_log}
use laguna.Wal.FileLog.Quiet.{queries_in}
use laguna.Wal.FileLog.Reopen.{Follows, start_log_lem}
use laguna.Wiring.{Config, WalConf, EngineConf, new_engine}
use laguna.Wiring.Log.{Settings, settings_of, enabled, new_wal_of, program_wal}
use laguna.Wiring.Start.{
  Disk, init_segment_manager, init_wal, Replication, init_replication, Started, init_db,
}
use laguna.Wiring.Durable.{program_entries, program_log}

new_engine_lem : (c : EngineConf) → new_engine c ≡ Memory.new_engine c.shards
unfolding new_engine
new_engine_lem c = elim (Bool-cases (str_eq c.type_name (codes "inmemory"))) [
  | inl y ↦ rw y refl
  | inr n ↦ rw n refl
]

-- The log that InitDB opens is the one that a start of the log finds.
opened_log :
    (d : Disk) (c : WalConf) (settings : Settings) (fs : List File) (s : FileLog)
    → c.enable ≡ true
    → settings_of c ≡ ok settings
    → d.dir c.directory ≡ ok fs
    → start_log c.directory c.max_segment_size d.clock d.outcomes d.fresh fs ≡ ok s
    → (sm : Manager) × (init_segment_manager d c ≡ ok sm)
      × (init_wal d c sm ≡ ok (enabled settings s))
unfolding init_segment_manager init_wal new_wal_of start_log
opened_log d c settings fs s on set found h =
    let (segment, e, k) =
      >>=-eq-ok
        (new_file_segment (opened_disk c.directory d.fresh fs) c.directory d.fresh
          c.max_segment_size)
        _ h in
    let same : started d.clock d.outcomes fs segment ≡ s = cc k in
    (
      new_segment_manager d.clock d.outcomes [] segment,
      rw (found, e) refl,
      rw (set, found, on) (ap (λ (t : FileLog). ok (enabled settings t)) same),
    )

module _ (N : Type 0) (Connection : Type 0) (dial : Bytes → N → N × Result Connection)
    (set_deadline : Connection → ℤ → N → N × Result (Unit {0}))
    (write : Connection → Bytes → N → N × Result (Unit {0})) (net : N) (schedule : ℕ → List Turn)
    (waits : ℕ → Wait) (schedule' : ℕ → List Turn) (waits' : ℕ → Wait) where
  abbrev pub Before : Type 0
  Before = Database (program_wal schedule waits)

  -- On a master whose log is enabled, over one directory that both configurations name: after requests
  -- that were answered without an error, one call at a time, on a disk that does not fail, before the
  -- end or behind it, and with a clock whose names of new files are above those that are there, the
  -- program can end, and InitDB succeeds on the files that are left, if the replication is set up.
  -- Every key has the value that the last run gave it, and the database is durable again.
  pub init_db_survives :
      (db db' : Before) (requests : List (Ctx × Query)) (old settings : Settings) (l : FileLog)
      (d : Disk) (c : Config)
      (repl : Option (Replication N Connection dial set_deadline write net schedule' waits'))
      → d.outcomes ≡ []
      → IsDurable (program_wal schedule waits) (program_log schedule waits) db
      → Serves (program_wal schedule waits) (program_log schedule waits) db requests db'
      → db'.wal ≡ enabled old l
      → c.wal.enable ≡ true
      → c.replication.is_master ≡ true
      → settings_of c.wal ≡ ok settings
      → settings.directory ≡ c.wal.directory
      → old.directory ≡ c.wal.directory
      → d.dir c.wal.directory ≡ ok (all_files l)
      → Follows d.clock (names_of (all_files l))
      → init_replication N Connection dial set_deadline write net schedule' waits' c ≡ ok repl
      → (s : Started N Connection dial set_deadline write net schedule' waits') × (init_db N
            Connection dial set_deadline write net schedule' waits' d c
          ≡ ok s)
        × ((j : Bytes) → value s.db.st j ≡ value db'.st j)
        × IsDurable (program_wal schedule' waits') (program_log schedule' waits') s.db
  unfolding init_db
  init_db_survives db db' requests old settings l d c repl sound dur r w on master set dir old_dir
        found follows replicated =
      let e = Serves-IsDurable (program_wal schedule waits) (program_log schedule waits) dur r in
      let (s, opened, quiet, kept) =
        start_log_lem c.wal.directory d.fresh c.wal.max_segment_size d.clock l (rw w at e.good)
          follows in
      let (sm, managed, logged) =
        opened_log d c.wal settings (all_files l) s on set found (rw sound opened) in
      let same : program_entries (enabled settings s) ≡ program_entries db'.wal =
        ap (λ t. queries_in t (all_files s)) (dir ∙ sym old_dir)
        ∙ ap (queries_in old.directory) kept
        ∙ ap program_entries (sym w) in
      let (db'', started_db, values, durable) =
        start_lem (program_wal schedule' waits') (program_log schedule' waits') c.engine.shards
          (value db'.st) (enabled settings s) quiet refl (rw same e.executable)
          (λ j. ap (λ (qs : List Query). effects qs empty_view j) same ∙ e.replayed j) in
      (
        record { db = db''; repl = repl },
        rw (managed, logged, replicated, new_engine_lem c.engine, master, started_db) refl,
        values,
        durable,
      )
