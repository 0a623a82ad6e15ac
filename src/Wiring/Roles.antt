-- ===== src/Wiring/Roles.antt =====
-- What a program is by its configuration, and how it ends.
use laguna.Prelude.{
  ℕ, ◌≡◌, refl, ap, sym, ◌∙◌, List, Bytes, Bool, true, false, Option, none, some, Result, ok, err,
  fault, nil_pointer, wrap_err, ◌>>>◌, >>=-eq-ok, Bool-cases, inl, inr,
}
use laguna.Prelude.Int.{ℤ}
use laguna.Query.{Query}
use laguna.Storage
use laguna.Storage.{Storage}
use laguna.Transport.Client.{Client, new_client}
use laguna.Transport.Listener.{TcpListener, new_listener}
use laguna.Database.{Wal, Database, restore_all, restore_from_wal, new_database}
use laguna.Wal.Worker.{Turn}
use laguna.Wal.FileLog.{Wait}
use laguna.Wiring.{Config, new_engine, Listener, new_listener_of}
use laguna.Wiring.Log.{ProgramLog, program_wal}
use laguna.Wiring.Start.{
  Disk, init_segment_manager, init_wal, Replication, init_master, with_client, init_slave,
  init_replication, Started, init_db, Ending, close_listener, close_replication, main,
}

module _ (w : Wal) where
  is_master-streamed :
      (db : Database w) (text : Bytes) (stream : Result (List (Result (List Query))))
      → (wrap_err text (db, stream) >>> λ batches db'. restore_all w db' batches).0.is_master
        ≡ db.is_master
  is_master-streamed db text (ok batches) = refl
  is_master-streamed db text (err e) = refl
  is_master-streamed db text (fault x) = refl

  is_master-restore : (db : Database w) → (restore_from_wal w db).0.is_master ≡ db.is_master
  unfolding restore_from_wal
  is_master-restore db = elim (Bool-cases (w.is_enable db.wal)) [
    | inl e ↦ rw e (is_master-streamed (record db { wal = (w.restore_stream db.wal).0 }) _ _)
    | inr n ↦ rw n refl
  ]

  is_master-new_database :
      (st : Storage) (b : Bool) (log : w.State) (db : Database w)
      → new_database w st b log ≡ ok db
      → db.is_master ≡ b
  unfolding new_database
  is_master-new_database st b log db h =
      let start : Database w = record { st = st; wal = log; is_master = b } in
      let (u, e, k) = >>=-eq-ok (restore_from_wal w start).1 _ h in
      let same : (restore_from_wal w start).0 ≡ db = cc k in
      ap (λ (x : Database w). x.is_master) (sym same) ∙ is_master-restore start

module _ (N : Type 0) (Connection : Type 0) (dial : Bytes → N → N × Result Connection)
    (set_deadline : Connection → ℤ → N → N × Result (Unit {0}))
    (write : Connection → Bytes → N → N × Result (Unit {0})) (net : N) (schedule : ℕ → List Turn)
    (waits : ℕ → Wait) where
  abbrev Replica : Type 0
  Replica = Replication N Connection dial set_deadline write net schedule waits

  -- The parts of a start that succeeds.
  started_parts :
      (d : Disk) (c : Config) (s : Started N Connection dial set_deadline write net schedule waits)
      → init_db N Connection dial set_deadline write net schedule waits d c ≡ ok s
      → (log : ProgramLog) × (new_database
            (program_wal schedule waits)
            (Storage.new (new_engine c.engine))
            c.replication.is_master
            log
          ≡ ok s.db)
        × (init_replication N Connection dial set_deadline write net schedule waits c ≡ ok s.repl)
  unfolding init_db
  started_parts d c s h =
      let (sm, e₁, k₁) = >>=-eq-ok (init_segment_manager d c.wal) _ h in
      let (log, e₂, k₂) = >>=-eq-ok (init_wal d c.wal sm) _ k₁ in
      let (db, e₃, k₃) = >>=-eq-ok (new_database (program_wal schedule waits) _ _ log) _ k₂ in
      let (repl, e₄, k₄) =
        >>=-eq-ok (init_replication N Connection dial set_deadline write net schedule waits c) _
          k₃ in
      let same_db : db ≡ s.db = cc k₄ in
      let same_repl : repl ≡ s.repl = cc k₄ in (log, e₃ ∙ ap ok same_db, e₄ ∙ ap ok same_repl)

  -- Which role the replication has: none, a master over the directory of the configuration, or a
  -- slave, with a log to write to where the log is enabled.
  pub data HasRole (c : Config) : Option Replica → Type 0 where
    alone : c.replication.enable ≡ false → HasRole c none
    is_master :
        (l : TcpListener)
        → c.replication.enable ≡ true
        → c.replication.is_master ≡ true
        → HasRole c (some (Replication.master c.wal.directory l))
    is_slave :
        (client : Client N Connection dial set_deadline write)
        → c.replication.enable ≡ true
        → c.replication.is_master ≡ false
        → HasRole c (some (Replication.slave c.replication.sync_interval client c.wal.enable))

  slave_role :
      (c : Config) (p : Client N Connection dial set_deadline write × Result (Unit {0}))
      (r : Replica)
      → c.replication.enable ≡ true
      → c.replication.is_master ≡ false
      → with_client N Connection dial set_deadline write net schedule waits c p ≡ ok r
      → HasRole c (some r)
  slave_role c (client, ok u) r y n h =
      let same : Replication.slave c.replication.sync_interval client c.wal.enable ≡ r = cc h in
      rw (← same) (HasRole.is_slave client y n)
  slave_role c (client, err e) r y n h = absurd (cc h)
  slave_role c (client, fault x) r y n h = absurd (cc h)

  replication_role :
      (c : Config) (repl : Option Replica)
      → init_replication N Connection dial set_deadline write net schedule waits c ≡ ok repl
      → HasRole c repl
  unfolding init_replication init_master init_slave
  replication_role c repl h = elim (Bool-cases c.replication.enable) [
    | inr n ↦ let same : none ≡ repl = (let k = rw n at h in cc k) in rw (← same) (HasRole.alone n)
    | inl y ↦ elim (Bool-cases c.replication.is_master) [
      | inl m ↦
          let (r, e, k) =
            >>=-eq-ok (init_master N Connection dial set_deadline write net schedule waits c) _
              (rw (y, m) at h) in
          let (l, e', k') = >>=-eq-ok (new_listener c.replication.server) _ e in
          let same : some (Replication.master c.wal.directory l) ≡ repl = cc (k, k') in
          rw (← same) (HasRole.is_master l y m)
      | inr n ↦
          let (r, e, k) =
            >>=-eq-ok (init_slave N Connection dial set_deadline write net schedule waits c) _
              (rw (y, n) at h) in
          let same : some r ≡ repl = cc k in
          rw (← same) (
            slave_role c (new_client N Connection dial set_deadline write c.replication.client net)
              r y n e)
    ]
  ]

  -- A start that succeeds has the role of the configuration: the database is a master where `is_master`
  -- is set, and there is a replication where it is enabled, a master over the log's directory or a slave.
  pub init_db_roles :
      (d : Disk) (c : Config) (s : Started N Connection dial set_deadline write net schedule waits)
      → init_db N Connection dial set_deadline write net schedule waits d c ≡ ok s
      → HasRole c s.repl × (s.db.is_master ≡ c.replication.is_master)
  init_db_roles d c s h =
      let (log, e, r) = started_parts d c s h in
      (
        replication_role c s.repl r,
        is_master-new_database (program_wal schedule waits) _ _ log s.db e,
      )

  -- A program whose InitDB and whose listener are made without an error, and whose replication is
  -- disabled, ends by a nil pointer behind its context, whatever the network and the logger return,
  -- unless the closing of the listener panics itself.
  main_ends :
      (ending : Ending) (d : Disk) (c : Config)
      (s : Started N Connection dial set_deadline write net schedule waits) (l : Listener)
      → init_db N Connection dial set_deadline write net schedule waits d c ≡ ok s
      → new_listener_of c.transport ≡ ok l
      → c.replication.enable ≡ false
      → close_listener l ending.listener ≡ ok tt
      → main N Connection dial set_deadline write net schedule waits ending d c ≡ fault nil_pointer
  unfolding main close_replication
  main_ends ending d c s l h k n closes =
      let (log, e, r) = started_parts d c s h in
      rw (h, k, closes, alone s.repl (replication_role c s.repl r)) refl
    where
      alone : (repl : Option Replica) → HasRole c repl → repl ≡ none
      alone none (HasRole.alone n') = refl
      alone (some r) (HasRole.is_master l' y m) = absurd (cc (n, y))
      alone (some r) (HasRole.is_slave client y n') = absurd (cc (n, y))
