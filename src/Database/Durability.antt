-- ===== src/Database/Durability.antt =====
-- The database over the log of segment files: what a client was told survives the end of the program.
use laguna.Prelude.{◌≡◌, refl, ap, ◌∙◌, ℕ, List, [], ◌∷◌, Bytes, true, Result, ok}
use laguna.Prelude.Int.{ℤ}
use laguna.Utils.Context.{Ctx}
use laguna.Query.{Query}
use laguna.Storage
use laguna.Storage.Memory.{new_engine}
use laguna.Storage.Laws.{value}
use laguna.Wal.Worker.{Turn}
use laguna.Wal.FileLog.{FileLog, Wait, all_files, file_wal, start_log}
use laguna.Wal.FileLog.Log.{file_log}
use laguna.Wal.FileLog.Quiet.{queries_in, queries_in_lem}
use laguna.Wal.FileLog.Reopen.{Follows, start_log_lem, first_log, first_log-IsQuiet, first_start}
use laguna.Wal.Restore.{query_of}
use mathlib.Core.List.{map}
use laguna.Logs.Segments.Restart.{names_of}
use laguna.Database.{Database, new_database}
use laguna.Database.Exec.{effects}
use laguna.Database.Start.{start_lem}
use laguna.Database.Restore.{IsDurable, Serves, Serves-IsDurable, empty_view}

-- How the worker and the calls of one run of the program take turns, its batch size and its clock.
pub record Run : Type 0 where
  pub size : ℕ
  pub max_size : ℕ
  pub schedule : ℕ → List Turn
  pub waits : ℕ → Wait
  pub clock : ℕ → Bytes
  pub fresh : Bytes

module _ (directory : Bytes) where
  abbrev pub RunDatabase : Run → Type 0
  RunDatabase p = Database (file_wal p.size directory p.schedule p.waits)

  abbrev pub RunIsDurable : (p : Run) → RunDatabase p → Type 0
  RunIsDurable p db =
      IsDurable (file_wal p.size directory p.schedule p.waits)
        (file_log p.size directory p.schedule p.waits) db

  abbrev pub RunServes : (p : Run) → RunDatabase p → List (Ctx × Query) → RunDatabase p → Type 0
  RunServes p db requests db' =
      Serves (file_wal p.size directory p.schedule p.waits)
        (file_log p.size directory p.schedule p.waits) db requests db'

  -- NewDatabase as a master, on the log of a run.
  abbrev pub open_database : (p : Run) → ℤ → FileLog → Result (RunDatabase p)
  open_database p shards s =
      new_database (file_wal p.size directory p.schedule p.waits) (Storage.new (new_engine shards))
        true s

  -- In an empty directory, the first start succeeds, and the database is durable.
  pub first_run :
      (p : Run) (shards : ℤ)
      → Follows p.clock (p.fresh ∷ [])
      → (s : FileLog) × (start_log directory p.max_size p.clock [] p.fresh [] ≡ ok s)
        × (db : RunDatabase p) × (open_database p shards s ≡ ok db)
        × ((j : Bytes) → value db.st j ≡ empty_view j)
        × RunIsDurable p db
  first_run p shards c =
      let s = first_log p.clock p.max_size p.fresh in
      let (quiet, empty) = first_log-IsQuiet p.fresh p.max_size p.clock c in
      let none_yet : queries_in directory (all_files s) ≡ [] =
        queries_in_lem directory s quiet ∙ ap (map query_of) empty in
      let (db, found, values, d) =
        start_lem (file_wal p.size directory p.schedule p.waits)
          (file_log p.size directory p.schedule p.waits) shards empty_view s quiet refl
          (rw none_yet tt) (λ j. rw none_yet (unfold effects in refl)) in
      (s, first_start directory p.fresh p.max_size p.clock, db, found, values, d)

  -- On a disk that does not fail, with one call at a time and the worker's turns between the accesses of
  -- the call and of its wait in any order: after requests that were all answered without an error, the
  -- program can end. The next start on the files that it leaves succeeds: every key has the value that
  -- the last run gave it, whatever the batch size, the schedule, the segment size and the
  -- number of shards of the new run, and the new database is as durable as the old one, so that this
  -- holds again for the requests that follow.
  pub survives :
      (p p' : Run) (shards : ℤ) (db db' : RunDatabase p) (requests : List (Ctx × Query))
      → RunIsDurable p db
      → RunServes p db requests db'
      → Follows p'.clock (names_of (all_files db'.wal))
      → (s : FileLog) × (start_log directory p'.max_size p'.clock [] p'.fresh (all_files db'.wal)
          ≡ ok s)
        × (db'' : RunDatabase p') × (open_database p' shards s ≡ ok db'')
        × ((j : Bytes) → value db''.st j ≡ value db'.st j)
        × RunIsDurable p' db''
  survives p p' shards db db' requests d r c =
      let e =
        Serves-IsDurable (file_wal p.size directory p.schedule p.waits)
          (file_log p.size directory p.schedule p.waits) d r in
      let (s, opened, quiet, kept) =
        start_log_lem directory p'.fresh p'.max_size p'.clock db'.wal e.good c in
      let same : queries_in directory (all_files s) ≡ queries_in directory (all_files db'.wal) =
        ap (queries_in directory) kept in
      let (db'', found, values, d') =
        start_lem (file_wal p'.size directory p'.schedule p'.waits)
          (file_log p'.size directory p'.schedule p'.waits) shards (value db'.st) s quiet refl
          (rw same e.executable)
          (λ j. ap (λ (qs : List Query). effects qs empty_view j) same ∙ e.replayed j) in
      (s, opened, db'', found, values, d')
