-- ===== src/Database/Lifetime.antt =====
-- Any number of runs of the program over one directory.
use laguna.Prelude.{◌≡◌, sym, ap, ◌∙◌, List, [], ◌∷◌, ◌++◌, Bytes, Result, ok}
use laguna.Prelude.Int.{ℤ}
use laguna.Utils.Context.{Ctx}
use laguna.Query.{Query}
use laguna.Storage.Laws.{value}
use laguna.Logs.Segments.Restart.{names_of}
use laguna.Wal.FileLog.{FileLog, all_files, start_log, file_wal}
use laguna.Wal.FileLog.Log.{file_log}
use laguna.Wal.FileLog.Reopen.{Follows}
use laguna.Database.Exec.{View, effects, effects-append, effects_cong}
use laguna.Database.Restore.{Serves, Serves-IsDurable, value-Serves, queries, empty_view}
use laguna.Database.Durability.{
  Run, RunDatabase, RunIsDurable, RunServes, open_database, first_run, survives,
}

module _ (directory : Bytes) where
  -- A database of the last of some runs, of which the first began in an empty directory and each other
  -- one on the files that the one before it left, and the queries of all requests, in order. No write
  -- of the disk fails, and the clock gives growing names.
  pub data Life : (p : Run) → RunDatabase directory p → List Query → Type 0 where
    begins :
        (p : Run) (shards : ℤ) (s : FileLog) (db : RunDatabase directory p)
        → Follows p.clock (p.fresh ∷ [])
        → start_log directory p.max_size p.clock [] p.fresh [] ≡ ok s
        → open_database directory p shards s ≡ ok db
        → Life p db []
    serves :
        (p : Run) (db db' : RunDatabase directory p) (before : List Query)
        (requests : List (Ctx × Query))
        → Life p db before
        → RunServes directory p db requests db'
        → Life p db' (before ++ queries requests)
    starts_again :
        (p p' : Run) (shards : ℤ) (db : RunDatabase directory p) (before : List Query) (s : FileLog)
        (db' : RunDatabase directory p')
        → Life p db before
        → Follows p'.clock (names_of (all_files db.wal))
        → start_log directory p'.max_size p'.clock [] p'.fresh (all_files db.wal) ≡ ok s
        → open_database directory p' shards s ≡ ok db'
        → Life p' db' before

  same_start :
      (p : Run) (shards : ℤ) (r : Result FileLog) (s s' : FileLog)
      (db db' : RunDatabase directory p)
      → r ≡ ok s
      → open_database directory p shards s ≡ ok db
      → r ≡ ok s'
      → open_database directory p shards s' ≡ ok db'
      → db ≡ db'
  same_start p shards r s s' db db' h k h' k' =
      let same : s ≡ s' = cc (h, h') in
      let found : open_database directory p shards s' ≡ ok db = rw same at k in cc (found, k')

  -- After any number of runs, one after the other, over one directory on a disk that does not fail, where
  -- the names of new files are above those that are there, and where in each run the requests were
  -- made one at a time and all answered without an error, every key has the value that the queries of
  -- all requests of all runs give it, one after the other from no keys at all; and the database is
  -- durable, so that a further run can follow.
  pub Life-values :
      (p : Run) (db : RunDatabase directory p) (all : List Query)
      → Life p db all
      → RunIsDurable directory p db × ((j : Bytes) → value db.st j ≡ effects all empty_view j)
  Life-values p db all (begins p' shards s db' c h k) =
      let (s₀, h₀, db₀, k₀, values, d) = first_run directory p' shards c in
      let same = same_start p' shards _ s₀ s db₀ db' h₀ k₀ h k in
      rw (← same) (d, λ j. unfold effects in values j)
  Life-values p db all (serves p' db₀ db' before requests l r) =
      let (d, law) = Life-values p' db₀ before l in
      let w = file_wal p'.size directory p'.schedule p'.waits in
      let log = file_log p'.size directory p'.schedule p'.waits in
      (
        Serves-IsDurable w log d r,
        λ j.
            value-Serves w log d r j
            ∙ effects_cong (queries requests) _ _ j (law j)
            ∙ ap (λ (f : View). f j) (sym (effects-append before (queries requests) empty_view)),
      )
  Life-values p db all (starts_again p' q' shards db₀ before s db' l c h k) =
      let (d, law) = Life-values p' db₀ before l in
      let (s₀, h₀, db₁, k₀, values, d') =
        survives directory p' q' shards db₀ db₀ [] d Serves.here c in
      let same = same_start q' shards _ s₀ s db₁ db' h₀ k₀ h k in
      rw (← same) (d', λ j. values j ∙ law j)
