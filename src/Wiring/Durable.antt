-- ===== src/Wiring/Durable.antt =====
-- The program's log is a log, and InitDB goes on with what another run has left.
use laguna.Prelude.{
  ℕ, ◌≡◌, refl, ap, ◌∙◌, List, [], ◌∷◌, ◌++◌, concat, true, Option, none, some, Error, Result, ok,
  err, fault,
}
use laguna.Utils.Context.{Ctx}
use laguna.Query.{Query}
use laguna.Database.Log.{Log}
use laguna.Wal.Worker.{Turn}
use laguna.Wal.FileLog.{FileLog, Wait, all_files, write_call, wait_response}
use laguna.Wal.FileLog.Turns.{IsLoggable}
use laguna.Wal.FileLog.Quiet.{IsQuiet, queries_in}
use laguna.Wal.FileLog.Log.{file_wal_accepted, file_wal_restored}
use laguna.Wiring.Log.{
  Settings, ProgramLog, disabled, enabled, with_log, numbered, program_write, program_response,
  program_stream, program_wal,
}
use mathlib.Core.List.{map}

abbrev pub program_entries : ProgramLog → List Query
program_entries disabled = []
program_entries (enabled s l) = queries_in s.directory (all_files l)

abbrev pub IsSettled : ProgramLog → Type 0
IsSettled disabled = ⊥
IsSettled (enabled s l) = IsQuiet l

module _ (schedule : ℕ → List Turn) (waits : ℕ → Wait) where
  -- What an acknowledged call leaves.
  abbrev Kept : Query → Settings → FileLog → ProgramLog → Type 0
  Kept q s l l'' =
      IsSettled l''
      × (program_entries l'' ≡ queries_in s.directory (all_files l) ++ (q ∷ []))
      × ((program_wal schedule waits).is_enable l'' ≡ true)

  settled_response :
      (ctx : Ctx) (q : Query) (s : Settings) (l l₁ : FileLog) (i : ℕ)
      (p : FileLog × Result (Option Error)) (l'' : ProgramLog)
      → IsQuiet l
      → IsLoggable q
      → write_call s.flush_batch_size s.directory schedule waits ctx q l ≡ (l₁, ok i)
      → wait_response s.flush_batch_size s.directory schedule waits ctx i l₁ ≡ p
      → with_log s p ≡ (l'', ok none)
      → Kept q s l l''
  settled_response ctx q s l l₁ i (l₂, r) l'' v t e k h =
      let answered : r ≡ ok none = ap (λ (x : ProgramLog × Result (Option Error)). x.1) h in
      let left : enabled s l₂ ≡ l'' = ap (λ (x : ProgramLog × Result (Option Error)). x.0) h in
      let (quiet, longer) =
        file_wal_accepted s.flush_batch_size s.directory schedule waits ctx q l l₁ l₂ i v t e
          (k ∙ ap (λ x. (l₂, x)) answered) in
      rw (← left) (quiet, longer, refl)

  settled_write :
      (ctx : Ctx) (q : Query) (s : Settings) (l : FileLog) (p : FileLog × Result ℕ)
      (l' l'' : ProgramLog) (f : Option ℕ)
      → IsQuiet l
      → IsLoggable q
      → write_call s.flush_batch_size s.directory schedule waits ctx q l ≡ p
      → numbered (with_log s p) ≡ (l', ok f)
      → program_response schedule waits ctx f l' ≡ (l'', ok none)
      → Kept q s l l''
  settled_write ctx q s l (l₁, err x) l' l'' f v t e h k = absurd (cc h)
  settled_write ctx q s l (l₁, fault x) l' l'' f v t e h k = absurd (cc h)
  settled_write ctx q s l (l₁, ok i) l' l'' f v t e h k =
      let left : enabled s l₁ ≡ l' = ap (λ (x : ProgramLog × Result (Option ℕ)). x.0) h in
      let own : some i ≡ f = cc h in
      settled_response ctx q s l l₁ i _ l'' v t e refl (rw (← left, ← own) at k)

  pub program_accepted :
      (ctx : Ctx) (q : Query) (l l' l'' : ProgramLog) (f : Option ℕ)
      → IsSettled l
      → IsLoggable q
      → program_write schedule waits ctx q l ≡ (l', ok f)
      → program_response schedule waits ctx f l' ≡ (l'', ok none)
      → IsSettled l''
        × (program_entries l'' ≡ program_entries l ++ (q ∷ []))
        × ((program_wal schedule waits).is_enable l'' ≡ (program_wal schedule waits).is_enable l)
  program_accepted ctx q disabled l' l'' f v t h k = absurd v
  program_accepted ctx q (enabled s l) l' l'' f v t h k =
      settled_write ctx q s l _ l' l'' f v t refl h k

  pub program_restored :
      (l : ProgramLog)
      → IsSettled l
      → (program_wal schedule waits).is_enable l ≡ true
      → (l' : ProgramLog) × (batches : List (List Query)) × (program_stream schedule waits l
          ≡ (l', ok (map ok batches)))
        × (concat batches ≡ program_entries l)
        × IsSettled l'
        × (program_entries l' ≡ program_entries l)
        × ((program_wal schedule waits).is_enable l' ≡ true)
  program_restored disabled v on = absurd v
  program_restored (enabled s l) v on =
      let (l', batches, stream, same, quiet, kept, _) =
        file_wal_restored s.flush_batch_size s.directory schedule waits l v in
      (enabled s l', batches, ap (with_log s) stream, same, quiet, kept, refl)

  abbrev pub program_log : Log (program_wal schedule waits)
  program_log = record {
    entries = program_entries;
    IsGood = IsSettled;
    Takes = IsLoggable;
    accepted = λ ctx q s s' s'' f g t h k. program_accepted ctx q s s' s'' f g t h k;
    restored = λ s g on. program_restored s g on;
  }
