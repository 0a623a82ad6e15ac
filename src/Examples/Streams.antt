-- ===== src/Examples/Streams.antt =====
-- Streams, and the log's worker, on short schedules.
use laguna.Prelude.{
  if◌then◌else◌, ◌==◌, Bool-cases, inl, inr, some, ℕ, suc, List, [], ◌∷◌, ◌++◌, length, replicate,
  Bytes, Option, none, codes, ◌≡◌, ◌≤◌, refl, Error, errors_new, ok, All, arith,
}
use laguna.Utils.Future
use laguna.Utils.Future.{Outcome, value, ended, stopped, new_stream, good_calls, bad_calls}
use laguna.Utils.Future.Stream.{history, run_lem}
use laguna.Utils.Future.Errors.{error_lost}
use laguna.Wal.Row.{Row, new_row}
use laguna.Replication.Protocol.{flatten}
use laguna.Segment.Manager.Log.{log_bytes}
use laguna.Wal.Worker.{Call, called, System, new_wal, Turn, write, receive, cancel, drain, run}
use laguna.Wal.Worker
use laguna.Wal.Worker.Sound.{Sends}
use laguna.Wal.Worker.Rows.{run_rows}
use laguna.Wal.Worker.Answers.{IsNew, run_answers}
use laguna.Wal.Worker.Fair.{answered, count}
use laguna.Wal.Worker.Early.{two_calls, early_answer}
use laguna.Wal.Worker.{tick}
use laguna.Wal.Worker.Late.{one_call, late_future}
use laguna.Examples.Parts.{small_manager, small_manager-IsReady}
use laguna.Examples.Stores.{set_command}
use mathlib.Core.List.{map}

abbrev two_values : List ℕ
two_values = 7 ∷ (8 ∷ [])

-- The consumer waits, gets the first value, and waits again.
abbrev stream_turns : List Future.Turn
stream_turns = Future.consumer ∷ (Future.producer ∷ (Future.consumer ∷ (Future.consumer ∷ [])))

run_lem_example :
    (seen : List ℕ) × (later : List ℕ) × (two_values ≡ seen ++ later)
    × ((Future.run stream_turns (new_stream (good_calls two_values))).got
        ≡ history (Future.run stream_turns (new_stream (good_calls two_values))).consumer seen)
    × ((Future.run stream_turns (new_stream (good_calls two_values))).consumer ≡ stopped
        → later ≡ [])
run_lem_example = run_lem two_values stream_turns

error_lost_example :
    (ts : List Future.Turn) × ((Future.run ts
        (new_stream (bad_calls two_values (errors_new (codes "no"))))).consumer
      ≡ stopped)
    × ((Future.run ts (new_stream (bad_calls two_values (errors_new (codes "no"))))).got
        ≡ map value two_values ++ (ended ∷ []))
error_lost_example = error_lost two_values (errors_new (codes "no"))

-- Two calls, one of them behind the end of its context, then the end of the worker's.
abbrev some_calls : ℕ → Call
some_calls i =
    if i == 1
    then called (some (errors_new (codes "context canceled"))) set_command
    else called none set_command

abbrev worker_turns : List Turn
worker_turns =
    write 0 ∷ (write 1 ∷ (write 0 ∷ (write 0 ∷ (write 2 ∷ (write 2 ∷ (receive ∷ (cancel ∷ [])))))))

some_calls-IsNew : (i : ℕ) → IsNew (some_calls i)
some_calls-IsNew i = elim (Bool-cases (i == 1)) [
  | inl y ↦ rw y (omega arith, (omega arith, tt))
  | inr n ↦ rw n (omega arith, (omega arith, tt))
]

some_calls-Sends : (i : ℕ) → Sends (some_calls i)
some_calls-Sends i = elim (Bool-cases (i == 1)) [
  | inl y ↦ rw y (omega arith, (omega arith, tt))
  | inr n ↦ rw n (omega arith, (omega arith, tt))
]

abbrev after_turns : System
after_turns = run 2 worker_turns (new_wal small_manager some_calls)

run_rows_example :
    (written : List Row) × (bytes : Bytes) × (flatten written ≡ ok bytes)
    × (log_bytes after_turns.worker.store ≡ log_bytes small_manager ++ bytes)
    × (after_turns.sent ≡ written ++ (after_turns.worker.query_buf ++ after_turns.query_ch))
    × (length after_turns.query_ch ≤ 2)
run_rows_example =
    run_rows 2 small_manager some_calls worker_turns small_manager-IsReady some_calls-Sends

run_answers_example :
    (answered after_turns.worker.answers ++ after_turns.worker.future_resp ≡ after_turns.registered)
    × ((i : ℕ) → count i after_turns.registered ≤ 1)
    × All (λ (p : ℕ × Option Error). p.1 ≡ none) after_turns.worker.answers
run_answers_example =
    run_answers 2 small_manager some_calls worker_turns small_manager-IsReady some_calls-IsNew

one_row_waits : length after_turns.query_ch ≡ 1
unfolding run new_wal Worker.turn
one_row_waits = refl

abbrev ended_worker : System
ended_worker = run 2 (replicate (suc (length after_turns.query_ch)) drain) after_turns

early_answer_example :
    (ts : List Turn) × (bytes : Bytes) × (flatten
        (new_row 1 set_command.method_id set_command.args ∷ [])
      ≡ ok bytes)
    × (log_bytes (run 2 ts (new_wal small_manager (two_calls set_command set_command))).worker.store
        ≡ log_bytes small_manager ++ bytes)
    × ((run 2 ts (new_wal small_manager (two_calls set_command set_command))).worker.answers
        ≡ (0, none) ∷ ((1, none) ∷ []))
    × ((run 2 ts (new_wal small_manager (two_calls set_command set_command))).query_ch
        ≡ new_row 2 set_command.method_id set_command.args ∷ [])
early_answer_example =
    early_answer 2 small_manager set_command set_command (omega arith) small_manager-IsReady
      (omega arith, (omega arith, tt))

late_future_example :
    (ts : List Turn) × (bytes : Bytes) × (flatten
        (new_row 1 set_command.method_id set_command.args ∷ [])
      ≡ ok bytes)
    × (log_bytes
          (run 1
            (ts ++ replicate 500 tick)
            (new_wal small_manager (one_call set_command))).worker.store
        ≡ log_bytes small_manager ++ bytes)
    × ((run 1
          (ts ++ replicate 500 tick)
          (new_wal small_manager (one_call set_command))).worker.future_resp
        ≡ 0 ∷ [])
    × ((run 1
          (ts ++ replicate 500 tick)
          (new_wal small_manager (one_call set_command))).worker.answers
        ≡ [])
late_future_example =
    late_future small_manager set_command 500 small_manager-IsReady (omega arith, (omega arith, tt))
