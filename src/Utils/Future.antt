-- ===== src/Utils/Future.antt =====
-- utils/concurrency/future_resp.go: the stream of a producer and a consumer, FutureRespWithErr, with
-- its calls as the single accesses that other goroutines can come between.
pub mod Stream
pub mod Errors
pub mod Deadline
use laguna.Prelude.{List, [], ◌∷◌, ◌++◌, Bool, true, false, Option, none, some, Error}
use mathlib.Core.List.{map, foldl}

-- What a call of `Next` returns: a value, an error, or neither where the channel is closed.
pub data Outcome {ℓ} (A : Type ℓ) : Type ℓ where
  value : A → Outcome A
  failed : Error → Outcome A
  ended : Outcome A

-- The calls of a producer: `Put` of a value, `Put` of an error, `Done`.
pub data Call {ℓ} (A : Type ℓ) : Type ℓ where
  put : A → Call A
  put_error : Error → Call A
  finish : Call A

-- A consumer in front of `Next`, in `Next` behind the check of the error, or done with its loop.
pub data Consumer : Type 0 where
  calling waiting stopped : Consumer

-- The channel of capacity 1, whether it is closed, the error, the calls that the producer has still to
-- make, the consumer, and what its calls returned.
pub record System {ℓ} (A : Type ℓ) : Type ℓ where
  pub resp : Option A
  pub closed : Bool
  pub failure : Option Error
  pub todo : List (Call A)
  pub consumer : Consumer
  pub got : List (Outcome A)

module _ {ℓ} {A : Type ℓ} where
  -- NewFutureRespWithErr
  unfoldable pub new_stream : List (Call A) → System A
  new_stream calls = record {
    resp = none;
    closed = false;
    failure = none;
    todo = calls;
    consumer = Consumer.calling;
    got = [];
  }

  -- A send waits while the channel is full.
  abbrev pub send : Option A → A → List (Call A) → System A → System A
  send none a rest s = record s { resp = some a; todo = rest }
  send (some b) a rest s = s

  -- The next call of the producer. No producer of the program puts anything behind Done.
  abbrev pub produce : List (Call A) → System A → System A
  produce [] s = s
  produce (put a ∷ rest) s = send s.resp a rest s
  produce (put_error e ∷ rest) s = record s { failure = some e; todo = rest }
  produce (finish ∷ rest) s = record s { closed = true; todo = rest }

  -- `Next` up to the receive: the check of the error, under the mutex.
  abbrev pub check : Option Error → System A → System A
  check (some e) s = record s { consumer = Consumer.stopped; got = s.got ++ (failed e ∷ []) }
  check none s = record s { consumer = Consumer.waiting }

  -- The receive of `Next`: it waits while the channel is empty and open.
  abbrev pub receive : Option A → Bool → System A → System A
  receive (some a) closed s = record s {
    resp = none;
    consumer = Consumer.calling;
    got = s.got ++ (value a ∷ []);
  }
  receive none true s = record s { consumer = Consumer.stopped; got = s.got ++ (ended ∷ []) }
  receive none false s = s

  -- A consumer of the program calls `Next` until it returns an error or no value.
  abbrev pub consume : Consumer → System A → System A
  consume calling s = check s.failure s
  consume waiting s = receive s.resp s.closed s
  consume stopped s = s

-- Who runs next. A goroutine that has to wait stays where it is.
pub data Turn : Type 0 where
  producer consumer : Turn

unfoldable pub turn {ℓ} : {A : Type ℓ} → Turn → System A → System A
turn producer s = produce s.todo s
turn consumer s = consume s.consumer s

-- The turns of a schedule, one after the other.
unfoldable pub run {ℓ} : {A : Type ℓ} → List Turn → System A → System A
run [] s = s
run (t ∷ ts) s = run ts (turn t s)

-- The calls of a producer that puts some values and no error, and of one that puts an error behind them.
abbrev pub good_calls {ℓ} : {A : Type ℓ} → List A → List (Call A)
good_calls vs = map put vs ++ (finish ∷ [])

abbrev pub bad_calls {ℓ} : {A : Type ℓ} → List A → Error → List (Call A)
bad_calls vs e = map put vs ++ (put_error e ∷ (finish ∷ []))
