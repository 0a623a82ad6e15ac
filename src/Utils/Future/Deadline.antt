-- ===== src/Utils/Future/Deadline.antt =====
-- utils/concurrency/future_resp.go: the answer of a FutureResp, of which one goroutine waits.
use laguna.Prelude.{Option, none, some, Error, Result, ok, err, fault, blocked_forever}

-- A receive from the channel, which holds a value or never will.
unfoldable pub get_response {ℓ} : {A : Type ℓ} → Option A → Result A
get_response none = fault blocked_forever
get_response (some v) = ok v

-- GetResponseWithDeadline: the error of the context if it is done in front of the wait, or is the case
-- that the second `select` takes; else the answer.
unfoldable pub get_response_with_deadline {ℓ} :
    {A : Type ℓ} → Option Error → Option Error → Option A → Result A
unfolding get_response
get_response_with_deadline (some e) later resp = err e
get_response_with_deadline none (some e) resp = err e
get_response_with_deadline none none resp = get_response resp
