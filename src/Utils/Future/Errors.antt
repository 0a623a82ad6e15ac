-- ===== src/Utils/Future/Errors.antt =====
-- What becomes of the error of a producer.
use laguna.Prelude.{
  ◌≡◌, refl, sym, ap, ◌∙◌, List, [], ◌∷◌, ◌++◌, append_assoc, append-nil, false, none, Error,
}
use laguna.Utils.Future.{
  Outcome, value, ended, Call, put, put_error, finish, calling, stopped, System, new_stream, Turn,
  producer, consumer, turn, run, bad_calls,
}
use mathlib.Core.List.{map}

-- The consumer checks, the producer puts a value, the consumer receives it.
abbrev take_each {ℓ} : {A : Type ℓ} → List A → List Turn → List Turn
take_each [] ts = ts
take_each (a ∷ vs) ts = consumer ∷ (producer ∷ (consumer ∷ take_each vs ts))

-- Behind some values, with an open and empty channel and a consumer in front of `Next`.
abbrev between {ℓ} : {A : Type ℓ} → List (Call A) → List (Outcome A) → System A
between calls got = record {
  resp = none;
  closed = false;
  failure = none;
  todo = calls;
  consumer = calling;
  got = got;
}

run-take_each {ℓ} :
    {A : Type ℓ} (vs : List A) (rest : List (Call A)) (got : List (Outcome A)) (ts : List Turn)
    → run (take_each vs ts) (between (map put vs ++ rest) got)
      ≡ run ts (between rest (got ++ map value vs))
unfolding run turn
run-take_each [] rest got ts = ap (λ g. run ts (between rest g)) (sym (append-nil got))
run-take_each (a ∷ vs) rest got ts =
    run-take_each vs rest (got ++ (value a ∷ [])) ts
    ∙ ap (λ g. run ts (between rest g)) (append_assoc got (value a ∷ []) (map value vs))

-- The consumer checks before the error is put, and receives behind the closing.
abbrev check_early : List Turn
check_early = consumer ∷ (producer ∷ (producer ∷ (consumer ∷ [])))

-- Whatever values and error a producer puts before it closes the stream, there is a schedule in which the
-- consumer gets the values and then the end of the stream, as if there had been no error.
pub error_lost {ℓ} :
    {A : Type ℓ} (vs : List A) (e : Error)
    → (ts : List Turn) × ((run ts (new_stream (bad_calls vs e))).consumer ≡ stopped)
      × ((run ts (new_stream (bad_calls vs e))).got ≡ map value vs ++ (ended ∷ []))
unfolding new_stream
error_lost vs e =
    let whole = run-take_each vs (put_error e ∷ (finish ∷ [])) [] check_early in
    (
      take_each vs check_early,
      rw whole (unfold run turn in refl),
      rw whole (unfold run turn in refl),
    )
