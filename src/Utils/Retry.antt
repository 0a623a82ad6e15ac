-- ===== src/Utils/Retry.antt =====
-- utils/retry/with_retry.go: a call that is tried again, with growing delays.
pub mod Laws
use laguna.Prelude.{
  ℕ, zero, suc, ◌+◌, ◌-◌, ◌*◌, ◌/◌, ◌%◌, ◌^◌, List, [], ◌∷◌, codes, Option, none, some, Bool, true,
  false, ◌==◌, leb, ltb, if◌then◌else◌,
}
use laguna.Prelude.{Error, Result, ok, err, fault, errors_new, int63n_argument, ◌>>=◌}
use laguna.Prelude.Int.{ℤ, pos, negsuc, is_nonpositive, to_nat}

-- Durations in nanoseconds; time.Millisecond * 50 is the default.
abbrev pub default_delay : ℕ
default_delay = 50000000

-- `baseDelay << i` on an int64, where what is not positive becomes the base delay.
unfoldable pub shifted_delay : ℕ → ℕ → ℕ
shifted_delay base i =
    let bits = base * 2 ^ i % 2 ^ 64 in
    if bits == 0 then base else if leb (2 ^ 63) bits then base else bits

-- rand.Int63n(int64(delay / 3)) panics unless its argument is positive; the random number itself only
-- lengthens the wait.
unfoldable pub jitter : ℕ → Result (Unit {0})
jitter delay = if delay / 3 == 0 then fault int63n_argument else ok tt

-- What `select` finds behind the i-th attempt: the context's error, or the end of the wait.
abbrev pub Waits : Type 0
Waits = ℕ → Option Error

abbrev pub after_wait {ℓ κ} :
    {S : Type ℓ} {A : Type κ} → Option Error → S → S × Result A → S × Result A
after_wait (some e) s rest = (s, err e)
after_wait none s rest = rest

-- Behind a failed attempt: the delay, the wait and the next attempt. The test `i == retry` of the code
-- never holds inside the loop.
abbrev pub again {ℓ κ} :
    {S : Type ℓ} {A : Type κ} → Result (Unit {0}) → Option Error → S → S × Result A → S × Result A
again (ok _) wait s rest = after_wait wait s rest
again (err e) wait s rest = (s, err e)
again (fault x) wait s rest = (s, fault x)

-- Only an error leads to more.
abbrev pub on_attempt {ℓ κ} :
    {S : Type ℓ} {A : Type κ} → S × Result A → (Error → S → S × Result A) → S × Result A
on_attempt (s, ok a) k = (s, ok a)
on_attempt (s, err e) k = k e s
on_attempt (s, fault x) k = (s, fault x)

module _ {ℓ κ} {S : Type ℓ} {A : Type κ} (base : ℕ) (waits : Waits) (f : S → S × Result A) where
  -- The loop, with the attempts left, the counter `i` and the last error.
  unfoldable pub retry_loop : ℕ → ℕ → Error → S → S × Result A
  retry_loop zero i last s = (s, err last)
  retry_loop (suc left) i last s =
      on_attempt (f s)
        (λ e s'. again (jitter (shifted_delay base i)) (waits i) s' (retry_loop left (suc i) e s'))

abbrev pub retry_count : ℤ → ℕ
retry_count retry = if is_nonpositive retry then 1 else to_nat retry

abbrev pub base_delay : ℤ → ℕ
base_delay d = if is_nonpositive d then default_delay else to_nat d

-- WithRetry and WithRetryValue; a nil function is `none`. The error of a loop that makes no attempt is
-- never returned, since there is one at least.
unfoldable pub with_retry {ℓ κ} :
    {S : Type ℓ} {A : Type κ} → ℤ → ℤ → Waits → Option (S → S × Result A) → S → S × Result A
with_retry retry delay waits none s = (s, err (errors_new (codes "func is nil")))
with_retry retry delay waits (some f) s =
    retry_loop (base_delay delay) waits f (retry_count retry) 0 (errors_new []) s
