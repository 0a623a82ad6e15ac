-- ===== src/Utils/Retry/Laws.antt =====
-- How often a call is tried, and what the last failure turns into.
use laguna.Prelude.{
  ℕ, zero, suc, ◌+◌, ◌≤◌, ◌<◌, ◌≡◌, refl, ◌∙◌, arith, Option, none, some, Error, Result, ok, err,
  fault, int63n_argument, errors_new, [],
}
use laguna.Prelude.Int.{ℤ, pos, negsuc}
use laguna.Prelude.{Fault, ◌^◌}
use laguna.Utils.Retry.{
  on_attempt, Waits, again, jitter, shifted_delay, retry_loop, retry_count, base_delay, with_retry,
}

module _ {ℓ κ} {S : Type ℓ} {A : Type κ} (base : ℕ) (waits : Waits) (f : S → S × Result A) where
  -- The function, with a count of its calls.
  abbrev counted : S × ℕ → (S × ℕ) × Result A
  counted (s, n) = let (s', r) = f s in ((s', suc n), r)

  again_bound :
      (j : Result (Unit {0})) (w : Option Error) (p : S × ℕ) (q : (S × ℕ) × Result A) (n : ℕ)
      → p.1 ≤ n
      → q.0.1 ≤ n
      → (again j w p q).0.1 ≤ n
  again_bound (ok _) (some c) p q n h k = h
  again_bound (ok _) none p q n h k = k
  again_bound (err e) w p q n h k = h
  again_bound (fault x) w p q n h k = h

  call_bound :
      (r : Result A) (p : S × ℕ) (k : Error → S × ℕ → (S × ℕ) × Result A) (n : ℕ)
      → p.1 ≤ n
      → ((e : Error) → (k e p).0.1 ≤ n)
      → (on_attempt (p, r) k).0.1 ≤ n
  call_bound (ok a) p k n h b = h
  call_bound (err e) p k n h b = b e
  call_bound (fault x) p k n h b = h

  attempts_bound :
      (left i : ℕ) (last : Error) (s : S) (n : ℕ)
      → (retry_loop base waits counted left i last (s, n)).0.1 ≤ n + left
  unfolding retry_loop
  attempts_bound zero i last s n = omega arith
  attempts_bound (suc left) i last s n =
      call_bound (f s).1 ((f s).0, suc n) _ (n + suc left) (omega arith)
        (λ e.
          again_bound (jitter (shifted_delay base i)) (waits i) ((f s).0, suc n) _ (n + suc left)
            (omega arith) (omega (arith, attempts_bound left (suc i) e (f s).0 (suc n))))

  loop_ok :
      (left i : ℕ) (last : Error) (s s' : S) (a : A)
      → f s ≡ (s', ok a)
      → retry_loop base waits f (suc left) i last s ≡ (s', ok a)
  unfolding retry_loop
  loop_ok left i last s s' a h = rw h

  pub loop_fault :
      (left i : ℕ) (last : Error) (s s' : S) (x : Fault)
      → f s ≡ (s', fault x)
      → retry_loop base waits f (suc left) i last s ≡ (s', fault x)
  unfolding retry_loop
  loop_fault left i last s s' x h = rw h

  pub loop_err :
      (left i : ℕ) (last : Error) (s s' : S) (e : Error)
      → f s ≡ (s', err e)
      → retry_loop base waits f (suc left) i last s
        ≡ again
            (jitter (shifted_delay base i))
            (waits i)
            s'
            (retry_loop base waits f left (suc i) e s')
  unfolding retry_loop
  loop_err left i last s s' e h = rw h

-- A call under a retry is made at most `retry` times, or once if that is not positive.
with_retry_attempts {ℓ κ} :
    {S : Type ℓ} {A : Type κ} (retry delay : ℤ) (waits : Waits) (f : S → S × Result A) (s : S)
    → (with_retry retry delay waits (some (counted (base_delay delay) waits f)) (s, 0)).0.1
      ≤ retry_count retry
unfolding with_retry
with_retry_attempts retry delay waits f s =
    omega
      (arith, attempts_bound (base_delay delay) waits f (retry_count retry) 0 (errors_new []) s 0)

retry_count_pos : (retry : ℤ) → (k : ℕ) × (retry_count retry ≡ suc k)
retry_count_pos (pos zero) = (0, refl)
retry_count_pos (pos (suc n)) = (n, refl)
retry_count_pos (negsuc n) = (0, refl)

pub first_delay : (base : ℕ) → 0 < base → base < 2 ^ 63 → shifted_delay base 0 ≡ base
unfolding shifted_delay
first_delay base h k = ground arith

pub jitter_ok : (delay : ℕ) → 3 ≤ delay → jitter delay ≡ ok tt
unfolding jitter
jitter_ok delay h = ground arith

jitter_panics : (delay : ℕ) → delay < 3 → jitter delay ≡ fault int63n_argument
unfolding jitter
jitter_panics delay h = ground arith

base_delay_pos : (d : ℤ) → 0 < base_delay d
base_delay_pos (pos zero) = omega arith
base_delay_pos (pos (suc n)) = omega arith
base_delay_pos (negsuc n) = omega arith

module _ {ℓ κ} {S : Type ℓ} {A : Type κ} (retry delay : ℤ) (waits : Waits) (f : S → S × Result A)
    (s s' : S) where
  -- An attempt that succeeds at once is the answer.
  pub with_retry_first :
      (a : A) → f s ≡ (s', ok a) → with_retry retry delay waits (some f) s ≡ (s', ok a)
  unfolding with_retry
  with_retry_first a h =
      let (k, c) = retry_count_pos retry in
      rw c (loop_ok (base_delay delay) waits f k 0 (errors_new []) s s' a h)

  -- The first attempt fails, and the code waits behind it whether or not it was the last: if the context
  -- is done by then, its error is returned in place of the attempt's.
  pub with_retry_done :
      (e c : Error)
      → 3 ≤ base_delay delay
      → base_delay delay < 2 ^ 63
      → f s ≡ (s', err e)
      → waits 0 ≡ some c
      → with_retry retry delay waits (some f) s ≡ (s', err c)
  unfolding with_retry
  with_retry_done e c low high h w =
      let (k, n) = retry_count_pos retry in
      rw n (
        loop_err (base_delay delay) waits f k 0 (errors_new []) s s' e h
        ∙ rw (
          first_delay (base_delay delay) (base_delay_pos delay) high,
          jitter_ok (base_delay delay) low,
          w,
        ))

  -- With a base delay of one or two nanoseconds a failed first attempt panics.
  with_retry_panics :
      (e : Error)
      → base_delay delay < 3
      → f s ≡ (s', err e)
      → with_retry retry delay waits (some f) s ≡ (s', fault int63n_argument)
  unfolding with_retry
  with_retry_panics e low h =
      let (k, n) = retry_count_pos retry in
      rw n (
        loop_err (base_delay delay) waits f k 0 (errors_new []) s s' e h
        ∙ rw (
          first_delay (base_delay delay) (base_delay_pos delay) (omega arith),
          jitter_panics (base_delay delay) low,
        ))
