-- ===== src/Utils/Semaphore.antt =====
-- utils/concurrency/semaphore.go: a buffered channel of capacity `max` as a semaphore.
use laguna.Prelude.{ℕ, suc, ◌-◌, ◌<◌, ◌≤◌, ◌≡◌, refl, ◌∙◌, arith}

-- `taken` is the number of elements in the channel.
pub record Semaphore : Type 0 where
  pub max : ℕ
  pub taken : ℕ

unfoldable pub new_semaphore : ℕ → Semaphore
new_semaphore max = record { max = max; taken = 0 }

-- What the goroutines that share a semaphore do to it, one send or receive at a time. An Acquire, or
-- an AcquireWithDeadline before its deadline, is a send, which waits for room in the channel; a timer
-- that fires first changes nothing. A Release receives if there is something, and else returns.
pub data Step : Semaphore → Semaphore → Type 0 where
  acquire : (s : Semaphore) → s.taken < s.max → Step s (record s { taken = suc s.taken })
  timeout : (s : Semaphore) → Step s s
  release : (s : Semaphore) → Step s (record s { taken = s.taken - 1 })

-- What a new semaphore becomes in any interleaving of the goroutines' steps.
pub data Reach (max : ℕ) : Semaphore → Type 0 where
  begin : Reach max (new_semaphore max)
  next : {s t : Semaphore} → Reach max s → Step s t → Reach max t

step_lem : (s t : Semaphore) → Step s t → s.taken ≤ s.max → (t.taken ≤ t.max) × (t.max ≡ s.max)
step_lem s t (acquire _ h) k = (omega arith, refl)
step_lem s t (timeout _) k = (k, refl)
step_lem s t (release _) k = (omega arith, refl)

-- In every interleaving, never more goroutines hold a semaphore than its capacity, which stays the one
-- that it was made with.
reach_lem : (max : ℕ) (s : Semaphore) → Reach max s → (s.taken ≤ s.max) × (s.max ≡ max)
reach_lem max s begin = unfold new_semaphore in (omega arith, refl)
reach_lem max s (next {s = r} h x) =
    let (b, e) = reach_lem max r h in let (b', e') = step_lem r s x b in (b', e' ∙ e)
