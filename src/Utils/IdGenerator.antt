-- ===== src/Utils/IdGenerator.antt =====
-- utils/id_generator/generator.go: an atomic uint64 counter.
use laguna.Prelude.{
  List, [], ◌∷◌, some, get_elem?, ap, ◌∙◌, ℕ, zero, suc, ◌+◌, ◌%◌, ◌^◌, ◌≡◌, ◌<◌, arith,
}

pub record Generator : Type 0 where
  pub id : ℕ

unfoldable pub new : Generator
new = record { id = 0 }

unfoldable pub new_with_start : ℕ → Generator
unfolding new
new_with_start st = record new { id = st }

-- The counter after the call, and the value that it returns.
unfoldable pub next_id : Generator → Generator × ℕ
next_id g = let v = (g.id + 1) % 2 ^ 64 in (record g { id = v }, v)

unfoldable pub curr_value : Generator → ℕ
curr_value g = g.id

-- The ids that a number of calls return, in order.
unfoldable pub take_ids : ℕ → Generator → List ℕ
unfolding next_id
take_ids zero g = []
take_ids (suc n) g = (next_id g).1 ∷ take_ids n (next_id g).0

-- The ids that `n` calls return from a generator at `start` are start + 1, start + 2 and so on, as long
-- as the counter does not wrap.
next_ids_count :
    (n i : ℕ) (g : Generator)
    → g.id + n < 2 ^ 64
    → i < n
    → get_elem? (take_ids n g) i ≡ some (g.id + 1 + i)
unfolding take_ids
next_ids_count zero i g h k = absurd (omega arith)
next_ids_count (suc n) zero g h k = ground arith
next_ids_count (suc n) (suc i) g h k =
    next_ids_count n i (next_id g).0 (omega arith) (omega arith) ∙ ap some (omega arith)
