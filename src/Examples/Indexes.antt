-- ===== src/Examples/Indexes.antt =====
-- The kinds of index.
use laguna.Prelude.{ℕ, zero, suc, List, [], ◌∷◌, codes, ◌≡◌, refl, arith, ok}
use laguna.Segment.Index.{IndexEntry}
use laguna.Segment.Index.Cow.{Same, new_cow}
use laguna.Prelude.{Bool, true, false, Bool-cases, inl, inr, ◌<◌}
use laguna.Segment.Index.Sorted.{array_get_index}
use laguna.Segment.Index.Array.{array_add}
use laguna.Segment.Index.Array.Insertion.{Grows}
use laguna.Segment.Index.Array.Laws.{IsSearch, array_add_lem}

empty-Same : Same new_cow []
unfolding new_cow
empty-Same lsn = refl

abbrev first_entry : IndexEntry
first_entry = record { lsn = 1; file_name = codes "a"; offset = 0 }

abbrev third_entry : IndexEntry
third_entry = record { lsn = 3; file_name = codes "a"; offset = 17 }

abbrev two_entries : List IndexEntry
two_entries = first_entry ∷ (third_entry ∷ [])

abbrev or_next : Bool → ℕ → ℕ
or_next true n = 0
or_next false n = suc n

-- The first index that passes the test.
abbrev first_true : ℕ → (ℕ → Bool) → ℕ
first_true zero p = 0
first_true (suc n) p = or_next (p 0) (first_true n (λ i. p (suc i)))

first_true-IsSearch : IsSearch first_true
first_true-IsSearch zero p h =
    (omega arith, λ j k. absurd (omega (arith, k)), λ k. absurd (omega (arith, k)))
first_true-IsSearch (suc n) p h = elim (Bool-cases (p 0)) [
  | inl y ↦ rw (y, first_true) (omega arith, λ j k. absurd (omega (arith, k)), λ k. y)
  | inr m ↦
      let (inside, below, from) =
        first_true-IsSearch n (λ i. p (suc i))
          (λ i j k l. h (suc i) (suc j) (omega (arith, k)) (omega (arith, l))) in
      rw (m, first_true) (omega (arith, inside), all_below m below, λ k. from (omega (arith, k)))
]
  where
    all_below :
        {k : ℕ}
        → p 0 ≡ false
        → ((j : ℕ) → j < k → p (suc j) ≡ false)
        → (j : ℕ) → j < suc k
        → p j ≡ false
    all_below m below zero l = m
    all_below m below (suc j) l = below j (omega (arith, l))

array_add_lem_example :
    Grows (array_add first_true 2 (codes "b") 5 two_entries)
    × ((e : IndexEntry) × (array_get_index 2 (array_add first_true 2 (codes "b") 5 two_entries)
          ≡ ok e)
        × (e.lsn ≡ 2)
        × (e.file_name ≡ codes "b")
        × (e.offset ≡ 5))
    × (array_get_index 3 (array_add first_true 2 (codes "b") 5 two_entries)
        ≡ array_get_index 3 two_entries)
array_add_lem_example =
    array_add_lem first_true 2 3 (codes "b") 5 two_entries first_true-IsSearch
      ((omega arith, tt), (tt, tt)) (omega arith)
