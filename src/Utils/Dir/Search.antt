-- ===== src/Utils/Dir/Search.antt =====
-- The search by halves in sorted names.
use laguna.Prelude.{
  ◌⊎◌, ℕ, zero, suc, ◌+◌, ◌-◌, ◌/◌, ◌≤◌, ◌<◌, ◌≡◌, ◌≢◌, refl, sym, ap, ◌∙◌, arith, List, [], ◌∷◌,
  length, drop, get_elem?, get_elem?_total, ltb, ltb→lt, ltb→le, Bytes, str_eq, str_eq_iff, str_lt,
  Option, none, some, true, false, Bool-cases, inl, inr, Result, ok,
}
use laguna.Utils.Dir.{binary_search, find_from}

str_lt_asym : (s t : Bytes) → str_lt s t ≡ true → str_lt t s ≡ false
unfolding str_lt
str_lt_asym s [] h = absurd (cc h)
str_lt_asym [] (b ∷ t) h = refl
str_lt_asym (a ∷ s) (b ∷ t) h = ground (arith, str_lt_asym s t)

-- The names grow along the list.
abbrev pub IsSorted : List Bytes → Type 0
IsSorted names =
    (i j : ℕ) (s t : Bytes)
    → i < j
    → get_elem? names i ≡ some s
    → get_elem? names j ≡ some t
    → str_lt s t ≡ true

module _ (names : List Bytes) (target : Bytes) (fuel lo hi : ℕ) (name : Bytes)
    (y : ltb lo hi ≡ true) (g : get_elem? names ((lo + hi - 1) / 2) ≡ some name) where
  search_here :
      str_eq name target ≡ true
      → binary_search (suc fuel) names target lo hi ≡ ok (some ((lo + hi - 1) / 2))
  unfolding binary_search
  search_here e = ground arith

  search_high :
      str_eq name target ≡ false
      → str_lt name target ≡ true
      → binary_search (suc fuel) names target lo hi
        ≡ binary_search fuel names target ((lo + hi - 1) / 2 + 1) hi
  unfolding binary_search
  search_high e l = ground arith

  search_low :
      str_eq name target ≡ false
      → str_lt name target ≡ false
      → binary_search (suc fuel) names target lo hi
        ≡ binary_search fuel names target lo ((lo + hi - 1) / 2)
  unfolding binary_search
  search_low e l = ground arith

search_ends :
    (names : List Bytes) (target : Bytes) (fuel lo hi : ℕ)
    → hi ≤ lo
    → binary_search fuel names target lo hi ≡ ok none
unfolding binary_search
search_ends names target zero lo hi h = refl
search_ends names target (suc fuel) lo hi h = ground arith

-- What the search answers: the place of the target, or that it is not among the names of the range.
data Found (names : List Bytes) (target : Bytes) (lo hi : ℕ) : Result (Option ℕ) → Type 0 where
  at_place : {i : ℕ} → get_elem? names i ≡ some target → Found names target lo hi (ok (some i))
  nowhere :
      ((j : ℕ) → lo ≤ j → j < hi → get_elem? names j ≢ some target)
      → Found names target lo hi (ok none)

module _ (names : List Bytes) (target : Bytes) (sorted : IsSorted names) where
  -- The target stands on that side of a name on which the order puts it.
  not_below :
      (mid j : ℕ) (name : Bytes)
      → get_elem? names mid ≡ some name
      → str_eq name target ≡ false
      → str_lt name target ≡ true
      → get_elem? names j ≡ some target
      → mid < j
  not_below mid j name g e l h = elim (Bool-cases (ltb mid j)) [
    | inl y ↦ ltb→lt mid j y
    | inr n ↦ absurd (elim (Bool-cases (ltb j mid)) [
      | inl y ↦ cc (sorted j mid target name (ltb→lt j mid y) h g, str_lt_asym name target l)
      | inr m ↦
          different (let same : j ≡ mid = omega (arith, ltb→le mid j n, ltb→le j mid m) in same)
    ])
  ]
    where
      different : j ≡ mid → ⊥
      different s =
          let both : some target ≡ some name = sym h ∙ ap (get_elem? names) s ∙ g in
          let k : name ≡ target = cc both in cc (e, (str_eq_iff name target).1 k)

  not_above :
      (mid j : ℕ) (name : Bytes)
      → get_elem? names mid ≡ some name
      → str_eq name target ≡ false
      → str_lt name target ≡ false
      → get_elem? names j ≡ some target
      → j < mid
  not_above mid j name g e l h = elim (Bool-cases (ltb j mid)) [
    | inl y ↦ ltb→lt j mid y
    | inr n ↦ absurd (elim (Bool-cases (ltb mid j)) [
      | inl y ↦ cc (sorted mid j name target (ltb→lt mid j y) g h, l)
      | inr m ↦
          different (let same : j ≡ mid = omega (arith, ltb→le j mid n, ltb→le mid j m) in same)
    ])
  ]
    where
      different : j ≡ mid → ⊥
      different s =
          let both : some target ≡ some name = sym h ∙ ap (get_elem? names) s ∙ g in
          let k : name ≡ target = cc both in cc (e, (str_eq_iff name target).1 k)

  narrowed :
      (lo hi lo' hi' : ℕ) (r : Result (Option ℕ))
      → ((j : ℕ) → lo ≤ j → j < hi → get_elem? names j ≡ some target → (lo' ≤ j) × (j < hi'))
      → Found names target lo' hi' r
      → Found names target lo hi r
  narrowed lo hi lo' hi' r h (at_place g) = at_place g
  narrowed lo hi lo' hi' r h (nowhere f) =
      nowhere (λ j a b k. (let (a', b') = h j a b k in f j a' b' k))

  binary_search_lem :
      (fuel lo hi : ℕ)
      → hi ≤ lo + fuel
      → hi ≤ length names
      → Found names target lo hi (binary_search fuel names target lo hi)
  binary_search_lem zero lo hi f u =
      rw (search_ends names target zero lo hi (omega (arith, f)))
        (nowhere (λ j a b k. absurd (omega (arith, a, b, f))))
  binary_search_lem (suc fuel) lo hi f u = elim (Bool-cases (ltb lo hi)) [
    | inr n ↦
        rw (search_ends names target (suc fuel) lo hi (ltb→le lo hi n))
          (nowhere (λ j a b k. absurd (omega (arith, a, b, ltb→le lo hi n))))
    | inl y ↦
        (let (name, g) =
            get_elem?_total names ((lo + hi - 1) / 2) (omega (arith, ltb→lt lo hi y, u)) in
          elim (Bool-cases (str_eq name target)) [
            | inl e ↦
                (let k : name ≡ target = (str_eq_iff name target).0 e in
                  rw (search_here names target fuel lo hi name y g e) (at_place (g ∙ ap some k)))
            | inr e ↦ elim (Bool-cases (str_lt name target)) [
              | inl l ↦ rw (search_high names target fuel lo hi name y g e l) (
                  narrowed lo hi ((lo + hi - 1) / 2 + 1) hi _
                    (λ j a b k. (omega (arith, not_below ((lo + hi - 1) / 2) j name g e l k), b))
                    (binary_search_lem fuel ((lo + hi - 1) / 2 + 1) hi
                      (omega (arith, f, ltb→lt lo hi y)) u))
              | inr l ↦ rw (search_low names target fuel lo hi name y g e l) (
                  narrowed lo hi lo ((lo + hi - 1) / 2) _
                    (λ j a b k. (a, not_above ((lo + hi - 1) / 2) j name g e l k))
                    (binary_search_lem fuel lo ((lo + hi - 1) / 2)
                      (omega (arith, f, ltb→lt lo hi y)) (omega (arith, u, ltb→lt lo hi y))))
            ]
          ])
  ]

get_elem?-lt : (xs : List Bytes) (i : ℕ) (x : Bytes) → get_elem? xs i ≡ some x → i < length xs
get_elem?-lt [] i x h = absurd (cc h)
get_elem?-lt (y ∷ xs) zero x h = omega arith
get_elem?-lt (y ∷ xs) (suc i) x h = omega (arith, get_elem?-lt xs i x h)

same_place :
    (names : List Bytes) (target : Bytes) (i j : ℕ)
    → IsSorted names
    → get_elem? names i ≡ some target
    → get_elem? names j ≡ some target
    → i ≡ j
same_place names target i j sorted g h = elim (Bool-cases (ltb i j)) [
  | inl y ↦ absurd (twice (sorted i j target target (ltb→lt i j y) g h))
  | inr n ↦ elim (Bool-cases (ltb j i)) [
    | inl y ↦ absurd (twice (sorted j i target target (ltb→lt j i y) h g))
    | inr m ↦ omega (arith, ltb→le i j n, ltb→le j i m)
  ]
]
  where
    twice : str_lt target target ≡ true → ⊥
    twice l = cc (l, str_lt_asym target target l)

-- In a directory whose names are sorted, ReadDirsFrom of a name that is not empty answers the names from
-- that one on, or, where no name is that one, no names; it does not panic.
pub find_from_cases :
    (names : List Bytes) (b : ℕ) (bs : Bytes)
    → IsSorted names
    → ((j : ℕ) × (get_elem? names j ≡ some (b ∷ bs))
        × (find_from names (b ∷ bs) ≡ ok (drop j names)))
      ⊎ (((j : ℕ) → get_elem? names j ≢ some (b ∷ bs)) × (find_from names (b ∷ bs) ≡ ok []))
unfolding find_from
find_from_cases names b bs sorted = found _ refl (
    binary_search_lem names (b ∷ bs) sorted (length names) 0 (length names) (omega arith)
      (omega arith))
  where
    found :
        (r : Result (Option ℕ))
        → binary_search (length names) names (b ∷ bs) 0 (length names) ≡ r
        → Found names (b ∷ bs) 0 (length names) r
        → ((j : ℕ) × (get_elem? names j ≡ some (b ∷ bs))
            × (find_from names (b ∷ bs) ≡ ok (drop j names)))
          ⊎ (((j : ℕ) → get_elem? names j ≢ some (b ∷ bs)) × (find_from names (b ∷ bs) ≡ ok []))
    found r e (at_place {i} k) = inl (i, k, rw e refl)
    found r e (nowhere f) =
        inr (λ j g. f j (omega arith) (get_elem?-lt names j (b ∷ bs) g) g, rw e refl)

-- A name of the directory is found where it stands.
pub find_from_lem :
    (names : List Bytes) (b : ℕ) (bs : Bytes) (j : ℕ)
    → IsSorted names
    → get_elem? names j ≡ some (b ∷ bs)
    → find_from names (b ∷ bs) ≡ ok (drop j names)
find_from_lem names b bs j sorted g = elim (find_from_cases names b bs sorted) [
  | inl (i, k, found) ↦ rw (← same_place names (b ∷ bs) i j sorted k g) found
  | inr (h, _) ↦ absurd (h j g)
]
