-- ===== src/Segment/Index/Array/Insertion.antt =====
-- Insertion into a sorted array, from the front, and what a search finds behind it.
use laguna.Prelude.{
  inl, inr, ℕ, zero, suc, ◌==◌, ==→eq, eq→==, ◌≤◌, ◌<◌, ◌≡◌, ◌≢◌, refl, ap, ◌∙◌, arith, ltb, ltb→lt,
  ltb→le, Bool-cases, List, [], ◌∷◌, ◌++◌, length, get_elem?, Bytes, All, true, false,
  if◌then◌else◌, Option, none, some,
}
use laguna.Segment.Index.{IndexEntry, or_not_found}
use laguna.Segment.Index.Sorted.{IsSorted, array_get_index, array_cases}
use laguna.Segment.Index.Array.{moved, new_entry, put_entry}

-- The lsns grow along the list.
abbrev pub Grows : List IndexEntry → Type 0
Grows [] = Unit {0}
Grows (e ∷ es) = All (λ (d : IndexEntry). e.lsn < d.lsn) es × Grows es

All-at :
    (e : IndexEntry) (es : List IndexEntry) (j : ℕ) (d : IndexEntry)
    → All (λ (x : IndexEntry). e.lsn < x.lsn) es
    → get_elem? es j ≡ some d
    → e.lsn < d.lsn
All-at e [] j d h g = absurd (cc g)
All-at e (x ∷ es) zero d h g = let s : x ≡ d = cc g in rw (← s) h.0
All-at e (x ∷ es) (suc j) d h g = All-at e es j d h.1 g

pub Grows-IsSorted : (es : List IndexEntry) → Grows es → IsSorted es
Grows-IsSorted [] h i j d e l g k = absurd (cc g)
Grows-IsSorted (x ∷ es) h i zero d e l g k = absurd (omega (arith, l))
Grows-IsSorted (x ∷ es) h zero (suc j) d e l g k =
    let s : x ≡ d = cc g in rw (← s) (All-at x es j e h.0 k)
Grows-IsSorted (x ∷ es) h (suc i) (suc j) d e l g k =
    Grows-IsSorted es h.1 i j d e (omega (arith, l)) g k

-- The entry of an lsn.
unfoldable pub entry_of : ℕ → List IndexEntry → Option IndexEntry
entry_of lsn [] = none
entry_of lsn (e ∷ es) = if e.lsn == lsn then some e else entry_of lsn es

entry_of-at :
    (es : List IndexEntry) (j : ℕ) (e : IndexEntry)
    → Grows es
    → get_elem? es j ≡ some e
    → entry_of e.lsn es ≡ some e
unfolding entry_of
entry_of-at [] j e h g = absurd (cc g)
entry_of-at (x ∷ es) zero e h g = let s : x ≡ e = cc g in rw (← s, eq→== x.lsn x.lsn refl) refl
entry_of-at (x ∷ es) (suc j) e h g =
    let below = All-at x es j e h.0 g in
    let no : (x.lsn == e.lsn) ≡ false = ground (arith, below) in rw no (entry_of-at es j e h.1 g)

entry_of-none :
    (lsn : ℕ) (es : List IndexEntry)
    → ((j : ℕ) (e : IndexEntry) → get_elem? es j ≡ some e → e.lsn ≢ lsn)
    → entry_of lsn es ≡ none
unfolding entry_of
entry_of-none lsn [] h = refl
entry_of-none lsn (e ∷ es) h = elim (Bool-cases (e.lsn == lsn)) [
  | inl y ↦ absurd (h 0 e refl (==→eq e.lsn lsn y))
  | inr n ↦ rw n (entry_of-none lsn es (λ j d g. h (suc j) d g))
]

-- The search by halves finds what is there.
pub array_get_index-entry_of :
    (lsn : ℕ) (es : List IndexEntry)
    → Grows es
    → array_get_index lsn es ≡ or_not_found (entry_of lsn es)
array_get_index-entry_of lsn es h = elim (array_cases es lsn (Grows-IsSorted es h)) [
  | inl (j, e, g, s, r) ↦ r ∙ rw (← s, entry_of-at es j e h g) refl
  | inr (f, r) ↦ r ∙ rw (entry_of-none lsn es f) refl
]

-- Where the entry of an lsn belongs, found from the front.
unfoldable pub insert_entry : ℕ → Bytes → ℕ → List IndexEntry → List IndexEntry
insert_entry lsn name offset [] = new_entry lsn name offset ∷ []
insert_entry lsn name offset (e ∷ es) =
    if ltb e.lsn lsn
    then e ∷ insert_entry lsn name offset es
    else if e.lsn == lsn
    then moved e name offset ∷ es
    else new_entry lsn name offset ∷ (e ∷ es)

module _ (lsn : ℕ) (name : Bytes) (offset : ℕ) where
  abbrev put : Option IndexEntry → ℕ → List IndexEntry → List IndexEntry
  put o i es = put_entry o i lsn name offset es

  put-cons :
      (o : Option IndexEntry) (i : ℕ) (e : IndexEntry) (es : List IndexEntry)
      → put o (suc i) (e ∷ es) ≡ e ∷ put o i es
  put-cons none i e es = refl
  put-cons (some d) i e es = elim (Bool-cases (d.lsn == lsn)) [
    | inl y ↦ rw y refl
    | inr n ↦ rw n refl
  ]

  pub put-insert :
      (es : List IndexEntry) (i : ℕ)
      → i ≤ length es
      → ((j : ℕ) (d : IndexEntry) → j < i → get_elem? es j ≡ some d → d.lsn < lsn)
      → ((d : IndexEntry) → get_elem? es i ≡ some d → lsn ≤ d.lsn)
      → put (get_elem? es i) i es ≡ insert_entry lsn name offset es
  unfolding insert_entry
  put-insert [] zero l f g = refl
  put-insert [] (suc i) l f g = absurd (omega (arith, l))
  put-insert (e ∷ es) zero l f g =
      let least = g e refl in let no : ltb e.lsn lsn ≡ false = ground (arith, least) in rw no refl
  put-insert (e ∷ es) (suc i) l f g =
      let below = f 0 e (omega arith) refl in
      let yes : ltb e.lsn lsn ≡ true = ground (arith, below) in
      put-cons (get_elem? es i) i e es
      ∙ rw yes (
          ap (λ t. e ∷ t)
            (put-insert es i (omega (arith, l)) (λ j d k h. f (suc j) d (omega (arith, k)) h) g))

  pub insert-last :
      (es : List IndexEntry)
      → ((j : ℕ) (d : IndexEntry) → get_elem? es j ≡ some d → d.lsn < lsn)
      → es ++ (new_entry lsn name offset ∷ []) ≡ insert_entry lsn name offset es
  unfolding insert_entry
  insert-last [] f = refl
  insert-last (e ∷ es) f =
      let below = f 0 e refl in
      let yes : ltb e.lsn lsn ≡ true = ground (arith, below) in
      rw yes (ap (λ t. e ∷ t) (insert-last es (λ j d h. f (suc j) d h)))

  All-insert :
      (k : ℕ) (es : List IndexEntry)
      → k < lsn
      → All (λ (d : IndexEntry). k < d.lsn) es
      → All (λ (d : IndexEntry). k < d.lsn) (insert_entry lsn name offset es)
  unfolding insert_entry
  All-insert k [] l h = (l, tt)
  All-insert k (e ∷ es) l h = elim (Bool-cases (ltb e.lsn lsn)) [
    | inl y ↦ rw y (h.0, All-insert k es l h.1)
    | inr n ↦ elim (Bool-cases (e.lsn == lsn)) [
      | inl y ↦ rw (n, y) (h.0, h.1)
      | inr m ↦ rw (n, m) (l, (h.0, h.1))
    ]
  ]

  All-lower :
      (k m : ℕ) (es : List IndexEntry)
      → k < m
      → All (λ (d : IndexEntry). m < d.lsn) es
      → All (λ (d : IndexEntry). k < d.lsn) es
  All-lower k m [] l h = tt
  All-lower k m (e ∷ es) l h = (omega (arith, l, h.0), All-lower k m es l h.1)

  pub insert-Grows : (es : List IndexEntry) → Grows es → Grows (insert_entry lsn name offset es)
  unfolding insert_entry
  insert-Grows [] h = (tt, tt)
  insert-Grows (e ∷ es) h = elim (Bool-cases (ltb e.lsn lsn)) [
    | inl y ↦ rw y (All-insert e.lsn es (ltb→lt e.lsn lsn y) h.0, insert-Grows es h.1)
    | inr n ↦ elim (Bool-cases (e.lsn == lsn)) [
      | inl y ↦ rw (n, y) (h.0, h.1)
      | inr m ↦
          let less : lsn < e.lsn = ground (arith, ltb→le e.lsn lsn n, m) in
          rw (n, m) ((less, All-lower lsn e.lsn es less h.0), (h.0, h.1))
    ]
  ]

  pub entry_of-insert :
      (es : List IndexEntry)
      → (e : IndexEntry) × (entry_of lsn (insert_entry lsn name offset es) ≡ some e)
        × (e.lsn ≡ lsn)
        × (e.file_name ≡ name)
        × (e.offset ≡ offset)
  unfolding entry_of insert_entry
  entry_of-insert [] = (new_entry lsn name offset, rw (eq→== lsn lsn refl) refl, refl, refl, refl)
  entry_of-insert (e ∷ es) = elim (Bool-cases (ltb e.lsn lsn)) [
    | inl y ↦
        let (d, r, a, b, c) = entry_of-insert es in
        let no : (e.lsn == lsn) ≡ false = ground (arith, ltb→lt e.lsn lsn y) in
        (d, rw (y, no) r, a, b, c)
    | inr n ↦ elim (Bool-cases (e.lsn == lsn)) [
      | inl y ↦ (moved e name offset, rw (n, y, y) refl, ==→eq e.lsn lsn y, refl, refl)
      | inr m ↦ (new_entry lsn name offset, rw (n, m, eq→== lsn lsn refl) refl, refl, refl, refl)
    ]
  ]

  pub entry_of-insert_other :
      (l : ℕ) (es : List IndexEntry)
      → l ≢ lsn
      → entry_of l (insert_entry lsn name offset es) ≡ entry_of l es
  unfolding entry_of insert_entry
  entry_of-insert_other l [] h = let no : (lsn == l) ≡ false = ground (arith, h) in rw no refl
  entry_of-insert_other l (e ∷ es) h = elim (Bool-cases (ltb e.lsn lsn)) [
    | inl y ↦ rw y (ap (λ t. if e.lsn == l then some e else t) (entry_of-insert_other l es h))
    | inr n ↦ elim (Bool-cases (e.lsn == lsn)) [
      | inl y ↦
          let no : (e.lsn == l) ≡ false = ground (arith, ==→eq e.lsn lsn y, h) in rw (n, y, no) refl
      | inr m ↦ let no : (lsn == l) ≡ false = ground (arith, h) in rw (n, m, no) refl
    ]
  ]
