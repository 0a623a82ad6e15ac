-- ===== src/Segment/Index/Sorted.antt =====
-- internal/segment/index.go: GetIndex of IndexManagerArray, which searches an array by halves.
use laguna.Prelude.{
  ◌⊎◌, ==→eq, ℕ, zero, suc, ◌+◌, ◌/◌, ◌<◌, ◌≤◌, ◌≡◌, refl, sym, ap, ◌∙◌, arith, List, [], ◌∷◌,
  eq→==, ◌≢◌, length, get_elem?, get_elem?_total, Option, none, some, true, false, Bool-cases, inl,
  inr, Result, ok, err, index, index_not_found, ◌>>=◌, ltb, ltb→lt, ltb→le, ◌==◌, if◌then◌else◌,
}
use laguna.Segment.Index.{IndexEntry}

-- The loop of `binarySearchIndex`; the fuel bounds the rounds. An index out of range panics.
unfoldable pub binary_search : ℕ → List IndexEntry → ℕ → ℕ → ℕ → Result ℕ
binary_search zero entries lsn lo hi = ok lo
binary_search (suc fuel) entries lsn lo hi = elim (ltb lo hi) [
  | false ↦ ok lo
  | true ↦ index (get_elem? entries ((lo + hi) / 2)) >>= λ e. elim (ltb e.lsn lsn) [
    | true ↦ binary_search fuel entries lsn ((lo + hi) / 2 + 1) hi
    | false ↦ binary_search fuel entries lsn lo ((lo + hi) / 2)
  ]
]

abbrev entry_found : ℕ → Option IndexEntry → Result IndexEntry
entry_found lsn none = err index_not_found
entry_found lsn (some e) = if e.lsn == lsn then ok e else err index_not_found

unfoldable pub array_get_index : ℕ → List IndexEntry → Result IndexEntry
array_get_index lsn entries = binary_search (length entries) entries lsn 0 (length entries) >>= λ i.
    entry_found lsn (get_elem? entries i)

ne→== : (a b : ℕ) → a ≢ b → (a == b) ≡ false
ne→== a b h = ground arith

pub get_elem?-lt :
    (xs : List IndexEntry) (i : ℕ) (x : IndexEntry) → get_elem? xs i ≡ some x → i < length xs
get_elem?-lt [] i x h = absurd (cc h)
get_elem?-lt (y ∷ xs) zero x h = omega arith
get_elem?-lt (y ∷ xs) (suc i) x h = omega (arith, get_elem?-lt xs i x h)

-- The lsns grow along the array.
abbrev pub IsSorted : List IndexEntry → Type 0
IsSorted entries =
    (i j : ℕ) (d e : IndexEntry)
    → i < j
    → get_elem? entries i ≡ some d
    → get_elem? entries j ≡ some e
    → d.lsn < e.lsn

module _ (entries : List IndexEntry) (lsn : ℕ) (sorted : IsSorted entries) where
  -- All entries in front of an index are below the lsn, and those from an index on are not.
  abbrev Below : ℕ → Type 0
  Below i = (j : ℕ) (e : IndexEntry) → j < i → get_elem? entries j ≡ some e → e.lsn < lsn

  abbrev From : ℕ → Type 0
  From i = (j : ℕ) (e : IndexEntry) → i ≤ j → get_elem? entries j ≡ some e → lsn ≤ e.lsn

  Below-mid :
      (mid : ℕ) (e : IndexEntry) → get_elem? entries mid ≡ some e → e.lsn < lsn → Below (mid + 1)
  Below-mid mid e h l j d k g = elim (Bool-cases (ltb j mid)) [
    | inl y ↦ omega (arith, sorted j mid d e (ltb→lt j mid y) g h, l)
    | inr n ↦ (let same : j ≡ mid = omega (arith, ltb→le j mid n, k) in here same)
  ]
    where
      here : j ≡ mid → d.lsn < lsn
      here s =
          (let both : some d ≡ some e = sym g ∙ ap (get_elem? entries) s ∙ h in
            let de : d ≡ e = cc both in rw de l)

  From-mid : (mid : ℕ) (e : IndexEntry) → get_elem? entries mid ≡ some e → lsn ≤ e.lsn → From mid
  From-mid mid e h l j d k g = elim (Bool-cases (ltb mid j)) [
    | inl y ↦ omega (arith, sorted mid j e d (ltb→lt mid j y) h g, l)
    | inr n ↦ (let same : j ≡ mid = omega (arith, ltb→le mid j n, k) in here same)
  ]
    where
      here : j ≡ mid → lsn ≤ d.lsn
      here s =
          (let both : some d ≡ some e = sym g ∙ ap (get_elem? entries) s ∙ h in
            let de : d ≡ e = cc both in rw de l)

  module _ (fuel lo hi : ℕ) (e : IndexEntry) (y : ltb lo hi ≡ true)
      (g : get_elem? entries ((lo + hi) / 2) ≡ some e) where
    half : (lo ≤ (lo + hi) / 2) × ((lo + hi) / 2 < hi)
    half = omega (arith, ltb→lt lo hi y)

    search_high :
        ltb e.lsn lsn ≡ true
        → binary_search (suc fuel) entries lsn lo hi
          ≡ binary_search fuel entries lsn ((lo + hi) / 2 + 1) hi
    unfolding binary_search
    search_high s = ground arith

    search_low :
        ltb e.lsn lsn ≡ false
        → binary_search (suc fuel) entries lsn lo hi
          ≡ binary_search fuel entries lsn lo ((lo + hi) / 2)
    unfolding binary_search
    search_low s = ground arith

  search_ends : (fuel lo hi : ℕ) → hi ≤ lo → binary_search fuel entries lsn lo hi ≡ ok lo
  unfolding binary_search
  search_ends zero lo hi h = refl
  search_ends (suc fuel) lo hi h = ground arith

  binary_search_lem :
      (fuel lo hi : ℕ)
      → hi ≤ lo + fuel
      → hi ≤ length entries
      → lo ≤ hi
      → Below lo
      → From hi
      → (i : ℕ) × (binary_search fuel entries lsn lo hi ≡ ok i) × Below i × From i
  binary_search_lem zero lo hi f u l b a =
      (lo, search_ends zero lo hi (omega (arith, f)), b, λ j e k. a j e (omega (arith, f, k)))
  binary_search_lem (suc fuel) lo hi f u l b a = elim (Bool-cases (ltb lo hi)) [
    | inr n ↦ (
      lo,
      search_ends (suc fuel) lo hi (ltb→le lo hi n),
      b,
      λ j e k. a j e (omega (arith, ltb→le lo hi n, k)),
    )
    | inl y ↦
        (let (e, g) = get_elem?_total entries ((lo + hi) / 2) (omega (arith, ltb→lt lo hi y, u)) in
          let (m, x) = half fuel lo hi e y g in
          elim (Bool-cases (ltb e.lsn lsn)) [
            | inl s ↦
                (let (i, r, p, q) =
                    binary_search_lem fuel ((lo + hi) / 2 + 1) hi (omega (arith, m, f)) u
                      (omega (arith, x)) (Below-mid ((lo + hi) / 2) e g (ltb→lt e.lsn lsn s)) a in
                  (i, search_high fuel lo hi e y g s ∙ r, p, q))
            | inr s ↦
                (let (i, r, p, q) =
                    binary_search_lem fuel lo ((lo + hi) / 2) (omega (arith, x, f))
                      (omega (arith, x, u)) m b
                      (From-mid ((lo + hi) / 2) e g (ltb→le e.lsn lsn s)) in
                  (i, search_low fuel lo hi e y g s ∙ r, p, q))
          ])
  ]

  whole :
      (i : ℕ) × (binary_search (length entries) entries lsn 0 (length entries) ≡ ok i)
      × Below i
      × From i
  whole =
      binary_search_lem (length entries) 0 (length entries) (omega arith) (omega arith)
        (omega arith) (λ j e k. absurd (omega arith)) (λ j e k g. absurd (beyond j e k g))
    where
      beyond : (j : ℕ) (e : IndexEntry) → length entries ≤ j → get_elem? entries j ≢ some e
      beyond j e k g = omega (arith, get_elem?-lt entries j e g, k)

  -- An entry of the lsn stands where the search ends.
  meets :
      (i j : ℕ) (e : IndexEntry)
      → Below i
      → From i
      → get_elem? entries j ≡ some e
      → e.lsn ≡ lsn
      → i ≡ j
  meets i j e below from g h = elim (Bool-cases (ltb j i)) [
    | inl y ↦ absurd (omega (arith, below j e (ltb→lt j i y) g, h))
    | inr n ↦ (elim (Bool-cases (ltb i j)) [
      | inl y ↦
          (let (d, k) =
              get_elem?_total entries i (omega (arith, ltb→lt i j y, get_elem?-lt entries j e g)) in
            absurd (omega (arith, from i d (omega arith) k, sorted i j d e (ltb→lt i j y) k g, h)))
      | inr m ↦ omega (arith, ltb→le j i n, ltb→le i j m)
    ])
  ]

  -- If the lsns grow along the array, `GetIndex` returns the entry of an lsn, wherever it stands, or,
  -- where no entry has that lsn, the error that there is no index; it does not panic.
  pub array_cases :
      ((j : ℕ) × (e : IndexEntry) × (get_elem? entries j ≡ some e)
        × (e.lsn ≡ lsn)
        × (array_get_index lsn entries ≡ ok e))
      ⊎ (((j : ℕ) (e : IndexEntry) → get_elem? entries j ≡ some e → e.lsn ≢ lsn)
          × (array_get_index lsn entries ≡ err index_not_found))
  unfolding array_get_index
  array_cases =
      let (i, r, below, from) = whole in rw r (at_end i below from (get_elem? entries i) refl)
    where
      at_end :
          (i : ℕ)
          → Below i
          → From i
          → (o : Option IndexEntry) → get_elem? entries i ≡ o
          → ((j : ℕ) × (e : IndexEntry) × (get_elem? entries j ≡ some e)
              × (e.lsn ≡ lsn)
              × (entry_found lsn (get_elem? entries i) ≡ ok e))
            ⊎ (((j : ℕ) (e : IndexEntry) → get_elem? entries j ≡ some e → e.lsn ≢ lsn)
                × (entry_found lsn (get_elem? entries i) ≡ err index_not_found))
      at_end i below from none g =
          inr (λ j e k h. cc (g, ap (get_elem? entries) (meets i j e below from k h), k), rw g refl)
      at_end i below from (some d) g = elim (Bool-cases (d.lsn == lsn)) [
        | inl y ↦ inl (i, d, g, ==→eq d.lsn lsn y, rw (g, y) refl)
        | inr n ↦ inr (
          λ j e k h.
              absurd (other i d n g j e k h (ap (get_elem? entries) (meets i j e below from k h))),
          rw (g, n) refl,
        )
      ]
        where
          other :
              (i : ℕ) (d : IndexEntry)
              → (d.lsn == lsn) ≡ false
              → get_elem? entries i ≡ some d
              → (j : ℕ) (e : IndexEntry) → get_elem? entries j ≡ some e
              → e.lsn ≡ lsn
              → get_elem? entries i ≡ get_elem? entries j
              → ⊥
          other i d n g j e k h s =
              let both : some d ≡ some e = sym g ∙ s ∙ k in
              let de : d ≡ e = cc both in cc (rw (de, eq→== e.lsn lsn h) at n)
