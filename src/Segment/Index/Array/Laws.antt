-- ===== src/Segment/Index/Array/Laws.antt =====
-- An entry that is added to a sorted array is found, and the others stay.
use laguna.Prelude.{
  inl, inr, ℕ, ◌-◌, ◌≤◌, ◌<◌, ◌≡◌, ◌≢◌, sym, ap, ◌∙◌, arith, leb, ltb, ltb→lt, ltb→le, Bool-cases,
  List, length, get_elem?, get_elem?_total, Bytes, Bool, true, false, some, ok,
}
use laguna.Segment.Index.{IndexEntry, or_not_found}
use laguna.Segment.Index.Sorted.{get_elem?-lt, array_get_index}
use laguna.Segment.Index.Array.{at_least, is_behind, place, array_add}
use laguna.Segment.Index.Array.Insertion.{
  Grows, Grows-IsSorted, array_get_index-entry_of, insert_entry, put-insert, insert-last,
  insert-Grows, entry_of-insert, entry_of-insert_other,
}

-- The documented behaviour of sort.Search on a test that stays true once it is.
abbrev pub IsSearch : (ℕ → (ℕ → Bool) → ℕ) → Type 0
IsSearch search =
    (n : ℕ) (p : ℕ → Bool)
    → ((i j : ℕ) → i ≤ j → j < n → p i ≡ true → p j ≡ true)
    → (search n p ≤ n)
      × ((j : ℕ) → j < search n p → p j ≡ false)
      × (search n p < n → p (search n p) ≡ true)

module _ (lsn : ℕ) (name : Bytes) (offset : ℕ) where
  -- The test of Add for an entry behind all others.
  behind_all :
      (es : List IndexEntry)
      → Grows es
      → is_behind lsn (get_elem? es (length es - 1)) ≡ true
      → (j : ℕ) (d : IndexEntry) → get_elem? es j ≡ some d
      → d.lsn < lsn
  behind_all es h b j d g =
      let inside = get_elem?-lt es j d g in
      let (e, k) = get_elem?_total es (length es - 1) (omega (arith, inside)) in
      let last : e.lsn < lsn = ltb→lt e.lsn lsn (rw k at b) in
      elim (Bool-cases (ltb j (length es - 1))) [
        | inl y ↦ omega (
          arith,
          Grows-IsSorted es h j (length es - 1) d e (ltb→lt j (length es - 1) y) g k,
          last,
        )
        | inr n ↦
            let same : j ≡ length es - 1 = omega (arith, inside, ltb→le j (length es - 1) n) in
            let both : some d ≡ some e = sym g ∙ ap (get_elem? es) same ∙ k in
            let de : d ≡ e = cc both in rw de last
      ]

  test_stays :
      (es : List IndexEntry)
      → Grows es
      → (i j : ℕ) → i ≤ j
      → j < length es
      → at_least lsn (get_elem? es i) ≡ true
      → at_least lsn (get_elem? es j) ≡ true
  test_stays es h i j l n t =
      let (d, g) = get_elem?_total es i (omega (arith, l, n)) in
      let (e, k) = get_elem?_total es j n in
      let low : leb lsn d.lsn ≡ true = rw g at t in
      elim (Bool-cases (ltb i j)) [
        | inl y ↦
            let less = Grows-IsSorted es h i j d e (ltb→lt i j y) g k in
            rw k (ground (arith, low, less))
        | inr m ↦
            let same : i ≡ j = omega (arith, l, ltb→le i j m) in
            ap (λ a. at_least lsn (get_elem? es a)) (sym same) ∙ t
      ]

  array_add-insert :
      (search : ℕ → (ℕ → Bool) → ℕ) (es : List IndexEntry)
      → IsSearch search
      → Grows es
      → array_add search lsn name offset es ≡ insert_entry lsn name offset es
  unfolding array_add
  array_add-insert search es s h =
      elim (Bool-cases (is_behind lsn (get_elem? es (length es - 1)))) [
        | inl y ↦ rw y (insert-last lsn name offset es (behind_all es h y))
        | inr n ↦
            let (inside, below, from) =
              s (length es) (λ i. at_least lsn (get_elem? es i)) (test_stays es h) in
            rw n (
              put-insert lsn name offset es (place search lsn es) inside
                (λ j d l g. low j d g (below j l))
                (λ d g. high d g (from (get_elem?-lt es (place search lsn es) d g))))
      ]
    where
      low :
          (j : ℕ) (d : IndexEntry)
          → get_elem? es j ≡ some d
          → at_least lsn (get_elem? es j) ≡ false
          → d.lsn < lsn
      low j d g t = let t' : leb lsn d.lsn ≡ false = rw g at t in ground (arith, t')

      high :
          (d : IndexEntry)
          → get_elem? es (place search lsn es) ≡ some d
          → at_least lsn (get_elem? es (place search lsn es)) ≡ true
          → lsn ≤ d.lsn
      high d g t = let t' : leb lsn d.lsn ≡ true = rw g at t in ground (arith, t')

-- With a search that is as sort.Search is documented: Add to an array along which the lsns grow leaves
-- one along which they grow; GetIndex of the added lsn returns an entry with this lsn, file and offset,
-- also where the lsn was there already, and GetIndex of any other lsn returns what it did before.
pub array_add_lem :
    (search : ℕ → (ℕ → Bool) → ℕ) (lsn l : ℕ) (name : Bytes) (offset : ℕ) (es : List IndexEntry)
    → IsSearch search
    → Grows es
    → l ≢ lsn
    → Grows (array_add search lsn name offset es)
      × ((e : IndexEntry) × (array_get_index lsn (array_add search lsn name offset es) ≡ ok e)
          × (e.lsn ≡ lsn)
          × (e.file_name ≡ name)
          × (e.offset ≡ offset))
      × (array_get_index l (array_add search lsn name offset es) ≡ array_get_index l es)
array_add_lem search lsn l name offset es s h n =
    let (e, r, a, b, c) = entry_of-insert lsn name offset es in
    let grows = insert-Grows lsn name offset es h in
    rw (array_add-insert lsn name offset search es s h) (
      grows,
      (
        e,
        array_get_index-entry_of lsn (insert_entry lsn name offset es) grows ∙ ap or_not_found r,
        a,
        b,
        c,
      ),
      array_get_index-entry_of l (insert_entry lsn name offset es) grows
          ∙ ap or_not_found (entry_of-insert_other lsn name offset l es n)
          ∙ sym (array_get_index-entry_of l es h),
    )
