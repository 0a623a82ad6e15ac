-- ===== src/Segment/Index/Cow.antt =====
-- internal/segment/index.go: IndexManagerCOW, whose map is copied for each change.
use laguna.Prelude.{
  ℕ, ◌==◌, if◌then◌else◌, some, ◌≡◌, refl, sym, ap, ◌∙◌, [], Bytes, Option, none, Result,
}
use laguna.Prelude.Map.{
  nat_key, or_else, lookup, insert, insert_all, lookup-insert, lookup-insert_all,
}
use laguna.Segment.Index.{IndexMap, IndexEntry, entry_at, or_not_found, add, get_index, add_batch}

pub record Cow : Type 0 where
  pub current : IndexMap

unfoldable pub new_cow : Cow
new_cow = record { current = [] }

abbrev copied : IndexMap → IndexMap
copied old = insert_all old []

unfoldable pub cow_add : ℕ → Bytes → ℕ → Cow → Cow
cow_add lsn name offset c = record {
  current = insert lsn (entry_at name offset) (copied c.current);
}

unfoldable pub cow_add_batch : IndexMap → Cow → Cow
cow_add_batch entries c = record { current = insert_all entries (copied c.current) }

unfoldable pub cow_get_index : ℕ → Cow → Result IndexEntry
cow_get_index lsn c = or_not_found (lookup lsn c.current)

-- Both kinds of index hold the same entries.
abbrev pub Same : Cow → IndexMap → Type 0
Same c im = (lsn : ℕ) → lookup lsn c.current ≡ lookup lsn im

lookup-copied : (lsn : ℕ) (im : IndexMap) → lookup lsn (copied im) ≡ lookup lsn im
lookup-copied lsn im = lookup-insert_all lsn im [] ∙ or_none (lookup lsn im)
  where
    or_none : (o : Option IndexEntry) → or_else o (lookup lsn []) ≡ o
    or_none none = unfold lookup in refl
    or_none (some e) = refl

-- The index that is copied for each change answers as the one under a mutex: if both hold the same
-- entries, they do so behind each change, and a reader gets the same answers from both.
cow-mutex :
    (c : Cow) (im entries : IndexMap) (lsn : ℕ) (name : Bytes) (offset : ℕ)
    → Same c im
    → Same (cow_add lsn name offset c) (add lsn name offset im)
      × Same (cow_add_batch entries c) (add_batch entries im)
      × ((j : ℕ) → cow_get_index j c ≡ get_index j im)
unfolding cow_add cow_add_batch cow_get_index add add_batch get_index
cow-mutex c im entries lsn name offset h = (
  λ j.
      lookup-insert lsn j (entry_at name offset) (copied c.current)
      ∙ ap (λ o. if lsn == j then some (entry_at name offset) else o)
          (lookup-copied j c.current ∙ h j)
      ∙ sym (lookup-insert lsn j (entry_at name offset) im),
  λ j.
      lookup-insert_all j entries (copied c.current)
      ∙ ap (or_else (lookup j entries)) (lookup-copied j c.current ∙ h j)
      ∙ sym (lookup-insert_all j entries im),
  λ j. ap or_not_found (h j),
)
