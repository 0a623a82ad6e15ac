-- ===== src/Segment/Index/Array.antt =====
-- internal/segment/index.go: Add and AddBatch of IndexManagerArray.
pub mod Insertion
pub mod Laws
use laguna.Prelude.{
  ℕ, zero, suc, ◌-◌, ◌==◌, leb, ltb, List, [], ◌∷◌, ◌++◌, length, take, drop, get_elem?, Bytes,
  Bool, true, false, if◌then◌else◌, Option, none, some,
}
use laguna.Segment.Index.{IndexEntry}

-- The test that sort.Search is given, of the entry at an index.
abbrev pub at_least : ℕ → Option IndexEntry → Bool
at_least lsn none = false
at_least lsn (some e) = leb lsn e.lsn

abbrev pub moved : IndexEntry → Bytes → ℕ → IndexEntry
moved e name offset = record e { file_name = name; offset = offset }

abbrev pub new_entry : ℕ → Bytes → ℕ → IndexEntry
new_entry lsn name offset = record { lsn = lsn; file_name = name; offset = offset }

-- What follows the search: an entry of the lsn is changed, and else one is put in front of that index.
abbrev pub put_entry : Option IndexEntry → ℕ → ℕ → Bytes → ℕ → List IndexEntry → List IndexEntry
put_entry none i lsn name offset entries =
    take i entries ++ (new_entry lsn name offset ∷ drop i entries)
put_entry (some e) i lsn name offset entries =
    if e.lsn == lsn
    then take i entries ++ (moved e name offset ∷ drop (suc i) entries)
    else take i entries ++ (new_entry lsn name offset ∷ drop i entries)

-- `n == 0 || lsn > im.entries[n-1].LSN`
abbrev pub is_behind : ℕ → Option IndexEntry → Bool
is_behind lsn none = true
is_behind lsn (some e) = ltb e.lsn lsn

-- `search n p` is sort.Search.
module _ (search : ℕ → (ℕ → Bool) → ℕ) where
  abbrev pub place : ℕ → List IndexEntry → ℕ
  place lsn entries = search (length entries) (λ i. at_least lsn (get_elem? entries i))

  -- Add
  unfoldable pub array_add : ℕ → Bytes → ℕ → List IndexEntry → List IndexEntry
  array_add lsn name offset entries =
      if is_behind lsn (get_elem? entries (length entries - 1))
      then entries ++ (new_entry lsn name offset ∷ [])
      else put_entry (get_elem? entries (place lsn entries)) (place lsn entries) lsn name offset
          entries

-- AddBatch
unfoldable pub array_add_batch : List IndexEntry → List IndexEntry → List IndexEntry
array_add_batch [] entries = entries
array_add_batch (e ∷ es) entries = entries ++ (e ∷ es)
