-- ===== src/Logs/Segments/Index.antt =====
-- The index that a restart rebuilds.
use laguna.Prelude.{ℕ, ◌+◌, ◌≡◌, refl, List, [], ◌∷◌, length, Bytes, ok}
use laguna.Prelude.Map.{nat_key, insert}
use laguna.Segment.Index.{IndexMap, entry_at}
use laguna.Segment.Manager.{Batch, create_batch, entries_loop, entries_of}
use laguna.Segment.Manager.Positions.{create_batch-cons, create_batch-nil}
use laguna.Wal.Row.{Row, marshal}
use laguna.Logs.Segments.{restore_entries, restore_index}

restore_step :
    (r : Row) (rows : List Row) (b : Bytes) (entries : IndexMap) (name : Bytes) (offset : ℕ)
    → marshal r ≡ ok b
    → restore_entries entries name offset (r ∷ rows)
      ≡ restore_entries
          (insert r.lsn_id (entry_at name offset) entries)
          name
          (offset + length b)
          rows
unfolding restore_entries
restore_step r rows b entries name offset m = rw m

restore_entries-entries_loop :
    (rows : List Row) (batch : Batch) (entries : IndexMap) (name : Bytes) (offset : ℕ)
    → create_batch rows ≡ ok batch
    → restore_entries entries name offset rows ≡ entries_loop entries name offset batch
unfolding entries_loop
restore_entries-entries_loop [] batch entries name offset h =
    unfold restore_entries in rw (create_batch-nil batch h) refl
restore_entries-entries_loop (r ∷ rows) batch entries name offset h =
    let (b, rest, c, split, m) = create_batch-cons r rows batch h in
    rw (split, restore_step r rows b entries name offset m)
      (restore_entries-entries_loop rows rest (insert r.lsn_id (entry_at name offset) entries) name
        (offset + length b) c)

-- The entries that a restart reads off a segment are those that were added when its rows were written,
-- in one batch, to the new segment.
restore_index-entries_of :
    (name : Bytes) (rows : List Row) (batch : Batch)
    → create_batch rows ≡ ok batch
    → restore_index name rows ≡ entries_of name 0 batch
unfolding restore_index
restore_index-entries_of name rows batch h = restore_entries-entries_loop rows batch [] name 0 h
