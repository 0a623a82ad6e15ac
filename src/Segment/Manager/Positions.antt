-- ===== src/Segment/Manager/Positions.antt =====
-- The index entries of a batch lead to its rows.
use laguna.Prelude.{
  ℕ, ◌+◌, ◌≡◌, refl, ap, sym, ◌∙◌, arith, List, [], ◌∷◌, ◌++◌, append_assoc, append-nil, ◌⊎◌,
  drop-append, length, length-append, All, some, ◌==◌, ==→eq,
}
use laguna.Prelude.{Bytes, ok, Bool-cases, inl, inr, >>=-eq-ok}
use laguna.Prelude.Map.{nat_key, lookup, insert, lookup-insert}
use laguna.Segment.Index.{IndexMap, IndexEntry, entry_at}
use laguna.Segment.Manager.{
  Manager, Batch, entries_loop, entries_of, flatten, write_batch, create_batch, write_in_seg,
}
use laguna.Segment.Manager.Log.{IsReady, write_in_seg-cons, write_in_seg_lem}
use laguna.Wal.Row.{Row, marshal}
use laguna.Wal.Row.Codec.{IsEncodable}
use laguna.Logs.Reader.{read_from_offset}
use laguna.Logs.Reader.Chunks.{read-bytes_reader}
use laguna.Replication.Protocol

pub flatten-create_batch :
    (rows : List Row) (batch : Batch)
    → create_batch rows ≡ ok batch
    → Protocol.flatten rows ≡ ok (flatten batch)
unfolding create_batch flatten Protocol.flatten
flatten-create_batch [] batch h = ground arith
flatten-create_batch (r ∷ rows) batch h =
    let (b, e, k) = >>=-eq-ok (marshal r) _ h in
    let (rest, e', k') = >>=-eq-ok (create_batch rows) _ k in
    let split : (r, b) ∷ rest ≡ batch = cc k' in rw (e, flatten-create_batch rows rest e', ← split)

-- Reading `content` from the entry on gives a row of that lsn, and the rows behind it.
abbrev pub LeadsTo : ℕ → IndexEntry → Bytes → List Row → Type 0
LeadsTo lsn e content rows =
    (front : List Row) × (r : Row) × (tail : List Row) × (rows ≡ front ++ (r ∷ tail))
    × (r.lsn_id ≡ lsn)
    × (read_from_offset content e.offset ≡ ok (r ∷ tail))

pub create_batch-cons :
    (r : Row) (rows : List Row) (batch : Batch)
    → create_batch (r ∷ rows) ≡ ok batch
    → (b : Bytes) × (rest : Batch) × (create_batch rows ≡ ok rest)
      × (batch ≡ (r, b) ∷ rest)
      × (marshal r ≡ ok b)
unfolding create_batch
create_batch-cons r rows batch h =
    let (b, e, k) = >>=-eq-ok (marshal r) _ h in
    let (rest, e', k') = >>=-eq-ok (create_batch rows) _ k in (b, rest, e', cc k', e)

pub create_batch-nil : (batch : Batch) → create_batch [] ≡ ok batch → batch ≡ []
unfolding create_batch
create_batch-nil batch h = cc

-- What a successful write of the file leaves of the manager.
pub write_in_seg_file :
    (bytes : Bytes) (m : Manager)
    → IsReady m
    → ((write_in_seg bytes m).0.pending ≡ m.pending)
      × ((write_in_seg bytes m).0.cur_seg.file.name ≡ m.cur_seg.file.name)
      × ((write_in_seg bytes m).0.cur_seg.file.content ≡ m.cur_seg.file.content ++ bytes)
write_in_seg_file [] m v =
    unfold write_in_seg in (refl, refl, sym (append-nil m.cur_seg.file.content))
write_in_seg_file (b ∷ bs) m v = rw (write_in_seg-cons b bs m v) (refl, refl, refl)

-- An entry that is found behind an insertion is the new one, or it was there before.
inserted_entry :
    (name : Bytes) (offset : ℕ) (r : Row) (entries : IndexMap) (lsn : ℕ) (e : IndexEntry)
    → lookup lsn (insert r.lsn_id (entry_at name offset) entries) ≡ some e
    → ((r.lsn_id ≡ lsn) × (e ≡ entry_at name offset)) ⊎ (lookup lsn entries ≡ some e)
inserted_entry name offset r entries lsn e h =
    let law = lookup-insert r.lsn_id lsn (entry_at name offset) entries in
    elim (Bool-cases (r.lsn_id == lsn)) [
      | inl same ↦ inl (==→eq _ _ same, cc (h, rw same at law))
      | inr other ↦ inr (sym (rw other at law) ∙ h)
    ]

entries_loop_lem :
    (name old : Bytes) (entries : IndexMap) (rows : List Row) (batch : Batch) (lsn : ℕ)
    (e : IndexEntry)
    → All IsEncodable rows
    → create_batch rows ≡ ok batch
    → lookup lsn (entries_loop entries name (length old) batch) ≡ some e
    → (lookup lsn entries ≡ some e)
      ⊎ ((e.file_name ≡ name) × LeadsTo lsn e (old ++ flatten batch) rows)
entries_loop_lem name old entries [] batch lsn e v h l =
    inl (unfold entries_loop in rw (create_batch-nil batch h) at l)
entries_loop_lem name old entries (r ∷ rows) batch lsn e v h l =
    let (b, rest, c, split, m) = create_batch-cons r rows batch h in
    let at_end : length old + length b ≡ length (old ++ b) = sym (length-append old b) in
    let entries' = insert r.lsn_id (entry_at name (length old)) entries in
    let l' : lookup lsn (entries_loop entries' name (length (old ++ b)) rest) ≡ some e =
      rw at_end at (next_entries b rest split) in
    elim (entries_loop_lem name (old ++ b) entries' rows rest lsn e v.1 c l') [
      | inl before ↦ (elim (inserted_entry name (length old) r entries lsn e before) [
        | inl (same, here) ↦ inr (
          ap (λ (i : IndexEntry). i.file_name) here,
          ([], r, rows, refl, same, found (ap (λ (i : IndexEntry). i.offset) here)),
        )
        | inr there ↦ inl there
      ])
      | inr (n, (front, r', tail, eq, same, got)) ↦
          (let whole : (old ++ b) ++ flatten rest ≡ old ++ flatten batch =
              append_assoc old b (flatten rest) ∙ ap (λ t. old ++ t) (regroup b rest split) in
            inr (n, (r ∷ front, r', tail, ap (λ t. r ∷ t) eq, same, rw whole at got)))
    ]
  where
    next_entries :
        (b : Bytes) (rest : Batch)
        → batch ≡ (r, b) ∷ rest
        → lookup lsn (
            entries_loop
              (insert r.lsn_id (entry_at name (length old)) entries)
              name
              (length old + length b)
              rest)
          ≡ some e
    next_entries b rest s = (let k = rw s at l in unfold entries_loop in k)

    found : e.offset ≡ length old → read_from_offset (old ++ flatten batch) e.offset ≡ ok (r ∷ rows)
    found o =
        unfold read_from_offset in
        rw (o, drop-append old (flatten batch))
          (read-bytes_reader (r ∷ rows) (flatten batch) v (flatten-create_batch (r ∷ rows) batch h))

    regroup : (b : Bytes) (rest : Batch) → batch ≡ (r, b) ∷ rest → b ++ flatten rest ≡ flatten batch
    regroup b rest s = unfold flatten in rw s

-- On a disk that does not fail, when a batch of encodable rows is written to the current segment, each
-- entry that goes to the index names that segment's file, and reading the file from the entry's offset
-- returns a row of the batch with the entry's lsn and all rows of the batch behind it.
pub write_batch-LeadsTo :
    (rows : List Row) (batch : Batch) (m : Manager) (lsn : ℕ) (e : IndexEntry)
    → IsReady m
    → All IsEncodable rows
    → create_batch rows ≡ ok batch
    → lookup lsn (entries_of m.cur_seg.file.name m.cur_seg.size batch) ≡ some e
    → ((write_batch batch m).0.pending
        ≡ m.pending ++ (entries_of m.cur_seg.file.name m.cur_seg.size batch ∷ []))
      × (e.file_name ≡ (write_batch batch m).0.cur_seg.file.name)
      × LeadsTo lsn e (write_batch batch m).0.cur_seg.file.content rows
unfolding write_batch
write_batch-LeadsTo rows batch m lsn e v x c l =
    let (o, _, _) = write_in_seg_lem (flatten batch) m v in
    let (p, n, k) = write_in_seg_file (flatten batch) m v in
    let (name, leads) = written_entry (rw v.sized at l) in rw o (rw (p, n, k) (refl, name, leads))
  where
    nothing : lookup lsn [] ≡ some e → ⊥
    nothing k = unfold lookup in cc k

    written_entry :
        lookup lsn (entries_loop [] m.cur_seg.file.name (length m.cur_seg.file.content) batch)
          ≡ some e
        → (e.file_name ≡ m.cur_seg.file.name)
          × LeadsTo lsn e (m.cur_seg.file.content ++ flatten batch) rows
    written_entry h =
        elim (entries_loop_lem m.cur_seg.file.name m.cur_seg.file.content [] rows batch lsn e x c
          h) [ inl none_before ↦ absurd (nothing none_before) | inr there ↦ there ]
