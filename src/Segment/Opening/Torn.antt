-- ===== src/Segment/Opening/Torn.antt =====
-- What is written behind a torn row.
use laguna.Prelude.{
  ℕ, ◌+◌, ◌≤◌, arith, ◌≡◌, refl, ◌∙◌, List, [], ◌∷◌, ◌++◌, append_assoc, length, Bytes, All, true,
  ok, err, eof,
}
use laguna.Utils.Dir.{Files, read_dir}
use laguna.Segment.Manager.{
  FileSegment, Manager, Batch, fits, batch_size, create_batch, flatten, write, write_batch,
  process_batches,
}
use laguna.Segment.Manager.Log.{IsReady, write_in_seg_lem}
use laguna.Segment.Manager.Positions.{write_in_seg_file}
use laguna.Segment.Opening.{open_file, last_name, new_file_segment, new_segment_manager}
use laguna.Wal.Row.{Row, unmarshal}
use laguna.Wal.Row.Codec.{IsEncodable}
use laguna.Logs.Reader.{read, bytes_reader}
use laguna.Logs.Reader.Chunks.{content-bytes_reader, read-flatten}
use laguna.Logs.Segments.{path}
use laguna.Replication.Protocol

-- The manager of a start, whose directory has files.
abbrev pub started : (ℕ → Bytes) → Bytes → Bytes → ℕ → Manager
started clock name bytes max_size = new_segment_manager clock [] [] (record {
  file = record { name = name; content = bytes };
  size = length bytes;
  max_size = max_size;
})

-- A start goes on with the last file of the directory, whatever it ends in.
new_file_segment_lem :
    (f : Files) (directory fresh name : Bytes) (names : List Bytes) (bytes : Bytes) (max_size : ℕ)
    → read_dir f ≡ ok (name ∷ names)
    → f.content (path directory (last_name name names)) ≡ ok bytes
    → new_file_segment f directory fresh max_size
      ≡ ok (record {
        file = record { name = last_name name names; content = bytes };
        size = length bytes;
        max_size = max_size;
      })
unfolding new_file_segment open_file
new_file_segment_lem f directory fresh name names bytes max_size d c = rw (d, c) refl

started-IsReady :
    (clock : ℕ → Bytes) (name bytes : Bytes) (max_size : ℕ)
    → IsReady (started clock name bytes max_size)
unfolding new_segment_manager
started-IsReady clock name bytes max_size = record {
  unlocked = refl;
  no_failures = refl;
  sized = refl;
}

content-write :
    (rows : List Row) (batch : Batch) (m : Manager)
    → IsReady m
    → create_batch rows ≡ ok batch
    → fits m.cur_seg (batch_size batch) ≡ true
    → ((write rows m).1 ≡ ok tt)
      × ((write rows m).0.cur_seg.file.content ≡ m.cur_seg.file.content ++ flatten batch)
unfolding write process_batches write_batch
content-write rows batch m r c h =
    let (_, _, content) = write_in_seg_file (flatten batch) m r in
    let (o, _, _) = write_in_seg_lem (flatten batch) m r in rw (c, h, o) (refl, content)

-- A start on a directory whose last file holds the rows `old` and then a torn row: if rows are written
-- that fit the segment, and the torn row lacks bytes even with theirs behind it, then the write
-- returns no error, and the file, when it is read again, delivers `old` and none of the new rows.
pub lost_behind_torn :
    (f : Files) (directory fresh name : Bytes) (names : List Bytes) (whole torn : Bytes)
    (max_size : ℕ) (clock : ℕ → Bytes) (old rows : List Row) (batch : Batch)
    → read_dir f ≡ ok (name ∷ names)
    → f.content (path directory (last_name name names)) ≡ ok (whole ++ torn)
    → All IsEncodable old
    → Protocol.flatten old ≡ ok whole
    → create_batch rows ≡ ok batch
    → batch_size batch + length (whole ++ torn) ≤ max_size
    → unmarshal (torn ++ flatten batch) ≡ err eof
    → (segment : FileSegment) × (new_file_segment f directory fresh max_size ≡ ok segment)
      × ((write rows (new_segment_manager clock [] [] segment)).1 ≡ ok tt)
      × (read (
            bytes_reader
              (write rows (new_segment_manager clock [] [] segment)).0.cur_seg.file.content)
          ≡ ok old)
lost_behind_torn f directory fresh name names whole torn max_size clock old rows batch d c x w b h
      s =
    let end = last_name name names in
    let m = started clock end (whole ++ torn) max_size in
    let (o, content) =
      content-write rows batch m (started-IsReady clock end (whole ++ torn) max_size) b room in
    (
      record {
        file = record { name = end; content = whole ++ torn };
        size = length (whole ++ torn);
        max_size = max_size;
      },
      new_file_segment_lem f directory fresh name names (whole ++ torn) max_size d c,
      o,
      rw content (
          unfold new_segment_manager in
          read-flatten old whole (torn ++ flatten batch)
            (bytes_reader ((whole ++ torn) ++ flatten batch)) x w s
            (content-bytes_reader ((whole ++ torn) ++ flatten batch)
              ∙ append_assoc whole torn (flatten batch))
            (unfold bytes_reader in refl)),
    )
  where
    room :
        fits
          (started clock (last_name name names) (whole ++ torn) max_size).cur_seg
          (batch_size batch)
        ≡ true
    room = unfold fits new_segment_manager in ground (arith, h)
