-- ===== src/Logs/Segments.antt =====
-- internal/database/logs/log_reader.go: the rows of the segments of a directory.
pub mod Laws
pub mod Index
pub mod Restart
use laguna.Prelude.{
  ℕ, ◌+◌, List, [], ◌∷◌, ◌++◌, length, Bytes, codes, Result, ok, err, fault, ◌>>=◌,
}
use laguna.Prelude.Map.{nat_key, insert}
use laguna.Utils.Dir.{Files, read_dir, read_dirs_from}
use laguna.Segment.Index.{IndexMap, entry_at}
use laguna.Wal.Row.{Row, marshal}
use laguna.Logs.Reader.{read, bytes_reader, read_from_offset}

-- directory + "/" + name
abbrev pub path : Bytes → Bytes → Bytes
path directory name = directory ++ (codes "/" ++ name)

module _ (segment : Bytes → Result Bytes) (directory : Bytes) where
  -- The loop of ReadFrom, over what `ReadSegment` returns: the first file is read from an offset on, and
  -- the others from their beginning. The first error ends it.
  unfoldable pub read_names : ℕ → List Bytes → Result (List Row)
  read_names offset [] = ok []
  read_names offset (name ∷ rest) = do
    bytes ← segment (path directory name)
    rows ← read_from_offset bytes offset
    more ← read_names 0 rest
    ok (rows ++ more)

  -- ReadFrom
  unfoldable pub read_from : Files → Bytes → ℕ → Result (List Row)
  read_from f target first_offset =
      read_dirs_from f target >>= λ names. read_names first_offset names

-- One round of `restoreIndex`: the entries, and the offset of the next row. A row that has no binary
-- form is skipped.
abbrev pub restored_entry : IndexMap → Bytes → ℕ → Row → Result Bytes → IndexMap × ℕ
restored_entry entries name offset r (ok b) =
    (insert r.lsn_id (entry_at name offset) entries, offset + length b)
restored_entry entries name offset r (err e) = (entries, offset)
restored_entry entries name offset r (fault x) = (entries, offset)

unfoldable pub restore_entries : IndexMap → Bytes → ℕ → List Row → IndexMap
restore_entries entries name offset [] = entries
restore_entries entries name offset (r ∷ rest) =
    let (entries', offset') = restored_entry entries name offset r (marshal r) in
    restore_entries entries' name offset' rest

unfoldable pub restore_index : Bytes → List Row → IndexMap
restore_index name rows = restore_entries [] name 0 rows

-- What RestoreSystemStream puts into its stream, and the entries that it adds to the index.
abbrev pub Restored : Type 0
Restored = List (Result (List Row)) × List IndexMap

abbrev and_then : Bytes → Result (List Row) → Restored → Restored
and_then name (ok rows) rest = (ok rows ∷ rest.0, restore_index name rows ∷ rest.1)
and_then name (err e) rest = (err e ∷ [], [])
and_then name (fault x) rest = (fault x ∷ [], [])

-- Its loop: a file that is not opened or not read ends it by an error.
unfoldable pub restore_names : Files → Bytes → List Bytes → Restored
restore_names f directory [] = ([], [])
restore_names f directory (name ∷ rest) =
    and_then name (f.content (path directory name) >>= λ bytes. read (bytes_reader bytes))
      (restore_names f directory rest)

abbrev or_error : Files → Bytes → Result (List Bytes) → Restored
or_error f directory (ok names) = restore_names f directory names
or_error f directory (err e) = (err e ∷ [], [])
or_error f directory (fault x) = (fault x ∷ [], [])

unfoldable pub restore_system : Files → Bytes → Restored
restore_system f directory = or_error f directory (read_dir f)
