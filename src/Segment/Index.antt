-- ===== src/Segment/Index.antt =====
-- internal/segment/index.go: where the row of an lsn stands.
pub mod Cow
pub mod Sorted
pub mod Array
use laguna.Prelude.{ℕ, Bytes, Option, none, some, Result, ok, err, index_not_found}
use laguna.Prelude.Map.{nat_key, Map, lookup, insert, insert_all}

pub record IndexEntry : Type 0 where
  pub lsn : ℕ
  pub file_name : Bytes
  pub offset : ℕ

-- `IndexEntry{FileName: fileName, Offset: offset}`, which leaves LSN 0.
abbrev pub entry_at : Bytes → ℕ → IndexEntry
entry_at name offset = record { lsn = 0; file_name = name; offset = offset }

-- IndexManagerMutex: its lock is held for each operation.
abbrev pub IndexMap : Type 0
IndexMap = Map ℕ IndexEntry

unfoldable pub add : ℕ → Bytes → ℕ → IndexMap → IndexMap
add lsn name offset im = insert lsn (entry_at name offset) im

abbrev pub or_not_found : Option IndexEntry → Result IndexEntry
or_not_found none = err index_not_found
or_not_found (some e) = ok e

unfoldable pub get_index : ℕ → IndexMap → Result IndexEntry
get_index lsn im = or_not_found (lookup lsn im)

unfoldable pub add_batch : IndexMap → IndexMap → IndexMap
add_batch entries im = insert_all entries im
