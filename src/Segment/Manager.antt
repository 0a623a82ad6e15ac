-- ===== src/Segment/Manager.antt =====
-- internal/segment/segment.go and segment_manager.go: appending rows to the current segment file, and
-- rotating it when it is full.
pub mod Log
pub mod Bounds
pub mod Locking
pub mod Positions
pub mod Files
use laguna.Prelude.{
  ℕ, zero, suc, ◌+◌, List, [], ◌∷◌, ◌++◌, length, take, leb, if◌then◌else◌, Option, none, some,
  Bool, true, false, concat,
}
use laguna.Prelude.{Bytes, Error, Result, ok, err, fault, blocked_forever, ◌>>=◌, ◌>>>◌}
use laguna.Prelude.Map.{nat_key, insert}
use laguna.Segment.Index.{IndexMap, IndexEntry, entry_at, add_batch}
use laguna.Wal.Row.{Row, marshal}

-- A file of the log's directory.
pub record File : Type 0 where
  pub name : Bytes
  pub content : Bytes

-- The segment that is written to. Sizes are not negative and stay far below 2 ^ 63.
pub record FileSegment : Type 0 where
  pub file : File
  pub size : ℕ
  pub max_size : ℕ

-- How a call of the operating system fails: some bytes may have been written.
pub record Failure : Type 0 where
  pub written : ℕ
  pub error : Error

-- The manager: its lock, the current segment, the segments behind it, the index, and the batches of
-- entries that the goroutines of `writeBatch` have still to add. The operating system's part is the
-- outcome of the next calls (none left: they succeed) and the names that the clock gives to new files.
pub record Manager : Type 0 where
  pub locked : Bool
  pub cur_seg : FileSegment
  pub closed : List File
  pub im : IndexMap
  pub pending : List IndexMap
  pub outcomes : List (Option Failure)
  pub clock : ℕ → Bytes
  pub created : ℕ

unfoldable pub fits : FileSegment → ℕ → Bool
fits f n = leb (n + f.size) f.max_size

abbrev pub append_bytes : Bytes → FileSegment → FileSegment
append_bytes bytes f = record f { file = record f.file { content = f.file.content ++ bytes } }

-- FileSegment.Write: an error, of the write or of Sync, leaves `size` as it was.
abbrev file_written : Bytes → Manager → List (Option Failure) → Manager × Result (Unit {0})
file_written bytes m [] = (
  record m {
    cur_seg = record (append_bytes bytes m.cur_seg) { size = m.cur_seg.size + length bytes };
  },
  ok tt,
)
file_written bytes m (none ∷ rest) = (
  record m {
    cur_seg = record (append_bytes bytes m.cur_seg) { size = m.cur_seg.size + length bytes };
    outcomes = rest;
  },
  ok tt,
)
file_written bytes m (some f ∷ rest) = (
  record m { cur_seg = append_bytes (take f.written bytes) m.cur_seg; outcomes = rest },
  err f.error,
)

unfoldable pub file_write : Bytes → Manager → Manager × Result (Unit {0})
file_write bytes m = file_written bytes m m.outcomes

-- FileSegment.Rotate: the file is closed, and a new one is opened under a name of the clock.
abbrev pub new_segment : Manager → Manager
new_segment m = record m {
  cur_seg = record m.cur_seg { file = record { name = m.clock m.created; content = [] }; size = 0 };
  closed = m.closed ++ (m.cur_seg.file ∷ []);
  created = suc m.created;
}

abbrev file_opened : Manager → List (Option Failure) → Manager × Result (Unit {0})
file_opened m [] = (new_segment m, ok tt)
file_opened m (none ∷ rest) = (record (new_segment m) { outcomes = rest }, ok tt)
file_opened m (some f ∷ rest) = (record m { outcomes = rest }, err f.error)

unfoldable pub file_rotate : Manager → Manager × Result (Unit {0})
file_rotate m = file_opened m m.outcomes

-- s.m.Lock(): with the lock held by nobody who will release it, the call never returns.
unfoldable pub lock : Manager → Manager × Result (Unit {0})
lock m = if m.locked then (m, fault blocked_forever) else (record m { locked = true }, ok tt)

abbrev unlock : Manager → Manager × Result (Unit {0})
unlock m = (record m { locked = false }, ok tt)

-- The lock is released behind a call without an error only, as in the code.
unfoldable pub write_in_seg : Bytes → Manager → Manager × Result (Unit {0})
write_in_seg [] m = (m, ok tt)
write_in_seg (b ∷ bs) m = lock m >>> λ _ m₁. file_write (b ∷ bs) m₁ >>> λ _ m₂. unlock m₂

unfoldable pub rotate : Manager → Manager × Result (Unit {0})
rotate m = lock m >>> λ _ m₁. file_rotate m₁ >>> λ _ m₂. unlock m₂

-- The rows of a batch beside their binary forms.
abbrev pub Batch : Type 0
Batch = List (Row × Bytes)

-- The loop over the rows of `writeBatch`: the entries so far, and the offset of the next row.
unfoldable pub entries_loop : IndexMap → Bytes → ℕ → Batch → IndexMap
entries_loop entries name offset [] = entries
entries_loop entries name offset ((r, b) ∷ rest) =
    entries_loop (insert r.lsn_id (entry_at name offset) entries) name (offset + length b) rest

-- The entries of a batch that begins at `offset` of the file `name`.
abbrev pub entries_of : Bytes → ℕ → Batch → IndexMap
entries_of name offset batch = entries_loop [] name offset batch

unfoldable pub flatten : Batch → Bytes
flatten [] = []
flatten ((r, b) ∷ rest) = b ++ flatten rest

unfoldable pub write_batch : Batch → Manager → Manager × Result (Unit {0})
write_batch batch m =
    let entries = entries_of m.cur_seg.file.name m.cur_seg.size batch in
    write_in_seg (flatten batch) m >>> λ _ m'.
    (record m' { pending = m'.pending ++ (entries ∷ []) }, ok tt)

-- The loop of `processBatches`: `group` is `batch[start:i]`, of `current_size` bytes.
unfoldable pub process_loop : Batch → ℕ → Batch → Manager → Manager × Result (Unit {0})
process_loop group current_size [] m = write_batch group m
process_loop group current_size ((r, b) ∷ rest) m =
    elim (fits m.cur_seg (current_size + length b)) [
      | true ↦ process_loop (group ++ ((r, b) ∷ [])) (current_size + length b) rest m
      | false ↦ write_batch group m >>> λ _ m₁.
          rotate m₁ >>> λ _ m₂. process_loop ((r, b) ∷ []) (length b) rest m₂
    ]

-- `batchSize` counts one byte more for each row.
unfoldable pub batch_size : Batch → ℕ
batch_size [] = 0
batch_size ((r, b) ∷ rest) = length b + 1 + batch_size rest

unfoldable pub process_batches : Batch → Manager → Manager × Result (Unit {0})
process_batches batch m =
    if fits m.cur_seg (batch_size batch) then write_batch batch m else process_loop [] 0 batch m

unfoldable pub create_batch : List Row → Result Batch
create_batch [] = ok []
create_batch (r ∷ rows) = do b ← marshal r; rest ← create_batch rows; ok ((r, b) ∷ rest)

unfoldable pub write : List Row → Manager → Manager × Result (Unit {0})
write rows m = (m, create_batch rows) >>> λ batch m'. process_batches batch m'

-- A goroutine of `writeBatch` adds its entries.
unfoldable pub add_pending : Manager → Manager
add_pending m = elim m.pending [
  | [] ↦ m
  | entries ∷ rest ↦ record m { im = add_batch entries m.im; pending = rest }
]
