-- ===== src/Logs/Reader.antt =====
-- internal/database/logs/log_reader.go: the loop of `read` over what an io.Reader delivers.
pub mod Loop
pub mod Chunks
use laguna.Prelude.{
  ℕ, zero, suc, ◌+◌, ◌<◌, List, [], ◌∷◌, ◌++◌, length, drop, take, ltb, Bool, true, false,
  if◌then◌else◌,
}
use laguna.Prelude.{Bytes, codes, Error, eof, wrapped, Result, ok, err, fault}
use laguna.Wal.Row.{Row, unmarshal}

-- An io.Reader, as the calls of `Read` see it: some reads that return bytes and no error, then one
-- that returns the last bytes, perhaps none, with an error, which is io.EOF at the end.
pub record Source : Type 0 where
  pub chunks : List Bytes
  pub last : Bytes
  pub status : Error

abbrev pub is_eof : Error → Bool
is_eof eof = true
is_eof _ = false

-- The inner loop of `read`: rows are taken off `leftover` from `offset` on. The fuel bounds the rounds.
unfoldable pub parse_loop : ℕ → Bytes → ℕ → List Row → List Row × ℕ
parse_loop zero leftover offset rows = (rows, offset)
parse_loop (suc fuel) leftover offset rows = elim (ltb offset (length leftover)) [
  | false ↦ (rows, offset)
  | true ↦ elim (unmarshal (drop offset leftover)) [
    | ok (row, n) ↦ parse_loop fuel leftover (offset + n) (rows ++ (row ∷ []))
    | err e ↦ elim (is_eof e) [
      | true ↦ (rows, offset)
      | false ↦ parse_loop fuel leftover (offset + 1) rows
    ]
    | fault x ↦ (rows, offset)
  ]
]

-- Every round takes a byte at least, so one round more than there are bytes is enough.
abbrev parse_all : Bytes → List Row → List Row × ℕ
parse_all leftover rows = parse_loop (suc (length leftover)) leftover 0 rows

-- The body of `if n > 0`: the rows so far and what is left of the bytes.
unfoldable pub feed : List Row × Bytes → Bytes → List Row × Bytes
feed (rows, leftover) [] = (rows, leftover)
feed (rows, leftover) (b ∷ bs) =
    let all = leftover ++ (b ∷ bs) in
    let (rows', offset) = parse_all all rows in (rows', drop offset all)

unfoldable pub feed_all : List Row × Bytes → List Bytes → List Row × Bytes
feed_all s [] = s
feed_all s (c ∷ cs) = feed_all (feed s c) cs

-- The loop over the leftover behind the reads: it stops at the first error of any kind.
unfoldable pub tail_loop : ℕ → Bytes → ℕ → List Row → List Row
tail_loop zero leftover offset rows = rows
tail_loop (suc fuel) leftover offset rows = elim (ltb offset (length leftover)) [
  | false ↦ rows
  | true ↦ elim (unmarshal (drop offset leftover)) [
    | ok (row, n) ↦ tail_loop fuel leftover (offset + n) (rows ++ (row ∷ []))
    | err e ↦ rows
    | fault x ↦ rows
  ]
]

-- `read`. On an error of the reader that is not io.EOF the rows so far come back with the error,
-- which all callers drop.
unfoldable pub read : Source → Result (List Row)
read src =
    let (rows, leftover) = feed (feed_all ([], []) src.chunks) src.last in
    if is_eof src.status
    then ok (tail_loop (suc (length leftover)) leftover 0 rows)
    else err (wrapped (codes "parseRows read error: ") src.status)

-- What a bytes.Reader or a file delivers: up to `suc k` bytes at a time, then (0, io.EOF).
unfoldable pub split_chunks : ℕ → ℕ → Bytes → List Bytes
split_chunks zero k bs = []
split_chunks (suc fuel) k [] = []
split_chunks (suc fuel) k (b ∷ bs) = take (suc k) (b ∷ bs) ∷ split_chunks fuel k (drop k bs)

abbrev pub buf_size : ℕ
buf_size = 4096

unfoldable pub bytes_reader : Bytes → Source
unfolding split_chunks
bytes_reader bs = record { chunks = split_chunks (length bs) 4095 bs; last = []; status = eof }

-- `readFromOffset` of the bytes of a segment: Seek, then `read`. An offset is not negative; past the end
-- there is nothing to read.
unfoldable pub read_from_offset : Bytes → ℕ → Result (List Row)
read_from_offset bytes offset = read (bytes_reader (drop offset bytes))
