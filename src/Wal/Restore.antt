-- ===== src/Wal/Restore.antt =====
-- internal/database/wal/wal.go: RestoreStream, which turns the rows of the log into queries and goes on
-- with the ids behind the last of them.
use laguna.Prelude.{
  ℕ, ◌-◌, ◌^◌, ◌≤◌, ◌<◌, ◌≡◌, refl, arith, List, [], ◌∷◌, ltb, if◌then◌else◌, All, All-append,
  All-split, concat, Result, ok, err, fault,
}
use laguna.Query.{Query, new_query}
use laguna.Utils.IdGenerator.{Generator, new_with_start, next_id}
use laguna.Wal.Row.{Row}
use mathlib.Core.List.{map}

-- The query of a row.
abbrev pub query_of : Row → Query
query_of r = new_query r.method_id r.args

-- The loop over the rows of one batch, for the last id.
unfoldable pub last_id : ℕ → List Row → ℕ
last_id last [] = last
last_id last (r ∷ rows) = last_id (if ltb last r.lsn_id then r.lsn_id else last) rows

abbrev ahead :
    List Query → List (Result (List Query)) × Generator → List (Result (List Query)) × Generator
ahead qs (items, g) = (ok qs ∷ items, g)

-- The goroutine: what it puts into its stream, and the generator that the log has behind it. An error
-- leaves the generator as it is.
unfoldable pub restore_loop :
    ℕ → Generator → List (Result (List Row)) → List (Result (List Query)) × Generator
restore_loop last g [] = ([], new_with_start last)
restore_loop last g (ok rows ∷ rest) =
    ahead (map query_of rows) (restore_loop (last_id last rows) g rest)
restore_loop last g (err e ∷ rest) = (err e ∷ [], g)
restore_loop last g (fault x ∷ rest) = (fault x ∷ [], g)

unfoldable pub restore_stream :
    Generator → List (Result (List Row)) → List (Result (List Query)) × Generator
restore_stream g items = restore_loop 0 g items

last_id_le : (last : ℕ) (rows : List Row) → last ≤ last_id last rows
unfolding last_id
last_id_le last [] = omega arith
last_id_le last (r ∷ rows) =
    ground (arith, last_id_le (if ltb last r.lsn_id then r.lsn_id else last) rows)

last_id_bound : (last : ℕ) (rows : List Row) → All (λ (r : Row). r.lsn_id ≤ last_id last rows) rows
unfolding last_id
last_id_bound last [] = tt
last_id_bound last (r ∷ rows) =
    let next = if ltb last r.lsn_id then r.lsn_id else last in
    let least : r.lsn_id ≤ next = ground arith in
    (omega (arith, least, last_id_le next rows), last_id_bound next rows)

-- The id of the last row, over all batches.
pub last_of : ℕ → List (List Row) → ℕ
last_of last [] = last
last_of last (rows ∷ more) = last_of (last_id last rows) more

last_of_le : (last : ℕ) (batches : List (List Row)) → last ≤ last_of last batches
unfolding last_of
last_of_le last [] = omega arith
last_of_le last (rows ∷ more) =
    omega (arith, last_id_le last rows, last_of_le (last_id last rows) more)

All-le :
    (rows : List Row) (m n : ℕ)
    → m ≤ n
    → All (λ (r : Row). r.lsn_id ≤ m) rows
    → All (λ (r : Row). r.lsn_id ≤ n) rows
All-le [] m n h k = tt
All-le (r ∷ rows) m n h k = (omega (arith, h, k.0), All-le rows m n h k.1)

All-lt :
    (rows : List Row) (m n : ℕ)
    → m < n
    → All (λ (r : Row). r.lsn_id ≤ m) rows
    → All (λ (r : Row). r.lsn_id < n) rows
All-lt [] m n h k = tt
All-lt (r ∷ rows) m n h k = (omega (arith, h, k.0), All-lt rows m n h k.1)

last_id_lt :
    (n last : ℕ) (rows : List Row)
    → last < n
    → All (λ (r : Row). r.lsn_id < n) rows
    → last_id last rows < n
unfolding last_id
last_id_lt n last [] h k = h
last_id_lt n last (r ∷ rows) h k =
    last_id_lt n (if ltb last r.lsn_id then r.lsn_id else last) rows (ground (arith, k.0)) k.1

last_of_lt :
    (n last : ℕ) (batches : List (List Row))
    → last < n
    → All (λ (r : Row). r.lsn_id < n) (concat batches)
    → last_of last batches < n
unfolding last_of
last_of_lt n last [] h k = h
last_of_lt n last (rows ∷ more) h k =
    let (a, b) = All-split (λ (r : Row). r.lsn_id < n) rows (concat more) k in
    last_of_lt n (last_id last rows) more (last_id_lt n last rows h a) b

last_of_bound :
    (last : ℕ) (batches : List (List Row))
    → All (λ (r : Row). r.lsn_id ≤ last_of last batches) (concat batches)
unfolding last_of
last_of_bound last [] = tt
last_of_bound last (rows ∷ more) =
    All-append _ rows (concat more)
      (All-le rows (last_id last rows) (last_of (last_id last rows) more)
        (last_of_le (last_id last rows) more) (last_id_bound last rows))
      (last_of_bound (last_id last rows) more)

pub restore_loop_lem :
    (last : ℕ) (g : Generator) (batches : List (List Row))
    → restore_loop last g (map ok batches) ≡ (
      map (λ (rows : List Row). ok (map query_of rows)) batches,
      new_with_start (last_of last batches),
    )
unfolding restore_loop last_of
restore_loop_lem last g [] = refl
restore_loop_lem last g (rows ∷ more) = rw (restore_loop_lem (last_id last rows) g more)

-- From a log that is read without an error, RestoreStream puts the queries of each batch of rows into
-- its stream, in order, and no error; and the next id that the log gives is above the id of
-- every row that was read, as long as those stay below 2 ^ 64 - 1.
pub restore_stream_lem :
    (g : Generator) (batches : List (List Row))
    → All (λ (r : Row). r.lsn_id < 2 ^ 64 - 1) (concat batches)
    → ((restore_stream g (map ok batches)).0
        ≡ map (λ (rows : List Row). ok (map query_of rows)) batches)
      × All
          (λ (r : Row). r.lsn_id < (next_id (restore_stream g (map ok batches)).1).1)
          (concat batches)
unfolding restore_stream
restore_stream_lem g batches h =
    let low = last_of_lt (2 ^ 64 - 1) 0 batches (omega arith) h in
    rw (restore_loop_lem 0 g batches) (
      refl,
      All-lt (concat batches) (last_of 0 batches) _ (next_above (last_of 0 batches) low)
          (last_of_bound 0 batches),
    )
  where
    next_above : (last : ℕ) → last < 2 ^ 64 - 1 → last < (next_id (new_with_start last)).1
    next_above last k = unfold next_id new_with_start in omega (arith, k)
