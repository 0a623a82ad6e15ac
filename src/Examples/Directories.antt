-- ===== src/Examples/Directories.antt =====
-- A directory of two segments, and the restart from it.
use laguna.Prelude.{
  ℕ, zero, suc, ◌-◌, ◌<◌, ◌^◌, List, [], ◌∷◌, ◌++◌, Bytes, codes, some, get_elem?, drop, ◌≡◌, ◌≢◌,
  refl, ok, err, eof, All, ◌⊎◌, true, str_lt, str_eq, arith, concat, Result, length, if◌then◌else◌,
}
use laguna.Utils.Dir.{Files, find_from, read_dir}
use laguna.Utils.Dir.Search.{IsSorted, find_from_cases}
use laguna.Wal.Row.{Row, unmarshal}
use laguna.Prelude.{◌+◌, ◌≤◌}
use laguna.Segment.Manager.{Batch, create_batch}
use laguna.Replication.Protocol
use laguna.Logs.Segments.{read_from}
use laguna.Logs.Segments.Laws.{Holds, Segments, read_from_lem}
use laguna.Examples.Parts.{
  set_row, del_row, two_rows, set_row_bytes, del_row_bytes, set_row-IsEncodable,
  del_row-IsEncodable,
}

abbrev two_names : List Bytes
two_names = codes "a" ∷ (codes "b" ∷ [])

-- The second file ends in a torn row.
abbrev content_of : Bytes → Result Bytes
content_of name =
    if str_eq name (codes "wal/a") then ok set_row_bytes else ok (del_row_bytes ++ (0 ∷ 0 ∷ []))

abbrev two_files : Files
two_files = record { names = ok two_names; make = ok tt; content = content_of }

two_names-IsSorted : IsSorted two_names
unfolding str_lt
two_names-IsSorted zero zero d e l g h = absurd (omega arith)
two_names-IsSorted zero (suc zero) d e l g h =
    let a : codes "a" ≡ d = cc g in let b : codes "b" ≡ e = cc h in rw (← a, ← b) refl
two_names-IsSorted zero (suc (suc j)) d e l g h = absurd (cc h)
two_names-IsSorted (suc i) zero d e l g h = absurd (omega arith)
two_names-IsSorted (suc i) (suc zero) d e l g h = absurd (omega arith)
two_names-IsSorted (suc i) (suc (suc j)) d e l g h = absurd (cc h)

find_from_cases_example :
    ((j : ℕ) × (get_elem? two_names j ≡ some (codes "b"))
      × (find_from two_names (codes "b") ≡ ok (drop j two_names)))
    ⊎ (((j : ℕ) → get_elem? two_names j ≢ some (codes "b"))
        × (find_from two_names (codes "b") ≡ ok []))
find_from_cases_example = find_from_cases two_names 98 [] two_names-IsSorted

pub flatten_set : Protocol.flatten (set_row ∷ []) ≡ ok set_row_bytes
unfolding Protocol.flatten laguna.Wal.Row.marshal laguna.Wal.Row.marshal_args
    laguna.Prelude.Binary.put_be
flatten_set = refl

flatten_del : Protocol.flatten (del_row ∷ []) ≡ ok del_row_bytes
unfolding Protocol.flatten laguna.Wal.Row.marshal laguna.Wal.Row.marshal_args
    laguna.Prelude.Binary.put_be
flatten_del = refl

torn_eof : unmarshal (0 ∷ 0 ∷ []) ≡ err eof
unfolding unmarshal laguna.Wal.Row.read_row laguna.Prelude.Binary.read_be
torn_eof = refl

empty_eof : unmarshal [] ≡ err eof
unfolding unmarshal laguna.Wal.Row.read_row laguna.Prelude.Binary.read_be
empty_eof = refl

first-Holds : Holds set_row_bytes (set_row ∷ [])
first-Holds = record {
  whole = set_row_bytes;
  torn = [];
  split = refl;
  encodable = (set_row-IsEncodable, tt);
  form = flatten_set;
  stops = empty_eof;
}

second-Holds : Holds (del_row_bytes ++ (0 ∷ 0 ∷ [])) (del_row ∷ [])
second-Holds = record {
  whole = del_row_bytes;
  torn = 0 ∷ 0 ∷ [];
  split = refl;
  encodable = (del_row-IsEncodable, tt);
  form = flatten_del;
  stops = torn_eof;
}

second-Segments : Segments content_of (codes "wal") (codes "b" ∷ []) ((del_row ∷ []) ∷ [])
unfolding str_eq
second-Segments =
    Segments.next (codes "b") [] (del_row_bytes ++ (0 ∷ 0 ∷ [])) (del_row ∷ []) [] refl second-Holds
      Segments.none_left

two_names_read : read_dir two_files ≡ ok two_names
unfolding read_dir
two_names_read = refl

read_from_lem_example :
    read_from content_of (codes "wal") two_files (codes "a") 0 ≡ ok (set_row ∷ (del_row ∷ []))
unfolding str_eq
read_from_lem_example =
    read_from_lem content_of (codes "wal") two_files two_names (codes "b" ∷ []) 97 [] []
      set_row_bytes 0 (set_row ∷ []) ((del_row ∷ []) ∷ []) two_names_read two_names-IsSorted refl
      refl refl first-Holds second-Segments

abbrev pub two_rows_batch : Batch
two_rows_batch = (set_row, set_row_bytes) ∷ ((del_row, del_row_bytes) ∷ [])

pub two_rows_created : create_batch two_rows ≡ ok two_rows_batch
unfolding create_batch laguna.Wal.Row.marshal laguna.Wal.Row.marshal_args
    laguna.Prelude.Binary.put_be
two_rows_created = refl
