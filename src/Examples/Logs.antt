-- ===== src/Examples/Logs.antt =====
-- Rows that are written and read back.
use laguna.Prelude.{
  ℕ, List, [], ◌∷◌, ◌++◌, Bytes, codes, none, some, ◌≡◌, refl, ok, err, eof, All, arith, replicate,
  length, error_text, ◌^◌, ◌<◌, ◌≤◌, ◌⊎◌, ◌%◌, errors_new,
}
use laguna.Wal.Row.{Row, marshal, unmarshal}
use laguna.Wal.Row.Codec.{marshal_round_trip}
use laguna.Wal.Row.Prefix.{unmarshal_cases}
use laguna.Logs.Reader.{Source, read}
use laguna.Logs.Reader.Chunks.{read-flatten}
use laguna.Replication.Protocol
use laguna.Replication.Protocol.{put_request, get_request, write_message, read_message}
use laguna.Examples.Parts.{
  set_row, two_rows, set_row_bytes, del_row_bytes, set_row-IsEncodable, del_row-IsEncodable,
}

marshal_round_trip_example :
    (bs : Bytes) × (marshal set_row ≡ ok bs)
    × (unmarshal (bs ++ (7 ∷ [])) ≡ ok (set_row, length bs))
marshal_round_trip_example =
    marshal_round_trip set_row (7 ∷ []) set_row-IsEncodable (omega arith, (omega arith, tt))

unmarshal-set_row : unmarshal set_row_bytes ≡ ok (set_row, 17)
unfolding unmarshal laguna.Wal.Row.read_row laguna.Prelude.Binary.read_be
    laguna.Prelude.Binary.read_byte laguna.Wal.Row.read_args
unmarshal-set_row = refl

unmarshal_cases_example :
    ((r : Row) × (n : ℕ) × (unmarshal (0 ∷ 1 ∷ []) ≡ ok (r, n)) × (11 ≤ n) × (n ≤ 2))
    ⊎ (unmarshal (0 ∷ 1 ∷ []) ≡ err eof)
unmarshal_cases_example = unmarshal_cases (0 ∷ 1 ∷ [])

-- The first 10 bytes of a row.
abbrev torn_row : Bytes
torn_row = 0 ∷ 0 ∷ 0 ∷ 0 ∷ 0 ∷ 0 ∷ 0 ∷ 1 ∷ 0 ∷ 0 ∷ []

flatten-two_rows : Protocol.flatten two_rows ≡ ok (set_row_bytes ++ del_row_bytes)
unfolding Protocol.flatten marshal laguna.Wal.Row.marshal_args laguna.Prelude.Binary.put_be
flatten-two_rows = refl

torn_row_eof : unmarshal torn_row ≡ err eof
unfolding unmarshal laguna.Wal.Row.read_row laguna.Prelude.Binary.read_be
    laguna.Prelude.Binary.read_byte
torn_row_eof = refl

-- Two rows and a torn one, as one read gives them, and in two.
abbrev one_read : Source
one_read = record { chunks = []; last = set_row_bytes ++ (del_row_bytes ++ torn_row); status = eof }

abbrev two_reads : Source
two_reads = record {
  chunks = (set_row_bytes ++ (0 ∷ 0 ∷ 0 ∷ [])) ∷ [];
  last = 0 ∷ 0 ∷ 0 ∷ 0 ∷ 2 ∷ 2 ∷ 0 ∷ 1 ∷ 0 ∷ 1 ∷ 107 ∷ torn_row;
  status = eof;
}

read-flatten_example : read two_reads ≡ ok two_rows
read-flatten_example =
    read-flatten two_rows (set_row_bytes ++ del_row_bytes) torn_row two_reads
      (set_row-IsEncodable, (del_row-IsEncodable, tt)) flatten-two_rows torn_row_eof refl refl
