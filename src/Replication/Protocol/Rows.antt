-- ===== src/Replication/Protocol/Rows.antt =====
-- From the rows of a master to the rows of a slave.
use laguna.Prelude.{
  ◌≡◌, refl, ◌^◌, ◌<◌, List, ◌++◌, length, Bytes, none, All, ok, codes, errors_new, error_text,
  arith,
}
use laguna.Wal.Row.{Row}
use laguna.Wal.Row.Codec.{IsEncodable}
use laguna.Logs.Reader.{read, bytes_reader}
use laguna.Logs.Reader.Chunks.{read-bytes_reader}
use laguna.Replication.Protocol.{flatten, conn_target_write, write_message, read_message}
use laguna.Replication.Protocol.Messages.{read_message-write_message}

-- Encodable rows whose binary forms, `bytes` in all, are shorter than 2 ^ 31 are written to a connection
-- as one message: whatever follows it there, the other side reads a response with `bytes` and no error,
-- and reads the same rows from its data.
read_message-conn_target_write :
    (rows : List Row) (bytes rest : Bytes)
    → All IsEncodable rows
    → flatten rows ≡ ok bytes
    → length bytes < 2 ^ 31
    → (sent : Bytes) × (conn_target_write rows ≡ ok sent)
      × (read_message (sent ++ rest) ≡ ok (record { bytes = bytes; failure = none }))
      × (read (bytes_reader bytes) ≡ ok rows)
unfolding conn_target_write
read_message-conn_target_write rows bytes rest v f n =
    let (got, _) =
      read_message-write_message bytes rest (errors_new (codes "")) n
        (unfold error_text in omega arith) in
    (
      write_message (record { bytes = bytes; failure = none }),
      rw f refl,
      got,
      read-bytes_reader rows bytes v f,
    )
