-- ===== src/Replication/Protocol.antt =====
-- internal/database/replication/protocol.go: what master and slave send one another.
pub mod Messages
pub mod Rows
use laguna.Prelude.{
  ℕ, ◌%◌, ◌^◌, List, [], ◌∷◌, ◌++◌, length, take, ltb, leb, ◌==◌, if◌then◌else◌, Option, none, some,
}
use laguna.Prelude.{Bytes, codes, Error, errors_new, error_text, Result, ok, err, fault, ◌>>=◌}
use laguna.Prelude.Binary.{put_be, put_le, le_value, read_be, read_full, read_byte}
use laguna.Wal.Row.{Row, marshal}

-- The binary forms of the rows, one after the other; the first error ends it.
unfoldable pub flatten : List Row → Result Bytes
flatten [] = ok []
flatten (r ∷ rows) = do b ← marshal r; rest ← flatten rows; ok (b ++ rest)

pub record Request : Type 0 where
  pub lsn_id : ℕ

abbrev pub req_size : ℕ
req_size = 8

-- Request.Marshal and Request.Unmarshal
unfoldable pub put_request : Request → Bytes
put_request r = put_le req_size r.lsn_id

unfoldable pub get_request : Bytes → Result Request
get_request bytes =
    if ltb (length bytes) req_size
    then err (errors_new (codes "not enough bytes to unmarshal Request"))
    else ok (record { lsn_id = le_value (take 8 bytes) })

abbrev pub err_flag : ℕ
err_flag = 1

abbrev pub ok_flag : ℕ
ok_flag = 0

pub record Response : Type 0 where
  pub bytes : Bytes
  pub failure : Option Error

-- writerData and writerError: `int32(len(...))`, and the bytes. A write to a bytes.Buffer does not fail.
unfoldable pub write_block : Bytes → Bytes
write_block bytes = put_be 4 (length bytes % 2 ^ 32) ++ bytes

abbrev message : Bytes → Option Error → Bytes
message bytes none = ok_flag ∷ write_block bytes
message bytes (some e) = err_flag ∷ write_block (error_text e)

unfoldable pub write_message : Response → Bytes
unfolding write_block
write_message r = message r.bytes r.failure

-- What a message with this flag holds.
abbrev pub received : ℕ → Bytes → Response
received flag bytes =
    if flag == 1
    then record { bytes = []; failure = some (errors_new bytes) }
    else record { bytes = bytes; failure = none }

-- What `ReadMessage` does behind the length. An int32 from 2 ^ 31 on is negative.
unfoldable pub read_body : ℕ → ℕ → Bytes → Result Response
read_body flag data_len bs =
    if leb (2 ^ 31) data_len
    then err (errors_new (codes "invalid data length"))
    else (read_full data_len bs >>= λ p. ok (received flag p.0))

-- `ReadMessage` of all that the connection delivers.
unfoldable pub read_message : Bytes → Result Response
unfolding read_body
read_message bs = do
  (flag, bs₁) ← read_byte bs
  (data_len, bs₂) ← read_be 4 bs₁
  read_body flag data_len bs₂

-- `Write` of a ConnTarget: the bytes that go to the connection.
unfoldable pub conn_target_write : List Row → Result Bytes
unfolding flatten write_message
conn_target_write rows = do
  bytes ← flatten rows
  ok (write_message (record { bytes = bytes; failure = none }))
