-- ===== src/Wal/Row.antt =====
-- internal/database/wal/wal_record.go: a row of the log and its binary form.
pub mod Codec
pub mod Prefix
use laguna.Prelude.{
  ℕ, zero, suc, ◌+◌, ◌-◌, ◌%◌, ◌^◌, ◌<◌, ◌≤◌, List, [], ◌∷◌, ◌++◌, length, ltb, if◌then◌else◌, All,
}
use laguna.Prelude.{Bytes, codes, Result, ok, err, fault, errors_new, ◌>>=◌}
use laguna.Prelude.Binary.{put_be, read_full, read_be, read_byte}
use laguna.Prelude.Reader.{Reader, or_eof}
use laguna.Query.{MethodId}

pub record Row : Type 0 where
  pub lsn_id : ℕ
  pub method_id : MethodId
  pub args : List Bytes

abbrev pub new_row : ℕ → MethodId → List Bytes → Row
new_row lsn m args = record { lsn_id = lsn; method_id = m; args = args }

-- The loop over the arguments: a length in two bytes, then the content.
unfoldable pub marshal_args : List Bytes → Result Bytes
marshal_args [] = ok []
marshal_args (a ∷ rest) =
    if ltb 65535 (length a)
    then err (errors_new (codes "argument too large"))
    else do tail ← marshal_args rest; ok (put_be 2 (length a) ++ (a ++ tail))

-- `uint16(len(r.args))` keeps the low 16 bits of the number of arguments.
unfoldable pub marshal : Row → Result Bytes
marshal r = do
  tail ← marshal_args r.args
  ok (put_be 8 r.lsn_id ++ (r.method_id ∷ (put_be 2 (length r.args % 2 ^ 16) ++ tail)))

unfoldable pub read_args : ℕ → Reader (List Bytes)
read_args zero bs = ok ([], bs)
read_args (suc n) bs = do
  (arg_len, bs₁) ← or_eof (read_be 2 bs)
  (arg, bs₂) ← or_eof (read_full arg_len bs₁)
  (args, bs₃) ← read_args n bs₂
  ok (arg ∷ args, bs₃)

-- What `Unmarshal` reads, and what the reader has left.
unfoldable pub read_row : Reader Row
read_row bs = do
  (lsn, bs₁) ← or_eof (read_be 8 bs)
  (m, bs₂) ← or_eof (read_byte bs₁)
  (count, bs₃) ← or_eof (read_be 2 bs₂)
  (args, bs₄) ← read_args count bs₃
  ok (new_row lsn m args, bs₄)

-- The row and `startLen - buf.Len()`.
unfoldable pub unmarshal : Bytes → Result (Row × ℕ)
unmarshal bs = do (r, rest) ← read_row bs; ok (r, length bs - length rest)
