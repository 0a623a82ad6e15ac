-- ===== src/Replication/Protocol/Messages.antt =====
-- What one side writes, the other side reads.
use laguna.Prelude.{
  ℕ, ◌^◌, ◌%◌, ◌<◌, ◌≡◌, refl, ap, arith, [], ◌∷◌, ◌++◌, append_assoc, length, take, take-append,
  length-append, none, some,
}
use laguna.Prelude.{codes, lt→ltb, le→ltb, ltb, false}
use laguna.Prelude.{Bytes, Error, errors_new, error_text, ok, err, leb}
use laguna.Prelude.Binary.{
  put_be, put_le, read_byte, read_be-put_be, read_full-append, le_value-put_le, length-put_le,
}
use laguna.Replication.Protocol.{
  Request, received, put_request, get_request, write_block, write_message, read_message,
}
use native.Mathlib.Nat.{mod-eq_of_lt}

-- A request is read back from what was written, whatever follows.
pub get_request-put_request :
    (r : Request) (rest : Bytes) → r.lsn_id < 2 ^ 64 → get_request (put_request r ++ rest) ≡ ok r
unfolding get_request put_request
get_request-put_request r rest h =
    let size = length-put_le 8 r.lsn_id in
    let long : ltb (length (put_le 8 r.lsn_id ++ rest)) 8 ≡ false =
      le→ltb _ _ (omega (arith, size, length-append (put_le 8 r.lsn_id) rest)) in
    let front : take 8 (put_le 8 r.lsn_id ++ rest) ≡ put_le 8 r.lsn_id =
      rw size at (take-append (put_le 8 r.lsn_id) rest) in
    rw (long, front) (ap (λ (n : ℕ). ok (record { lsn_id = n })) (le_value-put_le 8 r.lsn_id h))

-- Fewer than eight bytes are no request.
get_request_short : (bs : Bytes) → length bs < 8 → (e : Error) × (get_request bs ≡ err e)
unfolding get_request
get_request_short bs h =
    (errors_new (codes "not enough bytes to unmarshal Request"), rw (lt→ltb (length bs) 8 h))

read_block :
    (flag : ℕ) (bytes rest : Bytes)
    → length bytes < 2 ^ 31
    → read_message (flag ∷ (write_block bytes ++ rest)) ≡ ok (received flag bytes)
unfolding write_block read_message read_byte
read_block flag bytes rest h =
    let fits : length bytes % 2 ^ 32 ≡ length bytes = mod-eq_of_lt (omega arith) in
    let size : leb (2 ^ 31) (length bytes) ≡ false = ground arith in
    rw (
      fits,
      append_assoc (put_be 4 (length bytes)) bytes rest,
      read_be-put_be 4 (length bytes) (bytes ++ rest) (omega arith),
      size,
      read_full-append (length bytes) bytes rest refl,
    )

-- A response is read back from what was written, whatever follows on the connection, as long as its
-- data, or the text of its error, is shorter than 2 ^ 31: data comes back as it is, and an error as a
-- new error with the same text and no data.
pub read_message-write_message :
    (bytes rest : Bytes) (e : Error)
    → length bytes < 2 ^ 31
    → length (error_text e) < 2 ^ 31
    → (read_message (write_message (record { bytes = bytes; failure = none }) ++ rest)
        ≡ ok (record { bytes = bytes; failure = none }))
      × (read_message (write_message (record { bytes = bytes; failure = some e }) ++ rest)
          ≡ ok (record { bytes = []; failure = some (errors_new (error_text e)) }))
unfolding write_message
read_message-write_message bytes rest e h k =
    (read_block 0 bytes rest h, read_block 1 (error_text e) rest k)
