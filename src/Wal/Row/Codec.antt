-- ===== src/Wal/Row/Codec.antt =====
-- A row that is written is read back.
use laguna.Prelude.{
  ℕ, ◌%◌, ◌^◌, ◌<◌, ◌≤◌, ◌≡◌, refl, ap, arith, List, [], ◌∷◌, ◌++◌, length, All, append_assoc,
}
use laguna.Prelude.{Bytes, ok, length-append, ltb, le→ltb, >>=-eq-ok, Bool-cases, ltb→le, inl, inr}
use laguna.Prelude.Binary.{put_be, read_be-put_be, read_full-append}
use laguna.Wal.Row.{Row, marshal_args, marshal, read_args, read_row, unmarshal}
use native.Mathlib.Nat.{mod-eq_of_lt}
use laguna.Prelude.{Result, zero, suc, ◌>>=◌}
use laguna.Wal.Row.{new_row}
use laguna.Prelude.Reader.{or_eof}
use laguna.Prelude.Binary.{read_full, read_be, read_byte}

-- The rows that the format can hold: a uint64, a uint8 and a uint16 of arguments.
pub record IsEncodable (r : Row) : Type 0 where
  pub lsn_fits : r.lsn_id < 2 ^ 64
  pub method_fits : r.method_id < 256
  pub count_fits : length r.args < 2 ^ 16

-- An argument is too large from 65536 bytes on.
abbrev pub IsShort : Bytes → Type 0
IsShort a = length a ≤ 65535

marshal_args_total :
    (args : List Bytes) → All IsShort args → (bs : Bytes) × (marshal_args args ≡ ok bs)
unfolding marshal_args
marshal_args_total [] h = ([], refl)
marshal_args_total (a ∷ rest) h =
    let (bs, e) = marshal_args_total rest h.1 in
    (put_be 2 (length a) ++ (a ++ bs), rw (le→ltb _ _ h.0, e))

-- What a successful `marshal_args` of one more argument consists of.
marshal_args-cons :
    (a : Bytes) (args : List Bytes) (bs : Bytes)
    → marshal_args (a ∷ args) ≡ ok bs
    → (tail : Bytes) × (marshal_args args ≡ ok tail)
      × (bs ≡ put_be 2 (length a) ++ (a ++ tail))
      × (length a ≤ 65535)
unfolding marshal_args
marshal_args-cons a args bs h = elim (Bool-cases (ltb 65535 (length a))) [
  | inl big ↦ absurd (cc (rw big at h))
  | inr small ↦
      let (tail, m, e) = >>=-eq-ok (marshal_args args) _ (rw small at h) in
      (tail, m, ground (arith, e), ltb→le _ _ small)
]

read_args-marshal_args :
    (args : List Bytes) (bs rest : Bytes)
    → marshal_args args ≡ ok bs
    → read_args (length args) (bs ++ rest) ≡ ok (args, rest)
unfolding marshal_args read_args
read_args-marshal_args [] bs rest h = ground arith
read_args-marshal_args (a ∷ args) bs rest h =
    let (tail, m, e, small) = marshal_args-cons a args bs h in
    rw (
      e,
      append_assoc (put_be 2 (length a)) (a ++ tail) rest,
      append_assoc a tail rest,
      read_be-put_be 2 (length a) (a ++ (tail ++ rest)) (omega (arith, small)),
      read_full-append (length a) a (tail ++ rest) refl,
      read_args-marshal_args args tail rest m,
    )

-- A row with short arguments has a binary form.
pub marshal_total : (r : Row) → All IsShort r.args → (bs : Bytes) × (marshal r ≡ ok bs)
unfolding marshal
marshal_total r h =
    let (bs, e) = marshal_args_total r.args h in
    (put_be 8 r.lsn_id ++ (r.method_id ∷ (put_be 2 (length r.args % 2 ^ 16) ++ bs)), rw e)

read_row-marshal :
    (r : Row) (bs rest : Bytes)
    → IsEncodable r
    → marshal r ≡ ok bs
    → read_row (bs ++ rest) ≡ ok (r, rest)
unfolding marshal read_row read_byte
read_row-marshal r bs rest v h =
    let (tail, m, e) = >>=-eq-ok (marshal_args r.args) _ h in
    let count = put_be 2 (length r.args) in
    let e' : bs ≡ put_be 8 r.lsn_id ++ (r.method_id ∷ (count ++ tail)) =
      ground (arith, e, mod-eq_of_lt v.count_fits) in
    rw (
      e',
      append_assoc (put_be 8 r.lsn_id) (r.method_id ∷ (count ++ tail)) rest,
      read_be-put_be 8 r.lsn_id (r.method_id ∷ ((count ++ tail) ++ rest)) v.lsn_fits,
      append_assoc count tail rest,
      read_be-put_be 2 (length r.args) (tail ++ rest) v.count_fits,
      read_args-marshal_args r.args tail rest m,
    )

length-read_args :
    (n : ℕ) (bs : Bytes) (args : List Bytes) (rest : Bytes)
    → read_args n bs ≡ ok (args, rest)
    → length args ≡ n
unfolding read_args
length-read_args zero bs args rest h = cc (ap (λ (r : Result (List Bytes × Bytes)). count r) h)
  where
    count : Result (List Bytes × Bytes) → ℕ
    count (ok p) = length p.0
    count _ = 0
length-read_args (suc n) bs args rest h =
    let ((l, bs₁), e₁, h₁) = >>=-eq-ok (or_eof (read_be 2 bs)) _ h in
    let ((a, bs₂), e₂, h₂) = >>=-eq-ok (or_eof (read_full l bs₁)) _ h₁ in
    let ((as', bs₃), e₃, h₃) = >>=-eq-ok (read_args n bs₂) _ h₂ in
    ground (arith, length-read_args n bs₂ as' bs₃ e₃, h₃)

-- Of a row whose lsn is a uint64, `Unmarshal` reads back from what `Marshal` wrote a row with as many
-- arguments as the low 16 bits of their number: a row of 65536 arguments or more is accepted by
-- `Marshal` and is never read back whole.
unmarshal-marshal_count :
    (r r' : Row) (bs : Bytes) (n : ℕ)
    → r.lsn_id < 2 ^ 64
    → marshal r ≡ ok bs
    → unmarshal bs ≡ ok (r', n)
    → length r'.args ≡ length r.args % 2 ^ 16
unfolding marshal unmarshal read_row read_byte
unmarshal-marshal_count r r' bs n fits h k =
    let (tail, m, e) = >>=-eq-ok (marshal_args r.args) _ h in
    let count = put_be 2 (length r.args % 2 ^ 16) in
    let e' : bs ≡ put_be 8 r.lsn_id ++ (r.method_id ∷ (count ++ tail)) = ground (arith, e) in
    let k' =
      rw
        (
          e',
          read_be-put_be 8 r.lsn_id (r.method_id ∷ (count ++ tail)) fits,
          read_be-put_be 2 (length r.args % 2 ^ 16) tail (omega arith),
        )
        at k in
    let (p, a, b) =
      >>=-eq-ok
        (read_args (length r.args % 2 ^ 16) tail >>= λ x.
          ok (new_row r.lsn_id r.method_id x.0, x.1))
        _ k' in
    let ((args, rest), c, d) = >>=-eq-ok (read_args (length r.args % 2 ^ 16) tail) _ a in
    ground (arith, length-read_args _ tail args rest c, d, b)

-- What `Marshal` writes of an encodable row, `Unmarshal` reads back from the front of any data that
-- begins with it, and it reports the length of exactly that prefix.
pub unmarshal-marshal :
    (r : Row) (bs rest : Bytes)
    → IsEncodable r
    → marshal r ≡ ok bs
    → unmarshal (bs ++ rest) ≡ ok (r, length bs)
unfolding unmarshal
unmarshal-marshal r bs rest v h =
    rw (read_row-marshal r bs rest v h)
      (ap (λ (n : ℕ). ok (r, n)) (omega (arith, length-append bs rest)))

-- A row that the format can hold, with arguments shorter than 65536 bytes, has a binary form: `Marshal`
-- succeeds, and `Unmarshal` reads the row back from the front of any data that begins with that form,
-- and reports the length of exactly that prefix.
pub marshal_round_trip :
    (r : Row) (rest : Bytes)
    → IsEncodable r
    → All IsShort r.args
    → (bs : Bytes) × (marshal r ≡ ok bs) × (unmarshal (bs ++ rest) ≡ ok (r, length bs))
marshal_round_trip r rest v h =
    let (bs, m) = marshal_total r h in (bs, m, unmarshal-marshal r bs rest v m)
