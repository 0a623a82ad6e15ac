-- ===== src/Wal/Row/Prefix.antt =====
-- `Unmarshal` on any input: it ends by a row or by io.EOF, and looks no further than its row.
use laguna.Prelude.{ℕ, zero, suc, ◌-◌, ◌≤◌, ◌≡◌, ◌⊎◌, inl, inr, ap, arith, [], ◌∷◌, ◌++◌, length}
use laguna.Prelude.{Bytes, Result, ok, err, eof, >>=-eq-ok, length-append}
use laguna.Prelude.Reader.{
  IsReader, bind-IsReader, pure-IsReader, weaken, read_full-IsReader, read_be-IsReader,
  read_byte-IsReader,
}
use laguna.Prelude.{[]}
use laguna.Wal.Row.{Row, new_row, read_args, read_row, unmarshal}

read_args-IsReader : (n : ℕ) → IsReader 0 (read_args n)
unfolding read_args
read_args-IsReader zero = pure-IsReader []
read_args-IsReader (suc n) = weaken 0 _ (omega arith) (
    bind-IsReader _ _ (read_be-IsReader 2) (λ l. weaken 0 _ (omega arith) (
      bind-IsReader _ _ (read_full-IsReader l)
        (λ a. bind-IsReader _ _ (read_args-IsReader n) (λ as'. pure-IsReader (a ∷ as'))))))

-- A row takes 11 bytes at least.
read_row-IsReader : IsReader 11 read_row
unfolding read_row
read_row-IsReader = bind-IsReader _ _ (read_be-IsReader 8) (λ lsn.
    bind-IsReader _ _ read_byte-IsReader (λ m.
      bind-IsReader _ _ (read_be-IsReader 2)
        (λ n. bind-IsReader _ _ (read_args-IsReader n) (λ as'. pure-IsReader (new_row lsn m as')))))

-- What a successful `Unmarshal` says of the data: the bytes that it took, and the reader's rest.
pub unmarshal_inv :
    (bs : Bytes) (r : Row) (n : ℕ)
    → unmarshal bs ≡ ok (r, n)
    → (used rest : Bytes) × (bs ≡ used ++ rest)
      × (n ≡ length used)
      × (11 ≤ length used)
      × (read_row bs ≡ ok (r, rest))
unfolding unmarshal
unmarshal_inv bs r n h =
    let ((r', rest), e, k) = >>=-eq-ok (read_row bs) _ h in
    let (used, s, l) = read_row-IsReader.takes bs r' rest e in
    (used, rest, s, omega (arith, ap length s, length-append used rest, count k), l, cc (e, k))
  where
    count : {r' : Row} {m : ℕ} → ◌≡◌ {A = Result (Row × ℕ)} (ok (r', m)) (ok (r, n)) → m ≡ n
    count k = cc

-- `Unmarshal` either returns a row together with the number of bytes it took, at least 11 and at
-- most all of them, or it returns io.EOF; there is no third outcome.
pub unmarshal_cases :
    (bs : Bytes)
    → ((r : Row) × (n : ℕ) × (unmarshal bs ≡ ok (r, n)) × (11 ≤ n) × (n ≤ length bs))
      ⊎ (unmarshal bs ≡ err eof)
unmarshal_cases bs = elim (read_row-IsReader.ends bs) [
  | inl ((r, rest), e) ↦
      let h : unmarshal bs ≡ ok (r, length bs - length rest) = unfold unmarshal in rw e in
      let (used, rest', s, c, l, _) = unmarshal_inv bs r _ h in
      inl (
        r,
        length bs - length rest,
        h,
        omega (arith, c, l),
        omega (arith, c, ap length s, length-append used rest'),
      )
  | inr e ↦ inr (unfold unmarshal in rw e)
]

-- A row that `Unmarshal` finds at the front of some data, it finds there whatever bytes follow.
pub unmarshal-append :
    (bs more : Bytes) (r : Row) (n : ℕ)
    → unmarshal bs ≡ ok (r, n)
    → unmarshal (bs ++ more) ≡ ok (r, n)
unmarshal-append bs more r n h =
    let (used, rest, s, c, l, e) = unmarshal_inv bs r n h in
    unfold unmarshal in
    rw (read_row-IsReader.extends bs more r rest e) (
      ap (λ (k : ℕ). ok (r, k))
        (omega (
          arith,
          c,
          ap length s,
          length-append used rest,
          length-append bs more,
          length-append rest more,
        )))

pub unmarshal_nil : unmarshal [] ≡ err eof
unmarshal_nil = elim (unmarshal_cases []) [
  | inl (r, n, e, l, u) ↦ absurd (omega (arith, l, u))
  | inr e ↦ e
]
