-- ===== src/Logs/Reader/Loop.antt =====
-- What the loops of `read` compute: the rows at the front of the bytes, one after the other.
use laguna.Prelude.{
  ℕ, zero, suc, ◌+◌, ◌<◌, ◌≤◌, ◌≡◌, inl, inr, ap, sym, ◌∙◌, arith, List, [], ◌∷◌, ◌++◌, length,
  drop,
}
use laguna.Prelude.{Bytes, ok, err, eof, length-drop, drop-append_le}
use laguna.Prelude.{append_assoc, append-nil}
use laguna.Prelude.{length-append, drop-drop}
use laguna.Wal.Row.{Row, unmarshal}
use laguna.Wal.Row.Prefix.{unmarshal_cases, unmarshal-append}
use laguna.Logs.Reader.{parse_loop}

-- `Parses bs rows rest`: row after row, `bs` holds `rows`, and then `rest`, at whose front there is none.
pub data Parses : Bytes → List Row → Bytes → Type 0 where
  done : {bs : Bytes} → unmarshal bs ≡ err eof → Parses bs [] bs
  row :
      {bs : Bytes} {r : Row} {n : ℕ} {rows : List Row} {rest : Bytes}
      → unmarshal bs ≡ ok (r, n)
      → 11 ≤ n
      → n ≤ length bs
      → Parses (drop n bs) rows rest
      → Parses bs (r ∷ rows) rest

-- More bytes behind are parsed from where the first bytes left off.
pub Parses-append :
    {bs : Bytes} {rows : List Row} {rest : Bytes} (more : Bytes) {rows' : List Row} {rest' : Bytes}
    → Parses bs rows rest
    → Parses (rest ++ more) rows' rest'
    → Parses (bs ++ more) (rows ++ rows') rest'
Parses-append more (done e) q = q
Parses-append {bs} more (row {r = r} {n = n} e l u p) q =
    row (unmarshal-append bs more r n e) l (omega (arith, length-append bs more))
      (rw (drop-append_le n bs more u) (Parses-append more p q))

module _ (fuel : ℕ) (bs : Bytes) (offset : ℕ) (rows : List Row) where
  parse_loop_end : length bs ≤ offset → parse_loop (suc fuel) bs offset rows ≡ (rows, offset)
  unfolding parse_loop
  parse_loop_end h = ground arith

  parse_loop_eof :
      unmarshal (drop offset bs) ≡ err eof → parse_loop (suc fuel) bs offset rows ≡ (rows, offset)
  unfolding parse_loop
  parse_loop_eof h = ground arith

  parse_loop_row :
      (r : Row) (n : ℕ)
      → offset < length bs
      → unmarshal (drop offset bs) ≡ ok (r, n)
      → parse_loop (suc fuel) bs offset rows ≡ parse_loop fuel bs (offset + n) (rows ++ (r ∷ []))
  unfolding parse_loop
  parse_loop_row r n l h = ground arith

-- What `parse_loop` returns, given a round for each byte that is left and one more.
pub parse_loop_lem :
    (fuel : ℕ) (bs : Bytes) (offset : ℕ) (rows : List Row)
    → offset ≤ length bs
    → length bs < fuel + offset
    → (found : List Row) × (end : ℕ) × (parse_loop fuel bs offset rows ≡ (rows ++ found, end))
      × (end ≤ length bs)
      × Parses (drop offset bs) found (drop end bs)
parse_loop_lem zero bs offset rows h k = absurd (omega arith)
parse_loop_lem (suc fuel) bs offset rows h k = elim (unmarshal_cases (drop offset bs)) [
  | inr e ↦ (
    [],
    offset,
    parse_loop_eof fuel bs offset rows e
        ∙ ap (λ (t : List Row). (t, offset)) (sym (append-nil rows)),
    h,
    done e,
  )
  | inl (r, n, e, lo, hi) ↦
      let room : offset + n ≤ length bs = omega (arith, length-drop offset bs, hi, lo) in
      let (found, end, p, b, q) =
        parse_loop_lem fuel bs (offset + n) (rows ++ (r ∷ [])) room (omega arith) in
      (
        r ∷ found,
        end,
        parse_loop_row fuel bs offset rows r n (omega arith) e
            ∙ p
            ∙ ap (λ (t : List Row). (t, end)) (append_assoc rows (r ∷ []) found),
        b,
        row e lo hi (rw (drop-drop offset n bs) q),
      )
]
