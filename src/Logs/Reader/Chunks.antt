-- ===== src/Logs/Reader/Chunks.antt =====
-- `read` does not depend on how the bytes are cut into reads, and drops a torn row at the end.
use laguna.Prelude.{
  ℕ, zero, suc, ◌≡◌, inl, inr, refl, sym, ◌∙◌, arith, List, [], ◌∷◌, ◌++◌, length, drop, All,
}
use laguna.Prelude.{
  Bytes, codes, Result, ok, err, eof, wrapped, if◌then◌else◌, append_assoc, append-nil, concat,
  >>=-eq-ok, length-append, drop-append,
}
use laguna.Wal.Row.{Row, marshal, unmarshal}
use laguna.Wal.Row.Codec.{IsEncodable, unmarshal-marshal}
use laguna.Wal.Row.Prefix.{unmarshal_cases, unmarshal-append, unmarshal_inv, unmarshal_nil}
use laguna.Prelude.{ap, take, take-append-drop, length-drop, zero, ◌≤◌}
use laguna.Logs.Reader.{split_chunks, bytes_reader, Source, is_eof, tail_loop, feed, feed_all, read}
use laguna.Logs.Reader.Loop.{Parses, done, row, Parses-append, parse_loop_lem}
use laguna.Replication.Protocol.{flatten}

-- What stays behind the rows begins with no row.
Parses-stops :
    {bs : Bytes} {rows : List Row} {rest : Bytes} → Parses bs rows rest → unmarshal rest ≡ err eof
Parses-stops (done e) = e
Parses-stops (row e l u p) = Parses-stops p

-- The rows in some bytes are determined by the bytes.
Parses-unique :
    {bs : Bytes} {rows rows' : List Row} {rest rest' : Bytes}
    → Parses bs rows rest
    → Parses bs rows' rest'
    → (rows ≡ rows') × (rest ≡ rest')
Parses-unique (done e) (done e') = (refl, refl)
Parses-unique (done e) (row e' l u p) = absurd (cc (e, e'))
Parses-unique (row e l u p) (done e') = absurd (cc (e, e'))
Parses-unique {bs} (row {r = r} {n = n} {rows = rows} {rest = rest} e l u p)
      (row {r = r'} {n = n'} {rows = rows'} {rest = rest'} e' l' u' p') =
    let same : ◌≡◌ {A = Result (Row × ℕ)} (ok (r, n)) (ok (r', n')) = sym e ∙ e' in
    let n_eq : n ≡ n' = cc same in
    let p'' : Parses (drop n bs) rows' rest' = rw n_eq p' in
    let (a, b) = Parses-unique p p'' in (cc (a, same), b)

feed_lem :
    (total : Bytes) (rows : List Row) (left c : Bytes)
    → Parses total rows left
    → Parses (total ++ c) (feed (rows, left) c).0 (feed (rows, left) c).1
unfolding feed
feed_lem total rows left [] p = rw append-nil p
feed_lem total rows left (b ∷ bs) p =
    let all = left ++ (b ∷ bs) in
    let (found, end, e, _, q) =
      parse_loop_lem (suc (length all)) all 0 rows (omega arith) (omega arith) in
    rw e (Parses-append (b ∷ bs) p q)

feed_all_lem :
    (total : Bytes) (rows : List Row) (left : Bytes) (cs : List Bytes)
    → Parses total rows left
    → Parses (total ++ concat cs) (feed_all (rows, left) cs).0 (feed_all (rows, left) cs).1
unfolding feed_all
feed_all_lem total rows left [] p = rw append-nil p
feed_all_lem total rows left (c ∷ cs) p =
    rw (← append_assoc total c (concat cs))
      (feed_all_lem (total ++ c) _ _ cs (feed_lem total rows left c p))

tail_loop_stops :
    (fuel : ℕ) (left : Bytes) (rows : List Row)
    → unmarshal left ≡ err eof
    → tail_loop fuel left 0 rows ≡ rows
unfolding tail_loop
tail_loop_stops zero left rows e = refl
tail_loop_stops (suc fuel) left rows e = ground arith

-- The bytes that a source delivers in all.
abbrev pub content : Source → Bytes
content src = concat src.chunks ++ src.last

-- `read` returns the rows at the front of all that the source delivers, whatever the reads, if the
-- source ends by io.EOF; otherwise it returns the reader's error.
read_lem :
    (src : Source)
    → (rows : List Row) × (rest : Bytes) × Parses (content src) rows rest
      × (read src ≡ (
          if is_eof src.status
          then ok rows
          else err (wrapped (codes "parseRows read error: ") src.status)))
unfolding read
read_lem src =
    let (rows, left) = feed_all ([], []) src.chunks in
    let p = feed_all_lem [] [] [] src.chunks (done unmarshal_nil) in
    let q = feed_lem (concat src.chunks) _ _ src.last p in
    (_, _, q, rw (tail_loop_stops _ _ _ (Parses-stops q)))

-- Two sources that deliver the same bytes, in whatever pieces, and end by io.EOF give the same rows.
read_chunks :
    (src src' : Source)
    → content src ≡ content src'
    → src.status ≡ eof
    → src'.status ≡ eof
    → read src ≡ read src'
read_chunks src src' same e e' =
    let (rows, rest, p, h) = read_lem src in
    let (rows', rest', p', h') = read_lem src' in
    let (eq, _) = Parses-unique p (rw (← same) at p') in ground (arith, h, h', e, e', eq)

Parses-flatten :
    (rows : List Row) (bs torn : Bytes)
    → All IsEncodable rows
    → flatten rows ≡ ok bs
    → unmarshal torn ≡ err eof
    → Parses (bs ++ torn) rows torn
unfolding flatten
Parses-flatten [] bs torn v h e = let n : [] ≡ bs = cc in rw (← n) (done e)
Parses-flatten (r ∷ rows) bs torn v h e =
    let (b, m, k) = >>=-eq-ok (marshal r) _ h in
    let (tail, m', k') = >>=-eq-ok (flatten rows) _ k in
    let split : bs ≡ b ++ tail = cc k' in
    let u = unmarshal-marshal r b (tail ++ torn) v.0 m in
    let (used, rest, s, c, l, _) = unmarshal_inv _ r _ u in
    rw (split, append_assoc b tail torn)
      (row u (omega (arith, c, l)) (omega (arith, length-append b (tail ++ torn)))
        (rw drop-append (Parses-flatten rows tail torn v.1 m' e)))

-- Rows that were written one after the other are all read back, in order, however the file is cut into
-- reads, and a torn row that was being written behind them is dropped.
pub read-flatten :
    (rows : List Row) (bs torn : Bytes) (src : Source)
    → All IsEncodable rows
    → flatten rows ≡ ok bs
    → unmarshal torn ≡ err eof
    → content src ≡ bs ++ torn
    → src.status ≡ eof
    → read src ≡ ok rows
read-flatten rows bs torn src v h e c s =
    let (found, rest, p, k) = read_lem src in
    let (same, _) = Parses-unique p (rw (← c) at (Parses-flatten rows bs torn v h e)) in
    ground (arith, k, s, same)

-- Every proper prefix of a row's binary form is torn: `Unmarshal` answers io.EOF on it.
unmarshal_torn :
    (r : Row) (front : Bytes) (x : ℕ) (back : Bytes)
    → IsEncodable r
    → marshal r ≡ ok (front ++ (x ∷ back))
    → unmarshal front ≡ err eof
unmarshal_torn r front x back v h = elim (unmarshal_cases front) [
  | inr e ↦ e
  | inl (r', n, e, l, u) ↦
      let whole = rw append-nil at (unmarshal-marshal r (front ++ (x ∷ back)) [] v h) in
      let same = sym whole ∙ unmarshal-append front (x ∷ back) r' n e in
      absurd (omega (arith, length-append front (x ∷ back), u, counts same))
]
  where
    counts : {r₁ r₂ : Row} {m n : ℕ} → ◌≡◌ {A = Result (Row × ℕ)} (ok (r₁, m)) (ok (r₂, n)) → m ≡ n
    counts k = cc

concat-split_chunks :
    (fuel k : ℕ) (bs : Bytes) → length bs ≤ fuel → concat (split_chunks fuel k bs) ≡ bs
unfolding split_chunks
concat-split_chunks zero k [] h = refl
concat-split_chunks zero k (b ∷ bs) h = absurd (omega arith)
concat-split_chunks (suc fuel) k [] h = refl
concat-split_chunks (suc fuel) k (b ∷ bs) h =
    ap (λ t. b ∷ (take k bs ++ t))
      (concat-split_chunks fuel k (drop k bs) (omega (arith, length-drop k bs)))
    ∙ ap (λ t. b ∷ t) (take-append-drop k bs)

-- A reader of some bytes delivers those bytes.
pub content-bytes_reader : (bs : Bytes) → content (bytes_reader bs) ≡ bs
unfolding bytes_reader
content-bytes_reader bs =
    append-nil (concat (split_chunks (length bs) 4095 bs))
    ∙ concat-split_chunks (length bs) 4095 bs (omega arith)

-- Rows that were written one after the other are read back from those bytes.
pub read-bytes_reader :
    (rows : List Row) (bs : Bytes)
    → All IsEncodable rows
    → flatten rows ≡ ok bs
    → read (bytes_reader bs) ≡ ok rows
read-bytes_reader rows bs v h =
    read-flatten rows bs [] (bytes_reader bs) v h unmarshal_nil
      (content-bytes_reader bs ∙ sym (append-nil bs)) (unfold bytes_reader in refl)
