-- ===== src/Prelude/Binary.antt =====
-- encoding/binary on byte slices: fixed-width integers, and reads of a fixed number of bytes.
use laguna.Prelude.{ℕ, zero, suc, ◌+◌, ◌*◌, ◌/◌, ◌%◌, ◌^◌, ◌<◌, ◌≡◌, refl, ap, arith}
use laguna.Prelude.{[], ◌∷◌, ◌++◌, length, length-append}
use laguna.Prelude.{Bytes, Result, ok, err, eof, unexpected_eof, ◌>>=◌, ltb, ◌==◌, if◌then◌else◌}
use laguna.Prelude.{take, drop, take-append, drop-append}
use mathlib.Core.List.{foldl, foldl-append}
use native.Mathlib.Nat.{pow-suc}

-- The `w` low bytes of `n`, most significant first.
unfoldable pub put_be : ℕ → ℕ → Bytes
put_be zero n = []
put_be (suc w) n = put_be w (n / 256) ++ ((n % 256) ∷ [])

unfoldable pub put_le : ℕ → ℕ → Bytes
put_le zero n = []
put_le (suc w) n = (n % 256) ∷ put_le w (n / 256)

unfoldable pub be_value : Bytes → ℕ
be_value = foldl (λ n b. n * 256 + b) 0

unfoldable pub le_value : Bytes → ℕ
le_value [] = 0
le_value (b ∷ bs) = b + 256 * le_value bs

-- io.ReadFull of `w` bytes from what a reader has left: those bytes, and the rest. No byte at all
-- is EOF, too few are ErrUnexpectedEOF.
unfoldable pub read_full : ℕ → Bytes → Result (Bytes × Bytes)
read_full w bs =
    if ltb (length bs) w
    then err (if length bs == 0 then eof else unexpected_eof)
    else ok (take w bs, drop w bs)

-- binary.Read of a `w`-byte unsigned integer, and ReadByte.
unfoldable pub read_be : ℕ → Bytes → Result (ℕ × Bytes)
unfolding read_full be_value
read_be w bs = read_full w bs >>= λ p. ok (be_value p.0, p.1)

unfoldable pub read_byte : Bytes → Result (ℕ × Bytes)
read_byte [] = err eof
read_byte (b ∷ bs) = ok (b, bs)

length-put_be : (w n : ℕ) → length (put_be w n) ≡ w
unfolding put_be
length-put_be zero n = refl
length-put_be (suc w) n = rw length-append (omega (arith, length-put_be w (n / 256)))

pub length-put_le : (w n : ℕ) → length (put_le w n) ≡ w
unfolding put_le
length-put_le zero n = refl
length-put_le (suc w) n = omega (arith, length-put_le w (n / 256))

quotient-lt : (w n : ℕ) → n < 256 ^ suc w → n / 256 < 256 ^ w
quotient-lt w n h = let h' : n < 256 ^ w * 256 = rw pow-suc at h in omega arith

-- The big-endian bytes of a number below 256 ^ w decode to it.
be_value-put_be : (w n : ℕ) → n < 256 ^ w → be_value (put_be w n) ≡ n
unfolding put_be be_value
be_value-put_be zero n h = omega arith
be_value-put_be (suc w) n h =
    rw foldl-append (omega (arith, be_value-put_be w (n / 256) (quotient-lt w n h)))

pub le_value-put_le : (w n : ℕ) → n < 256 ^ w → le_value (put_le w n) ≡ n
unfolding put_le le_value
le_value-put_le zero n h = omega arith
le_value-put_le (suc w) n h = omega (arith, le_value-put_le w (n / 256) (quotient-lt w n h))

-- A read takes exactly the bytes that were asked for.
pub read_full-append :
    (w : ℕ) (xs rest : Bytes) → length xs ≡ w → read_full w (xs ++ rest) ≡ ok (xs, rest)
unfolding read_full
read_full-append w xs rest h =
    rw (← h) (ground (arith, length-append xs rest, take-append xs rest, drop-append xs rest))

pub read_be-put_be :
    (w n : ℕ) (rest : Bytes) → n < 256 ^ w → read_be w (put_be w n ++ rest) ≡ ok (n, rest)
unfolding read_be
read_be-put_be w n rest h =
    rw (read_full-append w (put_be w n) rest (length-put_be w n))
      (ap (λ (v : ℕ). ok (v, rest)) (be_value-put_be w n h))
