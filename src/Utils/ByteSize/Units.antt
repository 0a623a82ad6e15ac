-- ===== src/Utils/ByteSize/Units.antt =====
-- Each unit is read as itself.
use laguna.Prelude.{
  ℕ, ◌*◌, append_assoc, ◌≤◌, ◌<◌, ◌≡◌, refl, ap, ◌∙◌, arith, List, [], ◌∷◌, ◌++◌, length,
  length-append, Bytes, codes, str_eq, str_eq_iff, true, false, ◌==◌, Bool-cases, inl, inr, Result,
  ok, ◌>>=◌,
}
use laguna.Prelude.Int.{ℤ}
use laguna.Prelude.Text.{trim_space}
use laguna.Utils.ByteSize.{has_suffix, trim_suffix, units, invalid, by_unit, unmarshal_text}

longer_differs : (s t : Bytes) → length t < length s → str_eq s t ≡ false
longer_differs s t h = elim (Bool-cases (str_eq s t)) [
  | inl y ↦ absurd (let same : s ≡ t = (str_eq_iff s t).0 y in omega (arith, h, ap length same))
  | inr n ↦ n
]

-- A suffix that is no longer than the end of a text is looked for there.
no_suffix :
    (front t suffix : Bytes)
    → length suffix ≤ length t
    → has_suffix t suffix ≡ false
    → has_suffix (front ++ t) suffix ≡ false
unfolding has_suffix
no_suffix [] t suffix l h = h
no_suffix (b ∷ front) t suffix l h =
    rw
      (
        longer_differs (b ∷ (front ++ t)) suffix (omega (arith, l, length-append front t)),
        no_suffix front t suffix l h,
      )
      refl

has_suffix-append : (front suffix : Bytes) → has_suffix (front ++ suffix) suffix ≡ true
unfolding has_suffix
has_suffix-append [] [] = unfold str_eq in refl
has_suffix-append [] (b ∷ bs) = rw ((str_eq_iff (b ∷ bs) (b ∷ bs)).1 refl) refl
has_suffix-append (b ∷ front) suffix = ground (arith, has_suffix-append front suffix)

trim_suffix-append :
    (front : Bytes) (b : ℕ) (bs : Bytes) → trim_suffix (front ++ (b ∷ bs)) (b ∷ bs) ≡ front
unfolding trim_suffix
trim_suffix-append [] b bs = rw ((str_eq_iff (b ∷ bs) (b ∷ bs)).1 refl) refl
trim_suffix-append (x ∷ front) b bs =
    rw
      (
        longer_differs (x ∷ (front ++ (b ∷ bs))) (b ∷ bs)
            (omega (arith, length-append front (b ∷ bs))),
        trim_suffix-append front b bs,
      )
      refl

-- The units, and their multipliers.
pub data IsUnit : Bytes → ℕ → Type 0 where
  gigabyte : IsUnit (codes "GB") (1024 * 1024 * 1024)
  megabyte : IsUnit (codes "MB") (1024 * 1024)
  kilobyte : IsUnit (codes "KB") 1024
  byte : IsUnit (codes "B") 1

-- A byte that a unit does not begin with.
pub record IsNoPrefix (c : ℕ) : Type 0 where
  pub no_giga : (c == 71) ≡ false
  pub no_mega : (c == 77) ≡ false
  pub no_kilo : (c == 75) ≡ false

-- Two letters at the end of a text, where the second is the B of another unit.
other_unit :
    (front : Bytes) (a d e : ℕ)
    → (d == a) ≡ false
    → has_suffix (front ++ (d ∷ (e ∷ []))) (a ∷ (66 ∷ [])) ≡ false
other_unit front a d e n =
    no_suffix front (d ∷ (e ∷ [])) (a ∷ (66 ∷ [])) (omega arith)
      (unfold has_suffix str_eq in ground (arith, n))

module _ (upper : Bytes → Bytes) (F : Type 0) (parse_float : Bytes → Result F) (times : F → ℕ → ℤ)
    (parse_int : Bytes → Result ℤ) (quoted : Bytes → Bytes) where
  abbrev by : List (Bytes × ℕ) → Bytes → Result ℤ
  by us s = by_unit upper F parse_float times parse_int quoted us s

  -- The number of a text with a unit.
  abbrev pub with_number : Bytes → Bytes → ℕ → Result ℤ
  with_number s number k =
      invalid upper F parse_float times parse_int quoted (codes "invalid size value ") s
        (parse_float (trim_space number))
      >>= λ value. ok (times value k)

  by_unit-next :
      (u : Bytes) (k : ℕ) (rest : List (Bytes × ℕ)) (s : Bytes)
      → has_suffix s u ≡ false
      → by ((u, k) ∷ rest) s ≡ by rest s
  unfolding by_unit
  by_unit-next u k rest s h = rw h refl

  by_unit-found :
      (b : ℕ) (bs number : Bytes) (k : ℕ) (rest : List (Bytes × ℕ))
      → by ((b ∷ bs, k) ∷ rest) (number ++ (b ∷ bs)) ≡ with_number (number ++ (b ∷ bs)) number k
  unfolding by_unit
  by_unit-found b bs number k rest =
      rw (has_suffix-append number (b ∷ bs), trim_suffix-append number b bs) refl

  module _ (front : Bytes) (c : ℕ) (x : IsNoPrefix c) where
    abbrev number : Bytes
    number = front ++ (c ∷ [])

    unit_lem :
        (u : Bytes) (k : ℕ)
        → IsUnit u k
        → by units (number ++ u) ≡ with_number (number ++ u) number k
    unit_lem u k gigabyte = by_unit-found 71 (66 ∷ []) number _ _
    unit_lem u k megabyte =
        by_unit-next (codes "GB") _ _ _ (other_unit number 71 77 66 refl)
        ∙ by_unit-found 77 (66 ∷ []) number _ _
    unit_lem u k kilobyte =
        by_unit-next (codes "GB") _ _ _ (other_unit number 71 75 66 refl)
        ∙ by_unit-next (codes "MB") _ _ _ (other_unit number 77 75 66 refl)
        ∙ by_unit-found 75 (66 ∷ []) number _ _
    unit_lem u k byte =
        by_unit-next (codes "GB") _ _ _ (alone 71 x.no_giga)
        ∙ by_unit-next (codes "MB") _ _ _ (alone 77 x.no_mega)
        ∙ by_unit-next (codes "KB") _ _ _ (alone 75 x.no_kilo)
        ∙ by_unit-found 66 [] number _ _
      where
        alone :
            (a : ℕ) → (c == a) ≡ false → has_suffix (number ++ (66 ∷ [])) (a ∷ (66 ∷ [])) ≡ false
        alone a n = rw (append_assoc front (c ∷ []) (66 ∷ [])) (other_unit front a c 66 n)

    -- A text that, without its outer spaces and in upper case, is a number and a unit behind it is the
    -- number, without its outer spaces and as ParseFloat reads it, times the multiplier of that very
    -- unit, or the error of ParseFloat: no unit is taken for another, as long as the number does not
    -- end in the first letter of one.
    pub unmarshal_text_lem :
        (text : Bytes) (b : ℕ) (bs u : Bytes) (k : ℕ)
        → trim_space text ≡ b ∷ bs
        → upper (b ∷ bs) ≡ number ++ u
        → IsUnit u k
        → unmarshal_text upper F parse_float times parse_int quoted text
          ≡ with_number (number ++ u) number k
    unfolding unmarshal_text
    unmarshal_text_lem text b bs u k t e y = rw (t, e) (unit_lem u k y)
