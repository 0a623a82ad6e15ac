-- ===== src/Utils/ByteSize.antt =====
-- utils/data_type: the sizes of the configuration.
pub mod Units
use laguna.Prelude.{
  ℕ, ◌*◌, List, [], ◌∷◌, ◌++◌, Bytes, codes, str_eq, Bool, true, false, ◌||◌, if◌then◌else◌, Error,
  wrapped, Result, ok, err, fault, wrap_err, ◌>>=◌,
}
use laguna.Prelude.Int.{ℤ, pos}
use laguna.Prelude.Text.{trim_space}

-- strings.HasSuffix and strings.TrimSuffix
unfoldable pub has_suffix : Bytes → Bytes → Bool
has_suffix [] suffix = str_eq [] suffix
has_suffix (b ∷ bs) suffix = str_eq (b ∷ bs) suffix || has_suffix bs suffix

unfoldable pub trim_suffix : Bytes → Bytes → Bytes
trim_suffix [] suffix = []
trim_suffix (b ∷ bs) suffix =
    let rest = trim_suffix bs suffix in if str_eq (b ∷ bs) suffix then [] else b ∷ rest

-- The suffixes in their order, with their multipliers.
abbrev pub units : List (Bytes × ℕ)
units =
    (codes "GB", 1024 * 1024 * 1024)
    ∷ ((codes "MB", 1024 * 1024) ∷ ((codes "KB", 1024) ∷ ((codes "B", 1) ∷ [])))

-- strings.ToUpper, strconv.ParseFloat, the product with a multiplier as an int64, strconv.ParseInt, and
-- the quotes of `%q`.
module _ (upper : Bytes → Bytes) (F : Type 0) (parse_float : Bytes → Result F) (times : F → ℕ → ℤ)
    (parse_int : Bytes → Result ℤ) (quoted : Bytes → Bytes) where
  abbrev pub invalid : {A : Type 0} → Bytes → Bytes → Result A → Result A
  invalid text s (ok a) = ok a
  invalid text s (err e) = err (wrapped (text ++ (quoted s ++ codes ": ")) e)
  invalid text s (fault x) = fault x

  -- The loop over the suffixes, and what follows it.
  unfoldable pub by_unit : List (Bytes × ℕ) → Bytes → Result ℤ
  by_unit [] s = invalid (codes "invalid size ") s (parse_int s)
  by_unit ((suffix, multiplier) ∷ rest) s =
      let others = by_unit rest s in
      if has_suffix s suffix
      then (invalid (codes "invalid size value ") s
            (parse_float (trim_space (trim_suffix s suffix)))
          >>= λ value. ok (times value multiplier))
      else others

  -- UnmarshalText on the text without its outer spaces.
  abbrev pub of_trimmed : Bytes → Result ℤ
  of_trimmed [] = ok (pos 0)
  of_trimmed (b ∷ bs) = by_unit units (upper (b ∷ bs))

  unfoldable pub unmarshal_text : Bytes → Result ℤ
  unmarshal_text text = of_trimmed (trim_space text)
