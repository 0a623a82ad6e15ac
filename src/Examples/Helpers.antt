-- ===== src/Examples/Helpers.antt =====
-- Retries, and sizes.
use laguna.Prelude.{
  ℕ, codes, none, some, suc, Result, ok, err, eof, errors_new, ◌*◌, ◌-◌, ◌&&◌, ◌≡◌, refl, [], ◌∷◌,
  Bytes, leb, if◌then◌else◌,
}
use laguna.Prelude.Int.{ℤ, pos}
use laguna.Prelude.Text.{trim_space}
use laguna.Utils.ByteSize.{unmarshal_text}
use laguna.Utils.ByteSize.Units.{IsUnit, IsNoPrefix, with_number, unmarshal_text_lem}
use mathlib.Core.List.{map}
use laguna.Utils.Retry.{Waits}

abbrev no_waits : Waits
no_waits i = none

abbrev done_waits : Waits
done_waits i = some (errors_new (codes "context canceled"))

-- A call that always fails, and counts.
abbrev failing_call : ℕ → ℕ × Result ℕ
failing_call n = (suc n, err (errors_new (codes "no")))

abbrev upper_byte : ℕ → ℕ
upper_byte b = if leb 97 b && leb b 122 then b - 32 else b

abbrev digit_value : Bytes → Result ℕ
digit_value (d ∷ []) = ok (d - 48)
digit_value text = err eof

abbrev whole_times : ℕ → ℕ → ℤ
whole_times a k = pos (a * k)

abbrev no_int : Bytes → Result ℤ
no_int text = err eof

two_kilobytes : trim_space (codes " 2kb ") ≡ codes "2kb"
unfolding trim_space laguna.Prelude.Text.drop_blank_end laguna.Prelude.Text.drop_spaces
    laguna.Prelude.Text.space_width laguna.Prelude.Text.wide_space laguna.Prelude.Text.is_blank
two_kilobytes = refl

two-IsNoPrefix : IsNoPrefix 50
two-IsNoPrefix = record { no_giga = refl; no_mega = refl; no_kilo = refl }

unmarshal_text_lem_example :
    unmarshal_text (map upper_byte) ℕ digit_value whole_times no_int (λ s. s) (codes " 2kb ")
    ≡ with_number
        (map upper_byte)
        ℕ
        digit_value
        whole_times
        no_int
        (λ s. s)
        (codes "2KB")
        (codes "2")
        1024
unmarshal_text_lem_example =
    unmarshal_text_lem (map upper_byte) ℕ digit_value whole_times no_int (λ s. s) [] 50
      two-IsNoPrefix (codes " 2kb ") 50 (codes "kb") (codes "KB") 1024 two_kilobytes refl
      IsUnit.kilobyte
