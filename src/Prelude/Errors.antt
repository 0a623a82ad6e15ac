-- ===== src/Prelude/Errors.antt =====
-- The errors that the program returns, and the result of a call.
use mathlib.Core.Path.{◌≡◌, refl}
use mathlib.Core.Option.{Option, none, some}
use Prim.Native.Nat.{ℕ}
use Prim.Native.Nat.{◌+◌, ◌/◌, ◌%◌}
use mathlib.Core.List.{[], ◌∷◌, ◌++◌}
use laguna.Prelude.Tests.{ltb, if◌then◌else◌}
use laguna.Prelude.Str.{Bytes, codes}

-- The sentinels of each package, `errors.New` with a text, and `fmt.Errorf` with %w.
-- `unknown_command` is `fmt.Errorf("unknown command ID: %d", method)`.
pub data Error : Type 0 where
  eof unexpected_eof canceled deadline_exceeded : Error
  unknow_method wrong_query wrong_args_len : Error
  not_found index_not_found no_new_logs non_read_op_slave not_exist : Error
  unknown_command : ℕ → Error
  errors_new : Bytes → Error
  wrapped : Bytes → Error → Error

-- What a Go call does instead of returning: an index out of range panics, a lock that is never
-- released blocks.
pub data Fault : Type 0 where
  index_out_of_range slice_out_of_range nil_pointer int63n_argument makechan_size blocked_forever :
      Fault

-- Go's (value, error) pair, or a call that does not return.
pub data Result {ℓ} (A : Type ℓ) : Type ℓ where
  ok : A → Result A
  err : Error → Result A
  fault : Fault → Result A

-- A call, and what follows it where it returns no error.
infixl 5 ◌>>=◌
abbrev pub ◌>>=◌ {ℓ υ} : {A : Type ℓ} {B : Type υ} → Result A → (A → Result B) → Result B
fault x >>= next = fault x
err e >>= next = err e
ok v >>= next = next v

infixl 5 ◌>>◌
abbrev pub ◌>>◌ {υ} : {B : Type υ} → Result (Unit {0}) → Result B → Result B
check >> rest = check >>= λ done. rest

-- An index expression s[i] on what `get_elem?` finds.
abbrev pub index {ℓ} : {A : Type ℓ} → Option A → Result A
index (some a) = ok a
index none = fault index_out_of_range

-- What a call and its continuation returned, where both returned no error.
pub >>=-eq-ok {ℓ υ} :
    {A : Type ℓ} {B : Type υ} {w : B} (call : Result A) (next : A → Result B)
    → (call >>= next) ≡ ok w
    → (v : A) × (call ≡ ok v) × (next v ≡ ok w)
>>=-eq-ok (fault x) next h = cc
>>=-eq-ok (err e) next h = cc
>>=-eq-ok (ok v) next h = (v, refl, h)

-- A call that may change a state, and what follows it where it returns no error.
infixl 5 ◌>>>◌
abbrev pub ◌>>>◌ {ℓ κ υ} :
    {S : Type ℓ} {A : Type κ} {B : Type υ} → S × Result A → (A → S → S × Result B) → S × Result B
(s, ok a) >>> f = f a s
(s, err e) >>> f = (s, err e)
(s, fault x) >>> f = (s, fault x)

-- fmt.Errorf("...: %w", err)
abbrev pub wrap_err {ℓ κ} : {S : Type ℓ} {A : Type κ} → Bytes → S × Result A → S × Result A
wrap_err text (s, ok a) = (s, ok a)
wrap_err text (s, err e) = (s, err (wrapped text e))
wrap_err text (s, fault x) = (s, fault x)

-- The decimal digits of a uint8, as %d prints it.
abbrev pub decimal : ℕ → Bytes
decimal n =
    if ltb n 10
    then (48 + n) ∷ []
    else if ltb n 100
    then (48 + n / 10) ∷ ((48 + n % 10) ∷ [])
    else (48 + n / 100) ∷ ((48 + n / 10 % 10) ∷ ((48 + n % 10) ∷ []))

-- err.Error()
unfoldable pub error_text : Error → Bytes
error_text eof = codes "EOF"
error_text unexpected_eof = codes "unexpected EOF"
error_text canceled = codes "context canceled"
error_text deadline_exceeded = codes "context deadline exceeded"
error_text unknow_method = codes "unknow method"
error_text wrong_query = codes "wrong query"
error_text wrong_args_len = codes "wrong args length"
error_text not_found = codes "not found"
error_text index_not_found = codes "index not found"
error_text no_new_logs = codes "no new logs"
error_text not_exist = codes "file does not exist"
error_text non_read_op_slave = codes "non read operation on slave"
error_text (unknown_command n) = codes "unknown command ID: " ++ decimal n
error_text (errors_new text) = text
error_text (wrapped text e) = text ++ error_text e
