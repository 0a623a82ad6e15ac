-- ===== src/Utils/Context.antt =====
-- utils/ctx_utils/context.go: the transaction id in a context. A context is what the program reads of
-- it: the error it is done with, and the value of the key `txKey`.
use laguna.Prelude.{ℕ, Option, none, some, Error, Result}

pub record Ctx : Type 0 where
  pub err : Option Error
  pub tx : Option ℕ

abbrev pub background : Ctx
background = record { err = none; tx = none }

-- A nil context is `none`.
unfoldable pub set_tx_in_context : Option Ctx → ℕ → Ctx
set_tx_in_context none tx_id = record background { tx = some tx_id }
set_tx_in_context (some ctx) tx_id = record ctx { tx = some tx_id }

abbrev or_zero : Option ℕ → ℕ
or_zero none = 0
or_zero (some id) = id

unfoldable pub get_tx_from_context : Option Ctx → ℕ
get_tx_from_context none = 0
get_tx_from_context (some ctx) = or_zero ctx.tx

-- `if ctx.Err() != nil { return ctx.Err() }` in front of a call.
abbrev pub unless_done {ℓ κ} :
    {S : Type ℓ} {A : Type κ} → Option Error → S → S × Result A → S × Result A
unless_done (some e) s call = (s, Result.err e)
unless_done none s call = call

-- The same in front of a call that changes nothing.
abbrev pub check_done {ℓ} : {A : Type ℓ} → Option Error → Result A → Result A
check_done (some e) call = Result.err e
check_done none call = call
