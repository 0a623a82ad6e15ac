-- ===== src/Query.antt =====
-- internal/query/query.go: methods, their ids and numbers of arguments, and queries.
pub mod Builder
use laguna.Prelude.{
  ℕ, List, Bytes, codes, Option, some, none, Bool, true, false, str_eq, if◌then◌else◌, ◌==◌,
}

-- MethodId is a uint8.
abbrev pub MethodId : Type 0
MethodId = ℕ

abbrev pub set_method_id : MethodId
set_method_id = 0

abbrev pub get_method_id : MethodId
get_method_id = 1

abbrev pub del_method_id : MethodId
del_method_id = 2

-- The map `Methods`: whether a name is a method.
unfoldable pub methods : Bytes → Bool
methods m =
    if str_eq m (codes "SET")
    then true
    else if str_eq m (codes "GET")
    then true
    else if str_eq m (codes "DEL")
    then true
    else false

-- The map `MethodNames`.
unfoldable pub method_names : Bytes → Option MethodId
method_names m =
    if str_eq m (codes "SET")
    then some set_method_id
    else if str_eq m (codes "GET")
    then some get_method_id
    else if str_eq m (codes "DEL")
    then some del_method_id
    else none

-- The map `MethodArgs`; a missing key reads as 0.
unfoldable pub method_args : MethodId → ℕ
method_args i =
    if i == set_method_id
    then 2
    else if i == get_method_id
    then 1
    else if i == del_method_id
    then 1
    else 0

abbrev pub set_key_idx : ℕ
set_key_idx = 0

abbrev pub set_value_idx : ℕ
set_value_idx = 1

abbrev pub get_key_idx : ℕ
get_key_idx = 0

abbrev pub del_key_idx : ℕ
del_key_idx = 0

pub record Query : Type 0 where
  pub method_id : MethodId
  pub args : List Bytes

abbrev pub new_query : MethodId → List Bytes → Query
new_query m args = record { method_id = m; args = args }
