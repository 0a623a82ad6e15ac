-- ===== src/Query/Builder.antt =====
-- internal/query/builder.go: the parser of command lines.
pub mod Outcome
pub mod Lines
use laguna.Prelude.{
  ℕ, List, ◌∷◌, [], Bytes, codes, Bool, ◌||◌, ◌==◌, ltb, not, length, get_elem?, drop,
  if◌then◌else◌, Option, some, none,
}
use laguna.Prelude.{
  Result, ok, err, fault, index, ◌>>=◌, ◌>>◌, unknow_method, wrong_query, wrong_args_len,
  slice_out_of_range,
}
use laguna.Prelude.Text.{trim, trim_space, fields, join}
use laguna.Query.{
  MethodId, Query, new_query, methods, method_names, method_args, set_method_id, set_key_idx,
  set_value_idx,
}

-- args[i:]
unfoldable pub slice_from : List Bytes → ℕ → Result (List Bytes)
slice_from args i = if ltb (length args) i then fault slice_out_of_range else ok (drop i args)

unfoldable pub find_method_id : Bytes → Result MethodId
unfolding method_names
find_method_id method = elim (method_names method) [ some id ↦ ok id | none ↦ err unknow_method ]

-- The checks of `validate` behind the first, which has seen a method name and an argument.
unfoldable pub validate_method : Bytes → List Bytes → Result (Unit {0})
unfolding methods find_method_id method_args
validate_method method args = if not (methods method) then err unknow_method else do
  method_id ← find_method_id method
  if ltb (length args) (method_args method_id) then err wrong_args_len else ok tt

unfoldable pub validate : List Bytes → Result (Unit {0})
unfolding validate_method slice_from
validate tokens = if ltb (length tokens) 2 then err wrong_query else do
  method ← index (get_elem? tokens 0)
  args ← slice_from tokens 1
  validate_method method args

-- The key, and the other words joined again by single spaces.
unfoldable pub set_query : MethodId → List Bytes → Result Query
unfolding slice_from join
set_query method_id args = do
  key ← index (get_elem? args set_key_idx)
  words ← slice_from args set_value_idx
  ok (new_query method_id (key ∷ (join words (codes " ") ∷ [])))

unfoldable pub get_query : Bytes → List Bytes → Result Query
unfolding find_method_id set_query
get_query method args = do
  method_id ← find_method_id method
  if method_id == set_method_id then set_query method_id args else ok (new_query method_id args)

-- "\r\n", the cutset
abbrev pub is_line_end : ℕ → Bool
is_line_end b = (b == 13) || (b == 10)

-- What `Parse` does with the tokens of the line.
unfoldable pub parse_tokens : List Bytes → Result Query
unfolding validate get_query
parse_tokens tokens = do
  validate tokens
  method ← index (get_elem? tokens 0)
  args ← slice_from tokens 1
  get_query method args

unfoldable pub parse : Bytes → Result Query
unfolding parse_tokens trim trim_space fields
parse input = parse_tokens (fields (trim_space (trim is_line_end input)))
