-- ===== src/Query/Builder/Outcome.antt =====
-- What `Parse` answers on any input.
use laguna.Prelude.{
  ◌≡◌, ◌⊎◌, inl, inr, refl, arith, List, [], ◌∷◌, Bytes, codes, str_eq, str_eq_iff, Bool-cases,
  true, false, ◌≢◌,
}
use laguna.Prelude.{Result, Error, ok, err, unknow_method, wrong_query, wrong_args_len}
use laguna.Prelude.Text.{join}
use laguna.Query.{Query, new_query, set_method_id, get_method_id, del_method_id}
use laguna.Prelude.{str_eq}
use laguna.Prelude.Text.{fields, trim, trim_space}
use laguna.Query.Builder.{is_line_end, parse_tokens, parse}

-- Whether executing a query finds the arguments that it indexes.
pub data IsExecutable : Query → Type 0 where
  set : (key value : Bytes) → IsExecutable (new_query set_method_id (key ∷ (value ∷ [])))
  get : (key : Bytes) (more : List Bytes) → IsExecutable (new_query get_method_id (key ∷ more))
  del : (key : Bytes) (more : List Bytes) → IsExecutable (new_query del_method_id (key ∷ more))

-- The three errors of the builder.
pub data IsParseError : Error → Type 0 where
  no_arguments : IsParseError wrong_query
  no_method : IsParseError unknow_method
  few_arguments : IsParseError wrong_args_len

module _ (m a : Bytes) (args : List Bytes) where
  parse_set_short : str_eq m (codes "SET") ≡ true → parse_tokens (m ∷ (a ∷ [])) ≡ err wrong_args_len
  unfolding parse_tokens
  parse_set_short s = ground arith

  parse_set :
      (b : Bytes)
      → str_eq m (codes "SET") ≡ true
      → parse_tokens (m ∷ (a ∷ (b ∷ args)))
        ≡ ok (new_query set_method_id (a ∷ (join (b ∷ args) (codes " ") ∷ [])))
  unfolding parse_tokens
  parse_set b s = ground arith

  parse_get :
      str_eq m (codes "SET") ≡ false
      → str_eq m (codes "GET") ≡ true
      → parse_tokens (m ∷ (a ∷ args)) ≡ ok (new_query get_method_id (a ∷ args))
  unfolding parse_tokens
  parse_get s g = ground arith

  parse_del :
      str_eq m (codes "SET") ≡ false
      → str_eq m (codes "GET") ≡ false
      → str_eq m (codes "DEL") ≡ true
      → parse_tokens (m ∷ (a ∷ args)) ≡ ok (new_query del_method_id (a ∷ args))
  unfolding parse_tokens
  parse_del s g d = ground arith

  parse_unknown :
      str_eq m (codes "SET") ≡ false
      → str_eq m (codes "GET") ≡ false
      → str_eq m (codes "DEL") ≡ false
      → parse_tokens (m ∷ (a ∷ args)) ≡ err unknow_method
  unfolding parse_tokens
  parse_unknown s g d = ground arith

-- `Parse` returns a query whose arguments execution finds, or one of the builder's three errors.
abbrev pub Outcome : Result Query → Type 0
Outcome r =
    ((q : Query) × (r ≡ ok q) × IsExecutable q) ⊎ ((e : Error) × (r ≡ err e) × IsParseError e)

set_cases :
    (m a : Bytes) (args : List Bytes)
    → str_eq m (codes "SET") ≡ true
    → Outcome (parse_tokens (m ∷ (a ∷ args)))
set_cases m a [] s = inr (wrong_args_len, parse_set_short m a [] s, few_arguments)
set_cases m a (b ∷ args) s = inl (_, parse_set m a args b s, set a (join (b ∷ args) (codes " ")))

parse_tokens_cases : (tokens : List Bytes) → Outcome (parse_tokens tokens)
parse_tokens_cases [] = inr (wrong_query, unfold parse_tokens in refl, no_arguments)
parse_tokens_cases (m ∷ []) = inr (wrong_query, unfold parse_tokens in refl, no_arguments)
parse_tokens_cases (m ∷ (a ∷ args)) = elim (Bool-cases (str_eq m (codes "SET"))) [
  | inl s ↦ set_cases m a args s
  | inr s ↦ elim (Bool-cases (str_eq m (codes "GET"))) [
    | inl g ↦ inl (_, parse_get m a args s g, get a args)
    | inr g ↦ elim (Bool-cases (str_eq m (codes "DEL"))) [
      | inl d ↦ inl (_, parse_del m a args s g d, del a args)
      | inr d ↦ inr (unknow_method, parse_unknown m a args s g d, no_method)
    ]
  ]
]

-- The line of a query, as the words of the text between its ends are read: a method in capital letters
-- and its arguments, of which those of a SET behind the key are its value.
pub data Parses : List Bytes → Result Query → Type 0 where
  no_word : Parses [] (err wrong_query)
  one_word : (m : Bytes) → Parses (m ∷ []) (err wrong_query)
  set_without_value : (key : Bytes) → Parses (codes "SET" ∷ (key ∷ [])) (err wrong_args_len)
  set_words :
      (key v : Bytes) (more : List Bytes)
      → Parses
          (codes "SET" ∷ (key ∷ (v ∷ more)))
          (ok (new_query set_method_id (key ∷ (join (v ∷ more) (codes " ") ∷ []))))
  get_words :
      (key : Bytes) (more : List Bytes)
      → Parses (codes "GET" ∷ (key ∷ more)) (ok (new_query get_method_id (key ∷ more)))
  del_words :
      (key : Bytes) (more : List Bytes)
      → Parses (codes "DEL" ∷ (key ∷ more)) (ok (new_query del_method_id (key ∷ more)))
  unknown_word :
      (m a : Bytes) (args : List Bytes)
      → m ≢ codes "SET"
      → m ≢ codes "GET"
      → m ≢ codes "DEL"
      → Parses (m ∷ (a ∷ args)) (err unknow_method)

differs : (m n : Bytes) → str_eq m n ≡ false → m ≢ n
differs m n h e = absurd (cc (h, (str_eq_iff m n).1 e))

set_Parses :
    (m a : Bytes) (args : List Bytes)
    → str_eq m (codes "SET") ≡ true
    → Parses (m ∷ (a ∷ args)) (parse_tokens (m ∷ (a ∷ args)))
set_Parses m a [] s =
    let word = (str_eq_iff m (codes "SET")).0 s in
    rw (parse_set_short m a [] s, word) (Parses.set_without_value a)
set_Parses m a (b ∷ args) s =
    let word = (str_eq_iff m (codes "SET")).0 s in
    rw (parse_set m a args b s, word) (Parses.set_words a b args)

parse_tokens-Parses : (tokens : List Bytes) → Parses tokens (parse_tokens tokens)
parse_tokens-Parses [] = unfold parse_tokens in Parses.no_word
parse_tokens-Parses (m ∷ []) = unfold parse_tokens in Parses.one_word m
parse_tokens-Parses (m ∷ (a ∷ args)) = elim (Bool-cases (str_eq m (codes "SET"))) [
  | inl s ↦ set_Parses m a args s
  | inr s ↦ elim (Bool-cases (str_eq m (codes "GET"))) [
    | inl g ↦
        let word = (str_eq_iff m (codes "GET")).0 g in
        rw (parse_get m a args s g, word) (Parses.get_words a args)
    | inr g ↦ elim (Bool-cases (str_eq m (codes "DEL"))) [
      | inl d ↦
          let word = (str_eq_iff m (codes "DEL")).0 d in
          rw (parse_del m a args s g d, word) (Parses.del_words a args)
      | inr d ↦ rw (parse_unknown m a args s g d) (
          Parses.unknown_word m a args (differs m (codes "SET") s) (differs m (codes "GET") g)
            (differs m (codes "DEL") d))
    ]
  ]
]

-- Whatever the input, `Parse` answers what the words of the line say, in the exact query or error of each
-- form of a line: a SET without a value, a single word and an unknown method are refused; and a query
-- that it returns has the arguments that execution indexes.
pub parse_cases :
    (input : Bytes)
    → Parses (fields (trim_space (trim is_line_end input))) (parse input) × Outcome (parse input)
unfolding parse
parse_cases input =
    let words = fields (trim_space (trim is_line_end input)) in
    (parse_tokens-Parses words, parse_tokens_cases words)
