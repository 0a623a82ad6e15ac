-- ===== src/Examples/Queries.antt =====
-- Command lines.
use laguna.Prelude.{List, [], ◌∷◌, Bytes, codes, refl, arith, All}
use laguna.Query.Builder.{is_line_end, parse}
use laguna.Prelude.Text.{fields, trim, trim_space}
use laguna.Query.Builder.Lines.{IsWord, IsLineEnd}
use laguna.Query.Builder.Outcome.{Outcome, Parses, parse_cases}

abbrev set_words : List Bytes
set_words = codes "k" ∷ (codes "v" ∷ [])

set_words-IsWord : All IsWord (codes "SET" ∷ set_words)
set_words-IsWord = omega arith

crlf-IsLineEnd : IsLineEnd (13 ∷ (10 ∷ []))
crlf-IsLineEnd = (refl, (refl, tt))

parse_cases_example :
    Parses
      (fields (trim_space (trim is_line_end (codes "SET k v w\r\n"))))
      (parse (codes "SET k v w\r\n"))
    × Outcome (parse (codes "SET k v w\r\n"))
parse_cases_example = parse_cases (codes "SET k v w\r\n")
