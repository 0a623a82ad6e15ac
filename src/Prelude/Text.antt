-- ===== src/Prelude/Text.antt =====
-- The functions of Go's package strings that the program calls, on the bytes of a UTF-8 string.
use laguna.Prelude.{
  ℕ, zero, suc, ◌-◌, List, [], ◌∷◌, ◌++◌, Bool, true, false, ◌&&◌, ◌||◌, leb, ◌==◌, if◌then◌else◌,
}
use laguna.Prelude.{Bytes}

-- '\t', '\n', '\v', '\f', '\r' and ' '
abbrev pub is_ascii_space : ℕ → Bool
is_ascii_space b = (leb 9 b && leb b 13) || (b == 32)

-- U+0085 and U+00A0
abbrev pub is_space_pair : ℕ → ℕ → Bool
is_space_pair a b = (a == 0xc2) && ((b == 0x85) || (b == 0xa0))

-- U+1680, U+2000 to U+200A, U+2028, U+2029, U+202F, U+205F and U+3000
abbrev pub is_space_triple : ℕ → ℕ → ℕ → Bool
is_space_triple a b c =
    ((a == 0xe1) && ((b == 0x9a) && (c == 0x80)))
    || (((a == 0xe2)
          && (((b == 0x80)
                && ((leb 0x80 c && leb c 0x8a) || ((c == 0xa8) || ((c == 0xa9) || (c == 0xaf)))))
              || ((b == 0x81) && (c == 0x9f))))
        || ((a == 0xe3) && ((b == 0x80) && (c == 0x80))))

unfoldable pub wide_space : ℕ → Bytes → ℕ
wide_space a [] = 0
wide_space a (b ∷ []) = if is_space_pair a b then 2 else 0
wide_space a (b ∷ (c ∷ rest)) =
    if is_space_pair a b then 2 else if is_space_triple a b c then 3 else 0

-- How many bytes the space character at the front takes; 0 if there is none. No such character's
-- encoding begins inside another character, so a scan by bytes finds what a scan by runes does.
unfoldable pub space_width : Bytes → ℕ
space_width [] = 0
space_width (a ∷ rest) = if is_ascii_space a then 1 else wide_space a rest

-- TrimLeft of the spaces; the number counts bytes of a space that is being dropped.
unfoldable pub drop_spaces : ℕ → Bytes → Bytes
drop_spaces k [] = []
drop_spaces (suc k) (c ∷ rest) = drop_spaces k rest
drop_spaces zero (c ∷ rest) =
    let w = space_width (c ∷ rest) in
    let dropped = drop_spaces (w - 1) rest in if w == 0 then c ∷ rest else dropped

-- Whether the bytes are spaces only.
unfoldable pub is_blank : ℕ → Bytes → Bool
is_blank zero [] = true
is_blank (suc k) [] = false
is_blank (suc k) (c ∷ rest) = is_blank k rest
is_blank zero (c ∷ rest) =
    let w = space_width (c ∷ rest) in
    let more = is_blank (w - 1) rest in if w == 0 then false else more

-- TrimRight of the spaces: the first suffix that is blank goes.
unfoldable pub drop_blank_end : Bytes → Bytes
drop_blank_end [] = []
drop_blank_end (c ∷ rest) = if is_blank 0 (c ∷ rest) then [] else c ∷ drop_blank_end rest

-- strings.TrimSpace
unfoldable pub trim_space : Bytes → Bytes
trim_space s = drop_blank_end (drop_spaces 0 s)

-- strings.Trim by an ASCII cutset, given as a test.
unfoldable pub trim_left : (ℕ → Bool) → Bytes → Bytes
trim_left p [] = []
trim_left p (c ∷ rest) = if p c then trim_left p rest else c ∷ rest

abbrev pub cons_unless : (ℕ → Bool) → ℕ → Bytes → Bytes
cons_unless p c [] = if p c then [] else c ∷ []
cons_unless p c (d ∷ ds) = c ∷ (d ∷ ds)

unfoldable pub trim_right : (ℕ → Bool) → Bytes → Bytes
trim_right p [] = []
trim_right p (c ∷ rest) = cons_unless p c (trim_right p rest)

unfoldable pub trim : (ℕ → Bool) → Bytes → Bytes
trim p s = trim_right p (trim_left p s)

-- A word is only kept if it has bytes.
abbrev pub cons_word : Bytes → List Bytes → List Bytes
cons_word [] ws = ws
cons_word (c ∷ cs) ws = (c ∷ cs) ∷ ws

-- strings.Fields: `word` holds the bytes of the current word.
unfoldable pub fields_from : ℕ → Bytes → Bytes → List Bytes
fields_from k word [] = cons_word word []
fields_from (suc k) word (c ∷ rest) = fields_from k word rest
fields_from zero word (c ∷ rest) = elim (space_width (c ∷ rest)) [
  | zero ↦ fields_from zero (word ++ (c ∷ [])) rest
  | suc w ↦ cons_word word (fields_from w [] rest)
]

unfoldable pub fields : Bytes → List Bytes
fields s = fields_from 0 [] s

-- strings.Join
unfoldable pub join : List Bytes → Bytes → Bytes
join [] sep = []
join (w ∷ []) sep = w
join (w ∷ (v ∷ ws)) sep = w ++ (sep ++ join (v ∷ ws) sep)
