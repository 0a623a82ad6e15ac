-- ===== src/Query/Builder/Lines.antt =====
-- The command lines of a client, and the queries that they are parsed to.
use laguna.Prelude.{ℕ, ◌<◌, ◌≡◌, refl, ap, sym, ◌∙◌, arith, List, [], ◌∷◌, ◌++◌, All, true, false}
use laguna.Prelude.{Bytes, codes, append_assoc, append-nil, if◌then◌else◌, Bool}
use laguna.Prelude.Text.{
  is_ascii_space, space_width, wide_space, drop_spaces, is_blank, drop_blank_end, trim_space,
  trim_left, trim_right, trim, fields_from, fields, join,
}
use laguna.Prelude.{sym}
use laguna.Query.Builder.{is_line_end, parse_tokens, parse}

-- A printable ASCII character other than the space.
abbrev pub IsPlain : ℕ → Type 0
IsPlain b = (32 < b) × (b < 128)

-- A word of a command line: plain characters, at least one.
abbrev pub IsWord : Bytes → Type 0
IsWord [] = ⊥
IsWord (c ∷ cs) = IsPlain c × All IsPlain cs

-- What ends a line.
abbrev pub IsLineEnd : Bytes → Type 0
IsLineEnd = All (λ b. is_line_end b ≡ true)

space_width_ascii :
    (c : ℕ) (rest : Bytes) → c < 128 → space_width (c ∷ rest) ≡ (if is_ascii_space c then 1 else 0)
unfolding space_width wide_space
space_width_ascii c [] h = ground arith
space_width_ascii c (b ∷ []) h = ground arith
space_width_ascii c (b ∷ (d ∷ rest)) h = ground arith

plain_width : (c : ℕ) (rest : Bytes) → IsPlain c → space_width (c ∷ rest) ≡ 0
plain_width c rest h = space_width_ascii c rest h.1 ∙ ground arith

-- Ascii lists that end by a plain character are not blank.
is_blank_plain :
    (xs : Bytes) (c : ℕ) → All (λ b. b < 128) xs → IsPlain c → is_blank 0 (xs ++ (c ∷ [])) ≡ false
unfolding is_blank
is_blank_plain [] c h p = rw (plain_width c [] p)
is_blank_plain (x ∷ xs) c h p =
    ground (arith, space_width_ascii x (xs ++ (c ∷ [])) h.0, is_blank_plain xs c h.1 p)

drop_blank_end_plain :
    (xs : Bytes) (c : ℕ)
    → All (λ b. b < 128) xs
    → IsPlain c
    → drop_blank_end (xs ++ (c ∷ [])) ≡ xs ++ (c ∷ [])
unfolding drop_blank_end
drop_blank_end_plain [] c h p = rw (is_blank_plain [] c h p)
drop_blank_end_plain (x ∷ xs) c h p =
    rw (is_blank_plain (x ∷ xs) c h p) (ap (λ t. x ∷ t) (drop_blank_end_plain xs c h.1 p))

trim_right_ends : (p : ℕ → Bool) (eol : Bytes) → All (λ b. p b ≡ true) eol → trim_right p eol ≡ []
unfolding trim_right
trim_right_ends p [] h = refl
trim_right_ends p (c ∷ cs) h = rw (trim_right_ends p cs h.1, h.0)

-- A trim stops at the last character that is not cut.
trim_right_stops :
    (p : ℕ → Bool) (xs : Bytes) (c : ℕ) (eol : Bytes)
    → p c ≡ false
    → All (λ b. p b ≡ true) eol
    → trim_right p (xs ++ (c ∷ eol)) ≡ xs ++ (c ∷ [])
unfolding trim_right
trim_right_stops p [] c eol n h = rw (trim_right_ends p eol h, n)
trim_right_stops p (x ∷ []) c eol n h = rw (trim_right_stops p [] c eol n h)
trim_right_stops p (x ∷ (y ∷ xs)) c eol n h = rw (trim_right_stops p (y ∷ xs) c eol n h)

-- A word in front of a space, or at the end, is one field.
fields_from_word :
    (word w rest : Bytes)
    → All IsPlain w
    → fields_from 0 word (w ++ rest) ≡ fields_from 0 (word ++ w) rest
unfolding fields_from
fields_from_word word [] rest h = rw append-nil
fields_from_word word (c ∷ w) rest h =
    rw (plain_width c (w ++ rest) h.0, fields_from)
      (fields_from_word (word ++ (c ∷ [])) w rest h.1
        ∙ ap (λ (t : Bytes). fields_from 0 t rest) (append_assoc word (c ∷ []) w))

fields_from_end : (c : ℕ) (cs : Bytes) → fields_from 0 (c ∷ cs) [] ≡ (c ∷ cs) ∷ []
unfolding fields_from
fields_from_end c cs = refl

fields_from_space :
    (c : ℕ) (cs rest : Bytes) → fields_from 0 (c ∷ cs) (32 ∷ rest) ≡ (c ∷ cs) ∷ fields rest
unfolding fields fields_from space_width
fields_from_space c cs rest = refl

-- The words of a joined list of words are those words.
fields-join : (ws : List Bytes) → All IsWord ws → fields (join ws (codes " ")) ≡ ws
unfolding fields join
fields-join [] h = unfold fields_from in refl
fields-join ([] ∷ ws) h = absurd h.0
fields-join ((c ∷ cs) ∷ []) h = rw (← append-nil (c ∷ cs)) (
    fields_from_word [] (c ∷ cs) [] (h.0.0, h.0.1)
    ∙ fields_from_end c cs
    ∙ ap (λ (t : Bytes). t ∷ []) (sym (append-nil (c ∷ cs))))
fields-join ((c ∷ cs) ∷ (v ∷ ws)) h =
    fields_from_word [] (c ∷ cs) (32 ∷ join (v ∷ ws) (codes " ")) (h.0.0, h.0.1)
    ∙ fields_from_space c cs (join (v ∷ ws) (codes " "))
    ∙ ap (λ t. (c ∷ cs) ∷ t) (fields-join (v ∷ ws) h.1)

abbrev IsAscii : Bytes → Type 0
IsAscii = All (λ b. b < 128)

-- The last character of a list of bytes is plain, and the others are ASCII.
abbrev EndsPlain : Bytes → Type 0
EndsPlain s = (xs : Bytes) × (c : ℕ) × (s ≡ xs ++ (c ∷ [])) × IsAscii xs × IsPlain c

EndsPlain-cons : (b : ℕ) (s : Bytes) → b < 128 → EndsPlain s → EndsPlain (b ∷ s)
EndsPlain-cons b s h (xs, c, e, a, p) = (b ∷ xs, c, ap (λ t. b ∷ t) e, (h, a), p)

EndsPlain-append : (w s : Bytes) → IsAscii w → EndsPlain s → EndsPlain (w ++ s)
EndsPlain-append [] s h e = e
EndsPlain-append (b ∷ w) s h e = EndsPlain-cons b (w ++ s) h.0 (EndsPlain-append w s h.1 e)

plain-IsAscii : (w : Bytes) → All IsPlain w → IsAscii w
plain-IsAscii [] h = tt
plain-IsAscii (c ∷ cs) h = (h.0.1, plain-IsAscii cs h.1)

EndsPlain-word : (c : ℕ) (cs : Bytes) → IsPlain c → All IsPlain cs → EndsPlain (c ∷ cs)
EndsPlain-word c [] p h = ([], c, refl, tt, p)
EndsPlain-word c (d ∷ ds) p h = EndsPlain-cons c (d ∷ ds) p.1 (EndsPlain-word d ds h.0 h.1)

join-EndsPlain :
    (w : Bytes) (ws : List Bytes) → All IsWord (w ∷ ws) → EndsPlain (join (w ∷ ws) (codes " "))
unfolding join
join-EndsPlain [] ws h = absurd h.0
join-EndsPlain (c ∷ cs) [] h = EndsPlain-word c cs h.0.0 h.0.1
join-EndsPlain (c ∷ cs) (v ∷ ws) h =
    EndsPlain-append (c ∷ cs) (32 ∷ join (v ∷ ws) (codes " ")) (plain-IsAscii (c ∷ cs) h.0)
      (EndsPlain-cons 32 _ (omega arith) (join-EndsPlain v ws h.1))

-- The first character of a list of bytes is plain.
abbrev BeginsPlain : Bytes → Type 0
BeginsPlain [] = ⊥
BeginsPlain (c ∷ cs) = IsPlain c

join-BeginsPlain :
    (w : Bytes) (ws : List Bytes) → All IsWord (w ∷ ws) → BeginsPlain (join (w ∷ ws) (codes " "))
unfolding join
join-BeginsPlain [] ws h = absurd h.0
join-BeginsPlain (c ∷ cs) [] h = h.0.0
join-BeginsPlain (c ∷ cs) (v ∷ ws) h = h.0.0

plain-ne-line_end : (c : ℕ) → IsPlain c → is_line_end c ≡ false
plain-ne-line_end c h = ground arith

trim_line :
    (s eol : Bytes) → BeginsPlain s → EndsPlain s → IsLineEnd eol → trim is_line_end (s ++ eol) ≡ s
unfolding trim trim_left
trim_line [] eol b e h = absurd b
trim_line (c ∷ cs) eol b (xs, d, e, a, p) h = rw (plain-ne-line_end c b) (
    ap (trim_right is_line_end) (ap (λ t. t ++ eol) e ∙ append_assoc xs (d ∷ []) eol)
    ∙ trim_right_stops is_line_end xs d eol (plain-ne-line_end d p) h
    ∙ sym e)

trim_space_plain : (s : Bytes) → BeginsPlain s → EndsPlain s → trim_space s ≡ s
unfolding trim_space drop_spaces
trim_space_plain [] b e = absurd b
trim_space_plain (c ∷ cs) b (xs, d, e, a, p) =
    rw (plain_width c cs b, e) (drop_blank_end_plain xs d a p)

-- A line of plain words, joined by single spaces and ended by any line ends, is parsed as its words.
pub parse-line :
    (w : Bytes) (ws : List Bytes) (eol : Bytes)
    → All IsWord (w ∷ ws)
    → IsLineEnd eol
    → parse (join (w ∷ ws) (codes " ") ++ eol) ≡ parse_tokens (w ∷ ws)
unfolding parse
parse-line w ws eol h l =
    let s = join (w ∷ ws) (codes " ") in
    let b = join-BeginsPlain w ws h in
    let e = join-EndsPlain w ws h in
    rw (trim_line s eol b e l, trim_space_plain s b e, fields-join (w ∷ ws) h)
