-- ===== src/Handlers/Lines.antt =====
-- From a client's line to its answer.
use laguna.Prelude.{
  ◌≡◌, refl, sym, ap, ◌∙◌, arith, List, [], ◌∷◌, ◌++◌, append_assoc, Bytes, codes, All, All-append,
  true, false, ◌==◌, Option, none, inl, inr, Error, Result, ok,
}
use laguna.Prelude.Text.{join}
use laguna.Utils.Context.{Ctx, unless_done}
use laguna.Query.{Query}
use laguna.Query.Builder.{parse, parse_tokens}
use laguna.Query.Builder.Outcome.{IsExecutable, Outcome, parse_cases}
use laguna.Query.Builder.Lines.{IsPlain, IsWord, parse-line}
use laguna.Storage.Laws.{value, IsValid}
use laguna.Database.{Wal, execute, log_query}
use laguna.Database.Exec.{effect, reply}
use laguna.Database.Safety.{master_execute}
use laguna.Handlers.{Input, read_line, Server, write_line, or_answer, execute_on, handle}

abbrev pub IsOneLine : Bytes → Type 0
IsOneLine = All (λ b. (b == 10) ≡ false)

-- What stands in front of the first line feed, with it, is the line.
pub read_line_lem :
    (text more : Bytes) (status : Error)
    → IsOneLine text
    → read_line (text ++ (10 ∷ more)) status ≡ ok (text ++ (10 ∷ []))
unfolding read_line
read_line_lem [] more status h = refl
read_line_lem (b ∷ bs) more status h = rw (h.0, read_line_lem bs more status h.1)

plain-IsOneLine : (w : Bytes) → All IsPlain w → IsOneLine w
plain-IsOneLine [] h = tt
plain-IsOneLine (b ∷ bs) h = (ground arith, plain-IsOneLine bs h.1)

word-IsOneLine : (w : Bytes) → IsWord w → IsOneLine w
word-IsOneLine [] h = tt
word-IsOneLine (b ∷ bs) h = plain-IsOneLine (b ∷ bs) h

pub join-IsOneLine : (ws : List Bytes) → All IsWord ws → IsOneLine (join ws (codes " "))
unfolding join
join-IsOneLine [] h = tt
join-IsOneLine (w ∷ []) h = word-IsOneLine w h.0
join-IsOneLine (w ∷ (v ∷ ws)) h =
    All-append _ w _ (word-IsOneLine w h.0) (refl, join-IsOneLine (v ∷ ws) h.1)

-- A query that the builder returns finds its arguments.
query-IsExecutable : (line : Bytes) (q : Query) → parse line ≡ ok q → IsExecutable q
query-IsExecutable line q h = found (parse line) h (parse_cases line).1
  where
    found : (r : Result Query) → r ≡ ok q → Outcome r → IsExecutable q
    found r k (inl (q', e, x)) = (let same : q' ≡ q = cc (k, e) in rw (← same) x)
    found r k (inr (e, f, x)) = absurd (cc (k, f))

module _ (w : Wal) (ctx : Ctx) (input : Input) (s : Server w) (line : Bytes) (q : Query)
    (v : Bytes) where
  -- A request whose calls succeed.
  handle_ok :
      ctx.err ≡ none
      → s.failure ≡ none
      → read_line input.bytes input.status ≡ ok line
      → parse line ≡ ok q
      → (execute w ctx q s.db).1 ≡ ok v
      → handle w ctx input s
        ≡ (record s { db = (execute w ctx q s.db).0; sent = s.sent ++ (v ++ (10 ∷ [])) }, ok tt)
  unfolding handle write_line
  handle_ok c o r p e = not_done ctx.err c ∙ rw (r, p, e, o)
    where
      call : Server w × Result (Unit {0})
      call =
          or_answer w (s, read_line input.bytes input.status)
            λ l s₁.
              or_answer w (s₁, parse l)
                λ q' s₂.
                  or_answer w (execute_on w ctx s₂ (execute w ctx q' s₂.db))
                    λ x s₃. or_answer w (write_line w x s₃) λ _ s₄. (s₄, ok tt)

      not_done : (o : Option Error) → o ≡ none → unless_done o s call ≡ call
      not_done o h = rw h

-- A line that ends by a carriage return and a line feed, and more behind it.
abbrev pub request : Bytes → List Bytes → Bytes → Error → Input
request word words more status = record {
  bytes = join (word ∷ words) (codes " ") ++ (13 ∷ (10 ∷ more));
  status = status;
}

-- The line that is read is what the builder takes for the query.
request_line :
    (word : Bytes) (words : List Bytes) (more : Bytes) (status : Error) (q : Query)
    → All IsWord (word ∷ words)
    → parse_tokens (word ∷ words) ≡ ok q
    → (line : Bytes) × (read_line (request word words more status).bytes status ≡ ok line)
      × (parse line ≡ ok q)
request_line word words more status q x p =
    let text = join (word ∷ words) (codes " ") ++ (13 ∷ []) in
    let parsed = parse-line word words (13 ∷ (10 ∷ [])) x (refl, (refl, tt)) ∙ p in
    let split : parse (text ++ (10 ∷ [])) ≡ ok q =
      ap parse (append_assoc (join (word ∷ words) (codes " ")) (13 ∷ []) (10 ∷ [])) ∙ parsed in
    let got : read_line (request word words more status).bytes status ≡ ok (text ++ (10 ∷ [])) =
      ap (λ t. read_line t status)
        (sym (append_assoc (join (word ∷ words) (codes " ")) (13 ∷ []) (10 ∷ more)))
      ∙ read_line_lem text more status (
          All-append _ (join (word ∷ words) (codes " ")) (13 ∷ []) (join-IsOneLine (word ∷ words) x)
            (refl, tt)) in
    (text ++ (10 ∷ []), got, split)

-- A line on a master whose log accepts the query, with the state behind it.
pub handle_command :
    (w : Wal) (ctx : Ctx) (word : Bytes) (words : List Bytes) (more : Bytes) (status : Error)
    (s : Server w) (q : Query) (log : w.State)
    → ctx.err ≡ none
    → All IsWord (word ∷ words)
    → parse_tokens (word ∷ words) ≡ ok q
    → s.db.is_master ≡ true
    → IsValid s.db.st
    → s.failure ≡ none
    → log_query w ctx q s.db ≡ (record s.db { wal = log }, ok tt)
    → (s' : Server w) × (handle w ctx (request word words more status) s ≡ (s', ok tt))
      × (s'.sent ≡ s.sent ++ (reply q (value s.db.st) ++ (10 ∷ [])))
      × (s'.db ≡ (execute w ctx q s.db).0)
      × (s'.failure ≡ none)
      × (s'.db.is_master ≡ true)
      × IsValid s'.db.st
      × ((j : Bytes) → value s'.db.st j ≡ effect q (value s.db.st) j)
handle_command w ctx word words more status s q log c x p m v o l =
    let (line, got, split) = request_line word words more status q x p in
    let (r, _, is_master, valid, law) =
      master_execute w ctx q s.db log m c (query-IsExecutable line q split) v l in
    (
      _,
      handle_ok w ctx (request word words more status) s line q (reply q (value s.db.st)) c o got
          split r,
      refl,
      refl,
      o,
      is_master,
      valid,
      law,
    )

-- On a master whose log accepts the query, a line of plain words that the builder takes for the query `q`
-- is answered by one line, which is the reply to `q` from the map of keys and values, and the map
-- changes as `q` says; what follows the line on the connection does not matter.
handle_line :
    (w : Wal) (ctx : Ctx) (word : Bytes) (words : List Bytes) (more : Bytes) (status : Error)
    (s : Server w) (q : Query) (log : w.State)
    → ctx.err ≡ none
    → All IsWord (word ∷ words)
    → parse_tokens (word ∷ words) ≡ ok q
    → s.db.is_master ≡ true
    → IsValid s.db.st
    → s.failure ≡ none
    → log_query w ctx q s.db ≡ (record s.db { wal = log }, ok tt)
    → ((handle w ctx (request word words more status) s).1 ≡ ok tt)
      × ((handle w ctx (request word words more status) s).0.sent
          ≡ s.sent ++ (reply q (value s.db.st) ++ (10 ∷ [])))
      × ((j : Bytes)
          → value (handle w ctx (request word words more status) s).0.db.st j
            ≡ effect q (value s.db.st) j)
handle_line w ctx word words more status s q log c x p m v o l =
    let (s', r, sent, _, _, _, _, law) =
      handle_command w ctx word words more status s q log c x p m v o l in
    rw r (refl, sent, law)
