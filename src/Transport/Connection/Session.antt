-- ===== src/Transport/Connection/Session.antt =====
-- The requests of one connection, one after the other.
use laguna.Prelude.{
  ℕ, suc, ◌≡◌, refl, sym, ap, ◌∙◌, List, [], ◌∷◌, ◌++◌, append_assoc, append-nil, length, Bytes,
  codes, All, All-append, Bool, true, none, Error, ok,
}
use laguna.Prelude.Text.{join}
use mathlib.Core.Path.{fun_ext}
use mathlib.Core.List.{map}
use laguna.Utils.Context.{Ctx}
use laguna.Query.{Query}
use laguna.Query.Builder.{parse_tokens}
use laguna.Query.Builder.Lines.{IsWord}
use laguna.Storage.Laws.{value, IsValid}
use laguna.Database.{Wal, Database, log_query, execute}
use laguna.Database.Exec.{View, effect, effects, reply}
use laguna.Handlers.{Input, is_eof_error, Server, handle}
use laguna.Handlers.Lines.{IsOneLine, join-IsOneLine, request, handle_command}
use laguna.Transport.Connection.{closed, after_line, handle_connection}
use laguna.Transport.Connection.Ending.{left_over-alive, handle-eof}

-- The words of a line, and the query that the builder takes them for.
pub record Command : Type 0 where
  pub word : Bytes
  pub words : List Bytes
  pub query : Query

abbrev pub IsCommand : Command → Type 0
IsCommand c = All IsWord (c.word ∷ c.words) × (parse_tokens (c.word ∷ c.words) ≡ ok c.query)

-- What a client sends: the commands, each on a line.
unfoldable pub requests : List Command → Bytes
requests [] = []
requests (c ∷ cs) = join (c.word ∷ c.words) (codes " ") ++ (13 ∷ (10 ∷ requests cs))

-- What it is told: the replies of one map of keys and values, which each query changes, each on a line.
unfoldable pub replies : List Query → View → Bytes
replies [] f = []
replies (q ∷ qs) f = (reply q f ++ (10 ∷ [])) ++ replies qs (effect q f)

abbrev pub queries : List Command → List Query
queries cs = map (λ (c : Command). c.query) cs

-- The log accepts each of these queries, in the state that those before it leave.
unfoldable pub Accepts : (w : Wal) → Ctx → List Query → Database w → Type 0
Accepts w ctx [] db = Unit {0}
Accepts w ctx (q ∷ qs) db =
    ((log : w.State) × (log_query w ctx q db ≡ (record db { wal = log }, ok tt)))
    × Accepts w ctx qs (execute w ctx q db).0

after_line_lem : (text more : Bytes) → IsOneLine text → after_line (text ++ (10 ∷ more)) ≡ more
unfolding after_line
after_line_lem [] more h = refl
after_line_lem (b ∷ bs) more h = rw h.0 (after_line_lem bs more h.1)

after_request :
    (word : Bytes) (words : List Bytes) (more : Bytes) (status : Error)
    → All IsWord (word ∷ words)
    → after_line (request word words more status).bytes ≡ more
after_request word words more status x =
    let line = join (word ∷ words) (codes " ") in
    ap after_line (sym (append_assoc line (13 ∷ []) (10 ∷ more)))
    ∙ after_line_lem (line ++ (13 ∷ [])) more
        (All-append _ line (13 ∷ []) (join-IsOneLine (word ∷ words) x) (refl, tt))

module _ (w : Wal) (is_net_error : Error → Bool) (ctx : Ctx) (status : Error) where
  -- What the server is behind the commands.
  abbrev Served : List Command → Server w → Server w → Type 0
  Served cs s s' =
      (s'.sent ≡ s.sent ++ replies (queries cs) (value s.db.st))
      × ((j : Bytes) → value s'.db.st j ≡ effects (queries cs) (value s.db.st) j)

  one_round :
      (c : Command) (n : ℕ) (more : Bytes) (s s' : Server w)
      → ctx.err ≡ none
      → All IsWord (c.word ∷ c.words)
      → handle w ctx (request c.word c.words more status) s ≡ (s', ok tt)
      → handle_connection w is_net_error ctx (suc n) (request c.word c.words more status) s
        ≡ handle_connection w is_net_error ctx n (record { bytes = more; status = status }) s'
  unfolding handle_connection
  one_round c n more s s' x y h =
      let left =
        left_over-alive ctx.err (request c.word c.words more status) x
        ∙ ap (λ (bs : Bytes). record { bytes = bs; status = status })
            (after_request c.word c.words more status y) in
      rw h (ap (λ (i : Input). handle_connection w is_net_error ctx n i s') left)

  -- A client that sends commands, each of plain words on a line of its own, and then closes its side, to
  -- a master whose log accepts them, each in the state that the commands before it leave (no other call
  -- comes between them), over a connection that takes what is sent to it: after one
  -- round for each command, and one more, the loop has ended; the client was sent the replies, in
  -- order, as one map of keys and values gives them that each query in turn changes; and
  -- the storage holds what all the queries make of that map.
  pub connection_serves :
      (cs : List Command) (s : Server w)
      → ctx.err ≡ none
      → is_eof_error status ≡ true
      → All IsCommand cs
      → Accepts w ctx (queries cs) s.db
      → s.db.is_master ≡ true
      → IsValid s.db.st
      → s.failure ≡ none
      → (s' : Server w) × (handle_connection w is_net_error ctx
            (suc (length cs))
            (record { bytes = requests cs; status = status })
            s
          ≡ (s', closed))
        × (s'.sent ≡ s.sent ++ replies (queries cs) (value s.db.st))
        × ((j : Bytes) → value s'.db.st j ≡ effects (queries cs) (value s.db.st) j)
  unfolding requests replies effects Accepts
  connection_serves [] s x e a l m v o = (s, ended, sym (append-nil s.sent), λ j. refl)
    where
      ended :
          handle_connection w is_net_error ctx 1 (record { bytes = requests []; status = status }) s
          ≡ (s, closed)
      ended =
          unfold handle_connection in
          rw (handle-eof w is_net_error ctx (record { bytes = []; status = status }) s x e refl, e)
            refl
  connection_serves (c ∷ cs) s x e a l m v o =
      let ((log, logged), more) = l in
      let (s₁, r, sent, here, o₁, m₁, v₁, law) =
        handle_command w ctx c.word c.words (requests cs) status s c.query log x a.0.0 a.0.1 m v o
          logged in
      let (s₂, rest, sent₂, law₂) = connection_serves cs s₁ x e a.1 (rw here more) m₁ v₁ o₁ in
      let next : value s₁.db.st ≡ effect c.query (value s.db.st) = fun_ext law in
      (
        s₂,
        one_round c (suc (length cs)) (requests cs) s s₁ x a.0.0 r ∙ rest,
        sent₂ ∙ rw (next, sent) (append_assoc s.sent _ _),
        λ j. law₂ j ∙ rw next refl,
      )
