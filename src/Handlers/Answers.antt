-- ===== src/Handlers/Answers.antt =====
-- What is sent to a client for its request.
use laguna.Prelude.{
  ◌>>=◌, false, Option, none, some, ◌≡◌, refl, ap, [], ◌∷◌, ◌++◌, Bytes, true, inl, inr, Error,
  error_text, Result, ok, err, fault, Fault, Bool-cases,
}
use laguna.Utils.Context.{Ctx, unless_done}
use laguna.Query.Builder.{parse}
use laguna.Database.{Wal, Database, execute}
use laguna.Handlers.{
  Input, read_line, is_eof_error, Server, write_line, write_error, or_answer, execute_on, handle,
}

module _ (w : Wal) where
  -- What a request comes to: its line, the query of the line, and the answer of the database.
  unfoldable pub comes_to : Ctx → Input → Database w → Result Bytes
  comes_to ctx input db =
      read_line input.bytes input.status >>= λ line. parse line >>= λ q. (execute w ctx q db).1

  -- A value was sent as one line, or the text of an error was; or nothing was sent, where the error is an
  -- end of file and is returned; or the call panics or never returns, and nothing was sent.
  pub data Answered (s : Server w) : Result Bytes → Server w × Result (Unit {0}) → Type 0 where
    value_line :
        {s' : Server w} (v : Bytes)
        → s'.sent ≡ s.sent ++ (v ++ (10 ∷ []))
        → Answered s (ok v) (s', ok tt)
    error_line :
        {s' : Server w} (e : Error)
        → is_eof_error e ≡ false
        → s'.sent ≡ s.sent ++ (error_text e ++ (10 ∷ []))
        → Answered s (err e) (s', ok tt)
    closed :
        {s' : Server w} (e : Error)
        → is_eof_error e ≡ true
        → s'.sent ≡ s.sent
        → Answered s (err e) (s', err e)
    stuck : {s' : Server w} (x : Fault) → s'.sent ≡ s.sent → Answered s (fault x) (s', fault x)

  -- What the calls in front of the answer keep.
  abbrev Open : Server w → Server w → Type 0
  Open s s' = (s'.sent ≡ s.sent) × (s'.failure ≡ none)

  error-Answered :
      (s s' : Server w) (e : Error) → Open s s' → Answered s (err e) (write_error w e s')
  unfolding write_error write_line
  error-Answered s s' e (k, o) = elim (Bool-cases (is_eof_error e)) [
    | inl h ↦ rw h (Answered.closed e h k)
    | inr h ↦ rw (h, o) (Answered.error_line e h (ap (λ t. t ++ (error_text e ++ (10 ∷ []))) k))
  ]

  or_answer-Answered {ℓ} :
      {A : Type ℓ} (s : Server w) (p : Server w × Result A)
      (next : A → Server w → Server w × Result (Unit {0})) (result : A → Result Bytes)
      → Open s p.0
      → ((a : A) → Answered s (result a) (next a p.0))
      → Answered s (p.1 >>= result) (or_answer w p next)
  or_answer-Answered s (s', ok a) next result o h = h a
  or_answer-Answered s (s', err e) next result o h = error-Answered s s' e o
  or_answer-Answered s (s', fault x) next result o h = Answered.stuck x o.0

  value-Answered :
      (s s' : Server w) (v : Bytes)
      → Open s s'
      → Answered s (ok v) (or_answer w (write_line w v s') λ _ s₄. (s₄, ok tt))
  unfolding write_line
  value-Answered s s' v (k, o) = rw o (Answered.value_line v (ap (λ t. t ++ (v ++ (10 ∷ []))) k))

  open-Answered :
      (s : Server w) (r : Result Bytes) (o : Option Error) (p : Server w × Result (Unit {0}))
      → o ≡ none
      → Answered s r p
      → Answered s r (unless_done o s p)
  open-Answered s r none p h a = a
  open-Answered s r (some e) p h a = absurd (cc h)

  executed-Answered :
      (s : Server w) (p : Database w × Result Bytes) (ctx : Ctx)
      → s.failure ≡ none
      → Answered s p.1 (
          or_answer w
            (execute_on w ctx s p)
            λ v s₃. or_answer w (write_line w v s₃) λ _ s₄. (s₄, ok tt))
  executed-Answered s (db, ok v) ctx o = value-Answered s (record s { db = db }) v (refl, o)
  executed-Answered s (db, err e) ctx o = error-Answered s (record s { db = db }) e (refl, o)
  executed-Answered s (db, fault x) ctx o = Answered.stuck x refl

  -- While the connection takes what is sent to it and the context is not done, a request, whatever its
  -- bytes, is answered by what it comes to: the value that the database returns, or the text of the
  -- error of the line, of the builder or of the database, is sent with one line feed behind it, and
  -- nothing else is; or nothing is sent, where the error is an end of file, which is returned, or where
  -- the call panics or never returns.
  pub handle-Answered :
      (ctx : Ctx) (input : Input) (s : Server w)
      → ctx.err ≡ none
      → s.failure ≡ none
      → Answered s (comes_to ctx input s.db) (handle w ctx input s)
  unfolding handle comes_to
  handle-Answered ctx input s c o = open-Answered s _ ctx.err _ c (
      or_answer-Answered s (s, read_line input.bytes input.status) _ _ (refl, o)
        λ l.
          or_answer-Answered s (s, parse l) _ _ (refl, o)
            λ q. executed-Answered s (execute w ctx q s.db) ctx o)
