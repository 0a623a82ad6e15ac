-- ===== src/Handlers.antt =====
-- internal/handlers/handlers.go: a line of a client through the builder and the database, and the
-- answer.
pub mod Answers
pub mod Lines
use laguna.Prelude.{
  List, [], ◌∷◌, ◌++◌, Bytes, Bool, true, false, Option, none, some, Error, eof, wrapped,
  error_text, Result, ok, err, fault, ◌==◌, if◌then◌else◌, ◌>>=◌,
}
use laguna.Utils.Context.{Ctx, unless_done}
use laguna.Query.Builder.{parse}
use laguna.Database.{Wal, Database, execute}

-- What a connection delivers: bytes, and then an error.
pub record Input : Type 0 where
  pub bytes : Bytes
  pub status : Error

abbrev with_front : Bytes → Result Bytes → Result Bytes
with_front bytes r = r >>= λ rest. ok (bytes ++ rest)

-- ReadBytes('\n'): the bytes up to the first line feed, or the error if there is none.
unfoldable pub read_line : Bytes → Error → Result Bytes
read_line [] status = err status
read_line (b ∷ bs) status =
    if b == 10 then ok (b ∷ []) else with_front (b ∷ []) (read_line bs status)

-- errors.Is(err, io.EOF)
unfoldable pub is_eof_error : Error → Bool
is_eof_error eof = true
is_eof_error (wrapped text e) = is_eof_error e
is_eof_error _ = false

module _ (w : Wal) where
  -- The database, what was sent to the client, and the error with which the connection refuses what
  -- is sent, if it does. The error of a buffered writer stays.
  pub record Server : Type 0 where
    pub db : Database w
    pub sent : Bytes
    pub failure : Option Error

  abbrev sent_line : Option Error → Bytes → Server → Server × Result (Unit {0})
  sent_line none text s = (record s { sent = s.sent ++ (text ++ (10 ∷ [])) }, ok tt)
  sent_line (some e) text s = (s, err e)

  unfoldable pub write_line : Bytes → Server → Server × Result (Unit {0})
  write_line text s = sent_line s.failure text s

  -- `writeError`
  unfoldable pub write_error : Error → Server → Server × Result (Unit {0})
  unfolding write_line is_eof_error
  write_error e s = if is_eof_error e then (s, err e) else write_line (error_text e) s

  -- A call, and what follows it; its error is answered.
  abbrev pub or_answer {ℓ} :
      {A : Type ℓ}
      → Server × Result A
      → (A → Server → Server × Result (Unit {0}))
      → Server × Result (Unit {0})
  or_answer (s, ok a) next = next a s
  or_answer (s, err e) next = write_error e s
  or_answer (s, fault x) next = (s, fault x)

  abbrev pub execute_on : Ctx → Server → Database w × Result Bytes → Server × Result Bytes
  execute_on ctx s p = (record s { db = p.0 }, p.1)

  -- UniversalHandler.Handle
  unfoldable pub handle : Ctx → Input → Server → Server × Result (Unit {0})
  handle ctx input s = unless_done ctx.err s (
      or_answer (s, read_line input.bytes input.status)
        λ line s₁.
          or_answer (s₁, parse line)
            λ q s₂.
              or_answer (execute_on ctx s₂ (execute w ctx q s₂.db))
                λ v s₃. or_answer (write_line v s₃) λ _ s₄. (s₄, ok tt))
