-- ===== src/Transport/Client/Program.antt =====
-- client/client.go: the program that sends the lines of its input, and prints the first line of what comes
-- back for each.
use laguna.Prelude.{
  ◌≡◌, refl, ap, ◌∙◌, List, [], ◌∷◌, ◌++◌, append_assoc, append-nil, Bytes, codes, Bool, Error, eof,
  error_text, Result, ok, err, fault, if◌then◌else◌,
}
use laguna.Prelude.Int.{ℤ}
use laguna.Utils.Context.{Ctx}
use laguna.Utils.Retry.{Waits}
use laguna.Handlers.{read_line}
use laguna.Transport.Connection.{after_line}
use laguna.Transport.Client.{Client, send}

-- How the loop stands: it goes on, it has ended, or a call did not return.
pub data Looping : Type 0 where
  running ended broken : Looping

-- The context and the waits of a call of `Send`.
abbrev pub Attempt : Type 0
Attempt = Ctx × Waits

module _ (N : Type 0) (Connection : Type 0) (dial : Bytes → N → N × Result Connection)
    (set_deadline : Connection → ℤ → N → N × Result (Unit {0}))
    (write : Connection → Bytes → N → N × Result (Unit {0}))
    (receive : Connection → N → N × Result Bytes) (is_pipe_error : Error → Bool) where
  -- The client, what is left of the standard input and the error behind it, and what was printed. The
  -- buffered reader of the input is shared by all rounds, since bufio.NewReader returns a reader
  -- that is buffered already. Writing to the standard output is taken not to fail.
  pub record Session : Type 0 where
    pub client : Client N Connection dial set_deadline write
    pub input : Bytes
    pub status : Error
    pub out : Bytes

  -- `write` and `writeError`
  abbrev pub print : Bytes → Session → Session
  print text s = record s { out = s.out ++ text }

  abbrev pub print_error : Error → Session → Session
  print_error e s = print (error_text e) s

  -- The answer is read from the connection by a new buffered reader: `receive` is what its ReadBytes
  -- returns.
  abbrev answered : Session → N × Result Bytes → Session × Looping
  answered s (n, ok line) =
      (print line (record s { client = record s.client { net = n } }), running)
  answered s (n, err e) =
      (print_error e (record s { client = record s.client { net = n } }), running)
  answered s (n, fault x) = (record s { client = record s.client { net = n } }, broken)

  abbrev on_sent :
      Session → Client N Connection dial set_deadline write × Result Connection → Session × Looping
  on_sent s (c, ok conn) = answered (record s { client = c }) (receive conn c.net)
  on_sent s (c, err e) =
      if is_pipe_error e
      then (record s { client = c }, ended)
      else (print_error e (record s { client = c }), running)
  on_sent s (c, fault x) = (record s { client = c }, broken)

  -- Behind the reading of a line; an error has taken all that was left.
  abbrev on_line : Attempt → Session → Result Bytes → Session × Looping
  on_line (ctx, waits) s (ok line) =
      on_sent (record s { input = after_line s.input })
        (send N Connection dial set_deadline write ctx waits line s.client)
  on_line (ctx, waits) s (err e) = (print_error e (record s { input = [] }), running)
  on_line (ctx, waits) s (fault x) = (s, broken)

  unfoldable pub client_round : Attempt → Session → Session × Looping
  client_round a s = let s₁ = print (codes "> ") s in on_line a s₁ (read_line s₁.input s₁.status)

  abbrev pub go_on : Session × Looping → (Session → Session × Looping) → Session × Looping
  go_on (s, running) next = next s
  go_on (s, ended) next = (s, ended)
  go_on (s, broken) next = (s, broken)

  -- The loop of `main`.
  unfoldable pub client_loop : List Attempt → Session → Session × Looping
  client_loop [] s = (s, running)
  client_loop (a ∷ rest) s = go_on (client_round a s) λ s'. client_loop rest s'

  -- What the rounds behind the end of the input print.
  abbrev pub noise : List Attempt → Bytes
  noise [] = []
  noise (a ∷ rest) = codes "> EOF" ++ noise rest

  end_round :
      (a : Attempt) (s : Session)
      → s.input ≡ []
      → s.status ≡ eof
      → client_round a s ≡ (record s { input = []; out = s.out ++ codes "> EOF" }, running)
  unfolding client_round read_line error_text
  end_round a s i e = rw (i, e, append_assoc s.out (codes "> ") (codes "EOF")) refl

  -- At the end of its input the client neither ends nor sends: each further round, whether its context
  -- is done or not, prints the prompt and the text of the error once more.
  pub end_repeats :
      (attempts : List Attempt) (s : Session)
      → s.input ≡ []
      → s.status ≡ eof
      → client_loop attempts s ≡ (record s { input = []; out = s.out ++ noise attempts }, running)
  unfolding client_loop
  end_repeats [] s i e = rw append-nil (ap (λ (t : Bytes). (record s { input = t }, running)) i)
  end_repeats (a ∷ rest) s i e = rw (end_round a s i e) (
      end_repeats rest (record s { input = []; out = s.out ++ codes "> EOF" }) refl e
      ∙ rw (append_assoc s.out (codes "> EOF") (noise rest)) refl)
