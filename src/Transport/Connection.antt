-- ===== src/Transport/Connection.antt =====
-- internal/transport/tcp/listener.go: handleConnection, the loop over the requests of one connection.
pub mod Session
pub mod Ending
use laguna.Prelude.{
  ℕ, zero, suc, List, [], ◌∷◌, Bytes, Bool, true, false, Option, none, some, ◌==◌, if◌then◌else◌,
  Error, Fault, blocked_forever, Result, ok, err, fault,
}
use laguna.Utils.Context.{Ctx}
use laguna.Database.{Wal}
use laguna.Handlers.{Input, is_eof_error, Server, handle}

-- How the loop stands: it goes on; it has ended, and the deferred function has released the semaphore
-- and closed the connection; or a call of the handler never returns.
pub data Loop : Type 0 where
  looping closed blocked : Loop

-- The bytes behind the first line feed.
unfoldable pub after_line : Bytes → Bytes
after_line [] = []
after_line (b ∷ bs) = if b == 10 then bs else after_line bs

-- What a call of the handler leaves of the input: the buffered reader of the connection is shared by all
-- calls, and a call whose context is done does not read.
abbrev pub left_over : Option Error → Input → Input
left_over none input = record input { bytes = after_line input.bytes }
left_over (some e) input = input

-- `is_net_error` is errors.As for a *net.OpError.
module _ (w : Wal) (is_net_error : Error → Bool) (ctx : Ctx) where
  -- io.EOF and errors of the network end the loop, and so does a panic, which is recovered.
  abbrev pub on_return :
      Server w × Result (Unit {0}) → (Server w → Server w × Loop) → Server w × Loop
  on_return (s, ok _) next = next s
  on_return (s, err e) next =
      if is_eof_error e then (s, closed) else if is_net_error e then (s, closed) else next s
  on_return (s, fault blocked_forever) next = (s, blocked)
  on_return (s, fault _) next = (s, closed)

  -- The loop, for a number of rounds.
  unfoldable pub handle_connection : ℕ → Input → Server w → Server w × Loop
  handle_connection zero input s = (s, looping)
  handle_connection (suc n) input s =
      on_return (handle w ctx input s) λ s'. handle_connection n (left_over ctx.err input) s'
