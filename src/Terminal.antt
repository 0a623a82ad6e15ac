-- ===== src/Terminal.antt =====
-- internal/transport/cli/listener.go: the loop over the terminal.
pub mod Loss
use laguna.Prelude.{
  ℕ, List, [], ◌∷◌, ◌++◌, Bytes, codes, Bool, true, false, ◌==◌, ◌||◌, if◌then◌else◌, Option, none,
  some, Error, Result, ok, err, fault, Fault, blocked_forever,
}
use laguna.Utils.Context.{Ctx}
use laguna.Database.{Wal}
use laguna.Handlers.{Input, Server, handle}

-- The standard input: what each read of it delivers, and then an error.
pub record Stdin : Type 0 where
  pub chunks : List Bytes
  pub status : Error

unfoldable pub has_line_feed : Bytes → Bool
has_line_feed [] = false
has_line_feed (b ∷ bs) = b == 10 || has_line_feed bs

-- What one buffered reader reads until it has a line, and what it leaves to the next.
unfoldable pub gather : List Bytes → Bytes × List Bytes
gather [] = ([], [])
gather (c ∷ cs) =
    let (bytes, rest) = gather cs in if has_line_feed c then (c, cs) else (c ++ bytes, rest)

-- The loop goes on; it has ended with its context; a panic has ended the program; or a call of the handler
-- never returns.
pub data Listening : Type 0 where
  listening stopped crashed blocked : Listening

-- A round: what the loop finds of its context, and the context that the handler finds.
abbrev pub Round : Type 0
Round = Option Error × Ctx

-- Every call of the handler makes a new buffered reader, and drops it with what it holds behind the line; a
-- call whose context is done does not read.
abbrev pub read_by : Option Error → Stdin → Stdin
read_by none input = record input { chunks = (gather input.chunks).1 }
read_by (some e) input = input

abbrev pub gathered : Stdin → Input
gathered input = record { bytes = (gather input.chunks).0; status = input.status }

module _ (w : Wal) where
  -- The prompt.
  abbrev pub prompted : Option Error → Server w → Server w
  prompted none s = record s { sent = s.sent ++ codes "laguna db > " }
  prompted (some e) s = s

  -- An error of the handler is only logged.
  abbrev pub on_handled :
      Server w × Result (Unit {0}) → (Server w → Server w × Listening) → Server w × Listening
  on_handled (s, ok _) next = next s
  on_handled (s, err e) next = next s
  on_handled (s, fault blocked_forever) next = (s, blocked)
  on_handled (s, fault _) next = (s, crashed)

  abbrev pub unless_stopped : Option Error → Server w → Server w × Listening → Server w × Listening
  unless_stopped (some e) s rest = (s, stopped)
  unless_stopped none s rest = rest

  unfoldable pub listen_loop : List Round → Stdin → Server w → Server w × Listening
  listen_loop [] input s = (s, listening)
  listen_loop ((found, ctx) ∷ rounds) input s = unless_stopped found s (
      on_handled (handle w ctx (gathered input) s)
        λ s'. listen_loop rounds (read_by ctx.err input) s')

  -- `listen`
  unfoldable pub listen : List Round → Stdin → Server w → Server w × Listening
  unfolding listen_loop
  listen rounds input s = listen_loop rounds input (prompted s.failure s)
