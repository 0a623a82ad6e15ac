-- ===== src/Examples/Terminals.antt =====
-- The terminal and the client program.
use laguna.Prelude.{
  ◌≡◌, refl, List, [], ◌∷◌, Bytes, codes, Bool, false, none, some, Error, eof, Result, err,
}
use laguna.Prelude.Int.{pos}
use laguna.Utils.Context.{background}
use laguna.Transport.Client.Program.{Session, running, client_loop, end_repeats, Attempt}
use laguna.Handlers.Lines.{IsOneLine}
use laguna.Terminal.{listening, Round, prompted, listen}
use laguna.Terminal.Loss.{behind_line_lost, delivers, at_end, end_spins}
use laguna.Examples.Stores.{memory_wal}
use laguna.Examples.Clients.{server}
use laguna.Examples.Programs.{dial_one, no_deadline, write_all}

abbrev two_rounds : List Round
two_rounds = (none, background) ∷ ((none, background) ∷ [])

get_line-IsOneLine : IsOneLine (codes "GET k")
get_line-IsOneLine = (refl, (refl, (refl, (refl, (refl, tt)))))

behind_line_lost_example :
    listen memory_wal two_rounds (delivers (codes "GET k") (codes "SET k v") [] eof) server
    ≡ listen memory_wal two_rounds (delivers (codes "GET k") [] [] eof) server
behind_line_lost_example =
    behind_line_lost memory_wal two_rounds (codes "GET k") (codes "SET k v") [] eof server
      get_line-IsOneLine

end_spins_example :
    listen memory_wal two_rounds at_end server
    ≡ (prompted memory_wal server.failure server, listening)
end_spins_example = end_spins memory_wal two_rounds server ((refl, refl), ((refl, refl), tt))

abbrev receive_nothing : Unit {0} → Unit {0} → Unit {0} × Result Bytes
receive_nothing conn n = (n, err eof)

abbrev no_pipe_error : Error → Bool
no_pipe_error e = false

abbrev waiting_session :
    Session (Unit {0}) (Unit {0}) dial_one no_deadline write_all receive_nothing no_pipe_error
waiting_session = record {
  client = record {
    conn = some tt;
    address = [];
    resp_size = pos 0;
    deadline = pos 0;
    retry_count = pos 3;
    net = tt;
  };
  input = [];
  status = eof;
  out = [];
}

abbrev two_attempts : List Attempt
two_attempts = (background, λ i. none) ∷ ((background, λ i. none) ∷ [])

end_repeats_example :
    client_loop
      (Unit {0})
      (Unit {0})
      dial_one
      no_deadline
      write_all
      receive_nothing
      no_pipe_error
      two_attempts
      waiting_session
    ≡ (record waiting_session { input = []; out = codes "> EOF> EOF" }, running)
end_repeats_example =
    end_repeats (Unit {0}) (Unit {0}) dial_one no_deadline write_all receive_nothing no_pipe_error
      two_attempts waiting_session refl refl
