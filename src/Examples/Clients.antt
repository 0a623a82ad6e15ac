-- ===== src/Examples/Clients.antt =====
-- A client that sends one line.
use laguna.Prelude.{[], codes, none, refl, eof, ok}
use laguna.Utils.Context.{background}
use laguna.Database.{execute}
use laguna.Handlers.{Input, Server, handle}
use laguna.Handlers.Answers.{Answered, comes_to, handle-Answered}
use laguna.Examples.Stores.{memory_wal, new_master}

abbrev pub server : Server memory_wal
server = record { db = new_master; sent = []; failure = none }

-- A line that sets a key, and more behind it.
abbrev set_line : Input
set_line = record { bytes = codes "SET k v\r\nGET"; status = eof }

handle-Answered_example :
    Answered memory_wal server (ok (codes "OK")) (handle memory_wal background set_line server)
unfolding comes_to execute laguna.Handlers.read_line laguna.Query.Builder.parse
    laguna.Prelude.Text.fields_from laguna.Prelude.Text.drop_blank_end
    laguna.Prelude.Text.drop_spaces laguna.Prelude.Text.trim_right laguna.Prelude.Text.trim_left
    laguna.Prelude.Text.space_width laguna.Prelude.Text.wide_space laguna.Prelude.Text.is_blank
    laguna.Prelude.str_eq laguna.Storage.set laguna.Storage.Memory.engine_set
    laguna.Storage.Memory.set_key laguna.Storage.Memory.get_shard laguna.Storage.new
    laguna.Storage.Memory.new_engine laguna.Storage.Memory.new_in_memory
    laguna.Storage.Memory.shard_id laguna.Storage.Memory.sum64
handle-Answered_example = handle-Answered memory_wal background set_line server refl refl
