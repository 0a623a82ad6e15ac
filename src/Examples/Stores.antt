-- ===== src/Examples/Stores.antt =====
-- A store of three shards, and a database whose log is a list of queries.
use laguna.Prelude.{
  List, [], ◌∷◌, ◌++◌, append-nil, Bytes, codes, none, true, false, ◌≡◌, ◌≢◌, refl, sym, ok, err,
  errors_new,
}
use laguna.Prelude.Int.{pos}
use laguna.Utils.Context.{Ctx, background}
use laguna.Query.{Query, new_query, set_method_id, del_method_id}
use laguna.Query.Builder.Outcome.{IsExecutable}
use laguna.Storage
use laguna.Storage.{Storage}
use laguna.Storage.Memory.{InMemory, Engine, new_engine, set_key, del_key}
use laguna.Storage.Laws.{new_lem}
use laguna.Database.{Wal, Database, execute, log_query, set_in_wal}
use laguna.Database.Exec.{effects}
use laguna.Database.Safety.{slave_is_read_only}
use laguna.Database.Log.{Log}
use laguna.Database.Restore.{IsDurable, Serves}

abbrev three_shards : Engine
three_shards = new_engine (pos 3)

abbrev pub empty_storage : Storage
empty_storage = Storage.new three_shards

abbrev key : Bytes
key = codes "k"

abbrev pub set_command : Query
set_command = new_query set_method_id (key ∷ (codes "v" ∷ []))

abbrev del_command : Query
del_command = new_query del_method_id (key ∷ [])

pub set_command-IsExecutable : IsExecutable set_command
set_command-IsExecutable = IsExecutable.set key (codes "v")

del_command-IsExecutable : IsExecutable del_command
del_command-IsExecutable = IsExecutable.del key []

-- A log that keeps every query in memory.
abbrev pub memory_wal : Wal
memory_wal = record {
  State = List Query;
  Future = Unit {0};
  is_enable = λ s. true;
  write = λ ctx q s. (s ++ (q ∷ []), ok tt);
  response = λ ctx f s. (s, ok none);
  restore_stream = λ s. (s, ok (ok s ∷ []));
}

memory_accepted :
    (ctx : Ctx) (q : Query) (s s' s'' : List Query) (f : Unit {0})
    → memory_wal.write ctx q s ≡ (s', ok f)
    → memory_wal.response ctx f s' ≡ (s'', ok none)
    → s'' ≡ s ++ (q ∷ [])
memory_accepted ctx q s s' s'' f h k = cc (h, k)

abbrev memory_log : Log memory_wal
memory_log = record {
  entries = λ s. s;
  IsGood = λ s. Unit {0};
  Takes = λ q. Unit {0};
  accepted = λ ctx q s s' s'' f g t h k. (tt, memory_accepted ctx q s s' s'' f h k, refl);
  restored = λ s g h. (s, s ∷ [], refl, append-nil s, tt, refl, refl);
}

abbrev pub new_master : Database memory_wal
new_master = record { st = empty_storage; wal = []; is_master = true }

abbrev one_written : Database memory_wal
one_written = (execute memory_wal background set_command new_master).0

new_master-IsDurable : IsDurable memory_wal memory_log new_master
new_master-IsDurable = record {
  on = refl;
  master = refl;
  valid = (new_lem (pos 3)).0;
  good = tt;
  executable = tt;
  replayed = λ j. unfold effects in sym ((new_lem (pos 3)).1 j);
}

set_is_logged :
    log_query memory_wal background set_command new_master
    ≡ (record new_master { wal = set_command ∷ [] }, ok tt)
unfolding log_query
set_is_logged = refl

set_is_answered : (execute memory_wal background set_command new_master).1 ≡ ok (codes "OK")
unfolding execute Storage.set laguna.Storage.Memory.engine_set set_key
    laguna.Storage.Memory.get_shard Storage.new new_engine laguna.Storage.Memory.new_in_memory
    laguna.Storage.Memory.shard_id laguna.Storage.Memory.sum64
set_is_answered = refl

one_request : Serves memory_wal memory_log new_master ((background, set_command) ∷ []) one_written
one_request = Serves.next (codes "OK") refl set_command-IsExecutable tt set_is_answered Serves.here

abbrev new_slave : Database memory_wal
new_slave = record new_master { is_master = false }

slave_is_read_only_example :
    ((execute memory_wal background set_command new_slave).0.st.en ≡ three_shards)
    × (set_method_id ≢ 1
        → (v : Bytes) → (execute memory_wal background set_command new_slave).1 ≢ ok v)
unfolding new_engine Storage.new
slave_is_read_only_example = slave_is_read_only memory_wal background set_command new_slave refl

-- A log that accepts nothing.
abbrev failing_wal : Wal
failing_wal = record memory_wal { write = λ ctx q s. (s, err (errors_new (codes "closed"))) }

abbrev unlogged_master : Database failing_wal
unlogged_master = record { st = empty_storage; wal = []; is_master = true }

set_is_not_logged :
    set_in_wal failing_wal background set_command [] ≡ ([], err (errors_new (codes "closed")))
unfolding set_in_wal
set_is_not_logged = refl
