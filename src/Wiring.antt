-- ===== src/Wiring.antt =====
-- internal/config/config.go, and the choices that the program makes by its configuration.
pub mod Log
pub mod Start
pub mod Roles
pub mod Defaults
pub mod Durable
pub mod Restart
use laguna.Prelude.{ℕ, [], Bytes, codes, str_eq, Bool, false, Result, ok, err, ◌>>=◌, if◌then◌else◌}
use laguna.Prelude.Int.{ℤ, pos}
use laguna.Storage.Memory
use laguna.Transport.Client.{ClientConf}
use laguna.Transport.Listener.{TcpConf, TcpListener, new_listener}

-- Durations are in nanoseconds. A segment's size is taken not to be negative.
pub record EngineConf : Type 0 where
  pub type_name : Bytes
  pub shards : ℤ

pub record LoggerConf : Type 0 where
  pub level : Bytes
  pub out : Bytes
  pub disable_stacktrace : Bool

pub record TransportConf : Type 0 where
  pub type_name : Bytes
  pub sever : TcpConf

pub record WalConf : Type 0 where
  pub enable : Bool
  pub flush_interval : ℤ
  pub flush_batch_size : ℤ
  pub max_segment_size : ℕ
  pub directory : Bytes

pub record ReplicationConf : Type 0 where
  pub enable : Bool
  pub is_master : Bool
  pub sync_interval : ℤ
  pub client : ClientConf
  pub server : TcpConf

pub record ProfilerConf : Type 0 where
  pub enable : Bool
  pub address : Bytes

pub record Config : Type 0 where
  pub engine : EngineConf
  pub logger : LoggerConf
  pub transport : TransportConf
  pub wal : WalConf
  pub replication : ReplicationConf
  pub profiler : ProfilerConf

abbrev pub zero_tcp : TcpConf
zero_tcp = record {
  address = [];
  max_conn = pos 0;
  max_message_size = pos 0;
  idle_timeout = pos 0;
  sem_wait_timeout = pos 0;
}

abbrev pub zero_client : ClientConf
zero_client = record { address = []; max_resp_size = pos 0; deadline = pos 0; retry_count = pos 0 }

-- `var config Config`: what stands for every key that a file leaves out.
abbrev pub zero_config : Config
zero_config = record {
  engine = record { type_name = []; shards = pos 0 };
  logger = record { level = []; out = []; disable_stacktrace = false };
  transport = record { type_name = []; sever = zero_tcp };
  wal = record {
    enable = false;
    flush_interval = pos 0;
    flush_batch_size = pos 0;
    max_segment_size = 0;
    directory = [];
  };
  replication = record {
    enable = false;
    is_master = false;
    sync_interval = pos 0;
    client = zero_client;
    server = zero_tcp;
  };
  profiler = record { enable = false; address = [] };
}

-- NewConfig, over the reading of a file and yaml.Unmarshal into a value; an error is log.Fatalf, which
-- ends the program.
unfoldable pub new_config :
    (Bytes → Result Bytes) → (Bytes → Config → Result Config) → Bytes → Result Config
new_config read_file unmarshal name =
    read_file name >>= λ bytes. unmarshal bytes zero_config >>= λ config. ok config

-- engine.NewEngine: every type is the engine in memory.
unfoldable pub new_engine : EngineConf → Memory.Engine
new_engine c =
    if str_eq c.type_name (codes "inmemory")
    then Memory.new_engine c.shards
    else Memory.new_engine c.shards

-- The listeners that transport.NewListener chooses from.
pub data Listener : Type 0 where
  tcp : TcpListener → Listener
  cli : Listener

unfoldable pub new_listener_of : TransportConf → Result Listener
new_listener_of c =
    if str_eq c.type_name (codes "tcp")
    then (new_listener c.sever >>= λ l. ok (tcp l))
    else if str_eq c.type_name (codes "cli")
    then ok cli
    else ok cli
