-- ===== src/Transport/Client.antt =====
-- internal/transport/tcp/client.go: a client that connects again when a write fails.
pub mod Sending
pub mod Program
use laguna.Prelude.{
  ℕ, Bytes, Option, none, some, Error, Result, ok, err, fault, Fault, nil_pointer, ◌>>>◌,
}
use laguna.Prelude.Int.{ℤ, pos, negsuc}
use laguna.Utils.Context.{Ctx, unless_done}
use laguna.Utils.Retry.{Waits, with_retry}

abbrev pub default_resp_size : ℤ
default_resp_size = pos 4096

-- Durations are in nanoseconds.
abbrev pub default_deadline : ℤ
default_deadline = pos 5000000000

abbrev pub default_retry_count : ℤ
default_retry_count = pos 3

-- config.Client
pub record ClientConf : Type 0 where
  pub address : Bytes
  pub max_resp_size : ℤ
  pub deadline : ℤ
  pub retry_count : ℤ

-- What stands for a 0.
abbrev pub or_default : ℤ → ℤ → ℤ
or_default (pos ℕ.zero) d = d
or_default (pos (ℕ.suc n)) d = pos (ℕ.suc n)
or_default (negsuc n) d = negsuc n

-- The network: net.Dial, and SetDeadline and Write of a connection, on what they change.
module _ (N : Type 0) (Connection : Type 0) (dial : Bytes → N → N × Result Connection)
    (set_deadline : Connection → ℤ → N → N × Result (Unit {0}))
    (write : Connection → Bytes → N → N × Result (Unit {0})) where
  -- The client, with the network.
  pub record Client : Type 0 where
    pub conn : Option Connection
    pub address : Bytes
    pub resp_size : ℤ
    pub deadline : ℤ
    pub retry_count : ℤ
    pub net : N

  abbrev on_net : {A : Type 0} → Client → N × Result A → Client × Result A
  on_net c p = (record c { net = p.0 }, p.1)

  -- `setConn`
  unfoldable pub set_conn : Client → Client × Result (Unit {0})
  set_conn c = on_net c (dial c.address c.net) >>> λ conn c₁.
      on_net c₁ (set_deadline conn c₁.deadline c₁.net) >>> λ _ c₂.
      (record c₂ { conn = some conn }, ok tt)

  -- NewClient
  unfoldable pub new_client : ClientConf → N → Client × Result (Unit {0})
  unfolding set_conn
  new_client conf n = set_conn (record {
    conn = none;
    address = conf.address;
    resp_size = or_default conf.max_resp_size default_resp_size;
    deadline = or_default conf.deadline default_deadline;
    retry_count = or_default conf.retry_count default_retry_count;
    net = n;
  })

  abbrev write_to_conn : Option Connection → Bytes → Client → Client × Result (Unit {0})
  write_to_conn none req c = (c, fault nil_pointer)
  write_to_conn (some conn) req c = on_net c (write conn req c.net)

  -- `send`
  unfoldable pub send_once : Bytes → Client → Client × Result (Unit {0})
  send_once req c = write_to_conn c.conn req c

  -- Behind a write: its error leads to a new connection, whose error is returned.
  abbrev pub or_reconnect : Client × Result (Unit {0}) → Client × Result (Unit {0})
  or_reconnect (c, ok _) = (c, ok tt)
  or_reconnect (c, err e) = set_conn c
  or_reconnect (c, fault x) = (c, fault x)

  -- The function that `Send` retries.
  abbrev pub attempt : Bytes → Client → Client × Result (Unit {0})
  attempt req c = or_reconnect (send_once req c)

  abbrev pub answer_conn : Option Connection → Client → Client × Result Connection
  answer_conn none c = (c, fault nil_pointer)
  answer_conn (some conn) c = (c, ok conn)

  -- `Send`
  unfoldable pub send : Ctx → Waits → Bytes → Client → Client × Result Connection
  send ctx waits req c = unless_done ctx.err c (
      with_retry c.retry_count (pos 200000000) waits (some (attempt req)) c >>> λ _ c'.
      answer_conn c'.conn c')
