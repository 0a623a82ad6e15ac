-- ===== src/Transport/Client/Sending.antt =====
-- What becomes of a request.
use laguna.Prelude.{◌≡◌, refl, Bytes, none, some, Error, Result, ok, err}
use laguna.Prelude.Int.{ℤ, pos}
use laguna.Utils.Context.{Ctx}
use laguna.Utils.Retry.{Waits}
use laguna.Utils.Retry.Laws.{with_retry_first}
use laguna.Transport.Client.{Client, set_conn, send_once, attempt, send}

module _ (N : Type 0) (Connection : Type 0) (dial : Bytes → N → N × Result Connection)
    (set_deadline : Connection → ℤ → N → N × Result (Unit {0}))
    (write : Connection → Bytes → N → N × Result (Unit {0})) (ctx : Ctx) (waits : Waits)
    (req : Bytes) (c : Client N Connection dial set_deadline write) where
  first_attempt :
      (c' : Client N Connection dial set_deadline write) (conn : Connection)
      → ctx.err ≡ none
      → attempt N Connection dial set_deadline write req c ≡ (c', ok tt)
      → c'.conn ≡ some conn
      → send N Connection dial set_deadline write ctx waits req c ≡ (c', ok conn)
  unfolding send
  first_attempt c' conn x h k =
      let once =
        with_retry_first c.retry_count (pos 200000000) waits
          (attempt N Connection dial set_deadline write req) c c' tt h in
      simp (x, once, k)

  -- Where the write of a request fails, and the client connects again, `Send` returns no error and the
  -- new connection, in the network as dialling and setting the deadline have left it: the request is not
  -- written to the new connection.
  pub send_reconnects :
      (old conn : Connection) (e : Error) (n₁ n₂ n₃ : N)
      → ctx.err ≡ none
      → c.conn ≡ some old
      → write old req c.net ≡ (n₁, err e)
      → dial c.address n₁ ≡ (n₂, ok conn)
      → set_deadline conn c.deadline n₂ ≡ (n₃, ok tt)
      → send N Connection dial set_deadline write ctx waits req c
        ≡ (record c { conn = some conn; net = n₃ }, ok conn)
  send_reconnects old conn e n₁ n₂ n₃ x k a b d =
      first_attempt (record c { conn = some conn; net = n₃ }) conn x reconnected refl
    where
      reconnected :
          attempt N Connection dial set_deadline write req c
          ≡ (record c { conn = some conn; net = n₃ }, ok tt)
      reconnected = unfold send_once set_conn in simp (k, a, b, d)
