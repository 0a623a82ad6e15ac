-- ===== src/Storage.antt =====
-- internal/database/storage: the engine behind the checks of the context and the transaction ids.
pub mod Memory
pub mod Laws
use laguna.Prelude.{
  [], ◌>>=◌, ℕ, Bytes, Option, none, some, Error, not_found, Result, ok, err, fault, Bool, true,
  false,
}
use laguna.Utils.IdGenerator
use laguna.Utils.IdGenerator.{Generator}
use laguna.Utils.Context.{Ctx, unless_done, set_tx_in_context}
use laguna.Storage.Memory.{Engine}
use laguna.Storage.Memory

pub record Storage : Type 0 where
  pub tx_gen : Generator
  pub en : Engine

unfoldable pub new : Engine → Storage
new en = record { tx_gen = IdGenerator.new; en = en }

-- `errors.Is(err, inmemory.ErrNotFound)` reads a missing key as the empty string.
unfoldable pub hide_not_found : Result Bytes → Result Bytes
hide_not_found (err not_found) = ok []
hide_not_found r = r

-- The calls that the context lets through: each takes a transaction id first.
abbrev with_tx : Storage → Storage
with_tx s = record s { tx_gen = (IdGenerator.next_id s.tx_gen).0 }

abbrev tx_context : Ctx → Storage → Ctx
tx_context ctx s = set_tx_in_context (some ctx) (IdGenerator.next_id s.tx_gen).1

unfoldable pub get : Ctx → Bytes → Storage → Storage × Result Bytes
get ctx key s =
    unless_done ctx.err s
      (with_tx s, hide_not_found (Memory.engine_get (tx_context ctx s) key s.en))

-- A call of the engine that changes it.
abbrev put_engine : Storage → Result Engine → Storage × Result (Unit {0})
put_engine s (ok en) = (record s { en = en }, ok tt)
put_engine s (err e) = (s, err e)
put_engine s (fault x) = (s, fault x)

unfoldable pub set : Ctx → Bytes → Bytes → Storage → Storage × Result (Unit {0})
set ctx key value s =
    unless_done ctx.err s
      (put_engine (with_tx s) (Memory.engine_set (tx_context ctx s) key value s.en))

unfoldable pub delete : Ctx → Bytes → Storage → Storage × Result (Unit {0})
delete ctx key s =
    unless_done ctx.err s (put_engine (with_tx s) (Memory.engine_del (tx_context ctx s) key s.en))
