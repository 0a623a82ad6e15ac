-- ===== src/Storage/Memory.antt =====
-- internal/database/storage/engine: the engine and its map, cut into shards by the hash of the key.
pub mod Laws
use laguna.Prelude.{
  ℕ, zero, suc, ◌+◌, ◌*◌, ◌%◌, ◌^◌, List, [], ◌∷◌, length, get_elem?, set, replicate, Option, none,
  some, Bytes, if◌then◌else◌, Bool, true, false,
}
use laguna.Prelude.{Result, ok, err, fault, index, ◌>>=◌, not_found}
use laguna.Prelude.Map.{str_key, Map, lookup, insert, delete}
use laguna.Prelude.Int.{ℤ, pos, is_nonpositive, to_nat}
use laguna.Utils.Context.{Ctx, get_tx_from_context}
use Prim.Native.Nat.{bit_xor}
use mathlib.Core.List.{foldl}

-- hash/fnv's New64a: the 64-bit FNV-1a hash.
unfoldable pub sum64 : Bytes → ℕ
sum64 = foldl (λ h b. (bit_xor h b * 1099511628211) % 2 ^ 64) 14695981039346656037

-- A shard's lock is held for one operation on its map, so the operations are taken one at a time.
abbrev pub Shard : Type 0
Shard = Map Bytes Bytes

pub record InMemory : Type 0 where
  pub shards : List Shard

unfoldable pub new_in_memory : ℕ → InMemory
new_in_memory s = record { shards = replicate s [] }

unfoldable pub shard_id : InMemory → Bytes → ℕ
shard_id m key = sum64 key % length m.shards

-- The shard of a key; with no shard at all the code panics.
unfoldable pub get_shard : InMemory → Bytes → Result Shard
get_shard m key = index (get_elem? m.shards (shard_id m key))

-- A write through the pointer that `getShard` returns.
abbrev put_shard : InMemory → Bytes → Shard → InMemory
put_shard m key s = record { shards = set m.shards (shard_id m key) s }

unfoldable pub set_key : Bytes → Bytes → InMemory → Result InMemory
set_key key value m = do s ← get_shard m key; ok (put_shard m key (insert key value s))

unfoldable pub get_key : Bytes → InMemory → Result (Option Bytes)
get_key key m = do s ← get_shard m key; ok (lookup key s)

unfoldable pub del_key : Bytes → InMemory → Result InMemory
del_key key m = do s ← get_shard m key; ok (put_shard m key (delete key s))

pub record Engine : Type 0 where
  pub im : InMemory

abbrev pub default_shards : ℕ
default_shards = 100

unfoldable pub new_engine : ℤ → Engine
new_engine shards = record {
  im = new_in_memory (if is_nonpositive shards then default_shards else to_nat shards);
}

abbrev pub or_not_found : Option Bytes → Result Bytes
or_not_found none = err not_found
or_not_found (some v) = ok v

-- The transaction id of the context is only logged.
unfoldable pub engine_set : Ctx → Bytes → Bytes → Engine → Result Engine
engine_set ctx key value e = do im ← set_key key value e.im; ok (record { im = im })

unfoldable pub engine_get : Ctx → Bytes → Engine → Result Bytes
engine_get ctx key e = do v ← get_key key e.im; or_not_found v

unfoldable pub engine_del : Ctx → Bytes → Engine → Result Engine
engine_del ctx key e = do im ← del_key key e.im; ok (record { im = im })
