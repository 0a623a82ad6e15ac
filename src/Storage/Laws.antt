-- ===== src/Storage/Laws.antt =====
-- The storage as one map from keys to values.
use laguna.Prelude.{
  ◌≡◌, refl, arith, Bytes, [], Option, none, some, Error, ok, err, str_eq, if◌then◌else◌,
}
use laguna.Prelude.Int.{ℤ}
use laguna.Utils.Context.{Ctx}
use laguna.Storage
use laguna.Storage.{Storage, hide_not_found}
use laguna.Storage.Memory.{or_not_found, new_engine, engine_get, engine_set, engine_del}
use laguna.Storage.Memory.Laws

-- What a client can see of the storage: the value of each key.
unfoldable pub value : Storage → Bytes → Option Bytes
value s key = Laws.view s.en.im key

-- The storage has a shard to write to.
abbrev pub IsValid : Storage → Type 0
IsValid s = Laws.IsSharded s.en.im

-- A missing key reads as the empty string.
abbrev pub or_empty : Option Bytes → Bytes
or_empty none = []
or_empty (some v) = v

-- A done context is the answer of every call, and nothing changes.
done_context :
    (ctx : Ctx) (e : Error) (key v : Bytes) (s : Storage)
    → ctx.err ≡ some e
    → (Storage.get ctx key s ≡ (s, err e))
      × (Storage.set ctx key v s ≡ (s, err e))
      × (Storage.delete ctx key s ≡ (s, err e))
unfolding Storage.get Storage.set Storage.delete
done_context ctx e key v s h = (ground arith, ground arith, ground arith)

hide-or_not_found : (o : Option Bytes) → hide_not_found (or_not_found o) ≡ ok (or_empty o)
unfolding hide_not_found
hide-or_not_found none = refl
hide-or_not_found (some v) = refl

-- A read never touches the engine.
pub en-get : (ctx : Ctx) (key : Bytes) (s : Storage) → (Storage.get ctx key s).0.en ≡ s.en
unfolding Storage.get
en-get ctx key s = ground arith

pub get_lem :
    (ctx : Ctx) (key : Bytes) (s : Storage)
    → ctx.err ≡ none
    → IsValid s
    → ((Storage.get ctx key s).1 ≡ ok (or_empty (value s key)))
      × IsValid (Storage.get ctx key s).0
      × ((j : Bytes) → value (Storage.get ctx key s).0 j ≡ value s j)
unfolding Storage.get value engine_get
get_lem ctx key s h v =
    rw (h, Laws.get_key-view s.en.im key v)
      (hide-or_not_found (Laws.view s.en.im key), v, λ j. refl)

pub set_lem :
    (ctx : Ctx) (key v : Bytes) (s : Storage)
    → ctx.err ≡ none
    → IsValid s
    → ((Storage.set ctx key v s).1 ≡ ok tt)
      × IsValid (Storage.set ctx key v s).0
      × ((j : Bytes)
          → value (Storage.set ctx key v s).0 j ≡ (if str_eq key j then some v else value s j))
unfolding Storage.set value engine_set
set_lem ctx key v s h w =
    let (m, e, w', law) = Laws.set_key_lem s.en.im key v w in rw (h, e) (refl, w', law)

pub delete_lem :
    (ctx : Ctx) (key : Bytes) (s : Storage)
    → ctx.err ≡ none
    → IsValid s
    → ((Storage.delete ctx key s).1 ≡ ok tt)
      × IsValid (Storage.delete ctx key s).0
      × ((j : Bytes)
          → value (Storage.delete ctx key s).0 j ≡ (if str_eq key j then none else value s j))
unfolding Storage.delete value engine_del
delete_lem ctx key s h w =
    let (m, e, w', law) = Laws.del_key_lem s.en.im key w in rw (h, e) (refl, w', law)

-- A new storage is valid and holds no value, whatever number of shards is configured.
pub new_lem :
    (shards : ℤ)
    → IsValid (Storage.new (new_engine shards))
      × ((j : Bytes) → value (Storage.new (new_engine shards)) j ≡ none)
unfolding Storage.new value
new_lem shards = Laws.new_engine_lem shards
