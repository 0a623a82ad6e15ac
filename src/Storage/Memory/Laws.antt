-- ===== src/Storage/Memory/Laws.antt =====
-- The sharded map is one map: what each operation does to the value of every key.
use laguna.Prelude.{
  ℕ, zero, suc, ◌<◌, ◌≡◌, refl, ap, ◌∙◌, arith, [], length, get_elem?, set, Option, none, some,
  Bytes, if◌then◌else◌,
}
use laguna.Prelude.{
  ok, str_eq, str_eq_iff, length-set, length-replicate, get_elem?_total, get_elem?-set_self,
  get_elem?-set_ne, get_elem?-replicate, Bool-cases, inl, inr, true, false,
}
use laguna.Prelude.Map.{str_key, lookup, insert, delete, lookup-insert, lookup-delete}
use laguna.Prelude.Int.{ℤ, pos, negsuc}
use laguna.Storage.Memory.{
  Shard, InMemory, new_in_memory, shard_id, get_shard, set_key, get_key, del_key, new_engine,
}
use native.Mathlib.Decide.{ℕ_discrete}

-- There is a shard.
pub record IsSharded (m : InMemory) : Type 0 where
  pub some_shard : 0 < length m.shards

shard_id-lt : (m : InMemory) (key : Bytes) → IsSharded m → shard_id m key < length m.shards
unfolding shard_id
shard_id-lt m key v = omega arith

abbrev in_shard : Option Shard → Bytes → Option Bytes
in_shard none key = none
in_shard (some s) key = lookup key s

-- The value of a key, as an abstract map: what its shard holds.
unfoldable pub view : InMemory → Bytes → Option Bytes
view m key = in_shard (get_elem? m.shards (shard_id m key)) key

module _ (m : InMemory) (key j : Bytes) (s s' : Shard) (v : IsSharded m)
    (at_key : get_elem? m.shards (shard_id m key) ≡ some s) where
  abbrev written : InMemory
  written = record { shards = set m.shards (shard_id m key) s' }

  shard_id-written : shard_id written j ≡ shard_id m j
  unfolding shard_id
  shard_id-written = rw length-set

  -- A new shard for `key` changes the values of its keys only.
  view-written :
      (str_eq key j ≡ false → lookup j s' ≡ lookup j s)
      → view written j ≡ (if str_eq key j then lookup j s' else view m j)
  unfolding view
  view-written other = elim (ℕ_discrete (shard_id m key) (shard_id m j)) [
    | yes e ↦
        let here : get_elem? (set m.shards (shard_id m key) s') (shard_id m j) ≡ some s' =
          rw (← e) (get_elem?-set_self m.shards (shard_id m key) s' (shard_id-lt m key v)) in
        let before : get_elem? m.shards (shard_id m j) ≡ some s = rw (← e) at_key in
        rw (shard_id-written, here, before)
          (elim (Bool-cases (str_eq key j)) [ inl q ↦ rw q | inr q ↦ rw q (other q) ])
    | no ne ↦
        let there = get_elem?-set_ne m.shards (shard_id m key) (shard_id m j) s' ne in
        let apart : str_eq key j ≡ true → ⊥ = λ q. ne (ap (shard_id m) ((str_eq_iff key j).0 q)) in
        rw (shard_id-written, there)
          (elim (Bool-cases (str_eq key j)) [ inl q ↦ absurd (apart q) | inr q ↦ rw q ])
  ]

  IsSharded-written : IsSharded written
  IsSharded-written = record { some_shard = rw length-set v.some_shard }

get_shard_total :
    (m : InMemory) (key : Bytes)
    → IsSharded m
    → (s : Shard) × (get_elem? m.shards (shard_id m key) ≡ some s)
get_shard_total m key v = get_elem?_total m.shards (shard_id m key) (shard_id-lt m key v)

-- `Get` returns the view, and does not panic.
pub get_key-view : (m : InMemory) (key : Bytes) → IsSharded m → get_key key m ≡ ok (view m key)
unfolding get_key get_shard view
get_key-view m key v = let (s, e) = get_shard_total m key v in rw e

-- `Set` succeeds, keeps the shards, gives the key its value and leaves every other key its own.
pub set_key_lem :
    (m : InMemory) (key value : Bytes)
    → IsSharded m
    → (m' : InMemory) × (set_key key value m ≡ ok m')
      × IsSharded m'
      × ((j : Bytes) → view m' j ≡ (if str_eq key j then some value else view m j))
unfolding set_key get_shard
set_key_lem m key value v =
    let (s, e) = get_shard_total m key v in
    let s' = insert key value s in
    (
      written m key key s s' v e,
      rw e,
      IsSharded-written m key key s s' v e,
      λ j.
          view-written m key j s s' v e (λ q. lookup-insert key j value s ∙ rw q)
          ∙ elim (Bool-cases (str_eq key j)) [
            | inl q ↦ rw q (lookup-insert key j value s ∙ rw q)
            | inr q ↦ rw q
          ],
    )

-- `Del` succeeds, keeps the shards, leaves the key no value and every other key its own.
pub del_key_lem :
    (m : InMemory) (key : Bytes)
    → IsSharded m
    → (m' : InMemory) × (del_key key m ≡ ok m')
      × IsSharded m'
      × ((j : Bytes) → view m' j ≡ (if str_eq key j then none else view m j))
unfolding del_key get_shard
del_key_lem m key v =
    let (s, e) = get_shard_total m key v in
    let s' = delete key s in
    (
      written m key key s s' v e,
      rw e,
      IsSharded-written m key key s s' v e,
      λ j.
          view-written m key j s s' v e (λ q. lookup-delete key j s ∙ rw q)
          ∙ elim (Bool-cases (str_eq key j)) [
            | inl q ↦ rw q (lookup-delete key j s ∙ rw q)
            | inr q ↦ rw q
          ],
    )

new_in_memory_lem :
    (n : ℕ) → 0 < n → IsSharded (new_in_memory n) × ((j : Bytes) → view (new_in_memory n) j ≡ none)
unfolding new_in_memory view
new_in_memory_lem n h =
    let v : IsSharded (new_in_memory n) = record { some_shard = rw length-replicate h } in
    (
      v,
      λ j.
          let (s, e) = get_shard_total (new_in_memory n) j v in
          let lt : shard_id (new_in_memory n) j < n =
            rw length-replicate at (shard_id-lt (new_in_memory n) j v) in
          rw (get_elem?-replicate {A = Shard} n [] (shard_id (new_in_memory n) j) lt)
            (unfold lookup in refl),
    )

-- An engine has a shard whatever its configuration, and starts empty.
pub new_engine_lem :
    (shards : ℤ)
    → IsSharded (new_engine shards).im × ((j : Bytes) → view (new_engine shards).im j ≡ none)
unfolding new_engine
new_engine_lem (pos zero) = new_in_memory_lem 100 (omega arith)
new_engine_lem (pos (suc n)) = new_in_memory_lem (suc n) (omega arith)
new_engine_lem (negsuc n) = new_in_memory_lem 100 (omega arith)
