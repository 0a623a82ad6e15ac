-- ===== src/Prelude/Map.antt =====
-- Go maps, as association lists over keys with a Boolean equality. No code here depends on the order
-- of a range over a map.
use laguna.Prelude.{
  ℕ, ◌≡◌, ◌↔◌, refl, arith, List, [], ◌∷◌, Bool, true, Option, none, some, if◌then◌else◌,
}
use laguna.Prelude.{◌==◌, ==_iff, Bytes, str_eq, str_eq_iff}

pub record Key (K : Type 0) : Type 0 where
  pub beq : K → K → Bool
  pub beq_iff : (a b : K) → (beq a b ≡ true) ↔ (a ≡ b)

instance abbrev pub nat_key : Key ℕ
nat_key = record { beq = λ a b. a == b; beq_iff = ==_iff }

instance abbrev pub str_key : Key Bytes
str_key = record { beq = str_eq; beq_iff = str_eq_iff }

abbrev pub Map : Type 0 → Type 0 → Type 0
Map K V = List (K × V)

abbrev pub or_else {ℓ} : {A : Type ℓ} → Option A → Option A → Option A
or_else none b = b
or_else (some a) b = some a

module _ {K V : Type 0} ⦃k : Key K⦄ where
  -- v, ok := m[key]
  unfoldable pub lookup : K → Map K V → Option V
  lookup key [] = none
  lookup key ((j, v) ∷ m) = if k.beq j key then some v else lookup key m

  -- m[key] = v
  unfoldable pub insert : K → V → Map K V → Map K V
  insert key v [] = (key, v) ∷ []
  insert key v ((j, w) ∷ m) = if k.beq j key then (key, v) ∷ m else (j, w) ∷ insert key v m

  -- delete(m, key)
  unfoldable pub delete : K → Map K V → Map K V
  delete key [] = []
  delete key ((j, w) ∷ m) = let rest = delete key m in if k.beq j key then rest else (j, w) ∷ rest

  -- for key, v := range entries { m[key] = v }, in some order
  unfoldable pub insert_all : Map K V → Map K V → Map K V
  insert_all [] m = m
  insert_all ((j, v) ∷ entries) m = insert j v (insert_all entries m)

  pub lookup-insert :
      (key j : K) (v : V) (m : Map K V)
      → lookup j (insert key v m) ≡ (if k.beq key j then some v else lookup j m)
  unfolding lookup insert
  lookup-insert key j v [] = refl
  lookup-insert key j v ((i, w) ∷ m) =
      ground (arith, k.beq_iff key j, k.beq_iff i key, k.beq_iff i j, lookup-insert key j v m)

  pub lookup-delete :
      (key j : K) (m : Map K V)
      → lookup j (delete key m) ≡ (if k.beq key j then none else lookup j m)
  unfolding lookup delete
  lookup-delete key j [] = ground arith
  lookup-delete key j ((i, w) ∷ m) =
      ground (arith, k.beq_iff key j, k.beq_iff i key, k.beq_iff i j, lookup-delete key j m)

  -- What `entries` does not hold stays as it was.
  pub lookup-insert_all :
      (j : K) (entries m : Map K V)
      → lookup j (insert_all entries m) ≡ or_else (lookup j entries) (lookup j m)
  unfolding lookup insert_all
  lookup-insert_all j [] m = refl
  lookup-insert_all j ((i, v) ∷ entries) m =
      ground (arith, lookup-insert i j v (insert_all entries m), lookup-insert_all j entries m)
