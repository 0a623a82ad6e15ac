-- ===== src/Database/Replay.antt =====
-- Queries that are executed again on what they have left.
use laguna.Prelude.{
  ◌≡◌, refl, sym, ◌∙◌, ◌⊎◌, inl, inr, List, [], ◌∷◌, Bytes, Option, none, some, ◌==◌, str_eq,
  Bool-cases,
}
use laguna.Query.{Query, set_method_id, del_method_id}
use laguna.Database.Exec.{View, set_effect, del_effect, effect, effects}

-- A change of the map either leaves a key as it is, or gives it a value that the map does not matter to.
abbrev Settles : (View → View) → Bytes → Type 0
Settles change j =
    ((f : View) → change f j ≡ f j) ⊎ ((v : Option Bytes) × ((f : View) → change f j ≡ v))

set-Settles : (args : List Bytes) (j : Bytes) → Settles (set_effect args) j
set-Settles [] j = inl (λ f. refl)
set-Settles (key ∷ []) j = inl (λ f. refl)
set-Settles (key ∷ (v ∷ more)) j = elim (Bool-cases (str_eq key j)) [
  | inl y ↦ inr (some v, λ f. rw y refl)
  | inr n ↦ inl (λ f. rw n refl)
]

del-Settles : (args : List Bytes) (j : Bytes) → Settles (del_effect args) j
del-Settles [] j = inl (λ f. refl)
del-Settles (key ∷ more) j = elim (Bool-cases (str_eq key j)) [
  | inl y ↦ inr (none, λ f. rw y refl)
  | inr n ↦ inl (λ f. rw n refl)
]

effect-Settles : (q : Query) (j : Bytes) → Settles (effect q) j
unfolding effect
effect-Settles q j = elim (Bool-cases (q.method_id == set_method_id)) [
  | inl s ↦ rw s (set-Settles q.args j)
  | inr s ↦ elim (Bool-cases (q.method_id == del_method_id)) [
    | inl d ↦ rw (s, d) (del-Settles q.args j)
    | inr d ↦ rw (s, d) (inl (λ f. refl))
  ]
]

behind :
    (q : Query) (qs : List Query) (j : Bytes)
    → Settles (effects qs) j
    → Settles (effects (q ∷ qs)) j
unfolding effects
behind q qs j (inr (v, h)) = inr (v, λ f. h (effect q f))
behind q qs j (inl h) = elim (effect-Settles q j) [
  | inl g ↦ inl (λ f. h (effect q f) ∙ g f)
  | inr (v, g) ↦ inr (v, λ f. h (effect q f) ∙ g f)
]

effects-Settles : (qs : List Query) (j : Bytes) → Settles (effects qs) j
effects-Settles [] j = inl (λ f. unfold effects in refl)
effects-Settles (q ∷ qs) j = behind q qs j (effects-Settles qs j)

-- Queries that are executed again, all of them in their order, leave the map as it is.
pub effects_again :
    (qs : List Query) (f : View) (j : Bytes) → effects qs (effects qs f) j ≡ effects qs f j
effects_again qs f j = elim (effects-Settles qs j) [
  | inl h ↦ h (effects qs f)
  | inr (v, h) ↦ h (effects qs f) ∙ sym (h f)
]
