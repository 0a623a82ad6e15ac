-- ===== src/Database/Exec.antt =====
-- `exec` implements queries as operations on one map from keys to values.
use laguna.Prelude.{
  ◌≡◌, refl, ◌∙◌, arith, List, [], ◌∷◌, ◌++◌, Bytes, codes, Option, none, some, ◌==◌, All,
  if◌then◌else◌,
}
use laguna.Prelude.{ok, str_eq}
use laguna.Utils.Context.{Ctx, background}
use laguna.Query.{Query, set_method_id, get_method_id, del_method_id}
use laguna.Query.Builder.Outcome.{IsExecutable}
use laguna.Storage.{Storage}
use laguna.Storage.Laws
use laguna.Storage.Laws.{value, IsValid, or_empty}
use laguna.Database.{exec, exec_all}

abbrev pub View : Type 0
View = Bytes → Option Bytes

abbrev pub set_effect : List Bytes → View → View
set_effect (key ∷ (v ∷ _)) f j = if str_eq key j then some v else f j
set_effect _ f j = f j

abbrev pub del_effect : List Bytes → View → View
del_effect (key ∷ _) f j = if str_eq key j then none else f j
del_effect _ f j = f j

-- What a query does to the map that the client sees.
unfoldable pub effect : Query → View → View
effect q f =
    if q.method_id == set_method_id
    then set_effect q.args f
    else if q.method_id == del_method_id
    then del_effect q.args f
    else f

abbrev get_reply : List Bytes → View → Bytes
get_reply (key ∷ _) f = or_empty (f key)
get_reply [] f = []

-- What a client is told.
unfoldable pub reply : Query → View → Bytes
reply q f = if q.method_id == get_method_id then get_reply q.args f else codes "OK"

unfoldable pub effects : List Query → View → View
effects [] f = f
effects (q ∷ qs) f = effects qs (effect q f)

pub effects-append :
    (qs rs : List Query) (f : View) → effects (qs ++ rs) f ≡ effects rs (effects qs f)
unfolding effects
effects-append [] rs f = refl
effects-append (q ∷ qs) rs f = effects-append qs rs (effect q f)

-- With a context that is not done, a query that finds its arguments is answered as the map says, and
-- changes the value of every key as the map says.
pub exec_lem :
    (ctx : Ctx) (q : Query) (s : Storage)
    → ctx.err ≡ none
    → IsExecutable q
    → IsValid s
    → ((exec ctx q s).1 ≡ ok (reply q (value s)))
      × IsValid (exec ctx q s).0
      × ((j : Bytes) → value (exec ctx q s).0 j ≡ effect q (value s) j)
unfolding exec effect reply
exec_lem ctx q s h (IsExecutable.set key v) w =
    let (a, b, c) = Laws.set_lem ctx key v s h w in (rw a, b, c)
exec_lem ctx q s h (IsExecutable.get key more) w = Laws.get_lem ctx key s h w
exec_lem ctx q s h (IsExecutable.del key more) w =
    let (a, b, c) = Laws.delete_lem ctx key s h w in (rw a, b, c)

-- The effect of a query on a key depends on the value of that key only.
pub effect_cong : (q : Query) (f g : View) (j : Bytes) → f j ≡ g j → effect q f j ≡ effect q g j
unfolding effect
effect_cong q f g j h = by_args q.args
  where
    by_args :
        (args : List Bytes)
        → (if q.method_id == set_method_id
              then set_effect args f
              else if q.method_id == del_method_id
              then del_effect args f
              else f)
            j
          ≡ (if q.method_id == set_method_id
                then set_effect args g
                else if q.method_id == del_method_id
                then del_effect args g
                else g)
              j
    by_args [] = ground arith
    by_args (a ∷ []) = ground arith
    by_args (a ∷ (b ∷ rest)) = ground arith

pub effects_cong :
    (qs : List Query) (f g : View) (j : Bytes) → f j ≡ g j → effects qs f j ≡ effects qs g j
unfolding effects
effects_cong [] f g j h = h
effects_cong (q ∷ qs) f g j h = effects_cong qs (effect q f) (effect q g) j (effect_cong q f g j h)

-- Executing a list of queries that find their arguments succeeds and has their effects, in order.
pub exec_all_lem :
    (qs : List Query) (s : Storage)
    → All IsExecutable qs
    → IsValid s
    → ((exec_all qs s).1 ≡ ok tt)
      × IsValid (exec_all qs s).0
      × ((j : Bytes) → value (exec_all qs s).0 j ≡ effects qs (value s) j)
unfolding exec_all effects
exec_all_lem [] s x v = (refl, v, λ j. refl)
exec_all_lem (q ∷ qs) s x v =
    let (a, w, law) = exec_lem background q s refl x.0 v in
    let (b, w', law') = exec_all_lem qs (exec background q s).0 x.1 w in
    rw a (b, w', λ j. law' j ∙ effects_cong qs _ _ j (law j))
