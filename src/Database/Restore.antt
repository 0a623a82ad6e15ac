-- ===== src/Database/Restore.antt =====
-- A database whose log holds what its clients see, and that stays so.
use laguna.Prelude.{
  ◌≡◌, refl, sym, ◌∙◌, arith, List, [], ◌∷◌, Bytes, true, none, ◌==◌, All, All-append,
}
use laguna.Prelude.{Result, ok, err, fault, ◌>>>◌, Bool-cases, inl, inr}
use laguna.Utils.Context.{Ctx}
use laguna.Query.{Query, get_method_id}
use laguna.Query.Builder.Outcome.{IsExecutable}
use laguna.Storage.Laws.{value, IsValid}
use laguna.Database.Safety.{master_execute}
use laguna.Database.Log.{Log, set_in_wal_ok, set_in_wal_get}
use laguna.Database.{Wal, Database, set_in_wal, log_query, exec_checked, execute}
use laguna.Database.Exec.{View, effect, effects, effects-append, effects_cong, effect_cong}
use mathlib.Core.List.{map}

abbrev pub empty_view : View
empty_view j = none

abbrev pub queries : List (Ctx × Query) → List Query
queries requests = map (λ (r : Ctx × Query). r.1) requests

module _ (w : Wal) (l : Log w) where
  -- The log is sound and holds executable queries, whose effects are what clients see.
  pub record IsDurable (db : Database w) : Type 0 where
    pub on : w.is_enable db.wal ≡ true
    pub master : db.is_master ≡ true
    pub valid : IsValid db.st
    pub good : l.IsGood db.wal
    pub executable : All IsExecutable (l.entries db.wal)
    pub replayed : (j : Bytes) → effects (l.entries db.wal) empty_view j ≡ value db.st j

  effect_get : (q : Query) (f : View) → (q.method_id == get_method_id) ≡ true → effect q f ≡ f
  unfolding effect
  effect_get q f e = ground arith

  -- What the log holds behind an acknowledged query.
  logged_query :
      (ctx : Ctx) (q : Query) (db : Database w)
      → IsDurable db
      → IsExecutable q
      → l.Takes q
      → (set_in_wal w ctx q db.wal).1 ≡ ok tt
      → (w.is_enable (set_in_wal w ctx q db.wal).0 ≡ true)
        × l.IsGood (set_in_wal w ctx q db.wal).0
        × All IsExecutable (l.entries (set_in_wal w ctx q db.wal).0)
        × ((j : Bytes)
            → effects (l.entries (set_in_wal w ctx q db.wal).0) empty_view j
              ≡ effect q (value db.st) j)
  logged_query ctx q db d x t h = elim (Bool-cases (q.method_id == get_method_id)) [
    | inl e ↦
        rw (set_in_wal_get w ctx q db.wal e, effect_get q (value db.st) e)
          (d.on, d.good, d.executable, d.replayed)
    | inr e ↦
        let (g, a, b) = set_in_wal_ok w l ctx q db.wal d.good t e h in
        (
          b ∙ d.on,
          g,
          rw a (All-append IsExecutable (l.entries db.wal) (q ∷ []) d.executable (x, tt)),
          λ j.
              rw (a, effects-append (l.entries db.wal) (q ∷ []) empty_view)
                (unfold effects in effect_cong q _ _ j (d.replayed j)),
        )
  ]

  -- A call that is answered with no error was logged with none.
  log_query_ok :
      (ctx : Ctx) (q : Query) (db : Database w) (v : Bytes)
      → IsDurable db
      → (execute w ctx q db).1 ≡ ok v
      → ((set_in_wal w ctx q db.wal).1 ≡ ok tt)
        × (log_query w ctx q db ≡ (record db { wal = (set_in_wal w ctx q db.wal).0 }, ok tt))
  unfolding execute log_query
  log_query_ok ctx q db v d h =
      let r = inner (set_in_wal w ctx q db.wal).1 (rw d.on at h) in (r, rw (d.on, r))
    where
      inner :
          (r : Result (Unit {0}))
          → ((record db { wal = (set_in_wal w ctx q db.wal).0 }, r) >>> λ _ db'.
              exec_checked w ctx q db').1
            ≡ ok v
          → r ≡ ok tt
      inner (ok tt) k = refl
      inner (err e) k = absurd (cc k)
      inner (fault x) k = absurd (cc k)

  execute-IsDurable :
      (ctx : Ctx) (q : Query) (db : Database w) (v : Bytes)
      → IsDurable db
      → ctx.err ≡ none
      → IsExecutable q
      → l.Takes q
      → (execute w ctx q db).1 ≡ ok v
      → IsDurable (execute w ctx q db).0
  execute-IsDurable ctx q db v d c x t h =
      let (a, b) = log_query_ok ctx q db v d h in
      let (on, g, ex, rep) = logged_query ctx q db d x t a in
      let (r, k, m, val, law) = master_execute w ctx q db _ d.master c x d.valid b in
      record {
        on = rw k on;
        master = m;
        valid = val;
        good = rw k g;
        executable = rw k ex;
        replayed = λ j. rw k (rep j ∙ sym (law j));
      }

  value-execute :
      (ctx : Ctx) (q : Query) (db : Database w) (v j : Bytes)
      → IsDurable db
      → ctx.err ≡ none
      → IsExecutable q
      → (execute w ctx q db).1 ≡ ok v
      → value (execute w ctx q db).0.st j ≡ effect q (value db.st) j
  value-execute ctx q db v j d c x h =
      let (_, b) = log_query_ok ctx q db v d h in
      let (_, _, _, _, law) = master_execute w ctx q db _ d.master c x d.valid b in law j

  -- The answers so far were no errors.
  pub data Serves : Database w → List (Ctx × Query) → Database w → Type 0 where
    here : {db : Database w} → Serves db [] db
    next :
        {db db' : Database w} {ctx : Ctx} {q : Query} {rest : List (Ctx × Query)} (v : Bytes)
        → ctx.err ≡ none
        → IsExecutable q
        → l.Takes q
        → (execute w ctx q db).1 ≡ ok v
        → Serves (execute w ctx q db).0 rest db'
        → Serves db ((ctx, q) ∷ rest) db'

  pub Serves-IsDurable :
      {db db' : Database w} {requests : List (Ctx × Query)}
      → IsDurable db
      → Serves db requests db'
      → IsDurable db'
  Serves-IsDurable d here = d
  Serves-IsDurable {db} d (next {ctx = ctx} {q = q} v c x t h r) =
      Serves-IsDurable (execute-IsDurable ctx q db v d c x t h) r

  -- The values behind the requests are those that their queries make of the values before.
  pub value-Serves :
      {db db' : Database w} {requests : List (Ctx × Query)}
      → IsDurable db
      → Serves db requests db'
      → (j : Bytes) → value db'.st j ≡ effects (queries requests) (value db.st) j
  unfolding effects
  value-Serves d here j = refl
  value-Serves {db} d (next {ctx = ctx} {q = q} {rest = rest} v c x t h r) j =
      value-Serves (execute-IsDurable ctx q db v d c x t h) r j
      ∙ effects_cong (queries rest) _ _ j (value-execute ctx q db v j d c x h)
