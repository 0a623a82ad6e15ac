-- ===== src/Replication/Slave/Apply.antt =====
-- What the slave's storage holds behind the rows that it applied.
use laguna.Prelude.{ℕ, ◌≡◌, refl, ◌∙◌, List, [], ◌∷◌, Bytes, none, All}
use laguna.Prelude.{ok}
use laguna.Utils.Context.{Ctx}
use laguna.Query.{Query, new_query, set_method_id, del_method_id}
use laguna.Storage.{Storage}
use laguna.Storage.Laws
use laguna.Storage.Laws.{value, IsValid}
use laguna.Wal.Row.{Row, new_row}
use laguna.Database.Exec.{effect, effects, effects_cong}
use laguna.Replication.Slave.{exec_row, exec_storage}
use mathlib.Core.List.{map}

-- The rows that a slave can apply: a SET with a key and a value, or a DEL with a key.
pub data IsReplicable : Row → Type 0 where
  set :
      (lsn : ℕ) (key v : Bytes) (more : List Bytes)
      → IsReplicable (new_row lsn set_method_id (key ∷ (v ∷ more)))
  del :
      (lsn : ℕ) (key : Bytes) (more : List Bytes)
      → IsReplicable (new_row lsn del_method_id (key ∷ more))

-- The query that a row logs.
abbrev pub logged : Row → Query
logged r = new_query r.method_id r.args

exec_row_lem :
    (ctx : Ctx) (r : Row) (s : Storage)
    → ctx.err ≡ none
    → IsReplicable r
    → IsValid s
    → ((exec_row ctx r s).1 ≡ ok tt)
      × IsValid (exec_row ctx r s).0
      × ((j : Bytes) → value (exec_row ctx r s).0 j ≡ effect (logged r) (value s) j)
unfolding exec_row effect
exec_row_lem ctx r s h (IsReplicable.set lsn key v more) w =
    let (a, b, c) = Laws.set_lem ctx key v s h w in rw a (refl, b, c)
exec_row_lem ctx r s h (IsReplicable.del lsn key more) w =
    let (a, b, c) = Laws.delete_lem ctx key s h w in rw a (refl, b, c)

-- Rows that the slave can apply are applied without an error, and have the effects of their queries,
-- in order.
pub exec_storage_lem :
    (ctx : Ctx) (rows : List Row) (s : Storage)
    → ctx.err ≡ none
    → All IsReplicable rows
    → IsValid s
    → ((exec_storage ctx rows s).1 ≡ ok tt)
      × IsValid (exec_storage ctx rows s).0
      × ((j : Bytes) → value (exec_storage ctx rows s).0 j ≡ effects (map logged rows) (value s) j)
unfolding exec_storage effects
exec_storage_lem ctx [] s h x v = (refl, v, λ j. refl)
exec_storage_lem ctx (r ∷ rows) s h x v =
    let (a, w, law) = exec_row_lem ctx r s h x.0 v in
    let (b, w', law') = exec_storage_lem ctx rows (exec_row ctx r s).0 h x.1 w in
    rw a (b, w', λ j. law' j ∙ effects_cong (map logged rows) _ _ j (law j))
