-- ===== src/Database/Safety.antt =====
-- What protects the storage: the role of a slave, and the log that is written first.
use laguna.Prelude.{◌≡◌, ◌≢◌, refl, ap, ◌∙◌, Bytes, true, false, Option, none, some, ◌==◌}
use laguna.Prelude.{Error, Result, ok, err, fault, ◌>>>◌}
use laguna.Utils.Context.{Ctx}
use laguna.Query.{Query, get_method_id}
use laguna.Query.Builder.Outcome.{IsExecutable}
use laguna.Prelude.{Bool-cases, inl, inr, ==→eq, get_elem?}
use laguna.Storage
use laguna.Storage.{Storage}
use laguna.Storage.Laws.{value, IsValid, en-get}
use laguna.Database.{with_arg, Wal, Database, set_in_wal, log_query, exec_checked, execute}
use laguna.Database.Exec.{effect, reply, exec_lem}

module _ (w : Wal) where
  st-log_query : (ctx : Ctx) (q : Query) (db : Database w) → (log_query w ctx q db).0.st ≡ db.st
  unfolding log_query
  st-log_query ctx q db = elim (Bool-cases (w.is_enable db.wal)) [ inl e ↦ rw e | inr e ↦ rw e ]

  first_arg_en :
      (ctx : Ctx) (arg : Option Bytes) (s : Storage)
      → (with_arg s arg (λ key. Storage.get ctx key s)).0.en ≡ s.en
  first_arg_en ctx none s = refl
  first_arg_en ctx (some key) s = en-get ctx key s

  exec_checked_slave :
      (ctx : Ctx) (q : Query) (db : Database w)
      → db.is_master ≡ false
      → ((exec_checked w ctx q db).0.st.en ≡ db.st.en)
        × (q.method_id ≢ get_method_id → (v : Bytes) → (exec_checked w ctx q db).1 ≢ ok v)
  unfolding exec_checked
  exec_checked_slave ctx q db h = elim (Bool-cases (q.method_id == get_method_id)) [
    | inl e ↦
        rw (h, e) (first_arg_en ctx (get_elem? q.args 0) db.st, λ ne. absurd (ne (==→eq _ _ e)))
    | inr e ↦ rw (h, e) (refl, λ ne v. cc)
  ]

  -- A call behind another one, where that leaves the engine as it is.
  after_log :
      (ctx : Ctx) (q : Query) (p : Database w × Result (Unit {0}))
      → p.0.is_master ≡ false
      → ((p >>> λ _ db'. exec_checked w ctx q db').0.st.en ≡ p.0.st.en)
        × (q.method_id ≢ get_method_id
            → (v : Bytes) → (p >>> λ _ db'. exec_checked w ctx q db').1 ≢ ok v)
  after_log ctx q (db, ok _) h = exec_checked_slave ctx q db h
  after_log ctx q (db, err e) h = (refl, λ ne v. cc)
  after_log ctx q (db, fault x) h = (refl, λ ne v. cc)

  is_master-log_query :
      (ctx : Ctx) (q : Query) (db : Database w) → (log_query w ctx q db).0.is_master ≡ db.is_master
  unfolding log_query
  is_master-log_query ctx q db = elim (Bool-cases (w.is_enable db.wal)) [
    | inl e ↦ rw e
    | inr e ↦ rw e
  ]

  -- On a slave no query changes the storage engine, whatever the log and the context do, and a query
  -- that is no GET is never answered with a value.
  pub slave_is_read_only :
      (ctx : Ctx) (q : Query) (db : Database w)
      → db.is_master ≡ false
      → ((execute w ctx q db).0.st.en ≡ db.st.en)
        × (q.method_id ≢ get_method_id → (v : Bytes) → (execute w ctx q db).1 ≢ ok v)
  unfolding execute
  slave_is_read_only ctx q db h =
      let (a, b) = after_log ctx q (log_query w ctx q db) (is_master-log_query ctx q db ∙ h) in
      (a ∙ ap (λ (s : Storage). s.en) (st-log_query ctx q db), b)

  -- If the log returns an error, the query is answered with that error and the storage is untouched.
  log_error :
      (ctx : Ctx) (q : Query) (db : Database w) (s : w.State) (e : Error)
      → w.is_enable db.wal ≡ true
      → set_in_wal w ctx q db.wal ≡ (s, err e)
      → execute w ctx q db ≡ (record db { wal = s }, err e)
  unfolding execute
  log_error ctx q db s e on h = rw (on, h)

  -- A query that the log accepts, on a master, is answered from the map of keys and values and
  -- changes it as the query says; the log's new state is kept.
  pub master_execute :
      (ctx : Ctx) (q : Query) (db : Database w) (s : w.State)
      → db.is_master ≡ true
      → ctx.err ≡ none
      → IsExecutable q
      → IsValid db.st
      → log_query w ctx q db ≡ (record db { wal = s }, ok tt)
      → ((execute w ctx q db).1 ≡ ok (reply q (value db.st)))
        × ((execute w ctx q db).0.wal ≡ s)
        × ((execute w ctx q db).0.is_master ≡ true)
        × IsValid (execute w ctx q db).0.st
        × ((j : Bytes) → value (execute w ctx q db).0.st j ≡ effect q (value db.st) j)
  unfolding execute exec_checked
  master_execute ctx q db s m c x v h =
      let (a, b, d) = exec_lem ctx q db.st c x v in rw (h, m) (a, refl, refl, b, d)
