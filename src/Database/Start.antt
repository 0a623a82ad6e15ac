-- ===== src/Database/Start.antt =====
-- What a start restores: the log's queries, executed again on an empty storage.
use laguna.Prelude.{
  ◌≡◌, refl, ap, sym, ◌∙◌, List, [], ◌∷◌, Bytes, Bool, true, All, All-split, concat,
}
use laguna.Prelude.{Result, ok}
use laguna.Prelude.Int.{ℤ}
use laguna.Utils.Context.{Ctx}
use laguna.Query.{Query}
use laguna.Query.Builder.Outcome.{IsExecutable}
use laguna.Storage
use laguna.Storage.{Storage}
use laguna.Storage.Memory.{new_engine}
use laguna.Storage.Laws
use laguna.Storage.Laws.{value, IsValid}
use laguna.Database.Log.{Log}
use laguna.Database.{Wal, Database, exec_all, restore_batches, restore_from_wal, new_database}
use laguna.Database.Exec.{View, effects, effects-append, effects_cong, exec_all_lem}
use mathlib.Core.List.{map}
use laguna.Database.Restore.{empty_view, IsDurable, Serves, Serves-IsDurable}

restore_batches_lem :
    (batches : List (List Query)) (s : Storage)
    → All IsExecutable (concat batches)
    → IsValid s
    → ((restore_batches (map ok batches) s).1 ≡ ok tt)
      × ((j : Bytes)
          → value (restore_batches (map ok batches) s).0 j ≡ effects (concat batches) (value s) j)
unfolding restore_batches
restore_batches_lem [] s x v = (refl, λ j. unfold effects in refl)
restore_batches_lem (qs ∷ rest) s x v =
    let (x₁, x₂) = All-split IsExecutable qs (concat rest) x in
    let (a, v', law) = exec_all_lem qs s x₁ v in
    let (b, law') = restore_batches_lem rest (exec_all qs s).0 x₂ v' in
    rw a (
      b,
      λ j.
          law' j
          ∙ effects_cong (concat rest) _ _ j (law j)
          ∙ ap (λ (f : View). f j) (sym (effects-append qs (concat rest) (value s))),
    )

restore_batches-IsValid :
    (batches : List (List Query)) (s : Storage)
    → All IsExecutable (concat batches)
    → IsValid s
    → IsValid (restore_batches (map ok batches) s).0
unfolding restore_batches
restore_batches-IsValid [] s x v = v
restore_batches-IsValid (qs ∷ rest) s x v =
    let (x₁, x₂) = All-split IsExecutable qs (concat rest) x in
    let (a, v', law) = exec_all_lem qs s x₁ v in
    rw a (restore_batches-IsValid rest (exec_all qs s).0 x₂ v')

module _ (w : Wal) (l : Log w) where
  -- A start in either role on a sound log of executable queries executes them all.
  pub start_values :
      (b : Bool) (shards : ℤ) (s : w.State)
      → l.IsGood s
      → w.is_enable s ≡ true
      → All IsExecutable (l.entries s)
      → (db : Database w) × (new_database w (Storage.new (new_engine shards)) b s ≡ ok db)
        × ((j : Bytes) → value db.st j ≡ effects (l.entries s) empty_view j)
  unfolding new_database restore_from_wal
  start_values b shards s g on executable =
      let (s', batches, stream, same, _, _, _) = l.restored s g on in
      let delivered : (w.restore_stream s).1 ≡ ok (map ok batches) =
        ap (λ (p : w.State × Result (List (Result (List Query)))). p.1) stream in
      let (v, none_yet) = Laws.new_lem shards in
      let (a, law) =
        restore_batches_lem batches (Storage.new (new_engine shards)) (rw (← same) at executable)
          v in
      let st = (restore_batches (map ok batches) (Storage.new (new_engine shards))).0 in
      (
        record { st = st; wal = (w.restore_stream s).0; is_master = b },
        rw (on, delivered, a),
        λ j.
            law j
            ∙ effects_cong (concat batches) _ empty_view j (none_yet j)
            ∙ ap (λ (qs : List Query). effects qs empty_view j) same,
      )

  -- A start on a sound log of executable queries: every key has the value that they give it.
  pub start_lem :
      (shards : ℤ) (f : View) (s : w.State)
      → l.IsGood s
      → w.is_enable s ≡ true
      → All IsExecutable (l.entries s)
      → ((j : Bytes) → effects (l.entries s) empty_view j ≡ f j)
      → (db : Database w) × (new_database w (Storage.new (new_engine shards)) true s ≡ ok db)
        × ((j : Bytes) → value db.st j ≡ f j)
        × IsDurable w l db
  unfolding new_database restore_from_wal
  start_lem shards f s g on executable replayed =
      let (s', batches, stream, same, g', kept, on') = l.restored s g on in
      let delivered : (w.restore_stream s).1 ≡ ok (map ok batches) =
        ap (λ (p : w.State × Result (List (Result (List Query)))). p.1) stream in
      let left : (w.restore_stream s).0 ≡ s' =
        ap (λ (p : w.State × Result (List (Result (List Query)))). p.0) stream in
      let (v, none_yet) = Laws.new_lem shards in
      let x = rw (← same) at executable in
      let (a, law) = restore_batches_lem batches (Storage.new (new_engine shards)) x v in
      let st = (restore_batches (map ok batches) (Storage.new (new_engine shards))).0 in
      let values : (j : Bytes) → value st j ≡ f j = λ j.
        law j
        ∙ effects_cong (concat batches) _ empty_view j (none_yet j)
        ∙ ap (λ (qs : List Query). effects qs empty_view j) same
        ∙ replayed j in
      (
        record { st = st; wal = (w.restore_stream s).0; is_master = true },
        rw (on, delivered, a),
        values,
        record {
          on = rw left on';
          master = refl;
          valid = restore_batches-IsValid batches (Storage.new (new_engine shards)) x v;
          good = rw left g';
          executable = rw (left, kept) executable;
          replayed = λ j. rw (left, kept) (replayed j ∙ sym (values j));
        },
      )

  -- On a master whose clients have got no error so far, for requests that the log can take, a restart on
  -- a sound log that has kept its queries succeeds: every key has the value that it had before, and
  -- the new database is as durable as the old one.
  pub restart :
      (shards : ℤ) (db db' : Database w) (requests : List (Ctx × Query)) (s : w.State)
      → IsDurable w l db
      → Serves w l db requests db'
      → l.IsGood s
      → w.is_enable s ≡ true
      → l.entries s ≡ l.entries db'.wal
      → (db'' : Database w) × (new_database w (Storage.new (new_engine shards)) true s ≡ ok db'')
        × ((j : Bytes) → value db''.st j ≡ value db'.st j)
        × IsDurable w l db''
  restart shards db db' requests s d r g on kept =
      let e = Serves-IsDurable w l d r in
      start_lem shards (value db'.st) s g on (rw kept e.executable)
        (λ j. ap (λ (qs : List Query). effects qs empty_view j) kept ∙ e.replayed j)
