-- ===== src/Wal/FileLog/Turns.antt =====
-- One access of a call that goes on alone, or of the worker, leads to the next stage of the call.
use laguna.Prelude.{
  ℕ, ◌<◌, ◌≡◌, ◌≢◌, ap, ◌∙◌, List, [], ◌∷◌, ◌++◌, append_assoc, append-nil, length, Option, none,
  some, Error, All, All-append, ok,
}
use laguna.Query.{Query}
use laguna.Segment.Manager
use laguna.Segment.Manager.{File, Manager, create_batch}
use laguna.Segment.Manager.Log.{IsReady, create_batch-flatten}
use laguna.Segment.Manager.Files.{IsWhole, write-IsWhole}
use laguna.Logs.Writer.{write_to}
use laguna.Wal.Row.{Row}
use laguna.Wal.Row.Codec.{IsEncodable, IsShort}
use laguna.Wal.Flush.Laws.{flush_lem, store-flush}
use laguna.Wal.Worker.{Mode, System, flush_now, taken}
use laguna.Wal.Worker.Sound.{HasForm, IsLive, flatten_total}
use laguna.Wal.FileLog.Names.{HasNames, write-HasNames}
use laguna.Wal.FileLog.Stages.{IsOver, Stage, flushed_stage, taken_stage, buffered_rows}
use mathlib.Core.List.{map}

module _ (rows' : List Row) (m : Manager) (r : IsReady m) (h : All HasForm rows') where
  batch_of : (batch : Manager.Batch) × (create_batch rows' ≡ ok batch)
  batch_of =
      let (bytes, e) = flatten_total rows' h in
      let (batch, c, _) = create_batch-flatten rows' bytes e in (batch, c)

write_to-IsWhole :
    (rows' old : List Row) (m : Manager)
    → IsReady m
    → All HasForm rows'
    → IsWhole old m
    → IsWhole (old ++ rows') (write_to (some Manager.write) rows' m).0
unfolding write_to
write_to-IsWhole [] old m r h w = rw (append-nil old) w
write_to-IsWhole (x ∷ xs) old m r h w =
    let (batch, c) = batch_of (x ∷ xs) m r h in write-IsWhole (x ∷ xs) batch old m r c w

write_to-HasNames :
    (rows' : List Row) (earlier : List File) (m : Manager)
    → IsReady m
    → All HasForm rows'
    → HasNames earlier m
    → HasNames earlier (write_to (some Manager.write) rows' m).0
unfolding write_to
write_to-HasNames [] earlier m r h w = w
write_to-HasNames (x ∷ xs) earlier m r h w =
    let (batch, c) = batch_of (x ∷ xs) m r h in write-HasNames earlier (x ∷ xs) batch m r c w

-- The call `i` goes on alone, since the log held `rows` and the answers `before` were given.
pub record IsServing (i : ℕ) (q : Query) (earlier : List File) (rows : List Row)
    (before : List (ℕ × Option Error)) (s : System) : Type 0 where
  pub as' : List (ℕ × Option Error)
  pub new : List Row
  pub stage : Stage i q (s.calls i) s.worker.future_resp as' s.worker.query_buf s.query_ch new
  pub whole : IsWhole (rows ++ new) s.worker.store
  pub encodable : All IsEncodable new
  pub ready : IsReady s.worker.store
  pub named : HasNames earlier s.worker.store
  pub live : IsLive s.mode
  pub answers : s.worker.answers ≡ before ++ as'
  pub others : (j : ℕ) → j ≢ i → IsOver (s.calls j)

-- The query can be written to a row.
pub record IsLoggable (q : Query) : Type 0 where
  pub short : All IsShort q.args
  pub method_fits : q.method_id < 256
  pub count_fits : length q.args < 65536

module _ (i : ℕ) (q : Query) (earlier : List File) (rows : List Row)
    (before : List (ℕ × Option Error)) where
  abbrev pub Serving : System → Type 0
  Serving s = IsServing i q earlier rows before s

  pub flushed-IsServing :
      (s : System) (m : Mode) → Serving s → s.query_ch ≡ [] → IsLive m → Serving (flush_now m s)
  unfolding flush_now
  flushed-IsServing s m v e live =
      let (h, x) = buffered_rows v.stage in
      let (bytes, f) = flatten_total s.worker.query_buf h in
      let (o, b, w, a, ready, _) = flush_lem s.worker bytes v.ready f in
      let stored = store-flush s.worker bytes v.ready f in
      record {
        as' = v.as' ++ map (λ (j : ℕ). (j, none)) s.worker.future_resp;
        new = v.new ++ s.worker.query_buf;
        stage = rw (w, b, e) (flushed_stage (rw e at v.stage));
        whole =
            rw (stored, ← append_assoc rows v.new s.worker.query_buf)
              (write_to-IsWhole s.worker.query_buf (rows ++ v.new) s.worker.store v.ready h
                v.whole);
        encodable = All-append IsEncodable v.new s.worker.query_buf v.encodable x;
        ready = ready;
        named =
            rw stored
              (write_to-HasNames s.worker.query_buf earlier s.worker.store v.ready h v.named);
        live = rw o live;
        answers =
            a
            ∙ ap (λ t. t ++ map (λ (j : ℕ). (j, none)) s.worker.future_resp) v.answers
            ∙ append_assoc before v.as' _;
        others = v.others;
      }

  pub taken-IsServing :
      (size : ℕ) (s : System) (r : Row) (rest : List Row)
      → Serving s
      → s.query_ch ≡ r ∷ rest
      → (rest ≡ []) × Serving (taken size r rest s)
  taken-IsServing size s r rest v e =
      let (none_left, stage) = taken_stage (rw e at v.stage) in
      (
        none_left,
        record {
          as' = v.as';
          new = v.new;
          stage = rw none_left stage;
          whole = v.whole;
          encodable = v.encodable;
          ready = v.ready;
          named = v.named;
          live = v.live;
          answers = v.answers;
          others = v.others;
        },
      )

  pub moved-IsServing :
      (s : System) (m : Mode) → Serving s → IsLive m → Serving (record s { mode = m })
  moved-IsServing s m v h = record {
    as' = v.as';
    new = v.new;
    stage = v.stage;
    whole = v.whole;
    encodable = v.encodable;
    ready = v.ready;
    named = v.named;
    live = h;
    answers = v.answers;
    others = v.others;
  }
