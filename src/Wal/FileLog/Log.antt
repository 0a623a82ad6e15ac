-- ===== src/Wal/FileLog/Log.antt =====
-- The log over segment files is what a database relies on: what is acknowledged stands in the files.
use laguna.Prelude.{
  ℕ, suc, ◌==◌, ◌≤◌, ◌≡◌, ◌≢◌, refl, sym, ap, ◌∙◌, arith, List, [], ◌∷◌, ◌++◌, append_assoc, concat,
  Bytes, true, false, Option, none, some, Error, ok, All-append, Bool-cases, ==→eq, inl, inr,
}
use laguna.Utils.Context.{Ctx}
use laguna.Query.{Query}
use laguna.Database.Log.{Log}
use laguna.Wal.Row.{Row}
use laguna.Wal.Row.Codec.{IsEncodable}
use laguna.Wal.Restore.{query_of, restore_stream, restore_loop_lem}
use laguna.Wal.Worker.{System, run, Turn}
use laguna.Logs.Segments.Restart.{map-ok, concat-queries}
use laguna.Wal.FileLog.{
  FileLog, Wait, all_files, answer_of, begun, write_call, wait_response, stream_files, file_wal,
}
use laguna.Wal.FileLog.Stages.{IsRowOf, answered_stage}
use laguna.Wal.FileLog.Turns.{IsServing, IsLoggable}
use laguna.Wal.FileLog.Moves.{run-IsServing}
use laguna.Wal.FileLog.Quiet.{
  IsQuiet, parts, concat-parts, queries_in, queries_in_lem, delivered_lem, answer_of-append,
  outcome_ok, response_ok, begun-IsServing,
}
use mathlib.Core.List.{map, map-append}

module _ (q : Query) (s : FileLog) (v : IsQuiet s) (system : System) where
  abbrev after_call : FileLog
  after_call = record s { system = system; made = suc s.made }

  -- A call whose future has an answer has left its row in the log.
  acknowledged :
      (e : Option Error)
      → IsServing s.made q s.earlier v.rows s.system.worker.answers system
      → answer_of s.made system.worker.answers ≡ some e
      → (w : IsQuiet after_call) × (r : Row) × IsRowOf q r
        × (concat w.old ++ w.rows ≡ (concat v.old ++ v.rows) ++ (r ∷ []))
  acknowledged e z h =
      let k : answer_of s.made z.as' ≡ some e =
        sym (
          answer_of-append s.made s.system.worker.answers z.as' (v.unanswered s.made (omega arith)))
        ∙ ap (answer_of s.made) (sym z.answers)
        ∙ h in
      by_answers z.as' refl k
    where
      by_answers :
          (as' : List (ℕ × Option Error))
          → z.as' ≡ as'
          → answer_of s.made as' ≡ some e
          → (w : IsQuiet after_call) × (r : Row) × IsRowOf q r
            × (concat w.old ++ w.rows ≡ (concat v.old ++ v.rows) ++ (r ∷ []))
      by_answers [] x k = absurd (cc k)
      by_answers (a ∷ as') x k =
          let (r, f, only, c, fut, buf, ch, new) = answered_stage (rw x at z.stage) in
          let longer : (concat v.old ++ v.rows) ++ (r ∷ []) ≡ concat v.old ++ (v.rows ++ (r ∷ [])) =
            append_assoc (concat v.old) v.rows (r ∷ []) in
          (
            record {
              old = v.old;
              held = v.held;
              rows = v.rows ++ (r ∷ []);
              whole = rw new at z.whole;
              encodable =
                  rw (← longer) (All-append IsEncodable _ (r ∷ []) v.encodable (f.encodable, tt));
              ready = z.ready;
              named = z.named;
              live = z.live;
              no_rows = buf;
              none_sent = ch;
              none_waits = fut;
              over = λ j. elim (Bool-cases (j == s.made)) [
                | inl y ↦ rw (==→eq j s.made y) c
                | inr n ↦ z.others j (λ (d : j ≡ s.made). differs j n d)
              ];
              unanswered = λ j l.
                  ap (answer_of j) (z.answers ∙ ap (λ t. s.system.worker.answers ++ t) (x ∙ only))
                  ∙ answer_of-append j s.system.worker.answers _ (v.unanswered j (omega (arith, l)))
                  ∙ later j l;
            },
            r,
            f,
            sym longer,
          )
        where
          differs : (j : ℕ) → (j == s.made) ≡ false → j ≢ s.made
          differs j n d = ground arith

          later : (j : ℕ) → suc s.made ≤ j → answer_of j ((s.made, none) ∷ []) ≡ none
          later j l = ground arith

module _ (size : ℕ) (directory : Bytes) (schedule : ℕ → List Turn) (waits : ℕ → Wait) where
  -- A call that is made while nothing is on its way, and that is told by its future that there was no
  -- error, has put its query behind those that a reader of the directory gets, whatever turns the worker
  -- takes between the accesses of the call and of its wait; and again nothing is on its way.
  pub file_wal_accepted :
      (ctx : Ctx) (q : Query) (s s' s'' : FileLog) (f : ℕ)
      → IsQuiet s
      → IsLoggable q
      → write_call size directory schedule waits ctx q s ≡ (s', ok f)
      → wait_response size directory schedule waits ctx f s' ≡ (s'', ok none)
      → IsQuiet s''
        × (queries_in directory (all_files s'') ≡ queries_in directory (all_files s) ++ (q ∷ []))
  unfolding write_call wait_response
  file_wal_accepted ctx q s s' s'' f v t h k =
      let i = s.made in
      let first = run size (schedule i) (begun ctx q s) in
      let own : f ≡ i = outcome_ok i f (first.calls i) (ap (λ p. p.1) h) in
      let z =
        run-IsServing i q s.earlier v.rows s.system.worker.answers t size (schedule i)
          (begun ctx q s) (begun-IsServing ctx q s v) in
      let last = run size (waits i).turns first in
      let z' =
        run-IsServing i q s.earlier v.rows s.system.worker.answers t size (waits i).turns first z in
      let left : s' ≡ record s { system = first; made = suc i } = sym (ap (λ p. p.0) h) in
      let k' = rw (own, left) at k in
      let given = response_ok (waits i).before (waits i).after _ (ap (λ p. p.1) k') in
      let end : after_call q s v last ≡ s'' = ap (λ p. p.0) k' in
      let (w, r, fr, longer) = acknowledged q s v last none z' given in
      rw (← end) (
        w,
        queries_in_lem directory (after_call q s v last) w
            ∙ ap (map query_of) longer
            ∙ map-append query_of (concat v.old ++ v.rows) (r ∷ [])
            ∙ ap (λ t. t ++ (query_of r ∷ [])) (sym (queries_in_lem directory s v))
            ∙ ap (λ t. queries_in directory (all_files s) ++ (t ∷ [])) fr.same,
      )

  pub file_wal_restored :
      (s : FileLog)
      → IsQuiet s
      → (s' : FileLog) × (batches : List (List Query)) × (stream_files size directory schedule waits
            s
          ≡ (s', ok (map ok batches)))
        × (concat batches ≡ queries_in directory (all_files s))
        × IsQuiet s'
        × (queries_in directory (all_files s') ≡ queries_in directory (all_files s))
        × (true ≡ true)
  unfolding stream_files restore_stream
  file_wal_restored s v =
      let ps = parts directory s v in
      let read = delivered_lem directory s v in
      let stream = restore_loop_lem 0 s.system.lsn_gen ps in
      let s' = (stream_files size directory schedule waits s).0 in
      let quiet : IsQuiet s' = record {
        old = v.old;
        held = v.held;
        rows = v.rows;
        whole = v.whole;
        encodable = v.encodable;
        ready = v.ready;
        named = v.named;
        live = v.live;
        no_rows = v.no_rows;
        none_sent = v.none_sent;
        none_waits = v.none_waits;
        over = v.over;
        unanswered = v.unanswered;
      } in
      (
        s',
        map (λ (rows : List Row). map query_of rows) ps,
        ap (λ t. (s', t)) (ap ok (rw (read, stream) (map-ok ps))),
        concat-queries ps
            ∙ ap (map query_of) (concat-parts directory s v)
            ∙ sym (queries_in_lem directory s v),
        quiet,
        refl,
        refl,
      )

  -- The log over the files of a directory, for one call at a time between any turns of the worker.
  abbrev pub file_log : Log (file_wal size directory schedule waits)
  file_log = record {
    entries = λ s. queries_in directory (all_files s);
    IsGood = IsQuiet;
    Takes = IsLoggable;
    accepted = λ ctx q s s' s'' f v t h k.
        (let (a, b) = file_wal_accepted ctx q s s' s'' f v t h k in (a, b, refl));
    restored = λ s v on. file_wal_restored s v;
  }
