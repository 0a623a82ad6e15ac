-- ===== src/Wal/FileLog/Quiet.antt =====
-- The log over segment files between two calls, and a call that begins and ends.
use laguna.Prelude.{
  ℕ, ◌==◌, ◌≤◌, ◌≡◌, refl, sym, ap, ◌∙◌, arith, List, [], ◌∷◌, ◌++◌, append-nil, concat, Bytes,
  Option, none, some, Error, Result, ok, err, fault, All, Bool-cases, ==→eq, inl, inr,
}
use laguna.Utils.Context.{Ctx}
use laguna.Utils.Future.Deadline.{get_response, get_response_with_deadline}
use laguna.Query.{Query}
use laguna.Segment.Manager.{File}
use laguna.Segment.Manager.Log.{IsReady}
use laguna.Segment.Manager.Files.{
  HoldRows, IsWhole, files, files-HoldRows, HoldRows-append, concat-append,
}
use laguna.Wal.Row.{Row}
use laguna.Wal.Row.Codec.{IsEncodable}
use laguna.Wal.Restore.{query_of}
use laguna.Wal.Worker.{Call, called, numbered, delivered, refused, returned}
use laguna.Wal.Worker.Sound.{IsLive}
use laguna.Logs.Segments.{restore_system}
use laguna.Logs.Segments.Laws.{restore_system_lem}
use laguna.Logs.Segments.Restart.{names_of, HoldRows-Segments}
use laguna.Wal.FileLog.{FileLog, disk, all_files, outcome, answer_of, begun}
use laguna.Wal.FileLog.Names.{HasNames, all_names_lem, disk-Delivers}
use laguna.Wal.FileLog.Stages.{IsOver, Idle, Stage}
use laguna.Wal.FileLog.Turns.{IsServing}
use mathlib.Core.List.{map}

-- The rows that a stream delivers before an error.
abbrev delivered_rows : List (Result (List Row)) → List Row
delivered_rows [] = []
delivered_rows (ok rows ∷ rest) = rows ++ delivered_rows rest
delivered_rows (err e ∷ rest) = []
delivered_rows (fault x ∷ rest) = []

-- The queries of the log: those of the rows that a reader of the directory gets.
abbrev pub queries_in : Bytes → List File → List Query
queries_in directory fs =
    map query_of (delivered_rows (restore_system (disk directory fs) directory).0)

-- Between two calls, when the last one was acknowledged: nothing is on its way to the files, which hold
-- whole rows.
pub record IsQuiet (s : FileLog) : Type 0 where
  pub old : List (List Row)
  pub held : HoldRows s.earlier old
  pub rows : List Row
  pub whole : IsWhole rows s.system.worker.store
  pub encodable : All IsEncodable (concat old ++ rows)
  pub ready : IsReady s.system.worker.store
  pub named : HasNames s.earlier s.system.worker.store
  pub live : IsLive s.system.mode
  pub no_rows : s.system.worker.query_buf ≡ []
  pub none_sent : s.system.query_ch ≡ []
  pub none_waits : s.system.worker.future_resp ≡ []
  pub over : (j : ℕ) → IsOver (s.system.calls j)
  pub unanswered : (j : ℕ) → s.made ≤ j → answer_of j s.system.worker.answers ≡ none

delivered_rows-ok : (parts : List (List Row)) → delivered_rows (map ok parts) ≡ concat parts
delivered_rows-ok [] = refl
delivered_rows-ok (rows ∷ more) = ap (λ t. rows ++ t) (delivered_rows-ok more)

module _ (directory : Bytes) (s : FileLog) (v : IsQuiet s) where
  abbrev pub parts : List (List Row)
  parts = v.old ++ (v.whole.before ++ (v.whole.last ∷ []))

  pub concat-parts : concat parts ≡ concat v.old ++ v.rows
  concat-parts =
      concat-append v.old (v.whole.before ++ (v.whole.last ∷ []))
      ∙ ap (λ t. concat v.old ++ t)
          (concat-append v.whole.before (v.whole.last ∷ [])
            ∙ ap (λ t. concat v.whole.before ++ t) (append-nil v.whole.last)
            ∙ sym v.whole.in_order)

  -- The reader gets the rows of each file.
  pub delivered_lem : (restore_system (disk directory (all_files s)) directory).0 ≡ map ok parts
  delivered_lem =
      let fs = all_files s in
      let delivers =
        disk-Delivers directory fs
          (rw (all_names_lem s.earlier s.system.worker.store) v.named.ascending) in
      let holds =
        HoldRows-append s.earlier (files s.system.worker.store) v.old _ v.held
          (files-HoldRows v.rows s.system.worker.store v.whole) in
      restore_system_lem (disk directory fs) directory (names_of fs) parts
        (unfold laguna.Utils.Dir.read_dir in refl)
        (HoldRows-Segments (disk directory fs) directory fs parts delivers
          (rw concat-parts v.encodable) holds)

  pub queries_in_lem : queries_in directory (all_files s) ≡ map query_of (concat v.old ++ v.rows)
  queries_in_lem = rw delivered_lem (ap (map query_of) (delivered_rows-ok parts ∙ concat-parts))

pub answer_of-append :
    (i : ℕ) (before as' : List (ℕ × Option Error))
    → answer_of i before ≡ none
    → answer_of i (before ++ as') ≡ answer_of i as'
answer_of-append i [] as' h = refl
answer_of-append i ((j, e) ∷ before) as' h = elim (Bool-cases (j == i)) [
  | inl y ↦ absurd (let k = rw y at h in cc k)
  | inr n ↦ rw n (answer_of-append i before as' (rw n at h))
]

pub outcome_ok : (i f : ℕ) (c : Call) → outcome i c ≡ ok f → f ≡ i
outcome_ok i f (refused e) h = absurd (cc h)
outcome_ok i f returned h = cc h
outcome_ok i f (called e q) h = absurd (cc h)
outcome_ok i f (numbered r) h = absurd (cc h)
outcome_ok i f delivered h = absurd (cc h)

pub response_ok :
    (before after : Option Error) (a : Option (Option Error))
    → get_response_with_deadline before after a ≡ ok none
    → a ≡ some none
unfolding get_response_with_deadline get_response
response_ok (some e) after a h = absurd (cc h)
response_ok none (some e) a h = absurd (cc h)
response_ok none none none h = absurd (cc h)
response_ok none none (some a) h = ap some (cc h)

pub begun-IsServing :
    (ctx : Ctx) (q : Query) (s : FileLog) (v : IsQuiet s)
    → IsServing s.made q s.earlier v.rows s.system.worker.answers (begun ctx q s)
begun-IsServing ctx q s v = record {
  as' = [];
  new = [];
  stage = rw (v.no_rows, v.none_sent, v.none_waits, same) (Stage.idle (Idle.fresh ctx.err));
  whole = rw (append-nil v.rows) v.whole;
  encodable = tt;
  ready = v.ready;
  named = v.named;
  live = v.live;
  answers = sym (append-nil s.system.worker.answers);
  others = λ j n. elim (Bool-cases (s.made == j)) [
    | inl e ↦ absurd (n (sym (==→eq s.made j e)))
    | inr e ↦ rw e (v.over j)
  ];
}
  where
    same : (begun ctx q s).calls s.made ≡ called ctx.err q
    same = ground arith
