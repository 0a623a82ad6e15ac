-- ===== src/Wal/FileLog/Reopen.antt =====
-- What a start of the program finds of the log that another run has left.
use laguna.Prelude.{
  ℕ, ◌≤◌, ◌<◌, ◌≡◌, refl, sym, ap, ◌∙◌, List, [], ◌∷◌, ◌++◌, append_assoc, concat, Bytes, true,
  str_lt, str_eq_iff, length, ok, All, All-split,
}
use laguna.Utils.Dir.{Files, read_dir}
use laguna.Segment.Manager.{File}
use laguna.Segment.Manager.Files.{HoldRows, HoldRows-append, concat-append}
use laguna.Segment.Opening.{
  open_file, last_name, open_last, init_file_segment, new_file_segment, new_segment_manager,
}
use laguna.Replication.Protocol
use laguna.Wal.Worker.{returned, new_wal}
use laguna.Logs.Segments.{path}
use laguna.Logs.Segments.Restart.{names_of}
use laguna.Wal.FileLog.{
  FileLog, all_files, all_but_last, read_only, with_segment, opened_disk, start_log,
}
use laguna.Wal.FileLog.Names.{Ascending, all_names_lem, disk-Delivers}
use laguna.Wal.FileLog.Quiet.{IsQuiet}
use mathlib.Core.List.{map-append}

-- The clock gives growing names, which are above those that are there.
pub record Follows (clock : ℕ → Bytes) (names : List Bytes) : Type 0 where
  pub above : All (λ (x : Bytes). (k : ℕ) → str_lt x (clock k) ≡ true) names
  pub grows : (i j : ℕ) → i < j → str_lt (clock i) (clock j) ≡ true

-- The log whose manager has opened this file, behind these.
abbrev pub reopened : (ℕ → Bytes) → ℕ → List File → File → FileLog
reopened clock max_size front x = record {
  earlier = front;
  system =
      new_wal
        (new_segment_manager clock [] []
          (record { file = x; size = length x.content; max_size = max_size }))
        (λ i. returned);
  made = 0;
}

module _ (x : File) where
  last_name-snoc :
      (first : Bytes) (front : List File) → last_name first (names_of (front ++ (x ∷ []))) ≡ x.name
  last_name-snoc first [] = refl
  last_name-snoc first (y ∷ ys) = last_name-snoc y.name ys

  open_last-snoc :
      (f : Files) (directory fresh : Bytes) (front : List File)
      → open_last f directory fresh (names_of (front ++ (x ∷ []))) ≡ open_file f directory x.name
  open_last-snoc f directory fresh [] = refl
  open_last-snoc f directory fresh (y ∷ ys) = ap (open_file f directory) (last_name-snoc y.name ys)

  all_but_last-snoc :
      (y : File) (front : List File) → all_but_last y (front ++ (x ∷ [])) ≡ y ∷ front
  all_but_last-snoc y [] = refl
  all_but_last-snoc y (z ∷ front) = ap (λ t. y ∷ t) (all_but_last-snoc z front)

  read_only-snoc : (front : List File) → read_only (front ++ (x ∷ [])) ≡ front
  read_only-snoc [] = refl
  read_only-snoc (y ∷ front) = all_but_last-snoc y front

  with_segment-snoc :
      (fresh : Bytes) (front : List File)
      → with_segment fresh (front ++ (x ∷ [])) ≡ front ++ (x ∷ [])
  with_segment-snoc fresh [] = refl
  with_segment-snoc fresh (y ∷ front) = refl

  -- The last file is opened, and the others are only read.
  start_log-snoc :
      (directory fresh : Bytes) (max_size : ℕ) (clock : ℕ → Bytes) (front : List File)
      → Ascending (names_of (front ++ (x ∷ [])))
      → start_log directory max_size clock [] fresh (front ++ (x ∷ []))
        ≡ ok (reopened clock max_size front x)
  unfolding start_log new_file_segment init_file_segment read_dir open_file
  start_log-snoc directory fresh max_size clock front h =
      let d = disk-Delivers directory (front ++ (x ∷ [])) h in
      let last = All-split _ front (x ∷ []) d in
      rw
        (
          open_last-snoc (opened_disk directory fresh (front ++ (x ∷ []))) directory fresh front,
          with_segment-snoc fresh front,
          last.1.0,
          read_only-snoc front,
        )
        refl

All-above :
    (clock : ℕ → Bytes) (names : List Bytes)
    → All (λ (y : Bytes). (k : ℕ) → str_lt y (clock k) ≡ true) names
    → All (λ (y : Bytes). (k : ℕ) → 0 ≤ k → str_lt y (clock k) ≡ true) names
All-above clock [] h = tt
All-above clock (y ∷ ys) h = (λ k l. h.0 k, All-above clock ys h.1)

-- A start on the files of a log at rest leaves them as they are, and has a log at rest.
pub start_log_lem :
    (directory fresh : Bytes) (max_size : ℕ) (clock : ℕ → Bytes) (s : FileLog)
    → IsQuiet s
    → Follows clock (names_of (all_files s))
    → (s' : FileLog) × (start_log directory max_size clock [] fresh (all_files s) ≡ ok s')
      × IsQuiet s'
      × (all_files s' ≡ all_files s)
unfolding new_wal new_segment_manager
start_log_lem directory fresh max_size clock s v c =
    let m = s.system.worker.store in
    let x = m.cur_seg.file in
    let front = s.earlier ++ m.closed in
    let same : front ++ (x ∷ []) ≡ all_files s = append_assoc s.earlier m.closed (x ∷ []) in
    let ascending : Ascending (names_of (front ++ (x ∷ []))) =
      rw (same, all_names_lem s.earlier m) v.named.ascending in
    let split : names_of (front ++ (x ∷ [])) ≡ names_of front ++ (x.name ∷ []) =
      map-append _ front (x ∷ []) in
    let rows_kept : concat (v.old ++ v.whole.before) ++ v.whole.last ≡ concat v.old ++ v.rows =
      ap (λ t. t ++ v.whole.last) (concat-append v.old v.whole.before)
      ∙ append_assoc (concat v.old) (concat v.whole.before) v.whole.last
      ∙ ap (λ t. concat v.old ++ t) (sym v.whole.in_order) in
    (
      reopened clock max_size front x,
      rw (← same) (start_log-snoc x directory fresh max_size clock front ascending),
      record {
        old = v.old ++ v.whole.before;
        held = HoldRows-append s.earlier m.closed v.old v.whole.before v.held v.whole.earlier;
        rows = v.whole.last;
        whole = record {
          before = [];
          last = v.whole.last;
          earlier = HoldRows.no_files;
          current = v.whole.current;
          in_order = refl;
        };
        encodable = rw rows_kept v.encodable;
        ready = record { unlocked = refl; no_failures = refl; sized = refl };
        named = record {
          ascending = rw (← split) ascending;
          below = rw (← split, same) (All-above clock _ c.above);
          grows = c.grows;
        };
        live = tt;
        no_rows = refl;
        none_sent = refl;
        none_waits = refl;
        over = λ j. tt;
        unanswered = λ j l. refl;
      },
      same,
    )

-- The log of the first start, in an empty directory.
abbrev pub first_log : (ℕ → Bytes) → ℕ → Bytes → FileLog
first_log clock max_size fresh = reopened clock max_size [] (record { name = fresh; content = [] })

-- It is at rest, and holds no rows.
pub first_log-IsQuiet :
    (fresh : Bytes) (max_size : ℕ) (clock : ℕ → Bytes)
    → Follows clock (fresh ∷ [])
    → (v : IsQuiet (first_log clock max_size fresh)) × (concat v.old ++ v.rows ≡ [])
unfolding new_wal new_segment_manager
first_log-IsQuiet fresh max_size clock c = (
  record {
    old = [];
    held = HoldRows.no_files;
    rows = [];
    whole = record {
      before = [];
      last = [];
      earlier = HoldRows.no_files;
      current = unfold Protocol.flatten in refl;
      in_order = refl;
    };
    encodable = tt;
    ready = record { unlocked = refl; no_failures = refl; sized = refl };
    named = record { ascending = (tt, tt); below = (λ k l. c.above.0 k, tt); grows = c.grows };
    live = tt;
    no_rows = refl;
    none_sent = refl;
    none_waits = refl;
    over = λ j. tt;
    unanswered = λ j l. refl;
  },
  refl,
)

pub first_start :
    (directory fresh : Bytes) (max_size : ℕ) (clock : ℕ → Bytes)
    → start_log directory max_size clock [] fresh [] ≡ ok (first_log clock max_size fresh)
unfolding start_log new_file_segment init_file_segment read_dir open_file new_wal
    new_segment_manager
first_start directory fresh max_size clock =
    rw ((str_eq_iff (path directory fresh) (path directory fresh)).1 refl) refl
