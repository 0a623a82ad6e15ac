-- ===== src/Wal/FileLog.antt =====
-- internal/database/wal/wal.go, as the log of a database: the calls of `Write`, one at a time, between the
-- turns of the worker, over the segment files of a directory.
pub mod Names
pub mod Stages
pub mod Turns
pub mod Moves
pub mod Quiet
pub mod Log
pub mod Reopen
use laguna.Prelude.{
  ℕ, suc, ◌==◌, List, [], ◌∷◌, ◌++◌, Bytes, Option, none, some, Error, Result, ok, err, fault,
  blocked_forever, true, if◌then◌else◌, str_eq, not_exist, ◌>>=◌,
}
use laguna.Utils.Context.{Ctx}
use laguna.Utils.Dir.{Files}
use laguna.Utils.Future.Deadline.{get_response_with_deadline}
use laguna.Query.{Query}
use laguna.Segment.Manager.{File, Failure, FileSegment}
use laguna.Segment.Manager.Files.{files}
use laguna.Segment.Opening.{new_file_segment, new_segment_manager}
use laguna.Wal.Restore.{restore_stream}
use laguna.Wal.Worker.{Call, called, refused, returned, System, update, new_wal, Turn, run}
use laguna.Logs.Segments.{path, restore_system}
use laguna.Logs.Segments.Restart.{names_of}
use laguna.Database.{Wal}

-- The content of a file by its path.
abbrev pub content_of : Bytes → List File → Bytes → Result Bytes
content_of directory [] p = err not_exist
content_of directory (x ∷ xs) p =
    if str_eq (path directory x.name) p then ok x.content else content_of directory xs p

-- A directory with these files.
abbrev pub disk : Bytes → List File → Files
disk directory fs = record {
  names = ok (names_of fs);
  make = ok tt;
  content = content_of directory fs;
}

-- The log of a running program: the files that were there before it has begun, behind those of its
-- manager; what the worker and the calls share; and how many calls there were.
pub record FileLog : Type 0 where
  pub earlier : List File
  pub system : System
  pub made : ℕ

abbrev pub all_files : FileLog → List File
all_files s = s.earlier ++ files s.system.worker.store

-- What happens while a caller waits for its future: whether its context is done before, the turns of
-- the others, and whether the context's end is what the wait ends by.
pub record Wait : Type 0 where
  pub before : Option Error
  pub turns : List Turn
  pub after : Option Error

-- What a call of `Write` returns; one that has more to do waits forever.
abbrev pub outcome : ℕ → Call → Result ℕ
outcome i (refused e) = err e
outcome i returned = ok i
outcome i _ = fault blocked_forever

-- What was put into a future.
abbrev pub answer_of : ℕ → List (ℕ × Option Error) → Option (Option Error)
answer_of i [] = none
answer_of i ((j, e) ∷ rest) = if j == i then some e else answer_of i rest

abbrev pub moved : System → FileLog → FileLog
moved system s = record s { system = system }

-- A call of `Write` begins.
abbrev pub begun : Ctx → Query → FileLog → System
begun ctx q s = record s.system { calls = update s.system.calls s.made (called ctx.err q) }

module _ (size : ℕ) (directory : Bytes) (schedule : ℕ → List Turn) (waits : ℕ → Wait) where
  -- The accesses of a call are its turns in the schedule, beside those of the worker.
  unfoldable pub write_call : Ctx → Query → FileLog → FileLog × Result ℕ
  write_call ctx q s =
      let system = run size (schedule s.made) (begun ctx q s) in
      (record s { system = system; made = suc s.made }, outcome s.made (system.calls s.made))

  unfoldable pub wait_response : Ctx → ℕ → FileLog → FileLog × Result (Option Error)
  wait_response ctx i s =
      let system = run size (waits i).turns s.system in
      (
        moved system s,
        get_response_with_deadline (waits i).before (waits i).after
            (answer_of i system.worker.answers),
      )

  -- RestoreStream over the files of the directory.
  unfoldable pub stream_files : FileLog → FileLog × Result (List (Result (List Query)))
  stream_files s =
      let (items, g) =
        restore_stream s.system.lsn_gen
          (restore_system (disk directory (all_files s)) directory).0 in
      (moved (record s.system { lsn_gen = g }) s, ok items)

  abbrev pub file_wal : Wal
  file_wal = record {
    State = FileLog;
    Future = ℕ;
    is_enable = λ s. true;
    write = write_call;
    response = wait_response;
    restore_stream = stream_files;
  }

-- A start of the program on the files that another run has left: the last of them is the segment that is
-- written to. In an empty directory, the call that opens the segment makes its file.
abbrev pub all_but_last : File → List File → List File
all_but_last x [] = []
all_but_last x (y ∷ ys) = x ∷ all_but_last y ys

abbrev pub read_only : List File → List File
read_only [] = []
read_only (x ∷ xs) = all_but_last x xs

abbrev pub with_segment : Bytes → List File → List File
with_segment fresh [] = record { name = fresh; content = [] } ∷ []
with_segment fresh (x ∷ xs) = x ∷ xs

abbrev pub opened_disk : Bytes → Bytes → List File → Files
opened_disk directory fresh fs = record (disk directory fs) {
  content = content_of directory (with_segment fresh fs);
}

abbrev pub started : (ℕ → Bytes) → List (Option Failure) → List File → FileSegment → FileLog
started clock outcomes fs segment = record {
  earlier = read_only fs;
  system = new_wal (new_segment_manager clock outcomes [] segment) (λ i. returned);
  made = 0;
}

unfoldable pub start_log :
    Bytes → ℕ → (ℕ → Bytes) → List (Option Failure) → Bytes → List File → Result FileLog
start_log directory max_size clock outcomes fresh fs =
    new_file_segment (opened_disk directory fresh fs) directory fresh max_size >>= λ segment.
    ok (started clock outcomes fs segment)
