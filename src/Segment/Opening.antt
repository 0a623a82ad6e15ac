-- ===== src/Segment/Opening.antt =====
-- internal/segment/segment.go and segment_manager.go: the segment that a start of the program goes on
-- with.
pub mod Torn
use laguna.Prelude.{
  ℕ, zero, suc, List, [], ◌∷◌, length, Bytes, Option, false, Result, ok, err, fault, ◌>>=◌,
}
use laguna.Utils.Dir.{Files, read_dir}
use laguna.Segment.Index.{IndexMap}
use laguna.Segment.Manager.{File, Failure, FileSegment, Manager}
use laguna.Logs.Segments.{path}

-- fs.OpenFile, which makes a missing file; writes go to its end.
unfoldable pub open_file : Files → Bytes → Bytes → Result File
open_file f directory name =
    f.content (path directory name) >>= λ bytes. ok (record { name = name; content = bytes })

abbrev pub last_name : Bytes → List Bytes → Bytes
last_name name [] = name
last_name name (next ∷ rest) = last_name next rest

-- `initFileSegment`: the last file of the directory, or a new one, under a name of the clock.
abbrev pub open_last : Files → Bytes → Bytes → List Bytes → Result File
open_last f directory fresh [] = open_file f directory fresh
open_last f directory fresh (name ∷ names) = open_file f directory (last_name name names)

unfoldable pub init_file_segment : Files → Bytes → Bytes → Result File
init_file_segment f directory fresh = read_dir f >>= λ names. open_last f directory fresh names

-- NewFileSegment; Stat of the open file returns the size of its content.
unfoldable pub new_file_segment : Files → Bytes → Bytes → ℕ → Result FileSegment
unfolding init_file_segment
new_file_segment f directory fresh max_size = init_file_segment f directory fresh >>= λ file.
    ok (record { file = file; size = length file.content; max_size = max_size })

-- NewSegmentManager, on a disk whose next calls have these outcomes.
unfoldable pub new_segment_manager :
    (ℕ → Bytes) → List (Option Failure) → IndexMap → FileSegment → Manager
new_segment_manager clock outcomes im segment = record {
  locked = false;
  cur_seg = segment;
  closed = [];
  im = im;
  pending = [];
  outcomes = outcomes;
  clock = clock;
  created = 0;
}
