-- ===== src/Segment/Reading.antt =====
-- internal/segment/segment_manager.go: reading a segment by its path.
use laguna.Prelude.{Bytes, str_eq, if◌then◌else◌, Result, fault, blocked_forever}
use laguna.Utils.Dir.{Files}
use laguna.Segment.Manager.{Manager}

-- `readCurrSegment`, where `rest` is what io.ReadAll of the open file returns, which reads on from
-- where the file stands; a lock that is never released blocks it.
unfoldable pub read_curr_segment : Result Bytes → Manager → Result Bytes
read_curr_segment rest m = if m.locked then fault blocked_forever else rest

-- `ReadSegment`
unfoldable pub read_segment : Files → Result Bytes → Manager → Bytes → Result Bytes
unfolding read_curr_segment
read_segment f rest m name =
    if str_eq m.cur_seg.file.name name then read_curr_segment rest m else f.content name
