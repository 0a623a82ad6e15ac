-- ===== src/Examples/Segments.antt =====
-- Segments of 20 bytes, and a disk that fails once.
use laguna.Prelude.{
  ℕ, List, [], ◌∷◌, ◌++◌, Bytes, codes, none, some, true, false, ◌≡◌, ◌≢◌, refl, Error, Result, ok,
  err, fault, blocked_forever, errors_new, All, arith,
}
use laguna.Wal.Row.{Row}
use laguna.Segment.Manager
use laguna.Segment.Manager.{
  Manager, Failure, Batch, create_batch, flatten, fits, batch_size, write_batch, entries_of,
}
use laguna.Segment.Index.{entry_at}
use laguna.Prelude.Map.{nat_key, lookup}
use laguna.Segment.Manager.Log.{IsReady, log_bytes, write_lem}
use laguna.Segment.Manager.Bounds.{IsBounded, write-IsBounded}
use laguna.Segment.Manager.Positions.{LeadsTo, write_batch-LeadsTo}
use laguna.Replication.Protocol
use laguna.Wal.Flush.{Worker, flush}
use laguna.Wal.Flush.Laws.{flush_blocks}
use laguna.Examples.Parts.{
  set_row, del_row, two_rows, set_row_bytes, del_row_bytes, set_row-IsEncodable,
  del_row-IsEncodable, small_manager, small_manager-IsReady,
}

flatten_rows : Protocol.flatten two_rows ≡ ok (set_row_bytes ++ del_row_bytes)
unfolding Protocol.flatten laguna.Wal.Row.marshal laguna.Wal.Row.marshal_args
    laguna.Prelude.Binary.put_be
flatten_rows = refl

-- The two rows do not fit one segment of 20 bytes.
write_lem_example :
    ((Manager.write two_rows small_manager).1 ≡ ok tt)
    × IsReady (Manager.write two_rows small_manager).0
    × (log_bytes (Manager.write two_rows small_manager).0
        ≡ log_bytes small_manager ++ (set_row_bytes ++ del_row_bytes))
write_lem_example =
    write_lem two_rows (set_row_bytes ++ del_row_bytes) small_manager small_manager-IsReady
      flatten_rows

abbrev two_rows_batch : Batch
two_rows_batch = (set_row, set_row_bytes) ∷ ((del_row, del_row_bytes) ∷ [])

create_two_rows : create_batch two_rows ≡ ok two_rows_batch
unfolding create_batch laguna.Wal.Row.marshal laguna.Wal.Row.marshal_args
    laguna.Prelude.Binary.put_be
create_two_rows = refl

small_manager-IsBounded : IsBounded small_manager
small_manager-IsBounded = record { current = omega arith; others = tt }

write-IsBounded_example : IsBounded (Manager.write two_rows small_manager).0
write-IsBounded_example =
    write-IsBounded two_rows two_rows_batch small_manager small_manager-IsReady
      small_manager-IsBounded create_two_rows (omega arith, (omega arith, tt))

entry_of_del_row :
    lookup 2 (entries_of (codes "a") 0 two_rows_batch) ≡ some (entry_at (codes "a") 17)
unfolding lookup laguna.Prelude.Map.insert Manager.entries_loop
entry_of_del_row = refl

write_batch-LeadsTo_example :
    ((write_batch two_rows_batch small_manager).0.pending
      ≡ entries_of (codes "a") 0 two_rows_batch ∷ [])
    × (codes "a" ≡ (write_batch two_rows_batch small_manager).0.cur_seg.file.name)
    × LeadsTo 2
        (entry_at (codes "a") 17)
        (write_batch two_rows_batch small_manager).0.cur_seg.file.content
        two_rows
write_batch-LeadsTo_example =
    write_batch-LeadsTo two_rows two_rows_batch small_manager 2 (entry_at (codes "a") 17)
      small_manager-IsReady (set_row-IsEncodable, (del_row-IsEncodable, tt)) create_two_rows
      entry_of_del_row

-- The first call of the disk writes 3 bytes and fails.
abbrev disk_full : Failure
disk_full = record { written = 3; error = errors_new (codes "disk full") }

abbrev failing_manager : Manager
failing_manager = record small_manager { outcomes = some disk_full ∷ [] }

abbrev one_row_batch : Batch
one_row_batch = (set_row, set_row_bytes) ∷ []

create_one_row : create_batch (set_row ∷ []) ≡ ok one_row_batch
unfolding create_batch laguna.Wal.Row.marshal laguna.Wal.Row.marshal_args
    laguna.Prelude.Binary.put_be
create_one_row = refl

flatten_one_row : flatten one_row_batch ≡ set_row_bytes
unfolding flatten
flatten_one_row = refl

one_row_bytes : flatten one_row_batch ≢ []
one_row_bytes h = cc (flatten_one_row, h)

one_row_fits : fits failing_manager.cur_seg (batch_size one_row_batch) ≡ true
unfolding fits batch_size
one_row_fits = refl

abbrev two_rows_worker : Worker
two_rows_worker = record {
  store = small_manager;
  query_buf = two_rows;
  future_resp = 4 ∷ (5 ∷ []);
  answers = [];
}

abbrev one_row_worker : Worker
one_row_worker = record {
  store = failing_manager;
  query_buf = set_row ∷ [];
  future_resp = 4 ∷ [];
  answers = [];
}

flush_blocks_example :
    ((flush one_row_worker).1 ≡ fault blocked_forever)
    × ((flush one_row_worker).0.future_resp ≡ 4 ∷ [])
    × ((flush one_row_worker).0.answers ≡ [])
flush_blocks_example =
    flush_blocks one_row_worker set_row [] one_row_batch disk_full [] refl refl refl create_one_row
      one_row_bytes one_row_fits
