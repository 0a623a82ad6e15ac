-- ===== src/Examples/Restarts.antt =====
-- What a restart finds.
use laguna.Prelude.{
  ℕ, zero, suc, ◌-◌, ◌<◌, ◌^◌, List, [], ◌∷◌, ◌++◌, Bytes, codes, some, get_elem?, drop, ◌≡◌, ◌≢◌,
  refl, ok, err, eof, All, ◌⊎◌, true, str_lt, str_eq, arith, concat, Result, length, if◌then◌else◌,
}
use laguna.Utils.Dir.{Files, read_dir}
use laguna.Utils.IdGenerator
use laguna.Utils.IdGenerator.{next_id}
use laguna.Wal.Row.{Row, unmarshal}
use laguna.Wal.Restore.{query_of, restore_stream}
use laguna.Query.{Query}
use mathlib.Core.List.{map}
use laguna.Segment.Manager
use laguna.Segment.Manager.Files.{HoldRows, IsWhole, files}
use laguna.Logs.Segments.Restart.{names_of, Delivers, written_rows_restored}
use laguna.Prelude.{◌+◌, ◌≤◌}
use laguna.Logs.Reader.{read, bytes_reader}
use laguna.Segment.Opening.{new_file_segment, new_segment_manager}
use laguna.Segment.Opening.Torn.{lost_behind_torn}
use laguna.Segment.Manager.{FileSegment, flatten, batch_size, Batch, create_batch, entries_of}
use laguna.Replication.Protocol
use laguna.Logs.Segments.{restore_system}
use laguna.Examples.Parts.{
  small_manager, small_manager-IsReady, set_row, del_row, two_rows, set_row_bytes, del_row_bytes,
  set_row-IsEncodable, del_row-IsEncodable,
}
use laguna.Examples.Directories.{two_rows_batch, flatten_set, two_rows_created}

-- The two rows are written to two segments of 20 bytes.
abbrev written_manager : Manager.Manager
written_manager = (Manager.write two_rows small_manager).0

abbrev written_files : Files
written_files = record {
  names = ok (names_of (files written_manager));
  make = ok tt;
  content = λ name. if str_eq name (codes "wal/a") then ok set_row_bytes else ok del_row_bytes;
}

small_manager-IsWhole : IsWhole [] small_manager
unfolding Protocol.flatten
small_manager-IsWhole = record {
  before = [];
  last = [];
  earlier = HoldRows.no_files;
  current = refl;
  in_order = refl;
}

written_names : read_dir written_files ≡ ok (names_of (files written_manager))
unfolding read_dir
written_names = refl

written-Delivers : Delivers written_files (codes "wal") (files written_manager)
unfolding Manager.write create_batch laguna.Wal.Row.marshal laguna.Wal.Row.marshal_args
    laguna.Prelude.Binary.put_be Manager.process_batches Manager.process_loop Manager.fits
    Manager.batch_size Manager.write_batch Manager.write_in_seg Manager.lock Manager.file_write
    Manager.rotate Manager.file_rotate Manager.flatten str_eq
written-Delivers = (refl, (refl, tt))

written_rows_restored_example :
    (batches : List (List Query)) × ((restore_stream IdGenerator.new
        (restore_system written_files (codes "wal")).0).0
      ≡ map ok batches)
    × (concat batches ≡ query_of set_row ∷ (query_of del_row ∷ []))
    × All
        (λ (r : Row).
          r.lsn_id
          < (next_id
              (restore_stream IdGenerator.new (restore_system written_files (codes "wal")).0).1).1)
        two_rows
written_rows_restored_example =
    written_rows_restored written_files (codes "wal") [] two_rows two_rows_batch small_manager
      written_manager IdGenerator.new small_manager-IsReady small_manager-IsWhole two_rows_created
      refl (set_row-IsEncodable, (del_row-IsEncodable, tt)) (omega arith, (omega arith, tt))
      written_names written-Delivers

-- The beginning of a row with an argument of 65535 bytes.
abbrev long_torn : Bytes
long_torn = 0 ∷ 0 ∷ 0 ∷ 0 ∷ 0 ∷ 0 ∷ 0 ∷ 9 ∷ 0 ∷ 0 ∷ 1 ∷ 255 ∷ 255 ∷ []

abbrev torn_files : Files
torn_files = record {
  names = ok (codes "a" ∷ []);
  make = ok tt;
  content = λ name. ok (set_row_bytes ++ long_torn);
}

abbrev del_batch : Batch
del_batch = (del_row, del_row_bytes) ∷ []

del_created : create_batch (del_row ∷ []) ≡ ok del_batch
unfolding create_batch laguna.Wal.Row.marshal laguna.Wal.Row.marshal_args
    laguna.Prelude.Binary.put_be
del_created = refl

torn_name : read_dir torn_files ≡ ok (codes "a" ∷ [])
unfolding read_dir
torn_name = refl

still_torn : unmarshal (long_torn ++ flatten del_batch) ≡ err eof
unfolding unmarshal laguna.Wal.Row.read_row laguna.Prelude.Binary.read_be flatten
    laguna.Prelude.Binary.read_byte laguna.Wal.Row.read_args
still_torn = refl

del_fits : batch_size del_batch + length (set_row_bytes ++ long_torn) ≤ 4096
unfolding batch_size
del_fits = omega arith

abbrev at_once : ℕ → Bytes
at_once n = n ∷ []

lost_behind_torn_example :
    (segment : FileSegment) × (new_file_segment torn_files (codes "wal") (codes "b") 4096
      ≡ ok segment)
    × ((Manager.write (del_row ∷ []) (new_segment_manager at_once [] [] segment)).1 ≡ ok tt)
    × (read (
          bytes_reader
            (Manager.write
              (del_row ∷ [])
              (new_segment_manager at_once [] [] segment)).0.cur_seg.file.content)
        ≡ ok (set_row ∷ []))
lost_behind_torn_example =
    lost_behind_torn torn_files (codes "wal") (codes "b") (codes "a") [] set_row_bytes long_torn
      4096 at_once (set_row ∷ []) (del_row ∷ []) del_batch torn_name refl (set_row-IsEncodable, tt)
      flatten_set del_created del_fits still_torn
