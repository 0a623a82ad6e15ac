-- ===== src/Logs/Segments/Restart.antt =====
-- From the rows that were written to the queries of a restart.
use laguna.Prelude.{
  ℕ, suc, ◌+◌, ◌-◌, ◌^◌, ◌<◌, ◌≡◌, refl, sym, ap, ◌∙◌, arith, List, [], ◌∷◌, ◌++◌, append-nil,
  concat, Bytes, All, All-append, All-split, Result, ok, err, eof,
}
use laguna.Utils.Dir.{Files, read_dir}
use laguna.Utils.IdGenerator.{Generator, next_id}
use laguna.Query.{Query}
use laguna.Segment.Manager.{File, Manager, create_batch}
use laguna.Segment.Manager
use laguna.Segment.Manager.Log.{IsReady}
use laguna.Segment.Manager.Files.{
  HoldRows, no_files, file, files, IsWhole, files-HoldRows, concat-append, write-IsWhole,
}
use laguna.Wal.Row.{Row, unmarshal}
use laguna.Wal.Row.Codec.{IsEncodable}
use laguna.Wal.Restore.{query_of, restore_stream, restore_stream_lem}
use laguna.Replication.Protocol
use laguna.Logs.Segments.{path, restore_system}
use laguna.Logs.Segments.Laws.{Holds, Segments, restore_system_lem}
use mathlib.Core.List.{map, map-append}

-- The directory delivers what the files hold.
abbrev pub Delivers : Files → Bytes → List File → Type 0
Delivers f directory fs = All (λ (x : File). f.content (path directory x.name) ≡ ok x.content) fs

abbrev pub names_of : List File → List Bytes
names_of fs = map (λ (x : File). x.name) fs

unmarshal-nil : unmarshal [] ≡ err eof
unfolding unmarshal laguna.Wal.Row.read_row laguna.Prelude.Binary.read_be
    laguna.Prelude.Binary.read_full
unmarshal-nil = refl

whole-Holds :
    (bytes : Bytes) (rows : List Row)
    → All IsEncodable rows
    → Protocol.flatten rows ≡ ok bytes
    → Holds bytes rows
whole-Holds bytes rows x h = record {
  whole = bytes;
  torn = [];
  split = sym (append-nil bytes);
  encodable = x;
  form = h;
  stops = unmarshal-nil;
}

pub HoldRows-Segments :
    (f : Files) (directory : Bytes) (fs : List File) (rows : List (List Row))
    → Delivers f directory fs
    → All IsEncodable (concat rows)
    → HoldRows fs rows
    → Segments f.content directory (names_of fs) rows
HoldRows-Segments f directory fs rows d x no_files = Segments.none_left
HoldRows-Segments f directory fs rows d x (file g gs r more e h) =
    let (a, b) = All-split IsEncodable r (concat more) x in
    Segments.next g.name (names_of gs) g.content r more d.0 (whole-Holds g.content r a e)
      (HoldRows-Segments f directory gs more d.1 b h)

pub concat-queries :
    (batches : List (List Row))
    → concat (map (λ (rows : List Row). map query_of rows) batches) ≡ map query_of (concat batches)
concat-queries [] = refl
concat-queries (rows ∷ more) =
    ap (λ t. map query_of rows ++ t) (concat-queries more)
    ∙ sym (map-append query_of rows (concat more))

pub map-ok :
    (batches : List (List Row))
    → map (λ (rows : List Row). ok (map query_of rows)) batches
      ≡ map ok (map (λ (rows : List Row). map query_of rows) batches)
map-ok [] = refl
map-ok (rows ∷ more) = ap (λ t. ok (map query_of rows) ∷ t) (map-ok more)

-- Where a manager holds the rows `old` in its files, writes `rows`, and the directory then delivers
-- its files: the stream of a restart delivers, without an error, batches of queries that are those of
-- `old` and then those of `rows`, in order, and the next id of the log is above the ids of all of them,
-- as long as those stay below 2 ^ 64 - 1.
pub written_rows_restored :
    (f : Files) (directory : Bytes) (old rows : List Row) (batch : Manager.Batch) (m m' : Manager)
    (g : Generator)
    → IsReady m
    → IsWhole old m
    → create_batch rows ≡ ok batch
    → (Manager.write rows m).0 ≡ m'
    → All IsEncodable (old ++ rows)
    → All (λ (r : Row). r.lsn_id < 2 ^ 64 - 1) (old ++ rows)
    → read_dir f ≡ ok (names_of (files m'))
    → Delivers f directory (files m')
    → (batches : List (List Query)) × ((restore_stream g (restore_system f directory).0).0
        ≡ map ok batches)
      × (concat batches ≡ map query_of (old ++ rows))
      × All
          (λ (r : Row). r.lsn_id < (next_id (restore_stream g (restore_system f directory).0).1).1)
          (old ++ rows)
written_rows_restored f directory old rows batch m m' g r w c e x low names d =
    let v : IsWhole (old ++ rows) m' = rw e at (write-IsWhole rows batch old m r c w) in
    let parts = v.before ++ (v.last ∷ []) in
    let same : concat parts ≡ old ++ rows =
      concat-append v.before (v.last ∷ [])
      ∙ ap (λ t. concat v.before ++ t) (append-nil v.last)
      ∙ sym v.in_order in
    let segments =
      HoldRows-Segments f directory (files m') parts d (rw (← same) at x)
        (files-HoldRows (old ++ rows) m' v) in
    let read = restore_system_lem f directory (names_of (files m')) parts names segments in
    let (stream, above) = restore_stream_lem g parts (rw (← same) at low) in
    (
      map (λ (rs : List Row). map query_of rs) parts,
      rw read (stream ∙ map-ok parts),
      concat-queries parts ∙ ap (map query_of) same,
      rw read (rw same at above),
    )
