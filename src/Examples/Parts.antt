-- ===== src/Examples/Parts.antt =====
-- Rows, files and managers that the examples share.
use laguna.Prelude.{List, [], ◌∷◌, Bytes, codes, false, ◌≡◌, refl, ok, arith}
use laguna.Wal.Row.{Row, new_row, marshal}
use laguna.Wal.Row.Codec.{IsEncodable}
use laguna.Segment.Manager.{Manager}
use laguna.Segment.Manager.Log.{IsReady}

-- SET k v
abbrev pub set_row : Row
set_row = new_row 1 0 (codes "k" ∷ (codes "v" ∷ []))

-- DEL k
abbrev pub del_row : Row
del_row = new_row 2 2 (codes "k" ∷ [])

abbrev pub two_rows : List Row
two_rows = set_row ∷ (del_row ∷ [])

abbrev pub set_row_bytes : Bytes
set_row_bytes = 0 ∷ 0 ∷ 0 ∷ 0 ∷ 0 ∷ 0 ∷ 0 ∷ 1 ∷ 0 ∷ 0 ∷ 2 ∷ 0 ∷ 1 ∷ 107 ∷ 0 ∷ 1 ∷ 118 ∷ []

abbrev pub del_row_bytes : Bytes
del_row_bytes = 0 ∷ 0 ∷ 0 ∷ 0 ∷ 0 ∷ 0 ∷ 0 ∷ 2 ∷ 2 ∷ 0 ∷ 1 ∷ 0 ∷ 1 ∷ 107 ∷ []

pub marshal-set_row : marshal set_row ≡ ok set_row_bytes
unfolding marshal laguna.Wal.Row.marshal_args laguna.Prelude.Binary.put_be
marshal-set_row = refl

pub set_row-IsEncodable : IsEncodable set_row
set_row-IsEncodable = record {
  lsn_fits = omega arith;
  method_fits = omega arith;
  count_fits = omega arith;
}

pub del_row-IsEncodable : IsEncodable del_row
del_row-IsEncodable = record {
  lsn_fits = omega arith;
  method_fits = omega arith;
  count_fits = omega arith;
}

-- A manager of segments of at most 20 bytes, at its start.
abbrev pub small_manager : Manager
small_manager = record {
  locked = false;
  cur_seg = record { file = record { name = codes "a"; content = [] }; size = 0; max_size = 20 };
  closed = [];
  im = [];
  pending = [];
  outcomes = [];
  clock = λ n. n ∷ [];
  created = 0;
}

pub small_manager-IsReady : IsReady small_manager
small_manager-IsReady = record { unlocked = refl; no_failures = refl; sized = refl }
