-- ===== src/Logs/Segments/Laws.antt =====
-- Directories whose segments hold rows.
use laguna.Prelude.{
  ℕ, ◌≡◌, refl, ap, ◌∙◌, List, [], ◌∷◌, ◌++◌, length, drop, drop-append, get_elem?, Bytes, some,
  All, concat, Result, ok, err, eof,
}
use laguna.Utils.Dir.{Files, read_dir, read_dirs_from}
use laguna.Utils.Dir.Search.{IsSorted, find_from_lem}
use laguna.Wal.Row.{Row, unmarshal}
use laguna.Wal.Row.Codec.{IsEncodable}
use laguna.Logs.Reader.{read, bytes_reader, read_from_offset}
use laguna.Logs.Reader.Chunks.{content-bytes_reader, read-flatten}
use laguna.Replication.Protocol.{flatten}
use laguna.Logs.Segments.{path, read_names, read_from, restore_names, restore_system}
use mathlib.Core.List.{map}

-- Bytes that hold some rows, and a torn row behind them.
pub record Holds (bytes : Bytes) (rows : List Row) : Type 0 where
  pub whole : Bytes
  pub torn : Bytes
  pub split : bytes ≡ whole ++ torn
  pub encodable : All IsEncodable rows
  pub form : flatten rows ≡ ok whole
  pub stops : unmarshal torn ≡ err eof

read-Holds :
    (bytes : Bytes) (rows : List Row) → Holds bytes rows → read (bytes_reader bytes) ≡ ok rows
read-Holds bytes rows h =
    read-flatten rows h.whole h.torn (bytes_reader bytes) h.encodable h.form h.stops
      (content-bytes_reader bytes ∙ h.split) (unfold bytes_reader in refl)

-- Each file of a directory holds its rows.
pub data Segments (segment : Bytes → Result Bytes) (directory : Bytes)
    : List Bytes → List (List Row) → Type 0 where
  none_left : Segments segment directory [] []
  next :
      (name : Bytes) (names : List Bytes) (bytes : Bytes) (rows : List Row) (more : List (List Row))
      → segment (path directory name) ≡ ok bytes
      → Holds bytes rows
      → Segments segment directory names more
      → Segments segment directory (name ∷ names) (rows ∷ more)

module _ (segment : Bytes → Result Bytes) (directory : Bytes) where
  read_names_lem :
      (names : List Bytes) (rows : List (List Row))
      → Segments segment directory names rows
      → read_names segment directory 0 names ≡ ok (concat rows)
  unfolding read_names read_from_offset
  read_names_lem names rows none_left = refl
  read_names_lem names rows (next name names' bytes r more e h s) =
      rw (e, read-Holds bytes r h, read_names_lem names' more s) refl

  -- In a directory with sorted names, whose files from `target` on hold rows, with what is torn behind
  -- them: if the bytes of `target` from the offset on hold `rows`, ReadFrom returns `rows` and then
  -- the rows of all later files, in order.
  pub read_from_lem :
      (f : Files) (names later : List Bytes) (b : ℕ) (bs front back : Bytes) (j : ℕ)
      (rows : List Row) (more : List (List Row))
      → read_dir f ≡ ok names
      → IsSorted names
      → get_elem? names j ≡ some (b ∷ bs)
      → drop j names ≡ (b ∷ bs) ∷ later
      → segment (path directory (b ∷ bs)) ≡ ok (front ++ back)
      → Holds back rows
      → Segments segment directory later more
      → read_from segment directory f (b ∷ bs) (length front) ≡ ok (rows ++ concat more)
  unfolding read_from read_dirs_from
  read_from_lem f names later b bs front back j rows more d s g l c h k =
      rw (d, find_from_lem names b bs j s g, l) first
    where
      first :
          read_names segment directory (length front) ((b ∷ bs) ∷ later) ≡ ok (rows ++ concat more)
      first =
          unfold read_names read_from_offset in
          rw (c, drop-append front back, read-Holds back rows h, read_names_lem later more k) refl

restore_names_lem :
    (f : Files) (directory : Bytes) (names : List Bytes) (rows : List (List Row))
    → Segments f.content directory names rows
    → (restore_names f directory names).0 ≡ map ok rows
unfolding restore_names
restore_names_lem f directory names rows none_left = refl
restore_names_lem f directory names rows (next name names' bytes r more e h s) =
    rw (e, read-Holds bytes r h) (ap (λ t. ok r ∷ t) (restore_names_lem f directory names' more s))

-- If the files of a directory hold rows, with what is torn behind them, RestoreSystemStream puts the rows
-- of each file into its stream, in the order of the names, and no error.
pub restore_system_lem :
    (f : Files) (directory : Bytes) (names : List Bytes) (rows : List (List Row))
    → read_dir f ≡ ok names
    → Segments f.content directory names rows
    → (restore_system f directory).0 ≡ map ok rows
unfolding restore_system
restore_system_lem f directory names rows d s = rw d (restore_names_lem f directory names rows s)
