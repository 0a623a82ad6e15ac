-- ===== src/Utils/Dir.antt =====
-- utils/fs/dir.go: the files of a directory, and those from a name on.
pub mod Search
use laguna.Prelude.{
  ℕ, zero, suc, ◌+◌, ◌-◌, ◌/◌, List, [], ◌∷◌, length, drop, get_elem?, ltb, Bytes, str_eq, str_lt,
  codes, Option, none, some, true, false,
}
use laguna.Prelude.{Error, not_exist, wrapped, Result, ok, err, fault, index, ◌>>=◌}

-- What the operating system answers about one directory: os.ReadDir, which sorts the names, os.MkdirAll,
-- and the content of a file by its path, or the error of opening or reading it.
pub record Files : Type 0 where
  pub names : Result (List Bytes)
  pub make : Result (Unit {0})
  pub content : Bytes → Result Bytes

-- A missing directory is made.
abbrev made : Result (Unit {0}) → Result (List Bytes)
made (ok _) = ok []
made (err e) = err (wrapped (codes "failed to create directory: ") e)
made (fault x) = fault x

abbrev names_or_made : Result (Unit {0}) → Result (List Bytes) → Result (List Bytes)
names_or_made make (err not_exist) = made make
names_or_made make r = r

unfoldable pub read_dir : Files → Result (List Bytes)
read_dir f = names_or_made f.make f.names

-- The loop of `binarySearch`. `hi` is `high + 1`, which is not negative; the fuel bounds the rounds.
unfoldable pub binary_search : ℕ → List Bytes → Bytes → ℕ → ℕ → Result (Option ℕ)
binary_search zero names target lo hi = ok none
binary_search (suc fuel) names target lo hi = elim (ltb lo hi) [
  | false ↦ ok none
  | true ↦ index (get_elem? names ((lo + hi - 1) / 2)) >>= λ name. elim (str_eq name target) [
    | true ↦ ok (some ((lo + hi - 1) / 2))
    | false ↦ elim (str_lt name target) [
      | true ↦ binary_search fuel names target ((lo + hi - 1) / 2 + 1) hi
      | false ↦ binary_search fuel names target lo ((lo + hi - 1) / 2)
    ]
  ]
]

abbrev names_from : List Bytes → Option ℕ → List Bytes
names_from names none = []
names_from names (some i) = drop i names

unfoldable pub find_from : List Bytes → Bytes → Result (List Bytes)
find_from names [] = ok names
find_from names (b ∷ bs) =
    binary_search (length names) names (b ∷ bs) 0 (length names) >>= λ i. ok (names_from names i)

-- ReadDirsFrom
unfoldable pub read_dirs_from : Files → Bytes → Result (List Bytes)
read_dirs_from f file_from = read_dir f >>= λ names. find_from names file_from
