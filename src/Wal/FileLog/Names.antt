-- ===== src/Wal/FileLog/Names.antt =====
-- The names of the segment files grow, so that a directory delivers each of them.
use laguna.Prelude.{
  ℕ, suc, ◌+◌, ◌≤◌, ◌<◌, ◌≡◌, refl, sym, ap, ◌∙◌, arith, List, [], ◌∷◌, ◌++◌, append_assoc, Bytes,
  true, false, codes, length, str_eq, str_eq_iff, str_lt, Bool-cases, inl, inr, All, All-append, ok,
}
use laguna.Segment.Manager.{
  File, Manager, Batch, new_segment, fits, write_in_seg, write_batch, process_loop, process_batches,
  create_batch, write, batch_size, flatten,
}
use laguna.Segment.Manager.Files.{files}
use laguna.Segment.Manager.Log.{
  IsReady, write_in_seg-cons, write_in_seg_lem, write_batch_lem, new_segment_lem, rotate_lem,
  process_loop-fits, process_loop_rotates,
}
use laguna.Wal.Row.{Row}
use laguna.Logs.Segments.{path}
use laguna.Logs.Segments.Restart.{Delivers, names_of}
use laguna.Wal.FileLog.{content_of, disk}
use mathlib.Core.List.{map-append}

abbrev pub Before : Bytes → List Bytes → Type 0
Before x names = All (λ (y : Bytes). str_lt x y ≡ true) names

abbrev pub Ascending : List Bytes → Type 0
Ascending [] = Unit {0}
Ascending (x ∷ xs) = Before x xs × Ascending xs

append_cancel : (d x y : Bytes) → d ++ x ≡ d ++ y → x ≡ y
append_cancel [] x y h = h
append_cancel (b ∷ d) x y h = append_cancel d x y (cc h)

lt_irrefl : (x : Bytes) → str_lt x x ≡ false
unfolding str_lt
lt_irrefl [] = refl
lt_irrefl (a ∷ x) = ground (arith, lt_irrefl x)

path_differs : (d x y : Bytes) → str_lt x y ≡ true → str_eq (path d x) (path d y) ≡ false
path_differs d x y h = elim (Bool-cases (str_eq (path d x) (path d y))) [
  | inl e ↦
      let same : x ≡ y =
        append_cancel (codes "/") x y
          (append_cancel d _ _ ((str_eq_iff (path d x) (path d y)).0 e)) in
      absurd (let k : str_lt y y ≡ true = rw same at h in cc (k, lt_irrefl y))
  | inr n ↦ n
]

skips :
    (d : Bytes) (x : File) (xs ys : List File)
    → Before x.name (names_of ys)
    → All (λ (y : File). content_of d xs (path d y.name) ≡ ok y.content) ys
    → All (λ (y : File). content_of d (x ∷ xs) (path d y.name) ≡ ok y.content) ys
skips d x xs [] b h = tt
skips d x xs (y ∷ ys) b h = (rw (path_differs d x.name y.name b.0) h.0, skips d x xs ys b.1 h.1)

pub disk-Delivers :
    (d : Bytes) (fs : List File) → Ascending (names_of fs) → Delivers (disk d fs) d fs
disk-Delivers d [] h = tt
disk-Delivers d (x ∷ xs) h =
    (rw ((str_eq_iff (path d x.name) _).1 refl) refl, skips d x xs xs h.0 (disk-Delivers d xs h.1))

-- The names grow, and the clock goes on to give greater ones.
pub record IsNamed (names : List Bytes) (clock : ℕ → Bytes) (created : ℕ) : Type 0 where
  pub ascending : Ascending names
  pub below : All (λ (x : Bytes). (k : ℕ) → created ≤ k → str_lt x (clock k) ≡ true) names
  pub grows : (i j : ℕ) → i < j → str_lt (clock i) (clock j) ≡ true

Ascending-append :
    (names : List Bytes) (x : Bytes)
    → Ascending names
    → All (λ (y : Bytes). str_lt y x ≡ true) names
    → Ascending (names ++ (x ∷ []))
Ascending-append [] x h k = (tt, tt)
Ascending-append (y ∷ ys) x h k = (
  All-append (λ (z : Bytes). str_lt y z ≡ true) ys (x ∷ []) h.0 (k.0, tt),
  Ascending-append ys x h.1 k.1,
)

All-map :
    {P Q : Bytes → Type 0}
    → ((x : Bytes) → P x → Q x)
    → (names : List Bytes) → All P names
    → All Q names
All-map f [] h = tt
All-map f (x ∷ xs) h = (f x h.0, All-map f xs h.1)

next_name :
    (names : List Bytes) (clock : ℕ → Bytes) (created : ℕ)
    → IsNamed names clock created
    → IsNamed (names ++ (clock created ∷ [])) clock (suc created)
next_name names clock created v = record {
  ascending =
      Ascending-append names (clock created) v.ascending
        (All-map (λ x h. h created (omega arith)) names v.below);
  below =
      All-append _ names (clock created ∷ [])
        (All-map (λ x h k l. h k (omega (arith, l))) names v.below)
        (λ k l. v.grows created k (omega (arith, l)), tt);
  grows = v.grows;
}

-- The names of the files of a directory, of which the manager has begun the last ones.
abbrev pub all_names : List File → Manager → List Bytes
all_names earlier m = names_of earlier ++ (names_of m.closed ++ (m.cur_seg.file.name ∷ []))

pub all_names_lem :
    (earlier : List File) (m : Manager) → names_of (earlier ++ files m) ≡ all_names earlier m
all_names_lem earlier m =
    map-append _ earlier (files m)
    ∙ ap (λ t. names_of earlier ++ t) (map-append _ m.closed (m.cur_seg.file ∷ []))

abbrev pub HasNames : List File → Manager → Type 0
HasNames earlier m = IsNamed (all_names earlier m) m.clock m.created

module _ (earlier : List File) where
  new_segment-HasNames : (m : Manager) → HasNames earlier m → HasNames earlier (new_segment m)
  new_segment-HasNames m v =
      let split : names_of (m.closed ++ (m.cur_seg.file ∷ []))
          ≡ names_of m.closed ++ (m.cur_seg.file.name ∷ []) =
        map-append _ m.closed _ in
      let longer : names_of earlier
            ++ (names_of (m.closed ++ (m.cur_seg.file ∷ [])) ++ (m.clock m.created ∷ []))
          ≡ all_names earlier m ++ (m.clock m.created ∷ []) =
        ap (λ t. names_of earlier ++ (t ++ (m.clock m.created ∷ []))) split
        ∙ sym (append_assoc (names_of earlier) _ (m.clock m.created ∷ [])) in
      rw longer (next_name (all_names earlier m) m.clock m.created v)

  write_in_seg-HasNames :
      (bytes : Bytes) (m : Manager)
      → IsReady m
      → HasNames earlier m
      → HasNames earlier (write_in_seg bytes m).0
  write_in_seg-HasNames [] m r v = unfold write_in_seg in v
  write_in_seg-HasNames (b ∷ bs) m r v = rw (write_in_seg-cons b bs m r) v

  write_batch-HasNames :
      (batch : Batch) (m : Manager)
      → IsReady m
      → HasNames earlier m
      → HasNames earlier (write_batch batch m).0
  unfolding write_batch
  write_batch-HasNames batch m r v =
      let (o, _, _) = write_in_seg_lem (flatten batch) m r in
      rw o (write_in_seg-HasNames (flatten batch) m r v)

  process_loop-HasNames :
      (group : Batch) (size : ℕ) (rest : Batch) (m : Manager)
      → IsReady m
      → HasNames earlier m
      → HasNames earlier (process_loop group size rest m).0
  process_loop-HasNames group size [] m r v =
      unfold process_loop in write_batch-HasNames group m r v
  process_loop-HasNames group size ((x, b) ∷ rest) m r v =
      elim (Bool-cases (fits m.cur_seg (size + length b))) [
        | inl y ↦
            rw (process_loop-fits group size x b rest m y)
              (process_loop-HasNames (group ++ ((x, b) ∷ [])) (size + length b) rest m r v)
        | inr n ↦
            (let (o, r₁, _) = write_batch_lem group m r in
              let m₁ = (write_batch group m).0 in
              let (r₂, _) = new_segment_lem m₁ r₁ in
              let w = new_segment-HasNames m₁ (write_batch-HasNames group m r v) in
              rw (process_loop_rotates group size x b rest m n, o, rotate_lem m₁ r₁)
                (process_loop-HasNames ((x, b) ∷ []) (length b) rest (new_segment m₁) r₂ w))
      ]

  pub write-HasNames :
      (rows : List Row) (batch : Batch) (m : Manager)
      → IsReady m
      → create_batch rows ≡ ok batch
      → HasNames earlier m
      → HasNames earlier (write rows m).0
  unfolding write process_batches
  write-HasNames rows batch m r c v = rw c (elim (Bool-cases (fits m.cur_seg (batch_size batch))) [
    | inl y ↦ rw y (write_batch-HasNames batch m r v)
    | inr n ↦ rw n (process_loop-HasNames [] 0 batch m r v)
  ])
