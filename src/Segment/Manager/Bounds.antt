-- ===== src/Segment/Manager/Bounds.antt =====
-- The sizes of the segment files.
use laguna.Prelude.{
  ℕ, ◌+◌, ◌≤◌, ◌≡◌, refl, ap, arith, List, [], ◌∷◌, ◌++◌, length, length-append, All, All-append,
  true,
}
use laguna.Prelude.{Bytes, ok, Bool-cases, inl, inr}
use laguna.Segment.Manager.{
  new_segment, File, Manager, Batch, fits, write_in_seg, flatten, write_batch, process_loop,
  process_batches, create_batch, write, batch_size,
}
use laguna.Segment.Manager.Log.{
  IsReady, write_in_seg_lem, write_in_seg-cons, rotate_lem, write_batch_lem, new_segment_lem,
  process_loop-fits, process_loop_rotates, flatten-append,
}
use laguna.Wal.Row.{Row}

-- No file is larger than the segments may be.
pub record IsBounded (m : Manager) : Type 0 where
  pub current : m.cur_seg.size ≤ m.cur_seg.max_size
  pub others : All (λ (f : File). length f.content ≤ m.cur_seg.max_size) m.closed

-- Each row of a batch fits a segment of its own.
abbrev pub RowsFit : ℕ → Batch → Type 0
RowsFit max batch = All (λ (p : Row × Bytes). length p.1 ≤ max) batch

-- The segment that is written to has grown by so many bytes, and the others are as they were.
abbrev Grows : ℕ → Manager → Manager → Type 0
Grows n m m' =
    (m'.cur_seg.size ≡ m.cur_seg.size + n)
    × (m'.cur_seg.max_size ≡ m.cur_seg.max_size)
    × (m'.closed ≡ m.closed)

write_in_seg-Grows :
    (bytes : Bytes) (m : Manager) → IsReady m → Grows (length bytes) m (write_in_seg bytes m).0
write_in_seg-Grows [] m v = unfold write_in_seg in (omega arith, refl, refl)
write_in_seg-Grows (b ∷ bs) m v = rw (write_in_seg-cons b bs m v) (refl, refl, refl)

write_batch-Grows :
    (batch : Batch) (m : Manager)
    → IsReady m
    → Grows (length (flatten batch)) m (write_batch batch m).0
unfolding write_batch
write_batch-Grows batch m v =
    let (e, _, _) = write_in_seg_lem (flatten batch) m v in
    rw e (write_in_seg-Grows (flatten batch) m v)

write_batch-IsBounded :
    (batch : Batch) (m : Manager)
    → IsReady m
    → IsBounded m
    → length (flatten batch) + m.cur_seg.size ≤ m.cur_seg.max_size
    → IsBounded (write_batch batch m).0
write_batch-IsBounded batch m v i h =
    let (s, x, c) = write_batch-Grows batch m v in
    record { current = omega (arith, s, x, h); others = rw (x, c) i.others }

new_segment-IsBounded : (m : Manager) → IsReady m → IsBounded m → IsBounded (new_segment m)
new_segment-IsBounded m v i = record {
  current = omega arith;
  others = All-append _ m.closed (m.cur_seg.file ∷ []) i.others (omega (arith, v.sized, i.current));
}

process_loop-IsBounded :
    (group : Batch) (size : ℕ) (rest : Batch) (m : Manager)
    → IsReady m
    → IsBounded m
    → RowsFit m.cur_seg.max_size rest
    → size ≡ length (flatten group)
    → size + m.cur_seg.size ≤ m.cur_seg.max_size
    → IsBounded (process_loop group size rest m).0
process_loop-IsBounded group size [] m v i f e h =
    unfold process_loop in write_batch-IsBounded group m v i (omega (arith, e, h))
process_loop-IsBounded group size ((r, b) ∷ rest) m v i f e h =
    elim (Bool-cases (fits m.cur_seg (size + length b))) [
      | inl y ↦ rw (process_loop-fits group size r b rest m y) (
          process_loop-IsBounded (group ++ ((r, b) ∷ [])) (size + length b) rest m v i f.1
            (added r b) (unfold fits in ground arith))
      | inr n ↦
          let (o, v₁, _) = write_batch_lem group m v in
          let m₁ = (write_batch group m).0 in
          let (_, x, _) = write_batch-Grows group m v in
          let i₁ = write_batch-IsBounded group m v i (omega (arith, e, h)) in
          let (v₂, _) = new_segment_lem m₁ v₁ in
          rw (process_loop_rotates group size r b rest m n, o, rotate_lem m₁ v₁)
            (process_loop-IsBounded ((r, b) ∷ []) (length b) rest (new_segment m₁) v₂
              (new_segment-IsBounded m₁ v₁ i₁) (rw x f.1) (single r b) (omega (arith, x, f.0)))
    ]
  where
    single : (r : Row) (b : Bytes) → length b ≡ length (flatten ((r, b) ∷ []))
    single r b = unfold flatten in omega (arith, length-append b [])

    added : (r : Row) (b : Bytes) → size + length b ≡ length (flatten (group ++ ((r, b) ∷ [])))
    added r b = omega (
      arith,
      e,
      ap length (flatten-append group ((r, b) ∷ [])),
      length-append (flatten group) (flatten ((r, b) ∷ [])),
      single r b,
    )

batch_size_bound : (batch : Batch) → length (flatten batch) ≤ batch_size batch
unfolding flatten batch_size
batch_size_bound [] = omega arith
batch_size_bound ((r, b) ∷ rest) =
    omega (arith, length-append b (flatten rest), batch_size_bound rest)

-- On a disk that does not fail, if no segment file is larger than its limit and each row fits a segment
-- of its own, then no segment file is larger than the limit when the rows are written.
pub write-IsBounded :
    (rows : List Row) (batch : Batch) (m : Manager)
    → IsReady m
    → IsBounded m
    → create_batch rows ≡ ok batch
    → RowsFit m.cur_seg.max_size batch
    → IsBounded (write rows m).0
unfolding write process_batches
write-IsBounded rows batch m v i c f = rw c (elim (Bool-cases (fits m.cur_seg (batch_size batch))) [
  | inl e ↦ rw e (
      write_batch-IsBounded batch m v i
        (room (batch_size batch) (length (flatten batch)) e (batch_size_bound batch)))
  | inr e ↦ rw e (
      process_loop-IsBounded [] 0 batch m v i f (unfold flatten in refl) (omega (arith, i.current)))
])
  where
    room : (n k : ℕ) → fits m.cur_seg n ≡ true → k ≤ n → k + m.cur_seg.size ≤ m.cur_seg.max_size
    room n k e h = unfold fits in ground (arith, e)
