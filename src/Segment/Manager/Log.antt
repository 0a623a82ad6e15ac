-- ===== src/Segment/Manager/Log.antt =====
-- The rows that are written, in the order of the log, whatever the rotations.
use laguna.Prelude.{
  ℕ, ◌+◌, ◌≡◌, refl, ap, sym, ◌∙◌, arith, List, [], ◌∷◌, ◌++◌, length, append_assoc, append-nil,
  true, false, length-append,
}
use laguna.Prelude.{Bytes, Result, ok, ◌>>>◌, Bool-cases, inl, inr, >>=-eq-ok}
use laguna.Segment.Manager.{
  append_bytes, new_segment, File, Manager, Batch, fits, file_write, file_rotate, lock,
  write_in_seg, rotate, flatten, write_batch, process_loop, process_batches, create_batch, write,
  batch_size,
}
use laguna.Replication.Protocol
use laguna.Wal.Row.{Row, marshal}

-- The contents of files, one after the other.
unfoldable pub contents : List File → Bytes
contents [] = []
contents (f ∷ fs) = f.content ++ contents fs

-- All bytes of the log.
unfoldable pub log_bytes : Manager → Bytes
log_bytes m = contents m.closed ++ m.cur_seg.file.content

-- The manager between two calls, on a disk that does not fail: nobody holds the lock, and the size of
-- the current segment is that of its file.
pub record IsReady (m : Manager) : Type 0 where
  pub unlocked : m.locked ≡ false
  pub no_failures : m.outcomes ≡ []
  pub sized : m.cur_seg.size ≡ length m.cur_seg.file.content

contents-append : (fs gs : List File) → contents (fs ++ gs) ≡ contents fs ++ contents gs
unfolding contents
contents-append [] gs = refl
contents-append (f ∷ fs) gs =
    ap (λ t. f.content ++ t) (contents-append fs gs) ∙ sym (append_assoc f.content _ _)

-- What a call on a ready manager does: no error, a ready manager, and these bytes behind the log's.
abbrev pub Appends : Bytes → Manager → Manager × Result (Unit {0}) → Type 0
Appends bytes m p = (p.1 ≡ ok tt) × IsReady p.0 × (log_bytes p.0 ≡ log_bytes m ++ bytes)

-- A write of the file that succeeds.
abbrev pub written : Bytes → Manager → Manager
written bytes m = record m {
  cur_seg = record (append_bytes bytes m.cur_seg) { size = m.cur_seg.size + length bytes };
}

pub write_in_seg-cons :
    (b : ℕ) (bs : Bytes) (m : Manager)
    → IsReady m
    → write_in_seg (b ∷ bs) m ≡ (written (b ∷ bs) m, ok tt)
unfolding write_in_seg lock file_write
write_in_seg-cons b bs m v = ground arith

pub rotate_lem : (m : Manager) → IsReady m → rotate m ≡ (new_segment m, ok tt)
unfolding rotate lock file_rotate
rotate_lem m v = ground arith

pub write_in_seg_lem :
    (bytes : Bytes) (m : Manager) → IsReady m → Appends bytes m (write_in_seg bytes m)
unfolding log_bytes
write_in_seg_lem [] m v = unfold write_in_seg in (refl, v, sym (append-nil (log_bytes m)))
write_in_seg_lem (b ∷ bs) m v = rw (write_in_seg-cons b bs m v) (
  refl,
  record {
    unlocked = v.unlocked;
    no_failures = v.no_failures;
    sized = omega (arith, v.sized, length-append m.cur_seg.file.content (b ∷ bs));
  },
  sym (append_assoc (contents m.closed) m.cur_seg.file.content (b ∷ bs)),
)

pub new_segment_lem :
    (m : Manager) → IsReady m → IsReady (new_segment m) × (log_bytes (new_segment m) ≡ log_bytes m)
unfolding log_bytes
new_segment_lem m v = (
  record { unlocked = v.unlocked; no_failures = v.no_failures; sized = refl },
  append-nil (contents (m.closed ++ (m.cur_seg.file ∷ [])))
      ∙ contents-append m.closed (m.cur_seg.file ∷ [])
      ∙ ap (λ t. contents m.closed ++ t) (unfold contents in append-nil m.cur_seg.file.content),
)

pub write_batch_lem :
    (batch : Batch) (m : Manager) → IsReady m → Appends (flatten batch) m (write_batch batch m)
unfolding write_batch log_bytes
write_batch_lem batch m v =
    let (e, v', l) = write_in_seg_lem (flatten batch) m v in
    rw e
      (refl, record { unlocked = v'.unlocked; no_failures = v'.no_failures; sized = v'.sized }, l)

pub flatten-append : (xs ys : Batch) → flatten (xs ++ ys) ≡ flatten xs ++ flatten ys
unfolding flatten
flatten-append [] ys = refl
flatten-append ((r, b) ∷ xs) ys =
    ap (λ t. b ++ t) (flatten-append xs ys) ∙ sym (append_assoc b (flatten xs) (flatten ys))

module _ (group : Batch) (size : ℕ) (r : Row) (b : Bytes) (rest : Batch) (m : Manager) where
  pub process_loop-fits :
      fits m.cur_seg (size + length b) ≡ true
      → process_loop group size ((r, b) ∷ rest) m
        ≡ process_loop (group ++ ((r, b) ∷ [])) (size + length b) rest m
  unfolding process_loop
  process_loop-fits e = ground arith

  pub process_loop_rotates :
      fits m.cur_seg (size + length b) ≡ false
      → process_loop group size ((r, b) ∷ rest) m ≡ (
          write_batch group m >>> λ _ m₁.
          rotate m₁ >>> λ _ m₂. process_loop ((r, b) ∷ []) (length b) rest m₂)
  unfolding process_loop
  process_loop_rotates e = ground arith

flatten-single :
    (r : Row) (b : Bytes) (rest : Batch)
    → flatten ((r, b) ∷ []) ++ flatten rest ≡ flatten ((r, b) ∷ rest)
unfolding flatten
flatten-single r b rest = ap (λ t. t ++ flatten rest) (append-nil b)

-- A row that joins the group leaves the bytes and their order as they were.
pub flatten_regroup :
    (group : Batch) (r : Row) (b : Bytes) (rest : Batch)
    → flatten (group ++ ((r, b) ∷ [])) ++ flatten rest ≡ flatten group ++ flatten ((r, b) ∷ rest)
flatten_regroup group r b rest =
    ap (λ t. t ++ flatten rest) (flatten-append group ((r, b) ∷ []))
    ∙ append_assoc (flatten group) (flatten ((r, b) ∷ [])) (flatten rest)
    ∙ ap (λ t. flatten group ++ t) (flatten-single r b rest)

-- The loop writes its group and the rest, in order, whatever it rotates.
process_loop_lem :
    (group : Batch) (size : ℕ) (rest : Batch) (m : Manager)
    → IsReady m
    → Appends (flatten group ++ flatten rest) m (process_loop group size rest m)
process_loop_lem group size [] m v =
    let nothing : flatten [] ≡ [] = unfold flatten in refl in
    let stop : process_loop group size [] m ≡ write_batch group m = unfold process_loop in refl in
    rw (stop, nothing, append-nil (flatten group)) (write_batch_lem group m v)
process_loop_lem group size ((r, b) ∷ rest) m v =
    elim (Bool-cases (fits m.cur_seg (size + length b))) [
      | inl e ↦
          rw (process_loop-fits group size r b rest m e, ← flatten_regroup group r b rest)
            (process_loop_lem (group ++ ((r, b) ∷ [])) (size + length b) rest m v)
      | inr e ↦
          let (o, v₁, l₁) = write_batch_lem group m v in
          let m₁ = (write_batch group m).0 in
          let (v₂, l₂) = new_segment_lem m₁ v₁ in
          let (o', v₃, l₃) = process_loop_lem ((r, b) ∷ []) (length b) rest (new_segment m₁) v₂ in
          rw (process_loop_rotates group size r b rest m e, o, rotate_lem m₁ v₁)
            (
              o',
              v₃,
              l₃
                  ∙ ap (λ t. t ++ (flatten ((r, b) ∷ []) ++ flatten rest)) (l₂ ∙ l₁)
                  ∙ append_assoc (log_bytes m) (flatten group) _
                  ∙ ap (λ t. log_bytes m ++ (flatten group ++ t)) (flatten-single r b rest),
            )
    ]

-- The binary forms of the rows, one after the other.
pub create_batch-flatten :
    (rows : List Row) (bytes : Bytes)
    → Protocol.flatten rows ≡ ok bytes
    → (batch : Batch) × (create_batch rows ≡ ok batch) × (flatten batch ≡ bytes)
unfolding create_batch flatten Protocol.flatten
create_batch-flatten [] bytes h = ([], refl, cc h)
create_batch-flatten (r ∷ rows) bytes h =
    let (b, e, k) = >>=-eq-ok (marshal r) _ h in
    let (tail, e', k') = >>=-eq-ok (Protocol.flatten rows) _ k in
    let (batch, c, f) = create_batch-flatten rows tail e' in
    ((r, b) ∷ batch, rw (e, c), ap (λ t. b ++ t) f ∙ cc k')

pub flatten-append_ok :
    (rows more : List Row) (bytes bytes' : Bytes)
    → Protocol.flatten rows ≡ ok bytes
    → Protocol.flatten more ≡ ok bytes'
    → Protocol.flatten (rows ++ more) ≡ ok (bytes ++ bytes')
unfolding Protocol.flatten
flatten-append_ok [] more bytes bytes' h k = let e : [] ≡ bytes = cc h in rw (← e) k
flatten-append_ok (r ∷ rows) more bytes bytes' h k =
    let (b, e, l) = >>=-eq-ok (marshal r) _ h in
    let (rest, e', l') = >>=-eq-ok (Protocol.flatten rows) _ l in
    let split : b ++ rest ≡ bytes = cc l' in
    rw (e, flatten-append_ok rows more rest bytes' e' k, ← split, append_assoc b rest bytes') refl

-- On a disk that does not fail, rows that have a binary form are written without an error: the bytes of
-- the log, over all segments, are those it had, followed by the rows in order, whatever segments were
-- begun on the way, and the manager is ready for the next call.
pub write_lem :
    (rows : List Row) (bytes : Bytes) (m : Manager)
    → IsReady m
    → Protocol.flatten rows ≡ ok bytes
    → ((write rows m).1 ≡ ok tt)
      × IsReady (write rows m).0
      × (log_bytes (write rows m).0 ≡ log_bytes m ++ bytes)
unfolding write process_batches
write_lem rows bytes m v h =
    let (batch, c, f) = create_batch-flatten rows bytes h in
    let whole : Appends bytes m (write_batch batch m) = rw f at (write_batch_lem batch m v) in
    let grouped : Appends (flatten batch) m (process_loop [] 0 batch m) =
      unfold flatten in process_loop_lem [] 0 batch m v in
    let parts : Appends bytes m (process_loop [] 0 batch m) = rw f at grouped in
    rw c (elim (Bool-cases (fits m.cur_seg (batch_size batch))) [
      | inl e ↦ rw e whole
      | inr e ↦ rw e parts
    ])
