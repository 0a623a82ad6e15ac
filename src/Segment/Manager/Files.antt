-- ===== src/Segment/Manager/Files.antt =====
-- Which rows stand in which file: a rotation never cuts a row.
use laguna.Prelude.{
  ℕ, ◌+◌, ◌≡◌, refl, ap, sym, ◌∙◌, List, [], ◌∷◌, ◌++◌, append_assoc, append-nil, concat, length,
  Bool-cases, inl, inr, Bytes, ok,
}
use laguna.Segment.Manager.{
  new_segment, File, Manager, Batch, fits, flatten, write_in_seg, write_batch, process_loop,
  process_batches, create_batch, write, batch_size,
}
use laguna.Segment.Manager.Log.{
  IsReady, new_segment_lem, write_batch_lem, rotate_lem, write_in_seg-cons, write_in_seg_lem,
  process_loop-fits, process_loop_rotates, flatten-append_ok,
}
use laguna.Segment.Manager.Positions.{
  flatten-create_batch, create_batch-cons, create_batch-nil, write_in_seg_file,
}
use laguna.Replication.Protocol
use laguna.Wal.Row.{Row, marshal}

-- Each file holds the binary forms of its rows, and nothing else.
pub data HoldRows : List File → List (List Row) → Type 0 where
  no_files : HoldRows [] []
  file :
      (f : File) (fs : List File) (rows : List Row) (more : List (List Row))
      → Protocol.flatten rows ≡ ok f.content
      → HoldRows fs more
      → HoldRows (f ∷ fs) (rows ∷ more)

-- The files of a manager, in the order in which they were begun.
abbrev pub files : Manager → List File
files m = m.closed ++ (m.cur_seg.file ∷ [])

-- The files of the manager hold these rows, each file some of them.
pub record IsWhole (rows : List Row) (m : Manager) : Type 0 where
  pub before : List (List Row)
  pub last : List Row
  pub earlier : HoldRows m.closed before
  pub current : Protocol.flatten last ≡ ok m.cur_seg.file.content
  pub in_order : rows ≡ concat before ++ last

pub HoldRows-append :
    (fs gs : List File) (before after : List (List Row))
    → HoldRows fs before
    → HoldRows gs after
    → HoldRows (fs ++ gs) (before ++ after)
HoldRows-append fs gs before after no_files h = h
HoldRows-append fs gs before after (file f fs' rows more e k) h =
    file f (fs' ++ gs) rows (more ++ after) e (HoldRows-append fs' gs more after k h)

pub files-HoldRows :
    (rows : List Row) (m : Manager) (v : IsWhole rows m)
    → HoldRows (files m) (v.before ++ (v.last ∷ []))
files-HoldRows rows m v =
    HoldRows-append m.closed (m.cur_seg.file ∷ []) v.before (v.last ∷ []) v.earlier
      (file m.cur_seg.file [] v.last [] v.current no_files)

pub concat-append : (xs ys : List (List Row)) → concat (xs ++ ys) ≡ concat xs ++ concat ys
concat-append [] ys = refl
concat-append (x ∷ xs) ys =
    ap (λ t. x ++ t) (concat-append xs ys) ∙ sym (append_assoc x (concat xs) (concat ys))

new_segment-IsWhole :
    (rows : List Row) (m : Manager) → IsWhole rows m → IsWhole rows (new_segment m)
new_segment-IsWhole rows m v = record {
  before = v.before ++ (v.last ∷ []);
  last = [];
  earlier = files-HoldRows rows m v;
  current = unfold Protocol.flatten in refl;
  in_order =
      v.in_order
      ∙ ap (λ t. concat v.before ++ t) (sym (append-nil v.last))
      ∙ sym (concat-append v.before (v.last ∷ []))
      ∙ sym (append-nil (concat (v.before ++ (v.last ∷ []))));
}

closed-write_in_seg :
    (bytes : Bytes) (m : Manager) → IsReady m → (write_in_seg bytes m).0.closed ≡ m.closed
closed-write_in_seg [] m v = unfold write_in_seg in refl
closed-write_in_seg (b ∷ bs) m v = rw (write_in_seg-cons b bs m v) refl

write_batch-IsWhole :
    (rows : List Row) (batch : Batch) (old : List Row) (m : Manager)
    → IsReady m
    → create_batch rows ≡ ok batch
    → IsWhole old m
    → IsWhole (old ++ rows) (write_batch batch m).0
unfolding write_batch
write_batch-IsWhole rows batch old m r c v =
    let (_, _, content) = write_in_seg_file (flatten batch) m r in
    let (o, _, _) = write_in_seg_lem (flatten batch) m r in
    rw o (record {
      before = v.before;
      last = v.last ++ rows;
      earlier = rw (closed-write_in_seg (flatten batch) m r) v.earlier;
      current = rw content (
          flatten-append_ok v.last rows m.cur_seg.file.content (flatten batch) v.current
            (flatten-create_batch rows batch c));
      in_order = ap (λ t. t ++ rows) v.in_order ∙ append_assoc (concat v.before) v.last rows;
    })

create_batch-append :
    (xs ys : List Row) (as' bs : Batch)
    → create_batch xs ≡ ok as'
    → create_batch ys ≡ ok bs
    → create_batch (xs ++ ys) ≡ ok (as' ++ bs)
unfolding create_batch
create_batch-append [] ys as' bs h k = rw (create_batch-nil as' h) k
create_batch-append (x ∷ xs) ys as' bs h k =
    let (b, rest, c, split, e) = create_batch-cons x xs as' h in
    rw (e, create_batch-append xs ys rest bs c k, split) refl

create_batch-single :
    (r : Row) (b : Bytes) → marshal r ≡ ok b → create_batch (r ∷ []) ≡ ok ((r, b) ∷ [])
unfolding create_batch
create_batch-single r b e = rw e refl

process_loop-IsWhole :
    (gs rs : List Row) (group : Batch) (size : ℕ) (rest : Batch) (old : List Row) (m : Manager)
    → IsReady m
    → create_batch gs ≡ ok group
    → create_batch rs ≡ ok rest
    → IsWhole old m
    → IsWhole (old ++ (gs ++ rs)) (process_loop group size rest m).0
process_loop-IsWhole gs [] group size rest old m r g k v =
    rw (create_batch-nil rest k, append-nil gs)
      (unfold process_loop in write_batch-IsWhole gs group old m r g v)
process_loop-IsWhole gs (x ∷ rs) group size rest old m r g k v =
    let (b, tail, c, split, e) = create_batch-cons x rs rest k in
    rw split (elim (Bool-cases (fits m.cur_seg (size + length b))) [
      | inl y ↦
          rw (process_loop-fits group size x b tail m y, ← append_assoc gs (x ∷ []) rs)
            (process_loop-IsWhole (gs ++ (x ∷ [])) rs (group ++ ((x, b) ∷ [])) (size + length b)
              tail old m r
              (create_batch-append gs (x ∷ []) group ((x, b) ∷ []) g (create_batch-single x b e)) c
              v)
      | inr n ↦
          (let (o, v₁, _) = write_batch_lem group m r in
            let m₁ = (write_batch group m).0 in
            let (v₂, _) = new_segment_lem m₁ v₁ in
            let w = new_segment-IsWhole (old ++ gs) m₁ (write_batch-IsWhole gs group old m r g v) in
            rw
              (
                process_loop_rotates group size x b tail m n,
                o,
                rotate_lem m₁ v₁,
                ← append_assoc old gs (x ∷ rs),
              )
              (process_loop-IsWhole (x ∷ []) rs ((x, b) ∷ []) (length b) tail (old ++ gs)
                (new_segment m₁) v₂ (create_batch-single x b e) c w))
    ])

-- Rows that are written to a manager whose files hold rows whole leave it such files, which hold the
-- rows that they held and then the new ones.
pub write-IsWhole :
    (rows : List Row) (batch : Batch) (old : List Row) (m : Manager)
    → IsReady m
    → create_batch rows ≡ ok batch
    → IsWhole old m
    → IsWhole (old ++ rows) (write rows m).0
unfolding write process_batches
write-IsWhole rows batch old m r c v = rw c (elim (Bool-cases (fits m.cur_seg (batch_size batch))) [
  | inl y ↦ rw y (write_batch-IsWhole rows batch old m r c v)
  | inr n ↦ rw n (process_loop-IsWhole [] rows [] 0 batch old m r (unfold create_batch in refl) c v)
])
