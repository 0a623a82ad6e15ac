-- ===== src/Segment/Manager/Locking.antt =====
-- What an error of the disk does to the lock of the manager.
use laguna.Prelude.{
  ℕ, ◌+◌, ◌≡◌, ◌≢◌, refl, sym, ◌∙◌, arith, List, [], ◌∷◌, ◌++◌, append-nil, true, false, Option,
  some, length,
}
use laguna.Prelude.{◌⊎◌, Bytes, ok, err, fault, blocked_forever, ◌>>>◌, Bool-cases, inl, inr}
use laguna.Segment.Manager.{
  Failure, Manager, Batch, fits, file_write, lock, write_in_seg, rotate, flatten, write_batch,
  process_loop, process_batches, create_batch, write, batch_size,
}
use laguna.Segment.Manager.Log.{flatten_regroup, process_loop-fits, process_loop_rotates}
use laguna.Wal.Row.{Row}

locked_write :
    (bytes : Bytes) (m : Manager)
    → m.locked ≡ true
    → bytes ≢ []
    → write_in_seg bytes m ≡ (m, fault blocked_forever)
unfolding write_in_seg lock
locked_write [] m h n = absurd (n refl)
locked_write (b ∷ bs) m h n = ground arith

locked_write_batch :
    (batch : Batch) (m : Manager)
    → m.locked ≡ true
    → flatten batch ≢ []
    → (write_batch batch m).1 ≡ fault blocked_forever
unfolding write_batch
locked_write_batch batch m h n = rw (locked_write (flatten batch) m h n)

locked_rotate : (m : Manager) → m.locked ≡ true → rotate m ≡ (m, fault blocked_forever)
unfolding rotate lock
locked_rotate m h = ground arith

-- With no bytes to write the lock is not asked for.
empty_write_batch :
    (batch : Batch) (m : Manager)
    → flatten batch ≡ []
    → ((write_batch batch m).1 ≡ ok tt) × ((write_batch batch m).0.locked ≡ m.locked)
unfolding write_batch write_in_seg
empty_write_batch batch m e = rw e (refl, refl)

List-cases : (bs : Bytes) → (bs ≡ []) ⊎ (bs ≢ [])
List-cases [] = inl refl
List-cases (b ∷ bs) = inr (λ e. cc)

locked_rotates :
    (group : Batch) (size : ℕ) (r : Row) (b : Bytes) (rest : Batch) (m : Manager)
    → m.locked ≡ true
    → (write_batch group m >>> λ _ m₁.
        rotate m₁ >>> λ _ m₂. process_loop ((r, b) ∷ []) (length b) rest m₂).1
      ≡ fault blocked_forever
locked_rotates group size r b rest m h = elim (List-cases (flatten group)) [
  | inl e ↦
      let (o, k) = empty_write_batch group m e in
      rw (o, locked_rotate (write_batch group m).0 (k ∙ h))
  | inr n ↦ rw (locked_write_batch group m h n)
]

locked_loop :
    (group : Batch) (size : ℕ) (rest : Batch) (m : Manager)
    → m.locked ≡ true
    → flatten group ++ flatten rest ≢ []
    → (process_loop group size rest m).1 ≡ fault blocked_forever
locked_loop group size [] m h n =
    unfold process_loop in
    locked_write_batch group m h (λ e. n (unfold flatten in rw (append-nil, e)))
locked_loop group size ((r, b) ∷ rest) m h n =
    elim (Bool-cases (fits m.cur_seg (size + length b))) [
      | inl y ↦ rw (process_loop-fits group size r b rest m y) (
          locked_loop (group ++ ((r, b) ∷ [])) (size + length b) rest m h
            (λ e. n (sym (flatten_regroup group r b rest) ∙ e)))
      | inr y ↦
          rw (process_loop_rotates group size r b rest m y) (locked_rotates group size r b rest m h)
    ]

-- Whoever writes rows while the lock is held by a call that has ended never returns.
write_locked :
    (rows : List Row) (batch : Batch) (m : Manager)
    → m.locked ≡ true
    → create_batch rows ≡ ok batch
    → flatten batch ≢ []
    → (write rows m).1 ≡ fault blocked_forever
unfolding write process_batches
write_locked rows batch m h c n = rw c (elim (Bool-cases (fits m.cur_seg (batch_size batch))) [
  | inl e ↦ rw e (locked_write_batch batch m h n)
  | inr e ↦ rw e (locked_loop [] 0 batch m h (λ k. n (unfold flatten in k)))
])

failed_write :
    (bytes : Bytes) (m : Manager) (f : Failure) (more : List (Option Failure))
    → m.locked ≡ false
    → m.outcomes ≡ some f ∷ more
    → bytes ≢ []
    → ((write_in_seg bytes m).1 ≡ err f.error) × ((write_in_seg bytes m).0.locked ≡ true)
unfolding write_in_seg lock file_write
failed_write [] m f more u o n = absurd (n refl)
failed_write (b ∷ bs) m f more u o n = ground arith

failed_write_batch :
    (batch : Batch) (m : Manager) (f : Failure) (more : List (Option Failure))
    → m.locked ≡ false
    → m.outcomes ≡ some f ∷ more
    → flatten batch ≢ []
    → ((write_batch batch m).1 ≡ err f.error) × ((write_batch batch m).0.locked ≡ true)
unfolding write_batch
failed_write_batch batch m f more u o n =
    let (e, l) = failed_write (flatten batch) m f more u o n in rw e (refl, l)

-- If the file's write fails for rows that fit the current segment, the call returns the error with the
-- lock still held, and every later write of rows that have bytes, such as a retry, blocks for ever.
pub failed_write_blocks :
    (rows later : List Row) (batch batch' : Batch) (m : Manager) (f : Failure)
    (more : List (Option Failure))
    → m.locked ≡ false
    → m.outcomes ≡ some f ∷ more
    → create_batch rows ≡ ok batch
    → flatten batch ≢ []
    → fits m.cur_seg (batch_size batch) ≡ true
    → create_batch later ≡ ok batch'
    → flatten batch' ≢ []
    → ((write rows m).1 ≡ err f.error)
      × ((write rows m).0.locked ≡ true)
      × ((write later (write rows m).0).1 ≡ fault blocked_forever)
failed_write_blocks rows later batch batch' m f more u o c n e c' n' =
    let whole : write rows m ≡ write_batch batch m = unfold write process_batches in rw (c, e) in
    let (a, l) = failed_write_batch batch m f more u o n in
    rw whole (a, l, write_locked later batch' (write_batch batch m).0 l c' n')
