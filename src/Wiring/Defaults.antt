-- ===== src/Wiring/Defaults.antt =====
-- The defaults of the log, and the segment files, which do not have them.
use laguna.Prelude.{
  ℕ, suc, ◌+◌, ◌≡◌, refl, ap, sym, ◌∙◌, arith, List, [], ◌∷◌, ◌++◌, append-nil, length, Bytes,
  codes, false, Error, wrapped, Result, ok, err, >>=-eq-ok,
}
use laguna.Prelude.Int.{ℤ}
use laguna.Utils.Dir.{read_dir}
use laguna.Segment.Manager
use laguna.Segment.Manager.{
  File, FileSegment, Manager, fits, batch_size, create_batch, flatten, write_batch, write_in_seg,
  process_loop, new_segment,
}
use laguna.Segment.Manager.Log.{
  IsReady, new_segment_lem, rotate_lem, write_batch_lem, write_in_seg-cons, process_loop_rotates,
}
use laguna.Segment.Opening.{init_file_segment, new_file_segment, new_segment_manager}
use laguna.Wal.Row.{Row, marshal}
use laguna.Wal.Worker.{Turn, batch_size_of}
use laguna.Wal.FileLog.{Wait}
use laguna.Wiring.{Config, WalConf}
use laguna.Wiring.Log.{Settings, size_or, directory_or, settings, settings_of, default_directory}
use laguna.Wiring.Start.{Disk, files_at, init_segment_manager, init_db}

settings_cases :
    (c : WalConf) (s : Settings) → settings_of c ≡ ok s → (size : ℕ) × (settings c size ≡ s)
unfolding settings_of
settings_cases c s h =
    let (size, k, l) = >>=-eq-ok (batch_size_of c.flush_batch_size) _ h in (size, cc l)

directory-settings_of :
    (c : WalConf) (s : Settings)
    → c.directory ≡ []
    → settings_of c ≡ ok s
    → s.directory ≡ default_directory
directory-settings_of c s e h =
    let (size, same) = settings_cases c s h in
    ap (λ (x : Settings). x.directory) (sym same) ∙ ap (λ t. directory_or t default_directory) e

module _ (N : Type 0) (Connection : Type 0) (dial : Bytes → N → N × Result Connection)
    (set_deadline : Connection → ℤ → N → N × Result (Unit {0}))
    (write : Connection → Bytes → N → N × Result (Unit {0})) (net : N) (schedule : ℕ → List Turn)
    (waits : ℕ → Wait) where
  -- With no directory in the configuration, and a system that does not make the directory of the empty
  -- name, no program starts, with its log enabled or not; though the log that NewWAL makes of an
  -- enabled one reads from the default directory.
  no_directory :
      (d : Disk) (c : Config) (e : Error) (s : Settings)
      → c.wal.directory ≡ []
      → d.dir [] ≡ err e
      → settings_of c.wal ≡ ok s
      → (init_db N Connection dial set_deadline write net schedule waits d c
          ≡ err (wrapped (codes "failed to create directory: ") e))
        × (s.directory ≡ default_directory)
  unfolding init_db init_segment_manager new_file_segment init_file_segment read_dir
  no_directory d c e s empty refused h =
      (rw (empty, refused) refl, directory-settings_of c.wal s empty h)

max_size-new :
    (d : Disk) (c : WalConf) (m : Manager)
    → init_segment_manager d c ≡ ok m
    → m.cur_seg.max_size ≡ c.max_segment_size
unfolding init_segment_manager new_file_segment new_segment_manager
max_size-new d c m h =
    let (segment, e, k) =
      >>=-eq-ok
        (new_file_segment (files_at c.directory d.fresh (d.dir c.directory)) c.directory d.fresh
          c.max_segment_size)
        _ h in
    let (file, e', k') =
      >>=-eq-ok
        (init_file_segment (files_at c.directory d.fresh (d.dir c.directory)) c.directory d.fresh) _
        e in
    let same : segment ≡ m.cur_seg =
      ap (λ (x : Manager). x.cur_seg)
        (let n : new_segment_manager d.clock d.outcomes [] segment ≡ m = cc k in n) in
    ap (λ (x : FileSegment). x.max_size)
      (sym same
        ∙ sym (
            let n : record {
              file = file;
              size = length file.content;
              max_size = c.max_segment_size;
            }
                ≡ segment =
              cc k' in
            n))

max_segment_size-settings_of :
    (c : WalConf) (s : Settings)
    → c.max_segment_size ≡ 0
    → settings_of c ≡ ok s
    → s.max_segment_size ≡ 1000000
max_segment_size-settings_of c s e h =
    let (size, same) = settings_cases c s h in
    ap (λ (x : Settings). x.max_segment_size) (sym same) ∙ ap (λ t. size_or t 1000000) e

module _ (r : Row) (b : ℕ) (bs : Bytes) (m : Manager) (v : IsReady m)
    (z : m.cur_seg.max_size ≡ 0) where
  abbrev single : Manager.Batch
  single = (r, b ∷ bs) ∷ []

  too_big : (n : ℕ) → fits m.cur_seg (suc n) ≡ false
  unfolding fits
  too_big n = ground (arith, z)

  -- The manager behind the empty write in front of the rotation.
  abbrev before : Manager
  before = (write_batch [] m).0

  empty_write : write_batch [] m ≡ (before, ok tt)
  unfolding write_batch flatten write_in_seg
  empty_write = refl

  max_size-before : before.cur_seg.max_size ≡ 0
  unfolding write_batch flatten write_in_seg
  max_size-before = z

  single_loop : process_loop [] 0 single m ≡ write_batch single (new_segment before)
  single_loop =
      let (o, v₁, _) = write_batch_lem [] m v in
      let big : fits m.cur_seg (0 + length (b ∷ bs)) ≡ false =
        ap (fits m.cur_seg) (omega arith) ∙ too_big (length bs) in
      process_loop_rotates [] 0 r (b ∷ bs) [] m big
      ∙ rw (o, rotate_lem before v₁) (unfold process_loop in refl)

  single_file :
      ((write_batch single (new_segment before)).1 ≡ ok tt)
      × ((write_batch single (new_segment before)).0.cur_seg.file.content ≡ b ∷ bs)
      × ((write_batch single (new_segment before)).0.cur_seg.max_size ≡ 0)
  unfolding write_batch flatten
  single_file =
      let (_, v₁, _) = write_batch_lem [] m v in
      let (v₂, _) = new_segment_lem before v₁ in
      rw (write_in_seg-cons b (bs ++ []) (new_segment before) v₂)
        (refl, ap (λ t. b ∷ t) (append-nil bs), max_size-before)

-- With no segment size in the configuration, the log that NewWAL makes has the default, and the segments
-- that initSegmentManager opens have the size 0: with that size, on a disk that does not fail, a row
-- that has a binary form and is written alone goes to a file of its own, which has the size 0 again.
pub zero_segments :
    (d : Disk) (c : WalConf) (s : Settings) (start m : Manager) (r : Row) (b : ℕ) (bs : Bytes)
    → c.max_segment_size ≡ 0
    → settings_of c ≡ ok s
    → init_segment_manager d c ≡ ok start
    → IsReady m
    → m.cur_seg.max_size ≡ start.cur_seg.max_size
    → marshal r ≡ ok (b ∷ bs)
    → (s.max_segment_size ≡ 1000000)
      × ((Manager.write (r ∷ []) m).1 ≡ ok tt)
      × ((Manager.write (r ∷ []) m).0.cur_seg.file.content ≡ b ∷ bs)
      × ((Manager.write (r ∷ []) m).0.cur_seg.max_size ≡ 0)
unfolding Manager.write Manager.process_batches create_batch
zero_segments d c s start m r b bs z h k v same e =
    let none_left : m.cur_seg.max_size ≡ 0 = same ∙ max_size-new d c start k ∙ z in
    let big : fits m.cur_seg (batch_size ((r, b ∷ bs) ∷ [])) ≡ false =
      unfold batch_size in
      ap (fits m.cur_seg) (omega arith) ∙ too_big r b bs m v none_left (length bs + 1) in
    let (o, content, size) = single_file r b bs m v none_left in
    rw (e, big, single_loop r b bs m v none_left)
      (max_segment_size-settings_of c s z h, o, content, size)
