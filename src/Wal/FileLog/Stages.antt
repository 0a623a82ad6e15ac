-- ===== src/Wal/FileLog/Stages.antt =====
-- Where the row of a call is, and its future, when no other call is going on.
use laguna.Prelude.{ℕ, ◌≡◌, refl, List, [], ◌∷◌, ◌++◌, Option, none, Error, All}
use laguna.Query.{Query}
use laguna.Wal.Row.{Row}
use laguna.Wal.Row.Codec.{IsEncodable}
use laguna.Wal.Restore.{query_of}
use laguna.Wal.Worker.{Call, called, numbered, delivered, refused, returned}
use laguna.Wal.Worker.Sound.{HasForm}
use mathlib.Core.List.{map}

-- A row of the query, which the format can hold.
pub record IsRowOf (q : Query) (r : Row) : Type 0 where
  pub same : query_of r ≡ q
  pub encodable : IsEncodable r
  pub form : HasForm r

-- The row is in the channel, in the buffer or in the log: the buffer, the channel, and what the log has
-- got since the call began.
pub data Place (r : Row) : List Row → List Row → List Row → Type 0 where
  in_channel : Place r [] (r ∷ []) []
  in_buffer : Place r (r ∷ []) [] []
  in_log : Place r [] [] (r ∷ [])

-- A call that has not sent its row, or never will.
pub data Idle (q : Query) : Call → Type 0 where
  fresh : (e : Option Error) → Idle q (called e q)
  ready : {r : Row} → IsRowOf q r → Idle q (numbered r)
  over : (e : Error) → Idle q (refused e)

-- The call `i`; the futures that wait, the answers since it began, and its row.
pub data Stage (i : ℕ) (q : Query)
    : Call → List ℕ → List (ℕ × Option Error) → List Row → List Row → List Row → Type 0 where
  idle : {c : Call} → Idle q c → Stage i q c [] [] [] [] []
  sent :
      {r : Row} {buf ch new : List Row}
      → IsRowOf q r
      → Place r buf ch new
      → Stage i q delivered [] [] buf ch new
  waiting :
      {r : Row} {buf ch new : List Row}
      → IsRowOf q r
      → Place r buf ch new
      → Stage i q returned (i ∷ []) [] buf ch new
  answered : {r : Row} → IsRowOf q r → Stage i q returned [] ((i, none) ∷ []) [] [] (r ∷ [])

-- A call that has ended.
abbrev pub IsOver : Call → Type 0
IsOver (refused e) = Unit {0}
IsOver returned = Unit {0}
IsOver _ = ⊥

module _ {i : ℕ} {q : Query} where
  -- A flush while the channel is empty.
  pub flushed_stage :
      {c : Call} {fut : List ℕ} {as' : List (ℕ × Option Error)} {buf new : List Row}
      → Stage i q c fut as' buf [] new
      → Stage i q c [] (as' ++ map (λ (j : ℕ). (j, none)) fut) [] [] (new ++ buf)
  flushed_stage (idle k) = Stage.idle k
  flushed_stage (sent f Place.in_buffer) = Stage.sent f Place.in_log
  flushed_stage (sent f Place.in_log) = Stage.sent f Place.in_log
  flushed_stage (waiting f Place.in_buffer) = Stage.answered f
  flushed_stage (waiting f Place.in_log) = Stage.answered f
  flushed_stage (answered f) = Stage.answered f

  -- The worker takes the row from the channel, which is empty then.
  pub taken_stage :
      {c : Call} {fut : List ℕ} {as' : List (ℕ × Option Error)} {r : Row} {buf rest new : List Row}
      → Stage i q c fut as' buf (r ∷ rest) new
      → (rest ≡ []) × Stage i q c fut as' (buf ++ (r ∷ [])) [] new
  taken_stage (sent f Place.in_channel) = (refl, Stage.sent f Place.in_buffer)
  taken_stage (waiting f Place.in_channel) = (refl, Stage.waiting f Place.in_buffer)

  -- A buffer with rows leaves none in the channel.
  pub buffered_stage :
      {c : Call} {fut : List ℕ} {as' : List (ℕ × Option Error)} {r : Row} {buf ch new : List Row}
      → Stage i q c fut as' (r ∷ buf) ch new
      → ch ≡ []
  buffered_stage (sent f Place.in_buffer) = refl
  buffered_stage (waiting f Place.in_buffer) = refl

  -- What is buffered can be written.
  pub buffered_rows :
      {c : Call} {fut : List ℕ} {as' : List (ℕ × Option Error)} {buf ch new : List Row}
      → Stage i q c fut as' buf ch new
      → All HasForm buf × All IsEncodable buf
  buffered_rows (idle k) = (tt, tt)
  buffered_rows (sent f Place.in_channel) = (tt, tt)
  buffered_rows (sent f Place.in_buffer) = ((f.form, tt), (f.encodable, tt))
  buffered_rows (sent f Place.in_log) = (tt, tt)
  buffered_rows (waiting f Place.in_channel) = (tt, tt)
  buffered_rows (waiting f Place.in_buffer) = ((f.form, tt), (f.encodable, tt))
  buffered_rows (waiting f Place.in_log) = (tt, tt)
  buffered_rows (answered f) = (tt, tt)

  -- With an answer, the row is in the log, and nothing is on its way there.
  pub answered_stage :
      {c : Call} {fut : List ℕ} {a : ℕ × Option Error} {as' : List (ℕ × Option Error)}
      {buf ch new : List Row}
      → Stage i q c fut (a ∷ as') buf ch new
      → (r : Row) × IsRowOf q r
        × (a ∷ as' ≡ (i, none) ∷ [])
        × IsOver c
        × (fut ≡ [])
        × (buf ≡ [])
        × (ch ≡ [])
        × (new ≡ r ∷ [])
  answered_stage (answered {r} f) = (r, f, refl, tt, refl, refl, refl, refl)
