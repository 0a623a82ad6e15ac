-- ===== src/Wal/FileLog/Moves.antt =====
-- A call that goes on alone, through any turns of its own and of the worker.
use laguna.Prelude.{
  ℕ, ◌==◌, ◌<◌, ◌^◌, ◌≡◌, ◌≢◌, refl, sym, ◌∙◌, arith, List, [], ◌∷◌, length, ltb, Bool, true, false,
  Option, none, some, Error, Bool-cases, ==→eq, inl, inr,
}
use laguna.Query.{Query}
use laguna.Segment.Manager.{File}
use laguna.Wal.Row.{Row}
use laguna.Wal.Worker.{
  Call, called, numbered, delivered, refused, returned, Mode, running, draining, stopped, stuck,
  System, Turn, write, receive, tick, cancel, drain, update, flush_if, write_turn, taken,
  receive_turn, tick_turn, drain_turn, worker_turn, turn, run,
}
use laguna.Utils.IdGenerator.{Generator, next_id}
use laguna.Wal.FileLog.Stages.{
  IsOver, Place, Idle, Stage, fresh, ready, over, idle, sent, waiting, answered, buffered_stage,
}
use laguna.Wal.FileLog.Turns.{
  IsLoggable, Serving, flushed-IsServing, taken-IsServing, moved-IsServing,
}

update_here : (calls : ℕ → Call) (i : ℕ) (c : Call) → update calls i c i ≡ c
update_here calls i c = ground arith

update_there : (calls : ℕ → Call) (i j : ℕ) (c : Call) → j ≢ i → update calls i c j ≡ calls j
update_there calls i j c h = elim (Bool-cases (i == j)) [
  | inl e ↦ absurd (h (sym (==→eq i j e)))
  | inr e ↦ rw e refl
]

next_id_fits : (g : Generator) → (next_id g).1 < 2 ^ 64
unfolding next_id
next_id_fits g = omega arith

module _ (i : ℕ) (q : Query) (earlier : List File) (rows : List Row)
    (before : List (ℕ × Option Error)) (loggable : IsLoggable q) where
  abbrev Ok : System → Type 0
  Ok s = Serving i q earlier rows before s

  module _ (size : ℕ) (s : System) (v : Ok s) where
    -- The call has moved on, and only it.
    stepped :
        (c : Call) (s' : System)
        → s'.calls ≡ update s.calls i c
        → s'.worker.store ≡ s.worker.store
        → s'.mode ≡ s.mode
        → s'.worker.answers ≡ s.worker.answers
        → Stage i q c s'.worker.future_resp v.as' s'.worker.query_buf s'.query_ch v.new
        → Ok s'
    stepped c s' u a m t stage = record {
      as' = v.as';
      new = v.new;
      stage = rw (u, update_here s.calls i c) stage;
      whole = rw a v.whole;
      encodable = v.encodable;
      ready = rw a v.ready;
      named = rw a v.named;
      live = rw m v.live;
      answers = t ∙ v.answers;
      others = λ j n. rw (u, update_there s.calls i j c n) (v.others j n);
    }

    receive_turn-Ok : (ch : List Row) → s.query_ch ≡ ch → Ok (receive_turn size ch s)
    receive_turn-Ok [] e = v
    receive_turn-Ok (r ∷ rest) e =
        let (none_left, w) = taken-IsServing i q earlier rows before size s r rest v e in
        flush_if-Ok _ none_left w
      where
        flush_if-Ok :
            (b : Bool)
            → rest ≡ []
            → Ok (taken size r rest s)
            → Ok (flush_if size b (taken size r rest s))
        flush_if-Ok true n w = flushed-IsServing i q earlier rows before _ running w n tt
        flush_if-Ok false n w = w

    tick_turn-Ok : (buf : List Row) → s.worker.query_buf ≡ buf → Ok (tick_turn size buf s)
    tick_turn-Ok [] e = v
    tick_turn-Ok (r ∷ rest) e =
        flushed-IsServing i q earlier rows before s running v (buffered_stage (rw e at v.stage)) tt

    drain_turn-Ok : (ch : List Row) → s.query_ch ≡ ch → Ok (drain_turn size ch s)
    drain_turn-Ok [] e = flushed-IsServing i q earlier rows before s stopped v e tt
    drain_turn-Ok (r ∷ rest) e = (taken-IsServing i q earlier rows before size s r rest v e).1

    worker_turn-Ok : (t : Turn) (m : Mode) → Ok (worker_turn size t m s)
    worker_turn-Ok receive running = receive_turn-Ok s.query_ch refl
    worker_turn-Ok tick running = tick_turn-Ok s.worker.query_buf refl
    worker_turn-Ok cancel running = moved-IsServing i q earlier rows before s draining v tt
    worker_turn-Ok drain draining = drain_turn-Ok s.query_ch refl
    worker_turn-Ok (write j) m = v
    worker_turn-Ok receive draining = v
    worker_turn-Ok receive stopped = v
    worker_turn-Ok receive (stuck x) = v
    worker_turn-Ok tick draining = v
    worker_turn-Ok tick stopped = v
    worker_turn-Ok tick (stuck x) = v
    worker_turn-Ok cancel draining = v
    worker_turn-Ok cancel stopped = v
    worker_turn-Ok cancel (stuck x) = v
    worker_turn-Ok drain running = v
    worker_turn-Ok drain stopped = v
    worker_turn-Ok drain (stuck x) = v

    -- Another call has ended.
    over_turn-Ok : (j : ℕ) (c : Call) → IsOver c → Ok (write_turn size j c s)
    over_turn-Ok j (refused e) o = v
    over_turn-Ok j returned o = v
    over_turn-Ok j (called e q') o = absurd o
    over_turn-Ok j (numbered r) o = absurd o
    over_turn-Ok j delivered o = absurd o

    own_turn-Ok :
        {c : Call} {fut : List ℕ} {buf ch new : List Row} {as' : List (ℕ × Option Error)}
        → Stage i q c fut as' buf ch new
        → s.worker.future_resp ≡ fut
        → s.worker.query_buf ≡ buf
        → s.query_ch ≡ ch
        → v.as' ≡ as'
        → v.new ≡ new
        → Ok (write_turn size i c s)
    own_turn-Ok (idle (fresh (some e))) f b h a n =
        stepped (refused e) _ refl refl refl refl (rw (f, b, h, a, n) (Stage.idle (Idle.over e)))
    own_turn-Ok (idle (fresh none)) f b h a n = stepped _ _ refl refl refl refl (
        rw (f, b, h, a, n)
          (Stage.idle (
            Idle.ready (record {
              same = refl;
              encodable = record {
                lsn_fits = next_id_fits s.lsn_gen;
                method_fits = loggable.method_fits;
                count_fits = omega (arith, loggable.count_fits);
              };
              form = loggable.short;
            }))))
    own_turn-Ok (idle (ready {r} k)) f b h a n = elim (Bool-cases (ltb (length s.query_ch) size)) [
      | inl y ↦ rw y (
          stepped delivered _ refl refl refl refl
            (rw (f, b, h, a, n) (Stage.sent k Place.in_channel)))
      | inr z ↦ rw z v
    ]
    own_turn-Ok (idle (over e)) f b h a n = v
    own_turn-Ok (sent k p) f b h a n =
        stepped returned _ refl refl refl refl (rw (f, b, h, a, n) (Stage.waiting k p))
    own_turn-Ok (waiting k p) f b h a n = v
    own_turn-Ok (answered k) f b h a n = v

    turn-Ok : (t : Turn) → Ok (turn size t s)
    unfolding turn
    turn-Ok (write j) = elim (Bool-cases (j == i)) [
      | inl e ↦
          let same : i ≡ j = sym (==→eq j i e) in
          rw (← same) (own_turn-Ok v.stage refl refl refl refl refl)
      | inr n ↦ over_turn-Ok j (s.calls j) (v.others j (λ (e : j ≡ i). differ n e))
    ]
      where
        differ : (j == i) ≡ false → j ≢ i
        differ n e = ground arith
    turn-Ok receive = worker_turn-Ok receive s.mode
    turn-Ok tick = worker_turn-Ok tick s.mode
    turn-Ok cancel = worker_turn-Ok cancel s.mode
    turn-Ok drain = worker_turn-Ok drain s.mode

  pub run-IsServing : (size : ℕ) (ts : List Turn) (s : System) → Ok s → Ok (run size ts s)
  unfolding run
  run-IsServing size [] s v = v
  run-IsServing size (t ∷ ts) s v = run-IsServing size ts (turn size t s) (turn-Ok size s v t)
