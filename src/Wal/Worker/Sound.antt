-- ===== src/Wal/Worker/Sound.antt =====
-- One access of a call or of the worker keeps the rows in order.
use laguna.Prelude.{
  ℕ, ◌==◌, ◌≤◌, ◌<◌, ◌≡◌, refl, sym, ap, ◌∙◌, arith, List, [], ◌∷◌, ◌++◌, append_assoc, length,
  length-append, ltb, ltb→lt, Bytes, none, some, Bool-cases, inl, inr, All, All-append, All-split,
  ok,
}
use laguna.Segment.Manager.Log.{flatten-append_ok, IsReady, log_bytes}
use laguna.Wal.Row.{Row}
use laguna.Wal.Row.Codec.{IsShort, marshal_total}
use laguna.Replication.Protocol.{flatten}
use laguna.Wal.Flush.Laws.{flush_lem}
use laguna.Wal.Worker.{
  Call, called, numbered, delivered, refused, returned, Mode, running, stuck, System, update,
  flush_now, write_turn, taken, tick_turn,
}

-- The arguments of a row have a length that the format can hold.
abbrev pub HasForm : Row → Type 0
HasForm r = All IsShort r.args

pub flatten_total :
    (rows : List Row) → All HasForm rows → (bytes : Bytes) × (flatten rows ≡ ok bytes)
unfolding flatten
flatten_total [] h = ([], refl)
flatten_total (r ∷ rows) h =
    let (b, e) = marshal_total r h.0 in
    let (bytes, e') = flatten_total rows h.1 in (b ++ bytes, rw (e, e'))

-- No flush got stuck.
abbrev pub IsLive : Mode → Type 0
IsLive (stuck x) = ⊥
IsLive _ = Unit {0}

-- What a call has still to send has a form.
abbrev pub Sends : Call → Type 0
Sends (called e q) = All IsShort q.args
Sends (numbered r) = HasForm r
Sends _ = Unit {0}

-- The log is `base` and then the rows `written`; those, the buffer and the channel are what was sent.
pub record IsSound (size : ℕ) (base : Bytes) (s : System) : Type 0 where
  pub ready : IsReady s.worker.store
  pub live : IsLive s.mode
  pub written : List Row
  pub bytes : Bytes
  pub form : flatten written ≡ ok bytes
  pub log : log_bytes s.worker.store ≡ base ++ bytes
  pub in_order : s.sent ≡ written ++ (s.worker.query_buf ++ s.query_ch)
  pub forms : All HasForm s.sent
  pub sends : (i : ℕ) → Sends (s.calls i)
  pub room : length s.query_ch ≤ size

update-Sends :
    (calls : ℕ → Call) (i : ℕ) (c : Call)
    → ((j : ℕ) → Sends (calls j))
    → Sends c
    → (j : ℕ) → Sends (update calls i c j)
update-Sends calls i c h k j = elim (Bool-cases (i == j)) [ inl e ↦ rw e k | inr e ↦ rw e (h j) ]

module _ (size : ℕ) (base : Bytes) (s : System) (v : IsSound size base s) where
  pub buffer_forms : (bytes : Bytes) × (flatten s.worker.query_buf ≡ ok bytes)
  buffer_forms =
      let parts =
        All-split HasForm v.written (s.worker.query_buf ++ s.query_ch) (rw v.in_order at v.forms) in
      flatten_total s.worker.query_buf (All-split HasForm s.worker.query_buf s.query_ch parts.1).0

  pub flush_now-IsSound : (m : Mode) → IsLive m → IsSound size base (flush_now m s)
  unfolding flush_now
  flush_now-IsSound m live =
      let (bytes', f) = buffer_forms in
      let (o, b, _, _, ready, l) = flush_lem s.worker bytes' v.ready f in
      record {
        ready = ready;
        live = rw o live;
        written = v.written ++ s.worker.query_buf;
        bytes = v.bytes ++ bytes';
        form = flatten-append_ok v.written s.worker.query_buf v.bytes bytes' v.form f;
        log = l ∙ ap (λ t. t ++ bytes') v.log ∙ append_assoc base v.bytes bytes';
        in_order =
            v.in_order ∙ sym (append_assoc v.written s.worker.query_buf s.query_ch) ∙ rw b refl;
        forms = v.forms;
        sends = v.sends;
        room = v.room;
      }

  pub taken-IsSound :
      (r : Row) (rest : List Row) → s.query_ch ≡ r ∷ rest → IsSound size base (taken size r rest s)
  taken-IsSound r rest e = record {
    ready = v.ready;
    live = v.live;
    written = v.written;
    bytes = v.bytes;
    form = v.form;
    log = v.log;
    in_order =
        v.in_order
        ∙ rw e (ap (λ t. v.written ++ t) (sym (append_assoc s.worker.query_buf (r ∷ []) rest)));
    forms = v.forms;
    sends = v.sends;
    room = (let k = rw e at v.room in omega (arith, k));
  }

  pub moved-IsSound : (m : Mode) → IsLive m → IsSound size base (record s { mode = m })
  moved-IsSound m h = record {
    ready = v.ready;
    live = h;
    written = v.written;
    bytes = v.bytes;
    form = v.form;
    log = v.log;
    in_order = v.in_order;
    forms = v.forms;
    sends = v.sends;
    room = v.room;
  }

  called-IsSound :
      (s' : System)
      → ((i : ℕ) → Sends (s'.calls i))
      → s'.worker.store ≡ s.worker.store
      → s'.worker.query_buf ≡ s.worker.query_buf
      → s'.query_ch ≡ s.query_ch
      → s'.mode ≡ s.mode
      → s'.sent ≡ s.sent
      → IsSound size base s'
  called-IsSound s' c a b d m t = record {
    ready = rw a v.ready;
    live = rw m v.live;
    written = v.written;
    bytes = v.bytes;
    form = v.form;
    log = rw a v.log;
    in_order = rw (b, d, t) v.in_order;
    forms = rw t v.forms;
    sends = c;
    room = rw d v.room;
  }

  delivered-IsSound :
      (i : ℕ) (r : Row)
      → s.calls i ≡ numbered r
      → length s.query_ch < size
      → IsSound size base (record s {
        query_ch = s.query_ch ++ (r ∷ []);
        calls = update s.calls i delivered;
        sent = s.sent ++ (r ∷ []);
      })
  delivered-IsSound i r e n = record {
    ready = v.ready;
    live = v.live;
    written = v.written;
    bytes = v.bytes;
    form = v.form;
    log = v.log;
    in_order =
        ap (λ t. t ++ (r ∷ [])) v.in_order
        ∙ append_assoc v.written (s.worker.query_buf ++ s.query_ch) (r ∷ [])
        ∙ ap (λ t. v.written ++ t) (append_assoc s.worker.query_buf s.query_ch (r ∷ []));
    forms = All-append HasForm s.sent (r ∷ []) v.forms (rw e at (v.sends i), tt);
    sends = update-Sends s.calls i delivered v.sends tt;
    room = omega (arith, n, length-append s.query_ch (r ∷ []));
  }

  pub write_turn-IsSound :
      (i : ℕ) (c : Call) → s.calls i ≡ c → IsSound size base (write_turn size i c s)
  write_turn-IsSound i (called (some x) q) e =
      called-IsSound _ (update-Sends s.calls i (refused x) v.sends tt) refl refl refl refl refl
  write_turn-IsSound i (called none q) e =
      called-IsSound _ (update-Sends s.calls i _ v.sends (rw e at (v.sends i))) refl refl refl refl
        refl
  write_turn-IsSound i (numbered r) e = elim (Bool-cases (ltb (length s.query_ch) size)) [
    | inl y ↦ rw y (delivered-IsSound i r e (ltb→lt (length s.query_ch) size y))
    | inr n ↦ rw n v
  ]
  write_turn-IsSound i delivered e =
      called-IsSound _ (update-Sends s.calls i returned v.sends tt) refl refl refl refl refl
  write_turn-IsSound i (refused x) e = v
  write_turn-IsSound i returned e = v

  pub tick_turn-IsSound : (buf : List Row) → IsSound size base (tick_turn size buf s)
  tick_turn-IsSound [] = v
  tick_turn-IsSound (r ∷ rest) = flush_now-IsSound running tt
