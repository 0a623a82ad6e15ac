-- ===== src/Wal/Worker/Fair.antt =====
-- One access of a call or of the worker keeps the answers in order.
use laguna.Prelude.{
  ℕ, ◌+◌, ◌==◌, ◌≤◌, ◌≡◌, ◌≢◌, refl, sym, ap, ◌∙◌, arith, List, [], ◌∷◌, ◌++◌, append_assoc,
  append-nil, length, ltb, if◌then◌else◌, Bytes, Option, none, some, Error, Bool-cases, ==→eq, inl,
  inr, true, All, All-append,
}
use laguna.Wal.Row.{Row}
use laguna.Wal.Flush.Laws.{flush_lem}
use laguna.Wal.Worker.{
  Call, called, numbered, delivered, refused, returned, Mode, running, System, update, flush_now,
  write_turn, taken, tick_turn,
}
use laguna.Wal.Worker.Sound.{IsSound, buffer_forms}
use mathlib.Core.List.{map, map-append}

abbrev pub answered : List (ℕ × Option Error) → List ℕ
answered as' = map (λ (p : ℕ × Option Error). p.0) as'

abbrev pub count : ℕ → List ℕ → ℕ
count i [] = 0
count i (j ∷ js) = (if j == i then 1 else 0) + count i js

count-append : (i : ℕ) (xs ys : List ℕ) → count i (xs ++ ys) ≡ count i xs + count i ys
count-append i [] ys = omega arith
count-append i (x ∷ xs) ys = omega (arith, count-append i xs ys)

answered-none : (js : List ℕ) → answered (map (λ (i : ℕ). (i, none)) js) ≡ js
answered-none [] = refl
answered-none (j ∷ js) = ap (λ t. j ∷ t) (answered-none js)

-- The futures that are answered, and those that wait, are those that were registered, in order, each
-- once; and no answer is an error.
pub record IsFair (s : System) : Type 0 where
  pub fair : answered s.worker.answers ++ s.worker.future_resp ≡ s.registered
  pub good : All (λ (p : ℕ × Option Error). p.1 ≡ none) s.worker.answers
  pub once : (i : ℕ) → count i s.registered ≤ 1
  pub fresh : (i : ℕ) → s.calls i ≢ returned → count i s.registered ≡ 0

none_good :
    (js : List ℕ) → All (λ (p : ℕ × Option Error). p.1 ≡ none) (map (λ (i : ℕ). (i, none)) js)
none_good [] = tt
none_good (j ∷ js) = (refl, none_good js)

module _ (size : ℕ) (base : Bytes) (s : System) (v : IsSound size base s) (f : IsFair s) where
  pub flush_now-IsFair : (m : Mode) → IsFair (flush_now m s)
  unfolding flush_now
  flush_now-IsFair m =
      let (bytes, e) = buffer_forms size base s v in
      let (_, _, w, a, _, _) = flush_lem s.worker bytes v.ready e in
      record {
        fair =
            rw (w, a)
              (append-nil _
                ∙ map-append _ s.worker.answers _
                ∙ ap (λ t. answered s.worker.answers ++ t) (answered-none s.worker.future_resp)
                ∙ f.fair);
        good = rw a (All-append _ s.worker.answers _ f.good (none_good s.worker.future_resp));
        once = f.once;
        fresh = f.fresh;
      }

  -- A call that moves, other than to its end.
  moved-IsFair :
      (i : ℕ) (c : Call) (s' : System)
      → s.calls i ≢ returned
      → s'.worker.answers ≡ s.worker.answers
      → s'.worker.future_resp ≡ s.worker.future_resp
      → s'.registered ≡ s.registered
      → s'.calls ≡ update s.calls i c
      → IsFair s'
  moved-IsFair i c s' n a w r k = record {
    fair = rw (a, w, r) f.fair;
    good = rw a f.good;
    once = rw r f.once;
    fresh = λ j h. rw r (f.fresh j (still j (rw k at h)));
  }
    where
      still : (j : ℕ) → update s.calls i c j ≢ returned → s.calls j ≢ returned
      still j h e = elim (Bool-cases (i == j)) [
        | inl y ↦ n (ap s.calls (==→eq i j y) ∙ e)
        | inr o ↦ h (rw o e)
      ]

  registered-IsFair :
      (i : ℕ)
      → s.calls i ≡ delivered
      → IsFair (record s {
        worker = record s.worker { future_resp = s.worker.future_resp ++ (i ∷ []) };
        calls = update s.calls i returned;
        registered = s.registered ++ (i ∷ []);
      })
  registered-IsFair i e = record {
    fair =
        sym (append_assoc (answered s.worker.answers) s.worker.future_resp (i ∷ []))
        ∙ ap (λ t. t ++ (i ∷ [])) f.fair;
    good = f.good;
    once = λ j. elim (Bool-cases (i == j)) [
      | inl y ↦ rw (count-append j s.registered (i ∷ []), y) (omega (arith, new_one j y))
      | inr o ↦ rw (count-append j s.registered (i ∷ []), o) (omega (arith, f.once j))
    ];
    fresh = λ j h. elim (Bool-cases (i == j)) [
      | inl y ↦ absurd (h (rw y refl))
      | inr o ↦
          rw (count-append j s.registered (i ∷ []), o) (omega (arith, f.fresh j (λ k. h (rw o k))))
    ];
  }
    where
      new_one : (j : ℕ) → (i == j) ≡ true → count j s.registered ≡ 0
      new_one j y = f.fresh j (λ k. cc (e, ap s.calls (==→eq i j y), k))

  pub same-IsFair :
      (s' : System)
      → s'.worker.answers ≡ s.worker.answers
      → s'.worker.future_resp ≡ s.worker.future_resp
      → s'.registered ≡ s.registered
      → s'.calls ≡ s.calls
      → IsFair s'
  same-IsFair s' a w r k = record {
    fair = rw (a, w, r) f.fair;
    good = rw a f.good;
    once = rw r f.once;
    fresh = rw (r, k) f.fresh;
  }

  pub write_turn-IsFair : (i : ℕ) (c : Call) → s.calls i ≡ c → IsFair (write_turn size i c s)
  write_turn-IsFair i (called (some x) q) e =
      moved-IsFair i (refused x) _ (λ h. cc (e, h)) refl refl refl refl
  write_turn-IsFair i (called none q) e = moved-IsFair i _ _ (λ h. cc (e, h)) refl refl refl refl
  write_turn-IsFair i (numbered r) e = elim (Bool-cases (ltb (length s.query_ch) size)) [
    | inl y ↦ rw y (moved-IsFair i delivered _ (λ h. cc (e, h)) refl refl refl refl)
    | inr n ↦ rw n f
  ]
  write_turn-IsFair i delivered e = registered-IsFair i e
  write_turn-IsFair i (refused x) e = f
  write_turn-IsFair i returned e = f

  pub tick_turn-IsFair : (buf : List Row) → IsFair (tick_turn size buf s)
  tick_turn-IsFair [] = f
  tick_turn-IsFair (r ∷ rest) = flush_now-IsFair running

  pub taken-IsFair : (r : Row) (rest : List Row) → IsFair (taken size r rest s)
  taken-IsFair r rest = same-IsFair (taken size r rest s) refl refl refl refl
