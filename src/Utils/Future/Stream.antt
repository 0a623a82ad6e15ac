-- ===== src/Utils/Future/Stream.antt =====
-- What a consumer gets of a producer that puts no error, in any schedule.
use laguna.Prelude.{
  ◌≡◌, refl, sym, ap, ◌∙◌, List, [], ◌∷◌, ◌++◌, append_assoc, Bool, true, false, Option, none, some,
  Error,
}
use laguna.Utils.Future.{
  Outcome, value, ended, Call, put, put_error, finish, Consumer, calling, waiting, stopped, System,
  new_stream, Turn, producer, consumer, send, produce, check, receive, consume, turn, run,
  good_calls,
}
use mathlib.Core.List.{map, map-append}

abbrev pub held {ℓ} : {A : Type ℓ} → Option A → List A
held none = []
held (some a) = a ∷ []

-- The calls that are left: the values, and Done unless the channel is closed.
abbrev pub left {ℓ} : {A : Type ℓ} → Bool → List A → List (Call A)
left true later = []
left false later = good_calls later

-- What the consumer got, where `seen` are the values.
abbrev pub history {ℓ} : {A : Type ℓ} → Consumer → List A → List (Outcome A)
history stopped seen = map value seen ++ (ended ∷ [])
history _ seen = map value seen

-- The values are those that were received, the one in the channel and those to come, in order.
pub record IsIntact {ℓ} {A : Type ℓ} (vs : List A) (s : System A) : Type ℓ where
  pub seen : List A
  pub later : List A
  pub no_error : s.failure ≡ none
  pub in_order : vs ≡ seen ++ (held s.resp ++ later)
  pub calls : s.todo ≡ left s.closed later
  pub received : s.got ≡ history s.consumer seen
  pub all_put : s.closed ≡ true → later ≡ []
  pub drained : s.consumer ≡ stopped → (s.resp ≡ none) × (s.closed ≡ true)

module _ {ℓ} {A : Type ℓ} (vs : List A) where
  new_stream-IsIntact : IsIntact vs (new_stream (good_calls vs))
  unfolding new_stream
  new_stream-IsIntact = record {
    seen = [];
    later = vs;
    no_error = refl;
    in_order = refl;
    calls = refl;
    received = refl;
    all_put = λ h. absurd (cc h);
    drained = λ h. absurd (cc h);
  }

next_put {ℓ} :
    {A : Type ℓ} (closed : Bool) (later : List A) (a : A) (rest : List (Call A))
    → put a ∷ rest ≡ left closed later
    → (later' : List A) × (closed ≡ false) × (later ≡ a ∷ later') × (rest ≡ good_calls later')
next_put true later a rest h = absurd (cc h)
next_put false [] a rest h = absurd (cc h)
next_put false (b ∷ later) a rest h = (later, refl, cc h, cc h)

next_error {ℓ} :
    {A : Type ℓ} (closed : Bool) (later : List A) (e : Error) (rest : List (Call A))
    → put_error e ∷ rest ≡ left closed later
    → ⊥
next_error true later e rest h = cc h
next_error false [] e rest h = cc h
next_error false (b ∷ later) e rest h = cc h

next_finish {ℓ} :
    {A : Type ℓ} (closed : Bool) (later : List A) (rest : List (Call A))
    → finish ∷ rest ≡ left closed later
    → (closed ≡ false) × (later ≡ []) × (rest ≡ [])
next_finish true later rest h = absurd (cc h)
next_finish false [] rest h = (refl, refl, cc h)
next_finish false (b ∷ later) rest h = absurd (cc h)

-- A consumer that has stopped found the channel closed.
open_runs {ℓ} :
    {A : Type ℓ} {vs : List A} (s : System A)
    → IsIntact vs s
    → s.closed ≡ false
    → s.consumer ≡ stopped
    → ⊥
open_runs s v h k = cc (h, (v.drained k).1)

module _ {ℓ} {A : Type ℓ} (vs : List A) (s : System A) (v : IsIntact vs s) where
  send-IsIntact :
      (o : Option A) (a : A) (rest : List (Call A))
      → s.resp ≡ o
      → s.todo ≡ put a ∷ rest
      → IsIntact vs (send o a rest s)
  send-IsIntact (some b) a rest r t = v
  send-IsIntact none a rest r t =
      let (later', c, l, k) = next_put s.closed v.later a rest (sym t ∙ v.calls) in
      record {
        seen = v.seen;
        later = later';
        no_error = v.no_error;
        in_order = v.in_order ∙ rw (r, l) refl;
        calls = rw c k;
        received = v.received;
        all_put = λ h. absurd (cc (c, h));
        drained = λ h. absurd (open_runs s v c h);
      }

  produce-IsIntact : (calls : List (Call A)) → s.todo ≡ calls → IsIntact vs (produce calls s)
  produce-IsIntact [] t = v
  produce-IsIntact (put a ∷ rest) t = send-IsIntact s.resp a rest refl t
  produce-IsIntact (put_error e ∷ rest) t =
      absurd (next_error s.closed v.later e rest (sym t ∙ v.calls))
  produce-IsIntact (finish ∷ rest) t =
      let (c, l, k) = next_finish s.closed v.later rest (sym t ∙ v.calls) in
      record {
        seen = v.seen;
        later = v.later;
        no_error = v.no_error;
        in_order = v.in_order;
        calls = k;
        received = v.received;
        all_put = λ _. l;
        drained = λ h. absurd (open_runs s v c h);
      }

  check-IsIntact :
      (o : Option Error) → s.failure ≡ o → s.consumer ≡ calling → IsIntact vs (check o s)
  check-IsIntact (some e) f c = absurd (cc (f, v.no_error))
  check-IsIntact none f c = record {
    seen = v.seen;
    later = v.later;
    no_error = v.no_error;
    in_order = v.in_order;
    calls = v.calls;
    received = rw c at v.received;
    all_put = v.all_put;
    drained = λ h. absurd (cc h);
  }

  receive-IsIntact :
      (o : Option A) (closed : Bool)
      → s.resp ≡ o
      → s.closed ≡ closed
      → s.consumer ≡ waiting
      → IsIntact vs (receive o closed s)
  receive-IsIntact (some a) b r c w = record {
    seen = v.seen ++ (a ∷ []);
    later = v.later;
    no_error = v.no_error;
    in_order = v.in_order ∙ rw r (sym (append_assoc v.seen (a ∷ []) v.later));
    calls = v.calls;
    received =
        ap (λ t. t ++ (value a ∷ [])) (rw w at v.received) ∙ sym (map-append value v.seen (a ∷ []));
    all_put = v.all_put;
    drained = λ h. absurd (cc h);
  }
  receive-IsIntact none true r c w = record {
    seen = v.seen;
    later = v.later;
    no_error = v.no_error;
    in_order = v.in_order;
    calls = v.calls;
    received = ap (λ t. t ++ (ended ∷ [])) (rw w at v.received);
    all_put = v.all_put;
    drained = λ _. (r, c);
  }
  receive-IsIntact none false r c w = v

  consume-IsIntact : (c : Consumer) → s.consumer ≡ c → IsIntact vs (consume c s)
  consume-IsIntact calling h = check-IsIntact s.failure refl h
  consume-IsIntact waiting h = receive-IsIntact s.resp s.closed refl refl h
  consume-IsIntact stopped h = v

  turn-IsIntact : (t : Turn) → IsIntact vs (turn t s)
  unfolding turn
  turn-IsIntact producer = produce-IsIntact s.todo refl
  turn-IsIntact consumer = consume-IsIntact s.consumer refl

run-IsIntact {ℓ} :
    {A : Type ℓ} (vs : List A) (ts : List Turn) (s : System A)
    → IsIntact vs s
    → IsIntact vs (run ts s)
unfolding run
run-IsIntact vs [] s v = v
run-IsIntact vs (t ∷ ts) s v = run-IsIntact vs ts (turn t s) (turn-IsIntact vs s v t)

-- In every schedule of a producer that puts some values and then closes the stream, and of a consumer
-- that calls `Next` until it gets no value: what the consumer got so far are the first of the values, in
-- order, and once it has stopped it got all of them, and no error.
pub run_lem {ℓ} :
    {A : Type ℓ} (vs : List A) (ts : List Turn)
    → (seen : List A) × (later : List A) × (vs ≡ seen ++ later)
      × ((run ts (new_stream (good_calls vs))).got
          ≡ history (run ts (new_stream (good_calls vs))).consumer seen)
      × ((run ts (new_stream (good_calls vs))).consumer ≡ stopped → later ≡ [])
run_lem vs ts =
    let v = run-IsIntact vs ts (new_stream (good_calls vs)) (new_stream-IsIntact vs) in
    (
      v.seen,
      held (run ts (new_stream (good_calls vs))).resp ++ v.later,
      v.in_order,
      v.received,
      λ h. (let (r, c) = v.drained h in rw r (v.all_put c)),
    )
