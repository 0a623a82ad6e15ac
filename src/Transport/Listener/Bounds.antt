-- ===== src/Transport/Listener/Bounds.antt =====
-- What the accept loop keeps.
use laguna.Prelude.{
  sym, ap, ◌>>=◌, ℕ, zero, suc, ◌+◌, ◌≤◌, ◌≡◌, refl, ◌∙◌, arith, ltb, ltb→lt, List, [], ◌∷◌, length,
  Bool, Bool-cases, inl, inr, true, false, Option, none, some, Result, ok, err, fault,
}
use laguna.Prelude.Int.{ℤ, pos, negsuc}
use laguna.Utils.Semaphore.{Semaphore, new_semaphore}
use laguna.Transport.Client.{or_default}
use laguna.Transport.Listener.{
  TcpConf, TcpListener, new_listener, Accepting, accepting, Event, canceled, listener_closed,
  accept_failed, connected, served, or_default_address, semaphore_of, behind, remove_at,
  on_deadline, release_and_close, accept_round, event, events,
}

length-behind :
    (y : ℕ) (ys : List ℕ) (o : Option (ℕ × List ℕ)) (x : ℕ) (rest : List ℕ)
    → ((z : ℕ) (zs : List ℕ) → o ≡ some (z, zs) → length ys ≡ suc (length zs))
    → behind y o ≡ some (x, rest)
    → length (y ∷ ys) ≡ suc (length rest)
length-behind y ys none x rest f h = absurd (cc h)
length-behind y ys (some (z, zs)) x rest f h =
    let e : y ∷ zs ≡ rest = cc h in rw (← e) (omega (arith, f z zs refl))

length-remove_at :
    (k : ℕ) (xs : List ℕ) (x : ℕ) (rest : List ℕ)
    → remove_at k xs ≡ some (x, rest)
    → length xs ≡ suc (length rest)
unfolding remove_at
length-remove_at k [] x rest h = absurd (cc h)
length-remove_at zero (y ∷ ys) x rest h = let e : ys ≡ rest = cc h in rw e refl
length-remove_at (suc k) (y ∷ ys) x rest h =
    length-behind y ys (remove_at k ys) x rest (λ z zs g. length-remove_at k ys z zs g) h

abbrev sem_of : Result TcpListener → Semaphore
sem_of (ok l) = l.sem
sem_of (err e) = new_semaphore 0
sem_of (fault x) = new_semaphore 0

-- Each connection that is served has its place in the semaphore, and each one that was accepted is
-- served, closed or dropped.
record IsCounted (max : ℕ) (s : Accepting) : Type 0 where
  capacity : s.sem.max ≡ max
  places : s.sem.taken ≡ length s.serving
  room : s.sem.taken ≤ max
  all : length s.serving + (length s.shut + length s.dropped) ≡ s.accepted

module _ (max : ℕ) (s : Accepting) (v : IsCounted max s) where
  accept-IsCounted :
      (d : Result (Unit {0})) (in_time : Bool)
      → IsCounted max (on_deadline d in_time s.accepted (record s { accepted = suc s.accepted }))
  accept-IsCounted (ok _) true = elim (Bool-cases (ltb s.sem.taken s.sem.max)) [
    | inl y ↦ rw y (record {
      capacity = v.capacity;
      places = omega (arith, v.places);
      room = omega (arith, ltb→lt s.sem.taken s.sem.max y, v.capacity);
      all = omega (arith, v.all);
    })
    | inr n ↦ rw n (record {
      capacity = v.capacity;
      places = v.places;
      room = v.room;
      all = omega (arith, v.all);
    })
  ]
  accept-IsCounted (ok _) false = elim (Bool-cases (ltb s.sem.taken s.sem.max)) [
    | inl y ↦ rw y (record {
      capacity = v.capacity;
      places = v.places;
      room = v.room;
      all = omega (arith, v.all);
    })
    | inr n ↦ rw n (record {
      capacity = v.capacity;
      places = v.places;
      room = v.room;
      all = omega (arith, v.all);
    })
  ]
  accept-IsCounted (err e) t = record {
    capacity = v.capacity;
    places = v.places;
    room = v.room;
    all = omega (arith, v.all);
  }
  accept-IsCounted (fault x) t = record {
    capacity = v.capacity;
    places = v.places;
    room = v.room;
    all = omega (arith, v.all);
  }

  served-IsCounted :
      (o : Option (ℕ × List ℕ)) (k : ℕ)
      → remove_at k s.serving ≡ o
      → IsCounted max (release_and_close o s)
  served-IsCounted none k h = v
  served-IsCounted (some (i, rest)) k h =
      let fewer = length-remove_at k s.serving i rest h in
      record {
        capacity = v.capacity;
        places = omega (arith, v.places, fewer);
        room = omega (arith, v.room);
        all = omega (arith, v.all, fewer);
      }

  stop-IsCounted : IsCounted max (record s { returned = true })
  stop-IsCounted = record { capacity = v.capacity; places = v.places; room = v.room; all = v.all }

  round-IsCounted : (b : Bool) (e : Event) → IsCounted max (accept_round b e s)
  round-IsCounted false canceled = stop-IsCounted
  round-IsCounted false listener_closed = stop-IsCounted
  round-IsCounted false accept_failed = v
  round-IsCounted false (connected d in_time) = accept-IsCounted d in_time
  round-IsCounted false (served k) = v
  round-IsCounted true canceled = v
  round-IsCounted true listener_closed = v
  round-IsCounted true accept_failed = v
  round-IsCounted true (connected d in_time) = v
  round-IsCounted true (served k) = v

  event-IsCounted : (e : Event) → IsCounted max (event e s)
  unfolding event
  event-IsCounted (served k) = served-IsCounted (remove_at k s.serving) k refl
  event-IsCounted canceled = round-IsCounted s.returned canceled
  event-IsCounted listener_closed = round-IsCounted s.returned listener_closed
  event-IsCounted accept_failed = round-IsCounted s.returned accept_failed
  event-IsCounted (connected d in_time) = round-IsCounted s.returned (connected d in_time)

events-IsCounted :
    (max : ℕ) (es : List Event) (s : Accepting) → IsCounted max s → IsCounted max (events es s)
unfolding events
events-IsCounted max [] s v = v
events-IsCounted max (e ∷ es) s v = events-IsCounted max es (event e s) (event-IsCounted max s v e)

new_listener-sem :
    (c : TcpConf) (l : TcpListener) (max : ℕ)
    → new_listener c ≡ ok l
    → or_default c.max_conn (pos 100) ≡ pos max
    → l.sem ≡ new_semaphore max
unfolding new_listener
new_listener-sem c l max h k = made (or_default c.max_conn (pos 100)) k h
  where
    made :
        (m : ℤ)
        → m ≡ pos max
        → (semaphore_of m >>= λ sem. ok (record {
          address = or_default_address c.address;
          max_conn = m;
          max_msg_size = or_default c.max_message_size (pos 4096);
          idle_timeout = or_default c.idle_timeout (pos 300000000000);
          sem_wait_timeout = or_default c.sem_wait_timeout (pos 5000000000);
          sem = sem;
        }))
          ≡ ok l
        → l.sem ≡ new_semaphore max
    made (pos n) e g =
        let i : n ≡ max = cc e in
        sym (ap (λ (r : Result TcpListener). sem_of r) g) ∙ ap new_semaphore i
    made (negsuc n) e g = absurd (cc e)

-- Whatever happens to a listener that was made with room for `max` connections: never more than `max`
-- of them are served at once, as many as have a place in its semaphore; and each connection that
-- was accepted is served, or closed, or was dropped because its deadline could not be set.
pub listener_bound :
    (c : TcpConf) (l : TcpListener) (max : ℕ) (es : List Event)
    → new_listener c ≡ ok l
    → or_default c.max_conn (pos 100) ≡ pos max
    → (length (events es (accepting l)).serving ≤ max)
      × ((events es (accepting l)).sem.taken ≡ length (events es (accepting l)).serving)
      × (length (events es (accepting l)).serving
            + (length (events es (accepting l)).shut + length (events es (accepting l)).dropped)
          ≡ (events es (accepting l)).accepted)
listener_bound c l max es h k =
    let v : IsCounted max (events es (accepting l)) =
      events-IsCounted max es (accepting l) begins in
    (omega (arith, v.room, v.places), v.places, v.all)
  where
    begins : IsCounted max (accepting l)
    begins =
        let e = new_listener-sem c l max h k in
        unfold accepting in
        rw e (
          unfold new_semaphore in
          record { capacity = refl; places = refl; room = omega arith; all = refl })
