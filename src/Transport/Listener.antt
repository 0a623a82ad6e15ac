-- ===== src/Transport/Listener.antt =====
-- internal/transport/tcp/listener.go: NewListener, and the loop that accepts connections.
pub mod Bounds
use laguna.Prelude.{
  ℕ, zero, suc, ◌-◌, ltb, List, [], ◌∷◌, ◌++◌, length, Bytes, codes, Bool, true, false,
  if◌then◌else◌, Option, none, some, Error, Result, ok, err, fault, makechan_size, ◌>>=◌,
}
use laguna.Prelude.Int.{ℤ, pos, negsuc}
use laguna.Utils.Semaphore.{Semaphore, new_semaphore}
use laguna.Transport.Client.{or_default}

-- config.TCPServer; durations are in nanoseconds.
pub record TcpConf : Type 0 where
  pub address : Bytes
  pub max_conn : ℤ
  pub max_message_size : ℤ
  pub idle_timeout : ℤ
  pub sem_wait_timeout : ℤ

pub record TcpListener : Type 0 where
  pub address : Bytes
  pub max_conn : ℤ
  pub max_msg_size : ℤ
  pub idle_timeout : ℤ
  pub sem_wait_timeout : ℤ
  pub sem : Semaphore

abbrev pub or_default_address : Bytes → Bytes
or_default_address [] = codes "0.0.0.0:8080"
or_default_address (b ∷ bs) = b ∷ bs

-- NewSemaphore makes a channel, which panics for a negative capacity.
abbrev pub semaphore_of : ℤ → Result Semaphore
semaphore_of (pos n) = ok (new_semaphore n)
semaphore_of (negsuc n) = fault makechan_size

-- NewListener
unfoldable pub new_listener : TcpConf → Result TcpListener
new_listener c = semaphore_of (or_default c.max_conn (pos 100)) >>= λ sem. ok (record {
  address = or_default_address c.address;
  max_conn = or_default c.max_conn (pos 100);
  max_msg_size = or_default c.max_message_size (pos 4096);
  idle_timeout = or_default c.idle_timeout (pos 300000000000);
  sem_wait_timeout = or_default c.sem_wait_timeout (pos 5000000000);
  sem = sem;
})

-- The server: the semaphore, how many connections were accepted, and which of them a goroutine of
-- handleConnection serves, which were closed, and which neither; and whether the loop has returned. A
-- connection is known by its number.
pub record Accepting : Type 0 where
  pub sem : Semaphore
  pub accepted : ℕ
  pub serving : List ℕ
  pub shut : List ℕ
  pub dropped : List ℕ
  pub returned : Bool

unfoldable pub accepting : TcpListener → Accepting
accepting l = record {
  sem = l.sem;
  accepted = 0;
  serving = [];
  shut = [];
  dropped = [];
  returned = false;
}

-- What happens next: the loop finds its context done; Accept fails, for a closed listener or for another
-- reason; Accept returns a connection, with what SetDeadline of it returns and whether the wait for the
-- semaphore is in time; or a goroutine of handleConnection ends.
pub data Event : Type 0 where
  canceled listener_closed accept_failed : Event
  connected : Result (Unit {0}) → Bool → Event
  served : ℕ → Event

abbrev pub behind : ℕ → Option (ℕ × List ℕ) → Option (ℕ × List ℕ)
behind x none = none
behind x (some (y, ys)) = some (y, x ∷ ys)

-- The element at a place, and the others.
unfoldable pub remove_at : ℕ → List ℕ → Option (ℕ × List ℕ)
remove_at k [] = none
remove_at zero (x ∷ xs) = some (x, xs)
remove_at (suc k) (x ∷ xs) = behind x (remove_at k xs)

-- AcquireWithDeadline: a place in the channel, if there is one before the timer fires; without one the
-- connection is told so and closed.
abbrev pub acquire_or_close : Bool → Bool → ℕ → Accepting → Accepting
acquire_or_close true true i s = record s {
  sem = record s.sem { taken = suc s.sem.taken };
  serving = i ∷ s.serving;
}
acquire_or_close _ _ i s = record s { shut = i ∷ s.shut }

-- An accepted connection whose deadline cannot be set is left as it is.
abbrev pub on_deadline : Result (Unit {0}) → Bool → ℕ → Accepting → Accepting
on_deadline (ok _) in_time i s = acquire_or_close (ltb s.sem.taken s.sem.max) in_time i s
on_deadline _ in_time i s = record s { dropped = i ∷ s.dropped }

-- The deferred function of handleConnection: Release, and the connection is closed.
abbrev pub release_and_close : Option (ℕ × List ℕ) → Accepting → Accepting
release_and_close none s = s
release_and_close (some (i, rest)) s = record s {
  sem = record s.sem { taken = s.sem.taken - 1 };
  serving = rest;
  shut = i ∷ s.shut;
}

-- A round of the loop, unless it has returned.
abbrev pub accept_round : Bool → Event → Accepting → Accepting
accept_round false canceled s = record s { returned = true }
accept_round false listener_closed s = record s { returned = true }
accept_round false (connected d in_time) s =
    on_deadline d in_time s.accepted (record s { accepted = suc s.accepted })
accept_round _ _ s = s

unfoldable pub event : Event → Accepting → Accepting
event (served k) s = release_and_close (remove_at k s.serving) s
event canceled s = accept_round s.returned canceled s
event listener_closed s = accept_round s.returned listener_closed s
event accept_failed s = accept_round s.returned accept_failed s
event (connected d in_time) s = accept_round s.returned (connected d in_time) s

unfoldable pub events : List Event → Accepting → Accepting
events [] s = s
events (e ∷ es) s = events es (event e s)
