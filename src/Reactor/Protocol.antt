-- ===== src/Reactor/Protocol.antt =====
-- myEpollReactor.c: the server as a protocol on its table. What a connection does next is the phase of
-- its entry.
pub mod Calls
pub mod Runs
use linux_unix_system_progra.Prelude.{ℕ, ◌<◌, ◌≡◌, ◌≢◌, refl, ◌==◌, if◌then◌else◌, update, arith}
use linux_unix_system_progra.Reactor.Defs.{
  max_event, Callback, null, recv_data, send_data, accept_connection, Event, Table,
}

pub data Phase : Type 0 where
  free receiving sending listening unset : Phase

abbrev pub phase_of : Callback → Phase
phase_of null = unset
phase_of recv_data = receiving
phase_of send_data = sending
phase_of accept_connection = listening

abbrev pub phase : Event → Phase
phase e = if e.status == 0 then free else phase_of e.call_back

abbrev pub phases : Table → ℕ → Phase
phases t i = phase (t i)

-- What a call of the handler `c` for entry `i` does: after data has come, or none will come; after a
-- message has gone out; or a new connection takes the first free entry, if there is one.
pub data Move (c : Callback) (i : ℕ) (p : ℕ → Phase) : (ℕ → Phase) → Type 0 where
  received : c ≡ recv_data → p i ≡ receiving → Move c i p (update p i sending)
  hung_up : c ≡ recv_data → p i ≡ receiving → Move c i p (update p i free)
  sent : c ≡ send_data → p i ≡ sending → Move c i p (update p i receiving)
  joined :
      (j : ℕ)
      → c ≡ accept_connection
      → j < max_event
      → p j ≡ free
      → ((m : ℕ) → m < j → p m ≢ free)
      → Move c i p (update p j receiving)
  turned_away : c ≡ accept_connection → ((m : ℕ) → m < max_event → p m ≢ free) → Move c i p p

pub data Moves (p : ℕ → Phase) : (ℕ → Phase) → Type 0 where
  stay : Moves p p
  step : {q r : ℕ → Phase} (c : Callback) (i : ℕ) → Moves p q → Move c i q r → Moves p r

pub Moves-trans : {p q r : ℕ → Phase} → Moves p q → Moves q r → Moves p r
Moves-trans a stay = a
Moves-trans a (step c i b m) = step c i (Moves-trans a b) m

-- One entry is written.
pub phases-update :
    (t t' : Table) (i : ℕ) (x : Phase)
    → ((j : ℕ) → phase (t' j) ≡ update (phases t) i x j)
    → phases t' ≡ update (phases t) i x
phases-update t t' i x h d j = h j d

-- At the start only the listening socket is there.
abbrev pub initial : ℕ → Phase
initial = update (λ i. free) max_event listening
