-- ===== src/Reactor/Invariant.antt =====
-- myEpollReactor.c: what relates the table of events to the kernel's interest list.
use linux_unix_system_progra.Prelude.{ℕ, ◌≤◌, ◌<◌, ◌≡◌, ◌≢◌, ◌⊎◌, Option, none, some, update, arith}
use linux_unix_system_progra.Reactor.Kernel.{EpollEvent, epollin, epollout}
use linux_unix_system_progra.Reactor.Defs.{
  max_event, Event, Table, recv_data, send_data, accept_connection,
}

-- What an entry of a connection waits for, and what is called then.
abbrev pub Role : Event → Type 0
Role e =
    ((e.call_back ≡ recv_data) × (e.events ≡ epollin))
    ⊎ ((e.call_back ≡ send_data) × (e.events ≡ epollout))

abbrev pub epv_of : Table → ℕ → EpollEvent
epv_of t i = record { events = (t i).events; ptr = i }

-- An interest list, as a function of the descriptor.
abbrev pub Interest : Type 0
Interest = ℕ → Option EpollEvent

pub record Agrees (t : Table) (f : Interest) : Type 0 where
  pub listening : (t max_event).call_back ≡ accept_connection
  pub binary : (i : ℕ) → (t i).status ≤ 1
  pub live : (i : ℕ) → i ≤ max_event → (t i).status ≡ 1 → f (t i).fd ≡ some (epv_of t i)
  pub known :
      (fd : ℕ) (x : EpollEvent)
      → f fd ≡ some x
      → (x.ptr ≤ max_event) × ((t x.ptr).status ≡ 1) × ((t x.ptr).fd ≡ fd)
  pub roles : (i : ℕ) → i < max_event → (t i).status ≡ 1 → Role (t i)

module _ {t : Table} {f : Interest} (inv : Agrees t f) where
  open inv use {listening, binary, live, known, roles}

  pub Agrees-same : {g : Interest} → ((fd : ℕ) → g fd ≡ f fd) → Agrees t g
  Agrees-same {g} same = record {
    listening = listening;
    binary = binary;
    live = λ i le on. ground (arith, live i, same (t i).fd);
    known = λ fd x e. ground (arith, known fd x, same fd);
    roles = roles;
  }

  module _ (i : ℕ) (lt : i < max_event) where
    -- A free entry may be written to.
    pub Agrees-retouch : (e : Event) → (t i).status ≡ 0 → e.status ≡ 0 → Agrees (update t i e) f
    Agrees-retouch e free still = record {
      listening = ground arith;
      binary = λ j. ground (arith, binary j);
      live = λ j le on. ground (arith, live j);
      known = λ fd x q. ground (arith, known fd x);
      roles = λ j le on. ground (arith, roles j);
    }

    -- An entry is freed together with its descriptor's registration.
    pub Agrees-detach :
        (e : Event) {g : Interest}
        → (t i).status ≡ 1
        → e.status ≡ 0
        → ((fd : ℕ) → g fd ≡ update f (t i).fd none fd)
        → Agrees (update t i e) g
    Agrees-detach e {g} used freed drop = record {
      listening = ground arith;
      binary = λ j. ground (arith, binary j);
      live = λ j le on. ground (arith, live j, live i, drop (t j).fd);
      known = λ fd x q. ground (arith, known fd x, drop fd, live i);
      roles = λ j le on. ground (arith, roles j);
    }

    -- A free entry is taken together with a descriptor that was not registered.
    pub Agrees-attach :
        {t' : Table} {g : Interest}
        → (t i).status ≡ 0
        → (t' i).status ≡ 1
        → Role (t' i)
        → ((j : ℕ) → j ≢ i → t' j ≡ t j)
        → f (t' i).fd ≡ none
        → ((fd : ℕ) → g fd ≡ update f (t' i).fd (some (epv_of t' i)) fd)
        → Agrees t' g
    Agrees-attach {t'} {g} free used role others fresh add = record {
      listening = ground (arith, others max_event);
      binary = λ j. ground (arith, binary j, others j);
      live = λ j le on. ground (arith, live j, others j, add (t' j).fd);
      known = λ fd x q. ground (arith, known fd x, add fd, others x.ptr);
      roles = λ j le on. ground (arith, roles j, others j);
    }
