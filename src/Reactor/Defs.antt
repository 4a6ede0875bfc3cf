-- ===== src/Reactor/Defs.antt =====
-- myEpollReactor.c: the table of events, its handlers, and the loop that dispatches them. A pointer
-- to an entry of `Events` is its index; entry `max_event` is the listening socket.
use linux_unix_system_progra.Prelude.{
  ℕ, zero, suc, ◌+◌, ◌&&◌, ◌==◌, if◌then◌else◌, List, [], ◌∷◌, Option, none, some, update,
}
use linux_unix_system_progra.Syscall.{Reply, ok, fail}
use linux_unix_system_progra.Reactor.Kernel.{
  Kernel, EpollEvent, ctl_add, ctl_mod, ctl_del, has, epollin, epollout,
}

abbrev pub max_event : ℕ
max_event = 1024

abbrev pub buf_size : ℕ
buf_size = 1024

-- The count that `sendData` passes to `send`.
abbrev pub message_count : ℕ
message_count = 32

-- The functions that `call_back` points to; a global starts out as NULL.
pub data Callback : Type 0 where
  null recv_data send_data accept_connection : Callback

-- `arg` always points to the entry itself, and is left out.
pub record Event : Type 0 where
  pub fd : ℕ
  pub events : ℕ
  pub status : ℕ
  pub call_back : Callback

abbrev pub Table : Type 0
Table = ℕ → Event

-- `setevent` leaves the callback as it was.
abbrev pub setevent : Event → ℕ → ℕ → Event
setevent e fd events = record e { fd = fd; events = events; status = 0 }

-- The loop of `acceptconnection`: the first entry with status 0, of `n` entries from `i` on.
unfoldable pub find_free : ℕ → ℕ → Table → Option ℕ
find_free zero i t = none
find_free (suc n) i t =
    let rest = find_free n (i + 1) t in if (t i).status == 0 then some i else rest

-- A handler runs to its end, ends the process by `errExit`, or calls through a null pointer.
pub data Outcome {ℓ} (S : Type ℓ) : Type ℓ where
  running : S → Outcome S
  exited : S → Outcome S
  crashed : S → Outcome S

infixl 5 ◌>>=◌
abbrev pub ◌>>=◌ {ℓ} : {S : Type ℓ} → Outcome S → (S → Outcome S) → Outcome S
running s >>= f = f s
exited s >>= f = exited s
crashed s >>= f = crashed s

module _ (k : Kernel) where
  open k use {World}

  -- `Events` and the kernel
  pub record Server : Type 0 where
    pub table : Table
    pub world : World

  abbrev pub put : ℕ → Event → Server → Server
  put i e s = record s { table = update s.table i e }

  -- `if (ret == -1) errExit(...)`
  abbrev pub checked : Table → Reply ℕ × World → Outcome Server
  checked t (ok n, w) = running (record { table = t; world = w })
  checked t (fail e, w) = exited (record { table = t; world = w })

  unfoldable pub eventadd : ℕ → Server → Outcome Server
  eventadd i s =
      let e = s.table i in
      let epv : EpollEvent = record { events = e.events; ptr = i } in
      if e.status == 1
      then checked s.table (k.epoll_ctl ctl_mod e.fd (some epv) s.world)
      else checked (update s.table i (record e { status = 1 }))
          (k.epoll_ctl ctl_add e.fd (some epv) s.world)

  unfoldable pub eventdel : ℕ → Server → Outcome Server
  eventdel i s =
      let e = s.table i in
      if e.status == 0
      then checked s.table (k.epoll_ctl ctl_mod e.fd none s.world)
      else checked (update s.table i (record e { status = 0 }))
          (k.epoll_ctl ctl_del e.fd none s.world)

  -- `close(event->fd)`, whose result is not looked at
  abbrev pub close_event : ℕ → Server → Outcome Server
  close_event i s = running (record s { world = (k.close (s.table i).fd s.world).1 })

  -- `event->call_back = f; event->events = mask; eventadd(event);`
  abbrev pub turn_to : Callback → ℕ → ℕ → Server → Outcome Server
  turn_to f mask i s = eventadd i (put i (record (s.table i) { call_back = f; events = mask }) s)

  -- What `sendData` does after `eventdel`, by the value of `send`.
  unfoldable pub after_send : ℕ → Reply ℕ → Server → Outcome Server
  after_send i (ok (suc n)) s = turn_to recv_data epollin i s
  after_send i (ok zero) s = do s ← eventdel i s; close_event i s
  after_send i (fail e) s = do s ← eventdel i s; close_event i s

  unfoldable pub send_data_handler : ℕ → Server → Outcome Server
  unfolding after_send
  send_data_handler i s =
      let (len, w) = k.send (s.table i).fd message_count s.world in
      do s ← eventdel i (record s { world = w }); after_send i len s

  -- What `recvData` does after `eventdel`, by the value of `recv`.
  unfoldable pub after_recv : ℕ → Reply ℕ → Server → Outcome Server
  after_recv i (ok (suc n)) s = turn_to send_data epollout i s
  after_recv i (ok zero) s = close_event i s
  after_recv i (fail e) s = close_event i s

  unfoldable pub recv_data_handler : ℕ → Server → Outcome Server
  unfolding after_recv
  recv_data_handler i s =
      let (len, w) = k.recv (s.table i).fd buf_size s.world in
      do s ← eventdel i (record s { world = w }); after_recv i len s

  -- The new connection takes the free entry that the loop found. With none it is dropped: neither
  -- registered nor closed.
  unfoldable pub take_entry : ℕ → Option ℕ → Server → Outcome Server
  take_entry cfd none s = running s
  take_entry cfd (some j) s = do
    s ← eventadd j (put j (setevent (s.table j) cfd epollin) s)
    running (put j (record (s.table j) { call_back = recv_data }) s)

  unfoldable pub after_accept : Table → Reply ℕ × World → Outcome Server
  unfolding take_entry
  after_accept t (fail e, w) = exited (record { table = t; world = w })
  after_accept t (ok cfd, w) =
      take_entry cfd (find_free max_event 0 t) (record { table = t; world = w })

  unfoldable pub accept_handler : ℕ → Server → Outcome Server
  unfolding after_accept
  accept_handler i s = after_accept s.table (k.accept (s.table i).fd s.world)

  -- `event->call_back(event)`
  unfoldable pub call : Callback → ℕ → Server → Outcome Server
  unfolding send_data_handler recv_data_handler accept_handler
  call null i s = crashed s
  call recv_data i s = recv_data_handler i s
  call send_data i s = send_data_handler i s
  call accept_connection i s = accept_handler i s

  -- One test of the loop over `EpollEvents`: both the entry and the report have the flag.
  unfoldable pub call_on : ℕ → EpollEvent → Server → Outcome Server
  call_on flag r s =
      let e = s.table r.ptr in
      if has e.events flag && has r.events flag then call e.call_back r.ptr s else running s

  unfoldable pub dispatch : List EpollEvent → Server → Outcome Server
  dispatch [] s = running s
  dispatch (r ∷ rs) s = do s ← call_on epollin r s; s ← call_on epollout r s; dispatch rs s

  unfoldable pub after_wait : Table → Reply (List EpollEvent) × World → Outcome Server
  after_wait t (fail e, w) = exited (record { table = t; world = w })
  after_wait t (ok rs, w) = dispatch rs (record { table = t; world = w })

  -- One round of the loop of `main`.
  unfoldable pub serve : Server → Outcome Server
  unfolding after_wait
  serve s = after_wait s.table (k.epoll_wait s.world)

  -- `n` rounds of it
  unfoldable pub rounds : ℕ → Server → Outcome Server
  rounds zero s = running s
  rounds (suc n) s = do s ← serve s; rounds n s

  abbrev pub zeroed : Event
  zeroed = record { fd = 0; events = 0; status = 0; call_back = null }

  abbrev pub listener : ℕ → Event
  listener lfd = record { fd = lfd; events = epollin; status = 1; call_back = accept_connection }

  -- `main` from the socket to `epoll_ctl`, and on to `bind` and `listen`, whose results it ignores.
  unfoldable pub listen_on : ℕ → Reply ℕ × World → Outcome Server
  listen_on lfd x = do
    s ← checked (update (λ i. zeroed) max_event (listener lfd)) x
    running (record s { world = (k.listen lfd max_event (k.bind lfd s.world).1).1 })

  unfoldable pub register : Reply ℕ × World → Outcome Server
  unfolding listen_on
  register (fail e, w) = exited (record { table = λ i. zeroed; world = w })
  register (ok lfd, w) =
      listen_on lfd
        (k.epoll_ctl ctl_add lfd (some (record { events = epollin; ptr = max_event })) w)

  unfoldable pub start : World → Outcome Server
  unfolding register
  start w = register (k.socket (k.epoll_create (max_event + 1) w).1)

  -- `main`, for as many rounds as it is given
  unfoldable pub main : ℕ → World → Outcome Server
  unfolding start rounds
  main n w = do s ← start w; rounds n s
