-- ===== src/Reactor/Turns.antt =====
-- myEpollReactor.c: a connection that goes on, and a new one.
use linux_unix_system_progra.Prelude.{ℕ, suc, ◌≤◌, ◌≡◌, refl, Option, none, some, update, arith}
use linux_unix_system_progra.Syscall.{ok}
use linux_unix_system_progra.Reactor.Kernel.{Kernel, IsLawful, epollin, epollout}
use linux_unix_system_progra.Reactor.Defs.{
  max_event, message_count, buf_size, Callback, recv_data, send_data, Server, Outcome, running, put,
  eventadd, setevent, find_free, send_data_handler, recv_data_handler, take_entry, after_accept,
  accept_handler, after_send, after_recv, turn_to,
}
use linux_unix_system_progra.Reactor.Accepting.{FirstFree, find_free-FirstFree}
use linux_unix_system_progra.Reactor.Handlers.{
  Ends, Ends->>=, Ends-map, Good, Added, eventadd-Added,
}
use linux_unix_system_progra.Reactor.Connections.{eventdel-used, at_world, Good-at_world}

module _ (k : Kernel) (law : IsLawful k) where
  open k use {World}

  -- Connection `i` stays, now waiting for `mask` with the callback `f`; nothing else has changed.
  abbrev pub Turned : Callback → ℕ → ℕ → Server k → Server k → Type 0
  Turned f mask i s s' =
      ((j : ℕ)
        → s'.table j ≡ update s.table i (record (s.table i) { call_back = f; events = mask }) j)
      × ((g : ℕ)
          → law.interest s'.world g
            ≡ update (law.interest s.world) (s.table i).fd
                (some (record { events = mask; ptr = i })) g)

  turn_to-Turned :
      (f : Callback) (mask i : ℕ) (s : Server k) (v : World)
      → (s.table i).status ≡ 1
      → ((g : ℕ) → law.interest v g ≡ update (law.interest s.world) (s.table i).fd none g)
      → Ends (Turned f mask i s) (
          turn_to k f mask i
            (record { table = update s.table i (record (s.table i) { status = 0 }); world = v }))
  turn_to-Turned f mask i s v on drop =
      Ends-map (Added k law i s1) (Turned f mask i s) (eventadd k i s1)
        (eventadd-Added k law i s1 (ground arith))
        (λ s' (e, fresh, add). (λ j. rw e (ground arith), λ g. ground (arith, add g, drop g)))
    where
      s0 : Server k
      s0 = record { table = update s.table i (record (s.table i) { status = 0 }); world = v }

      s1 : Server k
      s1 = put k i (record (s0.table i) { call_back = f; events = mask }) s0

  -- Data from a client turns its connection to sending; the process ends only if epoll_ctl refuses
  -- the new registration.
  pub recv_more-Turned :
      (i n : ℕ) (s : Server k)
      → i ≤ max_event
      → Good k law s
      → (s.table i).status ≡ 1
      → (k.recv (s.table i).fd buf_size s.world).0 ≡ ok (suc n)
      → Ends (Turned send_data epollout i s) (recv_data_handler k i s)
  unfolding recv_data_handler after_recv
  recv_more-Turned i n s le good on more =
      let w = (k.recv (s.table i).fd buf_size s.world).1 in
      let same = law.recv_keeps (s.table i).fd buf_size s.world in
      let (v, e, drop) =
        eventdel-used k law i (at_world k law s w) le (Good-at_world k law s w same good) on in
      rw (e, more)
        (turn_to-Turned send_data epollout i s v on (λ g. ground (arith, drop g, same g)))

  -- A message that went out turns the connection back to receiving.
  pub send_more-Turned :
      (i n : ℕ) (s : Server k)
      → i ≤ max_event
      → Good k law s
      → (s.table i).status ≡ 1
      → (k.send (s.table i).fd message_count s.world).0 ≡ ok (suc n)
      → Ends (Turned recv_data epollin i s) (send_data_handler k i s)
  unfolding send_data_handler after_send
  send_more-Turned i n s le good on more =
      let w = (k.send (s.table i).fd message_count s.world).1 in
      let same = law.send_keeps (s.table i).fd message_count s.world in
      let (v, e, drop) =
        eventdel-used k law i (at_world k law s w) le (Good-at_world k law s w same good) on in
      rw (e, more) (turn_to-Turned recv_data epollin i s v on (λ g. ground (arith, drop g, same g)))

  -- A new connection takes the first free entry, to receive from it, and changes no other.
  abbrev pub Placed : ℕ → ℕ → Server k → Server k → Type 0
  Placed cfd i s s' =
      ((j : ℕ)
        → s'.table j
          ≡ update s.table i
              (record { fd = cfd; events = epollin; status = 1; call_back = recv_data }) j)
      × ((g : ℕ)
          → law.interest s'.world g
            ≡ update (law.interest s.world) cfd (some (record { events = epollin; ptr = i })) g)

  take_entry-Placed :
      (cfd i : ℕ) (s : Server k) (w : World)
      → (s.table i).status ≡ 0
      → ((g : ℕ) → law.interest w g ≡ law.interest s.world g)
      → Ends (Placed cfd i s) (take_entry k cfd (some i) (at_world k law s w))
  unfolding take_entry
  take_entry-Placed cfd i s w free same =
      Ends->>= (Added k law i s1) (Placed cfd i s) _ (eventadd k i s1)
        (eventadd-Added k law i s1 (ground arith))
        (λ s' (e, fresh, add). (λ j. rw e (ground arith), λ g. ground (arith, add g, same g)))
    where
      s1 : Server k
      s1 = put k i (setevent (s.table i) cfd epollin) (at_world k law s w)

  -- With no entry free the connection is dropped: nothing of the server changes, and the descriptor
  -- is neither registered nor closed.
  abbrev pub Accepted : ℕ → Server k → World → Outcome (Server k) → Option ℕ → Type 0
  Accepted cfd s w o none = o ≡ running (at_world k law s w)
  Accepted cfd s w o (some i) = Ends (Placed cfd i s) o

  -- A connection that accept(2) hands out takes the first free entry of the table, if there is one;
  -- otherwise the server keeps its descriptor open without ever looking at it again.
  pub accept_handler-Accepted :
      (l cfd : ℕ) (s : Server k) (w : World)
      → k.accept (s.table l).fd s.world ≡ (ok cfd, w)
      → (r : Option ℕ) × FirstFree max_event 0 s.table r × Accepted cfd s w (accept_handler k l s) r
  unfolding accept_handler after_accept
  accept_handler-Accepted l cfd s w q =
      (find_free max_event 0 s.table, first, rw q (placed (find_free max_event 0 s.table) first))
    where
      first : FirstFree max_event 0 s.table (find_free max_event 0 s.table)
      first = find_free-FirstFree max_event 0 s.table

      same : (g : ℕ) → law.interest w g ≡ law.interest s.world g
      same = rw q at (law.accept_keeps (s.table l).fd s.world)

      placed :
          (r : Option ℕ)
          → FirstFree max_event 0 s.table r
          → Accepted cfd s w (take_entry k cfd r (at_world k law s w)) r
      placed none h = unfold take_entry in refl
      placed (some i) (_, _, free, _) = take_entry-Placed cfd i s w free same
