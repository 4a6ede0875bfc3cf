-- ===== src/Reactor/Connections.antt =====
-- myEpollReactor.c: what becomes of one connection in each branch of the handlers.
use linux_unix_system_progra.Prelude.{ℕ, zero, suc, ◌≤◌, ◌≡◌, refl, inl, inr, none, update, arith}
use linux_unix_system_progra.Syscall.{Reply, ok, fail, Reply-cases}
use linux_unix_system_progra.Reactor.Kernel.{Kernel, IsLawful, ctl_del, ctl_mod}
use linux_unix_system_progra.Reactor.Defs.{
  max_event, message_count, buf_size, Server, running, exited, eventdel, send_data_handler,
  recv_data_handler, after_send, after_recv, close_event,
}
use linux_unix_system_progra.Reactor.Invariant.{Agrees-same}
use linux_unix_system_progra.Reactor.Handlers.{Good}

-- `send` or `recv` transferred nothing: the end of the connection, or an error.
abbrev pub IsOver : Reply ℕ → Type 0
IsOver (ok n) = n ≡ 0
IsOver (fail e) = Unit

module _ (k : Kernel) (law : IsLawful k) where
  open k use {World}

  -- `eventdel` of an entry in use succeeds: it is freed, no other entry changes, and its descriptor
  -- leaves the interest list.
  pub eventdel-used :
      (i : ℕ) (s : Server k)
      → i ≤ max_event
      → Good k law s
      → (s.table i).status ≡ 1
      → (w : World) × (eventdel k i s
          ≡ running
              (record { table = update s.table i (record (s.table i) { status = 0 }); world = w }))
        × ((g : ℕ) → law.interest w g ≡ update (law.interest s.world) (s.table i).fd none g)
  unfolding eventdel
  eventdel-used i s le good on =
      elim (Reply-cases (k.epoll_ctl ctl_del (s.table i).fd none s.world)) [
        | inl (n, w, q) ↦ (w, rw (on, q), law.del_ok (s.table i).fd n s.world w q)
        | inr (e, w, q) ↦
            let gone = law.del_fail (s.table i).fd e s.world w q in
            absurd (ground (arith, good.live i le on))
      ]

  -- `eventdel` of a free entry ends the process: it asks for a change with no event.
  pub eventdel_free :
      (i : ℕ) (s : Server k)
      → (s.table i).status ≡ 0
      → (w : World) × (eventdel k i s ≡ exited (record s { world = w }))
  unfolding eventdel
  eventdel_free i s free = elim (Reply-cases (k.epoll_ctl ctl_mod (s.table i).fd none s.world)) [
    | inl (n, w, q) ↦ absurd (law.mod_null (s.table i).fd n s.world w q)
    | inr (e, w, q) ↦ (w, rw (free, q))
  ]

  -- The state in which the handlers of entry `i` go on after `send` or `recv`.
  abbrev pub at_world : Server k → World → Server k
  at_world s w = record s { world = w }

  pub Good-at_world :
      (s : Server k) (w : World)
      → ((g : ℕ) → law.interest w g ≡ law.interest s.world g)
      → Good k law s
      → Good k law (at_world s w)
  Good-at_world s w same good = Agrees-same good same

  after_send-over :
      (i : ℕ) (len : Reply ℕ) (s : Server k)
      → IsOver len
      → (s.table i).status ≡ 0
      → (s' : Server k) × (after_send k i len s ≡ exited s')
  unfolding after_send
  after_send-over i (ok zero) s over free =
      let (w, e) = eventdel_free i s free in (record s { world = w }, rw e)
  after_send-over i (ok (suc n)) s over free = absurd (omega arith)
  after_send-over i (fail d) s over free =
      let (w, e) = eventdel_free i s free in (record s { world = w }, rw e)

  -- A connection that ends or breaks when the server sends to it takes the whole server down: the
  -- second `eventdel` of `sendData` always fails, and that ends the process.
  pub send_over_exits :
      (i : ℕ) (s : Server k)
      → i ≤ max_event
      → Good k law s
      → (s.table i).status ≡ 1
      → IsOver (k.send (s.table i).fd message_count s.world).0
      → (s' : Server k) × (send_data_handler k i s ≡ exited s')
  unfolding send_data_handler
  send_over_exits i s le good on over =
      let (len, w) = k.send (s.table i).fd message_count s.world in
      let same = law.send_keeps (s.table i).fd message_count s.world in
      let (v, e, drop) = eventdel-used i (at_world s w) le (Good-at_world s w same good) on in
      let (s', q) =
        after_send-over i len
          (record { table = update s.table i (record (s.table i) { status = 0 }); world = v }) over
          (ground arith) in
      (s', rw e q)

  -- What is left of connection `i`: its entry is free, no other entry has changed, its descriptor
  -- is no longer registered, and all the others are as before.
  abbrev pub Closed : ℕ → Server k → Server k → Type 0
  Closed i s s' =
      (s'.table ≡ update s.table i (record (s.table i) { status = 0 }))
      × ((g : ℕ) → law.interest s'.world g ≡ update (law.interest s.world) (s.table i).fd none g)

  after_recv-over :
      (i : ℕ) (len : Reply ℕ) (s : Server k) → IsOver len → after_recv k i len s ≡ close_event k i s
  unfolding after_recv
  after_recv-over i (ok zero) s over = refl
  after_recv-over i (ok (suc n)) s over = absurd (omega arith)
  after_recv-over i (fail d) s over = refl

  -- A connection that ends or breaks when the server receives from it is closed, and the server goes
  -- on with all the others.
  pub recv_over-Closed :
      (i : ℕ) (s : Server k)
      → i ≤ max_event
      → Good k law s
      → (s.table i).status ≡ 1
      → IsOver (k.recv (s.table i).fd buf_size s.world).0
      → (s' : Server k) × (recv_data_handler k i s ≡ running s') × Closed i s s'
  unfolding recv_data_handler
  recv_over-Closed i s le good on over =
      let (len, w) = k.recv (s.table i).fd buf_size s.world in
      let same = law.recv_keeps (s.table i).fd buf_size s.world in
      let (v, e, drop) = eventdel-used i (at_world s w) le (Good-at_world s w same good) on in
      let s1 : Server k = record {
        table = update s.table i (record (s.table i) { status = 0 });
        world = v;
      } in
      (
        record s1 { world = (k.close (s1.table i).fd v).1 },
        rw e (after_recv-over i len s1 over),
        (refl, λ g. ground (arith, law.close_drops (s1.table i).fd v g, drop g, same g)),
      )
