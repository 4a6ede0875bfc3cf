-- ===== src/Reactor/Protocol/Calls.antt =====
-- myEpollReactor.c: every call of a handler is a move of the protocol, or ends the server.
use linux_unix_system_progra.Prelude.{
  ℕ, zero, suc, ◌≤◌, ◌≡◌, ◌≢◌, refl, ◌==◌, Bool-cases, inl, inr, Option, none, some, update, arith,
  subst, sym,
}
use linux_unix_system_progra.Syscall.{Reply, ok, fail, Reply-cases}
use linux_unix_system_progra.Reactor.Kernel.{Kernel, IsLawful, epollin, epollout}
use linux_unix_system_progra.Reactor.Defs.{
  max_event, message_count, buf_size, Callback, null, recv_data, send_data, accept_connection,
  Event, Server, Outcome, recv_data_handler, send_data_handler, accept_handler, after_accept, call,
}
use linux_unix_system_progra.Reactor.Accepting.{FirstFree}
use linux_unix_system_progra.Reactor.Handlers.{Ends, Ends-map, Good}
use linux_unix_system_progra.Reactor.Connections.{
  eventdel_free, at_world, recv_over-Closed, send_over_exits,
}
use linux_unix_system_progra.Reactor.Turns.{
  Turned, recv_more-Turned, send_more-Turned, Placed, Accepted, accept_handler-Accepted,
}
use linux_unix_system_progra.Reactor.Protocol.{
  Phase, free, receiving, sending, phase, phase_of, phases, Move, received, hung_up, sent, joined,
  turned_away, phases-update,
}

phase_of_lem : (c : Callback) → phase_of c ≢ free
phase_of_lem null e = ground (arith, e)
phase_of_lem recv_data e = ground (arith, e)
phase_of_lem send_data e = ground (arith, e)
phase_of_lem accept_connection e = ground (arith, e)

module _ (k : Kernel) (law : IsLawful k) where
  open k use {World}

  abbrev pub Moved : Callback → ℕ → Server k → Server k → Type 0
  Moved c i s s' = Move c i (phases s.table) (phases s'.table)

  used_phase : (e : Event) → e.status ≢ 0 → phase e ≢ free
  used_phase e used q =
      let named : (c : Callback) → phase_of c ≢ free = phase_of_lem in
      ground (arith, named e.call_back)

  -- One entry has changed its phase.
  moved :
      (c : Callback) (i : ℕ) (s s' : Server k) (j : ℕ) (x : Phase)
      → ((m : ℕ) → phase (s'.table m) ≡ update (phases s.table) j x m)
      → Move c i (phases s.table) (update (phases s.table) j x)
      → Moved c i s s'
  moved c i s s' j x h m =
      subst (Move c i (phases s.table)) (sym (phases-update s.table s'.table j x h)) m

  recv_used-Moved :
      (i : ℕ) (s : Server k) (len : Reply ℕ)
      → i ≤ max_event
      → Good k law s
      → (s.table i).call_back ≡ recv_data
      → (s.table i).status ≡ 1
      → (k.recv (s.table i).fd buf_size s.world).0 ≡ len
      → Ends (Moved recv_data i s) (recv_data_handler k i s)
  recv_used-Moved i s (ok (suc n)) le good role on e =
      Ends-map (Turned k law send_data epollout i s) (Moved recv_data i s) (recv_data_handler k i s)
        (recv_more-Turned k law i n s le good on e)
        (λ s' (t, g).
          moved recv_data i s s' i sending (λ j. ground (arith, t j))
            (received refl (ground arith)))
  recv_used-Moved i s (ok zero) le good role on e =
      let (s', q, (t, g)) = recv_over-Closed k law i s le good on (rw e refl) in
      rw q (moved recv_data i s s' i free (λ j. rw t (ground arith)) (hung_up refl (ground arith)))
  recv_used-Moved i s (fail d) le good role on e =
      let (s', q, (t, g)) = recv_over-Closed k law i s le good on (rw e tt) in
      rw q (moved recv_data i s s' i free (λ j. rw t (ground arith)) (hung_up refl (ground arith)))

  send_used-Moved :
      (i : ℕ) (s : Server k) (len : Reply ℕ)
      → i ≤ max_event
      → Good k law s
      → (s.table i).call_back ≡ send_data
      → (s.table i).status ≡ 1
      → (k.send (s.table i).fd message_count s.world).0 ≡ len
      → Ends (Moved send_data i s) (send_data_handler k i s)
  send_used-Moved i s (ok (suc n)) le good role on e =
      Ends-map (Turned k law recv_data epollin i s) (Moved send_data i s) (send_data_handler k i s)
        (send_more-Turned k law i n s le good on e)
        (λ s' (t, g).
          moved send_data i s s' i receiving (λ j. ground (arith, t j)) (sent refl (ground arith)))
  send_used-Moved i s (ok zero) le good role on e =
      let (s', q) = send_over_exits k law i s le good on (rw e refl) in rw q tt
  send_used-Moved i s (fail d) le good role on e =
      let (s', q) = send_over_exits k law i s le good on (rw e tt) in rw q tt

  -- A handler of a free entry ends the process.
  recv_free :
      (i : ℕ) (s : Server k)
      → (s.table i).status ≡ 0
      → Ends (Moved recv_data i s) (recv_data_handler k i s)
  unfolding recv_data_handler
  recv_free i s off =
      let w = (k.recv (s.table i).fd buf_size s.world).1 in
      let (v, e) = eventdel_free k law i (at_world k law s w) off in rw e tt

  send_free :
      (i : ℕ) (s : Server k)
      → (s.table i).status ≡ 0
      → Ends (Moved send_data i s) (send_data_handler k i s)
  unfolding send_data_handler
  send_free i s off =
      let w = (k.send (s.table i).fd message_count s.world).1 in
      let (v, e) = eventdel_free k law i (at_world k law s w) off in rw e tt

  Accepted-Moved :
      (cfd l : ℕ) (s : Server k) (w : World) (o : Outcome (Server k)) (r : Option ℕ)
      → FirstFree max_event 0 s.table r
      → Accepted k law cfd s w o r
      → Ends (Moved accept_connection l s) o
  Accepted-Moved cfd l s w o none first e = rw e (
      turned_away refl (λ m lt. used_phase (s.table m) (first m (omega arith) (omega (arith, lt)))))
  Accepted-Moved cfd l s w o (some i) (_, lt, off, before) h =
      Ends-map (Placed k law cfd i s) (Moved accept_connection l s) o h (λ s' (t, g).
        moved accept_connection l s s' i receiving (λ j. ground (arith, t j))
          (joined i refl (omega (arith, lt)) (ground (arith, off))
            (λ m below. used_phase (s.table m) (before m (omega arith) below))))

  accept-Moved : (l : ℕ) (s : Server k) → Ends (Moved accept_connection l s) (accept_handler k l s)
  accept-Moved l s = elim (Reply-cases (k.accept (s.table l).fd s.world)) [
    | inl (cfd, w, q) ↦
        let (r, first, h) = accept_handler-Accepted k law l cfd s w q in
        Accepted-Moved cfd l s w (accept_handler k l s) r first h
    | inr (e, w, q) ↦ unfold accept_handler after_accept in rw q tt
  ]

  -- While the table agrees with the registrations, a handler that is called for an entry makes its one
  -- move of the protocol, or ends the server: from receiving to sending or free, from sending to
  -- receiving, and a new connection takes the first free entry, if there is one.
  pub call-Moved :
      (c : Callback) (i : ℕ) (s : Server k)
      → i ≤ max_event
      → Good k law s
      → (s.table i).call_back ≡ c
      → c ≢ null
      → Ends (Moved c i s) (call k c i s)
  unfolding call
  call-Moved null i s le good e armed = armed refl
  call-Moved recv_data i s le good e armed = elim (Bool-cases ((s.table i).status == 0)) [
    | inl off ↦ recv_free i s (ground arith)
    | inr used ↦
        recv_used-Moved i s (k.recv (s.table i).fd buf_size s.world).0 le good e
          (ground (arith, good.binary i)) refl
  ]
  call-Moved send_data i s le good e armed = elim (Bool-cases ((s.table i).status == 0)) [
    | inl off ↦ send_free i s (ground arith)
    | inr used ↦
        send_used-Moved i s (k.send (s.table i).fd message_count s.world).0 le good e
          (ground (arith, good.binary i)) refl
  ]
  call-Moved accept_connection i s le good e armed = accept-Moved i s
