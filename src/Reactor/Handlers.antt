-- ===== src/Reactor/Handlers.antt =====
-- myEpollReactor.c: the handlers, the table and the interest list.
use linux_unix_system_progra.Prelude.{
  ℕ, zero, suc, ◌<◌, ◌≡◌, refl, ◌≢◌, ◌⊎◌, inl, inr, ◌==◌, Bool-cases, none, some, update, arith,
}
use linux_unix_system_progra.Syscall.{Reply, ok, fail, Reply-cases}
use linux_unix_system_progra.Reactor.Kernel.{
  Kernel, IsLawful, epollin, epollout, ctl_add, ctl_mod, ctl_del,
}
use linux_unix_system_progra.Reactor.Defs.{
  max_event, Table, Callback, null, recv_data, send_data, Server, Outcome, running, exited, crashed,
  ◌>>=◌, put, eventadd, eventdel, turn_to, close_event, after_send, send_data_handler, after_recv,
  recv_data_handler,
}
use linux_unix_system_progra.Reactor.Invariant.{
  Agrees, epv_of, Agrees-same, Agrees-detach, Agrees-attach,
}

-- What holds of the server if a handler runs to its end; it never crashes.
abbrev pub Ends {ℓ} : {S : Type ℓ} → (S → Type 0) → Outcome S → Type 0
Ends P (running s) = P s
Ends P (exited s) = Unit
Ends P (crashed s) = ⊥

pub Ends->>= {ℓ} :
    {S : Type ℓ} (P Q : S → Type 0) (f : S → Outcome S) (o : Outcome S)
    → Ends P o
    → ((s : S) → P s → Ends Q (f s))
    → Ends Q (o >>= f)
Ends->>= P Q f (running s) h g = g s h
Ends->>= P Q f (exited s) h g = tt
Ends->>= P Q f (crashed s) h g = h

pub Ends-map {ℓ} :
    {S : Type ℓ} (P Q : S → Type 0) (o : Outcome S) → Ends P o → ((s : S) → P s → Q s) → Ends Q o
Ends-map P Q (running s) h g = g s h
Ends-map P Q (exited s) h g = tt
Ends-map P Q (crashed s) h g = h

-- An entry that has a callback keeps one.
abbrev pub StaysArmed : Table → Table → Type 0
StaysArmed t t' = (j : ℕ) → (t j).call_back ≢ null → (t' j).call_back ≢ null

module _ (k : Kernel) (law : IsLawful k) where
  open k use {World}

  abbrev pub Good : Server k → Type 0
  Good s = Agrees s.table (law.interest s.world)

  abbrev pub Keeps : Server k → Server k → Type 0
  Keeps s s' = Good s' × StaysArmed s.table s'.table

  -- After `eventdel` the entry is free, and its descriptor is not registered.
  abbrev pub Freed : ℕ → Server k → Server k → Type 0
  Freed i s s' =
      Keeps s s' × ((s'.table i).status ≡ 0) × (law.interest s'.world (s'.table i).fd ≡ none)

  pub eventdel-Freed :
      (i : ℕ) (s : Server k) → i < max_event → Good s → Ends (Freed i s) (eventdel k i s)
  unfolding eventdel
  eventdel-Freed i s lt good = elim (Bool-cases ((s.table i).status == 0)) [
    | inl free ↦ rw free (elim (Reply-cases (k.epoll_ctl ctl_mod (s.table i).fd none s.world)) [
      | inl (n, w, q) ↦ absurd (law.mod_null (s.table i).fd n s.world w q)
      | inr (e, w, q) ↦ rw q tt
    ])
    | inr used ↦ rw used (elim (Reply-cases (k.epoll_ctl ctl_del (s.table i).fd none s.world)) [
      | inl (n, w, q) ↦ rw q (
        (
          Agrees-detach good i lt (record (s.table i) { status = 0 })
              (ground (arith, good.binary i)) refl (law.del_ok (s.table i).fd n s.world w q),
          λ j armed. ground arith,
        ),
        ground arith,
        ground (arith, law.del_ok (s.table i).fd n s.world w q (s.table i).fd),
      )
      | inr (e, w, q) ↦ rw q tt
    ])
  ]

  -- After `eventadd` of a free entry the entry is in use, and its descriptor, which was not
  -- registered before, is registered for the entry's events.
  abbrev pub Added : ℕ → Server k → Server k → Type 0
  Added i s s' =
      (s'.table ≡ update s.table i (record (s.table i) { status = 1 }))
      × (law.interest s.world (s.table i).fd ≡ none)
      × ((fd : ℕ)
          → law.interest s'.world fd
            ≡ update (law.interest s.world) (s.table i).fd (some (epv_of s.table i)) fd)

  pub eventadd-Added :
      (i : ℕ) (s : Server k) → (s.table i).status ≡ 0 → Ends (Added i s) (eventadd k i s)
  unfolding eventadd
  eventadd-Added i s free =
      rw free
        (elim (Reply-cases (k.epoll_ctl ctl_add (s.table i).fd (some (epv_of s.table i)) s.world)) [
          | inl (n, w, q) ↦
              let h = law.add_ok (s.table i).fd n (epv_of s.table i) s.world w q in
              rw q (refl, h.0, h.1)
          | inr (e, w, q) ↦ rw q tt
        ])

  -- A free entry turned to `f` and registered again.
  pub turn_to-Keeps :
      (f : Callback) (mask i : ℕ) (s0 s : Server k)
      → i < max_event
      → ((f ≡ recv_data) × (mask ≡ epollin)) ⊎ ((f ≡ send_data) × (mask ≡ epollout))
      → Freed i s0 s
      → Ends (Keeps s0) (turn_to k f mask i s)
  turn_to-Keeps f mask i s0 s lt role ((good, armed), free, gone) =
      Ends-map (Added i s1) (Keeps s0) (eventadd k i s1) (eventadd-Added i s1 (ground arith))
        attached
    where
      s1 : Server k
      s1 = put k i (record (s.table i) { call_back = f; events = mask }) s

      attached : (s' : Server k) → Added i s1 s' → Keeps s0 s'
      attached s' (e, fresh, add) = (
        Agrees-attach good i lt free (rw e (ground arith)) (rw e (ground arith))
            (λ j ne. rw e (ground arith)) (rw e (ground arith)) (λ g. rw e (ground (arith, add g))),
        λ j a. rw e (ground (arith, armed j)),
      )

  Keeps-trans : (a b c : Server k) → StaysArmed a.table b.table → Keeps b c → Keeps a c
  Keeps-trans a b c h (good, armed) = (good, λ j p. armed j (h j p))

  -- `close` of a descriptor that is not registered.
  close_event-Keeps : (i : ℕ) (s0 s : Server k) → Freed i s0 s → Ends (Keeps s0) (close_event k i s)
  close_event-Keeps i s0 s ((good, armed), free, gone) =
      (Agrees-same good (λ g. ground (arith, law.close_drops (s.table i).fd s.world g)), armed)

  -- A second `eventdel` before the close.
  del_close-Keeps :
      (i : ℕ) (s0 s : Server k)
      → i < max_event
      → Freed i s0 s
      → Ends (Keeps s0) (eventdel k i s >>= close_event k i)
  del_close-Keeps i s0 s lt ((good, armed), free, gone) =
      Ends->>= (Freed i s) (Keeps s0) (close_event k i) (eventdel k i s)
        (eventdel-Freed i s lt good)
        (λ s' freed. Keeps-trans s0 s _ armed (close_event-Keeps i s s' freed))

  after_send-Keeps :
      (i : ℕ) (len : Reply ℕ) (s0 s : Server k)
      → i < max_event
      → Freed i s0 s
      → Ends (Keeps s0) (after_send k i len s)
  unfolding after_send
  after_send-Keeps i (ok (suc n)) s0 s lt freed =
      turn_to-Keeps recv_data epollin i s0 s lt (inl (refl, refl)) freed
  after_send-Keeps i (ok zero) s0 s lt freed = del_close-Keeps i s0 s lt freed
  after_send-Keeps i (fail e) s0 s lt freed = del_close-Keeps i s0 s lt freed

  after_recv-Keeps :
      (i : ℕ) (len : Reply ℕ) (s0 s : Server k)
      → i < max_event
      → Freed i s0 s
      → Ends (Keeps s0) (after_recv k i len s)
  unfolding after_recv
  after_recv-Keeps i (ok (suc n)) s0 s lt freed =
      turn_to-Keeps send_data epollout i s0 s lt (inr (refl, refl)) freed
  after_recv-Keeps i (ok zero) s0 s lt freed = close_event-Keeps i s0 s freed
  after_recv-Keeps i (fail e) s0 s lt freed = close_event-Keeps i s0 s freed

  pub send_data_handler-Keeps :
      (i : ℕ) (s : Server k) → i < max_event → Good s → Ends (Keeps s) (send_data_handler k i s)
  unfolding send_data_handler
  send_data_handler-Keeps i s lt good =
      Ends->>= (Freed i s1) (Keeps s) (after_send k i _) (eventdel k i s1)
        (eventdel-Freed i s1 lt (Agrees-same good (law.send_keeps _ _ s.world)))
        (λ s' freed. after_send-Keeps i _ s s' lt freed)
    where
      s1 : Server k
      s1 = record s { world = (k.send (s.table i).fd 32 s.world).1 }

  pub recv_data_handler-Keeps :
      (i : ℕ) (s : Server k) → i < max_event → Good s → Ends (Keeps s) (recv_data_handler k i s)
  unfolding recv_data_handler
  recv_data_handler-Keeps i s lt good =
      Ends->>= (Freed i s1) (Keeps s) (after_recv k i _) (eventdel k i s1)
        (eventdel-Freed i s1 lt (Agrees-same good (law.recv_keeps _ _ s.world)))
        (λ s' freed. after_recv-Keeps i _ s s' lt freed)
    where
      s1 : Server k
      s1 = record s { world = (k.recv (s.table i).fd 1024 s.world).1 }
