-- ===== src/Reactor/Loop.antt =====
-- myEpollReactor.c: the loop of `main`, the table and the interest list.
use linux_unix_system_progra.Prelude.{
  ℕ, zero, suc, ◌≤◌, ◌<◌, ◌≡◌, refl, ◌≢◌, inl, inr, ◌&&◌, Bool-cases, Option, none, some, update,
  arith, ◌∙◌, List, [], ◌∷◌, All, dec_lt,
}
use linux_unix_system_progra.Syscall.{Reply, ok, fail, Reply-cases}
use linux_unix_system_progra.Reactor.Kernel.{
  Kernel, EpollEvent, IsLawful, epollin, epollout, has, ctl_add,
}
use linux_unix_system_progra.Reactor.Defs.{
  max_event, Callback, null, recv_data, send_data, accept_connection, Server, put, eventadd,
  setevent, find_free, take_entry, after_accept, accept_handler, call, call_on, dispatch,
  after_wait, serve, rounds, zeroed, listener, listen_on, register, start, main,
}
use linux_unix_system_progra.Reactor.Invariant.{Agrees, Agrees-same, Agrees-attach}
use linux_unix_system_progra.Reactor.Accepting.{FirstFree, find_free-FirstFree}
use linux_unix_system_progra.Reactor.Handlers.{
  Ends, Ends->>=, StaysArmed, Good, Keeps, Added, eventadd-Added, send_data_handler-Keeps,
  recv_data_handler-Keeps,
}

module _ (k : Kernel) (law : IsLawful k) where
  open k use {World}

  take_entry-Keeps :
      (cfd : ℕ) (r : Option ℕ) (s : Server k)
      → FirstFree max_event 0 s.table r
      → Good k law s
      → Ends (Keeps k law s) (take_entry k cfd r s)
  unfolding take_entry
  take_entry-Keeps cfd none s first good = (good, λ j a. a)
  take_entry-Keeps cfd (some j) s (_, lt, free, _) good =
      Ends->>= (Added k law j s1) (Keeps k law s) _ (eventadd k j s1)
        (eventadd-Added k law j s1 (ground arith)) attached
    where
      s1 : Server k
      s1 = put k j (setevent (s.table j) cfd epollin) s

      attached :
          (s' : Server k)
          → Added k law j s1 s'
          → Keeps k law s (put k j (record (s'.table j) { call_back = recv_data }) s')
      attached s' (e, fresh, add) = (
        Agrees-attach good j (omega arith) free (rw e (ground arith)) (rw e (ground arith))
            (λ m ne. rw e (ground arith)) (rw e (ground arith)) (λ g. rw e (ground (arith, add g))),
        λ m a. rw e (ground arith),
      )

  accept_handler-Keeps :
      (i : ℕ) (s : Server k) → Good k law s → Ends (Keeps k law s) (accept_handler k i s)
  unfolding accept_handler
  accept_handler-Keeps i s good =
      go (k.accept (s.table i).fd s.world) (law.accept_keeps (s.table i).fd s.world)
    where
      go :
          (x : Reply ℕ × World)
          → ((g : ℕ) → law.interest x.1 g ≡ law.interest s.world g)
          → Ends (Keeps k law s) (after_accept k s.table x)
      go (ok cfd, w) same =
          take_entry-Keeps cfd (find_free max_event 0 s.table) _
            (find_free-FirstFree max_event 0 s.table) (Agrees-same good same)
      go (fail e, w) same = tt

  not_listener :
      (i : ℕ) (s : Server k)
      → i ≤ max_event
      → Good k law s
      → (s.table i).call_back ≢ accept_connection
      → i < max_event
  not_listener i s le good ne = elim (dec_lt i max_event) [
    | yes lt ↦ lt
    | no ge ↦ absurd (ne (let last : i ≡ max_event = omega arith in rw last good.listening))
  ]

  pub call-Keeps :
      (c : Callback) (i : ℕ) (s : Server k)
      → i ≤ max_event
      → Good k law s
      → (s.table i).call_back ≡ c
      → c ≢ null
      → Ends (Keeps k law s) (call k c i s)
  unfolding call
  call-Keeps null i s le good e armed = armed refl
  call-Keeps recv_data i s le good e armed =
      recv_data_handler-Keeps k law i s (not_listener i s le good (λ q. cc)) good
  call-Keeps send_data i s le good e armed =
      send_data_handler-Keeps k law i s (not_listener i s le good (λ q. cc)) good
  call-Keeps accept_connection i s le good e armed = accept_handler-Keeps i s good

  -- A report may be handled: its entry is in the table and has a callback.
  abbrev pub Callable : Server k → EpollEvent → Type 0
  Callable s r = (r.ptr ≤ max_event) × ((s.table r.ptr).call_back ≢ null)

  pub call_on-Keeps :
      (flag : ℕ) (r : EpollEvent) (s : Server k)
      → Callable s r
      → Good k law s
      → Ends (Keeps k law s) (call_on k flag r s)
  unfolding call_on
  call_on-Keeps flag r s (le, armed) good =
      elim (Bool-cases (has (s.table r.ptr).events flag && has r.events flag)) [
        | inl hit ↦ rw hit (call-Keeps _ r.ptr s le good refl armed)
        | inr miss ↦ rw miss (good, λ j a. a)
      ]

  pub All-Callable :
      (rs : List EpollEvent) (s s' : Server k)
      → StaysArmed s.table s'.table
      → All (Callable s) rs
      → All (Callable s') rs
  All-Callable [] s s' h a = tt
  All-Callable (r ∷ rs) s s' h ((le, armed), a) = ((le, h r.ptr armed), All-Callable rs s s' h a)

  dispatch-Keeps :
      (rs : List EpollEvent) (s : Server k)
      → All (Callable s) rs
      → Good k law s
      → Ends (Good k law) (dispatch k rs s)
  unfolding dispatch
  dispatch-Keeps [] s a good = good
  dispatch-Keeps (r ∷ rs) s ((le, armed), a) good =
      Ends->>= (Keeps k law s) (Good k law) _ (call_on k epollin r s)
        (call_on-Keeps epollin r s (le, armed) good)
        λ s1 (good1, h1).
          Ends->>= (Keeps k law s1) (Good k law) _ (call_on k epollout r s1)
            (call_on-Keeps epollout r s1 (le, h1 r.ptr armed) good1)
            λ s2 (good2, h2).
              dispatch-Keeps rs s2 (All-Callable rs s1 s2 h2 (All-Callable rs s s1 h1 a)) good2

  entry-armed :
      (i : ℕ) (s : Server k)
      → i ≤ max_event
      → Good k law s
      → (s.table i).status ≡ 1
      → (s.table i).call_back ≢ null
  entry-armed i s le good on = elim (dec_lt i max_event) [
    | yes lt ↦ λ e. ground (arith, good.roles i lt on)
    | no ge ↦ λ e.
        let last : i ≡ max_event = omega arith in
        let h : (s.table i).call_back ≡ accept_connection = rw last good.listening in cc
  ]

  pub reported-Callable :
      (rs : List EpollEvent) (s : Server k)
      → Good k law s
      → All
          (λ r. (fd : ℕ) × (x : EpollEvent) × (law.interest s.world fd ≡ some x) × (x.ptr ≡ r.ptr))
          rs
      → All (Callable s) rs
  reported-Callable [] s good a = tt
  reported-Callable (r ∷ rs) s good ((fd, x, e, p), a) =
      let (le, on, same) = good.known fd x e in
      ((omega arith, rw (← p) (entry-armed x.ptr s le good on)), reported-Callable rs s good a)

  -- From a state in which the table agrees with the interest list, a round of the loop never calls
  -- through a null pointer, and unless it ends the process they agree again: the entries in use are
  -- exactly the registrations, each with the events, pointer and callback that belong together.
  pub serve-Good : (s : Server k) → Good k law s → Ends (Good k law) (serve k s)
  unfolding serve
  serve-Good s good =
      go (k.epoll_wait s.world) (law.wait_keeps s.world) (law.wait_reports s.world _)
    where
      go :
          (x : Reply (List EpollEvent) × World)
          → ((g : ℕ) → law.interest x.1 g ≡ law.interest s.world g)
          → ((rs : List EpollEvent)
              → x ≡ (ok rs, x.1)
              → All
                  (λ r.
                    (fd : ℕ) × (y : EpollEvent) × (law.interest s.world fd ≡ some y)
                    × (y.ptr ≡ r.ptr))
                  rs)
          → Ends (Good k law) (after_wait k s.table x)
      go (fail e, w) same reports = tt
      go (ok rs, w) same reports =
          dispatch-Keeps rs _ (reported-Callable rs s good (reports rs refl))
            (Agrees-same good same)

  rounds-Good : (n : ℕ) (s : Server k) → Good k law s → Ends (Good k law) (rounds k n s)
  unfolding rounds
  rounds-Good zero s good = good
  rounds-Good (suc n) s good =
      Ends->>= (Good k law) (Good k law) (rounds k n) (serve k s) (serve-Good s good)
        (rounds-Good n)

  -- Only the listening socket is registered.
  Agrees-listener :
      (lfd : ℕ) (f g : ℕ → Option EpollEvent)
      → ((d : ℕ) → f d ≡ none)
      → ((d : ℕ) → g d ≡ update f lfd (some (record { events = epollin; ptr = max_event })) d)
      → Agrees (update (λ i. zeroed k) max_event (listener k lfd)) g
  Agrees-listener lfd f g empty add = record {
    listening = ground arith;
    binary = λ i. ground arith;
    live = λ i le on. ground (arith, add lfd);
    known = λ fd x q. ground (arith, add fd, empty fd);
    roles = λ i lt on. ground arith;
  }

  pub register-Good :
      (x : Reply ℕ × World)
      → ((g : ℕ) → law.interest x.1 g ≡ none)
      → Ends (Good k law) (register k x)
  unfolding register listen_on
  register-Good (fail e, w) empty = tt
  register-Good (ok lfd, w) empty = elim (Reply-cases (k.epoll_ctl ctl_add lfd (some epv) w)) [
    | inl (n, v, q) ↦ rw q (
        Agrees-same (Agrees-listener lfd _ _ empty (law.add_ok lfd n epv w v q).1)
          (λ g. law.listen_keeps lfd max_event (k.bind lfd v).1 g ∙ law.bind_keeps lfd v g))
    | inr (e, v, q) ↦ rw q tt
  ]
    where
      epv : EpollEvent
      epv = record { events = epollin; ptr = max_event }

  -- Started by `main`, the server never calls through a null pointer in any number of rounds, and as
  -- long as it runs the entries in use are exactly the registrations of the kernel.
  pub main-Good : (n : ℕ) (w : World) → Ends (Good k law) (main k n w)
  unfolding main start
  main-Good n w =
      Ends->>= (Good k law) (Good k law) (rounds k n) (start k w)
        (register-Good _ (λ g. law.socket_keeps _ g ∙ law.create_empty _ w g)) (rounds-Good n)
