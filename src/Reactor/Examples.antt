-- ===== src/Reactor/Examples.antt =====
-- Runs of myEpollReactor.c on a small kernel, which meets the assumptions on one.
use linux_unix_system_progra.Prelude.{
  ℕ, ◌≡◌, refl, ◌≢◌, Option, none, some, update, arith, List, [], ◌∷◌, All, subst,
}
use linux_unix_system_progra.Syscall.{Reply, ok, fail}
use linux_unix_system_progra.Reactor.Kernel.{
  Kernel, EpollEvent, IsLawful, Op, ctl_add, ctl_mod, ctl_del, epollin, has,
}
use linux_unix_system_progra.Reactor.Defs.{
  max_event, Event, null, recv_data, accept_connection, Server, accept_handler, serve, main,
  find_free, dispatch, call_on, call, eventadd,
}
use linux_unix_system_progra.Reactor.Handlers.{Ends, Good}
use linux_unix_system_progra.Reactor.Loop.{main-Good}
use linux_unix_system_progra.Reactor.Protocol.Calls.{Moved, call-Moved}

-- The interest list, the descriptors that are ready in each round, and what `recv` and `send` say.
record Machine : Type 0 where
  list : ℕ → Option EpollEvent
  ready : List ℕ
  transfer : Reply ℕ

abbrev add_to : Option EpollEvent → ℕ → EpollEvent → Machine → Reply ℕ × Machine
add_to none fd x m = (ok 0, record m { list = update m.list fd (some x) })
add_to (some y) fd x m = (fail 17, m)

abbrev drop_from : Option EpollEvent → ℕ → Machine → Reply ℕ × Machine
drop_from none fd m = (fail 2, m)
drop_from (some y) fd m = (ok 0, record m { list = update m.list fd none })

abbrev control : Op → ℕ → Option EpollEvent → Machine → Reply ℕ × Machine
control ctl_add fd (some x) m = add_to (m.list fd) fd x m
control ctl_add fd none m = (fail 14, m)
control ctl_mod fd (some x) m = (ok 0, record m { list = update m.list fd (some x) })
control ctl_mod fd none m = (fail 14, m)
control ctl_del fd x m = drop_from (m.list fd) fd m

abbrev report : Option EpollEvent → List EpollEvent → List EpollEvent
report none rs = rs
report (some x) rs = x ∷ rs

abbrev reports : (ℕ → Option EpollEvent) → List ℕ → List EpollEvent
reports f [] = []
reports f (fd ∷ fds) = report (f fd) (reports f fds)

abbrev machine : Kernel
machine = record {
  World = Machine;
  epoll_create = λ n m. (ok 3, record m { list = λ fd. none });
  socket = λ m. (ok 4, m);
  bind = λ fd m. (ok 0, m);
  listen = λ fd n m. (ok 0, m);
  epoll_ctl = control;
  epoll_wait = λ m. (ok (reports m.list m.ready), m);
  accept = λ fd m. (ok 9, m);
  recv = λ fd n m. (m.transfer, m);
  send = λ fd n m. (m.transfer, m);
  close = λ fd m. (ok 0, record m { list = update m.list fd none });
}

abbrev Reported : (ℕ → Option EpollEvent) → EpollEvent → Type 0
Reported f r = (fd : ℕ) × (x : EpollEvent) × (f fd ≡ some x) × (x.ptr ≡ r.ptr)

report-Reported :
    (f : ℕ → Option EpollEvent) (fd : ℕ) (o : Option EpollEvent) (rs : List EpollEvent)
    → f fd ≡ o
    → All (Reported f) rs
    → All (Reported f) (report o rs)
report-Reported f fd none rs e rest = rest
report-Reported f fd (some x) rs e rest = ((fd, x, e, refl), rest)

reports-Reported : (f : ℕ → Option EpollEvent) (fds : List ℕ) → All (Reported f) (reports f fds)
reports-Reported f [] = tt
reports-Reported f (fd ∷ fds) =
    report-Reported f fd (f fd) (reports f fds) refl (reports-Reported f fds)

add_law :
    (o : Option EpollEvent) (fd n : ℕ) (x : EpollEvent) (m m' : Machine)
    → m.list fd ≡ o
    → add_to o fd x m ≡ (ok n, m')
    → (m.list fd ≡ none) × ((g : ℕ) → m'.list g ≡ update m.list fd (some x) g)
add_law none fd n x m m' e q = (e, λ g. ground arith)
add_law (some y) fd n x m m' e q = absurd (ground arith)

del_law :
    (o : Option EpollEvent) (fd n : ℕ) (m m' : Machine)
    → drop_from o fd m ≡ (ok n, m')
    → (g : ℕ) → m'.list g ≡ update m.list fd none g
del_law none fd n m m' q g = absurd (ground arith)
del_law (some y) fd n m m' q g = ground arith

del_fail_law :
    (o : Option EpollEvent) (fd e : ℕ) (m m' : Machine)
    → m.list fd ≡ o
    → drop_from o fd m ≡ (fail e, m')
    → m.list fd ≡ none
del_fail_law none fd e m m' h q = h
del_fail_law (some y) fd e m m' h q = absurd (ground arith)

ok_inj :
    {xs rs : List EpollEvent} {m m' : Machine}
    → ◌≡◌ {A = Reply (List EpollEvent) × Machine} (ok xs, m) (ok rs, m')
    → xs ≡ rs
ok_inj q = cc

mod_law : (fd n : ℕ) (m m' : Machine) → control ctl_mod fd none m ≢ (ok n, m')
mod_law fd n m m' q = ground arith

abbrev law : IsLawful machine
law = record {
  interest = λ m. m.list;
  create_empty = λ n m g. refl;
  socket_keeps = λ m g. refl;
  bind_keeps = λ fd m g. refl;
  listen_keeps = λ fd n m g. refl;
  add_ok = λ fd n x m m' q. add_law (m.list fd) fd n x m m' refl q;
  mod_null = λ fd n m m' q. mod_law fd n m m' q;
  del_ok = λ fd n m m' q. del_law (m.list fd) fd n m m' q;
  del_fail = λ fd e m m' q. del_fail_law (m.list fd) fd e m m' refl q;
  recv_keeps = λ fd n m g. refl;
  send_keeps = λ fd n m g. refl;
  accept_keeps = λ fd m g. refl;
  close_drops = λ fd m g. refl;
  wait_keeps = λ m g. refl;
  wait_reports =
      λ m m' rs q. subst (All (Reported m.list)) (ok_inj q) (reports-Reported m.list m.ready);
}

-- One connection on descriptor 9 in entry 0, the listening socket on descriptor 4.
abbrev client : Event
client = record { fd = 9; events = epollin; status = 1; call_back = recv_data }

abbrev zeroed_event : Event
zeroed_event = record { fd = 0; events = 0; status = 0; call_back = null }

abbrev listener_event : Event
listener_event = record { fd = 4; events = epollin; status = 1; call_back = accept_connection }

abbrev one_client : Reply ℕ → Server machine
one_client len = record {
  table = update (update (λ i. zeroed_event) max_event listener_event) 0 client;
  world = record {
    list =
        update (update (λ fd. none) 4 (some (record { events = epollin; ptr = max_event }))) 9
          (some (record { events = epollin; ptr = 0 }));
    ready = 9 ∷ [];
    transfer = len;
  };
}

one_client-Good : (len : Reply ℕ) → Good machine law (one_client len)
one_client-Good len = record {
  listening = refl;
  binary = λ i. ground arith;
  live = λ i le on. ground arith;
  known = λ fd x q. ground arith;
  roles = λ i lt on. ground arith;
}

-- Started with the listening socket ready, the server takes a connection into entry 0.
abbrev fresh : Machine
fresh = record { list = λ fd. none; ready = 4 ∷ []; transfer = ok 5 }

main-Good_example : Ends (Good machine law) (main machine 1 fresh)
main-Good_example = main-Good machine law 1 fresh

call-Moved_example :
    Ends
      (Moved machine law recv_data 0 (one_client (ok 5)))
      (call machine recv_data 0 (one_client (ok 5)))
call-Moved_example =
    call-Moved machine law recv_data 0 (one_client (ok 5)) (omega arith) (one_client-Good (ok 5))
      refl (λ e. ground (arith, e))

-- The first round really accepts: entry 0 is in use afterwards.
accept_runs : Ends (λ s. (s.table 0).status ≡ 1) (main machine 1 fresh)
unfolding main serve dispatch call_on call accept_handler find_free eventadd has
accept_runs = refl
