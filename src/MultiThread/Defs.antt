-- ===== src/MultiThread/Defs.antt =====
-- webprogramming/multi_thread_server.c: the loop of `main` over the slots `socks`, and the worker
-- thread of each slot, one access to a slot at a time.
use linux_unix_system_progra.Prelude.{
  ℕ, ◌+◌, ◌<◌, ◌≡◌, ◌≢◌, Bool, true, false, update, Option, some, none,
}

abbrev pub thread_limit : ℕ
thread_limit = 3

-- The thread that was last created for a slot, as far as it still uses the slot.
pub data Worker : Type 0 where
  absent : Worker
  serving : Worker  -- in the loop of `worker`
  failing : Worker  -- after a failed read, before `sock->on = 0`
  clearing : Worker  -- after the loop, before `sock->on = 0`

-- `socks[i]`, with its thread. `closed` says whether `cfd` was closed.
pub record Slot : Type 0 where
  pub on : ℕ
  pub cfd : Option ℕ  -- none for -1
  pub closed : Bool
  pub worker : Worker

pub data Main : Type 0 where
  scanning : (i : ℕ) → Main  -- round `i` of the search for a slot with `on == 0`
  accepting : (i : ℕ) → Main  -- before the accept of the condition
  retrying : (i : ℕ) → Main  -- before the accept of the body
  creating : (i : ℕ) → Main  -- before pthread_create
  marking : (i : ℕ) → Main  -- before `socks[i].on = 1`
  detaching : (i : ℕ) → Main
  suspended : Main  -- in sigsuspend
  exited : Main  -- by `errExit`

pub record System : Type 0 where
  pub socks : ℕ → Slot
  pub main : Main

abbrev pub set : System → ℕ → Slot → System
set s i x = record s { socks = update s.socks i x }

pub data MainStep (s t : System) : Type 0 where
  free :
      (i : ℕ)
      → s.main ≡ scanning i
      → i < thread_limit
      → (s.socks i).on ≡ 0
      → t ≡ record s { main = accepting i }
      → MainStep s t
  taken :
      (i : ℕ)
      → s.main ≡ scanning i
      → i < thread_limit
      → (s.socks i).on ≢ 0
      → t ≡ record s { main = scanning (i + 1) }
      → MainStep s t
  busy :
      (i : ℕ)
      → s.main ≡ scanning i
      → ¬ (i < thread_limit)
      → t ≡ record s { main = suspended }
      → MainStep s t
  -- SIGUSR1 arrives.
  resume : s.main ≡ suspended → t ≡ record s { main = scanning 0 } → MainStep s t
  accept :
      (i fd : ℕ)
      → s.main ≡ accepting i
      → t ≡ record (set s i (record (s.socks i) { cfd = some fd; closed = false })) {
        main = creating i;
      }
      → MainStep s t
  accept_fails :
      (i : ℕ)
      → s.main ≡ accepting i
      → t ≡ record (set s i (record (s.socks i) { cfd = none })) { main = retrying i }
      → MainStep s t
  -- The loop accepts again whatever the accept of its body returned.
  retry :
      (i : ℕ) (answer : Option ℕ)
      → s.main ≡ retrying i
      → t ≡ record (set s i (record (s.socks i) { cfd = answer; closed = false })) {
        main = accepting i;
      }
      → MainStep s t
  create :
      (i : ℕ)
      → s.main ≡ creating i
      → t ≡ record (set s i (record (s.socks i) { worker = serving })) { main = marking i }
      → MainStep s t
  create_fails : (i : ℕ) → s.main ≡ creating i → t ≡ record s { main = exited } → MainStep s t
  mark :
      (i : ℕ)
      → s.main ≡ marking i
      → t ≡ record (set s i (record (s.socks i) { on = 1 })) { main = detaching i }
      → MainStep s t
  detach : (i : ℕ) → s.main ≡ detaching i → t ≡ record s { main = scanning 0 } → MainStep s t
  detach_fails : (i : ℕ) → s.main ≡ detaching i → t ≡ record s { main = exited } → MainStep s t

-- A step of the thread of slot `i`.
pub data WorkerStep (i : ℕ) (s t : System) : Type 0 where
  -- A message that is not the password; the answer is written.
  answer : (s.socks i).worker ≡ serving → t ≡ s → WorkerStep i s t
  -- `read` fails.
  read_fails :
      (s.socks i).worker ≡ serving
      → t ≡ set s i (record (s.socks i) { worker = failing })
      → WorkerStep i s t
  -- `read` returns 0: the client has disconnected.
  disconnect :
      (s.socks i).worker ≡ serving
      → t ≡ set s i (record (s.socks i) { worker = clearing; closed = true })
      → WorkerStep i s t
  -- The password ends the loop with no close.
  password :
      (s.socks i).worker ≡ serving
      → t ≡ set s i (record (s.socks i) { worker = clearing })
      → WorkerStep i s t
  -- `sock->on = 0` and pthread_exit.
  fail :
      (s.socks i).worker ≡ failing
      → t ≡ set s i (record (s.socks i) { on = 0; worker = absent })
      → WorkerStep i s t
  -- `sock->on = 0`; what follows does not use the slot.
  clear :
      (s.socks i).worker ≡ clearing
      → t ≡ set s i (record (s.socks i) { on = 0; worker = absent })
      → WorkerStep i s t

pub data Step (s t : System) : Type 0 where
  by_main : s.main ≢ exited → MainStep s t → Step s t
  by_worker : (i : ℕ) → i < thread_limit → s.main ≢ exited → WorkerStep i s t → Step s t

abbrev pub start : System
start = record {
  socks = λ i. record { on = 0; cfd = some 0; closed = false; worker = absent };
  main = scanning 0;
}

pub data Reach (s : System) : System → Type 0 where
  here : Reach s s
  next : {t u : System} → Reach s t → Step t u → Reach s u
