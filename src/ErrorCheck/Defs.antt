-- ===== src/ErrorCheck/Defs.antt =====
-- t_pthread_mutexattr.c: `main`, and the threads of `func1`, which locks the mutex, and of `func2`,
-- which unlocks it. The mutex is of the type PTHREAD_MUTEX_ERRORCHECK: it is released only by the
-- thread that owns it, and another thread gets EPERM. One call is one step; the mutex, which main sets
-- up before it creates a thread, is in the state from then on.
use linux_unix_system_progra.Prelude.{ℕ, ◌≡◌, ◌≢◌, Bool, true, false, Option, none, some}

pub data Thread : Type 0 where
  unborn : Thread
  sleeping : Thread  -- in the call of sleep
  calling : Thread  -- before its call on the mutex
  returned : Thread

-- Before each call of `main`, or its end.
pub data Main : Type 0 where
  attr_init : Main
  attr_settype : Main
  mutex_init : Main
  create_first : Main
  create_second : Main
  join_first : Main
  join_second : Main
  exited : (success : Bool) → Main

abbrev pub eperm : ℕ
eperm = 1

pub data Who : Type 0 where
  first second : Who

pub data Owner : Type 0 where
  nobody : Owner
  held_by : Who → Owner

pub record System : Type 0 where
  pub owner : Owner  -- of `mtx`
  pub answer : Option ℕ  -- to the call of func2, which is not looked at: 0 or an error
  pub thr1 : Thread
  pub thr2 : Thread
  pub main : Main

abbrev pub running : Main → Bool
running attr_init = true
running attr_settype = true
running mutex_init = true
running create_first = true
running create_second = true
running join_first = true
running join_second = true
running (exited b) = false

-- The call after one that succeeds. A thread is joined once it has returned.
pub data MainStep (s t : System) : Type 0 where
  init_attr : s.main ≡ attr_init → t ≡ record s { main = attr_settype } → MainStep s t
  set_type : s.main ≡ attr_settype → t ≡ record s { main = mutex_init } → MainStep s t
  init_mutex : s.main ≡ mutex_init → t ≡ record s { main = create_first } → MainStep s t
  create_thr1 :
      s.main ≡ create_first → t ≡ record s { thr1 = sleeping; main = create_second } → MainStep s t
  create_thr2 :
      s.main ≡ create_second → t ≡ record s { thr2 = sleeping; main = join_first } → MainStep s t
  join_thr1 :
      s.main ≡ join_first → s.thr1 ≡ returned → t ≡ record s { main = join_second } → MainStep s t
  join_thr2 :
      s.main ≡ join_second → s.thr2 ≡ returned → t ≡ record s { main = exited true } → MainStep s t

-- The calls whose result `main` looks at.
abbrev pub is_checked : Main → Bool
is_checked attr_init = true
is_checked attr_settype = true
is_checked mutex_init = true
is_checked create_first = true
is_checked create_second = true
is_checked join_first = false
is_checked join_second = false
is_checked (exited b) = false

-- A call on the mutex by its owner, or by another thread.
pub data ThreadStep (s t : System) : Type 0 where
  wake_thr1 : s.thr1 ≡ sleeping → t ≡ record s { thr1 = calling } → ThreadStep s t
  wake_thr2 : s.thr2 ≡ sleeping → t ≡ record s { thr2 = calling } → ThreadStep s t
  lock :
      s.thr1 ≡ calling
      → s.owner ≡ nobody
      → t ≡ record s { owner = held_by first; thr1 = returned }
      → ThreadStep s t
  relock :
      s.thr1 ≡ calling → s.owner ≡ held_by first → t ≡ record s { thr1 = returned } → ThreadStep s t
  unlock :
      s.thr2 ≡ calling
      → s.owner ≡ held_by second
      → t ≡ record s { owner = nobody; answer = some 0; thr2 = returned }
      → ThreadStep s t
  refuse :
      s.thr2 ≡ calling
      → s.owner ≢ held_by second
      → t ≡ record s { answer = some eperm; thr2 = returned }
      → ThreadStep s t

-- Until `main` has ended: a step of a thread or of `main`, or the exit at an error.
pub data Step (s t : System) : Type 0 where
  of_thread : running s.main ≡ true → ThreadStep s t → Step s t
  of_main : running s.main ≡ true → MainStep s t → Step s t
  error : is_checked s.main ≡ true → t ≡ record s { main = exited false } → Step s t

abbrev pub start : System
start = record { owner = nobody; answer = none; thr1 = unborn; thr2 = unborn; main = attr_init }

pub data Reach : System → Type 0 where
  here : Reach start
  next : {s t : System} → Reach s → Step s t → Reach t
