-- ===== src/Endings/Defs.antt =====
-- t_pthread_create.c, t_pthread_create_2.c, t_pthread_detach.c and t_pthread_attr.c: a thread that is
-- not joined, and the end of the process. It ends when `main` returns, or, where `main` calls
-- pthread_exit, with its last thread. Only t_pthread_attr.c looks at the results of its calls; in the
-- others pthread_create succeeds.
use linux_unix_system_progra.Prelude.{◌≡◌, ◌≢◌, Bool, true, false}

pub data Program : Type 0 where
  create create_2 detach attr : Program

-- `func`
pub data Thread : Type 0 where
  unborn : Thread
  starting : Thread  -- before it prints, or returns
  sleeping : Thread  -- between the lines of t_pthread_detach.c
  finished : Thread

-- Before each call of `main`, or behind the last one.
pub data Main : Type 0 where
  attr_init attr_setdetachstate creating attr_destroy detaching printing sleeping_main exiting :
      Main
  gone : Main  -- by pthread_exit
  returned : Main
  failed : Main  -- by `exit` at an error

abbrev pub begins : Program → Main
begins create = creating
begins create_2 = creating
begins detach = creating
begins attr = attr_init

-- What `main` does next. `next p creating` is the call behind pthread_create.
abbrev pub behind_creating : Program → Main
behind_creating create = printing
behind_creating create_2 = printing
behind_creating detach = detaching
behind_creating attr = attr_destroy

abbrev pub behind_printing : Program → Main
behind_printing create = sleeping_main
behind_printing create_2 = exiting
behind_printing detach = returned
behind_printing attr = returned

abbrev pub after : Program → Main → Main
after p attr_init = attr_setdetachstate
after p attr_setdetachstate = creating
after p creating = behind_creating p
after p attr_destroy = returned
after p detaching = sleeping_main
after p printing = behind_printing p
after p sleeping_main = returned
after p exiting = gone
after p gone = gone
after p returned = returned
after p failed = failed

-- `main` has still something to do.
abbrev pub active : Main → Bool
active attr_init = true
active attr_setdetachstate = true
active creating = true
active attr_destroy = true
active detaching = true
active printing = true
active sleeping_main = true
active exiting = true
active gone = false
active returned = false
active failed = false

-- The process goes on as long as `main` does, or its last thread behind it.
abbrev pub is_over : Main → Thread → Bool
is_over returned x = true
is_over failed x = true
is_over gone finished = true
is_over gone starting = false
is_over gone sleeping = false
is_over gone unborn = true
is_over attr_init x = false
is_over attr_setdetachstate x = false
is_over creating x = false
is_over attr_destroy x = false
is_over detaching x = false
is_over printing x = false
is_over sleeping_main x = false
is_over exiting x = false

abbrev pub behind_start : Program → Thread
behind_start create = finished
behind_start create_2 = finished
behind_start detach = sleeping
behind_start attr = finished

pub record System : Type 0 where
  pub main : Main
  pub thread : Thread

pub data Step (p : Program) (s t : System) : Type 0 where
  create_thread :
      s.main ≡ creating → t ≡ record { main = after p creating; thread = starting } → Step p s t
  go_on :
      active s.main ≡ true → s.main ≢ creating → t ≡ record s { main = after p s.main } → Step p s t
  run :
      is_over s.main s.thread ≡ false
      → s.thread ≡ starting
      → t ≡ record s { thread = behind_start p }
      → Step p s t
  wake :
      is_over s.main s.thread ≡ false
      → s.thread ≡ sleeping
      → t ≡ record s { thread = finished }
      → Step p s t
  error : p ≡ attr → active s.main ≡ true → t ≡ record s { main = failed } → Step p s t

abbrev pub start : Program → System
start p = record { main = begins p; thread = unborn }

pub data Reach (p : Program) : System → Type 0 where
  here : Reach p (start p)
  next : {s t : System} → Reach p s → Step p s t → Reach p t
