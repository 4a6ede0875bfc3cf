-- ===== src/Cancel/Defs.antt =====
-- t_pthread_cancel.c and t_pthread_cancel2.c: `main` cancels a thread that has no end, and joins it.
-- The first has a thread that calls pthread_testcancel, where a request always ends it, and does not
-- look at the result of pthread_create, which succeeds here. The thread of the second prints and
-- sleeps: a request may end it at the printf, and ends it at the sleep.
use linux_unix_system_progra.Prelude.{ℕ, ◌+◌, ◌≡◌, Bool, true, false}

-- `func`
pub data Thread : Type 0 where
  unborn : Thread
  beginning : Thread  -- before the first printf of t_pthread_cancel2.c
  printing : (j : ℕ) → Thread
  sleeping : (j : ℕ) → Thread
  testing : Thread  -- before pthread_testcancel
  ended : Thread  -- by its cancellation

pub data Main : Type 0 where
  creating : Main
  cancelling : Main  -- in the call of sleep before it
  joining : Main
  reporting : (canceled : Bool) → Main  -- has joined the thread
  failed : Main  -- by `exit` at an error

pub record System : Type 0 where
  pub requested : Bool
  pub thread : Thread
  pub main : Main

abbrev pub running : Main → Bool
running creating = true
running cancelling = true
running joining = true
running (reporting canceled) = false
running failed = false

pub data ThreadStep (s t : System) : Type 0 where
  begin : s.thread ≡ beginning → t ≡ record s { thread = printing 1 } → ThreadStep s t
  print : (j : ℕ) → s.thread ≡ printing j → t ≡ record s { thread = sleeping j } → ThreadStep s t
  sleep :
      (j : ℕ)
      → s.thread ≡ sleeping j
      → s.requested ≡ false
      → t ≡ record s { thread = printing (j + 1) }
      → ThreadStep s t
  test :
      s.thread ≡ testing → s.requested ≡ false → t ≡ record s { thread = testing } → ThreadStep s t
  stop_beginning :
      s.thread ≡ beginning → s.requested ≡ true → t ≡ record s { thread = ended } → ThreadStep s t
  stop_printing :
      (j : ℕ)
      → s.thread ≡ printing j
      → s.requested ≡ true
      → t ≡ record s { thread = ended }
      → ThreadStep s t
  stop_sleeping :
      (j : ℕ)
      → s.thread ≡ sleeping j
      → s.requested ≡ true
      → t ≡ record s { thread = ended }
      → ThreadStep s t
  stop_testing :
      s.thread ≡ testing → s.requested ≡ true → t ≡ record s { thread = ended } → ThreadStep s t

-- `main` of both programs; `first` is where the thread begins.
pub data MainStep (first : Thread) (s t : System) : Type 0 where
  create :
      s.main ≡ creating → t ≡ record s { thread = first; main = cancelling } → MainStep first s t
  cancel :
      s.main ≡ cancelling → t ≡ record s { requested = true; main = joining } → MainStep first s t
  join :
      s.main ≡ joining
      → s.thread ≡ ended
      → t ≡ record s { main = reporting true }
      → MainStep first s t

-- Where `main` looks at the result of a call, by where the thread begins: only at that of
-- pthread_cancel in t_pthread_cancel.c, and at all three in t_pthread_cancel2.c.
abbrev pub looks : Thread → Main → Bool
looks beginning creating = true
looks beginning cancelling = true
looks beginning joining = true
looks testing cancelling = true
looks _ _ = false

-- A step of one of them, or the exit of `main` at an error.
pub data Step (first : Thread) (s t : System) : Type 0 where
  by_thread : running s.main ≡ true → ThreadStep s t → Step first s t
  by_main : MainStep first s t → Step first s t
  error : looks first s.main ≡ true → t ≡ record s { main = failed } → Step first s t

abbrev pub start : System
start = record { requested = false; thread = unborn; main = creating }
