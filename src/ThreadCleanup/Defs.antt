-- ===== src/ThreadCleanup/Defs.antt =====
-- t_thread_cleanup.c: `main` and the thread that it cancels, or signals where there is an argument,
-- one access to shared memory or call at a time. A cancelled thread stops at pthread_cond_wait or,
-- as POSIX allows, at a printf; the handler runs if it is on the stack of handlers then.
use linux_unix_system_progra.Prelude.{ℕ, ◌+◌, ◌≡◌, ◌≢◌, Bool, true, false}

-- Where the thread stands in `threadFunc` and `cleanupHandler`. A flag says whether it is cancelled.
pub data Thread : Type 0 where
  unborn : Thread
  allocating : Thread
  telling : Thread  -- the printf behind malloc
  locking : Thread
  pushing : Thread  -- owns the mutex, before pthread_cleanup_push
  testing : Thread  -- `while (glob == 0)`
  waiting : Thread  -- blocked in pthread_cond_wait
  woken : Thread  -- in pthread_cond_wait, about to take the mutex again
  cancelled : Thread  -- the same, to run the handler
  telling_end : Thread  -- the printf behind the loop
  freeing : (canceled : Bool) → Thread  -- the handler before `free(arg)`
  unlocking : (canceled : Bool) → Thread  -- the handler before pthread_mutex_unlock
  ended : (canceled : Bool) → Thread  -- what pthread_join reports
  ended_early : Thread  -- cancelled with no handler on the stack
  ended_inside : Thread  -- cancelled within the handler, which was off the stack

pub data Main : Type 0 where
  creating : Main
  sleeping : Main
  setting : Main  -- before `glob = 1`
  joining : Main
  joined : (canceled : Bool) → Main
  failed : Main  -- by `exit` at an error

pub record System : Type 0 where
  pub glob : ℕ
  pub locked : Bool
  pub allocated : ℕ
  pub freed : ℕ
  pub requested : Bool  -- pthread_cancel was called
  pub thread : Thread
  pub main : Main

abbrev pub running : Main → Bool
running creating = true
running sleeping = true
running setting = true
running joining = true
running (joined canceled) = false
running failed = false

-- pthread_cond_signal wakes the thread if it waits.
abbrev pub wake : Thread → Thread
wake unborn = unborn
wake allocating = allocating
wake telling = telling
wake locking = locking
wake pushing = pushing
wake testing = testing
wake waiting = woken
wake woken = woken
wake cancelled = cancelled
wake telling_end = telling_end
wake (freeing c) = freeing c
wake (unlocking c) = unlocking c
wake (ended c) = ended c
wake ended_early = ended_early
wake ended_inside = ended_inside

pub data ThreadStep (s t : System) : Type 0 where
  allocate :
      s.thread ≡ allocating
      → t ≡ record s { allocated = s.allocated + 1; thread = telling }
      → ThreadStep s t
  tell : s.thread ≡ telling → t ≡ record s { thread = locking } → ThreadStep s t
  lock :
      s.thread ≡ locking
      → s.locked ≡ false
      → t ≡ record s { locked = true; thread = pushing }
      → ThreadStep s t
  push : s.thread ≡ pushing → t ≡ record s { thread = testing } → ThreadStep s t
  wait :
      s.thread ≡ testing
      → s.glob ≡ 0
      → t ≡ record s { locked = false; thread = waiting }
      → ThreadStep s t
  relock :
      s.thread ≡ woken
      → s.locked ≡ false
      → t ≡ record s { locked = true; thread = testing }
      → ThreadStep s t
  pass : s.thread ≡ testing → s.glob ≢ 0 → t ≡ record s { thread = telling_end } → ThreadStep s t
  -- pthread_cleanup_pop(1)
  pop : s.thread ≡ telling_end → t ≡ record s { thread = freeing false } → ThreadStep s t
  release :
      (c : Bool)
      → s.thread ≡ freeing c
      → t ≡ record s { freed = s.freed + 1; thread = unlocking c }
      → ThreadStep s t
  unlock :
      (c : Bool)
      → s.thread ≡ unlocking c
      → t ≡ record s { locked = false; thread = ended c }
      → ThreadStep s t
  stop_early :
      s.thread ≡ telling
      → s.requested ≡ true
      → t ≡ record s { thread = ended_early }
      → ThreadStep s t
  stop_waiting :
      s.thread ≡ waiting → s.requested ≡ true → t ≡ record s { thread = cancelled } → ThreadStep s t
  stop_woken :
      s.thread ≡ woken → s.requested ≡ true → t ≡ record s { thread = cancelled } → ThreadStep s t
  relock_cancelled :
      s.thread ≡ cancelled
      → s.locked ≡ false
      → t ≡ record s { locked = true; thread = freeing true }
      → ThreadStep s t
  stop_at_end :
      s.thread ≡ telling_end
      → s.requested ≡ true
      → t ≡ record s { thread = freeing true }
      → ThreadStep s t
  stop_freeing :
      s.thread ≡ freeing false
      → s.requested ≡ true
      → t ≡ record s { thread = ended_inside }
      → ThreadStep s t
  stop_unlocking :
      s.thread ≡ unlocking false
      → s.requested ≡ true
      → t ≡ record s { thread = ended_inside }
      → ThreadStep s t

-- `cancels` says whether there is no argument.
pub data MainStep (cancels : Bool) (s t : System) : Type 0 where
  create :
      s.main ≡ creating
      → t ≡ record s { thread = allocating; main = sleeping }
      → MainStep cancels s t
  cancel :
      s.main ≡ sleeping
      → cancels ≡ true
      → t ≡ record s { requested = true; main = joining }
      → MainStep cancels s t
  signal :
      s.main ≡ sleeping
      → cancels ≡ false
      → t ≡ record s { thread = wake s.thread; main = setting }
      → MainStep cancels s t
  set : s.main ≡ setting → t ≡ record s { glob = 1; main = joining } → MainStep cancels s t
  join :
      (c : Bool)
      → s.main ≡ joining
      → s.thread ≡ ended c
      → t ≡ record s { main = joined c }
      → MainStep cancels s t
  join_early :
      s.main ≡ joining
      → s.thread ≡ ended_early
      → t ≡ record s { main = joined true }
      → MainStep cancels s t
  join_inside :
      s.main ≡ joining
      → s.thread ≡ ended_inside
      → t ≡ record s { main = joined true }
      → MainStep cancels s t

-- A step of the thread or of `main`; a wake-up with no signal; and the exit at an error of a call.
pub data Step (cancels : Bool) (s t : System) : Type 0 where
  of_thread : running s.main ≡ true → ThreadStep s t → Step cancels s t
  of_main : running s.main ≡ true → MainStep cancels s t → Step cancels s t
  spurious :
      running s.main ≡ true
      → s.thread ≡ waiting
      → t ≡ record s { thread = woken }
      → Step cancels s t
  error : running s.main ≡ true → t ≡ record s { main = failed } → Step cancels s t

abbrev pub start : System
start = record {
  glob = 0;
  locked = false;
  allocated = 0;
  freed = 0;
  requested = false;
  thread = unborn;
  main = creating;
}

pub data Reach (cancels : Bool) : System → Type 0 where
  here : Reach cancels start
  next : {s t : System} → Reach cancels s → Step cancels s t → Reach cancels t
