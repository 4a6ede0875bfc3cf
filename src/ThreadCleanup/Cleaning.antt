-- ===== src/ThreadCleanup/Cleaning.antt =====
-- t_thread_cleanup.c: what the thread leaves behind, and a run that never ends.
use linux_unix_system_progra.Prelude.{ℕ, ◌≡◌, ◌≢◌, ◌⊎◌, Bool, true, false, arith}
use linux_unix_system_progra.ThreadCleanup.Defs.{
  Thread, unborn, allocating, telling, locking, pushing, testing, waiting, woken, cancelled,
  telling_end, freeing, unlocking, ended, ended_early, ended_inside, Main, creating, sleeping,
  setting, joining, joined, failed, System, wake, ThreadStep, MainStep, Step, of_thread, of_main,
  spurious, error, Reach, here, next,
}

-- Whether the mutex is taken, how many blocks are allocated and freed, and whether the thread can
-- stand at a place: `r` says whether it was cancelled, `g` is `glob`.
abbrev pub AtThread : Thread → (l : Bool) (a f : ℕ) (r : Bool) (g : ℕ) → Type 0
AtThread unborn l a f r g = (l ≡ false) × (a ≡ 0) × (f ≡ 0)
AtThread allocating l a f r g = (l ≡ false) × (a ≡ 0) × (f ≡ 0)
AtThread telling l a f r g = (l ≡ false) × (a ≡ 1) × (f ≡ 0)
AtThread locking l a f r g = (l ≡ false) × (a ≡ 1) × (f ≡ 0)
AtThread pushing l a f r g = (l ≡ true) × (a ≡ 1) × (f ≡ 0)
AtThread testing l a f r g = (l ≡ true) × (a ≡ 1) × (f ≡ 0)
AtThread waiting l a f r g = (l ≡ false) × (a ≡ 1) × (f ≡ 0)
AtThread woken l a f r g = (l ≡ false) × (a ≡ 1) × (f ≡ 0)
AtThread cancelled l a f r g = (l ≡ false) × (a ≡ 1) × (f ≡ 0) × (r ≡ true)
AtThread telling_end l a f r g = (l ≡ true) × (a ≡ 1) × (f ≡ 0) × (g ≢ 0)
AtThread (freeing true) l a f r g = (l ≡ true) × (a ≡ 1) × (f ≡ 0) × (r ≡ true)
AtThread (freeing false) l a f r g = (l ≡ true) × (a ≡ 1) × (f ≡ 0) × (g ≢ 0)
AtThread (unlocking true) l a f r g = (l ≡ true) × (a ≡ 1) × (f ≡ 1) × (r ≡ true)
AtThread (unlocking false) l a f r g = (l ≡ true) × (a ≡ 1) × (f ≡ 1) × (g ≢ 0)
AtThread (ended true) l a f r g = (l ≡ false) × (a ≡ 1) × (f ≡ 1) × (r ≡ true)
AtThread (ended false) l a f r g = (l ≡ false) × (a ≡ 1) × (f ≡ 1) × (g ≢ 0)
AtThread ended_early l a f r g = (l ≡ false) × (a ≡ 1) × (f ≡ 0) × (r ≡ true)
AtThread ended_inside l a f r g = ⊥

-- The thread is over, for pthread_join.
abbrev pub is_over : Thread → Bool
is_over unborn = false
is_over allocating = false
is_over telling = false
is_over locking = false
is_over pushing = false
is_over testing = false
is_over waiting = false
is_over woken = false
is_over cancelled = false
is_over telling_end = false
is_over (freeing c) = false
is_over (unlocking c) = false
is_over (ended c) = true
is_over ended_early = true
is_over ended_inside = true

abbrev pub AtMain : Main → (cancels : Bool) (th : Thread) (r : Bool) → Type 0
AtMain creating c th r = th ≡ unborn
AtMain sleeping c th r = th ≢ unborn
AtMain setting c th r = (th ≢ unborn) × (c ≡ false)
AtMain joining c th r = (th ≢ unborn) × (c ≡ true → r ≡ true)
AtMain (joined x) c th r = (x ≡ c) × (is_over th ≡ true)
AtMain failed c th r = Unit

pub record Inv (cancels : Bool) (s : System) : Type 0 where
  pub at_thread : AtThread s.thread s.locked s.allocated s.freed s.requested s.glob
  pub at_main : AtMain s.main cancels s.thread s.requested
  pub cancelled_only : s.requested ≡ true → cancels ≡ true
  pub signalled_only : s.glob ≢ 0 → cancels ≡ false

Thread-Inv : (c : Bool) (s t : System) → ThreadStep s t → Inv c s → Inv c t
Thread-Inv c s t (ThreadStep.allocate a q) inv = ground arith
Thread-Inv c s t (ThreadStep.tell a q) inv = ground arith
Thread-Inv c s t (ThreadStep.lock a b q) inv = ground arith
Thread-Inv c s t (ThreadStep.push a q) inv = ground arith
Thread-Inv c s t (ThreadStep.wait a b q) inv = ground arith
Thread-Inv c s t (ThreadStep.relock a b q) inv = ground arith
Thread-Inv c s t (ThreadStep.pass a b q) inv = ground arith
Thread-Inv c s t (ThreadStep.pop a q) inv = ground arith
Thread-Inv c s t (ThreadStep.release true a q) inv = ground arith
Thread-Inv c s t (ThreadStep.release false a q) inv = ground arith
Thread-Inv c s t (ThreadStep.unlock true a q) inv = ground arith
Thread-Inv c s t (ThreadStep.unlock false a q) inv = ground arith
Thread-Inv c s t (ThreadStep.stop_early a b q) inv = ground arith
Thread-Inv c s t (ThreadStep.stop_waiting a b q) inv = ground arith
Thread-Inv c s t (ThreadStep.stop_woken a b q) inv = ground arith
Thread-Inv c s t (ThreadStep.relock_cancelled a b q) inv = ground arith
Thread-Inv c s t (ThreadStep.stop_at_end a b q) inv = ground arith
Thread-Inv c s t (ThreadStep.stop_freeing a b q) inv = ground arith
Thread-Inv c s t (ThreadStep.stop_unlocking a b q) inv = ground arith

-- A wake-up changes neither the mutex nor the block.
wake-AtThread :
    (th : Thread) (l : Bool) (a f : ℕ) (r : Bool) (g : ℕ)
    → AtThread th l a f r g
    → AtThread (wake th) l a f r g
wake-AtThread th l a f r g h = ground arith

wake-unborn : (th : Thread) → th ≢ unborn → wake th ≢ unborn
wake-unborn th h = ground arith

Main-Inv : (c : Bool) (s t : System) → MainStep c s t → Inv c s → Inv c t
Main-Inv c s t (MainStep.create a q) inv = ground arith
Main-Inv c s t (MainStep.cancel a b q) inv = ground arith
Main-Inv c s t (MainStep.signal a b q) inv = ground (
  arith,
  wake-unborn s.thread,
  wake-AtThread s.thread s.locked s.allocated s.freed s.requested s.glob,
)
Main-Inv c s t (MainStep.set a q) inv = ground arith
Main-Inv c s t (MainStep.join true a b q) inv = ground arith
Main-Inv c s t (MainStep.join false a b q) inv = ground arith
Main-Inv c s t (MainStep.join_early a b q) inv = ground arith
Main-Inv c s t (MainStep.join_inside a b q) inv = ground arith

Step-Inv : (c : Bool) (s t : System) → Step c s t → Inv c s → Inv c t
Step-Inv c s t (of_thread r m) inv = Thread-Inv c s t m inv
Step-Inv c s t (of_main r m) inv = Main-Inv c s t m inv
Step-Inv c s t (spurious r a q) inv = ground arith
Step-Inv c s t (error r q) inv = ground arith

pub Reach-Inv : {c : Bool} {s : System} → Reach c s → Inv c s
Reach-Inv here = ground arith
Reach-Inv {c} (next {s} {t} r m) = Step-Inv c s t m (Reach-Inv r)

-- When `main` has joined the thread, it reports a cancelled thread exactly if it was started with no
-- argument; the mutex is free, and the one block that the thread has allocated is freed, once, unless
-- the thread was cancelled before it had its handler.
pub cleaned_up :
    {c : Bool} {s : System} (x : Bool)
    → Reach c s
    → s.main ≡ joined x
    → (x ≡ c)
      × (s.locked ≡ false)
      × (s.allocated ≡ 1)
      × ((s.freed ≡ 1) ⊎ ((s.thread ≡ ended_early) × (s.freed ≡ 0)))
cleaned_up {c} {s} x r e = let inv = Reach-Inv r in ground (arith, inv.at_thread, inv.at_main)
