-- ===== src/MultiJoin/Threads.antt =====
-- thread_multijoin.c with its threads: `n` threads and `main`, one access to shared memory or call of
-- pthreads at a time. The functions on the counters are those of MultiJoin/Defs.
pub mod Invariant
pub mod Changes
pub mod Preserved
pub mod Measure
pub mod Ends
use linux_unix_system_progra.Prelude.{
  ℕ, ◌+◌, ◌<◌, ◌≡◌, ◌≢◌, Bool, true, false, List, [], ◌∷◌, ◌++◌, update,
}
use linux_unix_system_progra.Prelude.Int.{ℤ, pos, increment, decrement, is_positive, is_zero}
use linux_unix_system_progra.MultiJoin.Defs.{State, alive, terminated, joined}

-- Where a thread stands in `threadFunc`.
pub data Worker : Type 0 where
  unborn : Worker  -- not created yet
  sleeping : Worker  -- in its call of sleep, or of lock
  inside : Worker  -- owns the mutex, before it sets its state
  unlocking : Worker
  signalling : Worker
  gone : Worker

pub record Entry : Type 0 where
  pub state : State
  pub worker : Worker

pub data Main : Type 0 where
  creating : (idx : ℕ) → Main
  testing : Main  -- before `numLive > 0`
  locking : Main
  checking : Main  -- owns the mutex, before `numUnjoined == 0`
  waiting : Main  -- blocked in pthread_cond_wait
  woken : Main
  passing : (idx : ℕ) → Main  -- owns the mutex, at round `idx` of the loop over the entries
  leaving : Main
  exited : Main  -- with success
  failed : Main  -- by `errHandler`

pub data Owner : Type 0 where
  nobody : Owner
  by_worker : (i : ℕ) → Owner
  by_main : Owner

-- `calls` records the threads that pthread_join was called for.
pub record System : Type 0 where
  pub thread : ℕ → Entry
  pub num_live : ℤ
  pub num_unjoined : ℤ
  pub owner : Owner
  pub main : Main
  pub calls : List ℕ

abbrev pub wake : Main → Main
wake waiting = woken
wake (creating i) = creating i
wake testing = testing
wake locking = locking
wake checking = checking
wake woken = woken
wake (passing i) = passing i
wake leaving = leaving
wake exited = exited
wake failed = failed

-- The process goes on.
abbrev pub running : Main → Bool
running (creating i) = true
running testing = true
running locking = true
running checking = true
running waiting = true
running woken = true
running (passing i) = true
running leaving = true
running exited = false
running failed = false

abbrev pub set : System → ℕ → Entry → System
set s i e = record s { thread = update s.thread i e }

-- A step of thread `i`.
pub data WorkerStep (i : ℕ) (s t : System) : Type 0 where
  lock :
      (s.thread i).worker ≡ sleeping
      → s.owner ≡ nobody
      → t ≡ record (set s i (record (s.thread i) { worker = inside })) { owner = by_worker i }
      → WorkerStep i s t
  terminate :
      (s.thread i).worker ≡ inside
      → t ≡ record (set s i (record { state = terminated; worker = unlocking })) {
        num_unjoined = increment s.num_unjoined;
      }
      → WorkerStep i s t
  unlock :
      (s.thread i).worker ≡ unlocking
      → t ≡ record (set s i (record (s.thread i) { worker = signalling })) { owner = nobody }
      → WorkerStep i s t
  signal :
      (s.thread i).worker ≡ signalling
      → t ≡ record (set s i (record (s.thread i) { worker = gone })) { main = wake s.main }
      → WorkerStep i s t

module _ (n : ℕ) where
  -- A step of `main`. pthread_join returns when the thread is gone.
  pub data MainStep (s t : System) : Type 0 where
    create :
        (idx : ℕ)
        → s.main ≡ creating idx
        → idx < n
        → t ≡ record (set s idx (record { state = alive; worker = sleeping })) {
          main = creating (idx + 1);
        }
        → MainStep s t
    all_created :
        (idx : ℕ)
        → s.main ≡ creating idx
        → ¬ (idx < n)
        → t ≡ record s { num_live = pos n; main = testing }
        → MainStep s t
    enter :
        s.main ≡ testing
        → is_positive s.num_live ≡ true
        → t ≡ record s { main = locking }
        → MainStep s t
    exit :
        s.main ≡ testing
        → is_positive s.num_live ≡ false
        → t ≡ record s { main = exited }
        → MainStep s t
    lock :
        s.main ≡ locking
        → s.owner ≡ nobody
        → t ≡ record s { owner = by_main; main = checking }
        → MainStep s t
    wait :
        s.main ≡ checking
        → is_zero s.num_unjoined ≡ true
        → t ≡ record s { owner = nobody; main = waiting }
        → MainStep s t
    relock :
        s.main ≡ woken
        → s.owner ≡ nobody
        → t ≡ record s { owner = by_main; main = checking }
        → MainStep s t
    begin :
        s.main ≡ checking
        → is_zero s.num_unjoined ≡ false
        → t ≡ record s { main = passing 0 }
        → MainStep s t
    join :
        (idx : ℕ)
        → s.main ≡ passing idx
        → idx < n
        → (s.thread idx).state ≡ terminated
        → (s.thread idx).worker ≡ gone
        → t ≡ record (set s idx (record (s.thread idx) { state = joined })) {
          num_live = decrement s.num_live;
          num_unjoined = decrement s.num_unjoined;
          main = passing (idx + 1);
          calls = s.calls ++ idx ∷ [];
        }
        → MainStep s t
    skip :
        (idx : ℕ)
        → s.main ≡ passing idx
        → idx < n
        → (s.thread idx).state ≢ terminated
        → t ≡ record (set s idx (record (s.thread idx) { state = joined })) {
          num_live = decrement s.num_live;
          num_unjoined = decrement s.num_unjoined;
          main = passing (idx + 1);
        }
        → MainStep s t
    passed :
        (idx : ℕ)
        → s.main ≡ passing idx
        → ¬ (idx < n)
        → t ≡ record s { main = leaving }
        → MainStep s t
    unlock : s.main ≡ leaving → t ≡ record s { owner = nobody; main = testing } → MainStep s t

  -- A step of a thread or of `main`; a wake-up with no signal; and `errHandler`, where a call reports
  -- an error.
  pub data Step (s t : System) : Type 0 where
    by_thread : (i : ℕ) → i < n → running s.main ≡ true → WorkerStep i s t → Step s t
    by_main : MainStep s t → Step s t
    spurious : s.main ≡ waiting → t ≡ record s { main = woken } → Step s t
    error : running s.main ≡ true → t ≡ record s { main = failed } → Step s t

abbrev pub start : System
start = record {
  thread = λ i. record { state = alive; worker = unborn };
  num_live = pos 0;
  num_unjoined = pos 0;
  owner = nobody;
  main = creating 0;
  calls = [];
}
