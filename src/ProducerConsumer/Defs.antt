-- ===== src/ProducerConsumer/Defs.antt =====
-- producer_consumer_model.c, as compiled with USE_COND_VAR: a producer and a consumer thread over
-- one mutex and one condition variable, one access to shared memory or call of pthreads at a time.
use linux_unix_system_progra.Prelude.{
  ℕ, ◌+◌, ◌-◌, ◌%◌, ◌<◌, ◌≡◌, ◌≢◌, Bool, true, false, Option, none, some, ◌==◌, ◌||◌, ltb,
  if◌then◌else◌,
}

abbrev pub total_count : ℕ
total_count = 20000

pub data Thread : Type 0 where
  prod cons : Thread

-- Where the producer stands in round `j` of its loop.
pub data Producer : Type 0 where
  at_loop : (j : ℕ) → Producer  -- the test `j < TOTAL_COUNT`, and the call of lock
  producing : (j : ℕ) → Producer  -- owns the mutex, before `available++`
  unlocking : (j : ℕ) → Producer
  signalling : (j : ℕ) → Producer  -- before `if (j % 10 == 0) pthread_cond_signal`
  finished : Producer

pub data Consumer : Type 0 where
  testing : Consumer  -- the test `consumed != TOTAL_COUNT`, without the mutex
  locking : Consumer
  checking : Consumer  -- owns the mutex, before `while (available == 0)`
  waiting : Consumer  -- blocked in pthread_cond_wait
  woken : Consumer  -- in pthread_cond_wait, about to take the mutex again
  draining : Consumer  -- owns the mutex, before `while (available > 0)`
  leaving : Consumer  -- owns the mutex, before unlock
  returned : Consumer

pub record System : Type 0 where
  pub available : ℕ
  pub consumed : ℕ
  pub owner : Option Thread
  pub p : Producer
  pub c : Consumer
  pub stopped : Bool  -- by `exit`

-- A signal wakes the consumer if it waits, and is lost otherwise.
abbrev pub wake : Consumer → Consumer
wake waiting = woken
wake testing = testing
wake locking = locking
wake checking = checking
wake woken = woken
wake draining = draining
wake leaving = leaving
wake returned = returned

-- The loop of `producer`.
pub data ProducerStep (s t : System) : Type 0 where
  lock :
      (j : ℕ)
      → s.p ≡ at_loop j
      → j < total_count
      → s.owner ≡ none
      → t ≡ record s { owner = some prod; p = producing j }
      → ProducerStep s t
  leave :
      (j : ℕ)
      → s.p ≡ at_loop j
      → ¬ (j < total_count)
      → t ≡ record s { p = finished }
      → ProducerStep s t
  produce :
      (j : ℕ)
      → s.p ≡ producing j
      → t ≡ record s { available = s.available + 1; p = unlocking j }
      → ProducerStep s t
  unlock :
      (j : ℕ)
      → s.p ≡ unlocking j
      → t ≡ record s { owner = none; p = signalling j }
      → ProducerStep s t
  signal :
      (j : ℕ)
      → s.p ≡ signalling j
      → t ≡ record s { p = at_loop (j + 1); c = if j % 10 == 0 then wake s.c else s.c }
      → ProducerStep s t

-- The loop of `consumer`.
pub data ConsumerStep (s t : System) : Type 0 where
  begin : s.c ≡ testing → s.consumed ≢ total_count → t ≡ record s { c = locking } → ConsumerStep s t
  return :
      s.c ≡ testing → s.consumed ≡ total_count → t ≡ record s { c = returned } → ConsumerStep s t
  lock :
      s.c ≡ locking
      → s.owner ≡ none
      → t ≡ record s { owner = some cons; c = checking }
      → ConsumerStep s t
  wait :
      s.c ≡ checking
      → s.available ≡ 0
      → t ≡ record s { owner = none; c = waiting }
      → ConsumerStep s t
  relock :
      s.c ≡ woken
      → s.owner ≡ none
      → t ≡ record s { owner = some cons; c = checking }
      → ConsumerStep s t
  enter : s.c ≡ checking → 0 < s.available → t ≡ record s { c = draining } → ConsumerStep s t
  consume :
      s.c ≡ draining
      → 0 < s.available
      → t ≡ record s { available = s.available - 1; consumed = s.consumed + 1 }
      → ConsumerStep s t
  drained : s.c ≡ draining → s.available ≡ 0 → t ≡ record s { c = leaving } → ConsumerStep s t
  unlock : s.c ≡ leaving → t ≡ record s { owner = none; c = testing } → ConsumerStep s t

-- The thread is at a call of pthreads whose result it tests. (In a round with no signal the test is
-- of the result of unlock again.)
abbrev pub producer_calls : Producer → Bool
producer_calls (at_loop j) = ltb j total_count
producer_calls (unlocking j) = true
producer_calls (signalling j) = j % 10 == 0
producer_calls (producing j) = false
producer_calls finished = false

abbrev pub consumer_calls : Consumer → Bool
consumer_calls locking = true
consumer_calls waiting = true
consumer_calls woken = true
consumer_calls leaving = true
consumer_calls testing = false
consumer_calls checking = false
consumer_calls draining = false
consumer_calls returned = false

-- A step of a thread; a wake-up with no signal, which pthread_cond_wait allows; and the end of the
-- process where a call of pthreads reports an error.
pub data Step (s t : System) : Type 0 where
  by_producer : s.stopped ≡ false → ProducerStep s t → Step s t
  by_consumer : s.stopped ≡ false → ConsumerStep s t → Step s t
  spurious : s.stopped ≡ false → s.c ≡ waiting → t ≡ record s { c = woken } → Step s t
  error :
      s.stopped ≡ false
      → (producer_calls s.p || consumer_calls s.c) ≡ true
      → t ≡ record s { stopped = true }
      → Step s t

abbrev pub start : System
start = record {
  available = 0;
  consumed = 0;
  owner = none;
  p = at_loop 0;
  c = testing;
  stopped = false;
}

pub data Reach : System → Type 0 where
  here : Reach start
  next : {s t : System} → Reach s → Step s t → Reach t
