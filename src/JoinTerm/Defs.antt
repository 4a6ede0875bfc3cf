-- ===== src/JoinTerm/Defs.antt =====
-- thread_joinTerm.c: five threads that terminate in any order, a thread that joins them, and `main`,
-- one access to shared memory or call of pthreads at a time.
use linux_unix_system_progra.Prelude.{ℕ, ◌+◌, ◌-◌, ◌<◌, ◌≡◌, ◌≢◌, Bool, true, false, update}

abbrev pub thread_num : ℕ
thread_num = 5

-- `enum tstatus`; calloc makes every entry `alive`.
pub data Status : Type 0 where
  alive terminated joined : Status

-- Where a thread stands in `simulation`.
pub data Worker : Type 0 where
  unborn : Worker  -- not created yet
  starting : Worker  -- before it sets its status to TS_ALIVE
  sleeping : Worker  -- the simulated work, and the call of lock
  inside : Worker  -- owns the mutex, before it sets its status
  counting : Worker  -- before `termNum++`
  unlocking : Worker
  signalling : Worker
  gone : Worker

-- An entry of `threads`, with the thread that it stands for.
pub record Entry : Type 0 where
  pub status : Status
  pub worker : Worker

-- Where the joining thread stands in `joiner`.
pub data Joiner : Type 0 where
  testing : Joiner  -- the test `joinedNum != THREADNUM`, without the mutex
  locking : Joiner
  checking : Joiner  -- owns the mutex, before `while (termNum == 0)`
  waiting : Joiner  -- blocked in pthread_cond_wait
  woken : Joiner
  scanning : (idx : ℕ) → Joiner  -- owns the mutex, at round `idx` of the loop over the entries
  taking : (idx : ℕ) → Joiner  -- before `--termNum`
  adding : (idx : ℕ) → Joiner  -- before `++joinedNum`
  leaving : Joiner
  returned : Joiner

pub data Owner : Type 0 where
  nobody : Owner
  by_worker : (i : ℕ) → Owner
  by_joiner : Owner

pub record System : Type 0 where
  pub table : ℕ → Entry
  pub created : ℕ  -- the loop of `main`
  pub term_num : ℕ
  pub joined_num : ℕ
  pub owner : Owner
  pub joiner : Joiner
  pub stopped : Bool  -- by `exit`

abbrev pub wake : Joiner → Joiner
wake waiting = woken
wake testing = testing
wake locking = locking
wake checking = checking
wake woken = woken
wake (scanning i) = scanning i
wake (taking i) = taking i
wake (adding i) = adding i
wake leaving = leaving
wake returned = returned

-- Entry `i` becomes `e`.
abbrev pub set : System → ℕ → Entry → System
set s i e = record s { table = update s.table i e }

-- A step of thread `i`.
pub data WorkerStep (i : ℕ) (s t : System) : Type 0 where
  begin :
      (s.table i).worker ≡ starting
      → t ≡ set s i (record { status = alive; worker = sleeping })
      → WorkerStep i s t
  lock :
      (s.table i).worker ≡ sleeping
      → s.owner ≡ nobody
      → t ≡ record (set s i (record (s.table i) { worker = inside })) { owner = by_worker i }
      → WorkerStep i s t
  terminate :
      (s.table i).worker ≡ inside
      → t ≡ set s i (record { status = terminated; worker = counting })
      → WorkerStep i s t
  count :
      (s.table i).worker ≡ counting
      → t
        ≡ record (set s i (record (s.table i) { worker = unlocking })) { term_num = s.term_num + 1 }
      → WorkerStep i s t
  unlock :
      (s.table i).worker ≡ unlocking
      → t ≡ record (set s i (record (s.table i) { worker = signalling })) { owner = nobody }
      → WorkerStep i s t
  signal :
      (s.table i).worker ≡ signalling
      → t ≡ record (set s i (record (s.table i) { worker = gone })) { joiner = wake s.joiner }
      → WorkerStep i s t

-- A step of the joining thread. pthread_join returns when the thread is gone. The two counters change
-- in the arguments of one printf, here from the left to the right.
pub data JoinerStep (s t : System) : Type 0 where
  begin :
      s.joiner ≡ testing
      → s.joined_num ≢ thread_num
      → t ≡ record s { joiner = locking }
      → JoinerStep s t
  return :
      s.joiner ≡ testing
      → s.joined_num ≡ thread_num
      → t ≡ record s { joiner = returned }
      → JoinerStep s t
  lock :
      s.joiner ≡ locking
      → s.owner ≡ nobody
      → t ≡ record s { owner = by_joiner; joiner = checking }
      → JoinerStep s t
  wait :
      s.joiner ≡ checking
      → s.term_num ≡ 0
      → t ≡ record s { owner = nobody; joiner = waiting }
      → JoinerStep s t
  relock :
      s.joiner ≡ woken
      → s.owner ≡ nobody
      → t ≡ record s { owner = by_joiner; joiner = checking }
      → JoinerStep s t
  scan :
      s.joiner ≡ checking → s.term_num ≢ 0 → t ≡ record s { joiner = scanning 0 } → JoinerStep s t
  join :
      (idx : ℕ)
      → s.joiner ≡ scanning idx
      → idx < thread_num
      → (s.table idx).status ≡ terminated
      → (s.table idx).worker ≡ gone
      → t ≡ record (set s idx (record (s.table idx) { status = joined })) { joiner = taking idx }
      → JoinerStep s t
  take :
      (idx : ℕ)
      → s.joiner ≡ taking idx
      → t ≡ record s { term_num = s.term_num - 1; joiner = adding idx }
      → JoinerStep s t
  add :
      (idx : ℕ)
      → s.joiner ≡ adding idx
      → t ≡ record s { joined_num = s.joined_num + 1; joiner = scanning (idx + 1) }
      → JoinerStep s t
  pass :
      (idx : ℕ)
      → s.joiner ≡ scanning idx
      → idx < thread_num
      → (s.table idx).status ≢ terminated
      → t ≡ record s { joiner = scanning (idx + 1) }
      → JoinerStep s t
  scanned :
      (idx : ℕ)
      → s.joiner ≡ scanning idx
      → ¬ (idx < thread_num)
      → t ≡ record s { joiner = leaving }
      → JoinerStep s t
  unlock : s.joiner ≡ leaving → t ≡ record s { owner = nobody; joiner = testing } → JoinerStep s t

-- `main` creates the threads, and ends the process when the joining thread has returned. (It creates
-- that thread first.)
pub data MainStep (s t : System) : Type 0 where
  create :
      s.created < thread_num
      → t ≡ record (set s s.created (record (s.table s.created) { worker = starting })) {
        created = s.created + 1;
      }
      → MainStep s t
  finish :
      s.created ≡ thread_num → s.joiner ≡ returned → t ≡ record s { stopped = true } → MainStep s t

-- A step of a thread; a wake-up with no signal; and `errHandler`, where a call reports an error.
pub data Step (s t : System) : Type 0 where
  by_thread : (i : ℕ) → i < thread_num → s.stopped ≡ false → WorkerStep i s t → Step s t
  by_joining : s.stopped ≡ false → JoinerStep s t → Step s t
  by_main : s.stopped ≡ false → MainStep s t → Step s t
  spurious : s.stopped ≡ false → s.joiner ≡ waiting → t ≡ record s { joiner = woken } → Step s t
  error : s.stopped ≡ false → t ≡ record s { stopped = true } → Step s t

abbrev pub start : System
start = record {
  table = λ i. record { status = alive; worker = unborn };
  created = 0;
  term_num = 0;
  joined_num = 0;
  owner = nobody;
  joiner = testing;
  stopped = false;
}

pub data Reach : System → Type 0 where
  here : Reach start
  next : {s t : System} → Reach s → Step s t → Reach t
