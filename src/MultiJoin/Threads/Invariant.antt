-- ===== src/MultiJoin/Threads/Invariant.antt =====
-- thread_multijoin.c with its threads: the invariant.
use linux_unix_system_progra.Prelude.{
  ℕ, zero, suc, ◌+◌, ◌-◌, ◌≤◌, ◌<◌, ◌≡◌, ◌≢◌, ◌⊎◌, Bool, true, false, ◌==◌, length, tally,
}
use linux_unix_system_progra.Prelude.Int.{ℤ, pos, negsuc}
use linux_unix_system_progra.MultiJoin.Defs.{State, alive, terminated, joined}
use linux_unix_system_progra.MultiJoin.Threads.{
  Worker, unborn, sleeping, inside, unlocking, signalling, gone, Entry, Main, creating, testing,
  locking, checking, waiting, woken, passing, leaving, exited, failed, Owner, nobody, by_worker,
  by_main, System,
}

abbrev pub terminated_at : State → ℕ
terminated_at alive = 0
terminated_at terminated = 1
terminated_at joined = 0

abbrev pub count_terminated : Entry → ℕ
count_terminated e = terminated_at e.state

-- The state of an entry before the pass of `main` gets to it.
abbrev pub Fits : Worker → State → Type 0
Fits unborn x = x ≡ alive
Fits sleeping x = x ≡ alive
Fits inside x = x ≡ alive
Fits unlocking x = x ≡ terminated
Fits signalling x = x ≡ terminated
Fits gone x = x ≡ terminated

abbrev pub worker_inside : Worker → Bool
worker_inside inside = true
worker_inside unlocking = true
worker_inside unborn = false
worker_inside sleeping = false
worker_inside signalling = false
worker_inside gone = false

abbrev pub main_inside : Main → Bool
main_inside checking = true
main_inside (passing i) = true
main_inside leaving = true
main_inside (creating i) = false
main_inside testing = false
main_inside locking = false
main_inside waiting = false
main_inside woken = false
main_inside exited = false
main_inside failed = false

abbrev pub worker_owns : ℕ → Owner → Bool
worker_owns i nobody = false
worker_owns i (by_worker j) = i == j
worker_owns i by_main = false

abbrev pub main_owns : Owner → Bool
main_owns nobody = false
main_owns (by_worker j) = false
main_owns by_main = true

-- The entry from which on none has been joined.
abbrev pub by_test : ℕ → ℤ → ℕ
by_test n (pos zero) = n
by_test n (pos (suc m)) = 0
by_test n (negsuc m) = n

abbrev pub passed_by : ℕ → Main → ℤ → ℕ
passed_by n (creating i) z = 0
passed_by n testing z = by_test n z
passed_by n locking z = 0
passed_by n checking z = 0
passed_by n waiting z = 0
passed_by n woken z = 0
passed_by n (passing i) z = i
passed_by n leaving z = n
passed_by n exited z = n
passed_by n failed z = n

-- The number of threads that were created.
abbrev pub created_by : ℕ → Main → ℕ
created_by n (creating i) = i
created_by n testing = n
created_by n locking = n
created_by n checking = n
created_by n waiting = n
created_by n woken = n
created_by n (passing i) = n
created_by n leaving = n
created_by n exited = n
created_by n failed = n

-- The entries that the pass has behind it.
abbrev pub behind : Main → ℕ
behind (passing i) = i
behind (creating i) = 0
behind testing = 0
behind locking = 0
behind checking = 0
behind waiting = 0
behind woken = 0
behind leaving = 0
behind exited = 0
behind failed = 0

-- Where `main` is done: no thread was asked for, or one at least was joined.
abbrev pub Done : ℕ → ℕ → Type 0
Done n calls = (n ≡ 0) ⊎ (0 < calls)

abbrev pub AtTest : (n : ℕ) → ℤ → (unjoined : ℤ) → (terms calls : ℕ) → Type 0
AtTest n (pos zero) u t c = Done n c
AtTest n (pos (suc m)) u t c = (suc m ≡ n) × (u ≡ pos t)
AtTest n (negsuc m) u t c = ⊥

-- The counters, by the number of terminated entries and of calls of pthread_join.
abbrev pub AtMain : (n : ℕ) → Main → (live unjoined : ℤ) → (terms calls : ℕ) → Type 0
AtMain n (creating i) l u t c = (i ≤ n) × (u ≡ pos t)
AtMain n testing l u t c = AtTest n l u t c
AtMain n locking l u t c = (l ≡ pos n) × (0 < n) × (u ≡ pos t)
AtMain n checking l u t c = (l ≡ pos n) × (0 < n) × (u ≡ pos t)
AtMain n waiting l u t c = (l ≡ pos n) × (0 < n) × (u ≡ pos t)
AtMain n woken l u t c = (l ≡ pos n) × (0 < n) × (u ≡ pos t)
AtMain n (passing i) l u t c = (l ≡ pos (n - i)) × (i ≤ n) × (0 < c + t)
AtMain n leaving l u t c = (l ≡ pos 0) × (0 < c)
AtMain n exited l u t c = Done n c
AtMain n failed l u t c = Unit

pub record Inv (n : ℕ) (s : System) : Type 0 where
  pub born : (i : ℕ) → created_by n s.main ≤ i → (s.thread i).worker ≡ unborn
  pub exist : (i : ℕ) → i < created_by n s.main → (s.thread i).worker ≢ unborn
  pub fits :
      (i : ℕ) → passed_by n s.main s.num_live ≤ i → Fits (s.thread i).worker (s.thread i).state
  pub joins : (i : ℕ) → i < behind s.main → (s.thread i).state ≡ joined
  pub none_gone : (i : ℕ) → s.main ≡ waiting → (s.thread i).worker ≢ gone
  pub worker_mutex : (i : ℕ) → worker_owns i s.owner ≡ worker_inside (s.thread i).worker
  pub main_mutex : main_owns s.owner ≡ main_inside s.main
  pub counts :
      AtMain n s.main s.num_live s.num_unjoined (tally count_terminated n s.thread) (length s.calls)
