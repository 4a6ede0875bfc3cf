-- ===== src/JoinTerm/Invariant.antt =====
-- thread_joinTerm.c: the invariant.
use linux_unix_system_progra.Prelude.{ℕ, ◌+◌, ◌≤◌, ◌<◌, ◌≡◌, ◌≢◌, Bool, true, false, ◌==◌, tally}
use linux_unix_system_progra.JoinTerm.Defs.{
  thread_num, Status, alive, terminated, joined, Worker, unborn, starting, sleeping, inside,
  counting, unlocking, signalling, gone, Entry, Joiner, testing, locking, checking, waiting, woken,
  scanning, taking, adding, leaving, returned, Owner, nobody, by_worker, by_joiner, System,
}

-- A thread that has set its status has still to count itself.
abbrev pub terminated_at : Worker → Status → ℕ
terminated_at counting x = 0
terminated_at unborn x = 0
terminated_at starting x = 0
terminated_at sleeping x = 0
terminated_at inside x = 0
terminated_at unlocking x = elim x [ alive ↦ 0 | terminated ↦ 1 | joined ↦ 0 ]
terminated_at signalling x = elim x [ alive ↦ 0 | terminated ↦ 1 | joined ↦ 0 ]
terminated_at gone x = elim x [ alive ↦ 0 | terminated ↦ 1 | joined ↦ 0 ]

abbrev pub count_terminated : Entry → ℕ
count_terminated e = terminated_at e.worker e.status

abbrev pub count_joined : Entry → ℕ
count_joined e = elim e.status [ alive ↦ 0 | terminated ↦ 0 | joined ↦ 1 ]

-- A thread that has still to signal that it terminated.
abbrev pub pending_at : Worker → ℕ
pending_at unlocking = 1
pending_at signalling = 1
pending_at unborn = 0
pending_at starting = 0
pending_at sleeping = 0
pending_at inside = 0
pending_at counting = 0
pending_at gone = 0

abbrev pub count_pending : Entry → ℕ
count_pending e = pending_at e.worker

-- The status that an entry can have while its thread stands at a point.
abbrev pub Fits : Worker → Status → Type 0
Fits unborn x = x ≡ alive
Fits starting x = x ≡ alive
Fits sleeping x = x ≡ alive
Fits inside x = x ≡ alive
Fits counting x = x ≡ terminated
Fits unlocking x = x ≡ terminated
Fits signalling x = x ≡ terminated
Fits gone x = x ≢ alive

abbrev pub worker_inside : Worker → Bool
worker_inside inside = true
worker_inside counting = true
worker_inside unlocking = true
worker_inside unborn = false
worker_inside starting = false
worker_inside sleeping = false
worker_inside signalling = false
worker_inside gone = false

abbrev pub joiner_inside : Joiner → Bool
joiner_inside checking = true
joiner_inside (scanning i) = true
joiner_inside (taking i) = true
joiner_inside (adding i) = true
joiner_inside leaving = true
joiner_inside testing = false
joiner_inside locking = false
joiner_inside waiting = false
joiner_inside woken = false
joiner_inside returned = false

abbrev pub worker_owns : ℕ → Owner → Bool
worker_owns i nobody = false
worker_owns i (by_worker j) = i == j
worker_owns i by_joiner = false

abbrev pub joiner_owns : Owner → Bool
joiner_owns nobody = false
joiner_owns (by_worker j) = false
joiner_owns by_joiner = true

-- What the joining thread relies on where it stands.
abbrev pub AtJoiner : Joiner → (term_num joined_num pending : ℕ) → Type 0
AtJoiner testing t j p = Unit
AtJoiner locking t j p = j ≢ thread_num
AtJoiner checking t j p = j ≢ thread_num
AtJoiner waiting t j p = (j ≢ thread_num) × (t ≤ p)
AtJoiner woken t j p = j ≢ thread_num
AtJoiner (scanning i) t j p = Unit
AtJoiner (taking i) t j p = 0 < t
AtJoiner (adding i) t j p = Unit
AtJoiner leaving t j p = Unit
AtJoiner returned t j p = j ≡ thread_num

-- The joined threads that the joining thread has still to take from `termNum`, and to add to
-- `joinedNum`.
abbrev pub owed_term : Joiner → ℕ
owed_term testing = 0
owed_term locking = 0
owed_term checking = 0
owed_term waiting = 0
owed_term woken = 0
owed_term (scanning i) = 0
owed_term (taking i) = 1
owed_term (adding i) = 0
owed_term leaving = 0
owed_term returned = 0

abbrev pub owed_joined : Joiner → ℕ
owed_joined testing = 0
owed_joined locking = 0
owed_joined checking = 0
owed_joined waiting = 0
owed_joined woken = 0
owed_joined (scanning i) = 0
owed_joined (taking i) = 1
owed_joined (adding i) = 1
owed_joined leaving = 0
owed_joined returned = 0

pub record Inv (s : System) : Type 0 where
  pub few : s.created ≤ thread_num
  pub born : (i : ℕ) → s.created ≤ i → (s.table i).worker ≡ unborn
  pub exist : (i : ℕ) → i < s.created → (s.table i).worker ≢ unborn
  pub fits : (i : ℕ) → Fits (s.table i).worker (s.table i).status
  pub worker_mutex : (i : ℕ) → worker_owns i s.owner ≡ worker_inside (s.table i).worker
  pub joiner_mutex : joiner_owns s.owner ≡ joiner_inside s.joiner
  pub terminated_count : s.term_num ≡ tally count_terminated thread_num s.table + owed_term s.joiner
  pub joined_count : s.joined_num + owed_joined s.joiner ≡ tally count_joined thread_num s.table
  pub at_joiner : AtJoiner s.joiner s.term_num s.joined_num (tally count_pending thread_num s.table)
