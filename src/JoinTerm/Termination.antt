-- ===== src/JoinTerm/Termination.antt =====
-- thread_joinTerm.c: how many steps a run can have.
use linux_unix_system_progra.Prelude.{
  ℕ, zero, suc, ◌+◌, ◌-◌, ◌*◌, ◌≤◌, ◌<◌, ◌≡◌, ◌≢◌, refl, Bool, true, false, update, subst, arith,
  tally, tally-update, tally-le, tally-const, Run, Run-measure,
}
use linux_unix_system_progra.JoinTerm.Defs.{
  thread_num, alive, terminated, joined, Worker, unborn, starting, sleeping, inside, counting,
  unlocking, signalling, gone, Entry, Joiner, testing, locking, checking, waiting, woken, scanning,
  taking, adding, leaving, returned, System, wake, WorkerStep, JoinerStep, MainStep, Step,
  by_thread, by_joining, by_main, spurious, error, start,
}
use linux_unix_system_progra.JoinTerm.Invariant.{count_terminated, count_joined, owed_term, Inv}
use linux_unix_system_progra.JoinTerm.Preserved.{Step-Inv, start-Inv}

-- 1 for a wake-up with no signal.
abbrev pub wakeups : (s t : System) → Step s t → ℕ
wakeups s t (by_thread i lt r m) = 0
wakeups s t (by_joining r m) = 0
wakeups s t (by_main r m) = 0
wakeups s t (spurious r a e) = 1
wakeups s t (error r a) = 0

-- In a pass over the entries those behind are not terminated.
abbrev AtScan : Joiner → (ℕ → Entry) → Type 0
AtScan (scanning idx) f = (idx ≤ thread_num) × ((i : ℕ) → i < idx → (f i).status ≢ terminated)
AtScan (taking idx) f = (idx < thread_num) × ((i : ℕ) → i < idx + 1 → (f i).status ≢ terminated)
AtScan (adding idx) f = (idx < thread_num) × ((i : ℕ) → i < idx + 1 → (f i).status ≢ terminated)
AtScan testing f = Unit
AtScan locking f = Unit
AtScan checking f = Unit
AtScan waiting f = Unit
AtScan woken f = Unit
AtScan leaving f = Unit
AtScan returned f = Unit

AtScan-wake : (j : Joiner) (f : ℕ → Entry) → AtScan j f → AtScan (wake j) f
AtScan-wake waiting f h = tt
AtScan-wake testing f h = tt
AtScan-wake locking f h = tt
AtScan-wake checking f h = tt
AtScan-wake woken f h = tt
AtScan-wake (scanning i) f h = h
AtScan-wake (taking i) f h = h
AtScan-wake (adding i) f h = h
AtScan-wake leaving f h = tt
AtScan-wake returned f h = tt

Worker-AtScan :
    (i : ℕ) (s t : System)
    → WorkerStep i s t
    → Inv s
    → AtScan s.joiner s.table
    → AtScan t.joiner t.table
Worker-AtScan i s t (WorkerStep.begin a e) inv h = ground arith
Worker-AtScan i s t (WorkerStep.lock a b e) inv h = ground arith
Worker-AtScan i s t (WorkerStep.terminate a e) inv h = ground (arith, inv.worker_mutex i)
Worker-AtScan i s t (WorkerStep.count a e) inv h = ground (arith, inv.worker_mutex i)
Worker-AtScan i s t (WorkerStep.unlock a e) inv h = ground arith
Worker-AtScan i s t (WorkerStep.signal a e) inv h = ground arith

Joiner-AtScan :
    (s t : System) → JoinerStep s t → Inv s → AtScan s.joiner s.table → AtScan t.joiner t.table
Joiner-AtScan s t (JoinerStep.begin a b e) inv h = ground arith
Joiner-AtScan s t (JoinerStep.return a b e) inv h = ground arith
Joiner-AtScan s t (JoinerStep.lock a b e) inv h = ground arith
Joiner-AtScan s t (JoinerStep.wait a b e) inv h = ground arith
Joiner-AtScan s t (JoinerStep.relock a b e) inv h = ground arith
Joiner-AtScan s t (JoinerStep.scan a b e) inv h = ground arith
Joiner-AtScan s t (JoinerStep.join idx a lt b c e) inv h = ground arith
Joiner-AtScan s t (JoinerStep.take idx a e) inv h = ground arith
Joiner-AtScan s t (JoinerStep.add idx a e) inv h = ground arith
Joiner-AtScan s t (JoinerStep.pass idx a lt b e) inv h = ground arith
Joiner-AtScan s t (JoinerStep.scanned idx a b e) inv h = ground arith
Joiner-AtScan s t (JoinerStep.unlock a e) inv h = ground arith

Scanned : System → Type 0
Scanned s = Inv s × AtScan s.joiner s.table

Step-Scanned : (s t : System) → Step s t → Scanned s → Scanned t
unfolding Scanned
Step-Scanned s t m (inv, h) = (Step-Inv s t m inv, at_scan s t m inv h)
  where
    at_scan : (s t : System) → Step s t → Inv s → AtScan s.joiner s.table → AtScan t.joiner t.table
    at_scan s t (by_thread i lt r m) inv h = Worker-AtScan i s t m inv h
    at_scan s t (by_joining r m) inv h = Joiner-AtScan s t m inv h
    at_scan s t (by_main r (MainStep.create lt e)) inv h = ground (arith, inv.born s.created)
    at_scan s t (by_main r (MainStep.finish a b e)) inv h = ground arith
    at_scan s t (spurious r a e) inv h = ground arith
    at_scan s t (error r e) inv h = ground arith

abbrev worker_left : Worker → ℕ
worker_left unborn = 0
worker_left starting = 10
worker_left sleeping = 9
worker_left inside = 8
worker_left counting = 7
worker_left unlocking = 6
worker_left signalling = 5
worker_left gone = 0

abbrev entry_left : Entry → ℕ
entry_left e = worker_left e.worker

-- What the joining thread has still to do, besides joining: a pass in which a terminated entry is left
-- to be joined counts less than one in which none is.
abbrev joiner_left : Joiner → ℕ → ℕ
joiner_left testing t = 15
joiner_left locking t = 14
joiner_left checking t = 13
joiner_left waiting t = 12
joiner_left woken t = 14
joiner_left (scanning i) zero = 26 - i
joiner_left (scanning i) (suc t) = 12 - i
joiner_left (taking i) t = 7
joiner_left (adding i) t = 6
joiner_left leaving t = 18
joiner_left returned t = 0

abbrev going : Bool → ℕ
going false = 1
going true = 0

abbrev left : System → ℕ
left s =
    tally entry_left thread_num s.table
    + 11 * (thread_num - s.created)
    + (30 * (thread_num - s.joined_num) + joiner_left s.joiner s.term_num)
    + going s.stopped

worker_drops : (i : ℕ) (s t : System) → i < thread_num → WorkerStep i s t → Inv s → left t < left s
worker_drops i s t lt (WorkerStep.begin a e) inv = ground (
  arith,
  tally-update entry_left thread_num s.table i (record { status = alive; worker = sleeping }) lt,
)
worker_drops i s t lt (WorkerStep.lock a b e) inv = ground (
  arith,
  tally-update entry_left thread_num s.table i (record (s.table i) { worker = inside }) lt,
)
worker_drops i s t lt (WorkerStep.terminate a e) inv = ground (
  arith,
  tally-update entry_left thread_num s.table i (record { status = terminated; worker = counting })
      lt,
)
worker_drops i s t lt (WorkerStep.count a e) inv = ground (
  arith,
  inv.worker_mutex i,
  tally-update entry_left thread_num s.table i (record (s.table i) { worker = unlocking }) lt,
)
worker_drops i s t lt (WorkerStep.unlock a e) inv = ground (
  arith,
  tally-update entry_left thread_num s.table i (record (s.table i) { worker = signalling }) lt,
)
worker_drops i s t lt (WorkerStep.signal a e) inv =
    ground (
      arith,
      tally-update entry_left thread_num s.table i (record (s.table i) { worker = gone }) lt,
    )

count_joined_le : (e : Entry) → count_joined e ≤ 1
count_joined_le e = ground arith

-- An entry that is not joined yet is not counted.
room :
    (s : System) (i : ℕ)
    → Inv s
    → i < thread_num
    → (s.table i).status ≡ terminated
    → s.joined_num < thread_num
room s i inv lt e =
    let x : Entry = record (s.table i) { status = joined } in
    let full = tally-le count_joined thread_num (update s.table i x) count_joined_le in
    let one = tally-update count_joined thread_num s.table i x lt in
    ground (arith, inv.joined_count, full, one)

-- A pass over the entries leaves no terminated one.
none_behind :
    (s : System) (idx : ℕ)
    → Scanned s
    → s.joiner ≡ scanning idx
    → ¬ (idx < thread_num)
    → s.term_num ≡ 0
unfolding Scanned
none_behind s idx (inv, h) e over =
    let scan = subst (λ j. AtScan j s.table) e h in
    let none_left : (i : ℕ) → i < thread_num → count_terminated (s.table i) ≡ 0 =
      λ i lt. ground (arith, scan.1 i) in
    let none_owed : owed_term s.joiner ≡ 0 = ground arith in
    omega (arith, inv.terminated_count, tally-const count_terminated thread_num 0 s.table none_left)

joiner_drops : (s t : System) → JoinerStep s t → Scanned s → left t < left s
unfolding Scanned
joiner_drops s t (JoinerStep.begin a b e) (inv, h) = ground arith
joiner_drops s t (JoinerStep.return a b e) (inv, h) = ground arith
joiner_drops s t (JoinerStep.lock a b e) (inv, h) = ground arith
joiner_drops s t (JoinerStep.wait a b e) (inv, h) = ground arith
joiner_drops s t (JoinerStep.relock a b e) (inv, h) = ground arith
joiner_drops s t (JoinerStep.scan a b e) (inv, h) = ground arith
joiner_drops s t (JoinerStep.join idx a lt b c e) (inv, h) = ground (
  arith,
  room s idx inv lt b,
  tally-update entry_left thread_num s.table idx (record (s.table idx) { status = joined }) lt,
)
joiner_drops s t (JoinerStep.take idx a e) (inv, h) = ground arith
joiner_drops s t (JoinerStep.add idx a e) (inv, h) =
    ground (arith, inv.joined_count, tally-le count_joined thread_num s.table count_joined_le)
joiner_drops s t (JoinerStep.pass idx a lt b e) (inv, h) = ground arith
joiner_drops s t (JoinerStep.scanned idx a b e) (inv, h) =
    ground (arith, none_behind s idx (inv, h) a b)
joiner_drops s t (JoinerStep.unlock a e) (inv, h) = ground arith

drops : (s t : System) (m : Step s t) → Scanned s → left t < left s + 3 * wakeups s t m
unfolding Scanned
drops s t (by_thread i lt r m) (inv, h) = omega (arith, worker_drops i s t lt m inv)
drops s t (by_joining r m) h = omega (arith, joiner_drops s t m h)
drops s t (by_main r (MainStep.create lt e)) (inv, h) = ground (
  arith,
  inv.born s.created,
  tally-update entry_left thread_num s.table s.created
      (record (s.table s.created) { worker = starting }) lt,
)
drops s t (by_main r (MainStep.finish a b e)) (inv, h) = ground arith
drops s t (spurious r a e) (inv, h) = ground arith
drops s t (error r e) (inv, h) = ground arith

-- However the threads are scheduled, a run from the start of the program has at most 221 steps, and
-- three more for each wake-up with no signal.
pub few_steps : {s : System} (n k : ℕ) → Run Step wakeups start n k s → n ≤ 221 + 3 * k
unfolding Scanned
few_steps {s} n k r =
    let none_begun = tally-const entry_left thread_num 0 start.table (λ i lt. refl) in
    omega (
      arith,
      none_begun,
      (Run-measure Step wakeups Scanned Step-Scanned left 3 drops (start-Inv, tt) r).1,
    )
