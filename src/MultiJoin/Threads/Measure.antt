-- ===== src/MultiJoin/Threads/Measure.antt =====
-- thread_multijoin.c with its threads: a measure that every step reduces.
use linux_unix_system_progra.Prelude.{
  ℕ, zero, suc, ◌+◌, ◌-◌, ◌*◌, ◌<◌, ◌≡◌, inl, inr, true, arith, tally, tally-update,
}
use linux_unix_system_progra.Prelude.Int.{ℤ, pos, negsuc}
use linux_unix_system_progra.MultiJoin.Defs.{alive, terminated, joined}
use linux_unix_system_progra.MultiJoin.Threads.{
  Worker, unborn, sleeping, inside, unlocking, signalling, gone, Entry, Main, creating, testing,
  locking, checking, waiting, woken, passing, leaving, exited, failed, System, running, WorkerStep,
  MainStep, Step, by_thread, by_main, spurious, error,
}
use linux_unix_system_progra.MultiJoin.Threads.Invariant.{Inv}
use linux_unix_system_progra.MultiJoin.Threads.Preserved.{Sound, none_failed}

abbrev worker_left : Worker → ℕ
worker_left unborn = 0
worker_left sleeping = 6
worker_left inside = 5
worker_left unlocking = 4
worker_left signalling = 3
worker_left gone = 0

abbrev pub entry_left : Entry → ℕ
entry_left e = worker_left e.worker

abbrev test_left : ℕ → ℤ → ℕ
test_left n (pos zero) = 1
test_left n (pos (suc m)) = n + 8
test_left n (negsuc m) = 1

abbrev pub main_left : ℕ → Main → ℤ → ℕ
main_left n (creating i) z = 7 * (n - i) + n + 9
main_left n testing z = test_left n z
main_left n locking z = n + 7
main_left n woken z = n + 6
main_left n checking z = n + 5
main_left n waiting z = n + 4
main_left n (passing i) z = n - i + 3
main_left n leaving z = 2
main_left n exited z = 0
main_left n failed z = 0

module _ (n : ℕ) where
  -- 1 for a wake-up with no signal.
  abbrev pub wakeups : (s t : System) → Step n s t → ℕ
  wakeups s t (by_thread i lt r m) = 0
  wakeups s t (by_main m) = 0
  wakeups s t (spurious a q) = 1
  wakeups s t (error r q) = 0

  abbrev pub left : System → ℕ
  left s = tally entry_left n s.thread + main_left n s.main s.num_live

  worker_drops : (i : ℕ) (s t : System) → i < n → WorkerStep i s t → left t < left s
  worker_drops i s t lt (WorkerStep.lock a b q) =
      ground
        (arith, tally-update entry_left n s.thread i (record (s.thread i) { worker = inside }) lt)
  worker_drops i s t lt (WorkerStep.terminate a q) = ground (
    arith,
    tally-update entry_left n s.thread i (record { state = terminated; worker = unlocking }) lt,
  )
  worker_drops i s t lt (WorkerStep.unlock a q) =
      ground (
        arith,
        tally-update entry_left n s.thread i (record (s.thread i) { worker = signalling }) lt,
      )
  worker_drops i s t lt (WorkerStep.signal a q) =
      ground
        (arith, tally-update entry_left n s.thread i (record (s.thread i) { worker = gone }) lt)

  main_drops : (s t : System) → MainStep n s t → Inv n s → left t < left s
  main_drops s t (MainStep.create idx a lt q) inv = ground (
    arith,
    inv.born idx,
    tally-update entry_left n s.thread idx (record { state = alive; worker = sleeping }) lt,
  )
  main_drops s t (MainStep.all_created idx a ge q) inv = ground arith
  main_drops s t (MainStep.enter a b q) inv = ground arith
  main_drops s t (MainStep.exit a b q) inv = ground arith
  main_drops s t (MainStep.lock a b q) inv = ground arith
  main_drops s t (MainStep.wait a b q) inv = ground arith
  main_drops s t (MainStep.relock a b q) inv = ground arith
  main_drops s t (MainStep.begin a b q) inv = ground arith
  main_drops s t (MainStep.join idx a lt b c q) inv =
      ground (
        arith,
        tally-update entry_left n s.thread idx (record (s.thread idx) { state = joined }) lt,
      )
  main_drops s t (MainStep.skip idx a lt b q) inv =
      ground (
        arith,
        tally-update entry_left n s.thread idx (record (s.thread idx) { state = joined }) lt,
      )
  main_drops s t (MainStep.passed idx a ge q) inv = ground arith
  main_drops s t (MainStep.unlock a q) inv = ground (arith, inv.counts)

  error_drops :
      (s t : System) → running s.main ≡ true → t ≡ record s { main = failed } → left t < left s
  error_drops s t r q = ground arith

  pub drops : (s t : System) (m : Step n s t) → Sound n s → left t < left s + 3 * wakeups s t m
  drops s t (by_thread i lt r m) h = omega (arith, worker_drops i s t lt m)
  drops s t (by_main m) (inr inv) = omega (arith, main_drops s t m inv)
  drops s t (by_main m) (inl f) = absurd (none_failed n s t m f)
  drops s t (spurious a q) h = ground arith
  drops s t (error r q) h = omega (arith, error_drops s t r q)
