-- ===== src/Cancel/Reports.antt =====
-- t_pthread_cancel.c and t_pthread_cancel2.c: `main` gets to its end.
use linux_unix_system_progra.Prelude.{
  if◌then◌else◌, ℕ, ◌+◌, ◌*◌, ◌≤◌, ◌<◌, ◌≡◌, ◌≢◌, ◌⊎◌, inl, inr, refl, Bool, true, false, arith,
  Run, Run-measure,
}
use linux_unix_system_progra.Cancel.Defs.{
  Thread, unborn, beginning, printing, sleeping, testing, ended, Main, creating, cancelling,
  joining, reporting, failed, System, ThreadStep, MainStep, Step, by_thread, by_main, error, start,
}

-- 1 for a round of the thread that ends while its cancellation is not requested.
abbrev pub goes_on : (s t : System) → ThreadStep s t → ℕ
goes_on s t (ThreadStep.begin a e) = 0
goes_on s t (ThreadStep.print j a e) = 0
goes_on s t (ThreadStep.sleep j a b e) = if s.requested then 0 else 1
goes_on s t (ThreadStep.test a b e) = if s.requested then 0 else 1
goes_on s t (ThreadStep.stop_beginning a b e) = 0
goes_on s t (ThreadStep.stop_printing j a b e) = 0
goes_on s t (ThreadStep.stop_sleeping j a b e) = 0
goes_on s t (ThreadStep.stop_testing a b e) = 0

abbrev thread_left : Thread → ℕ
thread_left unborn = 0
thread_left beginning = 3
thread_left (printing j) = 2
thread_left (sleeping j) = 1
thread_left testing = 1
thread_left ended = 0

abbrev main_left : Main → ℕ
main_left creating = 6
main_left cancelling = 2
main_left joining = 1
main_left (reporting c) = 0
main_left failed = 0

abbrev left : System → ℕ
left s = thread_left s.thread + main_left s.main

abbrev Requests : Main → Bool → Type 0
Requests creating b = b ≡ false
Requests cancelling b = b ≡ false
Requests joining b = b ≡ true
Requests (reporting c) b = c ≡ true
Requests failed b = Unit

abbrev Born : Main → Thread → Type 0
Born creating x = x ≡ unborn
Born cancelling x = x ≢ unborn
Born joining x = x ≢ unborn
Born (reporting c) x = Unit
Born failed x = Unit

abbrev Inv : System → Type 0
Inv s = Requests s.main s.requested × Born s.main s.thread

thread_drops : (s t : System) (m : ThreadStep s t) → left t < left s + 3 * goes_on s t m
thread_drops s t (ThreadStep.begin a e) = ground arith
thread_drops s t (ThreadStep.print j a e) = ground arith
thread_drops s t (ThreadStep.sleep j a b e) = ground arith
thread_drops s t (ThreadStep.test a b e) = ground arith
thread_drops s t (ThreadStep.stop_beginning a b e) = ground arith
thread_drops s t (ThreadStep.stop_printing j a b e) = ground arith
thread_drops s t (ThreadStep.stop_sleeping j a b e) = ground arith
thread_drops s t (ThreadStep.stop_testing a b e) = ground arith

thread_keeps : (s t : System) → ThreadStep s t → Inv s → Inv t
thread_keeps s t (ThreadStep.begin a e) inv = ground arith
thread_keeps s t (ThreadStep.print j a e) inv = ground arith
thread_keeps s t (ThreadStep.sleep j a b e) inv = ground arith
thread_keeps s t (ThreadStep.test a b e) inv = ground arith
thread_keeps s t (ThreadStep.stop_beginning a b e) inv = ground arith
thread_keeps s t (ThreadStep.stop_printing j a b e) inv = ground arith
thread_keeps s t (ThreadStep.stop_sleeping j a b e) inv = ground arith
thread_keeps s t (ThreadStep.stop_testing a b e) inv = ground arith

-- `first` is where the thread of the one program or of the other begins.
module _ (first : Thread) (begins : (first ≡ testing) ⊎ (first ≡ beginning)) where
  abbrev pub rounds : (s t : System) → Step first s t → ℕ
  rounds s t (by_thread r m) = goes_on s t m
  rounds s t (by_main m) = 0
  rounds s t (error a e) = 0

  keeps : (s t : System) → Step first s t → Inv s → Inv t
  keeps s t (by_thread r m) inv = thread_keeps s t m inv
  keeps s t (by_main (MainStep.create a e)) inv = ground (arith, begins)
  keeps s t (by_main (MainStep.cancel a e)) inv = ground arith
  keeps s t (by_main (MainStep.join a b e)) inv = ground arith
  keeps s t (error a e) inv = ground arith

  drops : (s t : System) (m : Step first s t) → Inv s → left t < left s + 3 * rounds s t m
  drops s t (by_thread r m) inv = thread_drops s t m
  drops s t (by_main (MainStep.create a e)) inv = ground (arith, begins)
  drops s t (by_main (MainStep.cancel a e)) inv = ground arith
  drops s t (by_main (MainStep.join a b e)) inv = ground arith
  drops s t (error a e) inv = ground arith

  -- A step that is neither an error nor the end of a round of the thread before the request.
  abbrev pub Moves : System → Type 0
  Moves s = (t : System) × (((m : ThreadStep s t) × (goes_on s t m ≡ 0)) ⊎ MainStep first s t)

  abbrev pub Over : Main → Type 0
  Over m = (m ≡ failed) ⊎ (m ≡ reporting true)

  thread_moves :
      (s : System) (x : Thread)
      → s.main ≡ joining
      → s.requested ≡ true
      → s.thread ≡ x
      → x ≢ unborn
      → Moves s
  thread_moves s unborn m r e h = absurd (h refl)
  thread_moves s beginning m r e h = (_, inl (ThreadStep.begin e refl, refl))
  thread_moves s (printing j) m r e h = (_, inl (ThreadStep.print j e refl, refl))
  thread_moves s (sleeping j) m r e h = (_, inl (ThreadStep.stop_sleeping j e r refl, refl))
  thread_moves s testing m r e h = (_, inl (ThreadStep.stop_testing e r refl, refl))
  thread_moves s ended m r e h = (_, inr (MainStep.join m e refl))

  main_moves : (s : System) (m : Main) → Inv s → s.main ≡ m → Moves s ⊎ Over s.main
  main_moves s creating inv e = inl (_, inr (MainStep.create e refl))
  main_moves s cancelling inv e = inl (_, inr (MainStep.cancel e refl))
  main_moves s joining inv e =
      inl (thread_moves s s.thread e (ground (arith, inv)) refl (ground (arith, inv)))
  main_moves s (reporting c) inv e = inr (inr (ground (arith, inv)))
  main_moves s failed inv e = inr (inl e)

  -- A run of t_pthread_cancel.c or t_pthread_cancel2.c has at most six steps, and three more for each
  -- round of the thread that ends before its cancellation is requested. At its end `main` has failed
  -- or has joined a cancelled thread, or there is a next step, neither an error nor such a round.
  pub run_reports :
      {s : System} (n k : ℕ)
      → Run (Step first) rounds start n k s
      → (n ≤ 6 + 3 * k) × (Moves s ⊎ Over s.main)
  run_reports {s} n k r =
      let (inv, le) = Run-measure (Step first) rounds Inv keeps left 3 drops (refl, refl) r in
      (omega (arith, le), main_moves s s.main inv refl)
