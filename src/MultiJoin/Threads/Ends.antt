-- ===== src/MultiJoin/Threads/Ends.antt =====
-- thread_multijoin.c with its threads: every run ends.
use linux_unix_system_progra.Prelude.{
  ℕ, ◌+◌, ◌*◌, ◌≤◌, ◌<◌, ◌≡◌, ◌≢◌, refl, ◌⊎◌, inl, inr, true, Bool-cases, length, arith, dec_lt,
  tally-const, Run, Run-measure,
}
use linux_unix_system_progra.Prelude.Int.{is_positive, is_zero}
use linux_unix_system_progra.MultiJoin.Defs.{State, alive, terminated, joined}
use linux_unix_system_progra.MultiJoin.Threads.{
  Worker, unborn, sleeping, inside, unlocking, signalling, gone, Main, creating, testing, locking,
  checking, waiting, woken, passing, leaving, exited, failed, Owner, nobody, by_worker, System,
  running, WorkerStep, MainStep, Step, start,
}
use linux_unix_system_progra.MultiJoin.Threads.Invariant.{worker_inside, Done, Inv}
use linux_unix_system_progra.MultiJoin.Threads.Preserved.{Sound, Step-Sound, start-Inv}
use linux_unix_system_progra.MultiJoin.Threads.Measure.{entry_left, wakeups, left, drops}

module _ (n : ℕ) where
  -- A step that is neither an error nor a wake-up with no signal.
  abbrev pub CanMove : System → Type 0
  CanMove s =
      (t : System) × (((i : ℕ) × (i < n) × (running s.main ≡ true) × WorkerStep i s t)
        ⊎ MainStep n s t)

  worker_moves :
      (s : System) (i : ℕ) (w : Worker)
      → i < n
      → running s.main ≡ true
      → (s.thread i).worker ≡ w
      → w ≢ unborn
      → w ≢ gone
      → (s.owner ≡ nobody) ⊎ (w ≢ sleeping)
      → CanMove s
  worker_moves s i unborn lt r e nu ng free = absurd (nu refl)
  worker_moves s i sleeping lt r e nu ng (inl free) =
      (_, inl (i, lt, r, WorkerStep.lock e free refl))
  worker_moves s i sleeping lt r e nu ng (inr ne) = absurd (ne refl)
  worker_moves s i inside lt r e nu ng free = (_, inl (i, lt, r, WorkerStep.terminate e refl))
  worker_moves s i unlocking lt r e nu ng free = (_, inl (i, lt, r, WorkerStep.unlock e refl))
  worker_moves s i signalling lt r e nu ng free = (_, inl (i, lt, r, WorkerStep.signal e refl))
  worker_moves s i gone lt r e nu ng free = absurd (ng refl)

  -- The thread that owns the mutex can go on.
  owner_moves :
      (s : System) (i : ℕ) → Inv n s → running s.main ≡ true → s.owner ≡ by_worker i → CanMove s
  owner_moves s i inv r e =
      let in_mutex : worker_inside (s.thread i).worker ≡ true =
        ground (arith, inv.worker_mutex i) in
      worker_moves s i (s.thread i).worker within r refl (λ u. ground (arith, in_mutex))
        (λ u. ground (arith, in_mutex)) (inr (λ u. ground (arith, in_mutex)))
    where
      within : i < n
      within = elim (dec_lt i n) [
        | yes lt ↦ lt
        | no ge ↦ absurd (ground (arith, inv.worker_mutex i, inv.born i, inv.counts))
      ]

  -- Where `main` needs the mutex, or a signal, a thread goes on if `main` does not.
  abbrev Needs : Main → Type 0
  Needs m = (m ≡ locking) ⊎ (m ≡ woken) ⊎ (m ≡ waiting)

  owned_moves :
      (s : System) (o : Owner)
      → Inv n s
      → Needs s.main
      → s.owner ≡ o
      → (s.owner ≡ nobody) ⊎ CanMove s
  owned_moves s nobody inv needs e = inl e
  owned_moves s (by_worker i) inv needs e = inr (owner_moves s i inv (ground (arith, needs)) e)
  owned_moves s Owner.by_main inv needs e = absurd (ground (arith, inv.main_mutex, needs))

  waiting_moves : (s : System) → Inv n s → s.main ≡ waiting → s.owner ≡ nobody → CanMove s
  waiting_moves s inv e free =
      worker_moves s 0 (s.thread 0).worker (ground (arith, inv.counts)) (ground arith) refl
        (inv.exist 0 (ground (arith, inv.counts))) (inv.none_gone 0 e) (inl free)

  passing_moves :
      (s : System) (idx : ℕ) (x : State) (w : Worker)
      → Inv n s
      → s.main ≡ passing idx
      → idx < n
      → (s.thread idx).state ≡ x
      → (s.thread idx).worker ≡ w
      → CanMove s
  passing_moves s idx alive w inv e lt q p =
      (_, inr (MainStep.skip idx e lt (λ z. ground (arith, q, z)) refl))
  passing_moves s idx joined w inv e lt q p =
      (_, inr (MainStep.skip idx e lt (λ z. ground (arith, q, z)) refl))
  passing_moves s idx terminated gone inv e lt q p = (_, inr (MainStep.join idx e lt q p refl))
  passing_moves s idx terminated signalling inv e lt q p =
      (_, inl (idx, lt, ground arith, WorkerStep.signal p refl))
  passing_moves s idx terminated unlocking inv e lt q p =
      (_, inl (idx, lt, ground arith, WorkerStep.unlock p refl))
  passing_moves s idx terminated unborn inv e lt q p = absurd (ground (arith, inv.fits idx))
  passing_moves s idx terminated sleeping inv e lt q p = absurd (ground (arith, inv.fits idx))
  passing_moves s idx terminated inside inv e lt q p = absurd (ground (arith, inv.fits idx))

  -- `main` has failed, or has ended with success, and if there are threads it has joined one of them.
  abbrev pub Over : System → Type 0
  Over s = (s.main ≡ failed) ⊎ ((s.main ≡ exited) × Done n (length s.calls))

  main_moves : (s : System) (m : Main) → Inv n s → s.main ≡ m → CanMove s ⊎ Over s
  main_moves s (creating idx) inv e = elim (dec_lt idx n) [
    | yes lt ↦ inl (_, inr (MainStep.create idx e lt refl))
    | no ge ↦ inl (_, inr (MainStep.all_created idx e ge refl))
  ]
  main_moves s testing inv e = elim (Bool-cases (is_positive s.num_live)) [
    | inl more ↦ inl (_, inr (MainStep.enter e more refl))
    | inr over ↦ inl (_, inr (MainStep.exit e over refl))
  ]
  main_moves s locking inv e = elim (owned_moves s s.owner inv (inl e) refl) [
    | inl free ↦ inl (_, inr (MainStep.lock e free refl))
    | inr moves ↦ inl moves
  ]
  main_moves s woken inv e = elim (owned_moves s s.owner inv (inr (inl e)) refl) [
    | inl free ↦ inl (_, inr (MainStep.relock e free refl))
    | inr moves ↦ inl moves
  ]
  main_moves s waiting inv e = elim (owned_moves s s.owner inv (inr (inr e)) refl) [
    | inl free ↦ inl (waiting_moves s inv e free)
    | inr moves ↦ inl moves
  ]
  main_moves s checking inv e = elim (Bool-cases (is_zero s.num_unjoined)) [
    | inl none_left ↦ inl (_, inr (MainStep.wait e none_left refl))
    | inr some_left ↦ inl (_, inr (MainStep.begin e some_left refl))
  ]
  main_moves s (passing idx) inv e = elim (dec_lt idx n) [
    | yes lt ↦
        inl (passing_moves s idx (s.thread idx).state (s.thread idx).worker inv e lt refl refl)
    | no ge ↦ inl (_, inr (MainStep.passed idx e ge refl))
  ]
  main_moves s leaving inv e = inl (_, inr (MainStep.unlock e refl))
  main_moves s exited inv e = inr (inr (e, ground (arith, inv.counts)))
  main_moves s failed inv e = inr (inl e)

  sound_moves : (s : System) → Sound n s → CanMove s ⊎ Over s
  sound_moves s (inl f) = inr (inl f)
  sound_moves s (inr inv) = main_moves s s.main inv refl

  -- However the threads are scheduled, the program ends: a run from its start with `n` threads has at
  -- most 8 n + 9 steps, and three more for each wake-up with no signal. At its end there is a next step,
  -- or `main` has failed, or it has ended with success, and has joined a thread if there are any.
  pub runs_end :
      {s : System} (m k : ℕ)
      → Run (Step n) (wakeups n) start m k s
      → (m ≤ 8 * n + 9 + 3 * k) × (CanMove s ⊎ Over s)
  runs_end {s} m k r =
      let (sound, le) =
        Run-measure (Step n) (wakeups n) (Sound n) (Step-Sound n) (left n) 3 (drops n)
          (inr (start-Inv n)) r in
      let none_begun = tally-const entry_left n 0 start.thread (λ i lt. refl) in
      (omega (arith, le, none_begun), sound_moves s sound)
