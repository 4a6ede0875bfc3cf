-- ===== src/JoinTerm/Progress.antt =====
-- thread_joinTerm.c: which thread has a next step.
use linux_unix_system_progra.Prelude.{
  ℕ, zero, suc, ◌<◌, ◌≡◌, ◌≢◌, refl, ◌⊎◌, inl, inr, true, arith, tally, tally-const, tally-ge,
  dec_lt, ℕ_discrete,
}
use linux_unix_system_progra.JoinTerm.Defs.{
  thread_num, Status, alive, terminated, joined, Worker, unborn, starting, sleeping, inside,
  counting, unlocking, signalling, gone, Joiner, testing, locking, checking, waiting, woken,
  scanning, taking, adding, leaving, returned, Owner, nobody, by_worker, by_joiner, System,
  WorkerStep, JoinerStep, MainStep, Reach,
}
use linux_unix_system_progra.JoinTerm.Invariant.{
  owed_term, owed_joined, count_terminated, count_joined, count_pending, worker_inside, Inv,
}
use linux_unix_system_progra.JoinTerm.Preserved.{Reach-Inv}

-- A step of one of the threads, which is neither an error nor a wake-up with no signal.
pub data Move (s t : System) : Type 0 where
  of_thread : (i : ℕ) → i < thread_num → WorkerStep i s t → Move s t
  of_joining : JoinerStep s t → Move s t
  of_main : MainStep s t → Move s t

abbrev pub CanMove : System → Type 0
CanMove s = (t : System) × Move s t

worker_moves :
    (s : System) (i : ℕ) (w : Worker)
    → i < thread_num
    → (s.table i).worker ≡ w
    → w ≢ unborn
    → w ≢ gone
    → (s.owner ≡ nobody) ⊎ (w ≢ sleeping)
    → CanMove s
worker_moves s i unborn lt e nu ng free = absurd (nu refl)
worker_moves s i starting lt e nu ng free = (_, Move.of_thread i lt (WorkerStep.begin e refl))
worker_moves s i sleeping lt e nu ng (inl free) =
    (_, Move.of_thread i lt (WorkerStep.lock e free refl))
worker_moves s i sleeping lt e nu ng (inr ne) = absurd (ne refl)
worker_moves s i inside lt e nu ng free = (_, Move.of_thread i lt (WorkerStep.terminate e refl))
worker_moves s i counting lt e nu ng free = (_, Move.of_thread i lt (WorkerStep.count e refl))
worker_moves s i unlocking lt e nu ng free = (_, Move.of_thread i lt (WorkerStep.unlock e refl))
worker_moves s i signalling lt e nu ng free = (_, Move.of_thread i lt (WorkerStep.signal e refl))
worker_moves s i gone lt e nu ng free = absurd (ng refl)

-- The thread that owns the mutex can go on.
owner_moves : (s : System) (i : ℕ) → Inv s → s.owner ≡ by_worker i → CanMove s
owner_moves s i inv e =
    worker_moves s i (s.table i).worker within refl (λ u. ground (arith, in_mutex))
      (λ u. ground (arith, in_mutex)) (inr (λ u. ground (arith, in_mutex)))
  where
    in_mutex : worker_inside (s.table i).worker ≡ true
    in_mutex = ground (arith, inv.worker_mutex i)

    within : i < thread_num
    within = elim (dec_lt i s.created) [
      | yes lt ↦ omega (arith, inv.few)
      | no ge ↦ absurd (ground (arith, in_mutex, inv.born i (omega arith)))
    ]

-- An entry that the joining thread finds terminated: it joins a thread that is gone, and waits for
-- one that has still to signal.
join_moves :
    (s : System) (idx : ℕ) (w : Worker)
    → Inv s
    → s.joiner ≡ scanning idx
    → idx < thread_num
    → (s.table idx).status ≡ terminated
    → (s.table idx).worker ≡ w
    → CanMove s
join_moves s idx gone inv e lt q p = (_, Move.of_joining (JoinerStep.join idx e lt q p refl))
join_moves s idx signalling inv e lt q p = (_, Move.of_thread idx lt (WorkerStep.signal p refl))
join_moves s idx unlocking inv e lt q p = (_, Move.of_thread idx lt (WorkerStep.unlock p refl))
join_moves s idx unborn inv e lt q p = absurd (ground (arith, inv.fits idx))
join_moves s idx starting inv e lt q p = absurd (ground (arith, inv.fits idx))
join_moves s idx sleeping inv e lt q p = absurd (ground (arith, inv.fits idx))
join_moves s idx counting inv e lt q p = (_, Move.of_thread idx lt (WorkerStep.count p refl))
join_moves s idx inside inv e lt q p = absurd (ground (arith, inv.fits idx))

terminated_or : (x : Status) → (x ≡ terminated) ⊎ (x ≢ terminated)
terminated_or terminated = inl refl
terminated_or alive = inr (λ z. cc)
terminated_or joined = inr (λ z. cc)

scanning_moves : (s : System) (idx : ℕ) → Inv s → s.joiner ≡ scanning idx → CanMove s
scanning_moves s idx inv e = elim (dec_lt idx thread_num) [
  | no ge ↦ (_, Move.of_joining (JoinerStep.scanned idx e ge refl))
  | yes lt ↦ elim (terminated_or (s.table idx).status) [
    | inl q ↦ join_moves s idx (s.table idx).worker inv e lt q refl
    | inr q ↦ (_, Move.of_joining (JoinerStep.pass idx e lt q refl))
  ]
]

gone_or : (w : Worker) → (w ≡ gone) ⊎ (w ≢ gone)
gone_or gone = inl refl
gone_or unborn = inr (λ z. cc)
gone_or starting = inr (λ z. cc)
gone_or sleeping = inr (λ z. cc)
gone_or inside = inr (λ z. cc)
gone_or counting = inr (λ z. cc)
gone_or unlocking = inr (λ z. cc)
gone_or signalling = inr (λ z. cc)

some_left :
    (n : ℕ) (s : System)
    → ((i : ℕ) × (i < n) × ((s.table i).worker ≢ gone))
      ⊎ ((i : ℕ) → i < n → (s.table i).worker ≡ gone)
some_left zero s = inr (λ i lt. absurd (omega arith))
some_left (suc n) s = elim (gone_or (s.table n).worker) [
  | inr q ↦ inl (n, omega arith, q)
  | inl q ↦ elim (some_left n s) [
    | inl (i, lt, h) ↦ inl (i, omega arith, h)
    | inr all ↦
        inr
          (λ i lt. elim (ℕ_discrete i n) [ yes same ↦ rw same q | no other ↦ all i (omega arith) ])
  ]
]

-- If all threads were gone while the joining thread waits, it would have joined them all.
not_all_gone :
    (s : System)
    → Inv s
    → s.joiner ≡ waiting
    → ((i : ℕ) → i < thread_num → (s.table i).worker ≡ gone)
    → ⊥
not_all_gone s inv e all =
    absurd (ground (arith, inv.at_joiner, all_joined, inv.joined_count, none_joined))
  where
    none_owed : owed_term s.joiner ≡ 0
    none_owed = ground arith

    none_joined : owed_joined s.joiner ≡ 0
    none_joined = ground arith

    none_pending : tally count_pending thread_num s.table ≡ 0
    none_pending =
        omega
          (arith, tally-const count_pending thread_num 0 s.table (λ i lt. ground (arith, all i)))

    no_terms : s.term_num ≡ 0
    no_terms = ground (arith, none_pending)

    none_terminated : (i : ℕ) → i < thread_num → (s.table i).status ≢ terminated
    none_terminated i lt q = ground (
      arith,
      all i lt,
      no_terms,
      none_owed,
      inv.terminated_count,
      tally-ge count_terminated thread_num s.table i lt,
    )

    all_joined : tally count_joined thread_num s.table ≡ 5
    all_joined = omega (
      arith,
      tally-const count_joined thread_num 1 s.table
          (λ i lt. ground (arith, all i lt, inv.fits i, none_terminated i lt)),
    )

free_moves :
    (s : System) (j : Joiner)
    → Inv s
    → s.created ≡ thread_num
    → s.owner ≡ nobody
    → s.joiner ≡ j
    → CanMove s
free_moves s testing inv full free e = elim (ℕ_discrete s.joined_num thread_num) [
  | yes q ↦ (_, Move.of_joining (JoinerStep.return e q refl))
  | no q ↦ (_, Move.of_joining (JoinerStep.begin e q refl))
]
free_moves s locking inv full free e = (_, Move.of_joining (JoinerStep.lock e free refl))
free_moves s woken inv full free e = (_, Move.of_joining (JoinerStep.relock e free refl))
free_moves s returned inv full free e = (_, Move.of_main (MainStep.finish full e refl))
free_moves s waiting inv full free e = elim (some_left thread_num s) [
  | inr all ↦ absurd (not_all_gone s inv e all)
  | inl (i, lt, ng) ↦
      worker_moves s i (s.table i).worker lt refl (inv.exist i (omega arith)) ng (inl free)
]
free_moves s checking inv full free e = absurd (ground (arith, inv.joiner_mutex))
free_moves s (scanning idx) inv full free e = absurd (ground (arith, inv.joiner_mutex))
free_moves s (taking idx) inv full free e = absurd (ground (arith, inv.joiner_mutex))
free_moves s (adding idx) inv full free e = absurd (ground (arith, inv.joiner_mutex))
free_moves s leaving inv full free e = absurd (ground (arith, inv.joiner_mutex))

joiner_moves : (s : System) (j : Joiner) → Inv s → s.owner ≡ by_joiner → s.joiner ≡ j → CanMove s
joiner_moves s checking inv own e = elim (ℕ_discrete s.term_num 0) [
  | yes q ↦ (_, Move.of_joining (JoinerStep.wait e q refl))
  | no q ↦ (_, Move.of_joining (JoinerStep.scan e q refl))
]
joiner_moves s (scanning idx) inv own e = scanning_moves s idx inv e
joiner_moves s (taking idx) inv own e = (_, Move.of_joining (JoinerStep.take idx e refl))
joiner_moves s (adding idx) inv own e = (_, Move.of_joining (JoinerStep.add idx e refl))
joiner_moves s leaving inv own e = (_, Move.of_joining (JoinerStep.unlock e refl))
joiner_moves s testing inv own e = absurd (ground (arith, inv.joiner_mutex))
joiner_moves s locking inv own e = absurd (ground (arith, inv.joiner_mutex))
joiner_moves s waiting inv own e = absurd (ground (arith, inv.joiner_mutex))
joiner_moves s woken inv own e = absurd (ground (arith, inv.joiner_mutex))
joiner_moves s returned inv own e = absurd (ground (arith, inv.joiner_mutex))

moves_by : (s : System) (o : Owner) → Inv s → s.created ≡ thread_num → s.owner ≡ o → CanMove s
moves_by s nobody inv full e = free_moves s s.joiner inv full e refl
moves_by s (by_worker i) inv full e = owner_moves s i inv e
moves_by s by_joiner inv full e = joiner_moves s s.joiner inv e refl

-- In every reachable state one of the threads, or `main`, has a next step: as long as the process has
-- not ended, which `main` does when all threads are joined, it does not come to a stop.
pub never_stuck : {s : System} → Reach s → CanMove s
never_stuck {s} r = elim (dec_lt s.created thread_num) [
  | yes lt ↦ (_, Move.of_main (MainStep.create lt refl))
  | no ge ↦ moves_by s s.owner inv (omega (arith, inv.few)) refl
]
  where
    inv : Inv s
    inv = Reach-Inv r
