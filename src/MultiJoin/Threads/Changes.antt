-- ===== src/MultiJoin/Threads/Changes.antt =====
-- thread_multijoin.c with its threads: a state that changes at one entry, or not in its entries, and the
-- steps of the threads.
use linux_unix_system_progra.Prelude.{
  ℕ, ◌+◌, ◌≤◌, ◌<◌, ◌≡◌, ◌≢◌, true, length, update, arith, tally, tally-update,
}
use linux_unix_system_progra.MultiJoin.Defs.{terminated, joined}
use linux_unix_system_progra.MultiJoin.Threads.{
  unborn, inside, unlocking, signalling, gone, Entry, waiting, System, running, WorkerStep,
}
use linux_unix_system_progra.MultiJoin.Threads.Invariant.{
  count_terminated, Fits, worker_inside, main_inside, worker_owns, main_owns, passed_by, created_by,
  behind, AtMain, Inv,
}

module _ (n : ℕ) where
  -- The entry of a thread that exists changes.
  pub Inv-set :
      (s t : System) (i : ℕ) (e : Entry)
      → Inv n s
      → t.thread ≡ update s.thread i e
      → created_by n t.main ≡ created_by n s.main
      → passed_by n s.main s.num_live ≤ passed_by n t.main t.num_live
      → (s.thread i).worker ≢ unborn
      → e.worker ≢ unborn
      → (passed_by n t.main t.num_live ≤ i → Fits e.worker e.state)
      → ((j : ℕ) → j < behind t.main → (update s.thread i e j).state ≡ joined)
      → ((j : ℕ) → t.main ≡ waiting → (update s.thread i e j).worker ≢ gone)
      → ((j : ℕ) → worker_owns j t.owner ≡ worker_inside (update s.thread i e j).worker)
      → main_owns t.owner ≡ main_inside t.main
      → AtMain n t.main t.num_live t.num_unjoined
          (tally count_terminated n t.thread)
          (length t.calls)
      → Inv n t
  Inv-set s t i e inv table c p u u' fit done going mutex main_mutex counts = record {
    born = λ j le. ground (arith, table, inv.born j, inv.born i);
    exist = λ j lt q. ground (arith, table, inv.exist j);
    fits = λ j le. ground (arith, table, inv.fits j);
    joins = λ j lt. rw table (done j lt);
    none_gone = λ j w. rw table (going j w);
    worker_mutex = λ j. rw table (mutex j);
    main_mutex = main_mutex;
    counts = counts;
  }

  pub terms_set :
      (s t : System) (i : ℕ) (e : Entry)
      → i < n
      → t.thread ≡ update s.thread i e
      → tally count_terminated n t.thread + count_terminated (s.thread i)
        ≡ tally count_terminated n s.thread + count_terminated e
  terms_set s t i e lt table = rw table (tally-update count_terminated n s.thread i e lt)

  pub Worker-Inv :
      (i : ℕ) (s t : System) → i < n → running s.main ≡ true → WorkerStep i s t → Inv n s → Inv n t
  Worker-Inv i s t lt r (WorkerStep.lock a b q) inv =
      let e : Entry = record (s.thread i) { worker = inside } in
      Inv-set s t i e inv (ground arith) (ground arith) (ground arith) (λ u. ground arith)
        (λ u. ground arith) (λ le. ground (arith, inv.fits i))
        (λ j lt. ground (arith, inv.joins j, inv.worker_mutex i, inv.main_mutex))
        (λ j w u. ground (arith, inv.none_gone j))
        (λ j. ground (arith, inv.worker_mutex j, inv.worker_mutex i))
        (ground (arith, inv.worker_mutex i, inv.main_mutex))
        (ground (
          arith,
          inv.counts,
          inv.worker_mutex i,
          inv.main_mutex,
          inv.fits i,
          terms_set s t i e lt (ground arith),
        ))
  Worker-Inv i s t lt r (WorkerStep.terminate a q) inv =
      let e : Entry = record { state = terminated; worker = unlocking } in
      Inv-set s t i e inv (ground arith) (ground arith) (ground arith) (λ u. ground arith)
        (λ u. ground arith) (λ le. ground (arith, inv.fits i))
        (λ j lt. ground (arith, inv.joins j, inv.worker_mutex i, inv.main_mutex))
        (λ j w u. ground (arith, inv.none_gone j))
        (λ j. ground (arith, inv.worker_mutex j, inv.worker_mutex i))
        (ground (arith, inv.worker_mutex i, inv.main_mutex))
        (ground (
          arith,
          inv.counts,
          inv.worker_mutex i,
          inv.main_mutex,
          inv.fits i,
          terms_set s t i e lt (ground arith),
        ))
  Worker-Inv i s t lt r (WorkerStep.unlock a q) inv =
      let e : Entry = record (s.thread i) { worker = signalling } in
      Inv-set s t i e inv (ground arith) (ground arith) (ground arith) (λ u. ground arith)
        (λ u. ground arith) (λ le. ground (arith, inv.fits i))
        (λ j lt. ground (arith, inv.joins j, inv.worker_mutex i, inv.main_mutex))
        (λ j w u. ground (arith, inv.none_gone j))
        (λ j. ground (arith, inv.worker_mutex j, inv.worker_mutex i))
        (ground (arith, inv.worker_mutex i, inv.main_mutex))
        (ground (
          arith,
          inv.counts,
          inv.worker_mutex i,
          inv.main_mutex,
          inv.fits i,
          terms_set s t i e lt (ground arith),
        ))
  Worker-Inv i s t lt r (WorkerStep.signal a q) inv =
      let e : Entry = record (s.thread i) { worker = gone } in
      Inv-set s t i e inv (ground arith) (ground arith) (ground arith) (λ u. ground arith)
        (λ u. ground arith) (λ le. ground (arith, inv.fits i))
        (λ j lt. ground (arith, inv.joins j, inv.worker_mutex i, inv.main_mutex))
        (λ j w u. ground (arith, inv.none_gone j))
        (λ j. ground (arith, inv.worker_mutex j, inv.worker_mutex i))
        (ground (arith, inv.worker_mutex i, inv.main_mutex))
        (ground (
          arith,
          inv.counts,
          inv.worker_mutex i,
          inv.main_mutex,
          inv.fits i,
          terms_set s t i e lt (ground arith),
        ))

  -- Only `main`, the owner and the counters change.
  pub Inv-move :
      (s t : System)
      → Inv n s
      → t.thread ≡ s.thread
      → created_by n t.main ≡ created_by n s.main
      → passed_by n s.main s.num_live ≤ passed_by n t.main t.num_live
      → ((j : ℕ) → j < behind t.main → (s.thread j).state ≡ joined)
      → ((j : ℕ) → t.main ≡ waiting → (s.thread j).worker ≢ gone)
      → ((j : ℕ) → worker_owns j t.owner ≡ worker_owns j s.owner)
      → main_owns t.owner ≡ main_inside t.main
      → AtMain n t.main t.num_live t.num_unjoined
          (tally count_terminated n s.thread)
          (length t.calls)
      → Inv n t
  Inv-move s t inv table c p done going mutex main_mutex counts = record {
    born = λ j le. ground (arith, table, inv.born j);
    exist = λ j lt q. ground (arith, table, inv.exist j);
    fits = λ j le. ground (arith, table, inv.fits j);
    joins = λ j lt. rw table (done j lt);
    none_gone = λ j w. rw table (going j w);
    worker_mutex = λ j. ground (arith, inv.worker_mutex j, mutex j);
    main_mutex = main_mutex;
    counts = rw table counts;
  }
