-- ===== src/JoinTerm/Preserved.antt =====
-- thread_joinTerm.c: the steps and the invariant.
use linux_unix_system_progra.Prelude.{
  ℕ, ◌+◌, ◌<◌, ◌≡◌, ◌≢◌, refl, update, arith, tally, tally-update, tally-ge, tally-const,
}
use linux_unix_system_progra.JoinTerm.Defs.{
  thread_num, alive, terminated, joined, unborn, starting, sleeping, inside, counting, unlocking,
  signalling, gone, Entry, System, WorkerStep, JoinerStep, MainStep, Step, by_thread, by_joining,
  by_main, spurious, error, start, Reach, here, next,
}
use linux_unix_system_progra.JoinTerm.Invariant.{
  count_terminated, count_joined, count_pending, Fits, worker_inside, joiner_inside, worker_owns,
  joiner_owns, AtJoiner, owed_term, owed_joined, Inv,
}

-- One entry changes from `s` to `t`.
module _ (s t : System) (i : ℕ) (e : Entry) (lt : i < thread_num) (inv : Inv s)
    (table : t.table ≡ update s.table i e) where
  terminated_update :
      t.term_num + count_terminated (s.table i) + owed_term s.joiner
        ≡ s.term_num + count_terminated e + owed_term t.joiner
      → t.term_num ≡ tally count_terminated thread_num t.table + owed_term t.joiner
  terminated_update h =
      rw table (
        omega
          (arith, inv.terminated_count, tally-update count_terminated thread_num s.table i e lt))

  joined_update :
      t.joined_num + count_joined (s.table i) + owed_joined t.joiner
        ≡ s.joined_num + count_joined e + owed_joined s.joiner
      → t.joined_num + owed_joined t.joiner ≡ tally count_joined thread_num t.table
  joined_update h =
      rw table
        (omega (arith, inv.joined_count, tally-update count_joined thread_num s.table i e lt))

  pending_update :
      tally count_pending thread_num t.table + count_pending (s.table i)
      ≡ tally count_pending thread_num s.table + count_pending e
  pending_update = rw table (tally-update count_pending thread_num s.table i e lt)

  -- A thread that exists moves.
  Inv-update :
      t.created ≡ s.created
      → (s.table i).worker ≢ unborn
      → e.worker ≢ unborn
      → Fits e.worker e.status
      → ((j : ℕ) → worker_owns j t.owner ≡ worker_inside (update s.table i e j).worker)
      → joiner_owns t.owner ≡ joiner_inside t.joiner
      → t.term_num + count_terminated (s.table i) + owed_term s.joiner
        ≡ s.term_num + count_terminated e + owed_term t.joiner
      → t.joined_num + count_joined (s.table i) + owed_joined t.joiner
        ≡ s.joined_num + count_joined e + owed_joined s.joiner
      → AtJoiner t.joiner t.term_num t.joined_num (tally count_pending thread_num t.table)
      → Inv t
  Inv-update created exists exists' fit mutex joining terms joins at_joiner = record {
    few = ground (arith, inv.few);
    born = λ j le. ground (arith, table, inv.born j, inv.born i);
    exist = λ j lt u. ground (arith, table, inv.exist j);
    fits = λ j. ground (arith, table, inv.fits j);
    worker_mutex = λ j. rw table (mutex j);
    joiner_mutex = joining;
    terminated_count = terminated_update terms;
    joined_count = joined_update joins;
    at_joiner = at_joiner;
  }

Worker-Inv : (i : ℕ) (s t : System) → i < thread_num → WorkerStep i s t → Inv s → Inv t
Worker-Inv i s t lt (WorkerStep.begin a q) inv =
    let e : Entry = record { status = alive; worker = sleeping } in
    Inv-update s t i e lt inv (ground arith) (ground arith) (λ u. ground arith) (λ u. ground arith)
      (ground (arith, inv.fits i)) (λ j. ground (arith, inv.worker_mutex j, inv.worker_mutex i))
      (ground (arith, inv.worker_mutex i)) (ground (arith, inv.fits i)) (ground (arith, inv.fits i))
      (ground (arith, pending_update s t i e lt inv (ground arith)))
Worker-Inv i s t lt (WorkerStep.lock a b q) inv =
    let e : Entry = record (s.table i) { worker = inside } in
    Inv-update s t i e lt inv (ground arith) (ground arith) (λ u. ground arith) (λ u. ground arith)
      (ground (arith, inv.fits i)) (λ j. ground (arith, inv.worker_mutex j, inv.worker_mutex i))
      (ground (arith, inv.worker_mutex i)) (ground (arith, inv.fits i)) (ground (arith, inv.fits i))
      (ground (arith, pending_update s t i e lt inv (ground arith)))
Worker-Inv i s t lt (WorkerStep.terminate a q) inv =
    let e : Entry = record { status = terminated; worker = counting } in
    Inv-update s t i e lt inv (ground arith) (ground arith) (λ u. ground arith) (λ u. ground arith)
      (ground (arith, inv.fits i)) (λ j. ground (arith, inv.worker_mutex j, inv.worker_mutex i))
      (ground (arith, inv.worker_mutex i)) (ground (arith, inv.fits i)) (ground (arith, inv.fits i))
      (ground (arith, pending_update s t i e lt inv (ground arith)))
Worker-Inv i s t lt (WorkerStep.count a q) inv =
    let e : Entry = record (s.table i) { worker = unlocking } in
    Inv-update s t i e lt inv (ground arith) (ground arith) (λ u. ground arith) (λ u. ground arith)
      (ground (arith, inv.fits i)) (λ j. ground (arith, inv.worker_mutex j, inv.worker_mutex i))
      (ground (arith, inv.worker_mutex i)) (ground (arith, inv.fits i)) (ground (arith, inv.fits i))
      (ground (arith, pending_update s t i e lt inv (ground arith)))
Worker-Inv i s t lt (WorkerStep.unlock a q) inv =
    let e : Entry = record (s.table i) { worker = signalling } in
    Inv-update s t i e lt inv (ground arith) (ground arith) (λ u. ground arith) (λ u. ground arith)
      (ground (arith, inv.fits i)) (λ j. ground (arith, inv.worker_mutex j, inv.worker_mutex i))
      (ground (arith, inv.worker_mutex i)) (ground (arith, inv.fits i)) (ground (arith, inv.fits i))
      (ground (arith, pending_update s t i e lt inv (ground arith)))
Worker-Inv i s t lt (WorkerStep.signal a q) inv =
    let e : Entry = record (s.table i) { worker = gone } in
    Inv-update s t i e lt inv (ground arith) (ground arith) (λ u. ground arith) (λ u. ground arith)
      (ground (arith, inv.fits i)) (λ j. ground (arith, inv.worker_mutex j, inv.worker_mutex i))
      (ground (arith, inv.worker_mutex i)) (ground (arith, inv.fits i)) (ground (arith, inv.fits i))
      (ground (arith, pending_update s t i e lt inv (ground arith)))

-- Only the joining thread and the owner change.
Inv-move :
    (s t : System)
    → Inv s
    → t.table ≡ s.table
    → t.created ≡ s.created
    → t.term_num + owed_term s.joiner ≡ s.term_num + owed_term t.joiner
    → t.joined_num + owed_joined t.joiner ≡ s.joined_num + owed_joined s.joiner
    → ((j : ℕ) → worker_owns j t.owner ≡ worker_owns j s.owner)
    → joiner_owns t.owner ≡ joiner_inside t.joiner
    → AtJoiner t.joiner t.term_num t.joined_num (tally count_pending thread_num s.table)
    → Inv t
Inv-move s t inv table created terms joins mutex joining at_joiner = record {
  few = ground (arith, inv.few);
  born = λ j le. ground (arith, inv.born j);
  exist = λ j lt u. ground (arith, inv.exist j);
  fits = λ j. ground (arith, inv.fits j);
  worker_mutex = λ j. ground (arith, inv.worker_mutex j, mutex j);
  joiner_mutex = joining;
  terminated_count = rw table (omega (arith, inv.terminated_count, terms));
  joined_count = rw table (omega (arith, inv.joined_count, joins));
  at_joiner = rw table at_joiner;
}

Joiner-Inv : (s t : System) → JoinerStep s t → Inv s → Inv t
Joiner-Inv s t (JoinerStep.join idx a lt b c q) inv =
    let e : Entry = record (s.table idx) { status = joined } in
    Inv-update s t idx e lt inv (ground arith) (ground arith) (λ u. ground arith)
      (λ u. ground arith) (ground arith) (λ j. ground (arith, inv.worker_mutex j)) (ground arith)
      (ground (arith, tally-ge count_terminated thread_num s.table idx lt)) (ground arith)
      (ground (arith, inv.terminated_count, tally-ge count_terminated thread_num s.table idx lt))
Joiner-Inv s t (JoinerStep.take idx a q) inv =
    Inv-move s t inv (ground arith) (ground arith) (ground arith) (ground arith) (λ j. ground arith)
      (ground arith) (ground arith)
Joiner-Inv s t (JoinerStep.add idx a q) inv =
    Inv-move s t inv (ground arith) (ground arith) (ground arith) (ground arith) (λ j. ground arith)
      (ground arith) (ground arith)
Joiner-Inv s t (JoinerStep.begin a b q) inv =
    Inv-move s t inv (ground arith) (ground arith) (ground arith) (ground arith) (λ j. ground arith)
      (ground arith) (ground arith)
Joiner-Inv s t (JoinerStep.return a b q) inv =
    Inv-move s t inv (ground arith) (ground arith) (ground arith) (ground arith) (λ j. ground arith)
      (ground arith) (ground arith)
Joiner-Inv s t (JoinerStep.lock a b q) inv =
    Inv-move s t inv (ground arith) (ground arith) (ground arith) (ground arith) (λ j. ground arith)
      (ground arith) (ground arith)
Joiner-Inv s t (JoinerStep.wait a b q) inv =
    Inv-move s t inv (ground arith) (ground arith) (ground arith) (ground arith) (λ j. ground arith)
      (ground arith) (ground arith)
Joiner-Inv s t (JoinerStep.relock a b q) inv =
    Inv-move s t inv (ground arith) (ground arith) (ground arith) (ground arith) (λ j. ground arith)
      (ground arith) (ground arith)
Joiner-Inv s t (JoinerStep.scan a b q) inv =
    Inv-move s t inv (ground arith) (ground arith) (ground arith) (ground arith) (λ j. ground arith)
      (ground arith) (ground arith)
Joiner-Inv s t (JoinerStep.pass idx a lt b q) inv =
    Inv-move s t inv (ground arith) (ground arith) (ground arith) (ground arith) (λ j. ground arith)
      (ground arith) (ground arith)
Joiner-Inv s t (JoinerStep.scanned idx a lt q) inv =
    Inv-move s t inv (ground arith) (ground arith) (ground arith) (ground arith) (λ j. ground arith)
      (ground arith) (ground arith)
Joiner-Inv s t (JoinerStep.unlock a q) inv =
    Inv-move s t inv (ground arith) (ground arith) (ground arith) (ground arith) (λ j. ground arith)
      (ground arith) (ground arith)

Main-Inv : (s t : System) → MainStep s t → Inv s → Inv t
Main-Inv s t (MainStep.create lt q) inv =
    let i : ℕ = s.created in
    let e : Entry = record (s.table i) { worker = starting } in
    let table : t.table ≡ update s.table i e = ground arith in
    let unborn_here : (s.table i).worker ≡ unborn = inv.born i (omega arith) in
    record {
      few = ground arith;
      born = λ j le. ground (arith, inv.born j);
      exist = λ j lt u. ground (arith, inv.exist j);
      fits = λ j. ground (arith, inv.fits j, inv.fits i);
      worker_mutex = λ j. ground (arith, inv.worker_mutex j, inv.worker_mutex i);
      joiner_mutex = ground arith;
      terminated_count = terminated_update s t i e lt inv table (ground (arith, inv.fits i));
      joined_count = joined_update s t i e lt inv table (ground (arith, inv.fits i));
      at_joiner = ground (arith, pending_update s t i e lt inv table);
    }
Main-Inv s t (MainStep.finish a b q) inv =
    Inv-move s t inv (ground arith) (ground arith) (ground arith) (ground arith) (λ j. ground arith)
      (ground arith) (ground arith)

pub Step-Inv : (s t : System) → Step s t → Inv s → Inv t
Step-Inv s t (by_thread i lt r m) inv = Worker-Inv i s t lt m inv
Step-Inv s t (by_joining r m) inv = Joiner-Inv s t m inv
Step-Inv s t (by_main r m) inv = Main-Inv s t m inv
Step-Inv s t (spurious r a q) inv =
    Inv-move s t inv (ground arith) (ground arith) (ground arith) (ground arith) (λ j. ground arith)
      (ground arith) (ground arith)
Step-Inv s t (error r q) inv =
    Inv-move s t inv (ground arith) (ground arith) (ground arith) (ground arith) (λ j. ground arith)
      (ground arith) (ground arith)

pub start-Inv : Inv start
start-Inv = record {
  few = omega arith;
  born = λ i le. refl;
  exist = λ i lt u. omega arith;
  fits = λ i. refl;
  worker_mutex = λ i. refl;
  joiner_mutex = refl;
  terminated_count = omega (arith, tally-const count_terminated 5 0 start.table (λ i lt. refl));
  joined_count = omega (arith, tally-const count_joined 5 0 start.table (λ i lt. refl));
  at_joiner = tt;
}

pub Reach-Inv : {s : System} → Reach s → Inv s
Reach-Inv here = start-Inv
Reach-Inv (next {s} {t} r m) = Step-Inv s t m (Reach-Inv r)
