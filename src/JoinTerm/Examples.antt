-- ===== src/JoinTerm/Examples.antt =====
-- Runs of thread_joinTerm.c.
use linux_unix_system_progra.Prelude.{
  ◌<◌, ◌≤◌, Run, no_step, one_more, ◌≡◌, refl, false, arith, tally,
}
use linux_unix_system_progra.JoinTerm.Defs.{
  thread_num, System, WorkerStep, JoinerStep, MainStep, Step, by_thread, by_joining, by_main,
  spurious, woken, joined, gone, start, Reach, here, next,
}
use linux_unix_system_progra.JoinTerm.Invariant.{count_joined}
use linux_unix_system_progra.JoinTerm.Safety.{has_terminated, counters, all_joined}
use linux_unix_system_progra.JoinTerm.Termination.{wakeups, few_steps}
use linux_unix_system_progra.JoinTerm.Progress.{CanMove, never_stuck}

-- A reachable state, with its path.
record Trail : Type 0 where
  last : System
  open last use *
  path : Reach last

abbrev go : (r : Trail) {t : System} → Step r.last t → Trail
go r {t} m = record { last = t; path = next r.path m }

abbrev create_next : (r : Trail) → r.last.created < thread_num → r.last.stopped ≡ false → Trail
create_next r lt q = go r (by_main q (MainStep.create lt refl))

-- `main` has created two threads, and thread 0 has taken the mutex.
abbrev two_created : Trail
two_created =
    create_next (create_next (record { last = start; path = here }) (omega arith) refl)
      (omega arith) refl

abbrev zero_inside : Trail
zero_inside =
    go (go two_created (by_thread 0 (omega arith) refl (WorkerStep.begin refl refl)))
      (by_thread 0 (omega arith) refl (WorkerStep.lock refl refl refl))

never_stuck_example : CanMove zero_inside.last
never_stuck_example = never_stuck zero_inside.path

-- All threads are created, each runs to its end, and the joining thread joins them in one pass.
abbrev created_3 : Trail
created_3 = create_next two_created (omega arith) refl

abbrev created_4 : Trail
created_4 = create_next created_3 (omega arith) refl

abbrev all_created : Trail
all_created = create_next created_4 (omega arith) refl

abbrev gone_0 : Trail
gone_0 =
    go
      (go
        (go
          (go
            (go (go all_created (by_thread 0 (omega arith) refl (WorkerStep.begin refl refl)))
              (by_thread 0 (omega arith) refl (WorkerStep.lock refl refl refl)))
            (by_thread 0 (omega arith) refl (WorkerStep.terminate refl refl)))
          (by_thread 0 (omega arith) refl (WorkerStep.count refl refl)))
        (by_thread 0 (omega arith) refl (WorkerStep.unlock refl refl)))
      (by_thread 0 (omega arith) refl (WorkerStep.signal refl refl))

abbrev gone_1 : Trail
gone_1 =
    go
      (go
        (go
          (go
            (go (go gone_0 (by_thread 1 (omega arith) refl (WorkerStep.begin refl refl)))
              (by_thread 1 (omega arith) refl (WorkerStep.lock refl refl refl)))
            (by_thread 1 (omega arith) refl (WorkerStep.terminate refl refl)))
          (by_thread 1 (omega arith) refl (WorkerStep.count refl refl)))
        (by_thread 1 (omega arith) refl (WorkerStep.unlock refl refl)))
      (by_thread 1 (omega arith) refl (WorkerStep.signal refl refl))

abbrev gone_2 : Trail
gone_2 =
    go
      (go
        (go
          (go
            (go (go gone_1 (by_thread 2 (omega arith) refl (WorkerStep.begin refl refl)))
              (by_thread 2 (omega arith) refl (WorkerStep.lock refl refl refl)))
            (by_thread 2 (omega arith) refl (WorkerStep.terminate refl refl)))
          (by_thread 2 (omega arith) refl (WorkerStep.count refl refl)))
        (by_thread 2 (omega arith) refl (WorkerStep.unlock refl refl)))
      (by_thread 2 (omega arith) refl (WorkerStep.signal refl refl))

abbrev gone_3 : Trail
gone_3 =
    go
      (go
        (go
          (go
            (go (go gone_2 (by_thread 3 (omega arith) refl (WorkerStep.begin refl refl)))
              (by_thread 3 (omega arith) refl (WorkerStep.lock refl refl refl)))
            (by_thread 3 (omega arith) refl (WorkerStep.terminate refl refl)))
          (by_thread 3 (omega arith) refl (WorkerStep.count refl refl)))
        (by_thread 3 (omega arith) refl (WorkerStep.unlock refl refl)))
      (by_thread 3 (omega arith) refl (WorkerStep.signal refl refl))

abbrev gone_4 : Trail
gone_4 =
    go
      (go
        (go
          (go
            (go (go gone_3 (by_thread 4 (omega arith) refl (WorkerStep.begin refl refl)))
              (by_thread 4 (omega arith) refl (WorkerStep.lock refl refl refl)))
            (by_thread 4 (omega arith) refl (WorkerStep.terminate refl refl)))
          (by_thread 4 (omega arith) refl (WorkerStep.count refl refl)))
        (by_thread 4 (omega arith) refl (WorkerStep.unlock refl refl)))
      (by_thread 4 (omega arith) refl (WorkerStep.signal refl refl))

abbrev joining : (r : Trail) {t : System} → r.last.stopped ≡ false → JoinerStep r.last t → Trail
joining r q m = go r (by_joining q m)

abbrev scanning_0 : Trail
scanning_0 =
    joining
      (joining (joining gone_4 refl (JoinerStep.begin refl (λ e. omega arith) refl)) refl
        (JoinerStep.lock refl refl refl))
      refl (JoinerStep.scan refl (λ e. omega arith) refl)

abbrev scanning_1 : Trail
scanning_1 =
    joining
      (joining (joining scanning_0 refl (JoinerStep.join 0 refl (omega arith) refl refl refl)) refl
        (JoinerStep.take 0 refl refl))
      refl (JoinerStep.add 0 refl refl)

abbrev scanning_2 : Trail
scanning_2 =
    joining
      (joining (joining scanning_1 refl (JoinerStep.join 1 refl (omega arith) refl refl refl)) refl
        (JoinerStep.take 1 refl refl))
      refl (JoinerStep.add 1 refl refl)

abbrev scanning_3 : Trail
scanning_3 =
    joining
      (joining (joining scanning_2 refl (JoinerStep.join 2 refl (omega arith) refl refl refl)) refl
        (JoinerStep.take 2 refl refl))
      refl (JoinerStep.add 2 refl refl)

abbrev scanning_4 : Trail
scanning_4 =
    joining
      (joining (joining scanning_3 refl (JoinerStep.join 3 refl (omega arith) refl refl refl)) refl
        (JoinerStep.take 3 refl refl))
      refl (JoinerStep.add 3 refl refl)

abbrev scanning_5 : Trail
scanning_5 =
    joining
      (joining (joining scanning_4 refl (JoinerStep.join 4 refl (omega arith) refl refl refl)) refl
        (JoinerStep.take 4 refl refl))
      refl (JoinerStep.add 4 refl refl)

abbrev at_end : Trail
at_end =
    joining
      (joining (joining scanning_5 refl (JoinerStep.scanned 5 refl (omega arith) refl)) refl
        (JoinerStep.unlock refl refl))
      refl (JoinerStep.return refl refl refl)

counters_example :
    (gone_0.last.term_num ≡ tally has_terminated thread_num gone_0.last.table)
    × (gone_0.last.joined_num ≡ tally count_joined thread_num gone_0.last.table)
counters_example = counters gone_0.path refl

all_joined_example : ((at_end.last.table 3).status ≡ joined) × ((at_end.last.table 3).worker ≡ gone)
all_joined_example = all_joined at_end.path refl 3 (omega arith)

-- The joining thread waits, and is woken with no signal.
abbrev woken_early : System
woken_early = record start { joiner = woken }

woken_early-Run : Run Step wakeups start 4 1 woken_early
woken_early-Run =
    one_more
      (one_more
        (one_more
          (one_more no_step (by_joining refl (JoinerStep.begin refl (λ e. omega arith) refl)))
          (by_joining refl (JoinerStep.lock refl refl refl)))
        (by_joining refl (JoinerStep.wait refl refl refl)))
      (spurious refl refl refl)

few_steps_example : 4 ≤ 224
few_steps_example = few_steps 4 1 woken_early-Run
