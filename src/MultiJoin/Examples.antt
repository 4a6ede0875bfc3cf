-- ===== src/MultiJoin/Examples.antt =====
-- A run of thread_multijoin.c.
use linux_unix_system_progra.Prelude.{
  ◌+◌, ◌*◌, ◌≤◌, ◌⊎◌, Trail, begun, go, ℕ, ◌≡◌, refl, List, [], ◌∷◌, arith,
}
use linux_unix_system_progra.Prelude.Int.{ℤ, pos, negsuc, sub_ℕ}
use linux_unix_system_progra.MultiJoin.Threads.{
  start, exited, sleeping, WorkerStep, MainStep, Step, by_thread, by_main,
}
use linux_unix_system_progra.MultiJoin.Threads.Measure.{wakeups}
use linux_unix_system_progra.MultiJoin.Threads.Ends.{CanMove, Over, runs_end}
use linux_unix_system_progra.MultiJoin.Defs.{
  joined, ends, terminate, create, succeeded, join_if_terminated, join_pass, join_loop,
}
use linux_unix_system_progra.MultiJoin.FirstPass.{
  terminated_from, mark_joined, after, first_pass_ends,
}

-- Three threads, of which only the second has terminated when `main` wakes up.
abbrev three : List ℤ
three = pos 9 ∷ pos 1 ∷ negsuc 4 ∷ []

abbrev every_join : ℕ → ℕ
every_join i = 0

first_pass_ends_example :
    join_loop every_join (ends (1 ∷ []) ∷ ends (0 ∷ 2 ∷ []) ∷ []) (create three)
    ≡ succeeded (record {
      thread = mark_joined (after three (1 ∷ []));
      num_live = pos 0;
      num_unjoined = sub_ℕ 1 3;
      calls = terminated_from 0 (after three (1 ∷ []));
    })
first_pass_ends_example =
    first_pass_ends every_join three (1 ∷ []) (ends (0 ∷ 2 ∷ []) ∷ []) (λ i. refl) (omega arith)
      (omega arith)

one_joined :
    join_loop every_join (ends (1 ∷ []) ∷ []) (create three)
    ≡ succeeded (record {
      thread =
          record { state = joined; sleep_time = 9 }
          ∷ record { state = joined; sleep_time = 1 }
          ∷ record { state = joined; sleep_time = 5 }
          ∷ [];
      num_live = pos 0;
      num_unjoined = negsuc 1;
      calls = 1 ∷ [];
    })
unfolding join_loop create terminate join_pass join_if_terminated
one_joined = refl

-- Two threads: `main` waits, the first one terminates, and `main` ends while the second one sleeps.
abbrev main_waits : Trail (Step 2) (wakeups 2) start
main_waits =
    go
      (go
        (go
          (go
            (go (go begun (by_main (MainStep.create 0 refl (omega arith) refl)))
              (by_main (MainStep.create 1 refl (omega arith) refl)))
            (by_main (MainStep.all_created 2 refl (λ h. omega arith) refl)))
          (by_main (MainStep.enter refl refl refl)))
        (by_main (MainStep.lock refl refl refl)))
      (by_main (MainStep.wait refl refl refl))

abbrev one_gone : Trail (Step 2) (wakeups 2) start
one_gone =
    go
      (go
        (go (go main_waits (by_thread 0 (omega arith) refl (WorkerStep.lock refl refl refl)))
          (by_thread 0 (omega arith) refl (WorkerStep.terminate refl refl)))
        (by_thread 0 (omega arith) refl (WorkerStep.unlock refl refl)))
      (by_thread 0 (omega arith) refl (WorkerStep.signal refl refl))

abbrev one_passed : Trail (Step 2) (wakeups 2) start
one_passed =
    go
      (go (go one_gone (by_main (MainStep.relock refl refl refl)))
        (by_main (MainStep.begin refl refl refl)))
      (by_main (MainStep.join 0 refl (omega arith) refl refl refl))

abbrev all_passed : Trail (Step 2) (wakeups 2) start
all_passed =
    go
      (go
        (go
          (go one_passed
            (by_main (MainStep.skip 1 refl (omega arith) (λ e. ground (arith, e)) refl)))
          (by_main (MainStep.passed 2 refl (λ h. omega arith) refl)))
        (by_main (MainStep.unlock refl refl)))
      (by_main (MainStep.exit refl refl refl))

second_sleeps : (all_passed.last.main ≡ exited) × ((all_passed.last.thread 1).worker ≡ sleeping)
second_sleeps = (refl, refl)

runs_end_example :
    (all_passed.steps ≤ 8 * 2 + 9 + 3 * all_passed.apart)
    × (CanMove 2 all_passed.last ⊎ Over 2 all_passed.last)
runs_end_example = runs_end 2 all_passed.steps all_passed.apart all_passed.path
