-- ===== src/Cancel/Examples.antt =====
-- A run of t_pthread_cancel2.c.
use linux_unix_system_progra.Prelude.{Trail, begun, go, ℕ, ◌+◌, ◌*◌, ◌≤◌, ◌⊎◌, inr, refl}
use linux_unix_system_progra.Cancel.Defs.{
  beginning, System, ThreadStep, MainStep, Step, by_thread, by_main, start,
}
use linux_unix_system_progra.Cancel.Reports.{rounds, Moves, Over, run_reports}

abbrev second : (s t : System) → Step beginning s t → ℕ
second = rounds beginning (inr refl)

-- The thread makes one round, and is cancelled in its second one.
abbrev asleep : Trail (Step beginning) second start
asleep =
    go
      (go
        (go (go begun (by_main (MainStep.create refl refl)))
          (by_thread refl (ThreadStep.begin refl refl)))
        (by_thread refl (ThreadStep.print 1 refl refl)))
      (by_thread refl (ThreadStep.sleep 1 refl refl refl))

abbrev stopped : Trail (Step beginning) second start
stopped =
    go (go asleep (by_main (MainStep.cancel refl refl)))
      (by_thread refl (ThreadStep.stop_printing 2 refl refl refl))

run_reports_example :
    (stopped.steps ≤ 6 + 3 * stopped.apart)
    × (Moves beginning (inr refl) stopped.last ⊎ Over beginning (inr refl) stopped.last.main)
run_reports_example = run_reports beginning (inr refl) stopped.steps stopped.apart stopped.path
