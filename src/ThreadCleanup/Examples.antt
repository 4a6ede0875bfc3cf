-- ===== src/ThreadCleanup/Examples.antt =====
-- A run of t_thread_cleanup.c with no argument.
use linux_unix_system_progra.Prelude.{◌≡◌, refl, ◌⊎◌, true, false}
use linux_unix_system_progra.ThreadCleanup.Defs.{
  ended_early, System, running, ThreadStep, MainStep, of_thread, of_main, start, Reach, here, next,
}
use linux_unix_system_progra.ThreadCleanup.Cleaning.{cleaned_up}

record Run : Type 0 where
  last : System
  path : Reach true last

abbrev by_thread : (r : Run) {t : System} → running r.last.main ≡ true → ThreadStep r.last t → Run
by_thread r {t} e m = record { last = t; path = next r.path (of_thread e m) }

abbrev by_main : (r : Run) {t : System} → running r.last.main ≡ true → MainStep true r.last t → Run
by_main r {t} e m = record { last = t; path = next r.path (of_main e m) }

abbrev inside : Run
inside =
    by_thread
      (by_thread
        (by_thread
          (by_thread
            (by_main (record { last = start; path = here }) refl (MainStep.create refl refl)) refl
            (ThreadStep.allocate refl refl))
          refl (ThreadStep.tell refl refl))
        refl (ThreadStep.lock refl refl refl))
      refl (ThreadStep.push refl refl)

-- The thread is cancelled while it waits.
abbrev stopped : Run
stopped =
    by_thread
      (by_thread
        (by_main (by_thread inside refl (ThreadStep.wait refl refl refl)) refl
          (MainStep.cancel refl refl refl))
        refl (ThreadStep.stop_waiting refl refl refl))
      refl (ThreadStep.relock_cancelled refl refl refl)

abbrev reported : Run
reported =
    by_main
      (by_thread (by_thread stopped refl (ThreadStep.release true refl refl)) refl
        (ThreadStep.unlock true refl refl))
      refl (MainStep.join true refl refl refl)

cleaned_up_example :
    (true ≡ true)
    × (reported.last.locked ≡ false)
    × (reported.last.allocated ≡ 1)
    × ((reported.last.freed ≡ 1)
        ⊎ ((reported.last.thread ≡ ended_early) × (reported.last.freed ≡ 0)))
cleaned_up_example = cleaned_up true reported.path refl
