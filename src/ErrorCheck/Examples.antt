-- ===== src/ErrorCheck/Examples.antt =====
-- A run of t_pthread_mutexattr.c.
use linux_unix_system_progra.Prelude.{◌≡◌, refl, some, arith}
use linux_unix_system_progra.ErrorCheck.Defs.{
  first, held_by, System, MainStep, ThreadStep, Step, of_thread, of_main, start, Reach, here, next,
  eperm,
}
use linux_unix_system_progra.ErrorCheck.Safety.{left_locked}

record Run : Type 0 where
  last : System
  path : Reach last

abbrev go : (r : Run) {t : System} → Step r.last t → Run
go r {t} m = record { last = t; path = next r.path m }

abbrev initial : Run
initial = record { last = start; path = here }

abbrev created : Run
created =
    go
      (go
        (go
          (go (go initial (of_main refl (MainStep.init_attr refl refl)))
            (of_main refl (MainStep.set_type refl refl)))
          (of_main refl (MainStep.init_mutex refl refl)))
        (of_main refl (MainStep.create_thr1 refl refl)))
      (of_main refl (MainStep.create_thr2 refl refl))

abbrev locked : Run
locked =
    go (go created (of_thread refl (ThreadStep.wake_thr1 refl refl)))
      (of_thread refl (ThreadStep.lock refl refl refl))

abbrev refused : Run
refused =
    go (go locked (of_thread refl (ThreadStep.wake_thr2 refl refl)))
      (of_thread refl (ThreadStep.refuse refl (ground arith) refl))

abbrev at_end : Run
at_end =
    go (go refused (of_main refl (MainStep.join_thr1 refl refl refl)))
      (of_main refl (MainStep.join_thr2 refl refl refl))

left_locked_example : (at_end.last.owner ≡ held_by first) × (at_end.last.answer ≡ some eperm)
left_locked_example = left_locked at_end.path refl
