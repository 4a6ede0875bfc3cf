-- ===== src/ErrorCheck/Progress.antt =====
-- t_pthread_mutexattr.c: no call blocks for ever.
use linux_unix_system_progra.Prelude.{◌≡◌, ◌⊎◌, inl, inr, refl, true, arith}
use linux_unix_system_progra.ErrorCheck.Defs.{
  Thread, unborn, sleeping, calling, returned, Main, attr_init, attr_settype, mutex_init,
  create_first, create_second, join_first, join_second, exited, System, running, MainStep,
  ThreadStep, Reach,
}
use linux_unix_system_progra.ErrorCheck.Safety.{Inv, Reach-Inv}

-- A thread or `main` has a next step, with no error.
unfoldable pub Moves : System → Type 0
Moves s = (t : System) × ((ThreadStep s t) ⊎ (MainStep s t))

-- While `main` waits for the first thread.
first_moves : (s : System) (x : Thread) → Inv s → s.thr1 ≡ x → s.main ≡ join_first → Moves s
unfolding Moves
first_moves s unborn inv e m = absurd (ground (arith, inv))
first_moves s sleeping inv e m = (_, inl (ThreadStep.wake_thr1 e refl))
first_moves s calling inv e m = (_, inl (ThreadStep.lock e (ground (arith, inv)) refl))
first_moves s returned inv e m = (_, inr (MainStep.join_thr1 m e refl))

second_moves : (s : System) (x : Thread) → Inv s → s.thr2 ≡ x → s.main ≡ join_second → Moves s
unfolding Moves
second_moves s unborn inv e m = absurd (ground (arith, inv))
second_moves s sleeping inv e m = (_, inl (ThreadStep.wake_thr2 e refl))
second_moves s calling inv e m = (_, inl (ThreadStep.refuse e (ground (arith, inv)) refl))
second_moves s returned inv e m = (_, inr (MainStep.join_thr2 m e refl))

main_moves : (s : System) (m : Main) → Inv s → s.main ≡ m → running m ≡ true → Moves s
unfolding Moves
main_moves s attr_init inv e run = (_, inr (MainStep.init_attr e refl))
main_moves s attr_settype inv e run = (_, inr (MainStep.set_type e refl))
main_moves s mutex_init inv e run = (_, inr (MainStep.init_mutex e refl))
main_moves s create_first inv e run = (_, inr (MainStep.create_thr1 e refl))
main_moves s create_second inv e run = (_, inr (MainStep.create_thr2 e refl))
main_moves s join_first inv e run = first_moves s s.thr1 inv refl e
main_moves s join_second inv e run = second_moves s s.thr2 inv refl e
main_moves s (exited b) inv e run = absurd (ground (arith, run))

-- As long as the program runs, a thread or `main` has a next step with no error.
pub moves : {s : System} → Reach s → running s.main ≡ true → Moves s
moves {s} r run = main_moves s s.main (Reach-Inv r) refl run
