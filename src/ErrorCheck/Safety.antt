-- ===== src/ErrorCheck/Safety.antt =====
-- t_pthread_mutexattr.c: only a thread that never unlocks the mutex owns it.
use linux_unix_system_progra.Prelude.{
  ℕ, ◌≡◌, refl, Bool, true, false, not, Option, none, some, arith,
}
use linux_unix_system_progra.ErrorCheck.Defs.{
  Thread, unborn, sleeping, calling, returned, Main, attr_init, attr_settype, mutex_init,
  create_first, create_second, join_first, join_second, exited, first, Owner, nobody, held_by,
  System, running, MainStep, ThreadStep, Step, of_thread, of_main, error, Reach, here, next, eperm,
}

abbrev pub owner_after : Thread → Owner
owner_after unborn = nobody
owner_after sleeping = nobody
owner_after calling = nobody
owner_after returned = held_by first

abbrev pub answer_after : Thread → Option ℕ
answer_after unborn = none
answer_after sleeping = none
answer_after calling = none
answer_after returned = some eperm

abbrev pub is_unborn : Thread → Bool
is_unborn unborn = true
is_unborn sleeping = false
is_unborn calling = false
is_unborn returned = false

abbrev pub has_returned : Thread → Bool
has_returned unborn = false
has_returned sleeping = false
has_returned calling = false
has_returned returned = true

-- What the place of `main` says of the first and of the second thread.
abbrev pub fits_first : Main → Thread → Bool
fits_first attr_init x = is_unborn x
fits_first attr_settype x = is_unborn x
fits_first mutex_init x = is_unborn x
fits_first create_first x = is_unborn x
fits_first create_second x = not (is_unborn x)
fits_first join_first x = not (is_unborn x)
fits_first join_second x = has_returned x
fits_first (exited true) x = has_returned x
fits_first (exited false) x = true

abbrev pub fits_second : Main → Thread → Bool
fits_second attr_init x = is_unborn x
fits_second attr_settype x = is_unborn x
fits_second mutex_init x = is_unborn x
fits_second create_first x = is_unborn x
fits_second create_second x = is_unborn x
fits_second join_first x = not (is_unborn x)
fits_second join_second x = not (is_unborn x)
fits_second (exited true) x = has_returned x
fits_second (exited false) x = true

-- The mutex is free until func1 has returned, and func2 is refused.
abbrev pub Inv : System → Type 0
Inv s =
    (s.owner ≡ owner_after s.thr1)
    × (s.answer ≡ answer_after s.thr2)
    × (fits_first s.main s.thr1 ≡ true)
    × (fits_second s.main s.thr2 ≡ true)

Thread-Inv : (s t : System) → ThreadStep s t → running s.main ≡ true → Inv s → Inv t
Thread-Inv s t (ThreadStep.wake_thr1 a q) run inv = ground (arith, q, inv)
Thread-Inv s t (ThreadStep.wake_thr2 a q) run inv = ground (arith, q, inv)
Thread-Inv s t (ThreadStep.lock a b q) run inv = ground (arith, q, inv)
Thread-Inv s t (ThreadStep.relock a b q) run inv = ground (arith, q, inv)
Thread-Inv s t (ThreadStep.unlock a b q) run inv = ground (arith, q, inv)
Thread-Inv s t (ThreadStep.refuse a b q) run inv = ground (arith, q, inv)

Main-Inv : (s t : System) → MainStep s t → running s.main ≡ true → Inv s → Inv t
Main-Inv s t (MainStep.init_attr a q) run inv = ground (arith, q, inv)
Main-Inv s t (MainStep.set_type a q) run inv = ground (arith, q, inv)
Main-Inv s t (MainStep.init_mutex a q) run inv = ground (arith, q, inv)
Main-Inv s t (MainStep.create_thr1 a q) run inv = ground (arith, q, inv)
Main-Inv s t (MainStep.create_thr2 a q) run inv = ground (arith, q, inv)
Main-Inv s t (MainStep.join_thr1 a b q) run inv = ground (arith, q, inv)
Main-Inv s t (MainStep.join_thr2 a b q) run inv = ground (arith, q, inv)

Step-Inv : (s t : System) → Step s t → Inv s → Inv t
Step-Inv s t (of_thread run m) inv = Thread-Inv s t m run inv
Step-Inv s t (of_main run m) inv = Main-Inv s t m run inv
Step-Inv s t (error c q) inv = ground (arith, q, inv)

pub Reach-Inv : {s : System} → Reach s → Inv s
Reach-Inv here = (refl, refl, refl, refl)
Reach-Inv (next {s} {t} r m) = Step-Inv s t m (Reach-Inv r)

-- When the program ends with success, the mutex is still locked, by the thread of func1, and the
-- unlock of func2 was refused.
pub left_locked :
    {s : System}
    → Reach s
    → s.main ≡ exited true
    → (s.owner ≡ held_by first) × (s.answer ≡ some eperm)
left_locked {s} r e = let inv = Reach-Inv r in ground (arith, inv)
