-- ===== src/ThreadCleanup/Progress.antt =====
-- t_thread_cleanup.c: which of `main` and the thread has a next step.
use linux_unix_system_progra.Prelude.{
  ℕ, zero, suc, ◌≡◌, refl, ◌⊎◌, inl, inr, Bool, true, false, arith,
}
use linux_unix_system_progra.ThreadCleanup.Defs.{
  Thread, unborn, allocating, telling, locking, pushing, testing, waiting, woken, cancelled,
  telling_end, freeing, unlocking, ended, ended_early, ended_inside, Main, creating, sleeping,
  setting, joining, joined, failed, System, running, ThreadStep, MainStep, of_thread, of_main,
  Reach, here, next,
}
use linux_unix_system_progra.ThreadCleanup.Cleaning.{Inv, Reach-Inv}

-- A step of the thread or of `main`, which is neither an error nor a wake-up with no signal.
pub data CanMove (c : Bool) (s : System) : Type 0 where
  thread_moves : (t : System) → ThreadStep s t → CanMove c s
  main_moves : (t : System) → MainStep c s t → CanMove c s

-- The thread sleeps, and nobody will signal it.
pub record Asleep (c : Bool) (s : System) : Type 0 where
  pub signals : c ≡ false
  pub thread_waits : s.thread ≡ waiting
  pub main_joins : s.main ≡ joining

testing_moves : (c : Bool) (s : System) (g : ℕ) → s.thread ≡ testing → s.glob ≡ g → CanMove c s
testing_moves c s zero e z = thread_moves _ (ThreadStep.wait e z refl)
testing_moves c s (suc g) e z = thread_moves _ (ThreadStep.pass e (λ h. ground arith) refl)

joining_moves :
    (c : Bool) (s : System) (th : Thread)
    → Inv c s
    → s.main ≡ joining
    → s.thread ≡ th
    → CanMove c s ⊎ Asleep c s
joining_moves c s unborn inv m e = absurd (ground (arith, inv.at_main))
joining_moves c s allocating inv m e = inl (thread_moves _ (ThreadStep.allocate e refl))
joining_moves c s telling inv m e = inl (thread_moves _ (ThreadStep.tell e refl))
joining_moves c s locking inv m e =
    inl (thread_moves _ (ThreadStep.lock e (ground (arith, inv.at_thread)) refl))
joining_moves c s pushing inv m e = inl (thread_moves _ (ThreadStep.push e refl))
joining_moves c s testing inv m e = inl (testing_moves c s s.glob e refl)
joining_moves true s waiting inv m e =
    inl (thread_moves _ (ThreadStep.stop_waiting e (ground (arith, inv.at_main)) refl))
joining_moves false s waiting inv m e =
    inr (record { signals = refl; thread_waits = e; main_joins = m })
joining_moves c s woken inv m e =
    inl (thread_moves _ (ThreadStep.relock e (ground (arith, inv.at_thread)) refl))
joining_moves c s cancelled inv m e =
    inl (thread_moves _ (ThreadStep.relock_cancelled e (ground (arith, inv.at_thread)) refl))
joining_moves c s telling_end inv m e = inl (thread_moves _ (ThreadStep.pop e refl))
joining_moves c s (freeing x) inv m e = inl (thread_moves _ (ThreadStep.release x e refl))
joining_moves c s (unlocking x) inv m e = inl (thread_moves _ (ThreadStep.unlock x e refl))
joining_moves c s (ended x) inv m e = inl (main_moves _ (MainStep.join x m e refl))
joining_moves c s ended_early inv m e = inl (main_moves _ (MainStep.join_early m e refl))
joining_moves c s ended_inside inv m e = inl (main_moves _ (MainStep.join_inside m e refl))

moves_at :
    (c : Bool) (s : System) (m : Main)
    → Inv c s
    → s.main ≡ m
    → running m ≡ true
    → CanMove c s ⊎ Asleep c s
moves_at c s creating inv e r = inl (main_moves _ (MainStep.create e refl))
moves_at true s sleeping inv e r = inl (main_moves _ (MainStep.cancel e refl refl))
moves_at false s sleeping inv e r = inl (main_moves _ (MainStep.signal e refl refl))
moves_at c s setting inv e r = inl (main_moves _ (MainStep.set e refl))
moves_at c s joining inv e r = joining_moves c s s.thread inv e refl
moves_at c s (joined x) inv e r = ground arith
moves_at c s failed inv e r = ground arith

-- As long as the process goes on, `main` or the thread has a next step, unless the program signals
-- and the thread sleeps while `main` waits for its end.
pub moves : {c : Bool} {s : System} → Reach c s → running s.main ≡ true → CanMove c s ⊎ Asleep c s
moves {c} {s} r go = moves_at c s s.main (Reach-Inv r) refl go

-- The thread waits again, after it has been woken before `glob` was set.
abbrev asleep : System
asleep = record {
  glob = 1;
  locked = false;
  allocated = 1;
  freed = 0;
  requested = false;
  thread = waiting;
  main = joining;
}

asleep-ThreadStep : (t : System) → ¬ ThreadStep asleep t
asleep-ThreadStep t (ThreadStep.allocate a q) = ground arith
asleep-ThreadStep t (ThreadStep.tell a q) = ground arith
asleep-ThreadStep t (ThreadStep.lock a b q) = ground arith
asleep-ThreadStep t (ThreadStep.push a q) = ground arith
asleep-ThreadStep t (ThreadStep.wait a b q) = ground arith
asleep-ThreadStep t (ThreadStep.relock a b q) = ground arith
asleep-ThreadStep t (ThreadStep.pass a b q) = ground arith
asleep-ThreadStep t (ThreadStep.pop a q) = ground arith
asleep-ThreadStep t (ThreadStep.release c a q) = ground arith
asleep-ThreadStep t (ThreadStep.unlock c a q) = ground arith
asleep-ThreadStep t (ThreadStep.stop_early a b q) = ground arith
asleep-ThreadStep t (ThreadStep.stop_waiting a b q) = ground arith
asleep-ThreadStep t (ThreadStep.stop_woken a b q) = ground arith
asleep-ThreadStep t (ThreadStep.relock_cancelled a b q) = ground arith
asleep-ThreadStep t (ThreadStep.stop_at_end a b q) = ground arith
asleep-ThreadStep t (ThreadStep.stop_freeing a b q) = ground arith
asleep-ThreadStep t (ThreadStep.stop_unlocking a b q) = ground arith

asleep-MainStep : (t : System) → ¬ MainStep false asleep t
asleep-MainStep t (MainStep.create a q) = ground arith
asleep-MainStep t (MainStep.cancel a b q) = ground arith
asleep-MainStep t (MainStep.signal a b q) = ground arith
asleep-MainStep t (MainStep.set a q) = ground arith
asleep-MainStep t (MainStep.join c a b q) = ground arith
asleep-MainStep t (MainStep.join_early a b q) = ground arith
asleep-MainStep t (MainStep.join_inside a b q) = ground arith

-- A state that can be reached with an argument: `glob` is set, but the thread sleeps, `main` waits
-- for its end, and neither has a step of its own.
pub lost_signal :
    (s : System) × Reach false s
    × (s.glob ≡ 1)
    × Asleep false s
    × ((t : System) → ¬ ThreadStep s t)
    × ((t : System) → ¬ MainStep false s t)
lost_signal = (
  asleep,
  next
      (next
        (next
          (next
            (next
              (next
                (next
                  (next
                    (next (next here (of_main refl (MainStep.create refl refl)))
                      (of_thread refl (ThreadStep.allocate refl refl)))
                    (of_thread refl (ThreadStep.tell refl refl)))
                  (of_thread refl (ThreadStep.lock refl refl refl)))
                (of_thread refl (ThreadStep.push refl refl)))
              (of_thread refl (ThreadStep.wait refl refl refl)))
            (of_main refl (MainStep.signal refl refl refl)))
          (of_thread refl (ThreadStep.relock refl refl refl)))
        (of_thread refl (ThreadStep.wait refl refl refl)))
      (of_main refl (MainStep.set refl refl)),
  refl,
  record { signals = refl; thread_waits = refl; main_joins = refl },
  asleep-ThreadStep,
  asleep-MainStep,
)
