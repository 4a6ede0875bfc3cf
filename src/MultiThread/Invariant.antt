-- ===== src/MultiThread/Invariant.antt =====
-- webprogramming/multi_thread_server.c: the slots that `main` gives to clients.
use linux_unix_system_progra.Prelude.{ℕ, ◌≡◌, refl, ◌⊎◌, inr, ◌==◌, arith, if◌then◌else◌}
use linux_unix_system_progra.MultiThread.Defs.{
  absent, Slot, Main, scanning, accepting, retrying, creating, marking, detaching, suspended,
  exited, System, MainStep, WorkerStep, Step, by_main, by_worker, start, Reach, here, next,
}

-- A slot whose thread still uses it has `on` set, but for the slot that `main` is about to mark; and
-- `main` accepts a client only for a slot that no thread uses.
abbrev pub AtMain : Main → ℕ → Slot → Type 0
AtMain (scanning j) i x = (x.on ≡ 1) ⊎ (x.worker ≡ absent)
AtMain (accepting j) i x = if i == j then x.worker ≡ absent else (x.on ≡ 1) ⊎ (x.worker ≡ absent)
AtMain (retrying j) i x = if i == j then x.worker ≡ absent else (x.on ≡ 1) ⊎ (x.worker ≡ absent)
AtMain (creating j) i x = if i == j then x.worker ≡ absent else (x.on ≡ 1) ⊎ (x.worker ≡ absent)
AtMain (marking j) i x = if i == j then Unit else (x.on ≡ 1) ⊎ (x.worker ≡ absent)
AtMain (detaching j) i x = (x.on ≡ 1) ⊎ (x.worker ≡ absent)
AtMain suspended i x = (x.on ≡ 1) ⊎ (x.worker ≡ absent)
AtMain exited i x = Unit

abbrev pub Inv : System → Type 0
Inv s = (i : ℕ) → AtMain s.main i (s.socks i)

Main-Inv : (s t : System) → MainStep s t → Inv s → Inv t
Main-Inv s t (MainStep.free i a b c q) inv j = ground (arith, inv j)
Main-Inv s t (MainStep.taken i a b c q) inv j = ground (arith, inv j)
Main-Inv s t (MainStep.busy i a b q) inv j = ground (arith, inv j)
Main-Inv s t (MainStep.resume a q) inv j = ground (arith, inv j)
Main-Inv s t (MainStep.accept i fd a q) inv j = ground (arith, inv j)
Main-Inv s t (MainStep.accept_fails i a q) inv j = ground (arith, inv j)
Main-Inv s t (MainStep.retry i fd a q) inv j = ground (arith, inv j)
Main-Inv s t (MainStep.create i a q) inv j = ground (arith, inv j)
Main-Inv s t (MainStep.create_fails i a q) inv j = ground (arith, inv j)
Main-Inv s t (MainStep.mark i a q) inv j = ground (arith, inv j)
Main-Inv s t (MainStep.detach i a q) inv j = ground (arith, inv j)
Main-Inv s t (MainStep.detach_fails i a q) inv j = ground (arith, inv j)

Worker-Inv : (k : ℕ) (s t : System) → WorkerStep k s t → Inv s → Inv t
Worker-Inv k s t (WorkerStep.answer a q) inv j = ground (arith, inv j)
Worker-Inv k s t (WorkerStep.read_fails a q) inv j = ground (arith, inv j, inv k)
Worker-Inv k s t (WorkerStep.disconnect a q) inv j = ground (arith, inv j, inv k)
Worker-Inv k s t (WorkerStep.password a q) inv j = ground (arith, inv j, inv k)
Worker-Inv k s t (WorkerStep.fail a q) inv j = ground (arith, inv j, inv k)
Worker-Inv k s t (WorkerStep.clear a q) inv j = ground (arith, inv j, inv k)

Step-Inv : (s t : System) → Step s t → Inv s → Inv t
Step-Inv s t (by_main r m) inv = Main-Inv s t m inv
Step-Inv s t (by_worker i lt r m) inv = Worker-Inv i s t m inv

pub Reach-Inv : {s t : System} → Reach s t → Inv s → Inv t
Reach-Inv here inv = inv
Reach-Inv (next {t} {u} r m) inv = Step-Inv t u m (Reach-Inv r inv)

pub start-Inv : Inv start
start-Inv i = inr refl

-- When `main` has accepted a client for a slot and creates its thread, no earlier thread uses that
-- slot any more: two clients never share one.
pub exclusive_slot :
    {s : System} → Reach start s → (i : ℕ) → s.main ≡ creating i → (s.socks i).worker ≡ absent
exclusive_slot {s} r i e = ground (arith, Reach-Inv r start-Inv i)
