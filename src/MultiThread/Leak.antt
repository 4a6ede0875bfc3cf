-- ===== src/MultiThread/Leak.antt =====
-- webprogramming/multi_thread_server.c: slots whose thread is done before `main` sets `on`.
use linux_unix_system_progra.Prelude.{
  ℕ, suc, ◌<◌, ◌≡◌, ◌≢◌, refl, Bool, true, false, ◌==◌, arith, zero, some, some,
}
use linux_unix_system_progra.MultiThread.Defs.{
  thread_limit, absent, serving, clearing, Main, scanning, accepting, retrying, creating, marking,
  detaching, suspended, exited, System, set, MainStep, WorkerStep, Step, by_main, by_worker, start,
  Reach, here, next,
}

-- `main` is about to give slot `i` to a client, or to mark it.
abbrev pub handles : ℕ → Main → Bool
handles i (accepting j) = i == j
handles i (retrying j) = i == j
handles i (creating j) = i == j
handles i (marking j) = i == j
handles i (scanning j) = false
handles i (detaching j) = false
handles i suspended = false
handles i exited = false

-- The slot is marked as in use, and no thread uses it or is about to.
pub record Leaked (i : ℕ) (s : System) : Type 0 where
  pub marked : (s.socks i).on ≡ 1
  pub unused : (s.socks i).worker ≡ absent
  pub not_handled : handles i s.main ≡ false

Main-Leaked : (i : ℕ) (s t : System) → MainStep s t → Leaked i s → Leaked i t
Main-Leaked i s t (MainStep.free j a b c q) h = ground arith
Main-Leaked i s t (MainStep.taken j a b c q) h = ground arith
Main-Leaked i s t (MainStep.busy j a b q) h = ground arith
Main-Leaked i s t (MainStep.resume a q) h = ground arith
Main-Leaked i s t (MainStep.accept j fd a q) h = ground arith
Main-Leaked i s t (MainStep.accept_fails j a q) h = ground arith
Main-Leaked i s t (MainStep.retry j fd a q) h = ground arith
Main-Leaked i s t (MainStep.create j a q) h = ground arith
Main-Leaked i s t (MainStep.create_fails j a q) h = ground arith
Main-Leaked i s t (MainStep.mark j a q) h = ground arith
Main-Leaked i s t (MainStep.detach j a q) h = ground arith
Main-Leaked i s t (MainStep.detach_fails j a q) h = ground arith

Worker-Leaked : (i k : ℕ) (s t : System) → WorkerStep k s t → Leaked i s → Leaked i t
Worker-Leaked i k s t (WorkerStep.answer a q) h = ground arith
Worker-Leaked i k s t (WorkerStep.read_fails a q) h = ground arith
Worker-Leaked i k s t (WorkerStep.disconnect a q) h = ground arith
Worker-Leaked i k s t (WorkerStep.password a q) h = ground arith
Worker-Leaked i k s t (WorkerStep.fail a q) h = ground arith
Worker-Leaked i k s t (WorkerStep.clear a q) h = ground arith

Step-Leaked : (i : ℕ) (s t : System) → Step s t → Leaked i s → Leaked i t
Step-Leaked i s t (by_main r m) h = Main-Leaked i s t m h
Step-Leaked i s t (by_worker k lt r m) h = Worker-Leaked i k s t m h

-- A slot that is marked while no thread uses it is never used again.
pub Reach-Leaked : {s t : System} (i : ℕ) → Leaked i s → Reach s t → Leaked i t
Reach-Leaked i h here = h
Reach-Leaked i h (next {t} {u} r m) = Step-Leaked i t u m (Reach-Leaked i h r)

-- Slot `i` is lost between `s` and `t`, and nothing else has changed.
record Loss (i : ℕ) (s t : System) : Type 0 where
  reached : Reach start t
  searches : t.main ≡ scanning 0
  leaked : Leaked i t
  others : (j : ℕ) → j ≢ i → t.socks j ≡ s.socks j

module _ (i fd : ℕ) (s : System) where
  abbrev granted : System
  granted = record s { main = accepting i }

  abbrev accepted : System
  accepted = record (set granted i (record (granted.socks i) { cfd = some fd; closed = false })) {
    main = creating i;
  }

  abbrev created : System
  created = record (set accepted i (record (accepted.socks i) { worker = serving })) {
    main = marking i;
  }

  abbrev disconnected : System
  disconnected = set created i (record (created.socks i) { worker = clearing; closed = true })

  abbrev cleared : System
  cleared = set disconnected i (record (disconnected.socks i) { on = 0; worker = absent })

  abbrev marked_late : System
  marked_late = record (set cleared i (record (cleared.socks i) { on = 1 })) { main = detaching i }

  abbrev detached : System
  detached = record marked_late { main = scanning 0 }

  -- A client disconnects before `main` marks its slot.
  lose :
      i < thread_limit
      → s.main ≡ scanning i
      → (s.socks i).on ≡ 0
      → Reach start s
      → Reach start detached
  lose lt m on r =
      next
        (next
          (next
            (next
              (next
                (next (next r (by_main (ground arith) (MainStep.free i m lt on refl)))
                  (by_main (ground arith) (MainStep.accept i fd refl refl)))
                (by_main (ground arith) (MainStep.create i refl refl)))
              (by_worker i lt (ground arith) (WorkerStep.disconnect (ground arith) refl)))
            (by_worker i lt (ground arith) (WorkerStep.clear (ground arith) refl)))
          (by_main (ground arith) (MainStep.mark i refl refl)))
        (by_main (ground arith) (MainStep.detach i refl refl))

  lose-Loss :
      i < thread_limit
      → s.main ≡ scanning i
      → (s.socks i).on ≡ 0
      → Reach start s
      → Loss i s detached
  lose-Loss lt m on r = record {
    reached = lose lt m on r;
    searches = refl;
    leaked = record { marked = ground arith; unused = ground arith; not_handled = refl };
    others = λ j d. ground arith;
  }

-- The slots 0, 1 and 2 are lost one after the other.
abbrev first : System
first = detached 0 4 start

abbrev second : System
second = detached 1 5 (record first { main = scanning 1 })

abbrev pub third : System
third = detached 2 6 (record second { main = scanning 2 })

first-Loss : Loss 0 start first
first-Loss = lose-Loss 0 4 start (omega arith) refl refl here

second-Reach : Reach start second
second-Reach =
    let passed =
      next first-Loss.reached
        (by_main (ground arith) (MainStep.taken 0 refl (omega arith) (ground arith) refl)) in
    (lose-Loss 1 5 (record first { main = scanning 1 }) (omega arith) refl refl passed).reached

pub third-Reach : Reach start third
third-Reach =
    let one =
      next second-Reach
        (by_main (ground arith) (MainStep.taken 0 refl (omega arith) (ground arith) refl)) in
    let two =
      next one (by_main (ground arith) (MainStep.taken 1 refl (omega arith) (ground arith) refl)) in
    (lose-Loss 2 6 (record second { main = scanning 2 }) (omega arith) refl refl two).reached

pub third-Leaked : (i : ℕ) → i < thread_limit → Leaked i third
third-Leaked zero lt = record { marked = refl; unused = refl; not_handled = refl }
third-Leaked (suc zero) lt = record { marked = refl; unused = refl; not_handled = refl }
third-Leaked (suc (suc zero)) lt = record { marked = refl; unused = refl; not_handled = refl }
third-Leaked (suc (suc (suc i))) lt = ground arith

-- A state can be reached from which the server never again accepts a client: in every later state,
-- every slot is marked, no thread uses it, and `main` is not about to give it to a client.
pub all_lost :
    (t : System) × Reach start t
    × ((u : System) → Reach t u → (i : ℕ) → i < thread_limit → Leaked i u)
all_lost = (third, third-Reach, λ u r i lt. Reach-Leaked i (third-Leaked i lt) r)
