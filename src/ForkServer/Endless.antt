-- ===== src/ForkServer/Endless.antt =====
-- webprogramming/multi_processor_server.c: how the loop of `main` ends.
use linux_unix_system_progra.Prelude.{
  ℕ, zero, suc, ◌≡◌, refl, Bool, true, false, List, [], ◌∷◌, if◌then◌else◌, arith,
}
use linux_unix_system_progra.Syscall.{Reply, ok, fail, Result, returns, unfinished}
use linux_unix_system_progra.HSocket.Kernel.{Kernel}
use linux_unix_system_progra.ForkServer.Defs.{
  Processes, buf_size, accept_condition, after_read, accept_rounds, child_rounds, then_do,
  after_fork, serve,
}

-- Neither `exit` nor a failed call ends the process.
data GoesOn {W : Type 0} : Result W ℕ → Type 0 where
  back : (n : ℕ) (w : W) → GoesOn (returns n w)
  still : GoesOn unfinished

module _ (k : Kernel) (p : Processes k) where
  open k use {World}

  accept_rounds-GoesOn : (fuel lfd : ℕ) (w : World) → GoesOn (accept_rounds k p fuel lfd w)
  unfolding accept_rounds
  accept_rounds-GoesOn zero lfd w = still
  accept_rounds-GoesOn (suc fuel) lfd w =
      let answer = k.accept lfd w in
      chosen (accept_condition k p answer.0) _ _ (accept_rounds-GoesOn fuel lfd answer.1)
        (back _ answer.1)
    where
      chosen : (b : Bool) (x y : Result World ℕ) → GoesOn x → GoesOn y → GoesOn (if b then x else y)
      chosen true x y hx hy = hx
      chosen false x y hx hy = hy

  after_read-GoesOn :
      (fd : ℕ) (rest : World → Result World ℕ)
      → ((w : World) → GoesOn (rest w))
      → (x : Reply (List ℕ) × World) → GoesOn (after_read k p fd rest x)
  unfolding after_read
  after_read-GoesOn fd rest goes (fail e, w) = goes w
  after_read-GoesOn fd rest goes (ok [], w) = back _ _
  after_read-GoesOn fd rest goes (ok (b ∷ bs), w) = goes _

  child_rounds-GoesOn : (fuel fd : ℕ) (w : World) → GoesOn (child_rounds k p fuel fd w)
  unfolding child_rounds
  child_rounds-GoesOn zero fd w = still
  child_rounds-GoesOn (suc fuel) fd w =
      after_read-GoesOn fd _ (λ w'. child_rounds-GoesOn fuel fd w') (k.read fd buf_size w)

  then_unfinished :
      {r : Result World ℕ} (next : ℕ → World → Result World ℕ)
      → GoesOn r
      → ((c : ℕ) (w : World) → next c w ≡ unfinished)
      → then_do k p r next ≡ unfinished
  then_unfinished next (back n w) h = h n w
  then_unfinished next still h = refl

  after_fork-unfinished :
      (fuel lfd fd : ℕ) (rest : World → Result World ℕ)
      → ((w : World) → rest w ≡ unfinished)
      → (x : Reply ℕ × World) → (n : ℕ) × (w : World) × (x ≡ (ok n, w))
      → after_fork k p fuel lfd fd rest x ≡ unfinished
  unfolding after_fork
  after_fork-unfinished fuel lfd fd rest h (fail e, w) (n, w', q) = ground arith
  after_fork-unfinished fuel lfd fd rest h (ok zero, w) worked =
      then_unfinished (λ r. rest) (child_rounds-GoesOn fuel fd (k.close lfd w).1) (λ r. h)
  after_fork-unfinished fuel lfd fd rest h (ok (suc pid), w) worked = h _

  -- As long as fork works no process of the server ends, however long it runs: in particular no
  -- child ends when its client has disconnected.
  pub serve-unfinished :
      (fuel lfd : ℕ) (w : World)
      → ((v : World) → (pid : ℕ) × (v' : World) × (p.fork v ≡ (ok pid, v')))
      → serve k p fuel lfd w ≡ unfinished
  unfolding serve
  serve-unfinished zero lfd w forks = refl
  serve-unfinished (suc fuel) lfd w forks =
      then_unfinished _ (accept_rounds-GoesOn fuel lfd w) (λ fd w1.
        after_fork-unfinished fuel lfd fd _ (λ w'. serve-unfinished fuel lfd w' forks) (p.fork w1)
          (forks w1))
