-- ===== src/ForkServer/Descriptor.antt =====
-- webprogramming/multi_processor_server.c: what becomes of the descriptors that accept returns.
use linux_unix_system_progra.Prelude.{ℕ, zero, suc, ◌≡◌, refl, inl, inr, List, [], ◌∷◌}
use linux_unix_system_progra.Syscall.{
  Reply, ok, fail, Result, returns, exits, unfinished, Reply-cases,
}
use linux_unix_system_progra.HSocket.Kernel.{Kernel}
use linux_unix_system_progra.ForkServer.Defs.{
  Processes, buf_size, backlog, or_exit, after_read, accept_rounds, child_rounds, then_do,
  after_fork, serve, main,
}

abbrev pub rename {ℓ} : {W : Type 0} {A : Type ℓ} → (ℕ → ℕ) → Reply (ℕ × A) × W → Reply (ℕ × A) × W
rename f (ok (fd, a), w) = (ok (f fd, a), w)
rename f (fail e, w) = (fail e, w)

-- The kernel that gives other descriptors to the connections.
abbrev pub renamed : (ℕ → ℕ) → Kernel → Kernel
renamed f k = record k { accept = λ fd w. rename f (k.accept fd w) }

module _ (k : Kernel) (p : Processes k) (f : ℕ → ℕ) where
  open k use {World, Address}

  abbrev pub same_processes : Processes (renamed f k)
  same_processes = record { fork = p.fork; waitpid = p.waitpid; response = p.response }

  accept_rounds-renamed :
      (fuel lfd : ℕ) (w : World)
      → accept_rounds (renamed f k) same_processes fuel lfd w ≡ accept_rounds k p fuel lfd w
  unfolding accept_rounds
  accept_rounds-renamed zero lfd w = refl
  accept_rounds-renamed (suc fuel) lfd w = elim (Reply-cases (k.accept lfd w)) [
    | inl (c, w', q) ↦ rw q refl
    | inr (e, w', q) ↦ rw (q, accept_rounds-renamed fuel lfd w') refl
  ]

  after_read-renamed :
      (fd : ℕ) (rest rest' : World → Result World ℕ)
      → ((w : World) → rest w ≡ rest' w)
      → (x : Reply (List ℕ) × World)
      → after_read (renamed f k) same_processes fd rest x ≡ after_read k p fd rest' x
  unfolding after_read
  after_read-renamed fd rest rest' same (fail e, w) = same w
  after_read-renamed fd rest rest' same (ok [], w) = refl
  after_read-renamed fd rest rest' same (ok (b ∷ bs), w) = same _

  child_rounds-renamed :
      (fuel fd : ℕ) (w : World)
      → child_rounds (renamed f k) same_processes fuel fd w ≡ child_rounds k p fuel fd w
  unfolding child_rounds
  child_rounds-renamed zero fd w = refl
  child_rounds-renamed (suc fuel) fd w =
      after_read-renamed fd _ _ (λ w'. child_rounds-renamed fuel fd w') (k.read fd buf_size w)

  then_do-same :
      (r : Result World ℕ) (next next' : ℕ → World → Result World ℕ)
      → ((c : ℕ) (w : World) → next c w ≡ next' c w)
      → then_do k p r next ≡ then_do k p r next'
  then_do-same (returns c w) next next' same = same c w
  then_do-same (exits w) next next' same = refl
  then_do-same unfinished next next' same = refl

  after_fork-renamed :
      (fuel lfd fd : ℕ) (rest rest' : World → Result World ℕ)
      → ((w : World) → rest w ≡ rest' w)
      → (x : Reply ℕ × World)
      → after_fork (renamed f k) same_processes fuel lfd fd rest x
        ≡ after_fork k p fuel lfd fd rest' x
  unfolding after_fork
  after_fork-renamed fuel lfd fd rest rest' same (fail e, w) = refl
  after_fork-renamed fuel lfd fd rest rest' same (ok zero, w) =
      rw (child_rounds-renamed fuel fd (k.close lfd w).1)
        (then_do-same (child_rounds k p fuel fd (k.close lfd w).1) _ _ (λ r. same))
  after_fork-renamed fuel lfd fd rest rest' same (ok (suc pid), w) = same _

  serve-renamed :
      (fuel lfd : ℕ) (w : World)
      → serve (renamed f k) same_processes fuel lfd w ≡ serve k p fuel lfd w
  unfolding serve
  serve-renamed zero lfd w = refl
  serve-renamed (suc fuel) lfd w = rw (accept_rounds-renamed fuel lfd w) (
      then_do-same (accept_rounds k p fuel lfd w) _ _
        (λ fd w1. after_fork-renamed fuel lfd fd _ _ (λ w'. serve-renamed fuel lfd w') (p.fork w1)))

  or_exit-same :
      {A : Type 0} (x : Reply A × World) (next next' : A → World → Result World ℕ)
      → ((a : A) (w : World) → next a w ≡ next' a w)
      → or_exit x next ≡ or_exit x next'
  or_exit-same (ok a, w) next next' same = same a w
  or_exit-same (fail e, w) next next' same = refl

  -- The server never uses the descriptors of its clients: whatever descriptors accept returns for
  -- the connections, a run does the same calls with the same results.
  pub main-renamed :
      (fuel : ℕ) (server : Address) (w : World)
      → main (renamed f k) same_processes fuel server w ≡ main k p fuel server w
  unfolding main
  main-renamed fuel server w = or_exit-same (k.socket 2 1 0 w) _ _ (λ lfd w1.
      or_exit-same (k.bind lfd server w1) _ _
        (λ r w2. or_exit-same (k.listen lfd backlog w2) _ _ (λ r w3. serve-renamed fuel lfd w3)))
