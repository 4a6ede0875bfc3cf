-- ===== src/HSocket/Calls.antt =====
-- webprogramming/HSocket.c: what `Accept`, `Read`, `Write` and `Close` return.
use linux_unix_system_progra.Prelude.{
  ℕ, zero, suc, ◌≤◌, ◌<◌, ◌≡◌, refl, ◌≢◌, ◌↔◌, Bool, true, ◌||◌, ◌==◌, List, ◌++◌, arith, length,
  sym, ap, ◌∙◌,
}
use linux_unix_system_progra.Syscall.{
  Reply, ok, fail, Result, returns, exits, unfinished, eintr, eagain, ewouldblock,
}
use linux_unix_system_progra.HSocket.Kernel.{Kernel, Inbound}
use linux_unix_system_progra.HSocket.Wrappers.{round, Accept, Read, Write, Close}
use linux_unix_system_progra.HSocket.Retry.{Retried, Retried-loop, loop-Retried, loop_ends, finish}

-- `errno == EAGAIN || errno == EWOULDBLOCK`
abbrev pub would_block : ℕ → Bool
would_block e = e == eagain || e == ewouldblock

abbrev pub interrupted : ℕ → Bool
interrupted e = e == eintr

module _ {W A : Type 0} {call : W → Reply A × W} {again : ℕ → Bool} where
  move_end :
      {w v u : W} {r s : Reply A}
      → Retried call again w r v
      → r ≡ s
      → v ≡ u
      → Retried call again w s u
  move_end t p q = rw (← p, ← q) t

returns-injective :
    {W A : Type 0} {a b : A} {w v : W}
    → ◌≡◌ {A = Result W A} (returns a w) (returns b v)
    → (a ≡ b) × (w ≡ v)
returns-injective e = (cc, cc)

finish-returns :
    {W A : Type 0} (r : Reply A) (w : W)
    → finish (λ a. returns (ok a)) (λ e. returns (fail e)) r w ≡ returns r w
finish-returns (ok a) w = refl
finish-returns (fail e) w = refl

-- A loop that returns whatever answer ends it.
module _ {W A : Type 0} (call : W → Reply A × W) (again : ℕ → Bool)
    (loop : ℕ → W → Result W (Reply A)) (out_of_fuel : (w : W) → loop 0 w ≡ unfinished)
    (one_round : (n : ℕ) (w : W)
      → loop (suc n) w
        ≡ round (λ a. returns (ok a)) (λ e. returns (fail e)) again (loop n) (call w)) where
  returns_iff :
      (w w' : W) (r : Reply A)
      → ((fuel : ℕ) × (loop fuel w ≡ returns r w')) ↔ Retried call again w r w'
  returns_iff w w' r = (there, back)
    where
      there : ((fuel : ℕ) × (loop fuel w ≡ returns r w')) → Retried call again w r w'
      there (fuel, e) =
          let (s, v, t, h) =
            loop-Retried call again _ _ loop out_of_fuel one_round fuel w (λ u. cc) in
          let (p, q) = returns-injective (sym (finish-returns s v) ∙ sym h ∙ e) in move_end t p q

      back : Retried call again w r w' → (fuel : ℕ) × (loop fuel w ≡ returns r w')
      back t =
          let (fuel, e) = Retried-loop call again _ _ loop out_of_fuel one_round t in
          (fuel, e ∙ finish-returns r w')

  returns_if_ends :
      (fuel : ℕ) (w : W)
      → loop fuel w ≢ unfinished
      → (r : Reply A) × (w' : W) × Retried call again w r w' × (loop fuel w ≡ returns r w')
  returns_if_ends fuel w done =
      let (s, v, t, h) = loop-Retried call again _ _ loop out_of_fuel one_round fuel w done in
      (s, v, t, h ∙ finish-returns s v)

-- A loop that returns a value and ends the process at an error.
module _ {W A : Type 0} (call : W → Reply A × W) (again : ℕ → Bool) (loop : ℕ → W → Result W A)
    (out_of_fuel : (w : W) → loop 0 w ≡ unfinished)
    (one_round : (n : ℕ) (w : W)
      → loop (suc n) w ≡ round returns (λ e. exits) again (loop n) (call w)) where
  accepted :
      {x : Result W A} {w w' v : W} (r : Reply A) (c : A)
      → Retried call again w r v
      → x ≡ finish returns (λ e. exits) r v
      → x ≡ returns c w'
      → Retried call again w (ok c) w'
  accepted (ok d) c t h e = let (p, q) = returns-injective (sym h ∙ e) in move_end t (ap ok p) q
  accepted (fail d) c t h e = cc

  refused :
      {x : Result W A} {w w' v : W} (r : Reply A)
      → Retried call again w r v
      → x ≡ finish returns (λ e. exits) r v
      → x ≡ exits w'
      → (e : ℕ) × Retried call again w (fail e) w'
  refused (ok d) t h e = cc
  refused (fail d) t h e = (d, move_end t refl (cc))

  returns_or_exits_iff :
      (w w' : W) (c : A)
      → ((fuel : ℕ) × (loop fuel w ≡ returns c w')) ↔ Retried call again w (ok c) w'
  returns_or_exits_iff w w' c = (
    λ (fuel, e).
        let (r, v, t, h) =
          loop-Retried call again _ _ loop out_of_fuel one_round fuel w (λ u. cc) in
        accepted r c t h e,
    λ t. Retried-loop call again _ _ loop out_of_fuel one_round t,
  )

  exits_iff :
      (w w' : W)
      → ((fuel : ℕ) × (loop fuel w ≡ exits w')) ↔ ((e : ℕ) × Retried call again w (fail e) w')
  exits_iff w w' = (
    λ (fuel, e).
        let (r, v, t, h) =
          loop-Retried call again _ _ loop out_of_fuel one_round fuel w (λ u. cc) in
        refused r t h e,
    λ (e, t). Retried-loop call again _ _ loop out_of_fuel one_round t,
  )

eq_of_test : (e : ℕ) → interrupted e ≡ true → e ≡ eintr
eq_of_test e h = ground arith

never_stops :
    {W A : Type 0} {call : W → Reply A × W} {w w' : W} {r : Reply A} {e : ℕ}
    → Retried call (λ e. true) w r w'
    → r ≢ fail e
never_stops (Retried.value q) = λ h. cc
never_stops (Retried.stop q s) = λ h. cc
never_stops (Retried.more q s t) = never_stops t

module _ (k : Kernel) where
  open k use {World, Address}

  -- `Read` returns exactly the first answer of read(2) that is not a failure with EINTR.
  pub Read-Retried :
      (fd sz : ℕ) (w w' : World) (r : Reply (List ℕ))
      → ((fuel : ℕ) × (Read k fuel fd sz w ≡ returns r w'))
        ↔ Retried (k.read fd sz) interrupted w r w'
  unfolding Read
  Read-Retried fd sz w w' r =
      returns_iff (k.read fd sz) interrupted (λ n. Read k n fd sz) (λ w. refl) (λ n w. refl) w w' r

  -- The same of `Write`.
  pub Write-Retried :
      (fd : ℕ) (buf : List ℕ) (w w' : World) (r : Reply ℕ)
      → ((fuel : ℕ) × (Write k fuel fd buf w ≡ returns r w'))
        ↔ Retried (k.write fd buf) interrupted w r w'
  unfolding Write
  Write-Retried fd buf w w' r =
      returns_iff (k.write fd buf) interrupted (λ n. Write k n fd buf) (λ w. refl) (λ n w. refl) w
        w' r

  -- `Close` never returns -1: it returns exactly the first success of close(2), after any failures.
  pub Close-Retried :
      (fd : ℕ) (w w' : World) (r : Reply ℕ)
      → ((fuel : ℕ) × (Close k fuel fd w ≡ returns r w'))
        ↔ ((n : ℕ) × (r ≡ ok n) × Retried (k.close fd) (λ e. true) w (ok n) w')
  unfolding Close
  Close-Retried fd w w' r = (λ h. succeeded r ((iff r).0 h), λ (n, e, t). rw e ((iff (ok n)).1 t))
    where
      iff :
          (r : Reply ℕ)
          → ((fuel : ℕ) × (Close k fuel fd w ≡ returns r w'))
            ↔ Retried (k.close fd) (λ e. true) w r w'
      iff r =
          returns_iff (k.close fd) (λ e. true) (λ n. Close k n fd) (λ w. refl) (λ n w. refl) w w' r

      succeeded :
          (r : Reply ℕ)
          → Retried (k.close fd) (λ e. true) w r w'
          → (n : ℕ) × (r ≡ ok n) × Retried (k.close fd) (λ e. true) w (ok n) w'
      succeeded (ok n) t = (n, refl, t)
      succeeded (fail e) t = absurd (never_stops t refl)

  -- On a descriptor for which close(2) goes on failing, as on one that is not open, `Close` does not
  -- return, whatever the error is and however often it tries.
  pub Close-unfinished :
      (fd : ℕ) (Bad : World → Type 0)
      → ((w : World) → Bad w → (e : ℕ) × (w' : World) × (k.close fd w ≡ (fail e, w')) × Bad w')
      → (fuel : ℕ) (w : World) → Bad w
      → Close k fuel fd w ≡ unfinished
  unfolding Close
  Close-unfinished fd Bad fails zero w h = refl
  Close-unfinished fd Bad fails (suc n) w h =
      let (e, v, q, h') = fails w h in rw q (Close-unfinished fd Bad fails n v h')

  -- `Accept` returns exactly the first connection that the calls of accept(2) give after failures
  -- with EAGAIN or EWOULDBLOCK, and ends the process exactly when some other error comes first.
  pub Accept-Retried :
      (socket : ℕ) (w w' : World)
      → ((c : ℕ × Address)
          → ((fuel : ℕ) × (Accept k fuel socket w ≡ returns c w'))
            ↔ Retried (k.accept socket) would_block w (ok c) w')
        × (((fuel : ℕ) × (Accept k fuel socket w ≡ exits w'))
            ↔ ((e : ℕ) × Retried (k.accept socket) would_block w (fail e) w'))
  unfolding Accept
  Accept-Retried socket w w' = (
    λ c.
        returns_or_exits_iff (k.accept socket) would_block (λ n. Accept k n socket) (λ w. refl)
          (λ n w. refl) w w' c,
    exits_iff (k.accept socket) would_block (λ n. Accept k n socket) (λ w. refl) (λ n w. refl) w w',
  )

  module _ (io : Inbound k) where
    -- What a return of `Read` says of the stream.
    abbrev pub Received : ℕ → ℕ → World → Reply (List ℕ) → World → Type 0
    Received fd sz w (ok bs) w' = (io.incoming w fd ≡ bs ++ io.incoming w' fd) × (length bs ≤ sz)
    Received fd sz w (fail e) w' = (io.incoming w fd ≡ io.incoming w' fd) × (e ≢ eintr)

    Retried-Received :
        (fd sz : ℕ) {w w' : World} {r : Reply (List ℕ)}
        → Retried (k.read fd sz) interrupted w r w'
        → Received fd sz w r w'
    Retried-Received fd sz (Retried.value e) = ground (arith, io.read_ok fd sz _ _ _ e)
    Retried-Received fd sz (Retried.stop e s) = (io.read_fail fd sz _ _ _ e, ground arith)
    Retried-Received fd sz {r = ok bs} (Retried.more e s t) =
        let h = Retried-Received fd sz t in (io.read_fail fd sz _ _ _ e ∙ h.0, h.1)
    Retried-Received fd sz {r = fail d} (Retried.more e s t) =
        let h = Retried-Received fd sz t in (io.read_fail fd sz _ _ _ e ∙ h.0, h.1)

    -- On a stream with finitely many interrupts `Read` returns: at most `sz` bytes from the front of
    -- what is coming, or an error other than EINTR with nothing taken.
    pub Read-total :
        (fuel fd sz : ℕ) (w : World)
        → io.interrupts w < fuel
        → (r : Reply (List ℕ)) × (w' : World) × (Read k fuel fd sz w ≡ returns r w')
          × Received fd sz w r w'
    unfolding Read
    Read-total fuel fd sz w h =
        let (r, v, t, e) =
          returns_if_ends (k.read fd sz) interrupted (λ n. Read k n fd sz) (λ w. refl) (λ n w. refl)
            fuel w ends in
        (r, v, e, Retried-Received fd sz t)
      where
        ends : Read k fuel fd sz w ≢ unfinished
        ends =
            loop_ends (k.read fd sz) interrupted _ _ (λ n. Read k n fd sz) (λ w. refl) (λ n w. refl)
              io.interrupts (λ w w' e q s. io.read_interrupt fd sz w w' (rw (← eq_of_test e s) q))
              (λ a w u. cc) (λ e w u. cc) fuel w h
