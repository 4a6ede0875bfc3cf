-- ===== src/HSocket/Retry.antt =====
-- webprogramming/HSocket.c: the loops of `Accept`, `Read`, `Write` and `Close` against a description
-- without fuel, and when they end.
use linux_unix_system_progra.Prelude.{
  ℕ, zero, suc, ◌<◌, ◌≡◌, ◌≢◌, inl, inr, Bool, true, false, Bool-cases, arith,
}
use linux_unix_system_progra.Syscall.{Reply-cases, Reply, ok, fail, Result, unfinished}
use linux_unix_system_progra.HSocket.Wrappers.{round}

-- The answer that a call gives after the failures which `again` accepts.
pub data Retried {W : Type 0} {A : Type 0} (call : W → Reply A × W) (again : ℕ → Bool)
    : W → Reply A → W → Type 0 where
  value : {w w' : W} {a : A} → call w ≡ (ok a, w') → Retried call again w (ok a) w'
  stop :
      {w w' : W} {e : ℕ}
      → call w ≡ (fail e, w')
      → again e ≡ false
      → Retried call again w (fail e) w'
  more :
      {w w' w'' : W} {e : ℕ} {r : Reply A}
      → call w ≡ (fail e, w')
      → again e ≡ true
      → Retried call again w' r w''
      → Retried call again w r w''

-- What the loop makes of the answer that ends it.
abbrev pub finish :
    {W A B : Type 0} → (A → W → Result W B) → (ℕ → W → Result W B) → Reply A → W → Result W B
finish value_of stop_of (ok a) w = value_of a w
finish value_of stop_of (fail e) w = stop_of e w

-- A loop that goes by `round` is described by `Retried`.
module _ {W A B : Type 0} (call : W → Reply A × W) (again : ℕ → Bool)
    (value_of : A → W → Result W B) (stop_of : ℕ → W → Result W B) (loop : ℕ → W → Result W B)
    (out_of_fuel : (w : W) → loop 0 w ≡ unfinished)
    (one_round : (n : ℕ) (w : W)
      → loop (suc n) w ≡ round value_of stop_of again (loop n) (call w)) where
  pub Retried-loop :
      {w w' : W} {r : Reply A}
      → Retried call again w r w'
      → (fuel : ℕ) × (loop fuel w ≡ finish value_of stop_of r w')
  Retried-loop {w} (Retried.value e) = (1, rw (one_round 0 w, e))
  Retried-loop {w} (Retried.stop e s) = (1, rw (one_round 0 w, e, s))
  Retried-loop {w} (Retried.more e s t) =
      let (fuel, eq) = Retried-loop t in (suc fuel, rw (one_round fuel w, e, s) eq)

  pub loop-Retried :
      (fuel : ℕ) (w : W)
      → loop fuel w ≢ unfinished
      → (r : Reply A) × (w' : W) × Retried call again w r w'
        × (loop fuel w ≡ finish value_of stop_of r w')
  loop-Retried zero w done = absurd (done (out_of_fuel w))
  loop-Retried (suc n) w done = elim (Reply-cases (call w)) [
    | inl (a, w', e) ↦ (ok a, w', Retried.value e, rw (one_round n w, e))
    | inr (e, w', q) ↦ elim (Bool-cases (again e)) [
      | inl yes_again ↦
          let eq : loop (suc n) w ≡ loop n w' = rw (one_round n w, q, yes_again) in
          let (r, w'', t, h) = loop-Retried n w' (λ u. done (rw eq u)) in
          (r, w'', Retried.more q yes_again t, rw eq h)
      | inr no_more ↦ (fail e, w', Retried.stop q no_more, rw (one_round n w, q, no_more))
    ]
  ]

  -- Where each accepted failure lowers a measure, the loop ends.
  pub loop_ends :
      (measure : W → ℕ)
      → ((w w' : W) (e : ℕ) → call w ≡ (fail e, w') → again e ≡ true → measure w' < measure w)
      → ((a : A) (w : W) → value_of a w ≢ unfinished)
      → ((e : ℕ) (w : W) → stop_of e w ≢ unfinished)
      → (fuel : ℕ) (w : W) → measure w < fuel
      → loop fuel w ≢ unfinished
  loop_ends measure falls vs ss zero w h = absurd (omega arith)
  loop_ends measure falls vs ss (suc n) w h = elim (Reply-cases (call w)) [
    | inl (a, w', e) ↦ rw (one_round n w, e) (vs a w')
    | inr (e, w', q) ↦ elim (Bool-cases (again e)) [
      | inl yes_again ↦
          rw (one_round n w, q, yes_again)
            (loop_ends measure falls vs ss n w' (omega (arith, falls w w' e q yes_again)))
      | inr no_more ↦ rw (one_round n w, q, no_more) (ss e w')
    ]
  ]
