-- ===== src/ThreadInc/Range.antt =====
-- thread_inc.c: which numbers can be printed.
use linux_unix_system_progra.Prelude.{
  inl, inr, ℕ, zero, suc, ◌+◌, ◌-◌, ◌<◌, ◌≤◌, ◌≡◌, ◌↔◌, refl, ap, subst, dec_lt, arith,
}
use linux_unix_system_progra.ThreadInc.Defs.{
  int_max, Thread, at_loop, loaded, ended, joining_first, printed, System, ThreadStep, MainStep,
  by_first, by_second, by_main, Reach, next,
}
use linux_unix_system_progra.ThreadInc.Counting.{even-Reach, loaded-lt, printed_le}
use linux_unix_system_progra.ThreadInc.Least.{printed_ge}

module _ (loops : ℕ) (small : loops + loops ≤ int_max) where
  -- Both threads run.
  abbrev both : ℕ → Thread → Thread → System
  both g x y = record { glob = g; first = x; second = y; main = joining_first }

  load_first :
      {g i : ℕ} {y : Thread}
      → i < loops
      → Reach loops (both g (at_loop i) y)
      → Reach loops (both g (loaded i g) y)
  load_first {g} {i} lt r =
      next r (by_first refl g (loaded i g) (ThreadStep.load i refl lt refl refl) refl)

  store_first :
      {g i v : ℕ} {y : Thread}
      → Reach loops (both g (loaded i v) y)
      → Reach loops (both (v + 1) (at_loop (i + 1)) y)
  store_first {g} {i} {v} r = next r (
      by_first refl (v + 1) (at_loop (i + 1))
        (ThreadStep.store i v refl (omega (arith, small, loaded-lt loops i v r (inl refl))) refl
          refl)
        refl)

  load_second :
      {g i : ℕ} {x : Thread}
      → i < loops
      → Reach loops (both g x (at_loop i))
      → Reach loops (both g x (loaded i g))
  load_second {g} {i} lt r =
      next r (by_second refl g (loaded i g) (ThreadStep.load i refl lt refl refl) refl)

  store_second :
      {g i v : ℕ} {x : Thread}
      → Reach loops (both g x (loaded i v))
      → Reach loops (both (v + 1) x (at_loop (i + 1)))
  store_second {g} {i} {v} r = next r (
      by_second refl (v + 1) (at_loop (i + 1))
        (ThreadStep.store i v refl (omega (arith, small, loaded-lt loops i v r (inr refl))) refl
          refl)
        refl)

  same :
      {g g' : ℕ} {x x' y y' : Thread}
      → g ≡ g'
      → x ≡ x'
      → y ≡ y'
      → Reach loops (both g x y)
      → Reach loops (both g' x' y')
  same {g} {g'} {x} {x'} {y} {y'} a b c r =
      let e : both g x y ≡ both g' x' y' = cc in subst (Reach loops) e r

  -- One thread makes `n` rounds by itself.
  run_first :
      (n g i : ℕ) (y : Thread)
      → i + n ≤ loops
      → Reach loops (both g (at_loop i) y)
      → Reach loops (both (g + n) (at_loop (i + n)) y)
  run_first zero g i y le r = same (omega arith) (ap at_loop (omega arith)) refl r
  run_first (suc n) g i y le r =
      let last = run_first n g i y (omega arith) r in
      same (omega arith) (ap at_loop (omega arith)) refl
        (store_first (load_first (omega arith) last))

  run_second :
      (n g i : ℕ) (x : Thread)
      → i + n ≤ loops
      → Reach loops (both g x (at_loop i))
      → Reach loops (both (g + n) x (at_loop (i + n)))
  run_second zero g i x le r = same (omega arith) refl (ap at_loop (omega arith)) r
  run_second (suc n) g i x le r =
      let last = run_second n g i x (omega arith) r in
      same (omega arith) refl (ap at_loop (omega arith))
        (store_second (load_second (omega arith) last))

  Prints : ℕ → Type 0
  Prints v = (s : System) × Reach loops s × (s.main ≡ printed v)

  -- Both threads are through, and the number is printed.
  finish : (g : ℕ) → Reach loops (both g (at_loop loops) (at_loop loops)) → Prints g
  unfolding Prints
  finish g r = (
    _,
    next
        (next
          (next
            (next r
              (by_first refl g ended (ThreadStep.leave loops refl (omega arith) refl refl) refl))
            (by_second refl g ended (ThreadStep.leave loops refl (omega arith) refl refl) refl))
          (by_main (MainStep.join_first refl refl refl)))
        (by_main (MainStep.join_second refl refl refl)),
    refl,
  )

  -- `a` rounds of both threads lose an increment each, and no other round does.
  many : (a v : ℕ) → a ≤ loops → v + a ≡ loops + loops → Prints v
  many a v le e =
      let n = loops - a in
      let first_done =
        run_first n a a (at_loop a) (omega (arith, le))
          (even-Reach loops a le (omega (arith, small))) in
      let second_done = run_second n (a + n) a (at_loop (a + n)) (omega (arith, le)) first_done in
      let eq : a + n ≡ loops = omega (arith, le) in
      finish v (same (omega (arith, le, e)) (ap at_loop eq) (ap at_loop eq) second_done)

  -- The second thread makes all rounds but one between the load and the store of the first, and its
  -- last round takes the first from its round `a + 1` to its end.
  few : (a : ℕ) → a < loops → Prints (a + 2)
  few a lt =
      let n = loops - 1 in
      let behind = run_second n 0 0 (loaded 0 0) (omega (arith, lt)) (
        load_first (omega (arith, lt)) (even-Reach loops 0 (omega arith) (omega (arith, small)))) in
      let ahead = run_first a 1 1 (at_loop (0 + n)) (omega (arith, lt)) (store_first behind) in
      let late = load_second (omega (arith, lt)) ahead in
      let first_done =
        run_first (n - a) (1 + a) (1 + a) (loaded (0 + n) (1 + a)) (omega (arith, lt)) late in
      finish (a + 2) (
        same (omega arith) (ap at_loop (omega (arith, lt))) (ap at_loop (omega (arith, lt)))
          (store_second first_done))

  Prints-all : (v : ℕ) → 2 ≤ v → v ≤ loops + loops → Prints v
  Prints-all v ge le = elim (dec_lt (v - 2) loops) [
    | yes lt ↦ subst Prints (omega (arith, ge)) (few (v - 2) lt)
    | no out ↦ many (loops + loops - v) v (omega (arith, out, ge)) (omega (arith, le))
  ]

  -- With two rounds or more, and at most half of INT_MAX, the numbers that can be printed are exactly
  -- those from two to twice the number of rounds.
  pub printed_range :
      1 < loops
      → (v : ℕ)
      → ((s : System) × Reach loops s × (s.main ≡ printed v)) ↔ ((2 ≤ v) × (v ≤ loops + loops))
  unfolding Prints
  printed_range some_rounds v = (
    λ (s, r, e). (printed_ge loops some_rounds v r e, printed_le loops v r e),
    λ (ge, le). Prints-all v ge le,
  )
