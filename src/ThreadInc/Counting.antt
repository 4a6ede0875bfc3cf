-- ===== src/ThreadInc/Counting.antt =====
-- thread_inc.c: what can be printed.
use linux_unix_system_progra.Prelude.{◌⊎◌, ℕ, zero, suc, ◌+◌, ◌<◌, ◌≤◌, ◌≡◌, refl, subst, arith}
use linux_unix_system_progra.ThreadInc.Defs.{
  int_max, Thread, unborn, at_loop, loaded, ended, Main, creating_first, creating_second,
  joining_first, joining_second, printed, failed, System, ThreadStep, MainStep, Step, by_first,
  by_second, by_main, Reach, here, next,
}

module _ (loops : ℕ) where
  -- The rounds that a thread has finished.
  abbrev pub rounds : Thread → ℕ
  rounds unborn = 0
  rounds (at_loop i) = i
  rounds (loaded i v) = i
  rounds ended = loops

  -- What a thread has read is at most `g`, and it makes at most `loops` rounds.
  abbrev pub Bounded : ℕ → Thread → Type 0
  Bounded g unborn = Unit
  Bounded g (at_loop i) = i ≤ loops
  Bounded g (loaded i v) = (i < loops) × (v ≤ g)
  Bounded g ended = Unit

  abbrev pub AtMain : Main → ℕ → Type 0
  AtMain creating_first g = Unit
  AtMain creating_second g = Unit
  AtMain joining_first g = Unit
  AtMain joining_second g = Unit
  AtMain (printed v) g = v ≤ g
  AtMain failed g = Unit

  pub record Inv (s : System) : Type 0 where
    pub total : s.glob ≤ rounds s.first + rounds s.second
    pub first_bounded : Bounded (rounds s.first + rounds s.second) s.first
    pub second_bounded : Bounded (rounds s.first + rounds s.second) s.second
    pub first_before : s.main ≡ creating_first → s.first ≡ unborn
    pub second_before : s.main ≡ creating_first → s.second ≡ unborn
    pub second_before2 : s.main ≡ creating_second → s.second ≡ unborn
    pub print : AtMain s.main (rounds s.first + rounds s.second)

  Step-Inv : (s u : System) → Step loops s u → Inv s → Inv u
  Step-Inv s u (by_first run g t (ThreadStep.load i a b c d) q) inv = ground arith
  Step-Inv s u (by_first run g t (ThreadStep.store i v a h b c) q) inv = ground arith
  Step-Inv s u (by_first run g t (ThreadStep.keep i v a h b c d) q) inv = ground arith
  Step-Inv s u (by_first run g t (ThreadStep.leave i a b c d) q) inv = ground arith
  Step-Inv s u (by_second run g t (ThreadStep.load i a b c d) q) inv = ground arith
  Step-Inv s u (by_second run g t (ThreadStep.store i v a h b c) q) inv = ground arith
  Step-Inv s u (by_second run g t (ThreadStep.keep i v a h b c d) q) inv = ground arith
  Step-Inv s u (by_second run g t (ThreadStep.leave i a b c d) q) inv = ground arith
  Step-Inv s u (by_main (MainStep.create_first a q)) inv = ground arith
  Step-Inv s u (by_main (MainStep.create_second a q)) inv = ground arith
  Step-Inv s u (by_main (MainStep.join_first a b q)) inv = ground arith
  Step-Inv s u (by_main (MainStep.join_second a b q)) inv = ground arith
  Step-Inv s u (by_main (MainStep.fail a q)) inv = ground arith

  Reach-Inv : {s : System} → Reach loops s → Inv s
  Reach-Inv here = ground arith
  Reach-Inv (next {s} {u} r m) = Step-Inv s u m (Reach-Inv r)

  rounds-le : (g : ℕ) (t : Thread) → Bounded g t → rounds t ≤ loops
  rounds-le g unborn h = omega arith
  rounds-le g (at_loop i) h = h
  rounds-le g (loaded i v) h = omega (arith, h.0)
  rounds-le g ended h = omega arith

  -- The number printed is at most twice the number of rounds of a thread.
  pub printed_le : {s : System} (v : ℕ) → Reach loops s → s.main ≡ printed v → v ≤ loops + loops
  printed_le {s} v r e =
      let inv = Reach-Inv r in
      ground (
        arith,
        inv.print,
        rounds-le _ s.first inv.first_bounded,
        rounds-le _ s.second inv.second_bounded,
      )

  -- Both threads are in round `i`, and every second increment before it was lost.
  abbrev pub even : ℕ → System
  even i = record { glob = i; first = at_loop i; second = at_loop i; main = joining_first }

  -- Both threads load, then both store.
  overwrite :
      (i : ℕ) → i < loops → loops ≤ int_max → Reach loops (even i) → Reach loops (even (i + 1))
  overwrite i lt small r =
      next
        (next
          (next (next r (by_first refl i (loaded i i) (ThreadStep.load i refl lt refl refl) refl))
            (by_second refl i (loaded i i) (ThreadStep.load i refl lt refl refl) refl))
          (by_first refl (i + 1) (at_loop (i + 1))
            (ThreadStep.store i i refl (omega arith) refl refl) refl))
        (by_second refl (i + 1) (at_loop (i + 1))
          (ThreadStep.store i i refl (omega arith) refl refl) refl)

  pub even-Reach : (i : ℕ) → i ≤ loops → loops ≤ int_max → Reach loops (even i)
  even-Reach zero le small =
      next (next here (by_main (MainStep.create_first refl refl)))
        (by_main (MainStep.create_second refl refl))
  even-Reach (suc i) le small =
      subst (λ n. Reach loops (even n)) (omega arith)
        (overwrite i (omega arith) small (even-Reach i (omega arith) small))

  -- What a thread has in its register is less than both threads make together.
  pub loaded-lt :
      {s : System} (i v : ℕ)
      → Reach loops s
      → (s.first ≡ loaded i v) ⊎ (s.second ≡ loaded i v)
      → v < loops + loops
  loaded-lt {s} i v r e =
      let inv = Reach-Inv r in
      ground (
        arith,
        e,
        inv.first_bounded,
        inv.second_bounded,
        rounds-le _ s.first inv.first_bounded,
        rounds-le _ s.second inv.second_bounded,
      )
