-- ===== src/ThreadInc/Least.antt =====
-- thread_inc.c: two is the least number that can be printed.
use linux_unix_system_progra.Prelude.{ℕ, ◌+◌, ◌<◌, ◌≤◌, ◌≡◌, arith}
use linux_unix_system_progra.ThreadInc.Defs.{
  Thread, unborn, at_loop, loaded, ended, Main, creating_first, creating_second, joining_first,
  joining_second, printed, failed, System, ThreadStep, MainStep, Step, by_first, by_second, by_main,
  Reach, here, next,
}
use linux_unix_system_progra.ThreadInc.Counting.{rounds}

module _ (loops : ℕ) (some_rounds : 1 < loops) where
  -- A thread with a round behind it has found a number that is not zero.
  abbrev Grown : Thread → Type 0
  Grown unborn = Unit
  Grown (at_loop i) = i ≤ loops
  Grown (loaded i v) = (i < loops) × (0 < i → 0 < v)
  Grown ended = Unit

  abbrev IsPrinted : Main → ℕ → ℕ → Type 0
  IsPrinted creating_first a b = Unit
  IsPrinted creating_second a b = Unit
  IsPrinted joining_first a b = Unit
  IsPrinted joining_second a b = a ≡ loops
  IsPrinted (printed v) a b = 1 < v
  IsPrinted failed a b = Unit

  -- The rounds whose increments are surely stored.
  abbrev stored : Thread → ℕ
  stored unborn = 0
  stored (at_loop i) = i
  stored (loaded i v) = 0
  stored ended = loops

  record Inv (s : System) : Type 0 where
    first_grown : Grown s.first
    second_grown : Grown s.second
    positive : 0 < stored s.first + stored s.second → 0 < s.glob
    enough : rounds loops s.first + rounds loops s.second ≡ loops + loops → 1 < s.glob
    print : IsPrinted s.main (rounds loops s.first) (rounds loops s.second)

  Step-Inv : (s u : System) → Step loops s u → Inv s → Inv u
  Step-Inv s u (by_first run g t (ThreadStep.load i a b c d) q) inv = ground (arith, some_rounds)
  Step-Inv s u (by_first run g t (ThreadStep.store i v a h b c) q) inv = ground (arith, some_rounds)
  Step-Inv s u (by_first run g t (ThreadStep.keep i v a h b c d) q) inv =
      ground (arith, some_rounds)
  Step-Inv s u (by_first run g t (ThreadStep.leave i a b c d) q) inv = ground (arith, some_rounds)
  Step-Inv s u (by_second run g t (ThreadStep.load i a b c d) q) inv = ground (arith, some_rounds)
  Step-Inv s u (by_second run g t (ThreadStep.store i v a h b c) q) inv =
      ground (arith, some_rounds)
  Step-Inv s u (by_second run g t (ThreadStep.keep i v a h b c d) q) inv =
      ground (arith, some_rounds)
  Step-Inv s u (by_second run g t (ThreadStep.leave i a b c d) q) inv = ground (arith, some_rounds)
  Step-Inv s u (by_main (MainStep.create_first a q)) inv = ground (arith, some_rounds)
  Step-Inv s u (by_main (MainStep.create_second a q)) inv = ground (arith, some_rounds)
  Step-Inv s u (by_main (MainStep.join_first a b q)) inv = ground (arith, some_rounds)
  Step-Inv s u (by_main (MainStep.join_second a b q)) inv = ground (arith, some_rounds)
  Step-Inv s u (by_main (MainStep.fail a q)) inv = ground (arith, some_rounds)

  Reach-Inv : {s : System} → Reach loops s → Inv s
  Reach-Inv here = ground arith
  Reach-Inv (next {s} {u} r m) = Step-Inv s u m (Reach-Inv r)

  -- With two rounds or more, the number printed is at least two.
  pub printed_ge : {s : System} (v : ℕ) → Reach loops s → s.main ≡ printed v → 2 ≤ v
  printed_ge {s} v r e = let inv = Reach-Inv r in ground (arith, inv.print)
