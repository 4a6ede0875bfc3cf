-- ===== src/ThreadInc/Examples.antt =====
-- Runs of thread_inc.c.
use linux_unix_system_progra.Prelude.{◌≤◌, ◌≡◌, ◌↔◌, refl, some, none, arith}
use linux_unix_system_progra.Prelude.Int.{negsuc}
use linux_unix_system_progra.ThreadInc.Defs.{loops_of, System, Reach, printed}
use linux_unix_system_progra.ThreadInc.Range.{printed_range}

default_loops : loops_of none ≡ some 1000
unfolding loops_of
default_loops = refl

negative_loops : loops_of (some (negsuc 4)) ≡ none
unfolding loops_of
negative_loops = refl

printed_range_example :
    ((s : System) × Reach 1000 s × (s.main ≡ printed 2)) ↔ ((2 ≤ 2) × (2 ≤ 2000))
printed_range_example = printed_range 1000 (omega arith) (omega arith) 2
