-- ===== src/Joins/Examples.antt =====
-- Runs of t_pthread_join2.c.
use linux_unix_system_progra.Prelude.{Trail, begun, go, ◌≤◌, ◌≡◌, ◌≢◌, ◌⊎◌, refl, [], ◌∷◌, arith}
use linux_unix_system_progra.Joins.Several.{
  count, func, joining, ended, Step, create, all_created, run, join, start,
}
use linux_unix_system_progra.Joins.Results.{results, CanMove, Printed, no_free, run_prints}

-- The lines in full.
results_lem : results count ≡ (0, 100) ∷ (1, 101) ∷ (2, 102) ∷ (3, 103) ∷ (4, 104) ∷ []
unfolding results
results_lem = refl

abbrev created : Trail Step no_free start
created =
    go
      (go
        (go (go (go begun (create 0 refl (omega arith) refl)) (create 1 refl (omega arith) refl))
          (create 2 refl (omega arith) refl))
        (create 3 refl (omega arith) refl))
      (create 4 refl (omega arith) refl)

abbrev waiting : Trail Step no_free start
waiting = go created (all_created 5 refl (λ h. omega arith) refl)

not_ended : joining 0 ≢ ended
not_ended e = ground (arith, e)

-- The threads run in the opposite order.
abbrev run_all : Trail Step no_free start
run_all =
    go
      (go
        (go
          (go (go waiting (run 4 (omega arith) not_ended refl refl))
            (run 3 (omega arith) not_ended refl refl))
          (run 2 (omega arith) not_ended refl refl))
        (run 1 (omega arith) not_ended refl refl))
      (run 0 (omega arith) not_ended refl refl)

abbrev joined_two : Trail Step no_free start
joined_two =
    go (go run_all (join 0 (func 0) refl (omega arith) refl refl))
      (join 1 (func 1) refl (omega arith) refl refl)

run_prints_example : (joined_two.steps ≤ 17) × (CanMove joined_two.last ⊎ Printed joined_two.last)
run_prints_example = run_prints joined_two.steps joined_two.path
