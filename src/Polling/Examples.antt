-- ===== src/Polling/Examples.antt =====
-- A run of prod_no_condvar.c.
use linux_unix_system_progra.Prelude.{ℕ, ◌<◌, ◌≡◌, refl, true, arith}
use linux_unix_system_progra.Prelude.Int.{ℤ, pos}
use linux_unix_system_progra.Polling.Defs.{
  System, ProducerStep, MainStep, of_producer, of_main, start, Reach, here, next, running,
}
use linux_unix_system_progra.Polling.Balance.{left, polled_all}

-- One producer of one unit.
record Run : Type 0 where
  last : System
  path : Reach 1 (λ i. pos 1) last

abbrev one : ℕ → ℤ
one i = pos 1

abbrev by_thread :
    (r : Run) {t : System} → ProducerStep 0 r.last t → running r.last.main ≡ true → Run
by_thread r {t} m e = record { last = t; path = next r.path (of_producer 0 (omega arith) e m) }

abbrev main_moves : (r : Run) {t : System} → MainStep 1 r.last t → running r.last.main ≡ true → Run
main_moves r {t} m e = record { last = t; path = next r.path (of_main e m) }

abbrev all_created : Run
all_created =
    main_moves
      (main_moves (record { last = start one; path = here })
        (MainStep.create 0 refl (omega arith) refl refl) refl)
      (MainStep.created 1 refl (omega arith) refl) refl

abbrev produced : Run
produced =
    by_thread
      (by_thread (by_thread all_created (ProducerStep.lock 0 refl refl refl refl) refl)
        (ProducerStep.produce 0 refl (omega arith) refl) refl)
      (ProducerStep.unlock 0 refl refl) refl

abbrev polled : Run
polled =
    main_moves
      (main_moves
        (main_moves
          (main_moves (main_moves produced (MainStep.lock refl refl refl) refl)
            (MainStep.consume refl (omega arith) (omega arith) refl) refl)
          (MainStep.drained refl refl refl) refl)
        (MainStep.unlock refl refl) refl)
      (MainStep.leave refl refl refl) refl

polled_all_example :
    (pos polled.last.num_consumed ≡ polled.last.total_required)
    × (0 < polled.last.num_consumed)
    × (polled.last.avail ≡ 0)
    × ((i : ℕ) → i < 1 → left (polled.last.table i) ≡ 0)
polled_all_example = polled_all (λ i lt. refl) polled.path refl
