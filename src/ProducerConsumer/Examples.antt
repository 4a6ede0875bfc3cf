-- ===== src/ProducerConsumer/Examples.antt =====
-- Runs of producer_consumer_model.c.
use linux_unix_system_progra.Prelude.{◌≡◌, ◌≤◌, refl, ◌⊎◌, arith, some, Run, no_step, one_more}
use linux_unix_system_progra.ProducerConsumer.Defs.{
  total_count, prod, producing, draining, returned, System, ProducerStep, ConsumerStep, by_producer,
  by_consumer, spurious, woken, Step, start, Reach, here, next,
}
use linux_unix_system_progra.ProducerConsumer.Invariant.{made}
use linux_unix_system_progra.ProducerConsumer.Safety.{
  all_consumed, CanMove, Complete, Asleep, progress,
}
use linux_unix_system_progra.ProducerConsumer.Termination.{wakeups, run_bounded}
use linux_unix_system_progra.ProducerConsumer.LostWakeup.{between, inside, rounds_alone, drain}

abbrev locked : System
locked = record start { owner = some prod; p = producing 0 }

locked-Reach : Reach locked
locked-Reach = next here (by_producer refl (ProducerStep.lock 0 refl (omega arith) refl refl))

-- The producer runs first, then the consumer takes everything and returns.
abbrev at_end : System
at_end = between 20000 0 20000 returned

at_end-Reach : Reach at_end
at_end-Reach =
    next
      (next
        (next (drain 20000 20000 0 began) (by_consumer refl (ConsumerStep.drained refl refl refl)))
        (by_consumer refl (ConsumerStep.unlock refl refl)))
      (by_consumer refl (ConsumerStep.return refl refl refl))
  where
    began : Reach (inside 20000 20000 0 draining)
    began =
        next
          (next
            (next (rounds_alone 20000 0 0 0 (omega arith) here)
              (by_consumer refl (ConsumerStep.begin refl (λ e. omega arith) refl)))
            (by_consumer refl (ConsumerStep.lock refl refl refl)))
          (by_consumer refl (ConsumerStep.enter refl (omega arith) refl))

all_consumed_example :
    (at_end.consumed ≡ total_count) × (at_end.available ≡ 0) × (made at_end.p ≡ total_count)
all_consumed_example = all_consumed at_end-Reach refl

progress_example : CanMove locked ⊎ (Complete locked ⊎ Asleep locked)
progress_example = progress locked-Reach

-- The consumer waits, and is woken with no signal.
abbrev woken_early : System
woken_early = record start { c = woken }

woken_early-Run : Run Step wakeups start 4 1 woken_early
woken_early-Run =
    one_more
      (one_more
        (one_more
          (one_more no_step (by_consumer refl (ConsumerStep.begin refl (λ e. omega arith) refl)))
          (by_consumer refl (ConsumerStep.lock refl refl refl)))
        (by_consumer refl (ConsumerStep.wait refl refl refl)))
      (spurious refl refl refl)

run_bounded_example : 4 ≤ 320011
run_bounded_example = run_bounded 4 1 woken_early-Run
