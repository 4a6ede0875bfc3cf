-- ===== src/ProducerConsumer/LostWakeup.antt =====
-- producer_consumer_model.c: a run whose last units come with no signal.
use linux_unix_system_progra.Prelude.{
  ℕ, zero, suc, ◌+◌, ◌%◌, ◌≤◌, ◌<◌, ◌≡◌, ◌≢◌, refl, false, none, some, ◌==◌, if◌then◌else◌, arith,
  subst,
}
use linux_unix_system_progra.ProducerConsumer.Defs.{
  total_count, cons, at_loop, finished, Consumer, testing, waiting, draining, System, wake,
  ProducerStep, ConsumerStep, by_producer, by_consumer, Reach, here, next,
}
use linux_unix_system_progra.ProducerConsumer.Safety.{Asleep}

-- The producer in front of round `j`, nobody in the mutex.
abbrev pub between : ℕ → ℕ → ℕ → Consumer → System
between j a d c = record {
  available = a;
  consumed = d;
  owner = none;
  p = at_loop j;
  c = c;
  stopped = false;
}

-- The consumer in the mutex.
abbrev pub inside : ℕ → ℕ → ℕ → Consumer → System
inside j a d c = record (between j a d c) { owner = some cons }

-- A round of the producer whose signal, if there is one, does not change the consumer.
one_round :
    (j a d : ℕ) (c : Consumer)
    → j < total_count
    → (if j % 10 == 0 then wake c else c) ≡ c
    → Reach (between j a d c)
    → Reach (between (j + 1) (a + 1) d c)
one_round j a d c lt quiet r =
    next
      (next
        (next (next r (by_producer refl (ProducerStep.lock j refl lt refl refl)))
          (by_producer refl (ProducerStep.produce j refl refl)))
        (by_producer refl (ProducerStep.unlock j refl refl)))
      (by_producer refl (ProducerStep.signal j refl (rw quiet)))

-- `n` rounds before the consumer has begun.
pub rounds_alone :
    (n j a d : ℕ)
    → n + j ≤ total_count
    → Reach (between j a d testing)
    → Reach (between (n + j) (n + a) d testing)
rounds_alone zero j a d le r = subst Reach (ground arith) r
rounds_alone (suc n) j a d le r = subst Reach (ground arith) (
    rounds_alone n (j + 1) (a + 1) d (omega arith)
      (one_round j a d testing (omega arith) (ground arith) r))

-- `n` rounds with no signal, between two multiples of ten.
rounds_quiet :
    (n j a d : ℕ)
    → 19990 < j
    → n + j ≤ total_count
    → Reach (between j a d waiting)
    → Reach (between (n + j) (n + a) d waiting)
rounds_quiet zero j a d lt le r = subst Reach (ground arith) r
rounds_quiet (suc n) j a d lt le r = subst Reach (ground arith) (
    rounds_quiet n (j + 1) (a + 1) d (omega arith) (omega arith)
      (one_round j a d waiting (omega arith) (ground arith) r))

pub drain : (a j d : ℕ) → Reach (inside j a d draining) → Reach (inside j 0 (a + d) draining)
drain zero j d r = subst Reach (ground arith) r
drain (suc a) j d r = subst Reach (ground arith) (
    drain a j (d + 1) (
      subst Reach (ground arith)
        (next r (by_consumer refl (ConsumerStep.consume refl (omega arith) refl)))))

-- The consumer takes all that there is, and goes to sleep.
consume_all :
    (a j : ℕ)
    → 0 < a
    → a ≢ total_count
    → Reach (between j a 0 testing)
    → Reach (between j 0 (a + 0) waiting)
consume_all a j pos ne r =
    next
      (next
        (next
          (next
            (next (drain a j 0 inside_now) (by_consumer refl (ConsumerStep.drained refl refl refl)))
            (by_consumer refl (ConsumerStep.unlock refl refl)))
          (by_consumer refl (ConsumerStep.begin refl (λ e. omega arith) refl)))
        (by_consumer refl (ConsumerStep.lock refl refl refl)))
      (by_consumer refl (ConsumerStep.wait refl refl refl))
  where
    inside_now : Reach (inside j a 0 draining)
    inside_now =
        next
          (next (next r (by_consumer refl (ConsumerStep.begin refl (λ e. omega arith) refl)))
            (by_consumer refl (ConsumerStep.lock refl refl refl)))
          (by_consumer refl (ConsumerStep.enter refl pos refl))

-- The producer has returned, nine units are left, and the consumer waits for a signal.
abbrev pub asleep : System
asleep = record (between 0 9 19991 waiting) { p = finished }

asleep-Reach : Reach asleep
asleep-Reach =
    next
      (rounds_quiet 9 19991 0 19991 (omega arith) (omega arith) (
        consume_all 19991 19991 (omega arith) (λ e. omega arith)
          (rounds_alone 19991 0 0 0 (omega arith) here)))
      (by_producer refl (ProducerStep.leave 20000 refl (omega arith) refl))

producer_stuck : (t : System) → ¬ ProducerStep asleep t
producer_stuck t (ProducerStep.lock j a b c e) = ground arith
producer_stuck t (ProducerStep.leave j a b e) = ground arith
producer_stuck t (ProducerStep.produce j a e) = ground arith
producer_stuck t (ProducerStep.unlock j a e) = ground arith
producer_stuck t (ProducerStep.signal j a e) = ground arith

consumer_stuck : (t : System) → ¬ ConsumerStep asleep t
consumer_stuck t (ConsumerStep.begin a b e) = ground arith
consumer_stuck t (ConsumerStep.return a b e) = ground arith
consumer_stuck t (ConsumerStep.lock a b e) = ground arith
consumer_stuck t (ConsumerStep.wait a b e) = ground arith
consumer_stuck t (ConsumerStep.relock a b e) = ground arith
consumer_stuck t (ConsumerStep.enter a b e) = ground arith
consumer_stuck t (ConsumerStep.consume a b e) = ground arith
consumer_stuck t (ConsumerStep.drained a b e) = ground arith
consumer_stuck t (ConsumerStep.unlock a e) = ground arith

-- There is a reachable state, of a process that has not ended, in which the consumer sleeps after
-- the producer has returned, nine units are left, and neither thread has a step of its own.
pub lost_wakeup :
    (s : System) × Reach s
    × (s.stopped ≡ false)
    × Asleep s
    × (s.available ≡ 9)
    × ((t : System) → ¬ ProducerStep s t)
    × ((t : System) → ¬ ConsumerStep s t)
lost_wakeup =
    (asleep, asleep-Reach, refl, (refl, refl, omega arith), refl, producer_stuck, consumer_stuck)
