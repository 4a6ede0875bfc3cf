-- ===== src/ProducerConsumer/Termination.antt =====
-- producer_consumer_model.c: how many steps a run can have.
use linux_unix_system_progra.Prelude.{
  ℕ, zero, suc, ◌+◌, ◌-◌, ◌*◌, ◌≤◌, ◌<◌, ◌≡◌, Bool, true, false, arith, Run, Run-measure,
}
use linux_unix_system_progra.ProducerConsumer.Defs.{
  total_count, Producer, at_loop, producing, unlocking, signalling, finished, Consumer, testing,
  locking, checking, waiting, woken, draining, leaving, returned, System, ProducerStep,
  ConsumerStep, Step, by_producer, by_consumer, spurious, error, start,
}
use linux_unix_system_progra.ProducerConsumer.Invariant.{Inv, Step-Inv}

-- 1 for a wake-up with no signal.
abbrev pub wakeups : (s t : System) → Step s t → ℕ
wakeups s t (by_producer r m) = 0
wakeups s t (by_consumer r m) = 0
wakeups s t (spurious r a e) = 1
wakeups s t (error r a e) = 0

-- What the producer has still to do, the signals included.
abbrev pub producer_left : Producer → ℕ
producer_left (at_loop j) = 16 * (total_count - j) + 1
producer_left (producing j) = 16 * (total_count - j)
producer_left (unlocking j) = 16 * (total_count - j) - 11
producer_left (signalling j) = 16 * (total_count - j) - 12
producer_left finished = 0

-- What the consumer has still to do until it sleeps, besides consuming.
abbrev pub consumer_left : Consumer → ℕ → ℕ
consumer_left testing a = 6
consumer_left locking a = 5
consumer_left checking a = 4
consumer_left waiting a = 3
consumer_left woken a = 5
consumer_left draining zero = 8
consumer_left draining (suc a) = 3
consumer_left leaving a = 7
consumer_left returned a = 0

abbrev pub going : Bool → ℕ
going false = 1
going true = 0

abbrev pub left : System → ℕ
left s = producer_left s.p + 10 * s.available + consumer_left s.c s.available + going s.stopped

producer_drops : (s t : System) → ProducerStep s t → s.stopped ≡ false → Inv s → left t < left s
producer_drops s t (ProducerStep.lock j a b c e) run inv = ground arith
producer_drops s t (ProducerStep.leave j a b e) run inv = ground arith
producer_drops s t (ProducerStep.produce j a e) run inv = ground arith
producer_drops s t (ProducerStep.unlock j a e) run inv = ground arith
producer_drops s t (ProducerStep.signal j a e) run inv = ground arith

consumer_drops : (s t : System) → ConsumerStep s t → s.stopped ≡ false → Inv s → left t < left s
consumer_drops s t (ConsumerStep.begin a b e) run inv = ground arith
consumer_drops s t (ConsumerStep.return a b e) run inv = ground arith
consumer_drops s t (ConsumerStep.lock a b e) run inv = ground arith
consumer_drops s t (ConsumerStep.wait a b e) run inv = ground arith
consumer_drops s t (ConsumerStep.relock a b e) run inv = ground arith
consumer_drops s t (ConsumerStep.enter a b e) run inv = ground arith
consumer_drops s t (ConsumerStep.consume a b e) run inv = ground arith
consumer_drops s t (ConsumerStep.drained a b e) run inv = ground arith
consumer_drops s t (ConsumerStep.unlock a e) run inv = ground arith

drops : (s t : System) (m : Step s t) → Inv s → left t < left s + 3 * wakeups s t m
drops s t (by_producer r m) inv = omega (arith, producer_drops s t m r inv)
drops s t (by_consumer r m) inv = omega (arith, consumer_drops s t m r inv)
drops s t (spurious r a e) inv = ground arith
drops s t (error r a e) inv = ground arith

-- However the threads are scheduled, a run from the start of the program has at most 320008 steps, and
-- three more for each wake-up with no signal.
pub run_bounded : {s : System} (n k : ℕ) → Run Step wakeups start n k s → n ≤ 320008 + 3 * k
run_bounded {s} n k r =
    omega (arith, (Run-measure Step wakeups Inv Step-Inv left 3 drops (ground arith) r).1)
