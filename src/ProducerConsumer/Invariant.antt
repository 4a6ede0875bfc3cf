-- ===== src/ProducerConsumer/Invariant.antt =====
-- producer_consumer_model.c: the invariant and the steps.
use linux_unix_system_progra.Prelude.{
  ℕ, ◌+◌, ◌%◌, ◌≤◌, ◌<◌, ◌≡◌, Bool, true, false, Option, none, some, arith,
}
use linux_unix_system_progra.ProducerConsumer.Defs.{
  total_count, Thread, prod, cons, Producer, at_loop, producing, unlocking, signalling, finished,
  Consumer, testing, locking, checking, waiting, woken, draining, leaving, returned, System,
  ProducerStep, ConsumerStep, Step, by_producer, by_consumer, spurious, error, Reach, here, next,
}

-- Units produced so far.
abbrev pub made : Producer → ℕ
made (at_loop j) = j
made (producing j) = j
made (unlocking j) = j + 1
made (signalling j) = j + 1
made finished = total_count

-- The round lies in the loop's range.
abbrev pub InRange : Producer → Type 0
InRange (at_loop j) = j ≤ total_count
InRange (producing j) = j < total_count
InRange (unlocking j) = j < total_count
InRange (signalling j) = j < total_count
InRange finished = Unit

abbrev pub producer_inside : Producer → Bool
producer_inside (producing j) = true
producer_inside (unlocking j) = true
producer_inside (at_loop j) = false
producer_inside (signalling j) = false
producer_inside finished = false

abbrev pub consumer_inside : Consumer → Bool
consumer_inside checking = true
consumer_inside draining = true
consumer_inside leaving = true
consumer_inside testing = false
consumer_inside locking = false
consumer_inside waiting = false
consumer_inside woken = false
consumer_inside returned = false

abbrev pub owns : Thread → Option Thread → Bool
owns prod (some prod) = true
owns cons (some cons) = true
owns prod (some cons) = false
owns cons (some prod) = false
owns t none = false

-- An upper bound on the units made since the last signal was due.
abbrev pub unsignalled : Producer → ℕ
unsignalled (at_loop j) = (j + 9) % 10
unsignalled (producing j) = (j + 9) % 10
unsignalled (unlocking j) = (j + 9) % 10 + 1
unsignalled (signalling j) = (j + 9) % 10 + 1
unsignalled finished = 9

abbrev pub AtConsumer : Consumer → System → Type 0
AtConsumer waiting s = s.available ≤ unsignalled s.p
AtConsumer leaving s = s.available ≡ 0
AtConsumer returned s = s.consumed ≡ total_count
AtConsumer testing s = Unit
AtConsumer locking s = Unit
AtConsumer checking s = Unit
AtConsumer woken s = Unit
AtConsumer draining s = Unit

pub record Inv (s : System) : Type 0 where
  pub conserved : s.available + s.consumed ≡ made s.p
  pub in_range : InRange s.p
  pub producer_owns : owns prod s.owner ≡ producer_inside s.p
  pub consumer_owns : owns cons s.owner ≡ consumer_inside s.c
  pub at_consumer : AtConsumer s.c s

Producer-Inv : (s t : System) → ProducerStep s t → Inv s → Inv t
Producer-Inv s t (ProducerStep.lock j a b c e) inv = ground arith
Producer-Inv s t (ProducerStep.leave j a b e) inv = ground arith
Producer-Inv s t (ProducerStep.produce j a e) inv = ground arith
Producer-Inv s t (ProducerStep.unlock j a e) inv = ground arith
Producer-Inv s t (ProducerStep.signal j a e) inv = ground arith

Consumer-Inv : (s t : System) → ConsumerStep s t → Inv s → Inv t
Consumer-Inv s t (ConsumerStep.begin a b e) inv = ground arith
Consumer-Inv s t (ConsumerStep.return a b e) inv = ground arith
Consumer-Inv s t (ConsumerStep.lock a b e) inv = ground arith
Consumer-Inv s t (ConsumerStep.wait a b e) inv = ground arith
Consumer-Inv s t (ConsumerStep.relock a b e) inv = ground arith
Consumer-Inv s t (ConsumerStep.enter a b e) inv = ground arith
Consumer-Inv s t (ConsumerStep.consume a b e) inv = ground arith
Consumer-Inv s t (ConsumerStep.drained a b e) inv = ground arith
Consumer-Inv s t (ConsumerStep.unlock a e) inv = ground arith

pub Step-Inv : (s t : System) → Step s t → Inv s → Inv t
Step-Inv s t (by_producer r m) inv = Producer-Inv s t m inv
Step-Inv s t (by_consumer r m) inv = Consumer-Inv s t m inv
Step-Inv s t (spurious r a e) inv = ground arith
Step-Inv s t (error r a e) inv = ground arith

pub Reach-Inv : {s : System} → Reach s → Inv s
Reach-Inv here = ground arith
Reach-Inv (next {s} {t} r m) = Step-Inv s t m (Reach-Inv r)
