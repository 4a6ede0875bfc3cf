-- ===== src/ProducerConsumer/Safety.antt =====
-- producer_consumer_model.c: the counters, the mutex, and which thread has a next step.
use linux_unix_system_progra.Prelude.{
  ◌+◌, ◌≤◌, ◌<◌, ◌≡◌, ◌≢◌, refl, true, false, Option, none, some, arith, ◌⊎◌, inl, inr, dec_lt,
  ℕ_discrete, Option-cases,
}
use linux_unix_system_progra.ProducerConsumer.Defs.{
  total_count, Thread, prod, cons, Producer, at_loop, producing, unlocking, signalling, finished,
  Consumer, testing, locking, checking, waiting, woken, draining, leaving, returned, System,
  ProducerStep, ConsumerStep, Reach,
}
use linux_unix_system_progra.ProducerConsumer.Invariant.{
  made, producer_inside, consumer_inside, Inv, Reach-Inv,
}

-- The two threads are never between lock and unlock together.
pub mutual_exclusion :
    {s : System} → Reach s → producer_inside s.p ≡ true → consumer_inside s.c ≡ false
mutual_exclusion {s} r inside = ground (arith, Reach-Inv r)

-- What is available and what is consumed is what was produced, never more than TOTAL_COUNT.
pub conservation :
    {s : System} → Reach s → (s.available + s.consumed ≡ made s.p) × (made s.p ≤ total_count)
conservation {s} r = ground (arith, Reach-Inv r)

-- When the consumer has returned, TOTAL_COUNT units were consumed, none is left, and the producer
-- makes no more of them.
pub all_consumed :
    {s : System}
    → Reach s
    → s.c ≡ returned
    → (s.consumed ≡ total_count) × (s.available ≡ 0) × (made s.p ≡ total_count)
all_consumed {s} r done = ground (arith, Reach-Inv r)

-- One of the threads has a next step, other than a wake-up with no signal.
abbrev pub CanMove : System → Type 0
CanMove s = (t : System) × (ProducerStep s t ⊎ ConsumerStep s t)

-- Both threads have returned, and all units are consumed.
abbrev pub Complete : System → Type 0
Complete s = (s.p ≡ finished) × (s.c ≡ returned)

-- The producer has returned and the consumer still waits for a signal, with less than ten units
-- left over.
abbrev pub Asleep : System → Type 0
Asleep s = (s.p ≡ finished) × (s.c ≡ waiting) × (s.available < 10)

producer_moves :
    (s : System) (p : Producer)
    → Inv s
    → s.p ≡ p
    → p ≢ finished
    → (s.owner ≡ none) ⊎ (producer_inside p ≡ true)
    → CanMove s
producer_moves s (at_loop j) inv e ne free = elim (dec_lt j total_count) [
  | yes lt ↦ (_, inl (ProducerStep.lock j e lt (ground arith) refl))
  | no ge ↦ (_, inl (ProducerStep.leave j e ge refl))
]
producer_moves s (producing j) inv e ne free = (_, inl (ProducerStep.produce j e refl))
producer_moves s (unlocking j) inv e ne free = (_, inl (ProducerStep.unlock j e refl))
producer_moves s (signalling j) inv e ne free = (_, inl (ProducerStep.signal j e refl))
producer_moves s finished inv e ne free = absurd (ne refl)

consumer_moves :
    (s : System) (c : Consumer)
    → s.c ≡ c
    → c ≢ returned
    → c ≢ waiting
    → (s.owner ≡ none) ⊎ (consumer_inside c ≡ true)
    → CanMove s
consumer_moves s testing e nr nw free = elim (ℕ_discrete s.consumed total_count) [
  | yes q ↦ (_, inr (ConsumerStep.return e q refl))
  | no q ↦ (_, inr (ConsumerStep.begin e q refl))
]
consumer_moves s locking e nr nw free = (_, inr (ConsumerStep.lock e (ground arith) refl))
consumer_moves s checking e nr nw free = elim (dec_lt 0 s.available) [
  | yes q ↦ (_, inr (ConsumerStep.enter e q refl))
  | no q ↦ (_, inr (ConsumerStep.wait e (omega arith) refl))
]
consumer_moves s waiting e nr nw free = absurd (nw refl)
consumer_moves s woken e nr nw free = (_, inr (ConsumerStep.relock e (ground arith) refl))
consumer_moves s draining e nr nw free = elim (dec_lt 0 s.available) [
  | yes q ↦ (_, inr (ConsumerStep.consume e q refl))
  | no q ↦ (_, inr (ConsumerStep.drained e (omega arith) refl))
]
consumer_moves s leaving e nr nw free = (_, inr (ConsumerStep.unlock e refl))
consumer_moves s returned e nr nw free = absurd (nr refl)

-- A thread owns the mutex only where it is inside.
owner_moves :
    (s : System) (o : Option Thread) → Inv s → s.owner ≡ o → (t : Thread) → o ≡ some t → CanMove s
owner_moves s none inv e t q = cc
owner_moves s (some prod) inv e t q =
    producer_moves s s.p inv refl (λ z. ground arith) (inr (ground arith))
owner_moves s (some cons) inv e t q =
    consumer_moves s s.c refl (λ z. ground arith) (λ z. ground arith) (inr (ground arith))

finished_or : (p : Producer) → (p ≡ finished) ⊎ (p ≢ finished)
finished_or (at_loop j) = inr (λ z. cc)
finished_or (producing j) = inr (λ z. cc)
finished_or (unlocking j) = inr (λ z. cc)
finished_or (signalling j) = inr (λ z. cc)
finished_or finished = inl refl

last_moves :
    (s : System) (c : Consumer)
    → Inv s
    → s.c ≡ c
    → s.p ≡ finished
    → s.owner ≡ none
    → CanMove s ⊎ (Complete s ⊎ Asleep s)
last_moves s waiting inv e done free = inr (inr (done, e, ground arith))
last_moves s returned inv e done free = inr (inl (done, e))
last_moves s testing inv e done free =
    inl (consumer_moves s testing e (λ z. cc) (λ z. cc) (inl free))
last_moves s c inv e done free = inl (consumer_moves s c e (λ z. cc) (λ z. cc) (inl free))

-- In every reachable state one of the threads has a next step (which it takes unless the process has
-- ended), or both have returned, or the consumer sleeps after the producer has returned, with less
-- than ten units left.
pub progress : {s : System} → Reach s → CanMove s ⊎ (Complete s ⊎ Asleep s)
progress {s} r = elim (Option-cases s.owner) [
  | inr (t, e) ↦ inl (owner_moves s s.owner inv refl t e)
  | inl free ↦ elim (finished_or s.p) [
    | inl done ↦ last_moves s s.c inv refl done free
    | inr more ↦ inl (producer_moves s s.p inv refl more (inl free))
  ]
]
  where
    inv : Inv s
    inv = Reach-Inv r
