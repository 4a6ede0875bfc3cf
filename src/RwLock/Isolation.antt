-- ===== src/RwLock/Isolation.antt =====
-- t_pthread_rdlock.c: who is between lock and unlock, and what it has read.
use linux_unix_system_progra.Prelude.{
  ℕ, suc, ◌+◌, ◌≤◌, ◌<◌, ◌≡◌, ◌≢◌, refl, Bool, true, false, update, ◌==◌, arith, if◌then◌else◌, ltb,
  tally, tally-update, tally-ge, tally-const, dec_lt,
}
use linux_unix_system_progra.RwLock.Defs.{
  readers, threads, Place, unborn, before_read, reading, has_read, before_write, writing,
  has_written, Lock, free, shared, exclusive, System, ThreadStep, Step, by_thread, create, start,
  Reach, here, next,
}

abbrev pub reader_inside : Place → ℕ
reader_inside unborn = 0
reader_inside before_read = 0
reader_inside reading = 1
reader_inside (has_read v) = 1
reader_inside before_write = 0
reader_inside writing = 0
reader_inside has_written = 0

abbrev pub writer_inside : Place → Bool
writer_inside unborn = false
writer_inside before_read = false
writer_inside reading = false
writer_inside (has_read v) = false
writer_inside before_write = false
writer_inside writing = true
writer_inside has_written = true

abbrev pub reader_count : Lock → ℕ
reader_count free = 0
reader_count (shared n) = suc n
reader_count (exclusive i) = 0

abbrev pub owns : ℕ → Lock → Bool
owns i free = false
owns i (shared n) = false
owns i (exclusive j) = i == j

-- A reader has read the number that still stands there.
abbrev pub IsCurrent : Place → ℕ → Type 0
IsCurrent unborn b = Unit
IsCurrent before_read b = Unit
IsCurrent reading b = Unit
IsCurrent (has_read v) b = v ≡ b
IsCurrent before_write b = Unit
IsCurrent writing b = Unit
IsCurrent has_written b = Unit

pub record Inv (s : System) : Type 0 where
  pub readers_count : tally reader_inside threads s.table ≡ reader_count s.lock
  pub writer : (i : ℕ) → owns i s.lock ≡ writer_inside (s.table i)
  pub current : (i : ℕ) → IsCurrent (s.table i) s.beginnum
  pub few : s.created ≤ threads
  pub unborn_yet : (i : ℕ) → s.created ≤ i → s.table i ≡ unborn

-- Thread `i` moves on to `x`.
Inv-set :
    (i : ℕ) (s t : System) (x : Place)
    → i < threads
    → Inv s
    → t.table ≡ update s.table i x
    → t.created ≡ s.created
    → s.table i ≢ unborn
    → reader_count t.lock + reader_inside (s.table i) ≡ reader_count s.lock + reader_inside x
    → ((j : ℕ) → owns j t.lock ≡ (if i == j then writer_inside x else owns j s.lock))
    → IsCurrent x t.beginnum
    → ((j : ℕ) → IsCurrent (s.table j) t.beginnum)
    → Inv t
Inv-set i s t x lt inv table made is_born count owner now others = record {
  readers_count =
      rw (table) (
        omega (arith, inv.readers_count, count, tally-update reader_inside threads s.table i x lt));
  writer = λ j. ground (arith, inv.writer j, owner j);
  current = λ j. ground (arith, others j);
  few = ground (arith, inv.few);
  unborn_yet = λ j h. ground (arith, inv.unborn_yet j);
}

-- While a writer is inside no reader is.
no_reader :
    (s : System) (i j : ℕ)
    → Inv s
    → writer_inside (s.table i) ≡ true
    → reader_inside (s.table j) ≡ 0
no_reader s i j inv inside = elim (dec_lt j threads) [
  | yes lt ↦
      ground (arith, inv.writer i, inv.readers_count, tally-ge reader_inside threads s.table j lt)
  | no ge ↦ ground (arith, inv.unborn_yet j, inv.few)
]

IsCurrent-reader_inside : (x : Place) (b : ℕ) → reader_inside x ≡ 0 → IsCurrent x b
IsCurrent-reader_inside x b h = ground arith

Thread-Inv : (i : ℕ) (s t : System) → i < threads → ThreadStep i s t → Inv s → Inv t
Thread-Inv i s t lt (ThreadStep.rdlock_free a b q) inv =
    Inv-set i s t reading lt inv (ground arith) (ground arith) (ground arith) (ground arith)
      (λ j. ground arith) (ground arith) (λ j. ground (arith, inv.current j))
Thread-Inv i s t lt (ThreadStep.rdlock_shared n a b q) inv =
    Inv-set i s t reading lt inv (ground arith) (ground arith) (ground arith) (ground arith)
      (λ j. ground arith) (ground arith) (λ j. ground (arith, inv.current j))
Thread-Inv i s t lt (ThreadStep.read a q) inv =
    Inv-set i s t (has_read s.beginnum) lt inv (ground arith) (ground arith) (ground arith)
      (ground arith) (λ j. ground (arith, inv.writer i)) (ground arith)
      (λ j. ground (arith, inv.current j))
Thread-Inv i s t lt (ThreadStep.unlock_reader v a q) inv =
    let inside = tally-ge reader_inside threads s.table i lt in
    Inv-set i s t before_read lt inv (ground arith) (ground arith) (ground arith)
      (ground (arith, inv.readers_count, inside))
      (λ j. ground (arith, inv.writer i, inv.readers_count, inside)) (ground arith)
      (λ j. ground (arith, inv.current j))
Thread-Inv i s t lt (ThreadStep.wrlock a b q) inv =
    Inv-set i s t writing lt inv (ground arith) (ground arith) (ground arith) (ground arith)
      (λ j. ground arith) (ground arith) (λ j. ground (arith, inv.current j))
Thread-Inv i s t lt (ThreadStep.write a q) inv =
    Inv-set i s t has_written lt inv (ground arith) (ground arith) (ground arith) (ground arith)
      (λ j. ground (arith, inv.writer i)) (ground arith)
      (λ j. IsCurrent-reader_inside (s.table j) t.beginnum (no_reader s i j inv (ground arith)))
Thread-Inv i s t lt (ThreadStep.unlock_writer a q) inv =
    Inv-set i s t before_write lt inv (ground arith) (ground arith) (ground arith)
      (ground (arith, inv.writer i)) (λ j. ground (arith, inv.writer i, inv.writer j))
      (ground arith) (λ j. ground (arith, inv.current j))

Step-Inv : (s t : System) → Step s t → Inv s → Inv t
Step-Inv s t (by_thread i lt m) inv = Thread-Inv i s t lt m inv
Step-Inv s t (create lt q) inv =
    let x = if ltb s.created readers then before_read else before_write in
    record {
      readers_count = ground (
        arith,
        inv.readers_count,
        inv.unborn_yet s.created,
        tally-update reader_inside threads s.table s.created x lt,
      );
      writer = λ j. ground (arith, inv.writer j, inv.unborn_yet s.created);
      current = λ j. ground (arith, inv.current j);
      few = ground (arith, lt);
      unborn_yet = λ j h. ground (arith, inv.unborn_yet j);
    }

start-Inv : Inv start
start-Inv = record {
  readers_count = omega (arith, tally-const reader_inside threads 0 start.table (λ i lt. refl));
  writer = λ i. refl;
  current = λ i. tt;
  few = omega arith;
  unborn_yet = λ i h. refl;
}

Reach-Inv : {s : System} → Reach s → Inv s
Reach-Inv here = start-Inv
Reach-Inv (next {s} {t} r m) = Step-Inv s t m (Reach-Inv r)

-- While a writer is inside, no other writer and no reader is.
pub writer_alone :
    {s : System} (i j : ℕ)
    → Reach s
    → writer_inside (s.table i) ≡ true
    → (reader_inside (s.table j) ≡ 0) × (writer_inside (s.table j) ≡ true → i ≡ j)
writer_alone {s} i j r inside =
    let inv = Reach-Inv r in
    (no_reader s i j inv inside, λ h. ground (arith, inv.writer i, inv.writer j))

-- Until a reader unlocks, the number that it has printed is the one that stands there.
pub repeatable_read : {s : System} (i v : ℕ) → Reach s → s.table i ≡ has_read v → s.beginnum ≡ v
repeatable_read {s} i v r e = let inv = Reach-Inv r in ground (arith, inv.current i)
