-- ===== src/Polling/Balance.antt =====
-- prod_no_condvar.c: the units that are still to come, available and consumed.
use linux_unix_system_progra.Prelude.{
  ℕ, ◌+◌, ◌-◌, ◌<◌, ◌≤◌, ◌≡◌, ◌≢◌, refl, sym, ap, ◌∙◌, subst, Bool, true, false, arith, tally,
  tally-update, tally-ge, tally-const,
}
use linux_unix_system_progra.Prelude.Int.{ℤ, pos, negsuc, ◌+ℤ◌, is_less}
use linux_unix_system_progra.Polling.Defs.{
  is_done, Place, unborn, at_loop, producing, unlocking, finished, Producer, Main, creating,
  locking, draining, unlocking_main, testing, left_loop, failed, System, set, ProducerStep,
  MainStep, Step, of_producer, of_main, error, start, Reach, here, next,
}

-- The units that a producer has still to make.
abbrev pub left_at : ℕ → Place → ℕ
left_at c unborn = 0
left_at c (at_loop j) = c - j
left_at c (producing j) = c - j
left_at c (unlocking j) = c - (j + 1)
left_at c finished = 0

-- The number of rounds of a loop that counts from 0 up to a number.
abbrev pub rounds_of : ℤ → ℕ
rounds_of (pos n) = n
rounds_of (negsuc n) = 0

abbrev pub left : Producer → ℕ
left p = left_at (rounds_of p.cnt) p.place

less_rounds : (j : ℕ) (z : ℤ) → is_less (pos j) z ≡ true → j < rounds_of z
less_rounds j (pos n) h = ground (arith, h)
less_rounds j (negsuc n) h = ground (arith, h)

all_rounds : (j : ℕ) (z : ℤ) → is_less (pos j) z ≡ false → rounds_of z ≤ j
all_rounds j (pos n) h = ground (arith, h)
all_rounds j (negsuc n) h = omega arith

not_negative : (z : ℤ) → is_less z (pos 0) ≡ false → z ≡ pos (rounds_of z)
not_negative (pos n) h = refl
not_negative (negsuc n) h = absurd (ground (arith, h))

rounds_of_add :
    (a b : ℤ)
    → a ≡ pos (rounds_of a)
    → b ≡ pos (rounds_of b)
    → (a +ℤ b ≡ pos (rounds_of a + rounds_of b)) × (rounds_of (a +ℤ b) ≡ rounds_of a + rounds_of b)
rounds_of_add (pos a) (pos b) p q = (refl, refl)
rounds_of_add (pos a) (negsuc b) p q = absurd (ground (arith, q))
rounds_of_add (negsuc a) b p q = absurd (ground (arith, p))

done_rounds : (n : ℕ) (z : ℤ) → z ≡ pos (rounds_of z) → is_done n z ≡ true → rounds_of z ≤ n
done_rounds n (pos k) p h = ground (arith, h)
done_rounds n (negsuc k) p h = absurd (ground (arith, p))

abbrev pub Fits : ℕ → Place → Type 0
Fits c unborn = Unit
Fits c (at_loop j) = Unit
Fits c (producing j) = j < c
Fits c (unlocking j) = j < c
Fits c finished = Unit

abbrev pub AtMain : Main → (ℕ → Producer) → Bool → Type 0
AtMain (creating j) f d = ((i : ℕ) → j ≤ i → (f i).place ≡ unborn) × (d ≡ false)
AtMain locking f d = d ≡ false
AtMain draining f d = Unit
AtMain unlocking_main f d = Unit
AtMain testing f d = Unit
AtMain left_loop f d = d ≡ true
AtMain failed f d = Unit

pub record Inv (n : ℕ) (s : System) : Type 0 where
  pub fits : (i : ℕ) → Fits (rounds_of (s.table i).cnt) (s.table i).place
  pub not_negative : (i : ℕ) → i < n → (s.table i).cnt ≡ pos (rounds_of (s.table i).cnt)
  pub total : s.total_required ≡ pos (rounds_of s.total_required)
  pub balance : s.avail + s.num_consumed + tally left n s.table ≡ rounds_of s.total_required
  pub at_main : AtMain s.main s.table s.done
  pub enough : s.done ≡ true → (rounds_of s.total_required ≤ s.num_consumed) × (0 < s.num_consumed)

-- A producer moves on to `x`; what it has made since is available.
Inv-set :
    (n i : ℕ) (s t : System) (x : Place)
    → i < n
    → Inv n s
    → t.table ≡ (set s i x).table
    → t.main ≡ s.main
    → t.done ≡ s.done
    → t.total_required ≡ s.total_required
    → t.num_consumed ≡ s.num_consumed
    → (s.table i).place ≢ unborn
    → Fits (rounds_of (s.table i).cnt) x
    → t.avail + left_at (rounds_of (s.table i).cnt) x ≡ s.avail + left (s.table i)
    → Inv n t
Inv-set n i s t x lt inv table main done total consumed is_born fit made = record {
  fits = λ k. ground (arith, inv.fits k);
  not_negative = λ k k_lt. ground (arith, inv.not_negative k k_lt);
  total = ground (arith, inv.total);
  balance =
      let moved : Producer = record (s.table i) { place = x } in
      rw (table) (
        omega (
          arith,
          inv.balance,
          ap rounds_of total,
          consumed,
          made,
          tally-update left n s.table i moved lt,
        ));
  at_main = ground (arith, inv.at_main);
  enough = ground (arith, inv.enough);
}

Producer-Inv : (n i : ℕ) (s t : System) → i < n → ProducerStep i s t → Inv n s → Inv n t
Producer-Inv n i s t lt (ProducerStep.lock j a b c q) inv =
    let more = less_rounds j (s.table i).cnt b in
    Inv-set n i s t (producing j) lt inv (ground arith) (ground arith) (ground arith) (ground arith)
      (ground arith) (ground arith) more (ground arith)
Producer-Inv n i s t lt (ProducerStep.leave j a b q) inv =
    let all = all_rounds j (s.table i).cnt b in
    Inv-set n i s t finished lt inv (ground arith) (ground arith) (ground arith) (ground arith)
      (ground arith) (ground arith) tt (ground arith)
Producer-Inv n i s t lt (ProducerStep.produce j a b q) inv =
    Inv-set n i s t (unlocking j) lt inv (ground arith) (ground arith) (ground arith) (ground arith)
      (ground arith) (ground arith) (ground (arith, inv.fits i)) (ground (arith, inv.fits i))
Producer-Inv n i s t lt (ProducerStep.unlock j a q) inv =
    Inv-set n i s t (at_loop (j + 1)) lt inv (ground arith) (ground arith) (ground arith)
      (ground arith) (ground arith) (ground arith) tt (ground arith)

next_unborn :
    (n : ℕ) (s : System) (j : ℕ) → Inv n s → s.main ≡ creating j → (s.table j).place ≡ unborn
next_unborn n s j inv a = (subst (λ m. AtMain m s.table s.done) a inv.at_main).0 j (omega arith)

create-Inv :
    (n : ℕ) (s : System) (j : ℕ)
    → s.main ≡ creating j
    → j < n
    → Inv n s
    → Inv n (record (set s j (at_loop 0)) {
      total_required = s.total_required +ℤ (s.table j).cnt;
      main = creating (j + 1);
    })
create-Inv n s j a lt inv =
    let (sum, rounds) =
      rounds_of_add s.total_required (s.table j).cnt inv.total (inv.not_negative j lt) in
    record {
      fits = λ k. ground (arith, inv.fits k);
      not_negative = λ k k_lt. ground (arith, inv.not_negative k k_lt);
      total = sum ∙ ap pos (sym rounds);
      balance = ground (
        arith,
        rounds,
        inv.balance,
        next_unborn n s j inv a,
        tally-update left n s.table j (record (s.table j) { place = at_loop 0 }) lt,
      );
      at_main = ground (arith, inv.at_main);
      enough = ground (arith, inv.at_main);
    }

consume-Inv :
    (n : ℕ) (s : System)
    → s.main ≡ draining
    → 0 < s.avail
    → Inv n s
    → Inv n (record s {
      num_consumed = s.num_consumed + 1;
      avail = s.avail - 1;
      done = is_done (s.num_consumed + 1) s.total_required;
    })
consume-Inv n s a some_unit inv = record {
  fits = inv.fits;
  not_negative = inv.not_negative;
  total = inv.total;
  balance = omega (arith, inv.balance, some_unit);
  at_main = ground arith;
  enough = λ h. (done_rounds (s.num_consumed + 1) s.total_required inv.total h, omega arith);
}

Main-Inv : (n : ℕ) (s t : System) → MainStep n s t → Inv n s → Inv n t
Main-Inv n s t (MainStep.create j a lt b q) inv = subst (Inv n) (sym q) (create-Inv n s j a lt inv)
Main-Inv n s t (MainStep.created j a b q) inv = ground arith
Main-Inv n s t (MainStep.lock a b q) inv = ground arith
Main-Inv n s t (MainStep.consume a b c q) inv = subst (Inv n) (sym q) (consume-Inv n s a b inv)
Main-Inv n s t (MainStep.drained a b q) inv = ground arith
Main-Inv n s t (MainStep.unlock a q) inv = ground arith
Main-Inv n s t (MainStep.leave a b q) inv = ground arith
Main-Inv n s t (MainStep.again a b q) inv = ground arith

Step-Inv : (n : ℕ) (s t : System) → Step n s t → Inv n s → Inv n t
Step-Inv n s t (of_producer i lt run m) inv = Producer-Inv n i s t lt m inv
Step-Inv n s t (of_main run m) inv = Main-Inv n s t m inv
Step-Inv n s t (error run q) inv = ground arith

start-Inv :
    (n : ℕ) (args : ℕ → ℤ)
    → ((i : ℕ) → i < n → is_less (args i) (pos 0) ≡ false)
    → Inv n (start args)
start-Inv n args sizes = record {
  fits = λ i. tt;
  not_negative = λ i lt. not_negative (args i) (sizes i lt);
  total = refl;
  balance = omega (arith, tally-const left n 0 (start args).table (λ i lt. refl));
  at_main = ground arith;
  enough = ground arith;
}

pub Reach-Inv :
    {n : ℕ} {args : ℕ → ℤ} {s : System}
    → ((i : ℕ) → i < n → is_less (args i) (pos 0) ≡ false)
    → Reach n args s
    → Inv n s
Reach-Inv {n} {args} sizes here = start-Inv n args sizes
Reach-Inv {n} sizes (next {s} {t} r m) = Step-Inv n s t m (Reach-Inv sizes r)

-- Where no argument is negative: when the polling loop has ended, totalRequired units were consumed, at
-- least one; none is available, and no producer has any left to make.
pub polled_all :
    {n : ℕ} {args : ℕ → ℤ} {s : System}
    → ((i : ℕ) → i < n → is_less (args i) (pos 0) ≡ false)
    → Reach n args s
    → s.main ≡ left_loop
    → (pos s.num_consumed ≡ s.total_required)
      × (0 < s.num_consumed)
      × (s.avail ≡ 0)
      × ((i : ℕ) → i < n → left (s.table i) ≡ 0)
polled_all {n} {args} {s} sizes r e =
    let inv = Reach-Inv sizes r in
    let over : s.done ≡ true = ground (arith, inv.at_main) in
    let (le, some_unit) = inv.enough over in
    let all : s.num_consumed ≡ rounds_of s.total_required = omega (arith, inv.balance) in
    (
      ap pos all ∙ sym inv.total,
      some_unit,
      omega (arith, inv.balance),
      λ i lt. omega (arith, inv.balance, tally-ge left n s.table i lt),
    )
