-- ===== src/Polling/Defs.antt =====
-- prod_no_condvar.c: `main` creates a producer for each argument and then polls for units, one
-- access to shared memory or call of pthreads at a time. A step that would overflow an `int`, whose
-- behaviour is undefined, is none.
use linux_unix_system_progra.Prelude.{ℕ, ◌+◌, ◌-◌, ◌<◌, ◌≡◌, Bool, true, false, update, leb}
use linux_unix_system_progra.Prelude.Int.{ℤ, pos, negsuc, ◌+ℤ◌, is_less}

-- INT_MAX, where `int` has 32 bits.
abbrev pub int_max : ℕ
int_max = 2147483647

-- The number is one of an `int`.
abbrev pub in_int : ℤ → Bool
in_int (pos n) = leb n int_max
in_int (negsuc n) = leb n int_max

-- `numConsumed >= totalRequired`
abbrev pub is_done : ℕ → ℤ → Bool
is_done n total = elim (is_less (pos n) total) [ true ↦ false | false ↦ true ]

-- Where a producer stands in round `j` of its loop.
pub data Place : Type 0 where
  unborn : Place
  at_loop : (j : ℕ) → Place
  producing : (j : ℕ) → Place  -- owns the mutex, before `avail++`
  unlocking : (j : ℕ) → Place
  finished : Place

-- A thread, with the value of its argument, the number of units that it makes where it is not
-- negative.
pub record Producer : Type 0 where
  pub cnt : ℤ
  pub place : Place

pub data Main : Type 0 where
  creating : (j : ℕ) → Main
  locking : Main
  draining : Main  -- owns the mutex, before `while (avail > 0)`
  unlocking_main : Main
  testing : Main  -- before `if (done)`
  left_loop : Main
  failed : Main

pub data Owner : Type 0 where
  nobody : Owner
  by_main : Owner
  by_producer : (i : ℕ) → Owner

pub record System : Type 0 where
  pub table : ℕ → Producer
  pub avail : ℕ
  pub num_consumed : ℕ
  pub total_required : ℤ
  pub done : Bool
  pub owner : Owner
  pub main : Main

abbrev pub set : System → ℕ → Place → System
set s i x = record s { table = update s.table i (record (s.table i) { place = x }) }

-- The process goes on. The main function ends it when it has left its loop.
abbrev pub running : Main → Bool
running (creating j) = true
running locking = true
running draining = true
running unlocking_main = true
running testing = true
running left_loop = false
running failed = false

pub data ProducerStep (i : ℕ) (s t : System) : Type 0 where
  lock :
      (j : ℕ)
      → (s.table i).place ≡ at_loop j
      → is_less (pos j) (s.table i).cnt ≡ true
      → s.owner ≡ nobody
      → t ≡ record (set s i (producing j)) { owner = by_producer i }
      → ProducerStep i s t
  leave :
      (j : ℕ)
      → (s.table i).place ≡ at_loop j
      → is_less (pos j) (s.table i).cnt ≡ false
      → t ≡ set s i finished
      → ProducerStep i s t
  produce :
      (j : ℕ)
      → (s.table i).place ≡ producing j
      → s.avail < int_max
      → t ≡ record (set s i (unlocking j)) { avail = s.avail + 1 }
      → ProducerStep i s t
  unlock :
      (j : ℕ)
      → (s.table i).place ≡ unlocking j
      → t ≡ record (set s i (at_loop (j + 1))) { owner = nobody }
      → ProducerStep i s t

-- `threads` is argc - 1.
pub data MainStep (threads : ℕ) (s t : System) : Type 0 where
  create :
      (j : ℕ)
      → s.main ≡ creating j
      → j < threads
      → in_int (s.total_required +ℤ (s.table j).cnt) ≡ true
      → t ≡ record (set s j (at_loop 0)) {
        total_required = s.total_required +ℤ (s.table j).cnt;
        main = creating (j + 1);
      }
      → MainStep threads s t
  created :
      (j : ℕ)
      → s.main ≡ creating j
      → ¬ (j < threads)
      → t ≡ record s { main = locking }
      → MainStep threads s t
  lock :
      s.main ≡ locking
      → s.owner ≡ nobody
      → t ≡ record s { owner = by_main; main = draining }
      → MainStep threads s t
  consume :
      s.main ≡ draining
      → 0 < s.avail
      → s.num_consumed < int_max
      → t ≡ record s {
        num_consumed = s.num_consumed + 1;
        avail = s.avail - 1;
        done = is_done (s.num_consumed + 1) s.total_required;
      }
      → MainStep threads s t
  drained :
      s.main ≡ draining
      → s.avail ≡ 0
      → t ≡ record s { main = unlocking_main }
      → MainStep threads s t
  unlock :
      s.main ≡ unlocking_main
      → t ≡ record s { owner = nobody; main = testing }
      → MainStep threads s t
  leave :
      s.main ≡ testing → s.done ≡ true → t ≡ record s { main = left_loop } → MainStep threads s t
  again : s.main ≡ testing → s.done ≡ false → t ≡ record s { main = locking } → MainStep threads s t

-- A step of a thread, or the exit where a call of pthreads reports an error.
pub data Step (threads : ℕ) (s t : System) : Type 0 where
  of_producer :
      (i : ℕ) → i < threads → running s.main ≡ true → ProducerStep i s t → Step threads s t
  of_main : running s.main ≡ true → MainStep threads s t → Step threads s t
  error : running s.main ≡ true → t ≡ record s { main = failed } → Step threads s t

-- `args` are the values of atoi of the arguments.
abbrev pub start : (ℕ → ℤ) → System
start args = record {
  table = λ i. record { cnt = args i; place = unborn };
  avail = 0;
  num_consumed = 0;
  total_required = pos 0;
  done = false;
  owner = nobody;
  main = creating 0;
}

pub data Reach (threads : ℕ) (args : ℕ → ℤ) : System → Type 0 where
  here : Reach threads args (start args)
  next : {s t : System} → Reach threads args s → Step threads s t → Reach threads args t
