-- ===== src/Joins/Several.antt =====
-- t_pthread_join2.c: five threads that return a number each, and `main`, which joins them in order.
-- The results of pthread_create and pthread_join are not looked at; the calls succeed.
use linux_unix_system_progra.Prelude.{ℕ, ◌+◌, ◌<◌, ◌≡◌, ◌≢◌, List, [], ◌∷◌, ◌++◌, update}

abbrev pub count : ℕ
count = 5

-- `func`, which gets its number as the argument.
unfoldable pub func : ℕ → ℕ
func arg = arg + 100

pub data Thread : Type 0 where
  unborn : Thread
  started : Thread
  returned : (num : ℕ) → Thread

pub data Main : Type 0 where
  creating : (i : ℕ) → Main
  joining : (i : ℕ) → Main
  ended : Main

pub record System : Type 0 where
  pub table : ℕ → Thread
  pub main : Main
  pub printed : List (ℕ × ℕ)  -- the lines of `main`, the last one at the end

pub data Step (s t : System) : Type 0 where
  create :
      (i : ℕ)
      → s.main ≡ creating i
      → i < count
      → t ≡ record s { table = update s.table i started; main = creating (i + 1) }
      → Step s t
  all_created :
      (i : ℕ) → s.main ≡ creating i → ¬ (i < count) → t ≡ record s { main = joining 0 } → Step s t
  run :
      (i : ℕ)
      → i < count
      → s.main ≢ ended
      → s.table i ≡ started
      → t ≡ record s { table = update s.table i (returned (func i)) }
      → Step s t
  join :
      (i num : ℕ)
      → s.main ≡ joining i
      → i < count
      → s.table i ≡ returned num
      → t ≡ record s { main = joining (i + 1); printed = s.printed ++ (i, num) ∷ [] }
      → Step s t
  end : (i : ℕ) → s.main ≡ joining i → ¬ (i < count) → t ≡ record s { main = ended } → Step s t

abbrev pub start : System
start = record { table = λ i. unborn; main = creating 0; printed = [] }

pub data Reach : System → Type 0 where
  here : Reach start
  next : {s t : System} → Reach s → Step s t → Reach t
