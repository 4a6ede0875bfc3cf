-- ===== src/Joins/Results.antt =====
-- t_pthread_join2.c: what `main` prints, and that it ends.
use linux_unix_system_progra.Prelude.{
  ℕ, zero, suc, ◌+◌, ◌-◌, ◌*◌, ◌≤◌, ◌<◌, ◌≡◌, ◌≢◌, ◌⊎◌, inl, inr, refl, List, [], ◌∷◌, ◌++◌, arith,
  dec_lt, ap, tally, tally-update, tally-const, Run, Run-measure,
}
use linux_unix_system_progra.Joins.Several.{
  count, func, Thread, unborn, started, returned, Main, creating, joining, ended, System, Step,
  create, all_created, run, join, end, start,
}

-- What the first `n` threads return, in order.
unfoldable pub results : ℕ → List (ℕ × ℕ)
results zero = []
results (suc n) = results n ++ (n, n + 100) ∷ []

abbrev Returns : ℕ → Thread → Type 0
Returns i unborn = Unit
Returns i started = Unit
Returns i (returned num) = num ≡ i + 100

-- The number of threads that are joined, and that are created.
abbrev joined_by : Main → ℕ
joined_by (creating i) = 0
joined_by (joining i) = i
joined_by ended = count

abbrev created_by : Main → ℕ
created_by (creating i) = i
created_by (joining i) = count
created_by ended = count

pub record Inv (s : System) : Type 0 where
  lines : s.printed ≡ results (joined_by s.main)
  values : (i : ℕ) → Returns i (s.table i)
  few : (created_by s.main ≤ count) × (joined_by s.main ≤ count)
  born : (i : ℕ) → i < created_by s.main → s.table i ≢ unborn

results-suc : (n : ℕ) → results (n + 1) ≡ results n ++ (n, n + 100) ∷ []
unfolding results
results-suc n = let e : n + 1 ≡ suc n = omega arith in ap results e

Step-Inv : (s t : System) → Step s t → Inv s → Inv t
unfolding func results
Step-Inv s t (create i a lt e) inv = ground arith
Step-Inv s t (all_created i a ge e) inv = ground arith
Step-Inv s t (run i lt a b e) inv = ground arith
Step-Inv s t (join i num a lt b e) inv = ground (arith, results-suc i, inv.values i)
Step-Inv s t (end i a ge e) inv = ground arith

start-Inv : Inv start
unfolding results
start-Inv = record {
  lines = refl;
  values = λ i. tt;
  few = (omega arith, omega arith);
  born = λ i lt. absurd (omega arith);
}

abbrev thread_left : Thread → ℕ
thread_left unborn = 0
thread_left started = 1
thread_left (returned num) = 0

abbrev main_left : Main → ℕ
main_left (creating i) = 2 * (count - i) + 7
main_left (joining i) = count - i + 1
main_left ended = 0

abbrev left : System → ℕ
left s = tally thread_left count s.table + main_left s.main

-- No step is free.
abbrev pub no_free : (s t : System) → Step s t → ℕ
no_free s t m = 0

drops : (s t : System) (m : Step s t) → Inv s → left t < left s + 1 * no_free s t m
drops s t (create i a lt e) inv =
    ground (arith, tally-update thread_left count s.table i started lt)
drops s t (all_created i a ge e) inv = ground arith
drops s t (run i lt a b e) inv =
    ground (arith, tally-update thread_left count s.table i (returned (func i)) lt)
drops s t (join i num a lt b e) inv = ground arith
drops s t (end i a ge e) inv = ground arith

abbrev pub CanMove : System → Type 0
CanMove s = (t : System) × Step s t

thread_moves :
    (s : System) (i : ℕ) (x : Thread)
    → s.main ≡ joining i
    → i < count
    → s.table i ≡ x
    → x ≢ unborn
    → CanMove s
thread_moves s i unborn a lt e born = absurd (born refl)
thread_moves s i started a lt e born = (_, run i lt (λ q. ground (arith, q)) e refl)
thread_moves s i (returned num) a lt e born = (_, join i num a lt e refl)

-- `main` has ended, and has printed what the threads returned.
abbrev pub Printed : System → Type 0
Printed s = (s.main ≡ ended) × (s.printed ≡ results count)

main_moves : (s : System) (m : Main) → Inv s → s.main ≡ m → CanMove s ⊎ Printed s
main_moves s (creating i) inv e = elim (dec_lt i count) [
  | yes lt ↦ inl (_, create i e lt refl)
  | no ge ↦ inl (_, all_created i e ge refl)
]
main_moves s (joining i) inv e = elim (dec_lt i count) [
  | yes lt ↦ inl (thread_moves s i (s.table i) e lt refl (inv.born i (ground arith)))
  | no ge ↦ inl (_, end i e ge refl)
]
main_moves s ended inv e = inr (e, ground (arith, inv.lines))

-- In whatever order the threads run, `main` ends: a run from the start has at most 17 steps, and at its
-- end there is a next step, or `main` has ended and has printed the numbers of the five threads in
-- order, each with a hundred added.
pub run_prints :
    {s : System} (n : ℕ) → Run Step no_free start n 0 s → (n ≤ 17) × (CanMove s ⊎ Printed s)
run_prints {s} n r =
    let (inv, le) = Run-measure Step no_free Inv Step-Inv left 1 drops start-Inv r in
    let none_started = tally-const thread_left count 0 start.table (λ i lt. refl) in
    (omega (arith, le, none_started), main_moves s s.main inv refl)
