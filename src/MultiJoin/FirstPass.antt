-- ===== src/MultiJoin/FirstPass.antt =====
-- thread_multijoin.c: the first pass over the entries.
use linux_unix_system_progra.Prelude.{
  ℕ, zero, suc, ◌+◌, ◌<◌, ◌≡◌, refl, ap, ◌∙◌, true, false, List, [], ◌∷◌, ◌++◌, length, map, foldl,
  some, append-nil, append_assoc, arith,
}
use native.Mathlib.Nat.{zero-add}
use linux_unix_system_progra.Prelude.Int.{
  ℤ, pos, is_positive, is_zero, sub_ℕ, decrement-sub_ℕ, sub_ℕ-zero, sub_ℕ-self,
}
use linux_unix_system_progra.MultiJoin.Defs.{
  State, alive, terminated, joined, Slot, Shared, terminate, Event, ends, fails, create, succeeded,
  counted, set_state, join_if_terminated, join_pass, join_loop,
}

abbrev pub if_terminated : State → ℕ → List ℕ
if_terminated terminated i = i ∷ []
if_terminated alive i = []
if_terminated joined i = []

-- The entries that have terminated, of those from `i` on.
abbrev pub terminated_from : ℕ → List Slot → List ℕ
terminated_from i [] = []
terminated_from i (t ∷ ts) = if_terminated t.state i ++ terminated_from (i + 1) ts

abbrev pub marked : Slot → Slot
marked t = record t { state = joined }

abbrev pub mark_joined : List Slot → List Slot
mark_joined = map marked

-- The counters after `b` and `d` decrements.
abbrev at_counts : List Slot → (a b c d : ℕ) → List ℕ → Shared
at_counts ts a b c d calls = record {
  thread = ts;
  num_live = sub_ℕ a b;
  num_unjoined = sub_ℕ c d;
  calls = calls;
}

module _ (join : ℕ → ℕ) (joins : (i : ℕ) → join i ≡ 0) where
  counted_lem :
      (ts : List Slot) (a b c d : ℕ) (calls : List ℕ)
      → counted (at_counts ts a b c d calls) ≡ at_counts ts a (suc b) c (suc d) calls
  counted_lem ts a b c d calls = rw (decrement-sub_ℕ a b, decrement-sub_ℕ c d)

  join_if_lem :
      (x : State) (i : ℕ) (ts : List Slot) (a b c d : ℕ) (calls : List ℕ)
      → join_if_terminated join x i (at_counts ts a b c d calls)
        ≡ some (at_counts ts a b c d (calls ++ if_terminated x i))
  unfolding join_if_terminated
  join_if_lem terminated i ts a b c d calls = rw (joins i)
  join_if_lem alive i ts a b c d calls = rw (append-nil calls)
  join_if_lem joined i ts a b c d calls = rw (append-nil calls)

  join_pass_lem :
      (todo done old : List Slot) (i a b c d : ℕ) (calls : List ℕ)
      → join_pass join i done todo (at_counts old a b c d calls)
        ≡ some (
            at_counts
              (done ++ mark_joined todo)
              a
              (b + length todo)
              c
              (d + length todo)
              (calls ++ terminated_from i todo))
  unfolding join_pass
  join_pass_lem [] done old i a b c d calls = ground (arith, append-nil done, append-nil calls)
  join_pass_lem (t ∷ todo) done old i a b c d calls =
      let log = if_terminated t.state i in
      rw (join_if_lem t.state i old a b c d calls, join_pass)
        (rw (counted_lem old a b c d (calls ++ log)) (
          join_pass_lem todo (done ++ marked t ∷ []) old (i + 1) a (suc b) c (suc d) (calls ++ log)
          ∙ ground (
            arith,
            append_assoc done (marked t ∷ []) (mark_joined todo),
            append_assoc calls log (terminated_from (i + 1) todo),
          )))

-- `n` threads are alive, none has terminated.
length-set_state : (ts : List Slot) (i : ℕ) (x : State) → length (set_state ts i x) ≡ length ts
length-set_state [] i x = refl
length-set_state (t ∷ ts) zero x = refl
length-set_state (t ∷ ts) (suc i) x = ap suc (length-set_state ts i x)

-- The threads that end only add to `numUnjoined` and change states.
ended_lem :
    (ended : List ℕ) (ts : List Slot) (n k : ℕ)
    → let s =
        foldl terminate
          (record { thread = ts; num_live = pos n; num_unjoined = pos k; calls = [] })
          ended in
      (s ≡ at_counts s.thread n 0 (k + length ended) 0 []) × (length s.thread ≡ length ts)
unfolding terminate
ended_lem [] ts n k = (rw (sub_ℕ-zero n) (ground arith), refl)
ended_lem (i ∷ ended) ts n k =
    let (e, l) = ended_lem ended (set_state ts i terminated) n (suc k) in
    (e ∙ ground arith, l ∙ length-set_state ts i terminated)

-- Where the loop stops at once, it does so whatever is still to come.
join_loop-done :
    (join : ℕ → ℕ) (later : List Event) (s : Shared)
    → is_positive s.num_live ≡ false
    → join_loop join later s ≡ succeeded s
unfolding join_loop
join_loop-done join [] s h = rw h
join_loop-done join (fails ∷ later) s h = rw h
join_loop-done join (ends ended ∷ later) s h = rw h

length-map {ℓ κ} :
    {A : Type ℓ} {B : Type κ} (f : A → B) (xs : List A) → length (map f xs) ≡ length xs
length-map f [] = refl
length-map f (x ∷ xs) = ap suc (length-map f xs)

-- The entries after the threads in `ended` have terminated.
pub after : List ℤ → List ℕ → List Slot
after args ended = (foldl terminate (create args) ended).thread

after_lem :
    (args : List ℤ) (ended : List ℕ)
    → (foldl terminate (create args) ended
        ≡ at_counts (after args ended) (length args) 0 (length ended) 0 [])
      × (length (after args ended) ≡ length args)
unfolding after create
after_lem args ended =
    let ts : List Slot = (create args).thread in
    let (e, l) = ended_lem ended ts (length args) 0 in (e ∙ ground arith, l ∙ length-map _ args)

live_positive : (args : List ℤ) → 0 < length args → is_positive (create args).num_live ≡ true
unfolding create
live_positive args h = ground arith

unjoined_nonzero : (k : ℕ) → 0 < k → is_zero (sub_ℕ k 0) ≡ false
unjoined_nonzero k h = ground arith

-- With as many decrements as threads the loop is over.
last_round :
    (join : ℕ → ℕ) (later : List Event) (ts : List Slot) (n k : ℕ) (calls : List ℕ)
    → join_loop join later (at_counts ts n (0 + n) k (0 + n) calls)
      ≡ succeeded
          (record { thread = ts; num_live = pos 0; num_unjoined = sub_ℕ k n; calls = calls })
last_round join later ts n k calls =
    rw (zero-add n, sub_ℕ-self n) (join_loop-done join later _ refl)

-- However many of the threads have terminated when `main` first finds one of them, the loop ends
-- after one pass: all entries are marked as joined and `numLive` is 0, but pthread_join was called
-- only for those that had terminated, and `main` exits while the others run.
pub first_pass_ends :
    (join : ℕ → ℕ) (args : List ℤ) (ended : List ℕ) (later : List Event)
    → ((i : ℕ) → join i ≡ 0)
    → 0 < length args
    → 0 < length ended
    → join_loop join (ends ended ∷ later) (create args)
      ≡ succeeded (record {
        thread = mark_joined (after args ended);
        num_live = pos 0;
        num_unjoined = sub_ℕ (length ended) (length args);
        calls = terminated_from 0 (after args ended);
      })
unfolding join_loop
first_pass_ends join args ended later joins some_args some_ended =
    let n = length args in
    let k = length ended in
    let ts = after args ended in
    let (e, l) = after_lem args ended in
    rw (live_positive args some_args, e, unjoined_nonzero k some_ended)
      (rw (join_pass_lem join joins ts [] ts 0 n 0 k 0 [], l)
        (last_round join later (mark_joined ts) n k (terminated_from 0 ts)))
