-- ===== src/MultiJoin/Defs.antt =====
-- thread_multijoin.c: a thread for each argument, and the loop of `main` that joins them. What other
-- threads do while `main` waits comes in as a list of events.
use linux_unix_system_progra.Prelude.{
  ℕ, Bool, true, false, zero, suc, ◌+◌, ◌==◌, if◌then◌else◌, List, [], ◌∷◌, ◌++◌, length, map,
  foldl, Option, none, some,
}
use linux_unix_system_progra.Prelude.Int.{
  ℤ, pos, negsuc, increment, decrement, is_positive, is_zero,
}

-- `enum tstate`
pub data State : Type 0 where
  alive terminated joined : State

-- `thread[idx]`
pub record Slot : Type 0 where
  pub state : State
  pub sleep_time : ℕ

-- `atoi(argv[idx + 1]) > 0 ? atoi(argv[idx + 1]) : 5`, from the value of atoi.
abbrev pub sleep_time_of : ℤ → ℕ
sleep_time_of (pos zero) = 5
sleep_time_of (pos (suc n)) = suc n
sleep_time_of (negsuc n) = 5

-- The shared variables; `calls` records the threads that pthread_join was called for.
pub record Shared : Type 0 where
  pub thread : List Slot
  pub num_live : ℤ
  pub num_unjoined : ℤ
  pub calls : List ℕ

abbrev pub set_state : List Slot → ℕ → State → List Slot
set_state [] i x = []
set_state (t ∷ ts) zero x = record t { state = x } ∷ ts
set_state (t ∷ ts) (suc i) x = t ∷ set_state ts i x

-- The critical region of `threadFunc`.
unfoldable pub terminate : Shared → ℕ → Shared
terminate s idx = record s {
  num_unjoined = increment s.num_unjoined;
  thread = set_state s.thread idx terminated;
}

-- `main` up to its loop: the values of atoi of the arguments.
unfoldable pub create : List ℤ → Shared
create args = record {
  thread = map (λ z. record { state = alive; sleep_time = sleep_time_of z }) args;
  num_live = pos (length args);
  num_unjoined = pos 0;
  calls = [];
}

-- `main` is still in pthread_cond_wait, ends by `exit(EXIT_SUCCESS)`, or by `errHandler`.
pub data Outcome : Type 0 where
  blocked : Shared → Outcome
  succeeded : Shared → Outcome
  failed : Outcome

-- What one round of the `for` loop does besides writing the state: `numLive--; numUnjoined--`.
abbrev pub counted : Shared → Shared
counted s = record s { num_live = decrement s.num_live; num_unjoined = decrement s.num_unjoined }

abbrev pub called : ℕ → Shared → Shared
called idx s = record s { calls = s.calls ++ idx ∷ [] }

-- Only the call of pthread_join stands under the test of the state. `join idx` is its result.
unfoldable pub join_if_terminated : (ℕ → ℕ) → State → ℕ → Shared → Option Shared
join_if_terminated join terminated idx s = if join idx == 0 then some (called idx s) else none
join_if_terminated join alive idx s = some s
join_if_terminated join joined idx s = some s

-- The `for` loop over the entries from `idx` on, the first of `todo`; `done` are those before it.
unfoldable pub join_pass : (ℕ → ℕ) → ℕ → List Slot → List Slot → Shared → Option Shared
join_pass join idx done [] s = some (record s { thread = done })
join_pass join idx done (t ∷ todo) s = elim (join_if_terminated join t.state idx s) [
  | none ↦ none
  | some s' ↦ join_pass join (idx + 1) (done ++ record t { state = joined } ∷ []) todo (counted s')
]

-- What happens before `main` next looks at `numUnjoined`: some threads terminate, or a call of lock,
-- unlock, signal or wait fails, in a thread or in `main`, and `errHandler` ends the process.
pub data Event : Type 0 where
  ends : List ℕ → Event
  fails : Event

-- `while (numLive > 0)`. While `main` finds 0 it goes on waiting.
unfoldable pub join_loop : (ℕ → ℕ) → List Event → Shared → Outcome
join_loop join [] s = if is_positive s.num_live then blocked s else succeeded s
join_loop join (fails ∷ later) s = if is_positive s.num_live then failed else succeeded s
join_loop join (ends ended ∷ later) s =
    let s' = foldl terminate s ended in
    let waits = join_loop join later s' in
    let joins = elim (join_pass join 0 [] s'.thread s') as (λ x. Outcome) [
      | none ↦ failed
      | some s2 ↦ join_loop join later s2
    ] in
    if is_positive s.num_live
    then (if is_zero s'.num_unjoined then waits else joins)
    else succeeded s

-- The results of pthread_create for the threads from `idx` on are all 0.
unfoldable pub all_created : (ℕ → ℕ) → ℕ → List ℤ → Bool
all_created results idx [] = true
all_created results idx (z ∷ zs) =
    let more = all_created results (idx + 1) zs in if results idx == 0 then more else false

-- `main`: whether calloc gives memory, the results of pthread_create and of pthread_join, and what
-- happens meanwhile.
unfoldable pub main : Bool → (ℕ → ℕ) → (ℕ → ℕ) → List ℤ → List Event → Outcome
unfolding join_loop create all_created
main memory results join args events =
    if memory
    then (if all_created results 0 args then join_loop join events (create args) else failed)
    else failed
