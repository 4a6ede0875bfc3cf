-- ===== src/JoinTerm/Safety.antt =====
-- thread_joinTerm.c: the counters, the joined threads and the mutex.
use linux_unix_system_progra.Prelude.{
  ℕ, ◌<◌, ◌≡◌, true, false, arith, tally, tally-cong, tally-full,
}
use linux_unix_system_progra.JoinTerm.Defs.{
  thread_num, alive, terminated, nobody, joined, gone, Entry, returned, System, Reach,
}
use linux_unix_system_progra.JoinTerm.Invariant.{
  count_terminated, count_joined, owed_term, owed_joined, Inv, worker_inside, joiner_inside,
}
use linux_unix_system_progra.JoinTerm.Preserved.{Reach-Inv}

abbrev pub has_terminated : Entry → ℕ
has_terminated e = elim e.status [ alive ↦ 0 | terminated ↦ 1 | joined ↦ 0 ]

-- Where nobody owns the mutex, `termNum` is the number of threads that have terminated and are not
-- joined, and `joinedNum` is that of the joined ones.
pub counters :
    {s : System}
    → Reach s
    → s.owner ≡ nobody
    → (s.term_num ≡ tally has_terminated thread_num s.table)
      × (s.joined_num ≡ tally count_joined thread_num s.table)
counters {s} r free =
    let inv = Reach-Inv r in
    let same =
      tally-cong count_terminated has_terminated thread_num s.table
        (λ i lt. ground (arith, inv.worker_mutex i, inv.fits i)) in
    (
      omega (arith, inv.terminated_count, same, none_owed_term s free inv),
      omega (arith, inv.joined_count, none_owed_joined s free inv),
    )
  where
    none_owed_term : (s : System) → s.owner ≡ nobody → Inv s → owed_term s.joiner ≡ 0
    none_owed_term s free inv = ground (arith, inv.joiner_mutex)

    none_owed_joined : (s : System) → s.owner ≡ nobody → Inv s → owed_joined s.joiner ≡ 0
    none_owed_joined s free inv = ground (arith, inv.joiner_mutex)

joined_of : (e : Entry) → count_joined e ≡ 1 → e.status ≡ joined
joined_of e h = ground arith

-- When the joining thread has returned, every thread is gone and joined.
pub all_joined :
    {s : System}
    → Reach s
    → s.joiner ≡ returned
    → (i : ℕ) → i < thread_num
    → ((s.table i).status ≡ joined) × ((s.table i).worker ≡ gone)
all_joined {s} r done i lt =
    let inv = Reach-Inv r in
    let h : (s.table i).status ≡ joined =
      joined_of (s.table i)
        (tally-full count_joined thread_num s.table (λ e. ground arith) (ground arith) i lt) in
    (h, ground (arith, inv.fits i))

-- Where a thread is between lock and unlock, no other thread is, nor the joining one.
pub one_inside :
    {s : System}
    → Reach s
    → (i j : ℕ) → worker_inside (s.table i).worker ≡ true
    → worker_inside (s.table j).worker ≡ true
    → (i ≡ j) × (joiner_inside s.joiner ≡ false)
one_inside {s} r i j inside_i inside_j =
    let inv = Reach-Inv r in ground (arith, inv.worker_mutex i, inv.worker_mutex j)
