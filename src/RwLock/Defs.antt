-- ===== src/RwLock/Defs.antt =====
-- t_pthread_rdlock.c: five readers and three writers under a read-write lock, one access to the
-- number or call of the lock at a time. The loops do not end, so `main` only creates the threads.
use linux_unix_system_progra.Prelude.{ℕ, suc, ◌+◌, ◌<◌, ◌≡◌, update, ltb, if◌then◌else◌}

abbrev pub readers : ℕ
readers = 5

abbrev pub threads : ℕ
threads = 8

-- Where a thread stands in `reader` or `writer`.
pub data Place : Type 0 where
  unborn : Place
  before_read : Place  -- before pthread_rwlock_rdlock
  reading : Place  -- before the printf
  has_read : (v : ℕ) → Place  -- has printed `v`, and still holds the lock
  before_write : Place
  writing : Place  -- before `++ beginnum`
  has_written : Place

pub data Lock : Type 0 where
  free : Lock
  shared : (n : ℕ) → Lock  -- held by `n + 1` readers
  exclusive : (i : ℕ) → Lock

pub record System : Type 0 where
  pub beginnum : ℕ
  pub lock : Lock
  pub table : ℕ → Place
  pub created : ℕ

abbrev pub set : System → ℕ → Place → System
set s i x = record s { table = update s.table i x }

-- One reader less.
abbrev pub released : Lock → Lock
released free = free
released (shared ℕ.zero) = free
released (shared (suc n)) = shared n
released (exclusive i) = exclusive i

pub data ThreadStep (i : ℕ) (s t : System) : Type 0 where
  rdlock_free :
      s.table i ≡ before_read
      → s.lock ≡ free
      → t ≡ record (set s i reading) { lock = shared 0 }
      → ThreadStep i s t
  rdlock_shared :
      (n : ℕ)
      → s.table i ≡ before_read
      → s.lock ≡ shared n
      → t ≡ record (set s i reading) { lock = shared (suc n) }
      → ThreadStep i s t
  read : s.table i ≡ reading → t ≡ set s i (has_read s.beginnum) → ThreadStep i s t
  unlock_reader :
      (v : ℕ)
      → s.table i ≡ has_read v
      → t ≡ record (set s i before_read) { lock = released s.lock }
      → ThreadStep i s t
  wrlock :
      s.table i ≡ before_write
      → s.lock ≡ free
      → t ≡ record (set s i writing) { lock = exclusive i }
      → ThreadStep i s t
  write :
      s.table i ≡ writing
      → t ≡ record (set s i has_written) { beginnum = s.beginnum + 1 }
      → ThreadStep i s t
  unlock_writer :
      s.table i ≡ has_written → t ≡ record (set s i before_write) { lock = free } → ThreadStep i s t

pub data Step (s t : System) : Type 0 where
  by_thread : (i : ℕ) → i < threads → ThreadStep i s t → Step s t
  create :
      s.created < threads
      → t ≡ record (set s s.created (if ltb s.created readers then before_read else before_write)) {
        created = s.created + 1;
      }
      → Step s t

abbrev pub start : System
start = record { beginnum = 1000; lock = free; table = λ i. unborn; created = 0 }

pub data Reach : System → Type 0 where
  here : Reach start
  next : {s t : System} → Reach s → Step s t → Reach t
