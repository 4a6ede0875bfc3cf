-- ===== src/ThreadInc/Defs.antt =====
-- thread_inc.c, compiled with CMPL_OPT and without USE_LOCK as it stands: `glob ++` is a load and a
-- store of `glob`, one step each. As `glob` is not volatile, the compiler may keep it in a register for
-- any number of rounds, and store it behind the last of them. An increment beyond INT_MAX is
-- undefined, and is no step. The clock is left out.
use linux_unix_system_progra.Prelude.{
  ℕ, zero, suc, ◌+◌, ◌<◌, ◌≡◌, Option, some, none, Bool, true, false,
}
use linux_unix_system_progra.Prelude.Int.{ℤ, pos, negsuc}

-- `loops`, from the value of atoi of the first argument if there is one. `none` is the exit for a
-- number that is not positive.
unfoldable pub loops_of : Option ℤ → Option ℕ
loops_of none = some 1000
loops_of (some (pos zero)) = none
loops_of (some (pos (suc n))) = some (suc n)
loops_of (some (negsuc n)) = none

-- INT_MAX
abbrev pub int_max : ℕ
int_max = 2147483647

-- Where a thread stands in `threadFunc`.
pub data Thread : Type 0 where
  unborn : Thread
  at_loop : (i : ℕ) → Thread
  loaded : (i v : ℕ) → Thread  -- has `v` in its register, before the increment of round `i`
  ended : Thread

pub data Main : Type 0 where
  creating_first creating_second joining_first joining_second : Main
  printed : (glob : ℕ) → Main
  failed : Main  -- at a call of pthreads that reports an error

-- The process goes on.
abbrev pub running : Main → Bool
running creating_first = true
running creating_second = true
running joining_first = true
running joining_second = true
running (printed glob) = false
running failed = false

pub record System : Type 0 where
  pub glob : ℕ
  pub first : Thread
  pub second : Thread
  pub main : Main

-- A step of a thread, with `glob` before and after it.
pub data ThreadStep (loops g : ℕ) (t : Thread) (g' : ℕ) (t' : Thread) : Type 0 where
  load : (i : ℕ) → t ≡ at_loop i → i < loops → g' ≡ g → t' ≡ loaded i g → ThreadStep loops g t g' t'
  -- The next round goes on with the register.
  keep :
      (i v : ℕ)
      → t ≡ loaded i v
      → v < int_max
      → i + 1 < loops
      → g' ≡ g
      → t' ≡ loaded (i + 1) (v + 1)
      → ThreadStep loops g t g' t'
  store :
      (i v : ℕ)
      → t ≡ loaded i v
      → v < int_max
      → g' ≡ v + 1
      → t' ≡ at_loop (i + 1)
      → ThreadStep loops g t g' t'
  leave : (i : ℕ) → t ≡ at_loop i → ¬ (i < loops) → g' ≡ g → t' ≡ ended → ThreadStep loops g t g' t'

pub data MainStep (s u : System) : Type 0 where
  create_first :
      s.main ≡ creating_first
      → u ≡ record s { first = at_loop 0; main = creating_second }
      → MainStep s u
  create_second :
      s.main ≡ creating_second
      → u ≡ record s { second = at_loop 0; main = joining_first }
      → MainStep s u
  join_first :
      s.main ≡ joining_first
      → s.first ≡ ended
      → u ≡ record s { main = joining_second }
      → MainStep s u
  join_second :
      s.main ≡ joining_second
      → s.second ≡ ended
      → u ≡ record s { main = printed s.glob }
      → MainStep s u
  fail : running s.main ≡ true → u ≡ record s { main = failed } → MainStep s u

pub data Step (loops : ℕ) (s u : System) : Type 0 where
  by_first :
      running s.main ≡ true
      → (g : ℕ) (t : Thread) → ThreadStep loops s.glob s.first g t
      → u ≡ record s { glob = g; first = t }
      → Step loops s u
  by_second :
      running s.main ≡ true
      → (g : ℕ) (t : Thread) → ThreadStep loops s.glob s.second g t
      → u ≡ record s { glob = g; second = t }
      → Step loops s u
  by_main : MainStep s u → Step loops s u

abbrev pub start : System
start = record { glob = 0; first = unborn; second = unborn; main = creating_first }

pub data Reach (loops : ℕ) : System → Type 0 where
  here : Reach loops start
  next : {s u : System} → Reach loops s → Step loops s u → Reach loops u
