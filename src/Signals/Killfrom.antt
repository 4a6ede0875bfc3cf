-- ===== src/Signals/Killfrom.antt =====
-- webprogramming/killfrom.c: SIGKILL to all processes from one number to another. atoi and kill are
-- parameters; an argument is the list of its bytes. An `int` is an integer here: `end` is at most
-- MAXPID, so that `i++` does not overflow.
use linux_unix_system_progra.Prelude.{
  ℕ, zero, suc, Bool, true, false, List, [], ◌∷◌, leb, if◌then◌else◌, not,
}
use linux_unix_system_progra.Prelude.Int.{ℤ, pos, negsuc, increment}

abbrev pub maxpid : ℤ
maxpid = pos 32768

-- a ≤ b
abbrev pub le_ℤ : ℤ → ℤ → Bool
le_ℤ (pos a) (pos b) = leb a b
le_ℤ (pos a) (negsuc b) = false
le_ℤ (negsuc a) (pos b) = true
le_ℤ (negsuc a) (negsuc b) = leb b a

-- kill(2) reaches this process too, and ends it, or does not.
pub data Delivery (W : Type 0) : Type 0 where
  lives : W → Delivery W
  dies : W → Delivery W

pub record Kernel : Type 1 where
  pub World : Type 0
  pub kill : ℤ → World → Delivery World  -- with SIGKILL; its result is not looked at

-- The process ended by exit(1), or was killed.
pub data Ended (W : Type 0) : Type 0 where
  exited : W → Ended W
  killed : W → Ended W
  unfinished : Ended W

module _ (k : Kernel) (atoi : List ℕ → ℤ) where
  open k use {World}

  abbrev pub after_kill : (World → Ended World) → Delivery World → Ended World
  after_kill rest (lives w) = rest w
  after_kill rest (dies w) = killed w

  -- The loop from `i` on.
  unfoldable pub loop : ℕ → ℤ → ℤ → World → Ended World
  loop zero i last w = unfinished
  loop (suc fuel) i last w =
      if le_ℤ i last then after_kill (loop fuel (increment i) last) (k.kill i w) else exited w

  -- `end`, by the arguments behind the first.
  unfoldable pub end_of : List (List ℕ) → ℤ
  end_of [] = maxpid
  end_of (a ∷ []) = if not (le_ℤ maxpid (atoi a)) then atoi a else maxpid
  end_of (a ∷ b ∷ rest) = maxpid

  -- `main`, by its arguments.
  unfoldable pub main : ℕ → List (List ℕ) → World → Ended World
  unfolding loop end_of
  main fuel [] w = exited w
  main fuel (a ∷ rest) w = loop fuel (atoi a) (end_of rest) w
