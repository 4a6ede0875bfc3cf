-- ===== src/Signals/Sigqueue.antt =====
-- t_sigqueue.c: a signal with a number, sent a number of times. The functions that read the arguments
-- belong to a library that is not in the repository, and are parameters: `none` is their exit at an
-- argument that is not a number of the kind asked for. Overflow of `sigData + j` is left out.
use linux_unix_system_progra.Prelude.{
  same_text, ℕ, zero, suc, ◌+◌, Bool, false, List, [], ◌∷◌, Option, none, some, ltb, if◌then◌else◌,
}
use linux_unix_system_progra.Prelude.Int.{ℤ, pos, negsuc, increment}
use linux_unix_system_progra.Syscall.{Reply, ok, fail}

pub record Tools : Type 1 where
  pub World : Type 0
  pub get_number : List ℕ → Option ℤ  -- getInt and getLong with no flag
  pub get_any_base : List ℕ → Option ℤ  -- getInt with GN_ANY_BASE
  pub get_positive : List ℕ → Option ℤ  -- getInt with GN_GT_0
  pub sigqueue : ℤ → ℤ → ℤ → World → Reply {0} Unit × World  -- to a process, a signal with a number

abbrev pub help : List ℕ
help = b'-' ∷ b'-' ∷ b'h' ∷ b'e' ∷ b'l' ∷ b'p' ∷ []

-- z + j
abbrev pub add_ℕ : ℤ → ℕ → ℤ
add_ℕ z zero = z
add_ℕ z (suc j) = increment (add_ℕ z j)

-- j < z
abbrev pub lt_ℤ : ℕ → ℤ → Bool
lt_ℤ j (pos n) = ltb j n
lt_ℤ j (negsuc n) = false

-- The process ends with success, or with an error.
pub data Ended (W : Type 0) : Type 0 where
  success : W → Ended W
  failure : W → Ended W
  unfinished : Ended W

-- The three numbers, read one after the other; `bad` is the exit at the first that is none.
abbrev pub with_numbers :
    {W : Type 0} → Option ℤ → Option ℤ → Option ℤ → (ℤ → ℤ → ℤ → Ended W) → Ended W → Ended W
with_numbers none d n go bad = bad
with_numbers (some s) none n go bad = bad
with_numbers (some s) (some d) none go bad = bad
with_numbers (some s) (some d) (some n) go bad = go s d n

module _ (k : Tools) where
  open k use {World}

  abbrev pub after_sigqueue : (World → Ended World) → Reply {0} Unit × World → Ended World
  after_sigqueue rest (ok u, w) = rest w
  after_sigqueue rest (fail e, w) = failure w

  -- The number of the process is read again in every round.
  abbrev pub to_process : Option ℤ → World → (ℤ → Ended World) → Ended World
  to_process none w next = failure w
  to_process (some pid) w next = next pid

  -- The loop over `j`.
  unfoldable pub loop : ℕ → ℕ → List ℕ → ℤ → ℤ → ℤ → World → Ended World
  loop zero j pid sig sig_data num_sigs w = unfinished
  loop (suc fuel) j pid sig sig_data num_sigs w =
      let rest = loop fuel (j + 1) pid sig sig_data num_sigs in
      if lt_ℤ j num_sigs
      then to_process (k.get_number pid) w
          (λ p. after_sigqueue rest (k.sigqueue p sig (add_ℕ sig_data j) w))
      else success w

  -- The fourth argument, if there is one.
  abbrev pub num_of : List (List ℕ) → Option ℤ
  num_of [] = some (pos 1)
  num_of (n ∷ rest) = k.get_positive n

  unfoldable pub main : ℕ → List (List ℕ) → World → Ended World
  unfolding loop
  main fuel (pid ∷ sig ∷ data_text ∷ rest) w =
      if same_text pid help
      then failure w
      else with_numbers (k.get_number sig) (k.get_any_base data_text) (num_of rest)
          (λ s d n. loop fuel 0 pid s d n w) (failure w)
  main fuel _ w = failure w
