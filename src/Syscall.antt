-- ===== src/Syscall.antt =====
-- What every program here shares: the answer of a system call, and how a function of the program
-- ends. No file of the repository defines these; they are the conventions of <errno.h> and exit(3).
use linux_unix_system_progra.Prelude.{ℕ, ◌≡◌, refl, ◌⊎◌, inl, inr}

-- A system call returns a value that is not negative, or -1 with `errno` set.
pub data Reply {ℓ} (A : Type ℓ) : Type ℓ where
  ok : A → Reply A
  fail : ℕ → Reply A

-- A function returns to its caller, or ends the process by `exit`. `unfinished` means that the
-- fuel of a loop ran out before either.
pub data Result {ℓ κ} (W : Type ℓ) (A : Type κ) : Type (ℓ ⊔ κ) where
  returns : A → W → Result W A
  exits : W → Result W A
  unfinished : Result W A

-- The values of `errno` that the programs test, as on Linux.
abbrev pub eintr : ℕ
eintr = 4

abbrev pub eagain : ℕ
eagain = 11

abbrev pub ewouldblock : ℕ
ewouldblock = 11

pub Reply-cases {ℓ κ} :
    {W : Type ℓ} {A : Type κ} (x : Reply A × W)
    → ((a : A) × (w : W) × (x ≡ (ok a, w))) ⊎ ((e : ℕ) × (w : W) × (x ≡ (fail e, w)))
Reply-cases (ok a, w) = inl (a, w, refl)
Reply-cases (fail e, w) = inr (e, w, refl)
