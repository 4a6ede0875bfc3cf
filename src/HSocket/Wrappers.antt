-- ===== src/HSocket/Wrappers.antt =====
-- webprogramming/HSocket.c: the wrappers of single calls. Those that report an error end the
-- process; `Read` and `Write` try again when a signal interrupts them, `Accept` when no connection
-- is there, `Close` after every failure.
use linux_unix_system_progra.Prelude.{ℕ, zero, suc, Bool, ◌||◌, ◌==◌, if◌then◌else◌, List}
use linux_unix_system_progra.Syscall.{
  Reply, ok, fail, Result, returns, exits, unfinished, eintr, eagain, ewouldblock,
}
use linux_unix_system_progra.HSocket.Kernel.{Kernel}

-- `ret = call(...); if (ret == -1) { printf(...); exit(EXIT_FAILURE); } return ret;`
abbrev pub or_exit {ℓ} : {W : Type 0} {A : Type ℓ} → Reply A × W → Result W A
or_exit (ok a, w) = returns a w
or_exit (fail e, w) = exits w

-- One round of `while ((x = call(...)) == -1) { if (again) continue; else ... }`: a value ends the
-- loop, an error that `again` accepts goes round once more, and `stop` says what any other does.
abbrev pub round {ℓ κ} :
    {W : Type 0} {A : Type ℓ} {B : Type κ}
    → (A → W → Result W B)
    → (ℕ → W → Result W B)
    → (ℕ → Bool)
    → (W → Result W B)
    → Reply A × W
    → Result W B
round value stop again rest (ok a, w) = value a w
round value stop again rest (fail e, w) = let more = rest w in if again e then more else stop e w

module _ (k : Kernel) where
  open k use {World, Address}

  unfoldable pub Socket : ℕ → ℕ → ℕ → World → Result World ℕ
  Socket domain type protocol w = or_exit (k.socket domain type protocol w)

  unfoldable pub Bind : ℕ → Address → World → Result World ℕ
  Bind socket addr w = or_exit (k.bind socket addr w)

  unfoldable pub Listen : ℕ → ℕ → World → Result World ℕ
  Listen socket backlog w = or_exit (k.listen socket backlog w)

  unfoldable pub Connect : ℕ → Address → World → Result World ℕ
  Connect socket addr w = or_exit (k.connect socket addr w)

  -- The address of the client comes back with the descriptor.
  unfoldable pub Accept : ℕ → ℕ → World → Result World (ℕ × Address)
  Accept zero socket w = unfinished
  Accept (suc fuel) socket w =
      round returns (λ e. exits) (λ e. e == eagain || e == ewouldblock) (Accept fuel socket)
        (k.accept socket w)

  -- `fail e` as the result is the return of -1 with `errno` left at `e`.
  unfoldable pub Read : ℕ → ℕ → ℕ → World → Result World (Reply (List ℕ))
  Read zero fd sz w = unfinished
  Read (suc fuel) fd sz w =
      round (λ bs. returns (ok bs)) (λ e. returns (fail e)) (λ e. e == eintr) (Read fuel fd sz)
        (k.read fd sz w)

  unfoldable pub Write : ℕ → ℕ → List ℕ → World → Result World (Reply ℕ)
  Write zero fd buf w = unfinished
  Write (suc fuel) fd buf w =
      round (λ n. returns (ok n)) (λ e. returns (fail e)) (λ e. e == eintr) (Write fuel fd buf)
        (k.write fd buf w)

  -- The value of `errno = EINTR` as a condition: an assignment, so `errno` plays no part in it.
  abbrev pub assigned : ℕ → Bool
  assigned e = if eintr == 0 then Bool.false else Bool.true

  unfoldable pub Close : ℕ → ℕ → World → Result World (Reply ℕ)
  Close zero fd w = unfinished
  Close (suc fuel) fd w =
      round (λ n. returns (ok n)) (λ e. returns (fail e)) assigned (Close fuel fd) (k.close fd w)
