-- ===== src/HSocket/Kernel.antt =====
-- The system calls that webprogramming/HSocket.c wraps. The kernel is not part of the repository,
-- so it is a parameter: a type of states and a function for each call.
use linux_unix_system_progra.Prelude.{ℕ, ◌≤◌, ◌<◌, ◌≡◌, List, [], ◌++◌, suc, length, take}
use linux_unix_system_progra.Syscall.{Reply, ok, fail, eintr}

pub record Kernel : Type 1 where
  pub World : Type 0
  pub Address : Type 0
  pub socket : ℕ → ℕ → ℕ → World → Reply ℕ × World
  pub bind : ℕ → Address → World → Reply ℕ × World
  pub listen : ℕ → ℕ → World → Reply ℕ × World
  pub connect : ℕ → Address → World → Reply ℕ × World
  pub accept : ℕ → World → Reply (ℕ × Address) × World
  pub read : ℕ → ℕ → World → Reply (List ℕ) × World
  pub write : ℕ → List ℕ → World → Reply ℕ × World
  pub close : ℕ → World → Reply ℕ × World

-- read(2) on a stream: `incoming w fd` is what the peer sends before it closes and this process has
-- not read yet. A short read takes a prefix, an empty one means the end of the stream, a failed one
-- takes nothing. `interrupts w` bounds the signals that are still to come.
pub record Inbound (k : Kernel) : Type 0 where
  pub incoming : k.World → ℕ → List ℕ
  pub interrupts : k.World → ℕ
  pub read_ok :
      (fd n : ℕ) (w w' : k.World) (bs : List ℕ)
      → k.read fd n w ≡ (ok bs, w')
      → (incoming w fd ≡ bs ++ incoming w' fd) × (length bs ≤ n) × (interrupts w' ≤ interrupts w)
  pub read_end :
      (fd n : ℕ) (w w' : k.World) → k.read fd (suc n) w ≡ (ok [], w') → incoming w fd ≡ []
  pub read_fail :
      (fd n e : ℕ) (w w' : k.World) → k.read fd n w ≡ (fail e, w') → incoming w fd ≡ incoming w' fd
  pub read_interrupt :
      (fd n : ℕ) (w w' : k.World) → k.read fd n w ≡ (fail eintr, w') → interrupts w' < interrupts w

-- write(2) on a stream: `sent w fd` is what the kernel has taken so far. A short write takes a
-- prefix of the buffer, a failed one takes nothing.
pub record Outbound (k : Kernel) : Type 0 where
  pub sent : k.World → ℕ → List ℕ
  pub interrupts : k.World → ℕ
  pub write_ok :
      (fd n : ℕ) (buf : List ℕ) (w w' : k.World)
      → k.write fd buf w ≡ (ok n, w')
      → (sent w' fd ≡ sent w fd ++ take n buf) × (n ≤ length buf) × (interrupts w' ≤ interrupts w)
  pub write_fail :
      (fd e : ℕ) (buf : List ℕ) (w w' : k.World)
      → k.write fd buf w ≡ (fail e, w')
      → sent w' fd ≡ sent w fd
  pub write_interrupt :
      (fd : ℕ) (buf : List ℕ) (w w' : k.World)
      → k.write fd buf w ≡ (fail eintr, w')
      → interrupts w' < interrupts w
