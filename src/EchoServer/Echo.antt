-- ===== src/EchoServer/Echo.antt =====
-- webprogramming/tcpServer.c: what the client gets back.
use linux_unix_system_progra.Prelude.{ℕ, suc, ◌<◌, ◌≤◌, ◌≡◌, ◌⊎◌, List, [], ◌++◌, map, length, take}
use linux_unix_system_progra.Syscall.{ok, fail, Result, returns, exits}
use linux_unix_system_progra.HSocket.Kernel.{Kernel}

-- A blocking connection. `incoming` is what the client sends and the server has not read yet,
-- `sent` what the server has written. A write(2) may take a part of the buffer, and may fail.
pub record Stream (k : Kernel) : Type 0 where
  pub incoming : k.World → ℕ → List ℕ
  pub sent : k.World → ℕ → List ℕ
  pub read_ok :
      (fd n : ℕ) (w w' : k.World) (bs : List ℕ)
      → k.read fd n w ≡ (ok bs, w')
      → (incoming w fd ≡ bs ++ incoming w' fd) × (sent w' fd ≡ sent w fd)
  pub read_end :
      (fd n : ℕ) (w w' : k.World) → k.read fd (suc n) w ≡ (ok [], w') → incoming w fd ≡ []
  pub read_fail :
      (fd n e : ℕ) (w w' : k.World)
      → k.read fd n w ≡ (fail e, w')
      → (incoming w fd ≡ incoming w' fd) × (sent w' fd ≡ sent w fd)
  pub write_ok :
      (fd n : ℕ) (buf : List ℕ) (w w' : k.World)
      → k.write fd buf w ≡ (ok n, w')
      → (n ≤ length buf) × (incoming w' fd ≡ incoming w fd) × (sent w' fd ≡ sent w fd ++ take n buf)
  pub write_fail :
      (fd e : ℕ) (buf : List ℕ) (w w' : k.World)
      → k.write fd buf w ≡ (fail e, w')
      → (incoming w' fd ≡ incoming w fd) × (sent w' fd ≡ sent w fd)
  pub close_keeps : (fd fd' : ℕ) (w : k.World) → sent (k.close fd w).1 fd' ≡ sent w fd'

module _ (k : Kernel) (toupper : ℕ → ℕ) (str : Stream k) where
  open k use {World, Address}
  open str use {incoming, sent}

  -- `got` cut into messages, and `out` what is sent back: of each message a part from its start, in
  -- capitals.
  pub data Answered : (got out : List ℕ) → Type 0 where
    none : Answered [] []
    message :
        (bs : List ℕ) (n : ℕ) {got out : List ℕ}
        → n ≤ length bs
        → Answered got out
        → Answered (bs ++ got) (take n (map toupper bs) ++ out)

  -- All of it is sent back in capitals, or some of it is missing.
  abbrev pub Returned : (got out : List ℕ) → Type 0
  Returned got out = (out ≡ map toupper got) ⊎ (length out < length got)

  -- How the server ends: at the end of what the client sends, or at a read that fails.
  pub data Echoed {A : Type 0} (cfd : ℕ) (w : World) : Result World A → Type 0 where
    whole :
        (a : A) (w' : World) (out : List ℕ)
        → sent w' cfd ≡ sent w cfd ++ out
        → Answered (incoming w cfd) out
        → Returned (incoming w cfd) out
        → Echoed cfd w (returns a w')
    broken :
        (got out : List ℕ) (w' : World)
        → incoming w cfd ≡ got ++ incoming w' cfd
        → sent w' cfd ≡ sent w cfd ++ out
        → Answered got out
        → Returned got out
        → Echoed cfd w (exits w')
