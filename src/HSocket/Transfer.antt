-- ===== src/HSocket/Transfer.antt =====
-- webprogramming/HSocket.c: `ReadN` and `WriteN`, the loops over short reads and short writes.
pub mod Reading
pub mod Writing
pub mod RoundTrip
use linux_unix_system_progra.Prelude.{
  ℕ, zero, suc, ◌-◌, ◌==◌, ltb, if◌then◌else◌, List, [], ◌∷◌, ◌++◌, Option, none, some, length,
  drop,
}
use linux_unix_system_progra.Syscall.{Reply, ok, fail, Result, returns, unfinished, eintr}
use linux_unix_system_progra.HSocket.Kernel.{Kernel}

module _ (k : Kernel) where
  open k use {World}

  -- One call of `read` in `ReadN`. `rest nleft buf` is the loop's next round; `buf` is what stands
  -- in the caller's buffer in front of `ptr`. `none` is the return of -1.
  unfoldable pub after_read :
      ℕ
      → (ℕ → List ℕ → World → Result World (Option ℕ × List ℕ))
      → ℕ
      → List ℕ
      → Reply (List ℕ) × World
      → Result World (Option ℕ × List ℕ)
  after_read sz rest nleft buf (fail e, w) =
      let again = rest nleft buf w in if e == eintr then again else returns (none, buf) w
  after_read sz rest nleft buf (ok [], w) = returns (some (sz - nleft), buf) w
  after_read sz rest nleft buf (ok (b ∷ bs), w) = rest (nleft - length (b ∷ bs)) (buf ++ b ∷ bs) w

  unfoldable pub read_rounds : ℕ → ℕ → ℕ → ℕ → List ℕ → World → Result World (Option ℕ × List ℕ)
  unfolding after_read
  read_rounds zero fd sz nleft buf w = unfinished
  read_rounds (suc fuel) fd sz nleft buf w =
      let body = after_read sz (read_rounds fuel fd sz) nleft buf (k.read fd nleft w) in
      if ltb 0 nleft then body else returns (some (sz - nleft), buf) w

  -- The value returned, and the bytes stored at `vptr`.
  unfoldable pub ReadN : ℕ → ℕ → ℕ → World → Result World (Option ℕ × List ℕ)
  unfolding read_rounds
  ReadN fuel fd sz w = read_rounds fuel fd sz sz [] w

  -- One call of `write` in `WriteN`, with the bytes from `ptr` on. A write of nothing is an error,
  -- an interrupted one counts as a write of nothing that is not.
  unfoldable pub after_write :
      ℕ
      → (List ℕ → World → Result World (Option ℕ))
      → List ℕ
      → Reply ℕ × World
      → Result World (Option ℕ)
  after_write sz rest ptr (fail e, w) =
      let again = rest (drop 0 ptr) w in if e == eintr then again else returns none w
  after_write sz rest ptr (ok zero, w) = returns none w
  after_write sz rest ptr (ok (suc n), w) = rest (drop (suc n) ptr) w

  -- `nleft` is the number of bytes from `ptr` on.
  unfoldable pub write_rounds : ℕ → ℕ → ℕ → List ℕ → World → Result World (Option ℕ)
  unfolding after_write
  write_rounds zero fd sz ptr w = unfinished
  write_rounds (suc fuel) fd sz ptr w =
      let body = after_write sz (write_rounds fuel fd sz) ptr (k.write fd ptr w) in
      if ltb 0 (length ptr) then body else returns (some sz) w

  unfoldable pub WriteN : ℕ → ℕ → List ℕ → World → Result World (Option ℕ)
  unfolding write_rounds
  WriteN fuel fd vptr w = write_rounds fuel fd (length vptr) vptr w
