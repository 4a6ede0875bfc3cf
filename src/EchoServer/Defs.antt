-- ===== src/EchoServer/Defs.antt =====
-- webprogramming/tcpServer.c: `main`, which sends every message back in capitals. `toupper` is that
-- of the C library. Printing is left out.
use linux_unix_system_progra.Prelude.{ℕ, zero, suc, List, [], ◌∷◌, map}
use linux_unix_system_progra.Syscall.{Reply, ok, fail, Result, returns, exits, unfinished}
use linux_unix_system_progra.HSocket.Kernel.{Kernel}

-- sizeof(buf)
abbrev pub buf_size : ℕ
buf_size = 1024

abbrev pub backlog : ℕ
backlog = 20

-- A call whose failure ends the process; `next` is what follows it.
abbrev pub try {ℓ κ} :
    {W : Type 0} {A : Type ℓ} {B : Type κ} → Reply A × W → (A → W → Result W B) → Result W B
try (ok a, w) next = next a w
try (fail e, w) next = exits w

module _ (k : Kernel) (toupper : ℕ → ℕ) where
  open k use {World, Address}

  -- The body of the loop behind `read`. The answers of close and of write are not looked at.
  unfoldable pub after_read :
      ℕ → (World → Result {0, 0} World Unit) → Reply (List ℕ) × World → Result {0, 0} World Unit
  after_read cfd rest (fail e, w) = exits w
  after_read cfd rest (ok [], w) = returns tt (k.close cfd w).1
  after_read cfd rest (ok (b ∷ bs), w) = rest (k.write cfd (map toupper (b ∷ bs)) w).1

  unfoldable pub echo : ℕ → ℕ → World → Result {0, 0} World Unit
  unfolding after_read
  echo zero cfd w = unfinished
  echo (suc fuel) cfd w = after_read cfd (echo fuel cfd) (k.read cfd buf_size w)

  -- `main` up to its loop: the listening descriptor, and that of the connection.
  unfoldable pub connect_client : Address → World → Result World (ℕ × ℕ)
  connect_client server w = try (k.socket 2 1 0 w) (λ lfd w1. try (k.bind lfd server w1) (λ r w2.
      try (k.listen lfd backlog w2)
        (λ r w3. try (k.accept lfd w3) (λ c w4. returns (lfd, c.0) w4))))

  abbrev pub close_listener : ℕ → Result {0, 0} World Unit → Result World ℕ
  close_listener lfd (returns r w) = returns 0 (k.close lfd w).1
  close_listener lfd (exits w) = exits w
  close_listener lfd unfinished = unfinished

  abbrev pub with_client : ℕ → Result World (ℕ × ℕ) → Result World ℕ
  with_client fuel (returns (lfd, cfd) w) = close_listener lfd (echo fuel cfd w)
  with_client fuel (exits w) = exits w
  with_client fuel unfinished = unfinished

  unfoldable pub main : ℕ → Address → World → Result World ℕ
  main fuel server w = with_client fuel (connect_client server w)
