-- ===== src/Clients/Unconnected.antt =====
-- webprogramming/client.c where `connect` fails.
use linux_unix_system_progra.Prelude.{ℕ, suc, ◌≡◌, refl, List, []}
use linux_unix_system_progra.Syscall.{fail}
use linux_unix_system_progra.HSocket.Kernel.{Kernel}
use linux_unix_system_progra.Clients.Defs.{
  Terminal, Client, Turn, breaks, left, c_string, line_stored, chat_buf_size, rounds,
  after_chat_read, after_chat_fgets, chat_round, chat_fd, chat_main,
}

-- `At fd` are the states in which the descriptor is not connected.
pub record Lost (k : Kernel) (term : Terminal k) : Type 1 where
  pub At : ℕ → k.World → Type 0
  pub connect_fails :
      (fd : ℕ) (server : k.Address) (e : ℕ) (w w' : k.World)
      → k.connect fd server w ≡ (fail e, w')
      → At fd w'
  pub fgets_keeps : (fd n : ℕ) (w : k.World) → At fd w → At fd (term.fgets n w).1
  pub write_keeps : (fd : ℕ) (buf : List ℕ) (w : k.World) → At fd w → At fd (k.write fd buf w).1
  pub read_fails :
      (fd n : ℕ) (w : k.World) → At fd w → (e : ℕ) × (w' : k.World) × (k.read fd n w ≡ (fail e, w'))

rounds-breaks :
    (k : Kernel) (term : Terminal k) (fuel : ℕ) (round : Client k term → Turn k term)
    (c c' : Client k term)
    → round c ≡ breaks c'
    → rounds k term (suc fuel) round c ≡ left c'
unfolding rounds
rounds-breaks k term fuel round c c' e = rw (e, rounds) refl

module _ (k : Kernel) (term : Terminal k) (lost : Lost k term) where
  open k use {World}

  -- Where `connect` fails, as it does with the descriptor -1, client.c does not notice: it reads one
  -- line, and leaves its loop with nothing shown.
  pub unconnected :
      (fuel minus_one e : ℕ) (server : k.Address) (buf : List ℕ) (w w2 : World)
      → let (r, w1) = k.socket 2 1 0 w in
        k.connect (chat_fd k term minus_one r) server w1 ≡ (fail e, w2)
        → (c' : Client k term) × (chat_main k term (suc fuel) minus_one server buf w ≡ left c')
          × (c'.buf ≡ line_stored (term.fgets chat_buf_size w2).0 buf)
          × (c'.shown ≡ [])
  unfolding chat_main chat_round after_chat_fgets after_chat_read
  unconnected fuel minus_one e server buf w w2 failed =
      let r = (k.socket 2 1 0 w).0 in
      let w1 = (k.socket 2 1 0 w).1 in
      let fd = chat_fd k term minus_one r in
      let (line, w3) = term.fgets chat_buf_size w2 in
      let buf' = line_stored line buf in
      let at = lost.fgets_keeps fd chat_buf_size w2 (lost.connect_fails fd server e w1 w2 failed) in
      let w4 = (k.write fd (c_string buf') w3).1 in
      let (n, w5, e5) =
        lost.read_fails fd chat_buf_size w4 (lost.write_keeps fd (c_string buf') w3 at) in
      let c : Client k term = record { buf = buf; shown = []; world = w2 } in
      let c' : Client k term = record { buf = buf'; shown = []; world = w5 } in
      (
        c',
        rw failed (rounds-breaks k term fuel (chat_round k term fd) c c' (rw e5 refl)),
        refl,
        refl,
      )
