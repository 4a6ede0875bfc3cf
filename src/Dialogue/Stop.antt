-- ===== src/Dialogue/Stop.antt =====
-- webprogramming/tcpClient.c or webprogramming/client.c with webprogramming/multi_thread_server.c: the
-- handler of signals of the client, which asks its worker thread to stop.
use linux_unix_system_progra.Prelude.{ℕ, suc, ◌<◌, ◌≡◌, ◌⊎◌, List, [], ◌++◌, length, take, drop}
use linux_unix_system_progra.Syscall.{ok}
use linux_unix_system_progra.HSocket.Kernel.{Kernel}
use linux_unix_system_progra.MultiThread.Service.{stopped, worker}

-- The direction from the client, with the descriptor `sfd`, to the server, with `cfd`: a write is taken
-- whole, and a read takes what is there, up to its size. `unread` are the bytes between them.
pub record Upstream (k : Kernel) (sfd cfd : ℕ) : Type 0 where
  pub unread : k.World → List ℕ
  pub client_write : (buf : List ℕ) (w : k.World) → unread (k.write sfd buf w).1 ≡ unread w ++ buf
  pub server_read :
      (n : ℕ) (w : k.World)
      → 0 < length (unread w)
      → (w' : k.World) × (k.read cfd n w ≡ (ok (take n (unread w)), w'))
        × (unread w' ≡ drop n (unread w))

module _ (k : Kernel) (behind : List ℕ) (sfd cfd : ℕ) (up : Upstream k sfd cfd) where
  open k use {World}
  open up use {unread}

  -- What becomes of the message in the next round of the loop.
  abbrev pub Heard : ℕ → List ℕ → List ℕ → World → World → Type 0
  Heard fuel cont pre w1 w2 =
      ((pre ≡ []) × (worker k behind (suc fuel) cfd cont w1 ≡ stopped w2) × (unread w2 ≡ []))
      ⊎ ((0 < length pre)
          × (cont' : List ℕ) × (worker k behind (suc fuel) cfd cont w1
              ≡ worker k behind fuel cfd cont' w2))
