-- ===== src/Dialogue/Connection.antt =====
-- A connection between webprogramming/tcpClient.c and webprogramming/tcpServer.c, in one state of the
-- system: `sfd` is the descriptor of the client, `cfd` that of the server. The sockets are not part of
-- the repository, so that their behaviour is a record of assumptions.
use linux_unix_system_progra.Prelude.{
  ℕ, ◌<◌, ◌≡◌, List, [], ◌∷◌, ◌++◌, length, take, drop, some, none,
}
use linux_unix_system_progra.Syscall.{ok, Result, returns}
use linux_unix_system_progra.HSocket.Kernel.{Kernel}
use linux_unix_system_progra.Clients.Defs.{Terminal}
use linux_unix_system_progra.EchoServer.Defs.{buf_size, after_read}

-- One turn of the loop of the server: its read and what it does with the answer.
unfoldable pub turn : (k : Kernel) → (ℕ → ℕ) → ℕ → k.World → Result {0, 0} k.World Unit
turn k toupper cfd w = after_read k toupper cfd (returns tt) (k.read cfd buf_size w)

-- `to_server` are the bytes that the server has not read yet, `to_client` those that the client has
-- not. The assumptions are those of a good connection, as within one machine: a write is taken whole,
-- and is there for the next read of the other side; a read takes what is there, up to its size; and a
-- read of the client with nothing there waits, while the server does a turn. fgets gives a line that
-- fits into its buffer, with the 0 behind it.
pub record Connection (k : Kernel) (term : Terminal k) (toupper : ℕ → ℕ) (sfd cfd : ℕ)
    : Type 0 where
  pub lines : k.World → List (List ℕ)
  pub to_server : k.World → List ℕ
  pub to_client : k.World → List ℕ
  pub fgets_line :
      (n : ℕ) (w : k.World) (l : List ℕ) (ls : List (List ℕ))
      → lines w ≡ l ∷ ls
      → length l < n
      → (w' : k.World) × (term.fgets n w ≡ (some l, w'))
        × (lines w' ≡ ls)
        × (to_server w' ≡ to_server w)
        × (to_client w' ≡ to_client w)
  pub fgets_end :
      (n : ℕ) (w : k.World)
      → lines w ≡ []
      → (w' : k.World) × (term.fgets n w ≡ (none, w'))
        × (lines w' ≡ [])
        × (to_server w' ≡ to_server w)
        × (to_client w' ≡ to_client w)
  pub client_write :
      (buf : List ℕ) (w : k.World)
      → (w' : k.World) × (k.write sfd buf w ≡ (ok (length buf), w'))
        × (lines w' ≡ lines w)
        × (to_server w' ≡ to_server w ++ buf)
        × (to_client w' ≡ to_client w)
  pub client_read :
      (n : ℕ) (w : k.World)
      → 0 < length (to_client w)
      → (w' : k.World) × (k.read sfd n w ≡ (ok (take n (to_client w)), w'))
        × (lines w' ≡ lines w)
        × (to_server w' ≡ to_server w)
        × (to_client w' ≡ drop n (to_client w))
  pub client_waits :
      (n : ℕ) (w w' : k.World)
      → to_client w ≡ []
      → turn k toupper cfd w ≡ returns tt w'
      → k.read sfd n w ≡ k.read sfd n w'
  pub server_read :
      (n : ℕ) (w : k.World)
      → 0 < length (to_server w)
      → (w' : k.World) × (k.read cfd n w ≡ (ok (take n (to_server w)), w'))
        × (lines w' ≡ lines w)
        × (to_server w' ≡ drop n (to_server w))
        × (to_client w' ≡ to_client w)
  pub server_write :
      (buf : List ℕ) (w : k.World)
      → (lines (k.write cfd buf w).1 ≡ lines w)
        × (to_server (k.write cfd buf w).1 ≡ to_server w)
        × (to_client (k.write cfd buf w).1 ≡ to_client w ++ buf)
