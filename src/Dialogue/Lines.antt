-- ===== src/Dialogue/Lines.antt =====
-- webprogramming/tcpClient.c with webprogramming/tcpServer.c: what the user reads.
use linux_unix_system_progra.Prelude.{ℕ, suc, ◌≡◌, ◌≢◌, refl, List, [], ◌++◌, map, length, arith}
use linux_unix_system_progra.HSocket.Kernel.{Kernel}
use linux_unix_system_progra.Clients.Defs.{Terminal, Client, still, tcp_round, rounds}
use linux_unix_system_progra.Clients.Conversation.{AllLines, rounds-shown}
use linux_unix_system_progra.EchoServer.Defs.{buf_size}
use linux_unix_system_progra.Dialogue.Connection.{Connection}
use linux_unix_system_progra.Dialogue.Answers.{nil-append, Connection-Answering}

module _ (toupper : ℕ → ℕ) (keeps : (b : ℕ) → toupper (suc b) ≢ 0) (k : Kernel) (term : Terminal k)
    (sfd cfd : ℕ) (con : Connection k term toupper sfd cfd) where
  open con use {lines, to_server, to_client}

  -- Over a connection on which each write is taken whole and is there for the next read, which takes
  -- what is there, up to its size: the user who types lines of at most 1024 bytes, which is the buffer of
  -- the server, reads each of them in capitals, in the order in which they came, and nothing is left on
  -- the way.
  pub dialogue :
      (ls : List (List ℕ)) (c : Client k term)
      → AllLines buf_size ls
      → lines c.world ≡ ls
      → to_server c.world ≡ []
      → to_client c.world ≡ []
      → (c' : Client k term) × (rounds k term (length ls) (tcp_round k term sfd) c ≡ still c')
        × (c'.shown ≡ c.shown ++ map (map toupper) ls)
        × (to_server c'.world ≡ [])
        × (to_client c'.world ≡ [])
  unfolding Connection-Answering
  dialogue ls c all e s t =
      let peer = Connection-Answering toupper k term sfd cfd con in
      let (c1, r, shown, l, p) =
        rounds-shown toupper keeps k term buf_size sfd peer (omega arith) ls c all e
          (rw (s, t) refl) in
      let (s1, t1) = nil-append (to_server c1.world) (to_client c1.world) p in
      (c1, r, shown, s1, t1)
