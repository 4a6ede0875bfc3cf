-- ===== src/Dialogue/Answers.antt =====
-- webprogramming/tcpClient.c with webprogramming/tcpServer.c: the lines of the user come back in
-- capitals, and what happens to a line that is longer than the buffer of the server.
use linux_unix_system_progra.Prelude.{
  ℕ, ◌<◌, ◌≤◌, ◌≡◌, refl, ◌∙◌, List, [], ◌∷◌, ◌++◌, map, length, take, drop, arith, length-take,
  take-length, drop-length, min,
}
use linux_unix_system_progra.Syscall.{ok, returns}
use linux_unix_system_progra.HSocket.Kernel.{Kernel}
use linux_unix_system_progra.Clients.Defs.{Terminal}
use linux_unix_system_progra.Clients.Texts.{length-map}
use linux_unix_system_progra.Clients.Conversation.{Answering}
use linux_unix_system_progra.EchoServer.Defs.{buf_size, after_read}
use linux_unix_system_progra.Dialogue.Connection.{turn, Connection}

pub nil-append : (xs ys : List ℕ) → xs ++ ys ≡ [] → (xs ≡ []) × (ys ≡ [])
nil-append [] ys e = (refl, e)
nil-append (x ∷ xs) ys e = absurd (ground (arith, e))

module _ (toupper : ℕ → ℕ) (k : Kernel) (term : Terminal k) (sfd cfd : ℕ)
    (con : Connection k term toupper sfd cfd) where
  open k use {World}
  open con use {lines, to_server, to_client}

  returns_write :
      (w : World) (bs : List ℕ)
      → 0 < length bs
      → after_read k toupper cfd (returns tt) (ok bs, w)
        ≡ returns tt (k.write cfd (map toupper bs) w).1
  unfolding after_read
  returns_write w [] pos = absurd (omega arith)
  returns_write w (b ∷ bs) pos = refl

  -- A turn of the server takes up to 1024 bytes and sends them back in capitals.
  server_turn :
      (w : World)
      → 0 < length (to_server w)
      → (w' : World) × (turn k toupper cfd w ≡ returns tt w')
        × (lines w' ≡ lines w)
        × (to_server w' ≡ drop buf_size (to_server w))
        × (to_client w' ≡ to_client w ++ map toupper (take buf_size (to_server w)))
  unfolding turn
  server_turn w pos =
      let (w1, e, l, s, c) = con.server_read buf_size w pos in
      let got = take buf_size (to_server w) in
      let (l2, s2, c2) = con.server_write (map toupper got) w1 in
      (
        (k.write cfd (map toupper got) w1).1,
        rw (e) (returns_write w1 got (omega (arith, length-take buf_size (to_server w), pos))),
        l2 ∙ l,
        s2 ∙ s,
        c2 ∙ rw c refl,
      )

  -- A message to an idle connection, and the first answer to it.
  pub first_answer :
      (n : ℕ) (buf : List ℕ) (w : World)
      → to_server w ≡ []
      → to_client w ≡ []
      → 0 < length buf
      → buf_size ≤ n
      → (w1 w2 : World) × (k.write sfd buf w ≡ (ok (length buf), w1))
        × (k.read sfd n w1 ≡ (ok (map toupper (take buf_size buf)), w2))
        × (lines w2 ≡ lines w)
        × (to_server w2 ≡ drop buf_size buf)
        × (to_client w2 ≡ [])
  first_answer n buf w s c pos fits =
      let (w1, e1, l1, s1, c1) = con.client_write buf w in
      let asked : to_server w1 ≡ buf = s1 ∙ rw s refl in
      let (w2, e2, l2, s2, c2) = server_turn w1 (rw asked pos) in
      let came : to_client w2 ≡ map toupper (take buf_size buf) = c2 ∙ rw (c1, c, asked) refl in
      let size : length (to_client w2) ≡ min buf_size (length buf) =
        rw came (length-map toupper (take buf_size buf) ∙ length-take buf_size buf) in
      let (w3, e3, l3, s3, c3) = con.client_read n w2 (omega (arith, size, pos)) in
      (
        w1,
        w3,
        e1,
        con.client_waits n w1 w2 (c1 ∙ c) e2
            ∙ e3
            ∙ rw (take-length n (to_client w2) (omega (arith, size, fits)), came) refl,
        l3 ∙ l2 ∙ l1,
        s3 ∙ s2 ∙ rw asked refl,
        c3 ∙ drop-length n (to_client w2) (omega (arith, size, fits)),
      )

  -- A server whose buffer holds the message answers it at once.
  unfoldable pub Connection-Answering : Answering k term toupper buf_size sfd
  Connection-Answering = record {
    lines = lines;
    pending = λ w. to_server w ++ to_client w;
    fgets_line = λ n w l ls e h.
        let (w', q, l, s, c) = con.fgets_line n w l ls e h in (w', q, l, rw (s, c) refl);
    fgets_end = λ n w e. let (w', q, l, s, c) = con.fgets_end n w e in (w', q, l, rw (s, c) refl);
    answered = λ n buf w idle pos fits small.
        let (s, c) = nil-append (to_server w) (to_client w) idle in
        let (w1, w2, e1, e2, l, s2, c2) = first_answer n buf w s c pos small in
        (
          w1,
          w2,
          e1,
          e2 ∙ rw (take-length buf_size buf fits) refl,
          l,
          rw (s2, c2, drop-length buf_size buf fits) refl,
        );
  }
