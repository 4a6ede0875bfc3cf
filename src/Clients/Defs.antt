-- ===== src/Clients/Defs.antt =====
-- webprogramming/tcpClient.c and webprogramming/client.c: `main` from `socket`
-- on, and the handlers of signals. A buffer of C is the list of its bytes; that of client.c, which
-- every round declares anew, keeps its bytes. What is printed of an answer is the text in the buffer.
use linux_unix_system_progra.Prelude.{
  ℕ, zero, suc, List, [], ◌∷◌, ◌++◌, Option, none, some, length, drop,
}
use linux_unix_system_progra.Syscall.{Reply, ok, fail, Result, returns, exits, unfinished}
use linux_unix_system_progra.HSocket.Kernel.{Kernel}

-- fgets on the standard input: a line of fewer bytes than the buffer has, or NULL.
pub record Terminal (k : Kernel) : Type 0 where
  pub fgets : ℕ → k.World → Option (List ℕ) × k.World

-- The text at the front of a buffer, up to its terminator; its length is strlen.
unfoldable pub c_string : List ℕ → List ℕ
c_string [] = []
c_string (zero ∷ bs) = []
c_string (suc b ∷ bs) = suc b ∷ c_string bs

-- Bytes that are stored at the front of a buffer.
abbrev pub store : List ℕ → List ℕ → List ℕ
store bytes buf = bytes ++ drop (length bytes) buf

-- What fgets does to the buffer: nothing at the end of the input.
abbrev pub line_stored : Option (List ℕ) → List ℕ → List ℕ
line_stored none buf = buf
line_stored (some line) buf = store (line ++ 0 ∷ []) buf

-- BUF_SIZ of tcpClient.c, and sizeof(buf) of client.c.
abbrev pub tcp_buf_size : ℕ
tcp_buf_size = 1028

abbrev pub chat_buf_size : ℕ
chat_buf_size = 1024

abbrev pub stop_password : List ℕ
stop_password =
    b'S' ∷ b'E' ∷ b'R' ∷ b'V' ∷ b'E' ∷ b'R' ∷ b' ' ∷ b'S' ∷ b'T' ∷ b'O' ∷ b'P' ∷ b' ' ∷ b'P' ∷ b'A'
    ∷ b'S' ∷ b'S' ∷ b'W' ∷ b'O' ∷ b'R' ∷ b'D' ∷ 0 ∷ []

module _ (k : Kernel) (term : Terminal k) where
  open k use {World}

  -- The state of a client in its loop; `shown` are the texts that it printed.
  pub record Client : Type 0 where
    pub buf : List ℕ
    pub shown : List (List ℕ)
    pub world : World

  -- `disconnectServer`
  abbrev pub disconnect_server : ℕ → World → World
  disconnect_server sfd w = (k.write sfd stop_password w).1

  -- The loop goes on, or is left.
  pub data Turn : Type 0 where
    goes_on : Client → Turn
    breaks : Client → Turn

  -- Behind `read` in tcpClient.c, where the end of the stream only prints a message.
  unfoldable pub after_read : Client → Reply (List ℕ) × World → Turn
  after_read c (fail e, w) = breaks (record c { world = w })
  after_read c (ok [], w) = goes_on (record c { world = w })
  after_read c (ok (b ∷ bs), w) =
      let buf' = store (b ∷ bs) c.buf in
      goes_on (record { buf = buf'; shown = c.shown ++ c_string buf' ∷ []; world = w })

  -- Behind `write`; a failed one only prints a message.
  unfoldable pub after_write : ℕ → Client → Reply ℕ × World → Turn
  unfolding after_read
  after_write sfd c (ok zero, w) = breaks (record c { world = w })
  after_write sfd c (ok (suc n), w) =
      after_read (record c { world = w }) (k.read sfd tcp_buf_size w)
  after_write sfd c (fail e, w) = after_read (record c { world = w }) (k.read sfd tcp_buf_size w)

  unfoldable pub after_fgets : ℕ → Client → Option (List ℕ) × World → Turn
  unfolding after_write c_string
  after_fgets sfd c (line, w) =
      let buf' = line_stored line c.buf in
      after_write sfd (record c { buf = buf'; world = w }) (k.write sfd (c_string buf') w)

  unfoldable pub tcp_round : ℕ → Client → Turn
  unfolding after_fgets
  tcp_round sfd c = after_fgets sfd c (term.fgets tcp_buf_size c.world)

  -- client.c: behind `read`, and a round.
  unfoldable pub after_chat_read : Client → Reply (List ℕ) × World → Turn
  after_chat_read c (fail e, w) = breaks (record c { world = w })
  after_chat_read c (ok [], w) = breaks (record c { world = w })
  after_chat_read c (ok (b ∷ bs), w) = goes_on (record c { buf = store (b ∷ bs) c.buf; world = w })

  unfoldable pub after_chat_fgets : ℕ → Client → Option (List ℕ) × World → Turn
  unfolding after_chat_read c_string
  after_chat_fgets fd c (line, w) =
      let buf' = line_stored line c.buf in
      let w1 = (k.write fd (c_string buf') w).1 in
      after_chat_read (record c { buf = buf'; world = w1 }) (k.read fd chat_buf_size w1)

  unfoldable pub chat_round : ℕ → Client → Turn
  unfolding after_chat_fgets
  chat_round fd c = after_chat_fgets fd c (term.fgets chat_buf_size c.world)

  -- Rounds of a loop: the client behind it, or still in it when the fuel is spent.
  pub data Run : Type 0 where
    left : Client → Run
    still : Client → Run

  unfoldable pub rounds : ℕ → (Client → Turn) → Client → Run
  rounds zero round c = still c
  rounds (suc fuel) round c = elim (round c) [
    | goes_on c' ↦ rounds fuel round c'
    | breaks c' ↦ left c'
  ]

  abbrev pub try {ℓ} :
      {A : Type ℓ}
      → Reply A × World
      → (A → World → Result World (List (List ℕ)))
      → Result World (List (List ℕ))
  try (ok a, w) next = next a w
  try (fail e, w) next = exits w

  abbrev pub close_after : ℕ → Run → Result World (List (List ℕ))
  close_after sfd (left c) = returns c.shown (k.close sfd c.world).1
  close_after sfd (still c) = unfinished

  -- `main` of tcpClient.c; `buf` is what the buffer holds before it is set. It returns what it showed.
  unfoldable pub tcp_main : ℕ → k.Address → List ℕ → World → Result World (List (List ℕ))
  unfolding rounds tcp_round
  tcp_main fuel server buf w = try (k.socket 2 1 0 w) (λ sfd w1.
      try (k.connect sfd server w1) (λ r w2.
        close_after sfd
          (rounds fuel (tcp_round sfd) (record { buf = buf; shown = []; world = w2 }))))

  -- client.c keeps what `socket` answers without a look at it; `minus_one` is the descriptor -1.
  abbrev pub chat_fd : ℕ → Reply ℕ → ℕ
  chat_fd minus_one (ok fd) = fd
  chat_fd minus_one (fail e) = minus_one

  -- `main` of client.c, which looks at no result before its loop.
  unfoldable pub chat_main : ℕ → ℕ → k.Address → List ℕ → World → Run
  unfolding rounds chat_round
  chat_main fuel minus_one server buf w =
      let (r, w1) = k.socket 2 1 0 w in
      let fd = chat_fd minus_one r in
      let w2 = (k.connect fd server w1).1 in
      rounds fuel (chat_round fd) (record { buf = buf; shown = []; world = w2 })
