-- ===== src/MultiThread/Service.antt =====
-- webprogramming/multi_thread_server.c: what a worker thread does with the messages of its client, over
-- the kernel of HSocket. The buffer `cont` is the list of its bytes; every round declares it anew, and
-- it keeps them.
use linux_unix_system_progra.Prelude.{ℕ, zero, suc, List, [], ◌∷◌, ◌++◌, same_text, if◌then◌else◌}
use linux_unix_system_progra.Syscall.{Reply, ok, fail}
use linux_unix_system_progra.HSocket.Kernel.{Kernel}
use linux_unix_system_progra.Clients.Defs.{c_string, store}

-- The thread leaves its loop, or ends by pthread_exit.
pub data Ended (W : Type 0) : Type 0 where
  stopped : W → Ended W  -- by the password, with the connection open
  disconnected : W → Ended W
  failed : W → Ended W
  unfinished : Ended W

-- sizeof(buf), which is not the size of `cont`.
abbrev pub read_size : ℕ
read_size = 64

abbrev pub password : List ℕ
password =
    b'S' ∷ b'E' ∷ b'R' ∷ b'V' ∷ b'E' ∷ b'R' ∷ b' ' ∷ b'S' ∷ b'T' ∷ b'O' ∷ b'P' ∷ b' ' ∷ b'P' ∷ b'A'
    ∷ b'S' ∷ b'S' ∷ b'W' ∷ b'O' ∷ b'R' ∷ b'D' ∷ []

abbrev sent : List ℕ
sent =
    b's' ∷ b'u' ∷ b'c' ∷ b'c' ∷ b'e' ∷ b's' ∷ b's' ∷ b'f' ∷ b'u' ∷ b'l' ∷ b'l' ∷ b'y' ∷ b' ' ∷ b's'
    ∷ b'e' ∷ b'n' ∷ b't' ∷ b'\n' ∷ 0 ∷ []

-- `behind` are the 13 bytes that stand behind the text, which are sent with it.
module _ (k : Kernel) (behind : List ℕ) where
  open k use {World}

  abbrev pub answer : List ℕ
  answer = sent ++ behind

  -- Behind `read`, in a round of the loop.
  unfoldable pub after_read :
      ℕ → (List ℕ → World → Ended World) → List ℕ → Reply (List ℕ) × World → Ended World
  unfolding c_string
  after_read cfd rest cont (fail e, w) = failed w
  after_read cfd rest cont (ok [], w) = disconnected (k.close cfd w).1
  after_read cfd rest cont (ok (b ∷ bs), w) =
      let cont' = store (b ∷ bs) cont in
      if same_text password (c_string cont') then stopped w else rest cont' (k.write cfd answer w).1

  -- The loop of `worker`.
  unfoldable pub worker : ℕ → ℕ → List ℕ → World → Ended World
  unfolding after_read
  worker zero cfd cont w = unfinished
  worker (suc fuel) cfd cont w = after_read cfd (worker fuel cfd) cont (k.read cfd read_size w)
