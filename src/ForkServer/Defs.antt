-- ===== src/ForkServer/Defs.antt =====
-- webprogramming/multi_processor_server.c: `recycle` and `main`, as one process runs them. What fork
-- answers says whether this process goes on as the parent or as the child. Printing is left out.
use linux_unix_system_progra.Prelude.{
  ℕ, zero, suc, ◌==◌, if◌then◌else◌, List, [], ◌∷◌, Bool, true, false, ◌&&◌,
}
use linux_unix_system_progra.Syscall.{Reply, ok, fail, Result, returns, exits, unfinished, eintr}
use linux_unix_system_progra.HSocket.Kernel.{Kernel}

-- The calls that only this program makes; `response` is what the child writes.
pub record Processes (k : Kernel) : Type 0 where
  pub fork : k.World → Reply ℕ × k.World
  pub waitpid : k.World → Reply ℕ × k.World  -- waitpid(-1, NULL, WNOHANG)
  pub response : List ℕ

abbrev pub buf_size : ℕ
buf_size = 1024

abbrev pub backlog : ℕ
backlog = 128

-- A wrapper that ends the process where its call fails; `next` is what follows it.
abbrev pub or_exit {ℓ κ} :
    {W : Type 0} {A : Type ℓ} {B : Type κ} → Reply A × W → (A → W → Result W B) → Result W B
or_exit (ok a, w) next = next a w
or_exit (fail e, w) next = exits w

module _ (k : Kernel) (p : Processes k) where
  open k use {World, Address}

  -- `while ((pid = waitpid(...)) > 0)`
  unfoldable pub after_waitpid : (World → Result World ℕ) → Reply ℕ × World → Result World ℕ
  after_waitpid rest (ok zero, w) = returns 0 w
  after_waitpid rest (ok (suc pid), w) = rest w
  after_waitpid rest (fail e, w) = returns 0 w

  unfoldable pub recycle : ℕ → World → Result World ℕ
  unfolding after_waitpid
  recycle zero w = unfinished
  recycle (suc fuel) w = after_waitpid (recycle fuel) (p.waitpid w)

  -- The condition `communicatefd = accept(...) == -1 && errno == EINTR`: what is assigned is the
  -- value of the conjunction.
  abbrev pub accept_condition : Reply (ℕ × Address) → Bool
  accept_condition (ok c) = false
  accept_condition (fail e) = true && (e == eintr)

  abbrev pub int_of : Bool → ℕ
  int_of false = 0
  int_of true = 1

  -- The loop of accept; it returns `communicatefd`.
  unfoldable pub accept_rounds : ℕ → ℕ → World → Result World ℕ
  accept_rounds zero listenfd w = unfinished
  accept_rounds (suc fuel) listenfd w =
      let answer = k.accept listenfd w in
      let again = accept_rounds fuel listenfd answer.1 in
      let communicatefd = int_of (accept_condition answer.0) in
      if accept_condition answer.0 then again else returns communicatefd answer.1

  -- The loop of the child. A failed read only prints a message.
  unfoldable pub after_read : ℕ → (World → Result World ℕ) → Reply (List ℕ) × World → Result World ℕ
  after_read communicatefd rest (fail e, w) = rest w
  after_read communicatefd rest (ok [], w) = returns 0 (k.close communicatefd w).1
  after_read communicatefd rest (ok (b ∷ bs), w) = rest (k.write communicatefd p.response w).1

  unfoldable pub child_rounds : ℕ → ℕ → World → Result World ℕ
  unfolding after_read
  child_rounds zero communicatefd w = unfinished
  child_rounds (suc fuel) communicatefd w =
      after_read communicatefd (child_rounds fuel communicatefd) (k.read communicatefd buf_size w)

  -- Behind a loop that has returned.
  abbrev pub then_do : Result World ℕ → (ℕ → World → Result World ℕ) → Result World ℕ
  then_do (returns c w) next = next c w
  then_do (exits w) next = exits w
  then_do unfinished next = unfinished

  -- What the child and the parent do behind `Fork`. When the child's loop is over, it goes on with
  -- the loop of `main`.
  unfoldable pub after_fork :
      ℕ → ℕ → ℕ → (World → Result World ℕ) → Reply ℕ × World → Result World ℕ
  after_fork fuel listenfd communicatefd rest (fail e, w) = exits w
  after_fork fuel listenfd communicatefd rest (ok zero, w) =
      then_do (child_rounds fuel communicatefd (k.close listenfd w).1) (λ r. rest)
  after_fork fuel listenfd communicatefd rest (ok (suc pid), w) = rest (k.close communicatefd w).1

  -- `while (1)`. The same fuel bounds each loop inside.
  unfoldable pub serve : ℕ → ℕ → World → Result World ℕ
  unfolding after_fork
  serve zero listenfd w = unfinished
  serve (suc fuel) listenfd w =
      then_do (accept_rounds fuel listenfd w) (λ communicatefd w1.
        after_fork fuel listenfd communicatefd (serve fuel listenfd) (p.fork w1))

  unfoldable pub main : ℕ → Address → World → Result World ℕ
  main fuel server w = or_exit (k.socket 2 1 0 w) (λ listenfd w1.
      or_exit (k.bind listenfd server w1)
        (λ r w2. or_exit (k.listen listenfd backlog w2) (λ r w3. serve fuel listenfd w3)))
