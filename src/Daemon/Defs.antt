-- ===== src/Daemon/Defs.antt =====
-- Daemon/daemon_1.c: a process that leaves its parent, sets a timer and sleeps; its handler of SIGALRM
-- creates a file that is named after the time. The calls are parameters, and so is the `%ld` of
-- sprintf. A text is the list of its bytes, without the terminator.
use linux_unix_system_progra.Prelude.{
  ℕ, zero, suc, Bool, true, false, List, [], ◌∷◌, ◌++◌, Option, none, some, ltb, length,
  if◌then◌else◌,
}
use linux_unix_system_progra.Syscall.{Reply, ok, fail}

pub record Kernel : Type 1 where
  pub World : Type 0
  pub fork : World → Reply ℕ × World
  pub setsid : World → World
  pub umask : ℕ → World → World
  pub chdir : Option (List ℕ) → World → World  -- its result is not looked at
  pub setitimer : World → World  -- an alarm after a second, and after every minute from then on
  pub alarm_due : World → Bool  -- the first alarm comes before the call of sigaction
  pub sigaction : World → World
  pub sleep : World → Bool × World  -- whether an alarm came since the last call
  pub getenv : World → Option (List ℕ)  -- the variable HOME
  pub time : World → ℕ
  pub open_file : List ℕ → World → Reply ℕ × World
  pub close : ℕ → World → World

-- The process ended by `exit`, or was killed, or is still in its loop when the fuel is spent. It is
-- `undefined` what sprintf does behind the end of its buffer, or with a null pointer for its text.
pub data Ended (W : Type 0) : Type 0 where
  exited : W → Ended W
  killed : W → Ended W
  undefined : W → Ended W
  sleeping : W → Ended W

-- sizeof(strFilename)
abbrev pub buf_size : ℕ
buf_size = 250

abbrev pub log_folder : List ℕ
log_folder = b'/' ∷ b'l' ∷ b'o' ∷ b'g' ∷ b'/' ∷ []

abbrev pub extension : List ℕ
extension = b'.' ∷ b't' ∷ b'x' ∷ b't' ∷ []

module _ (k : Kernel) (decimal : ℕ → List ℕ) where
  open k use {World}

  -- `strFilename`
  unfoldable pub file_name : List ℕ → ℕ → List ℕ
  file_name home t = home ++ log_folder ++ decimal t ++ extension

  -- Behind `open` in `handler`; `rest` is what the alarm has interrupted.
  abbrev pub after_open : (World → Ended World) → Reply ℕ × World → Ended World
  after_open rest (ok fd, w) = rest (k.close fd w)
  after_open rest (fail e, w) = exited w

  abbrev pub with_home : (World → Ended World) → Option (List ℕ) → World → Ended World
  with_home rest none w = undefined w
  with_home rest (some home) w =
      let name = file_name home (k.time w) in
      if ltb (length name) buf_size then after_open rest (k.open_file name w) else undefined w

  -- `handler`
  unfoldable pub handler : (World → Ended World) → World → Ended World
  handler rest w = with_home rest (k.getenv w) w

  abbrev pub after_sleep : (World → Ended World) → Bool × World → Ended World
  after_sleep rest (false, w) = rest w
  after_sleep rest (true, w) = handler rest w

  -- The loop of `main`.
  unfoldable pub loop : ℕ → World → Ended World
  loop zero w = sleeping w
  loop (suc fuel) w = after_sleep (loop fuel) (k.sleep w)

  -- From setsid to setitimer.
  unfoldable pub set_up : World → World
  set_up w = let w1 = k.umask 0 (k.setsid w) in k.setitimer (k.chdir (k.getenv w1) w1)

  unfoldable pub serve : ℕ → World → Ended World
  serve fuel w =
      let w1 = set_up w in if k.alarm_due w1 then killed w1 else loop fuel (k.sigaction w1)

  -- Behind `fork`, whose failure is not told from the child.
  abbrev pub after_fork : ℕ → Reply ℕ × World → Ended World
  after_fork fuel (ok (suc pid), w) = exited w
  after_fork fuel (ok zero, w) = serve fuel w
  after_fork fuel (fail e, w) = serve fuel w

  unfoldable pub main : ℕ → World → Ended World
  main fuel w = after_fork fuel (k.fork w)
