-- ===== src/Suspend/Defs.antt =====
-- simpleSuspend.c: `main` and `handler`, over the calls on signals as a parameter. What is printed is
-- a list of lines, the numbers and names of the signals being their numbers.
use linux_unix_system_progra.Prelude.{
  ℕ, zero, suc, ◌+◌, List, [], ◌∷◌, ◌++◌, Bool, true, false, ◌||◌, ◌==◌, if◌then◌else◌,
}
use linux_unix_system_progra.Syscall.{Reply, ok, fail, eintr}

abbrev pub sigint : ℕ
sigint = 2

abbrev pub sigusr1 : ℕ
sigusr1 = 10

abbrev pub sigusr2 : ℕ
sigusr2 = 12

abbrev pub nsig : ℕ
nsig = 65

pub record Signals : Type 1 where
  pub World : Type 0
  pub Sigset : Type 0
  pub sigemptyset : Sigset
  pub sigaddset : Sigset → ℕ → Sigset
  pub sigismember : Sigset → ℕ → Reply Bool
  pub block : Sigset → World → Sigset × World  -- sigprocmask with SIG_BLOCK: the mask before
  pub sigaction : ℕ → World → World  -- sets the handler of a signal
  pub sleep : World → World
  pub sigpending : World → Reply Sigset × World
  pub sigsuspend : Sigset → World → List ℕ × (Reply {0} Unit × World)  -- with the signals it catches

pub data Line : Type 0 where
  pid : Line
  caught : ℕ → Line
  pending : ℕ → Line
  sigpending_error : Line
  sigsuspend_error : Line
  after_sigsuspend : Line

pub record Ended (W : Type 0) : Type 0 where
  pub success : Bool
  pub lines : List Line
  pub world : W

-- What one run of the handler prints.
abbrev pub handler : ℕ → List Line
handler signo =
    if (signo == sigusr1) || (signo == sigusr2) || (signo == sigint) then caught signo ∷ [] else []

abbrev pub handled : List ℕ → List Line
handled [] = []
handled (signo ∷ rest) = handler signo ++ handled rest

-- A result as the condition of an `if`: -1 is true.
abbrev pub holds : Reply Bool → Bool
holds (ok b) = b
holds (fail e) = true

module _ (k : Signals) where
  open k use {World, Sigset}

  -- The loop over `i`, with `n` rounds left.
  unfoldable pub listing : Sigset → ℕ → ℕ → List Line
  listing s i zero = []
  listing s i (suc n) =
      let rest = listing s (i + 1) n in if holds (k.sigismember s i) then pending i ∷ rest else rest

  -- A report: `pendings`, the lines, and the world after it.
  abbrev pub report_of : Sigset → Reply Sigset × World → Sigset × List Line × World
  report_of pendings (ok s, w) = (s, listing s 0 nsig, w)
  report_of pendings (fail e, w) = (pendings, sigpending_error ∷ listing pendings 0 nsig, w)

  abbrev pub report : Sigset → World → Sigset × List Line × World
  report pendings w = report_of pendings (k.sigpending w)

  abbrev pub block_set : Sigset
  block_set = k.sigaddset (k.sigaddset (k.sigaddset k.sigemptyset sigusr1) sigusr2) sigint

  abbrev pub second_report : Sigset → World → Ended World
  second_report pendings w =
      let r = report pendings w in
      record { success = true; lines = after_sigsuspend ∷ r.1; world = r.2 }

  -- From the return of sigsuspend on.
  unfoldable pub after_suspend : Sigset → List ℕ × (Reply {0} Unit × World) → Ended World
  after_suspend pendings (signals, (ok u, w)) =
      let e = second_report pendings w in record e { lines = handled signals ++ e.lines }
  after_suspend pendings (signals, (fail n, w)) =
      let e = second_report pendings w in
      if n == eintr
      then record e { lines = handled signals ++ e.lines }
      else record { success = false; lines = handled signals ++ (sigsuspend_error ∷ []); world = w }

  -- Up to the first report; the mask before is `prevSet`.
  unfoldable pub set_up : World → Sigset × World
  set_up w =
      let b = k.block block_set w in
      (b.0, k.sleep (k.sigaction sigint (k.sigaction sigusr2 (k.sigaction sigusr1 b.1))))

  -- `pendings` is not initialised.
  unfoldable pub main : Sigset → World → Ended World
  unfolding set_up after_suspend
  main pendings w =
      let b = set_up w in
      let r = report pendings b.1 in
      let e = after_suspend r.0 (k.sigsuspend b.0 r.2) in
      record e { lines = pid ∷ (r.1 ++ e.lines) }
