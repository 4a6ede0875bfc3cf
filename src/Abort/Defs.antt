-- ===== src/Abort/Defs.antt =====
-- abort.c: `abort` and `main`, over the calls of the kernel and of stdio as a parameter. A set of
-- signals is a function into Bool.
use linux_unix_system_progra.Prelude.{ℕ, zero, suc, Bool, false, update, if◌then◌else◌}

abbrev pub sigabrt : ℕ
sigabrt = 6

pub data Disposition : Type 0 where
  sig_dfl sig_ign : Disposition
  catching : Disposition  -- a handler of the program

-- `struct sigaction`
pub record Action : Type 0 where
  pub sa_handler : Disposition
  pub sa_mask : ℕ → Bool

-- What a call that may deliver SIGABRT does to the process: it goes on, it is killed by the signal,
-- or it leaves by a handler that does not return.
pub data Delivery (W : Type 0) : Type 0 where
  lives : W → Delivery W
  dies : W → Delivery W
  jumps : W → Delivery W

pub record Kernel : Type 1 where
  pub World : Type 0
  pub action : World → Action  -- of SIGABRT
  pub set_action : Action → World → World
  pub set_mask : (ℕ → Bool) → World → Delivery World  -- SIG_SETMASK
  pub kill_self : World → Delivery World  -- kill(getpid(), SIGABRT)
  pub fcloseall : World → ℕ × World

-- How `abort` ends: `failed` is `errExit`, and `exited` the call of exit(1) in its last line.
pub data Ended (W : Type 0) : Type 0 where
  killed : W → Ended W
  jumped : W → Ended W
  failed : W → Ended W
  exited : W → Ended W

abbrev pub delivered : {W : Type 0} → Delivery W → (W → Ended W) → Ended W
delivered (lives w) next = next w
delivered (dies w) next = killed w
delivered (jumps w) next = jumped w

module _ (k : Kernel) where
  open k use {World}

  -- From `//Finally` on.
  unfoldable pub finish : Action → World → Ended World
  finish sa w =
      let sa' = record sa { sa_handler = sig_dfl } in
      let w' = k.set_action sa' (k.fcloseall w).1 in
      delivered (k.set_mask sa'.sa_mask w') (λ w1. delivered (k.kill_self w1) exited)

  -- The first signal.
  unfoldable pub signal_once : Action → World → Ended World
  unfolding finish
  signal_once sa w = delivered (k.kill_self w) (finish sa)

  -- SIGABRT is taken out of the mask of the action, which becomes the mask of the process.
  unfoldable pub unblock : Action → World → Ended World
  unfolding signal_once
  unblock sa w =
      let sa' = record sa { sa_mask = update sa.sa_mask sigabrt false } in
      if sa.sa_mask sigabrt
      then delivered (k.set_mask sa'.sa_mask w) (signal_once sa')
      else signal_once sa w

  abbrev pub after_close : Action → ℕ × World → Ended World
  after_close sa (zero, w) = unblock sa w
  after_close sa (suc n, w) = failed w

  -- With the default action all streams are closed first.
  unfoldable pub close_streams : Action → Disposition → World → Ended World
  unfolding unblock
  close_streams sa sig_dfl w = after_close sa (k.fcloseall w)
  close_streams sa sig_ign w = unblock sa w
  close_streams sa catching w = unblock sa w

  -- An ignored signal gets its default action.
  unfoldable pub reset : Action → Disposition → World → Ended World
  unfolding close_streams
  reset sa sig_ign w =
      let sa' = record sa { sa_handler = sig_dfl } in close_streams sa' sig_dfl (k.set_action sa' w)
  reset sa sig_dfl w = close_streams sa sig_dfl w
  reset sa catching w = close_streams sa catching w

  unfoldable pub abort : World → Ended World
  unfolding reset
  abort w = reset (k.action w) (k.action w).sa_handler w

  -- `main`, whose handler `fa` returns.
  unfoldable pub main : World → Ended World
  unfolding abort
  main w = abort (k.set_action (record { sa_handler = catching; sa_mask = λ s. false }) w)
