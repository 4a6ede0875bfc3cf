-- ===== src/Abort/Ending.antt =====
-- abort.c: how a process ends that calls `abort`.
use linux_unix_system_progra.Prelude.{
  ℕ, zero, suc, ◌≡◌, refl, sym, ap, subst, ◌∙◌, inl, inr, Bool, true, false, update, Bool-cases,
}
use linux_unix_system_progra.Abort.Defs.{
  sigabrt, Disposition, sig_dfl, sig_ign, catching, Action, Delivery, lives, dies, jumps, Kernel,
  Ended, killed, jumped, failed, exited, delivered, finish, signal_once, unblock, after_close,
  close_streams, reset, abort,
}

-- After a change of the mask of SIGABRT with the default action: the process is killed, or lives
-- with the signal let through; no handler of the program has run.
pub data Unmasked (k : Kernel) (blocked : k.World → Bool) (runs : k.World → ℕ) (before : ℕ)
    : Delivery k.World → Type 0 where
  was_pending : (w : k.World) → runs w ≡ before → Unmasked k blocked runs before (dies w)
  open_now :
      (w : k.World)
      → blocked w ≡ false
      → (k.action w).sa_handler ≡ sig_dfl
      → runs w ≡ before
      → Unmasked k blocked runs before (lives w)

-- POSIX on SIGABRT: `blocked` says whether the process blocks it, and `runs` is the number of the calls
-- of its handler. A blocked signal is only made pending, and one with the default action runs none.
pub record Posix (k : Kernel) : Type 0 where
  pub blocked : k.World → Bool
  pub runs : k.World → ℕ
  pub set_action_action : (a : Action) (w : k.World) → k.action (k.set_action a w) ≡ a
  pub set_action_runs : (a : Action) (w : k.World) → runs (k.set_action a w) ≡ runs w
  pub fcloseall_runs : (w : k.World) → runs (k.fcloseall w).1 ≡ runs w
  pub set_mask_default :
      (m : ℕ → Bool) (w : k.World)
      → m sigabrt ≡ false
      → (k.action w).sa_handler ≡ sig_dfl
      → Unmasked k blocked runs (runs w) (k.set_mask m w)
  pub kill_default :
      (w : k.World)
      → blocked w ≡ false
      → (k.action w).sa_handler ≡ sig_dfl
      → (w' : k.World) × (k.kill_self w ≡ dies w') × (runs w' ≡ runs w)
  pub kill_blocked :
      (w : k.World)
      → blocked w ≡ true
      → (w' : k.World) × (k.kill_self w ≡ lives w') × (runs w' ≡ runs w)

module _ (k : Kernel) (posix : Posix k) where
  open k use {World}
  open posix use {blocked, runs}

  -- SIGABRT kills the process, a handler of it leaves `abort`, or the streams cannot be closed.
  pub data Ends : Ended World → Type 0 where
    by_signal : (w : World) → Ends (killed w)
    by_jump : (w : World) → Ends (jumped w)
    by_error : (w : World) → Ends (failed w)

  last_kill-killed :
      (x : Delivery World) (n : ℕ)
      → Unmasked k blocked runs n x
      → (w' : World) × (delivered x (λ w1. delivered (k.kill_self w1) exited) ≡ killed w')
        × (runs w' ≡ n)
  last_kill-killed x n (was_pending w h) = (w, refl, h)
  last_kill-killed x n (open_now w b a h) =
      let (w', e, r) = posix.kill_default w b a in (w', rw e refl, r ∙ h)

  finish-killed :
      (sa : Action) (w : World)
      → sa.sa_mask sigabrt ≡ false
      → (w' : World) × (finish k sa w ≡ killed w') × (runs w' ≡ runs w)
  unfolding finish
  finish-killed sa w open_mask =
      let sa' = record sa { sa_handler = sig_dfl } in
      let w1 = k.set_action sa' (k.fcloseall w).1 in
      let default : (k.action w1).sa_handler ≡ sig_dfl =
        ap (λ (a : Action). a.sa_handler) (posix.set_action_action sa' (k.fcloseall w).1) in
      let (w', e, r) =
        last_kill-killed (k.set_mask sa.sa_mask w1) (runs w1)
          (posix.set_mask_default sa.sa_mask w1 open_mask default) in
      (w', e, r ∙ posix.set_action_runs sa' (k.fcloseall w).1 ∙ posix.fcloseall_runs w)

  delivered-Ends :
      (x : Delivery World) (next : World → Ended World)
      → ((w : World) → Ends (next w))
      → Ends (delivered x next)
  delivered-Ends (lives w) next h = h w
  delivered-Ends (dies w) next h = by_signal w
  delivered-Ends (jumps w) next h = by_jump w

  signal_once-Ends :
      (sa : Action) (w : World) → sa.sa_mask sigabrt ≡ false → Ends (signal_once k sa w)
  unfolding signal_once
  signal_once-Ends sa w open_mask =
      delivered-Ends (k.kill_self w) _
        (λ w1. let (w2, e, r) = finish-killed sa w1 open_mask in subst Ends (sym e) (by_signal w2))

  unblock-Ends : (sa : Action) (w : World) → Ends (unblock k sa w)
  unfolding unblock
  unblock-Ends sa w = elim (Bool-cases (sa.sa_mask sigabrt)) [
    | inl set ↦ rw set (
        delivered-Ends _ _ (λ w1.
          signal_once-Ends (record sa { sa_mask = update sa.sa_mask sigabrt false }) w1 refl))
    | inr unset ↦ rw unset (signal_once-Ends sa w unset)
  ]

  after_close-Ends : (sa : Action) (x : ℕ × World) → Ends (after_close k sa x)
  after_close-Ends sa (zero, w) = unblock-Ends sa w
  after_close-Ends sa (suc n, w) = by_error w

  reset-Ends : (sa : Action) (d : Disposition) (w : World) → Ends (reset k sa d w)
  unfolding reset close_streams
  reset-Ends sa sig_dfl w = after_close-Ends sa (k.fcloseall w)
  reset-Ends sa sig_ign w =
      let sa' = record sa { sa_handler = sig_dfl } in
      after_close-Ends sa' (k.fcloseall (k.set_action sa' w))
  reset-Ends sa catching w = unblock-Ends sa w

  -- `abort` does not return, nor comes to its last line: the process is killed by SIGABRT, whatever
  -- the action and the mask were, unless a handler jumps out or the streams cannot be closed.
  pub abort-Ends : (w : World) → Ends (abort k w)
  unfolding abort
  abort-Ends w = reset-Ends (k.action w) (k.action w).sa_handler w

  -- A process that catches SIGABRT but blocks it, with an action whose mask does not name it, is
  -- killed, and its handler does not run before.
  pub abort_skips_handler :
      (w : World)
      → blocked w ≡ true
      → (k.action w).sa_handler ≡ catching
      → (k.action w).sa_mask sigabrt ≡ false
      → (w' : World) × (abort k w ≡ killed w') × (runs w' ≡ runs w)
  unfolding abort reset close_streams unblock signal_once
  abort_skips_handler w blocks catches unset =
      let (w1, e, r) = posix.kill_blocked w blocks in
      let (w', q, r') = finish-killed (k.action w) w1 unset in
      let p : abort k w ≡ finish k (k.action w) w1 = rw (catches, unset, e) refl in
      (w', p ∙ q, r' ∙ r)
