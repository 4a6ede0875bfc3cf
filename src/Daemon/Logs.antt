-- ===== src/Daemon/Logs.antt =====
-- Daemon/daemon_1.c: the files that the daemon creates.
use linux_unix_system_progra.Prelude.{
  subst, ℕ, zero, suc, ◌+◌, ◌*◌, ◌≤◌, ◌<◌, ◌≡◌, inl, inr, refl, sym, ap, ◌∙◌, Bool, true, false,
  Bool-cases, List, [], ◌∷◌, ◌++◌, map, length, Option, none, some, ◌⊎◌, ltb, arith,
}
use linux_unix_system_progra.Syscall.{Reply, ok, fail}
use linux_unix_system_progra.Daemon.Defs.{
  Kernel, Ended, exited, killed, undefined, sleeping, buf_size, file_name, after_open, with_home,
  handler, after_sleep, loop, set_up, serve, after_fork, main,
}

-- A call that creates no file, and during which the alarm is not counted.
abbrev pub Keeps : {W : Type 0} → (W → List (List ℕ)) → (W → ℕ) → (W → W) → Type 0
Keeps {W} opened rung f = (w : W) → (opened (f w) ≡ opened w) × (rung (f w) ≡ rung w)

-- `opened` are the names that were opened, the last one first, `rung` is the number of alarms that came
-- in the loop, and `setting` the variable HOME, if it is set. The alarms are a minute apart; one may come late, but
-- before the next is due: `first` is the time at which the first one is due.
pub record Behaves (k : Kernel) (setting : Option (List ℕ)) (first : ℕ) : Type 0 where
  pub opened : k.World → List (List ℕ)
  pub rung : k.World → ℕ
  pub setting_is : (w : k.World) → k.getenv w ≡ setting
  pub open_ok :
      (name : List ℕ) (fd : ℕ) (w w' : k.World)
      → k.open_file name w ≡ (ok fd, w')
      → (opened w' ≡ name ∷ opened w) × (rung w' ≡ rung w)
  pub open_fail :
      (name : List ℕ) (e : ℕ) (w w' : k.World)
      → k.open_file name w ≡ (fail e, w')
      → (opened w' ≡ opened w) × (rung w' ≡ rung w)
  pub rings :
      (w w' : k.World)
      → k.sleep w ≡ (true, w')
      → (opened w' ≡ opened w)
        × (rung w' ≡ suc (rung w))
        × (first + 60 * rung w ≤ k.time w')
        × (k.time w' < first + 60 * suc (rung w))
  pub silent :
      (w w' : k.World) → k.sleep w ≡ (false, w') → (opened w' ≡ opened w) × (rung w' ≡ rung w)
  pub fork_keeps : Keeps opened rung (λ w. (k.fork w).1)
  pub setsid_keeps : Keeps opened rung k.setsid
  pub umask_keeps : (mask : ℕ) → Keeps opened rung (k.umask mask)
  pub chdir_keeps : (folder : Option (List ℕ)) → Keeps opened rung (k.chdir folder)
  pub setitimer_keeps : Keeps opened rung k.setitimer
  pub sigaction_keeps : Keeps opened rung k.sigaction
  pub close_keeps : (fd : ℕ) → Keeps opened rung (k.close fd)

-- Times that are taken minute by minute, the last one first.
pub data Minutes (first : ℕ) : List ℕ → Type 0 where
  none_yet : Minutes first []
  minute :
      {t : ℕ} {ts : List ℕ}
      → first + 60 * length ts ≤ t
      → t < first + 60 * suc (length ts)
      → Minutes first ts
      → Minutes first (t ∷ ts)

-- What `fork` answers to the parent.
abbrev pub IsParent : Reply ℕ → Type 0
IsParent (ok zero) = ⊥
IsParent (ok (suc pid)) = Unit
IsParent (fail e) = ⊥

-- The folder of the files; none is created if HOME is not set.
abbrev pub home_of : Option (List ℕ) → List ℕ
home_of none = []
home_of (some text) = text

module _ (k : Kernel) (decimal : ℕ → List ℕ) (setting : Option (List ℕ)) (first : ℕ)
    (b : Behaves k setting first) where
  open k use {World}
  open b use {opened, rung}

  abbrev home : List ℕ
  home = home_of setting

  -- One file for each of the alarms, but for `missing` of them, named after its time.
  abbrev pub Logged : ℕ → List (List ℕ) → World → Type 0
  Logged missing old w =
      (ts : List ℕ) × Minutes first ts
      × (opened w ≡ map (file_name k decimal home) ts ++ old)
      × (length ts + missing ≡ rung w)

  -- The last call was that of `open`, with the time at which it was made, and it failed.
  abbrev pub Refused : World → Type 0
  Refused w =
      (n : ℕ) × (w0 : World) × (k.open_file (file_name k decimal home (k.time w0)) w0 ≡ (fail n, w))

  -- HOME is not set, or the name with the present time does not fit.
  abbrev pub Unfit : World → Type 0
  Unfit w = (setting ≡ none) ⊎ (buf_size ≤ length (file_name k decimal home (k.time w)))

  abbrev pub Outcome : List (List ℕ) → Ended World → Type 0
  Outcome old (exited w) = Logged 1 old w × Refused w
  Outcome old (killed w) = (opened w ≡ old) × (k.alarm_due w ≡ true)
  Outcome old (undefined w) = Logged 1 old w × Unfit w
  Outcome old (sleeping w) = Logged 0 old w

  Logged-kept :
      {old : List (List ℕ)} (n : ℕ) (w w' : World)
      → (opened w' ≡ opened w) × (rung w' ≡ rung w)
      → Logged n old w
      → Logged n old w'
  Logged-kept n w w' (o, r) (ts, m, e, l) = (ts, m, o ∙ e, l ∙ sym r)

  -- The handler's call of `open`, at the time of an alarm.
  open-Outcome :
      (old : List (List ℕ)) (rest : World → Ended World) (ts : List ℕ) (w w1 : World) (r : Reply ℕ)
      → k.open_file (file_name k decimal home (k.time w)) w ≡ (r, w1)
      → Minutes first ts
      → first + 60 * length ts ≤ k.time w
      → k.time w < first + 60 * suc (length ts)
      → opened w ≡ map (file_name k decimal home) ts ++ old
      → suc (length ts) ≡ rung w
      → ((v : World) → Logged 0 old v → Outcome old (rest v))
      → Outcome old (after_open k decimal rest (r, w1))
  open-Outcome old rest ts w w1 (ok fd) q m ge lt e l next =
      let name = file_name k decimal home (k.time w) in
      let (o, r) = b.open_ok name fd w w1 q in
      let now : Logged 0 old w1 =
        (k.time w ∷ ts, minute ge lt m, o ∙ ap (λ xs. name ∷ xs) e, omega (arith, l, r)) in
      next (k.close fd w1) (Logged-kept 0 w1 (k.close fd w1) (b.close_keeps fd w1) now)
  open-Outcome old rest ts w w1 (fail n) q m ge lt e l next =
      let (o, r) = b.open_fail (file_name k decimal home (k.time w)) n w w1 q in
      ((ts, m, o ∙ e, omega (arith, l, r)), (n, w, q))

  home-Outcome :
      (old : List (List ℕ)) (rest : World → Ended World) (ts : List ℕ) (w : World)
      (v : Option (List ℕ))
      → setting ≡ v
      → Minutes first ts
      → first + 60 * length ts ≤ k.time w
      → k.time w < first + 60 * suc (length ts)
      → opened w ≡ map (file_name k decimal home) ts ++ old
      → suc (length ts) ≡ rung w
      → ((v : World) → Logged 0 old v → Outcome old (rest v))
      → Outcome old (with_home k decimal rest v w)
  home-Outcome old rest ts w none s m ge lt e l next = ((ts, m, e, omega (arith, l)), inl s)
  home-Outcome old rest ts w (some text) s m ge lt e l next =
      let same : text ≡ home = rw s refl in
      let name = file_name k decimal home (k.time w) in
      rw same (elim (Bool-cases (ltb (length name) buf_size)) [
        | inl short ↦ rw short (
            open-Outcome old rest ts w (k.open_file name w).1 (k.open_file name w).0 refl m ge lt e
              l next)
        | inr long ↦ rw long ((ts, m, e, omega (arith, l)), inr (ground (arith, long)))
      ])

  handler-Outcome :
      (old : List (List ℕ)) (rest : World → Ended World) (w w' : World)
      → Logged 0 old w
      → k.sleep w ≡ (true, w')
      → ((v : World) → Logged 0 old v → Outcome old (rest v))
      → Outcome old (handler k decimal rest w')
  unfolding handler
  handler-Outcome old rest w w' (ts, m, e, l) slept next =
      let (o, r, ge, lt) = b.rings w w' slept in
      let len : rung w ≡ length ts = omega (arith, l) in
      home-Outcome old rest ts w' (k.getenv w') (sym (b.setting_is w')) m (omega (arith, ge, len))
        (omega (arith, lt, len)) (o ∙ e) (omega (arith, l, r)) next

  sleep-Outcome :
      (old : List (List ℕ)) (rest : World → Ended World) (w : World) (rang : Bool) (w' : World)
      → Logged 0 old w
      → k.sleep w ≡ (rang, w')
      → ((v : World) → Logged 0 old v → Outcome old (rest v))
      → Outcome old (after_sleep k decimal rest (rang, w'))
  sleep-Outcome old rest w false w' h e next = next w' (Logged-kept 0 w w' (b.silent w w' e) h)
  sleep-Outcome old rest w true w' h e next = handler-Outcome old rest w w' h e next

  loop-Outcome :
      (old : List (List ℕ)) (fuel : ℕ) (w : World)
      → Logged 0 old w
      → Outcome old (loop k decimal fuel w)
  unfolding loop
  loop-Outcome old zero w h = h
  loop-Outcome old (suc fuel) w h =
      sleep-Outcome old (loop k decimal fuel) w (k.sleep w).0 (k.sleep w).1 h refl
        (loop-Outcome old fuel)

  then-Keeps :
      {f g : World → World}
      → Keeps opened rung f
      → Keeps opened rung g
      → Keeps opened rung (λ w. g (f w))
  then-Keeps {f} {g} hf hg w = ((hg (f w)).0 ∙ (hf w).0, (hg (f w)).1 ∙ (hf w).1)

  set_up-Keeps : Keeps opened rung (set_up k decimal)
  unfolding set_up
  set_up-Keeps w =
      let w1 = k.umask 0 (k.setsid w) in
      let h = then-Keeps b.setsid_keeps (b.umask_keeps 0) w in
      let h' = then-Keeps (b.chdir_keeps (k.getenv w1)) b.setitimer_keeps w1 in
      (h'.0 ∙ h.0, h'.1 ∙ h.1)

  serve-Outcome : (fuel : ℕ) (w : World) → rung w ≡ 0 → Outcome (opened w) (serve k decimal fuel w)
  unfolding serve
  serve-Outcome fuel w none_rung =
      let w1 = set_up k decimal w in
      let (o, r) = set_up-Keeps w in
      let begun : Logged 0 (opened w) w1 = ([], none_yet, o, omega (arith, none_rung, r)) in
      elim (Bool-cases (k.alarm_due w1)) [
        | inl due ↦ rw due (o, due)
        | inr not_due ↦ rw not_due (
            loop-Outcome (opened w) fuel (k.sigaction w1)
              (Logged-kept 0 w1 (k.sigaction w1) (b.sigaction_keeps w1) begun))
      ]

  fork-Outcome :
      (fuel : ℕ) (w : World) (r : Reply ℕ)
      → ¬ IsParent r
      → rung w ≡ 0
      → Outcome (opened w) (after_fork k decimal fuel (r, w))
  fork-Outcome fuel w (ok zero) h none_rung = serve-Outcome fuel w none_rung
  fork-Outcome fuel w (ok (suc pid)) h none_rung = absurd (h tt)
  fork-Outcome fuel w (fail e) h none_rung = serve-Outcome fuel w none_rung

  -- Where `fork` does not answer to the parent, the process sleeps in its loop, as long as it has fuel,
  -- with one file opened for each minute in which an alarm came, and named after its time; or it has
  -- ended by `exit` because the file of the last alarm could not be opened; or it was killed by an
  -- alarm that came before the call of sigaction; or, at the last alarm, HOME is not set or the name
  -- does not fit into its buffer, so that what happens is undefined.
  pub main-Outcome :
      (fuel : ℕ) (w : World)
      → ¬ IsParent (k.fork w).0
      → rung w ≡ 0
      → Outcome (opened w) (main k decimal fuel w)
  unfolding main
  main-Outcome fuel w child none_rung =
      let (o, r) = b.fork_keeps w in
      subst (λ old. Outcome old (main k decimal fuel w)) o
        (fork-Outcome fuel (k.fork w).1 (k.fork w).0 child (r ∙ none_rung))
