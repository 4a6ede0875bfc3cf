-- ===== src/Daemon/Examples.antt =====
-- A run of Daemon/daemon_1.c: every call of sleep is ended by an alarm, and the folder takes two files.
use linux_unix_system_progra.Prelude.{
  ℕ, suc, ◌+◌, ◌*◌, ◌≤◌, ◌<◌, ◌≡◌, refl, true, false, List, [], ◌∷◌, some, ltb, arith,
  if◌then◌else◌,
}
use linux_unix_system_progra.Syscall.{Reply, ok, fail}
use linux_unix_system_progra.Daemon.Defs.{
  Kernel, exited, file_name, handler, loop, set_up, serve, main,
}
use linux_unix_system_progra.Daemon.Logs.{Behaves, Outcome, main-Outcome}

record Host : Type 0 where
  pub opened : List (List ℕ)
  pub rung : ℕ

abbrev take_file : List ℕ → Host → Reply ℕ × Host
take_file name w =
    if ltb w.rung 3 then (ok 3, record w { opened = name ∷ w.opened }) else (fail 28, w)

abbrev home : List ℕ
home = b'/' ∷ b'h' ∷ []

abbrev host : Kernel
host = record {
  World = Host;
  fork = λ w. (ok 0, w);
  setsid = λ w. w;
  umask = λ mask w. w;
  chdir = λ folder w. w;
  setitimer = λ w. w;
  alarm_due = λ w. false;
  sigaction = λ w. w;
  sleep = λ w. (true, record w { rung = suc w.rung });
  getenv = λ w. some home;
  time = λ w. 60 * w.rung;
  open_file = take_file;
  close = λ fd w. w;
}

take_file-ok :
    (name : List ℕ) (fd : ℕ) (w w' : Host)
    → take_file name w ≡ (ok fd, w')
    → (w'.opened ≡ name ∷ w.opened) × (w'.rung ≡ w.rung)
take_file-ok name fd w w' e = ground arith

take_file-fail :
    (name : List ℕ) (n : ℕ) (w w' : Host)
    → take_file name w ≡ (fail n, w')
    → (w'.opened ≡ w.opened) × (w'.rung ≡ w.rung)
take_file-fail name n w w' e = ground arith

rings_lem :
    (w w' : Host)
    → host.sleep w ≡ (true, w')
    → (w'.opened ≡ w.opened)
      × (w'.rung ≡ suc w.rung)
      × (60 + 60 * w.rung ≤ 60 * w'.rung)
      × (60 * w'.rung < 60 + 60 * suc w.rung)
rings_lem w w' e = ground arith

silent_lem :
    (w w' : Host) → host.sleep w ≡ (false, w') → (w'.opened ≡ w.opened) × (w'.rung ≡ w.rung)
silent_lem w w' e = ground arith

abbrev behaves : Behaves host (some home) 60
behaves = record {
  opened = λ w. w.opened;
  rung = λ w. w.rung;
  setting_is = λ w. refl;
  open_ok = take_file-ok;
  open_fail = take_file-fail;
  rings = rings_lem;
  silent = silent_lem;
  fork_keeps = λ w. (refl, refl);
  setsid_keeps = λ w. (refl, refl);
  umask_keeps = λ mask w. (refl, refl);
  chdir_keeps = λ folder w. (refl, refl);
  setitimer_keeps = λ w. (refl, refl);
  sigaction_keeps = λ w. (refl, refl);
  close_keeps = λ fd w. (refl, refl);
}

abbrev begin : Host
begin = record { opened = []; rung = 0 }

-- Each number as one byte.
abbrev byte : ℕ → List ℕ
byte t = t ∷ []

third_refused :
    main host byte 9 begin
    ≡ exited (record {
      opened = file_name host byte home 120 ∷ file_name host byte home 60 ∷ [];
      rung = 3;
    })
unfolding main serve loop handler set_up file_name
third_refused = refl

main-Outcome_example : Outcome host byte (some home) 60 behaves [] (main host byte 9 begin)
main-Outcome_example = main-Outcome host byte (some home) 60 behaves 9 begin (λ h. h) refl
