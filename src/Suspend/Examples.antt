-- ===== src/Suspend/Examples.antt =====
-- simpleSuspend.c on a process to which SIGUSR2 and SIGINT come while it sleeps.
use mathlib.Core.List.{Memᴰ}
use linux_unix_system_progra.Prelude.{
  ℕ, zero, suc, ◌<◌, ◌≡◌, refl, subst, ◌⊎◌, ◌↔◌, List, [], ◌∷◌, Bool, true, false, ◌==◌, ◌||◌, not,
  ◌&&◌, if◌then◌else◌, arith,
}
use linux_unix_system_progra.Syscall.{Reply, ok, fail, eintr}
use linux_unix_system_progra.Suspend.Defs.{sigint, sigusr2, nsig, Signals, pending, report}
use linux_unix_system_progra.Suspend.Reports.{Law, Memᴰ-if, report-names}

record Process : Type 0 where
  mask : ℕ → Bool
  waiting : ℕ → Bool

abbrev is_member : (ℕ → Bool) → ℕ → Reply Bool
is_member s zero = fail 22
is_member s (suc i) = ok (s (suc i))

abbrev sent : ℕ → Bool
sent i = (i == sigusr2) || (i == sigint)

-- The numbers from `n - 1` down that `f` holds of.
unfoldable those : (ℕ → Bool) → ℕ → List ℕ
those f zero = []
those f (suc n) = let rest = those f n in if f n then n ∷ rest else rest

abbrev process : Signals
process = record {
  World = Process;
  Sigset = ℕ → Bool;
  sigemptyset = λ i. false;
  sigaddset = λ s n i. (i == n) || s i;
  sigismember = is_member;
  block = λ s w. (w.mask, record w { mask = λ i. w.mask i || s i });
  sigaction = λ i w. w;
  sleep = λ w. record w { waiting = sent };
  sigpending = λ w. (ok w.waiting, w);
  sigsuspend = λ s w. (
    those (λ i. w.waiting i && not (s i)) nsig,
    (fail eintr, record w { waiting = λ i. w.waiting i && s i }),
  );
}

those-member : (f : ℕ → Bool) (n i : ℕ) → i < n → f i ≡ true → Memᴰ i (those f n)
unfolding those
those-member f zero i lt h = absurd (omega arith)
those-member f (suc n) i lt h =
    let found = Memᴰ-if (f n) i n (those f n) in
    let rest = those-member f n i in
    let last : (i ≡ n) → f n ≡ true = λ e. subst (λ j. f j ≡ true) e h in
    ground (arith, found, rest, last)

abbrev pos_member : (s : ℕ → Bool) (i : ℕ) → 0 < i → is_member s i ≡ ok (s i)
pos_member s zero h = absurd (omega arith)
pos_member s (suc i) h = refl

not_member : (s : ℕ → Bool) (i : ℕ) → is_member s i ≡ ok false → s i ≡ false
not_member s zero h = absurd (ground (arith, h))
not_member s (suc i) h = ground (arith, h)

delivers :
    (s : ℕ → Bool) (w : Process) (i : ℕ)
    → i < nsig
    → w.waiting i ≡ true
    → is_member s i ≡ ok false
    → Memᴰ i (those (λ j. w.waiting j && not (s j)) nsig)
delivers s w i lt h free =
    let out = not_member s i free in
    those-member (λ j. w.waiting j && not (s j)) nsig i lt (ground (arith, h, out))

unfoldable law : Law process
law = record {
  waits = λ w. w.waiting;
  no_zero = λ s. (22, refl);
  sigpending_lem = λ w. (w.waiting, w, refl, λ i pos lt. (pos_member w.waiting i pos, λ h. h));
  sigsuspend_lem = delivers;
}

abbrev begin : Process
begin = record { mask = λ i. false; waiting = λ i. false }

abbrev slept : Process
slept = record { mask = λ i. false; waiting = sent }

report-names_example :
    Memᴰ (pending sigint) (report process (λ i. false) slept).1
    ↔ ((sigint < nsig) × ((sigint ≡ 0) ⊎ (sent sigint ≡ true)))
unfolding law
report-names_example = report-names process law (λ i. false) slept sigint
