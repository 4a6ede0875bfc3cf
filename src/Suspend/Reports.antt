-- ===== src/Suspend/Reports.antt =====
-- simpleSuspend.c: what the reports of pending signals name, and which signals are caught.
use mathlib.Core.List.{Memᴰ}
use mathlib.Core.List.Memᴰ
use mathlib.Core.Logic.{⊎_elim}
use linux_unix_system_progra.Prelude.{
  ℕ, zero, suc, ◌+◌, ◌≤◌, ◌<◌, ◌≡◌, refl, ◌⊎◌, inl, inr, ◌↔◌, List, [], ◌∷◌, ◌++◌, Bool, true,
  false, ◌==◌, ◌||◌, if◌then◌else◌, arith, ap, sym, subst,
}
use linux_unix_system_progra.Syscall.{Reply, ok, fail, eintr}
use linux_unix_system_progra.Suspend.Defs.{
  sigint, sigusr1, sigusr2, nsig, Signals, Line, pending, caught, pid, handler, handled, holds,
  listing, report, second_report, after_suspend, set_up, main, Ended, sigpending_error,
  after_sigsuspend, sigsuspend_error,
}

pub Memᴰ-if :
    {A : Type 0} (b : Bool) (a x : A) (xs : List A)
    → Memᴰ a (if b then x ∷ xs else xs) ↔ (((b ≡ true) × (a ≡ x)) ⊎ Memᴰ a xs)
Memᴰ-if true a x xs = (
  λ m. ⊎_elim (λ e. inl (refl, e)) inr (Memᴰ.cases_cons m),
  ⊎_elim (λ h. Memᴰ.head h.1) Memᴰ.tail,
)
Memᴰ-if false a x xs = (inr, ⊎_elim (λ h. ground (arith, h)) (λ m. m))

-- The number of a `pending` line.
abbrev number : Line → ℕ
number (pending i) = i
number pid = 0
number (caught i) = 0
number sigpending_error = 0
number sigsuspend_error = 0
number after_sigsuspend = 0

pending_lem : (i j : ℕ) → pending i ≡ pending j ↔ (i ≡ j)
pending_lem i j = (ap number, ap pending)

-- The signals that the program blocks and catches.
abbrev pub chosen : ℕ → Bool
chosen i = (i == sigusr1) || (i == sigusr2) || (i == sigint)

handler-caught : (i : ℕ) → chosen i ≡ true → handler i ≡ caught i ∷ []
handler-caught i h = ground (arith, h)

handled-caught :
    (i : ℕ) (signals : List ℕ)
    → chosen i ≡ true
    → Memᴰ i signals
    → Memᴰ (caught i) (handled signals)
handled-caught i [] h m = absurd (Memᴰ.not-nil m)
handled-caught i (x ∷ rest) h (Memᴰ.head e) = Memᴰ.append_left (handled rest) (
    subst (λ x. Memᴰ (caught i) (handler x)) e
      (subst (Memᴰ (caught i)) (sym (handler-caught i h)) (Memᴰ.head refl)))
handled-caught i (x ∷ rest) h (Memᴰ.tail m) =
    Memᴰ.append_right (handler x) (handled-caught i rest h m)

-- What the program assumes of the calls on signals: `waits` is the set of pending signals. The sets
-- of libc have no signal 0. A blocked signal stays pending, and on Linux sigsuspend
-- lets every signal in that is pending and not in its mask.
pub record Law (k : Signals) : Type 0 where
  pub waits : k.World → ℕ → Bool
  pub no_zero : (s : k.Sigset) → (e : ℕ) × (k.sigismember s 0 ≡ fail e)
  pub sigpending_lem :
      (w : k.World)
      → (s : k.Sigset) × (w' : k.World) × (k.sigpending w ≡ (ok s, w'))
        × ((i : ℕ)
            → 0 < i
            → i < nsig
            → (k.sigismember s i ≡ ok (waits w i)) × (waits w i ≡ true → waits w' i ≡ true))
  pub sigsuspend_lem :
      (s : k.Sigset) (w : k.World) (i : ℕ)
      → i < nsig
      → waits w i ≡ true
      → k.sigismember s i ≡ ok false
      → Memᴰ i (k.sigsuspend s w).0

module _ (k : Signals) where
  listing-names :
      (s : k.Sigset) (i n j : ℕ)
      → Memᴰ (pending j) (listing k s i n)
        ↔ ((i ≤ j) × (j < i + n) × (holds (k.sigismember s j) ≡ true))
  unfolding listing
  listing-names s i zero j = (λ m. absurd (Memᴰ.not-nil m), λ h. absurd (omega (arith, h.0, h.1)))
  listing-names s i (suc n) j =
      let found =
        Memᴰ-if (holds (k.sigismember s i)) (pending j) (pending i) (listing k s (i + 1) n) in
      let rest = listing-names s (i + 1) n j in ground (arith, found, rest, pending_lem j i)

  if_lines :
      (b : Bool) (x : Line) (e f : Ended k.World)
      → Memᴰ x e.lines
      → Memᴰ x f.lines
      → Memᴰ x (if b then e else f).lines
  if_lines true x e f m n = m
  if_lines false x e f m n = n

  after_suspend-handled :
      (s : k.Sigset) (x : Line) (r : List ℕ × (Reply {0} Unit × k.World))
      → Memᴰ x (handled r.0)
      → Memᴰ x (after_suspend k s r).lines
  unfolding after_suspend
  after_suspend-handled s x (signals, (ok u, w)) m = Memᴰ.append_left (second_report k s w).lines m
  after_suspend-handled s x (signals, (fail n, w)) m =
      if_lines (n == eintr) x _ _ (Memᴰ.append_left (second_report k s w).lines m)
        (Memᴰ.append_left (sigsuspend_error ∷ []) m)

  module _ (law : Law k) where
    open law use {waits}

    -- A report names exactly the pending signals, and a signal 0.
    pub report-names :
        (g : k.Sigset) (w : k.World) (i : ℕ)
        → Memᴰ (pending i) (report k g w).1 ↔ ((i < nsig) × ((i ≡ 0) ⊎ (waits w i ≡ true)))
    report-names g w i =
        let asked = law.sigpending_lem w in
        let none = law.no_zero asked.0 in
        let listed = listing-names asked.0 0 nsig i in
        rw (asked.2) (ground (arith, listed, none.1, asked.3 i))

    after-delivered :
        (g s : k.Sigset) (w : k.World) (i : ℕ)
        → chosen i ≡ true
        → k.sigismember s i ≡ ok false
        → waits w i ≡ true
        → Memᴰ (caught i) (after_suspend k g (k.sigsuspend s w)).lines
    after-delivered g s w i c free h =
        let r = k.sigsuspend s w in
        after_suspend-handled g (caught i) r
          (handled-caught i r.0 c (law.sigsuspend_lem s w i (ground (arith, c)) h free))

    -- A report leaves what is pending pending.
    report-stays :
        (g : k.Sigset) (w : k.World) (i : ℕ)
        → 0 < i
        → i < nsig
        → waits w i ≡ true
        → waits (report k g w).2 i ≡ true
    report-stays g w i pos lt h =
        let asked = law.sigpending_lem w in rw (asked.2) ((asked.3 i pos lt).1 h)

    -- A signal of the three that was not blocked before, and is pending after the sleep, is reported
    -- as pending, and then as caught.
    pub caught_all :
        (g : k.Sigset) (w : k.World) (i : ℕ)
        → chosen i ≡ true
        → k.sigismember (set_up k w).0 i ≡ ok false
        → waits (set_up k w).1 i ≡ true
        → (before after : List Line) × ((main k g w).lines ≡ before ++ after)
          × Memᴰ (pending i) before
          × Memᴰ (caught i) after
    unfolding main
    caught_all g w i c free h =
        let b = set_up k w in
        let r = report k g b.1 in
        (
          pid ∷ r.1,
          (after_suspend k r.0 (k.sigsuspend b.0 r.2)).lines,
          refl,
          Memᴰ.tail ((report-names g b.1 i).1 (ground (arith, c), inr h)),
          after-delivered r.0 b.0 r.2 i c free
              (report-stays g b.1 i (ground (arith, c)) (ground (arith, c)) h),
        )
