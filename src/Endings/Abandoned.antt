-- ===== src/Endings/Abandoned.antt =====
-- t_pthread_create.c, t_pthread_create_2.c, t_pthread_detach.c and t_pthread_attr.c: whether the thread
-- gets to run.
use linux_unix_system_progra.Prelude.{◌≡◌, ◌≢◌, ◌↔◌, refl, subst, true, arith}
use linux_unix_system_progra.Endings.Defs.{
  Program, create, create_2, detach, attr, Thread, unborn, starting, Main, attr_init,
  attr_setdetachstate, creating, attr_destroy, detaching, printing, sleeping_main, exiting, gone,
  returned, failed, is_over, System, Step, create_thread, go_on, run, wake, error, Reach, here,
  next,
}

-- The process has ended, and its thread has not begun.
abbrev pub Abandoned : Program → Type 0
Abandoned p = (s : System) × Reach p s × (is_over s.main s.thread ≡ true) × (s.thread ≡ starting)

-- Where `main` of t_pthread_create_2.c can stand.
abbrev AtMain : Main → Thread → Type 0
AtMain creating x = x ≡ unborn
AtMain printing x = x ≢ unborn
AtMain exiting x = x ≢ unborn
AtMain gone x = x ≢ unborn
AtMain attr_init x = ⊥
AtMain attr_setdetachstate x = ⊥
AtMain attr_destroy x = ⊥
AtMain detaching x = ⊥
AtMain sleeping_main x = ⊥
AtMain returned x = ⊥
AtMain failed x = ⊥

Step-AtMain : (s t : System) → Step create_2 s t → AtMain s.main s.thread → AtMain t.main t.thread
Step-AtMain s t (create_thread a e) h = ground arith
Step-AtMain s t (go_on a b e) h = ground arith
Step-AtMain s t (run a b e) h = ground arith
Step-AtMain s t (wake a b e) h = ground arith
Step-AtMain s t (error a b e) h = ground arith

Reach-AtMain : {s : System} → Reach create_2 s → AtMain s.main s.thread
Reach-AtMain here = refl
Reach-AtMain (next {s} {t} r m) = Step-AtMain s t m (Reach-AtMain r)

waits : (s : System) → Reach create_2 s → is_over s.main s.thread ≡ true → s.thread ≡ starting → ⊥
waits s r over e = ground (arith, Reach-AtMain r)

abandons : (p : Program) → p ≢ create_2 → Abandoned p
abandons create h = (
  _,
  next (next (next here (create_thread refl refl)) (go_on refl (λ e. ground (arith, e)) refl))
      (go_on refl (λ e. ground (arith, e)) refl),
  refl,
  refl,
)
abandons create_2 h = absurd (h refl)
abandons detach h = (
  _,
  next (next (next here (create_thread refl refl)) (go_on refl (λ e. ground (arith, e)) refl))
      (go_on refl (λ e. ground (arith, e)) refl),
  refl,
  refl,
)
abandons attr h = (
  _,
  next
      (next
        (next (next here (go_on refl (λ e. ground (arith, e)) refl))
          (go_on refl (λ e. ground (arith, e)) refl))
        (create_thread refl refl))
      (go_on refl (λ e. ground (arith, e)) refl),
  refl,
  refl,
)

-- The process can end before its thread has begun in exactly those of the programs whose `main`
-- returns: in t_pthread_create_2.c, which calls pthread_exit, it cannot.
pub abandons_iff : (p : Program) → Abandoned p ↔ (p ≢ create_2)
abandons_iff p = (never p, abandons p)
  where
    never : (p : Program) → Abandoned p → p ≢ create_2
    never p (s, r, over, e) q = waits s (subst (λ p. Reach p s) q r) over e
