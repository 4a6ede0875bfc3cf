-- ===== src/Abort/Examples.antt =====
-- Runs of abort.c on a small process.
use linux_unix_system_progra.Prelude.{ℕ, suc, ◌≡◌, refl, Bool, true, false, arith}
use linux_unix_system_progra.Abort.Defs.{
  sigabrt, Disposition, sig_dfl, sig_ign, catching, Action, Delivery, lives, dies, Kernel, killed,
  abort, main,
}
use linux_unix_system_progra.Abort.Ending.{
  Unmasked, was_pending, open_now, Posix, Ends, abort-Ends, abort_skips_handler,
}

-- `runs` counts the runs of the handler, which returns.
record Process : Type 0 where
  act : Action
  masked : Bool
  pending : Bool
  runs : ℕ

abbrev raised : Bool → Disposition → Process → Delivery Process
raised true d p = lives (record p { pending = true })
raised false sig_dfl p = dies p
raised false sig_ign p = lives p
raised false catching p = lives (record p { runs = suc p.runs })

abbrev unmasked : (masked pending : Bool) → Disposition → Process → Delivery Process
unmasked true pending d p = lives p
unmasked false false d p = lives p
unmasked false true sig_dfl p = dies p
unmasked false true sig_ign p = lives (record p { pending = false })
unmasked false true catching p = lives (record p { pending = false; runs = suc p.runs })

abbrev process : Kernel
process = record {
  World = Process;
  action = λ p. p.act;
  set_action = λ a p. record p { act = a };
  set_mask =
      λ m p. unmasked (m sigabrt) p.pending p.act.sa_handler (record p { masked = m sigabrt });
  kill_self = λ p. raised p.masked p.act.sa_handler p;
  fcloseall = λ p. (0, p);
}

unmasked_default :
    (m pending : Bool) (d : Disposition) (p : Process)
    → m ≡ false
    → p.masked ≡ false
    → d ≡ sig_dfl
    → p.act.sa_handler ≡ sig_dfl
    → Unmasked process
        (λ (q : Process). q.masked)
        (λ (q : Process). q.runs)
        p.runs
        (unmasked m pending d p)
unmasked_default true pending d p e b f a = ground arith
unmasked_default false false d p e b f a = open_now p b a refl
unmasked_default false true sig_dfl p e b f a = was_pending p refl
unmasked_default false true sig_ign p e b f a = ground arith
unmasked_default false true catching p e b f a = ground arith

raised_default :
    (masked : Bool) (d : Disposition) (p : Process)
    → masked ≡ false
    → d ≡ sig_dfl
    → (q : Process) × (raised masked d p ≡ dies q) × (q.runs ≡ p.runs)
raised_default masked d p e f = (p, rw (e, f) refl, refl)

raised_blocked :
    (masked : Bool) (d : Disposition) (p : Process)
    → masked ≡ true
    → (q : Process) × (raised masked d p ≡ lives q) × (q.runs ≡ p.runs)
raised_blocked masked d p e = (record p { pending = true }, rw e refl, refl)

abbrev posix : Posix process
posix = record {
  blocked = λ p. p.masked;
  runs = λ p. p.runs;
  set_action_runs = λ a p. refl;
  fcloseall_runs = λ p. refl;
  set_action_action = λ a p. refl;
  set_mask_default = λ m p e a.
      unmasked_default (m sigabrt) p.pending p.act.sa_handler (record p { masked = m sigabrt }) e e
        a a;
  kill_default = λ p b a. raised_default p.masked p.act.sa_handler p b a;
  kill_blocked = λ p b. raised_blocked p.masked p.act.sa_handler p b;
}

abbrev catches : Action
catches = record { sa_handler = catching; sa_mask = λ s. false }

abbrev blocking : Process
blocking = record { act = catches; masked = true; pending = false; runs = 0 }

abort-Ends_example : Ends process posix (abort process blocking)
abort-Ends_example = abort-Ends process posix blocking

abort_skips_handler_example : (w' : Process) × (abort process blocking ≡ killed w') × (w'.runs ≡ 0)
abort_skips_handler_example = abort_skips_handler process posix blocking refl refl refl

-- The program itself: the handler runs once.
main_runs :
    main process (record blocking { masked = false })
    ≡ killed (record {
      act = record catches { sa_handler = sig_dfl };
      masked = false;
      pending = false;
      runs = 1;
    })
unfolding main
main_runs = refl
