-- ===== src/ForkServer/Examples.antt =====
-- Runs of webprogramming/multi_processor_server.c.
use linux_unix_system_progra.Prelude.{
  ℕ, suc, ◌≡◌, refl, List, [], ◌∷◌, length, arith, subst, true, ◌+◌,
}
use linux_unix_system_progra.Syscall.{Reply, ok, fail, returns, unfinished}
use linux_unix_system_progra.HSocket.Wire.{Wire, wire}
use linux_unix_system_progra.ForkServer.Defs.{Processes, recycle, serve, main}
use linux_unix_system_progra.ForkServer.Descriptor.{renamed, same_processes, main-renamed}
use linux_unix_system_progra.ForkServer.Endless.{serve-unfinished}
use linux_unix_system_progra.ForkServer.Reaping.{Children, recycle-none_left}

-- The script has an entry for each child that has ended. Every process goes on as the child.
abbrev wait_script : List ℕ → Wire → Reply ℕ × Wire
wait_script [] w = (ok 0, w)
wait_script (c ∷ s) w = (ok 12, record w { script = s })

abbrev forking : Processes wire
forking = record {
  fork = λ w. (ok 0, w);
  waitpid = λ w. wait_script w.script w;
  response = 82 ∷ [];
}

abbrev WaitLaw : Wire → Reply ℕ → Wire → Type 0
WaitLaw w (ok ℕ.zero) w' = length w'.script ≡ 0
WaitLaw w (ok (suc n)) w' = length w.script ≡ suc (length w'.script)
WaitLaw w (fail e) w' = length w'.script ≡ 0

wait_script-lem :
    (s : List ℕ) (w w' : Wire) (r : Reply ℕ)
    → w.script ≡ s
    → wait_script s w ≡ (r, w')
    → WaitLaw w r w'
wait_script-lem [] w w' r e q = subst (λ y. WaitLaw w y.0 y.1) q (rw e refl)
wait_script-lem (c ∷ s) w w' r e q = subst (λ y. WaitLaw w y.0 y.1) q (rw e refl)

abbrev children : Children wire forking
children = record {
  ended = λ w. length w.script;
  waitpid_one = λ pid w w' q. wait_script-lem w.script w w' (ok (suc pid)) refl q;
  waitpid_none = λ w w' q. wait_script-lem w.script w w' (ok 0) refl q;
  waitpid_fails = λ e w w' q. wait_script-lem w.script w w' (fail e) refl q;
}

-- Three children have ended; a client sends two bytes.
abbrev three_ended : Wire
three_ended = record { coming = 1 ∷ 2 ∷ []; gone = []; script = 7 ∷ 8 ∷ 9 ∷ []; opened = true }

recycle-none_left_example :
    (v : Wire) × (recycle wire forking 4 three_ended ≡ returns 0 v) × (length v.script ≡ 0)
recycle-none_left_example = recycle-none_left wire forking children 4 three_ended (omega arith)

main-renamed_example :
    main
      (renamed (λ fd. fd + 5) wire)
      (same_processes wire forking (λ fd. fd + 5))
      6
      8888
      three_ended
    ≡ main wire forking 6 8888 three_ended
main-renamed_example = main-renamed wire forking (λ fd. fd + 5) 6 8888 three_ended

serve-unfinished_example : serve wire forking 6 3 three_ended ≡ unfinished
serve-unfinished_example = serve-unfinished wire forking 6 3 three_ended (λ w. (0, w, refl))
