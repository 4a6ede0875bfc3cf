-- ===== src/MultiThread/Examples.antt =====
-- Runs of webprogramming/multi_thread_server.c.
use linux_unix_system_progra.Prelude.{◌≡◌, refl, arith, false, some}
use linux_unix_system_progra.MultiThread.Defs.{
  absent, Main, creating, System, MainStep, by_main, start, here, next, set,
}
use linux_unix_system_progra.MultiThread.Invariant.{exclusive_slot}

-- The first client has been accepted.
abbrev one_client : System
one_client =
    record (set (record start { main = Main.accepting 0 }) 0
      (record { on = 0; cfd = some 4; closed = false; worker = absent })) { main = creating 0 }

exclusive_slot_example : (one_client.socks 0).worker ≡ absent
exclusive_slot_example =
    exclusive_slot
      (next (next here (by_main (ground arith) (MainStep.free 0 refl (omega arith) refl refl)))
        (by_main (ground arith) (MainStep.accept 0 4 refl refl)))
      0 refl
