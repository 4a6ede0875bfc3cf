-- ===== src/ForkServer/Reaping.antt =====
-- webprogramming/multi_processor_server.c: the handler of SIGCHLD.
use linux_unix_system_progra.Prelude.{ℕ, zero, suc, ◌<◌, ◌≡◌, refl, arith}
use linux_unix_system_progra.Syscall.{Reply, ok, fail, returns}
use linux_unix_system_progra.HSocket.Kernel.{Kernel}
use linux_unix_system_progra.ForkServer.Defs.{Processes, after_waitpid, recycle}

-- waitpid(-1, NULL, WNOHANG) removes a child that has ended and returns its number, which is not 0;
-- it returns 0 or fails when there is none.
pub record Children (k : Kernel) (p : Processes k) : Type 0 where
  pub ended : k.World → ℕ
  pub waitpid_one :
      (pid : ℕ) (w w' : k.World) → p.waitpid w ≡ (ok (suc pid), w') → ended w ≡ suc (ended w')
  pub waitpid_none : (w w' : k.World) → p.waitpid w ≡ (ok 0, w') → ended w' ≡ 0
  pub waitpid_fails : (e : ℕ) (w w' : k.World) → p.waitpid w ≡ (fail e, w') → ended w' ≡ 0

module _ (k : Kernel) (p : Processes k) (ch : Children k p) where
  open k use {World}
  open ch use {ended}

  after_waitpid-none_left :
      (fuel : ℕ) (w : World)
      → ((w' : World)
          → ended w' < fuel
          → (v : World) × (recycle k p fuel w' ≡ returns 0 v) × (ended v ≡ 0))
      → ended w < suc fuel
      → (x : Reply ℕ × World) → p.waitpid w ≡ x
      → (v : World) × (after_waitpid k p (recycle k p fuel) x ≡ returns 0 v) × (ended v ≡ 0)
  unfolding after_waitpid
  after_waitpid-none_left fuel w rest enough (ok zero, w') q = (w', refl, ch.waitpid_none w w' q)
  after_waitpid-none_left fuel w rest enough (ok (suc pid), w') q =
      rest w' (omega (arith, ch.waitpid_one pid w w' q))
  after_waitpid-none_left fuel w rest enough (fail e, w') q = (w', refl, ch.waitpid_fails e w w' q)

  -- With more fuel than there are ended children `recycle` returns, and none is left.
  pub recycle-none_left :
      (fuel : ℕ) (w : World)
      → ended w < fuel
      → (v : World) × (recycle k p fuel w ≡ returns 0 v) × (ended v ≡ 0)
  unfolding recycle
  recycle-none_left zero w enough = ground arith
  recycle-none_left (suc fuel) w enough =
      after_waitpid-none_left fuel w (λ w' h. recycle-none_left fuel w' h) enough (p.waitpid w) refl
