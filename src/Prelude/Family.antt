-- ===== src/Prelude/Family.antt =====
-- Families `ℕ → A`, for tables indexed by a descriptor, a slot or a thread.
use Prim.Native.Nat.{ℕ}
use linux_unix_system_progra.Prelude.Tests.{◌==◌, if◌then◌else◌}

abbrev pub update {ℓ} : {A : Type ℓ} → (ℕ → A) → ℕ → A → ℕ → A
update f i a j = if i == j then a else f j
