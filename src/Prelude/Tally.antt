-- ===== src/Prelude/Tally.antt =====
-- Sums of weights over the first `n` entries of a table.
use Prim.Native.Nat.{ℕ, zero, suc, ◌+◌, ◌*◌, ◌≤◌, ◌<◌}
use mathlib.Core.Path.{◌≡◌, refl}
use native.Mathlib.Decide.{dec_lt}
use native.Mathlib.Omega.{arith}
use linux_unix_system_progra.Prelude.Family.{update}

module _ {ℓ} {A : Type ℓ} (weight : A → ℕ) where
  pub tally : ℕ → (ℕ → A) → ℕ
  tally zero f = 0
  tally (suc n) f = weight (f n) + tally n f

  pub tally-update_out :
      (n : ℕ) (f : ℕ → A) (i : ℕ) (a : A) → n ≤ i → tally n (update f i a) ≡ tally n f
  unfolding tally
  tally-update_out zero f i a out = refl
  tally-update_out (suc n) f i a out = ground (arith, tally-update_out n f i a)

  -- One entry changes.
  pub tally-update :
      (n : ℕ) (f : ℕ → A) (i : ℕ) (a : A)
      → i < n
      → tally n (update f i a) + weight (f i) ≡ tally n f + weight a
  unfolding tally
  tally-update zero f i a lt = absurd (omega arith)
  tally-update (suc n) f i a lt = elim (dec_lt i n) [
    | yes below ↦ ground (arith, tally-update n f i a below)
    | no last ↦ ground (arith, tally-update_out n f i a)
  ]

  pub tally-ge : (n : ℕ) (f : ℕ → A) (i : ℕ) → i < n → weight (f i) ≤ tally n f
  unfolding tally
  tally-ge zero f i lt = absurd (omega arith)
  tally-ge (suc n) f i lt = elim (dec_lt i n) [
    | yes below ↦ ground (arith, tally-ge n f i below)
    | no last ↦ ground arith
  ]

  pub tally-pos : (n : ℕ) (f : ℕ → A) → 0 < tally n f → (i : ℕ) × (i < n) × (0 < weight (f i))
  unfolding tally
  tally-pos zero f pos = absurd (omega arith)
  tally-pos (suc n) f pos = elim (dec_lt 0 (weight (f n))) [
    | yes here ↦ (n, omega arith, here)
    | no not_here ↦ let (i, lt, h) = tally-pos n f (omega arith) in (i, omega arith, h)
  ]

  pub tally-const : (n c : ℕ) (f : ℕ → A) → ((i : ℕ) → i < n → weight (f i) ≡ c) → tally n f ≡ n * c
  unfolding tally
  tally-const zero c f h = omega arith
  tally-const (suc n) c f h = grind (arith, h n, tally-const n c f (λ i lt. h i (omega arith)))

  pub tally-le : (n : ℕ) (f : ℕ → A) → ((a : A) → weight a ≤ 1) → tally n f ≤ n
  unfolding tally
  tally-le zero f small = omega arith
  tally-le (suc n) f small = omega (arith, small (f n), tally-le n f small)

  pub tally-full :
      (n : ℕ) (f : ℕ → A)
      → ((a : A) → weight a ≤ 1)
      → tally n f ≡ n
      → (i : ℕ) → i < n
      → weight (f i) ≡ 1
  unfolding tally
  tally-full zero f small full i lt = absurd (omega arith)
  tally-full (suc n) f small full i lt = elim (dec_lt i n) [
    | yes below ↦ tally-full n f small (omega (arith, small (f n), tally-le n f small)) i below
    | no last ↦ ground (arith, small (f n), tally-le n f small)
  ]

pub tally-cong {ℓ} :
    {A : Type ℓ} (v w : A → ℕ) (n : ℕ) (f : ℕ → A)
    → ((i : ℕ) → i < n → v (f i) ≡ w (f i))
    → tally v n f ≡ tally w n f
unfolding tally
tally-cong v w zero f h = refl
tally-cong v w (suc n) f h =
    omega (arith, h n (omega arith), tally-cong v w n f (λ i lt. h i (omega arith)))
