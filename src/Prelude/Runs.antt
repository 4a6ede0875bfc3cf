-- ===== src/Prelude/Runs.antt =====
-- Runs of a step relation, with their length, and a measure that bounds it.
use Prim.Native.Nat.{ℕ, suc, ◌+◌, ◌*◌, ◌≤◌, ◌<◌}
use native.Mathlib.Nat.{mul-add}
use native.Mathlib.Omega.{arith}

module _ {S : Type 0} (Step : S → S → Type 0) (free : (s t : S) → Step s t → ℕ) where
  -- A run from `s` of `n` steps. `free` is 1 for a step that is counted by itself in `k`, such as a
  -- wake-up with no signal, and 0 for the others.
  pub data Run (s : S) : ℕ → ℕ → S → Type 0 where
    no_step : Run s 0 0 s
    one_more : {n k : ℕ} {t u : S} → Run s n k t → (m : Step t u) → Run s (suc n) (k + free t u m) u

  -- Every step keeps the invariant and reduces the measure, but a free one may add less than `c`.
  module _ (Inv : S → Type 0) (keeps : (s t : S) → Step s t → Inv s → Inv t) (measure : S → ℕ)
      (c : ℕ)
      (drops : (s t : S) (m : Step s t) → Inv s → measure t < measure s + c * free s t m) where
    pub Run-measure :
        {s u : S} {n k : ℕ} → Inv s → Run s n k u → Inv u × (n + measure u ≤ measure s + c * k)
    Run-measure {s} inv no_step = (inv, omega arith)
    Run-measure {s} {u} inv (one_more {n} {k} {t} r m) =
        let (inv', le) = Run-measure inv r in
        (keeps t u m inv', omega (arith, le, drops t u m inv', mul-add c k (free t u m)))

-- A run with its end, for concrete ones.
pub record Trail {S : Type 0} (Step : S → S → Type 0) (free : (s t : S) → Step s t → ℕ) (s : S)
    : Type 0 where
  pub steps : ℕ
  pub apart : ℕ  -- the free ones
  pub last : S
  pub path : Run Step free s steps apart last

module _ {S : Type 0} {Step : S → S → Type 0} {free : (s t : S) → Step s t → ℕ} {s : S} where
  abbrev pub begun : Trail Step free s
  begun = record { steps = 0; apart = 0; last = s; path = no_step }

  abbrev pub go : (r : Trail Step free s) {t : S} → Step r.last t → Trail Step free s
  go r {t} m = record {
    steps = suc r.steps;
    apart = r.apart + free r.last t m;
    last = t;
    path = one_more r.path m;
  }
