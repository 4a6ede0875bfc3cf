-- ===== src/Reactor/Accepting.antt =====
-- myEpollReactor.c: the search of `acceptconnection` for a free entry.
use linux_unix_system_progra.Prelude.{
  ℕ, zero, suc, ◌+◌, ◌≤◌, ◌<◌, ◌≡◌, ◌≢◌, ◌==◌, Option, none, some, arith, Bool-cases, inl, inr,
}
use linux_unix_system_progra.Reactor.Defs.{Table, find_free}

-- The entry found is free, lies in the range, and is the first such; none is found only if every
-- entry of the range is in use.
abbrev pub FirstFree : ℕ → ℕ → Table → Option ℕ → Type 0
FirstFree n i t none = (j : ℕ) → i ≤ j → j < i + n → (t j).status ≢ 0
FirstFree n i t (some j) =
    (i ≤ j) × (j < i + n) × ((t j).status ≡ 0) × ((m : ℕ) → i ≤ m → m < j → (t m).status ≢ 0)

FirstFree-later :
    (n i : ℕ) (t : Table) (r : Option ℕ)
    → (t i).status ≢ 0
    → FirstFree n (i + 1) t r
    → FirstFree (suc n) i t r
FirstFree-later n i t none used h = λ j le lt z. grind (arith, h)
FirstFree-later n i t (some j) used (a, b, c, d) =
    (omega arith, omega arith, c, λ m le lt z. grind (arith, d))

pub find_free-FirstFree : (n i : ℕ) (t : Table) → FirstFree n i t (find_free n i t)
unfolding find_free
find_free-FirstFree zero i t = λ j le lt z. omega arith
find_free-FirstFree (suc n) i t = elim (Bool-cases ((t i).status == 0)) [
  | inl free ↦ rw free (omega arith, omega arith, ground arith, λ m le lt z. omega arith)
  | inr used ↦ rw used (FirstFree-later n i t _ (ground arith) (find_free-FirstFree n (i + 1) t))
]
