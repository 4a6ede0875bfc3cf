-- ===== src/HSocket/Transfer/Writing.antt =====
-- webprogramming/HSocket.c: `WriteN` against the stream that it writes.
use linux_unix_system_progra.Prelude.{
  ℕ, zero, suc, ◌+◌, ◌≤◌, ◌<◌, ◌≡◌, refl, inl, inr, true, ◌==◌, Bool-cases, List, [], ◌∷◌, ◌++◌,
  Option, none, some, arith, length, take, drop, sym, ◌∙◌, append-nil, append_assoc, lt→ltb,
  take-append-drop, length-drop, take-add,
}
use linux_unix_system_progra.Syscall.{Reply, ok, fail, Result, returns, eintr}
use linux_unix_system_progra.HSocket.Kernel.{Kernel, Outbound}
use linux_unix_system_progra.HSocket.Transfer.{after_write, write_rounds, WriteN}

eq_of_test : (e : ℕ) → (e == eintr) ≡ true → e ≡ eintr
eq_of_test e h = ground arith

module _ (k : Kernel) (io : Outbound k) (fd : ℕ) where
  open k use {World}
  open io use {sent, interrupts}

  -- `WriteN` of `ptr` returned `v`: on success all of it went out and `v` is `sz`, at an error a
  -- proper prefix of it did.
  abbrev pub Emitted : ℕ → List ℕ → World → Option ℕ → World → Type 0
  Emitted sz ptr w none w' = (m : ℕ) × (m < length ptr) × (sent w' fd ≡ sent w fd ++ take m ptr)
  Emitted sz ptr w (some n) w' = (n ≡ sz) × (sent w' fd ≡ sent w fd ++ ptr)

  abbrev Ends : ℕ → List ℕ → World → Result World (Option ℕ) → Type 0
  Ends sz ptr w x = (v : Option ℕ) × (w' : World) × (x ≡ returns v w') × Emitted sz ptr w v w'

  Emitted-extend :
      (sz n : ℕ) (ptr : List ℕ) (w u w' : World) (v : Option ℕ)
      → n ≤ length ptr
      → sent u fd ≡ sent w fd ++ take n ptr
      → Emitted sz (drop n ptr) u v w'
      → Emitted sz ptr w v w'
  Emitted-extend sz n ptr w u w' none le e (m, lt, t) =
      (n + m, omega (arith, length-drop n ptr), rw (t, e, append_assoc, take-add n m ptr))
  Emitted-extend sz n ptr w u w' (some c) le e (d, t) =
      (d, rw (t, e, append_assoc, take-append-drop n ptr))

  after_write-Ends :
      (fuel sz : ℕ) (ptr : List ℕ) (w w' : World) (rest : List ℕ → World → Result World (Option ℕ))
      (r : Reply ℕ)
      → 0 < length ptr
      → length ptr + interrupts w < suc fuel
      → k.write fd ptr w ≡ (r, w')
      → ((p : List ℕ) (u : World) → length p + interrupts u < fuel → Ends sz p u (rest p u))
      → Ends sz ptr w (after_write k sz rest ptr (r, w'))
  unfolding after_write
  after_write-Ends fuel sz ptr w w' rest (ok zero) pos enough q ih =
      (none, w', refl, (0, pos, (io.write_ok fd 0 ptr w w' q).0))
  after_write-Ends fuel sz ptr w w' rest (ok (suc n)) pos enough q ih =
      let h = io.write_ok fd (suc n) ptr w w' q in
      let (v, u, e, m) =
        ih (drop (suc n) ptr) w' (omega (arith, h.1, h.2, length-drop (suc n) ptr)) in
      (v, u, e, Emitted-extend sz (suc n) ptr w w' u v h.1 h.0 m)
  after_write-Ends fuel sz ptr w w' rest (fail e) pos enough q ih = elim (Bool-cases (e == eintr)) [
    | inl again ↦
        let q' : k.write fd ptr w ≡ (fail eintr, w') = rw (← eq_of_test e again) q in
        let (v, u, d, m) = ih ptr w' (omega (arith, io.write_interrupt fd ptr w w' q')) in
        rw again (
          v,
          u,
          d,
          Emitted-extend sz 0 ptr w w' u v (omega arith)
              (io.write_fail fd eintr ptr w w' q' ∙ sym (append-nil (sent w fd))) m,
        )
    | inr other ↦
        rw other
          (none, w', refl, (0, pos, io.write_fail fd e ptr w w' q ∙ sym (append-nil (sent w fd))))
  ]

  write_rounds-Ends :
      (fuel sz : ℕ) (ptr : List ℕ) (w : World)
      → length ptr + interrupts w < fuel
      → Ends sz ptr w (write_rounds k fuel fd sz ptr w)
  unfolding write_rounds
  write_rounds-Ends zero sz ptr w enough = absurd (omega arith)
  write_rounds-Ends (suc fuel) sz [] w enough =
      (some sz, w, refl, (refl, sym (append-nil (sent w fd))))
  write_rounds-Ends (suc fuel) sz (b ∷ bs) w enough =
      rw (lt→ltb 0 (suc (length bs)) (omega arith)) (
        after_write-Ends fuel sz (b ∷ bs) w (k.write fd (b ∷ bs) w).1 (write_rounds k fuel fd sz)
          (k.write fd (b ∷ bs) w).0 (omega arith) enough refl
          (λ p u e. write_rounds-Ends fuel sz p u e))

  -- With more fuel than bytes and interrupts `WriteN` returns: either the whole buffer was taken and
  -- the result is its size, or the result is -1 and a proper prefix of it was.
  pub WriteN-Emitted :
      (fuel : ℕ) (vptr : List ℕ) (w : World)
      → length vptr + interrupts w < fuel
      → (v : Option ℕ) × (w' : World) × (WriteN k fuel fd vptr w ≡ returns v w')
        × Emitted (length vptr) vptr w v w'
  unfolding WriteN
  WriteN-Emitted fuel vptr w enough = write_rounds-Ends fuel (length vptr) vptr w enough
