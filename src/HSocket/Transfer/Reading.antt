-- ===== src/HSocket/Transfer/Reading.antt =====
-- webprogramming/HSocket.c: `ReadN` against the stream that it reads.
use linux_unix_system_progra.Prelude.{
  ℕ, zero, suc, ◌+◌, ◌-◌, ◌≤◌, ◌<◌, ◌≡◌, refl, ◌⊎◌, inl, inr, true, ◌==◌, Bool-cases, List, [], ◌∷◌,
  ◌++◌, Option, none, some, arith, length, take, drop, sym, ap, ◌∙◌, append-nil, append_assoc,
  length-append, lt→ltb, take-append, drop-append, take-length, drop-length,
}
use linux_unix_system_progra.Syscall.{Reply, ok, fail, Result, returns, eintr}
use linux_unix_system_progra.HSocket.Kernel.{Kernel, Inbound}
use linux_unix_system_progra.HSocket.Transfer.{after_read, read_rounds, ReadN}

eq_of_test : (e : ℕ) → (e == eintr) ≡ true → e ≡ eintr
eq_of_test e h = ground arith

module _ (k : Kernel) (io : Inbound k) (fd sz : ℕ) where
  open k use {World}
  open io use {incoming, interrupts}

  -- What is known when the loop, left with `nleft` bytes to read, returns `v`: `more` is what it
  -- added to the buffer.
  abbrev Counted : ℕ → List ℕ → Option ℕ → List ℕ → World → Type 0
  Counted nleft more none all w' = length more < nleft
  Counted nleft more (some n) all w' =
      (n ≡ length all) × ((length more ≡ nleft) ⊎ (incoming w' fd ≡ []))

  record Progress (nleft : ℕ) (buf : List ℕ) (w : World) (x : Result World (Option ℕ × List ℕ))
      : Type 0 where
    value : Option ℕ
    all : List ℕ
    after : World
    more : List ℕ
    result : x ≡ returns (value, all) after
    grown : all ≡ buf ++ more
    taken : incoming w fd ≡ more ++ incoming after fd
    fits : length more ≤ nleft
    counted : Counted nleft more value all after

  Counted-extend :
      (n nleft : ℕ) (pre more : List ℕ) (v : Option ℕ) (all : List ℕ) (w' : World)
      → n + length pre ≡ nleft
      → Counted n more v all w'
      → Counted nleft (pre ++ more) v all w'
  Counted-extend n nleft pre more none all w' e c = omega (arith, length-append pre more)
  Counted-extend n nleft pre more (some m) all w' e (c, inl d) =
      (c, inl (omega (arith, length-append pre more)))
  Counted-extend n nleft pre more (some m) all w' e (c, inr d) = (c, inr d)

  -- A round that put `pre` into the buffer, and what the later rounds did.
  Progress-extend :
      (n nleft : ℕ) (pre buf : List ℕ) (w v : World) {x : Result World (Option ℕ × List ℕ)}
      → n + length pre ≡ nleft
      → incoming w fd ≡ pre ++ incoming v fd
      → Progress n (buf ++ pre) v x
      → Progress nleft buf w x
  Progress-extend n nleft pre buf w v e t p = record {
    value = p.value;
    all = p.all;
    after = p.after;
    more = pre ++ p.more;
    result = p.result;
    grown = p.grown ∙ append_assoc buf pre p.more;
    taken = t ∙ ap (λ l. pre ++ l) p.taken ∙ sym (append_assoc pre p.more (incoming p.after fd));
    fits = omega (arith, length-append pre p.more, p.fits);
    counted = Counted-extend n nleft pre p.more p.value p.all p.after e p.counted;
  }

  abbrev Rest : Type 0
  Rest = ℕ → List ℕ → World → Result World (Option ℕ × List ℕ)

  after_read-Progress :
      (fuel nleft : ℕ) (buf : List ℕ) (w w' : World) (rest : Rest) (r : Reply (List ℕ))
      → 0 < nleft
      → nleft + length buf ≡ sz
      → nleft + interrupts w < suc fuel
      → k.read fd nleft w ≡ (r, w')
      → ((n : ℕ) (b : List ℕ) (v : World)
          → n + length b ≡ sz
          → n + interrupts v < fuel
          → Progress n b v (rest n b v))
      → Progress nleft buf w (after_read k sz rest nleft buf (r, w'))
  unfolding after_read
  after_read-Progress fuel nleft buf w w' rest (fail e) pos size enough q ih =
      elim (Bool-cases (e == eintr)) [
        | inl again ↦
            let q' : k.read fd nleft w ≡ (fail eintr, w') = rw (← eq_of_test e again) q in
            rw again (
              Progress-extend nleft nleft [] buf w w' (omega arith) (io.read_fail fd nleft e w w' q)
                (rw append-nil
                  (ih nleft buf w' size (omega (arith, io.read_interrupt fd nleft w w' q')))))
        | inr other ↦ rw other (record {
          value = none;
          all = buf;
          after = w';
          more = [];
          result = refl;
          grown = sym (append-nil buf);
          taken = io.read_fail fd nleft e w w' q;
          fits = omega arith;
          counted = pos;
        })
      ]
  after_read-Progress fuel (suc n) buf w w' rest (ok []) pos size enough q ih = record {
    value = some (sz - suc n);
    all = buf;
    after = w';
    more = [];
    result = refl;
    grown = sym (append-nil buf);
    taken = (io.read_ok fd (suc n) w w' [] q).0;
    fits = omega arith;
    counted =
        (omega arith, inr (sym (io.read_ok fd (suc n) w w' [] q).0 ∙ io.read_end fd n w w' q));
  }
  after_read-Progress fuel zero buf w w' rest (ok []) pos size enough q ih = absurd (omega arith)
  after_read-Progress fuel nleft buf w w' rest (ok (b ∷ bs)) pos size enough q ih =
      let h = io.read_ok fd nleft w w' (b ∷ bs) q in
      Progress-extend (nleft - suc (length bs)) nleft (b ∷ bs) buf w w' (omega (arith, h.1)) h.0 (
        ih (nleft - suc (length bs)) (buf ++ b ∷ bs) w'
          (omega (arith, h.1, length-append buf (b ∷ bs))) (omega (arith, h.1, h.2)))

  read_rounds-Progress :
      (fuel nleft : ℕ) (buf : List ℕ) (w : World)
      → nleft + length buf ≡ sz
      → nleft + interrupts w < fuel
      → Progress nleft buf w (read_rounds k fuel fd sz nleft buf w)
  unfolding read_rounds
  read_rounds-Progress zero nleft buf w size enough = absurd (omega arith)
  read_rounds-Progress (suc fuel) zero buf w size enough = record {
    value = some (sz - 0);
    all = buf;
    after = w;
    more = [];
    result = refl;
    grown = sym (append-nil buf);
    taken = refl;
    fits = omega arith;
    counted = (omega arith, inl refl);
  }
  read_rounds-Progress (suc fuel) (suc n) buf w size enough = rw (lt→ltb 0 (suc n) (omega arith)) (
      after_read-Progress fuel (suc n) buf w (k.read fd (suc n) w).1 (read_rounds k fuel fd sz)
        (k.read fd (suc n) w).0 (omega arith) size enough refl
        (λ n b v s e. read_rounds-Progress fuel n b v s e))

  -- `ReadN` returned `v` with `all` in the buffer: on success everything that was coming up to `sz`
  -- bytes, and their number; at an error fewer than `sz` bytes from the front.
  abbrev pub Filled : World → Option ℕ → List ℕ → World → Type 0
  Filled w none all w' = (incoming w fd ≡ all ++ incoming w' fd) × (length all < sz)
  Filled w (some n) all w' =
      (n ≡ length all)
      × (all ≡ take sz (incoming w fd))
      × (incoming w' fd ≡ drop sz (incoming w fd))

  split_exact :
      {xs ys zs : List ℕ}
      → zs ≡ xs ++ ys
      → length xs ≤ sz
      → (length xs ≡ sz) ⊎ (ys ≡ [])
      → (xs ≡ take sz zs) × (ys ≡ drop sz zs)
  split_exact {xs} {ys} e fits (inl full) =
      rw (e, ← full) (sym (take-append xs ys), sym (drop-append xs ys))
  split_exact {xs} e fits (inr ended) =
      rw (e, ended, append-nil) (sym (take-length sz xs fits), sym (drop-length sz xs fits))

  Progress-Filled :
      (w : World) {x : Result World (Option ℕ × List ℕ)}
      → (p : Progress sz [] w x) → Filled w p.value p.all p.after
  Progress-Filled w p = go p.value p.counted
    where
      go : (v : Option ℕ) → Counted sz p.more v p.all p.after → Filled w v p.all p.after
      go none c = (rw p.grown p.taken, rw p.grown c)
      go (some n) (c, d) = let s = split_exact p.taken p.fits d in (c, rw p.grown s.0, s.1)

  -- With more fuel than bytes and interrupts `ReadN` returns: with the number of bytes that it stored,
  -- the first `sz` of what was coming or all of it, or with -1 and fewer bytes from its front.
  pub ReadN-Filled :
      (fuel : ℕ) (w : World)
      → sz + interrupts w < fuel
      → (v : Option ℕ) × (all : List ℕ) × (w' : World) × (ReadN k fuel fd sz w
          ≡ returns (v, all) w')
        × Filled w v all w'
  unfolding ReadN
  ReadN-Filled fuel w enough =
      let p = read_rounds-Progress fuel sz [] w (omega arith) enough in
      (p.value, p.all, p.after, p.result, Progress-Filled w p)
