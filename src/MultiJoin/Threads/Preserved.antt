-- ===== src/MultiJoin/Threads/Preserved.antt =====
-- thread_multijoin.c with its threads: the steps and the invariant.
use linux_unix_system_progra.Prelude.{
  ℕ, dec_lt, ◌<◌, ◌≡◌, ◌≢◌, refl, ◌⊎◌, inl, inr, true, [], ◌∷◌, length-append, arith, tally,
  tally-const, tally-ge,
}
use linux_unix_system_progra.Prelude.Int.{is_zero}
use linux_unix_system_progra.MultiJoin.Defs.{alive, joined}
use linux_unix_system_progra.MultiJoin.Threads.{
  sleeping, gone, Entry, checking, waiting, woken, passing, failed, System, MainStep, Step,
  by_thread, by_main, spurious, error, start,
}
use linux_unix_system_progra.MultiJoin.Threads.Invariant.{count_terminated, Inv}
use linux_unix_system_progra.MultiJoin.Threads.Changes.{Inv-set, Inv-move, terms_set, Worker-Inv}

module _ (n : ℕ) where
  none_terminated :
      (s : System) (j : ℕ)
      → Inv n s
      → s.main ≡ checking
      → is_zero s.num_unjoined ≡ true
      → (s.thread j).worker ≢ gone
  none_terminated s j inv e z u = elim (dec_lt j n) [
    | yes lt ↦ ground (arith, inv.counts, inv.fits j, tally-ge count_terminated n s.thread j lt)
    | no ge ↦ ground (arith, inv.born j)
  ]

  all_joined :
      (s : System) (idx : ℕ)
      → Inv n s
      → s.main ≡ passing idx
      → ¬ (idx < n)
      → tally count_terminated n s.thread ≡ 0
  all_joined s idx inv e ge =
      omega (arith, tally-const count_terminated n 0 s.thread (λ j lt. ground (arith, inv.joins j)))

  Main-Inv : (s t : System) → MainStep n s t → Inv n s → Inv n t
  Main-Inv s t (MainStep.create idx a lt q) inv =
      let e : Entry = record { state = alive; worker = sleeping } in
      record {
        born = λ j le. ground (arith, inv.born j);
        exist = λ j lt u. ground (arith, inv.exist j);
        fits = λ j le. ground (arith, inv.fits j);
        joins = λ j lt. ground arith;
        none_gone = λ j w. ground arith;
        worker_mutex = λ j. ground (arith, inv.worker_mutex j, inv.born idx);
        main_mutex = ground (arith, inv.main_mutex);
        counts = ground (
          arith,
          inv.counts,
          inv.fits idx,
          inv.born idx,
          terms_set n s t idx e lt (ground arith),
        );
      }
  Main-Inv s t (MainStep.all_created idx a ge q) inv =
      Inv-move n s t inv (ground arith) (ground (arith, inv.counts)) (ground (arith, inv.counts))
        (λ j lt. ground arith) (λ j w u. ground arith) (λ j. ground (arith, inv.main_mutex))
        (ground (arith, inv.main_mutex)) (ground (arith, inv.counts))
  Main-Inv s t (MainStep.enter a b q) inv =
      Inv-move n s t inv (ground arith) (ground (arith, inv.counts)) (ground (arith, inv.counts))
        (λ j lt. ground arith) (λ j w u. ground arith) (λ j. ground (arith, inv.main_mutex))
        (ground (arith, inv.main_mutex)) (ground (arith, inv.counts))
  Main-Inv s t (MainStep.exit a b q) inv =
      Inv-move n s t inv (ground arith) (ground (arith, inv.counts)) (ground (arith, inv.counts))
        (λ j lt. ground arith) (λ j w u. ground arith) (λ j. ground (arith, inv.main_mutex))
        (ground (arith, inv.main_mutex)) (ground (arith, inv.counts))
  Main-Inv s t (MainStep.lock a b q) inv =
      Inv-move n s t inv (ground arith) (ground (arith, inv.counts)) (ground (arith, inv.counts))
        (λ j lt. ground arith) (λ j w u. ground arith) (λ j. ground (arith, inv.main_mutex))
        (ground (arith, inv.main_mutex)) (ground (arith, inv.counts))
  Main-Inv s t (MainStep.wait a b q) inv =
      Inv-move n s t inv (ground arith) (ground (arith, inv.counts)) (ground (arith, inv.counts))
        (λ j lt. ground arith) (λ j w u. none_terminated s j inv a b u)
        (λ j. ground (arith, inv.main_mutex)) (ground (arith, inv.main_mutex))
        (ground (arith, inv.counts))
  Main-Inv s t (MainStep.relock a b q) inv =
      Inv-move n s t inv (ground arith) (ground (arith, inv.counts)) (ground (arith, inv.counts))
        (λ j lt. ground arith) (λ j w u. ground arith) (λ j. ground (arith, inv.main_mutex))
        (ground (arith, inv.main_mutex)) (ground (arith, inv.counts))
  Main-Inv s t (MainStep.begin a b q) inv =
      Inv-move n s t inv (ground arith) (ground (arith, inv.counts)) (ground (arith, inv.counts))
        (λ j lt. ground arith) (λ j w u. ground arith) (λ j. ground (arith, inv.main_mutex))
        (ground (arith, inv.main_mutex)) (ground (arith, inv.counts))
  Main-Inv s t (MainStep.join idx a lt b c q) inv =
      let e : Entry = record (s.thread idx) { state = joined } in
      Inv-set n s t idx e inv (ground arith) (ground arith) (ground arith)
        (λ u. ground (arith, inv.exist idx)) (λ u. ground (arith, inv.exist idx))
        (λ le. ground arith) (λ j lt. ground (arith, inv.joins j)) (λ j w u. ground arith)
        (λ j. ground (arith, inv.worker_mutex j)) (ground (arith, inv.main_mutex))
        (ground (
          arith,
          inv.counts,
          length-append s.calls (idx ∷ []),
          terms_set n s t idx e lt (ground arith),
        ))
  Main-Inv s t (MainStep.skip idx a lt b q) inv =
      let e : Entry = record (s.thread idx) { state = joined } in
      Inv-set n s t idx e inv (ground arith) (ground arith) (ground arith)
        (λ u. ground (arith, inv.exist idx)) (λ u. ground (arith, inv.exist idx))
        (λ le. ground arith) (λ j lt. ground (arith, inv.joins j)) (λ j w u. ground arith)
        (λ j. ground (arith, inv.worker_mutex j)) (ground (arith, inv.main_mutex))
        (ground (arith, inv.counts, terms_set n s t idx e lt (ground arith)))
  Main-Inv s t (MainStep.passed idx a ge q) inv =
      Inv-move n s t inv (ground arith) (ground (arith, inv.counts)) (ground (arith, inv.counts))
        (λ j lt. ground arith) (λ j w u. ground arith) (λ j. ground (arith, inv.main_mutex))
        (ground (arith, inv.main_mutex)) (ground (arith, inv.counts, all_joined s idx inv a ge))
  Main-Inv s t (MainStep.unlock a q) inv =
      Inv-move n s t inv (ground arith) (ground (arith, inv.counts)) (ground (arith, inv.counts))
        (λ j lt. ground arith) (λ j w u. ground arith) (λ j. ground (arith, inv.main_mutex))
        (ground (arith, inv.main_mutex)) (ground (arith, inv.counts))

  -- The process has failed, or the invariant holds.
  abbrev pub Sound : System → Type 0
  Sound s = (s.main ≡ failed) ⊎ Inv n s

  spurious-Inv :
      (s t : System) → s.main ≡ waiting → t ≡ record s { main = woken } → Inv n s → Inv n t
  spurious-Inv s t a q inv =
      Inv-move n s t inv (ground arith) (ground arith) (ground arith) (λ j lt. ground arith)
        (λ j w u. ground arith) (λ j. ground arith) (ground (arith, inv.main_mutex))
        (ground (arith, inv.counts))

  pub none_failed : (s t : System) → MainStep n s t → s.main ≢ failed
  none_failed s t (MainStep.create idx a lt q) f = ground arith
  none_failed s t (MainStep.all_created idx a ge q) f = ground arith
  none_failed s t (MainStep.enter a b q) f = ground arith
  none_failed s t (MainStep.exit a b q) f = ground arith
  none_failed s t (MainStep.lock a b q) f = ground arith
  none_failed s t (MainStep.wait a b q) f = ground arith
  none_failed s t (MainStep.relock a b q) f = ground arith
  none_failed s t (MainStep.begin a b q) f = ground arith
  none_failed s t (MainStep.join idx a lt b c q) f = ground arith
  none_failed s t (MainStep.skip idx a lt b q) f = ground arith
  none_failed s t (MainStep.passed idx a ge q) f = ground arith
  none_failed s t (MainStep.unlock a q) f = ground arith

  pub Step-Sound : (s t : System) → Step n s t → Sound s → Sound t
  Step-Sound s t (by_thread i lt r m) (inr inv) = inr (Worker-Inv n i s t lt r m inv)
  Step-Sound s t (by_thread i lt r m) (inl f) = absurd (ground arith)
  Step-Sound s t (by_main m) (inr inv) = inr (Main-Inv s t m inv)
  Step-Sound s t (by_main m) (inl f) = absurd (none_failed s t m f)
  Step-Sound s t (spurious a q) (inr inv) = inr (spurious-Inv s t a q inv)
  Step-Sound s t (spurious a q) (inl f) = absurd (ground arith)
  Step-Sound s t (error r q) h = inl (ground arith)

  pub start-Inv : Inv n start
  start-Inv = record {
    born = λ j le. refl;
    exist = λ j lt. absurd (omega arith);
    fits = λ j le. refl;
    joins = λ j lt. absurd (omega arith);
    none_gone = λ j w u. ground (arith, u);
    worker_mutex = λ j. refl;
    main_mutex = refl;
    counts = ground (arith, tally-const count_terminated n 0 start.thread (λ i lt. refl));
  }
