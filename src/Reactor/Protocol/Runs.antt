-- ===== src/Reactor/Protocol/Runs.antt =====
-- myEpollReactor.c: a run of the server is a run of the protocol.
use linux_unix_system_progra.Prelude.{
  ℕ, zero, suc, ◌≤◌, ◌≢◌, ◌≡◌, refl, ◌∙◌, ◌&&◌, Bool-cases, inl, inr, some, update, arith, subst,
  List, [], ◌∷◌, All,
}
use linux_unix_system_progra.Syscall.{Reply, ok, fail, Reply-cases}
use linux_unix_system_progra.Reactor.Kernel.{
  Kernel, EpollEvent, IsLawful, epollin, epollout, has, ctl_add,
}
use linux_unix_system_progra.Reactor.Defs.{
  max_event, Callback, null, call, Server, Outcome, running, call_on, dispatch, after_wait, serve,
  rounds, listen_on, register, start, main, zeroed, listener,
}
use linux_unix_system_progra.Reactor.Invariant.{Agrees-same}
use linux_unix_system_progra.Reactor.Handlers.{Ends, Ends->>=, Ends-map, Good, Keeps}
use linux_unix_system_progra.Reactor.Loop.{
  Callable, All-Callable, call_on-Keeps, reported-Callable, register-Good,
}
use linux_unix_system_progra.Reactor.Protocol.{
  listening, phases, phases-update, Moves, stay, step, Moves-trans, initial,
}
use linux_unix_system_progra.Reactor.Protocol.Calls.{Moved, call-Moved}

Ends-both {ℓ} :
    {S : Type ℓ} (P Q : S → Type 0) (o : Outcome S) → Ends P o → Ends Q o → Ends (λ s. P s × Q s) o
Ends-both P Q (running s) a b = (a, b)
Ends-both P Q (Outcome.exited s) a b = tt
Ends-both P Q (Outcome.crashed s) a b = a

module _ (k : Kernel) (law : IsLawful k) where
  open k use {World}

  abbrev Went : Server k → Server k → Type 0
  Went s s' = Moves (phases s.table) (phases s'.table)

  -- What a part of the loop does to a good state.
  abbrev Runs : Server k → Server k → Type 0
  Runs s s' = Good k law s' × Went s s'

  call-Went :
      (c : Callback) (i : ℕ) (s : Server k)
      → i ≤ max_event
      → Good k law s
      → (s.table i).call_back ≡ c
      → c ≢ null
      → Ends (Went s) (call k c i s)
  call-Went c i s le good e armed =
      Ends-map (Moved k law c i s) (Went s) (call k c i s) (call-Moved k law c i s le good e armed)
        (λ s'. step c i stay)

  call_on-Went :
      (flag : ℕ) (r : EpollEvent) (s : Server k)
      → Callable k law s r
      → Good k law s
      → Ends (Went s) (call_on k flag r s)
  unfolding call_on
  call_on-Went flag r s (le, armed) good =
      elim (Bool-cases (has (s.table r.ptr).events flag && has r.events flag)) [
        | inl hit ↦ rw hit (call-Went _ r.ptr s le good refl armed)
        | inr miss ↦ rw miss stay
      ]

  call_on-both :
      (flag : ℕ) (r : EpollEvent) (s : Server k)
      → Callable k law s r
      → Good k law s
      → Ends (λ s'. Keeps k law s s' × Went s s') (call_on k flag r s)
  call_on-both flag r s may good =
      Ends-both (Keeps k law s) (Went s) (call_on k flag r s)
        (call_on-Keeps k law flag r s may good) (call_on-Went flag r s may good)

  Runs-after : (a b c : Server k) → Went a b → Runs b c → Runs a c
  Runs-after a b c m (good, n) = (good, Moves-trans m n)

  dispatch-Runs :
      (rs : List EpollEvent) (s : Server k)
      → All (Callable k law s) rs
      → Good k law s
      → Ends (Runs s) (dispatch k rs s)
  unfolding dispatch
  dispatch-Runs [] s a good = (good, stay)
  dispatch-Runs (r ∷ rs) s ((le, armed), a) good =
      Ends->>= (λ s1. Keeps k law s s1 × Went s s1) (Runs s) _ (call_on k epollin r s)
        (call_on-both epollin r s (le, armed) good)
        λ s1 ((good1, h1), m1).
          Ends->>= (λ s2. Keeps k law s1 s2 × Went s1 s2) (Runs s) _ (call_on k epollout r s1)
            (call_on-both epollout r s1 (le, h1 r.ptr armed) good1)
            λ s2 ((good2, h2), m2).
              Ends-map (Runs s2) (Runs s) (dispatch k rs s2)
                (dispatch-Runs rs s2
                  (All-Callable k law rs s1 s2 h2 (All-Callable k law rs s s1 h1 a)) good2)
                (λ s3. Runs-after s s2 s3 (Moves-trans m1 m2))

  serve-Runs : (s : Server k) → Good k law s → Ends (Runs s) (serve k s)
  unfolding serve after_wait
  serve-Runs s good = elim (Reply-cases (k.epoll_wait s.world)) [
    | inl (rs, w, q) ↦
        let same : (g : ℕ) → law.interest w g ≡ law.interest s.world g =
          rw q at (law.wait_keeps s.world) in
        rw q (
          dispatch-Runs rs (record s { world = w })
            (reported-Callable k law rs s good (law.wait_reports s.world w rs q))
            (Agrees-same good same))
    | inr (e, w, q) ↦ rw q tt
  ]

  rounds-Runs : (n : ℕ) (s : Server k) → Good k law s → Ends (Runs s) (rounds k n s)
  unfolding rounds
  rounds-Runs zero s good = (good, stay)
  rounds-Runs (suc n) s good =
      Ends->>= (Runs s) (Runs s) (rounds k n) (serve k s) (serve-Runs s good) λ s1 (good1, m1).
        Ends-map (Runs s1) (Runs s) (rounds k n s1) (rounds-Runs n s1 good1)
          (λ s2. Runs-after s s1 s2 m1)

  register-initial : (x : Reply ℕ × World) → Ends (λ s. phases s.table ≡ initial) (register k x)
  unfolding register listen_on
  register-initial (fail e, w) = tt
  register-initial (ok lfd, w) =
      let epv : EpollEvent = record { events = epollin; ptr = max_event } in
      elim (Reply-cases (k.epoll_ctl ctl_add lfd (some epv) w)) [
        | inl (n, v, q) ↦ rw q (
            phases-update (λ i. zeroed k) (update (λ i. zeroed k) max_event (listener k lfd))
              max_event listening (λ j. ground arith))
        | inr (e, v, q) ↦ rw q tt
      ]

  -- Started by `main`, the server runs the protocol: in any number of rounds, as long as it goes on,
  -- the phases of its entries have come from that in which it only listens by the moves of
  -- handlers, and its table agrees with the registrations of the kernel.
  pub main-Runs :
      (n : ℕ) (w : World) → Ends (λ s. Good k law s × Moves initial (phases s.table)) (main k n w)
  unfolding main start
  main-Runs n w =
      Ends->>= (λ s. Good k law s × (phases s.table ≡ initial))
        (λ s. Good k law s × Moves initial (phases s.table)) (rounds k n) (start k w)
        (Ends-both (Good k law) (λ s. phases s.table ≡ initial) (start k w)
          (register-Good k law _ (λ g. law.socket_keeps _ g ∙ law.create_empty _ w g))
          (register-initial _))
        λ s (good, e).
          Ends-map (Runs s) (λ s. Good k law s × Moves initial (phases s.table)) (rounds k n s)
            (rounds-Runs n s good)
            (λ s' (good', m). (good', subst (λ p. Moves p (phases s'.table)) e m))
