-- ===== src/Signals/Sent.antt =====
-- webprogramming/killfrom.c and t_sigqueue.c: what is sent, in which order.
use linux_unix_system_progra.Prelude.{
  same_text, ℕ, zero, suc, ◌+◌, ◌-◌, ◌<◌, ◌≡◌, refl, sym, ap, ◌∙◌, Bool, true, false, ◌==◌, ◌&&◌,
  ◌||◌, List, [], ◌∷◌, arith, some, not, if◌then◌else◌,
}
use linux_unix_system_progra.Prelude.Int.{ℤ, pos, negsuc, increment}
use linux_unix_system_progra.Syscall.{Reply, ok, fail}
use linux_unix_system_progra.Signals.Killfrom as Killfrom
use linux_unix_system_progra.Signals.Killfrom.{le_ℤ, maxpid, Delivery, lives, dies}
use linux_unix_system_progra.Signals.Sigqueue as Sigqueue

-- The number of integers from `a` to `b`.
abbrev pub size : ℤ → ℤ → ℕ
size (pos a) (pos b) = b + 1 - a
size (pos a) (negsuc b) = 0
size (negsuc a) (pos b) = a + 1 + b + 1
size (negsuc a) (negsuc b) = a + 1 - b

-- `n` integers from `a` on.
abbrev pub from : ℤ → ℕ → List ℤ
from a zero = []
from a (suc n) = a ∷ from (increment a) n

size-zero : (a b : ℤ) → size a b ≡ 0 → le_ℤ a b ≡ false
size-zero a b h = ground arith

size-suc : (a b : ℤ) (n : ℕ) → size a b ≡ suc n → (le_ℤ a b ≡ true) × (size (increment a) b ≡ n)
size-suc a b n h = ground arith

abbrev same : ℤ → ℤ → Bool
same (pos a) (pos b) = a == b
same (pos a) (negsuc b) = false
same (negsuc a) (pos b) = false
same (negsuc a) (negsuc b) = a == b

abbrev pub occurs : ℤ → List ℤ → Bool
occurs p [] = false
occurs p (i ∷ rest) = same p i || occurs p rest

between-none : (p a b : ℤ) → le_ℤ a b ≡ false → (le_ℤ a p && le_ℤ p b) ≡ false
between-none p a b h = ground arith

between-first :
    (p a b : ℤ)
    → le_ℤ a b ≡ true
    → (le_ℤ a p && le_ℤ p b) ≡ (same p a || (le_ℤ (increment a) p && le_ℤ p b))
between-first p a b h = ground arith

occurs-from : (n : ℕ) (p a b : ℤ) → size a b ≡ n → occurs p (from a n) ≡ (le_ℤ a p && le_ℤ p b)
occurs-from zero p a b e = sym (between-none p a b (size-zero a b e))
occurs-from (suc n) p a b e =
    let more = size-suc a b n e in
    ap (λ t. same p a || t) (occurs-from n p (increment a) b more.1)
    ∙ sym (between-first p a b more.0)

le_maxpid : (a : ℤ) → le_ℤ (if not (le_ℤ maxpid a) then a else maxpid) maxpid ≡ true
le_maxpid a = ground arith

module _ (k : Killfrom.Kernel) (atoi : List ℕ → ℤ) where
  -- SIGKILL to each process of a list, until this one is killed.
  unfoldable pub kill_all : List ℤ → k.World → Killfrom.Ended k.World
  kill_all [] w = Killfrom.exited w
  kill_all (i ∷ rest) w = Killfrom.after_kill k atoi (kill_all rest) (k.kill i w)

  after_kill-ap :
      (f g : k.World → Killfrom.Ended k.World) (d : Delivery k.World)
      → ((w : k.World) → f w ≡ g w)
      → Killfrom.after_kill k atoi f d ≡ Killfrom.after_kill k atoi g d
  after_kill-ap f g (lives w) h = h w
  after_kill-ap f g (dies w) h = refl

  loop-kill_all :
      (n fuel : ℕ) (i last : ℤ) (w : k.World)
      → size i last ≡ n
      → n < fuel
      → Killfrom.loop k atoi fuel i last w ≡ kill_all (from i n) w
  unfolding kill_all Killfrom.loop
  loop-kill_all n zero i last w e lt = absurd (omega arith)
  loop-kill_all zero (suc fuel) i last w e lt = simp (size-zero i last e)
  loop-kill_all (suc n) (suc fuel) i last w e lt =
      let more = size-suc i last n e in
      let rest =
        after_kill-ap (Killfrom.loop k atoi fuel (increment i) last)
          (kill_all (from (increment i) n)) (k.kill i w)
          (λ v. loop-kill_all n fuel (increment i) last v more.1 (omega arith)) in
      simp (more.0, rest)

  end_of-le : (rest : List (List ℕ)) → le_ℤ (Killfrom.end_of k atoi rest) maxpid ≡ true
  unfolding Killfrom.end_of
  end_of-le [] = refl
  end_of-le (b ∷ []) = le_maxpid (atoi b)
  end_of-le (b ∷ c ∷ rest) = refl

  -- With fuel for them killfrom sends SIGKILL to the numbers of a list, one after the other, until it
  -- is killed itself; the list has exactly the numbers from the first argument to the last, which is at
  -- most MAXPID.
  pub main_kills :
      (fuel : ℕ) (p : ℤ) (a : List ℕ) (rest : List (List ℕ)) (w : k.World)
      → let last = Killfrom.end_of k atoi rest in
        let numbers = from (atoi a) (size (atoi a) last) in
        size (atoi a) last < fuel
        → (Killfrom.main k atoi fuel (a ∷ rest) w ≡ kill_all numbers w)
          × (occurs p numbers ≡ (le_ℤ (atoi a) p && le_ℤ p last))
          × (le_ℤ last maxpid ≡ true)
  unfolding Killfrom.main
  main_kills fuel p a rest w lt =
      let last = Killfrom.end_of k atoi rest in
      let n = size (atoi a) last in
      (
        loop-kill_all n fuel (atoi a) last w refl lt,
        occurs-from n p (atoi a) last refl,
        end_of-le rest,
      )

module _ (k : Sigqueue.Tools) where
  -- The signal with each number of a list, until one is not sent.
  unfoldable pub send_all : ℤ → ℤ → List ℤ → k.World → Sigqueue.Ended k.World
  send_all pid sig [] w = Sigqueue.success w
  send_all pid sig (d ∷ rest) w =
      Sigqueue.after_sigqueue k (send_all pid sig rest) (k.sigqueue pid sig d w)

  after_sigqueue-ap :
      (f g : k.World → Sigqueue.Ended k.World) (r : Reply Unit × k.World)
      → ((w : k.World) → f w ≡ g w)
      → Sigqueue.after_sigqueue k f r ≡ Sigqueue.after_sigqueue k g r
  after_sigqueue-ap f g (ok u, w) h = h w
  after_sigqueue-ap f g (fail e, w) h = refl

  loop-send_all :
      (n fuel j num : ℕ) (text : List ℕ) (pid sig d : ℤ) (w : k.World)
      → k.get_number text ≡ some pid
      → j + n ≡ num
      → n < fuel
      → Sigqueue.loop k fuel j text sig d (pos num) w
        ≡ send_all pid sig (from (Sigqueue.add_ℕ d j) n) w
  unfolding send_all Sigqueue.loop
  loop-send_all n zero j num text pid sig d w read e lt = absurd (omega arith)
  loop-send_all zero (suc fuel) j num text pid sig d w read e lt =
      let over : Sigqueue.lt_ℤ j (pos num) ≡ false = ground arith in simp over
  loop-send_all (suc n) (suc fuel) j num text pid sig d w read e lt =
      let more : Sigqueue.lt_ℤ j (pos num) ≡ true = ground arith in
      let j_suc : j + 1 ≡ suc j = omega arith in
      let rest =
        after_sigqueue-ap (Sigqueue.loop k fuel (suc j) text sig d (pos num))
          (send_all pid sig (from (increment (Sigqueue.add_ℕ d j)) n))
          (k.sigqueue pid sig (Sigqueue.add_ℕ d j) w)
          (λ v.
            loop-send_all n fuel (suc j) num text pid sig d v read (omega arith) (omega arith)) in
      simp (more, read, j_suc, rest)

  -- With four or five arguments that can be read, of which the first is not --help, and with fuel for
  -- the signals, t_sigqueue.c sends the signal with the data and the numbers behind it in order, as
  -- many as are asked for, until one cannot be sent.
  pub main_sends :
      (fuel n : ℕ) (text sig_text data_text : List ℕ) (rest : List (List ℕ)) (pid sig d : ℤ)
      (w : k.World)
      → same_text text Sigqueue.help ≡ false
      → k.get_number text ≡ some pid
      → k.get_number sig_text ≡ some sig
      → k.get_any_base data_text ≡ some d
      → Sigqueue.num_of k rest ≡ some (pos n)
      → n < fuel
      → Sigqueue.main k fuel (text ∷ sig_text ∷ data_text ∷ rest) w ≡ send_all pid sig (from d n) w
  unfolding Sigqueue.main
  main_sends fuel n text sig_text data_text rest pid sig d w no_help p s v num lt =
      simp (no_help, s, v, num, loop-send_all n fuel 0 n text pid sig d w p (omega arith) lt)
