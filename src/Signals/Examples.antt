-- ===== src/Signals/Examples.antt =====
-- Concrete runs of killfrom.c and t_sigqueue.c: the worlds are the lists of what was sent.
use linux_unix_system_progra.Prelude.{
  ℕ, zero, suc, ◌-◌, ◌≡◌, refl, true, ◌&&◌, List, [], ◌∷◌, ◌++◌, arith, Option, none, some,
}
use linux_unix_system_progra.Prelude.Int.{ℤ, pos, negsuc}
use linux_unix_system_progra.Syscall.{Reply, ok, fail}
use linux_unix_system_progra.Signals.Killfrom as Killfrom
use linux_unix_system_progra.Signals.Killfrom.{le_ℤ, maxpid, Delivery, lives, dies}
use linux_unix_system_progra.Signals.Sigqueue as Sigqueue
use linux_unix_system_progra.Signals.Sent.{size, from, occurs, kill_all, main_kills}

-- One digit; what is none is 0.
abbrev digit : List ℕ → ℤ
digit [] = pos 0
digit (d ∷ rest) = pos (d - 48)

-- A signal to 0 reaches this process.
abbrev record_kill : ℤ → List ℤ → Delivery (List ℤ)
record_kill (pos zero) w = dies (w ++ pos 0 ∷ [])
record_kill (pos (suc n)) w = lives (w ++ pos (suc n) ∷ [])
record_kill (negsuc n) w = lives (w ++ negsuc n ∷ [])

abbrev kills : Killfrom.Kernel
kills = record { World = List ℤ; kill = record_kill }

four_to_six :
    Killfrom.main kills digit 9 ((b'4' ∷ []) ∷ (b'6' ∷ []) ∷ []) []
    ≡ Killfrom.exited (pos 4 ∷ pos 5 ∷ pos 6 ∷ [])
unfolding Killfrom.main Killfrom.loop Killfrom.end_of
four_to_six = refl

-- An argument that is no number is 0, and the process is the first that is killed.
no_number : Killfrom.main kills digit 9 ((b'!' ∷ []) ∷ []) [] ≡ Killfrom.killed (pos 0 ∷ [])
unfolding Killfrom.main Killfrom.loop Killfrom.end_of
no_number = refl

main_kills_example :
    let numbers = from (pos 4) (size (pos 4) (Killfrom.end_of kills digit ((b'6' ∷ []) ∷ []))) in
    (Killfrom.main kills digit 9 ((b'4' ∷ []) ∷ (b'6' ∷ []) ∷ []) []
      ≡ kill_all kills digit numbers [])
    × (occurs (pos 5) numbers
        ≡ (le_ℤ (pos 4) (pos 5) && le_ℤ (pos 5) (Killfrom.end_of kills digit ((b'6' ∷ []) ∷ []))))
    × (le_ℤ (Killfrom.end_of kills digit ((b'6' ∷ []) ∷ [])) maxpid ≡ true)
unfolding Killfrom.end_of
main_kills_example =
    main_kills kills digit 9 (pos 5) (b'4' ∷ []) ((b'6' ∷ []) ∷ []) [] (omega arith)

abbrev a_digit : List ℕ → Option ℤ
a_digit [] = none
a_digit (d ∷ rest) = some (pos (d - 48))

-- The third signal cannot be sent.
abbrev record_sent : ℤ → ℤ → ℤ → List ℤ → Reply {0} Unit × List ℤ
record_sent pid sig d (a ∷ b ∷ rest) = (fail 11, a ∷ b ∷ rest)
record_sent pid sig d w = (ok tt, w ++ d ∷ [])

abbrev signals : Sigqueue.Tools
signals = record {
  World = List ℤ;
  get_number = a_digit;
  get_any_base = a_digit;
  get_positive = a_digit;
  sigqueue = record_sent;
}

third_fails :
    Sigqueue.main signals 9 ((b'7' ∷ []) ∷ (b'9' ∷ []) ∷ (b'5' ∷ []) ∷ (b'3' ∷ []) ∷ []) []
    ≡ Sigqueue.failure (pos 5 ∷ pos 6 ∷ [])
unfolding Sigqueue.main Sigqueue.loop
third_fails = refl
