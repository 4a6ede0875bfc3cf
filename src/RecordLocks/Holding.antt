-- ===== src/RecordLocks/Holding.antt =====
-- t_fcntl_locking.c, which asks for the lock that its arguments name, and file_lock.c, which asks
-- for one fixed lock. atoi is a parameter; printing is left out but for the answer of fcntl.
pub mod Words
use Prim.Native.String.{String}
use text.Mathlib.Text.{◌==◌ as ◌is◌}
use linux_unix_system_progra.Prelude.{
  ℕ, Bool, true, false, ◌||◌, ◌==◌, if◌then◌else◌, List, [], ◌∷◌, Option, none, some,
}
use linux_unix_system_progra.Prelude.Int.{ℤ, pos, negsuc}
use linux_unix_system_progra.Syscall.{Reply, ok, fail, eagain}
use linux_unix_system_progra.RecordLocks.Kernel.{
  Cmd, f_getlk, f_setlk, f_setlkw, LockType, f_rdlck, f_wrlck, f_unlck, Whence, seek_set, seek_cur,
  seek_end, Flock, Found, Kernel, eacces, edeadlk,
}

-- A step of the reading of the arguments that may call `errExit`.
infixl 20 ◌>>=◌
abbrev pub ◌>>=◌ {ℓ κ} : {A : Type ℓ} {B : Type κ} → Option A → (A → Option B) → Option B
none >>= f = none
some a >>= f = f a

unfoldable pub cmd_of_word : String → Option Cmd
cmd_of_word s =
    if "F_SETLK" is s
    then some f_setlk
    else if "F_SETLKW" is s
    then some f_setlkw
    else if "F_GETLK" is s
    then some f_getlk
    else none

unfoldable pub type_of_word : String → Option LockType
type_of_word s =
    if "F_RDLCK" is s
    then some f_rdlck
    else if "F_WRLCK" is s
    then some f_wrlck
    else if "F_UNLCK" is s
    then some f_unlck
    else none

unfoldable pub whence_of_word : String → Option Whence
whence_of_word s =
    if "SEEK_SET" is s
    then some seek_set
    else if "SEEK_CUR" is s
    then some seek_cur
    else if "SEEK_END" is s
    then some seek_end
    else none

-- `start < 0 && whence == SEEK_SET` is refused.
abbrev pub checked_start : ℤ → Whence → Option ℤ
checked_start (pos n) whence = some (pos n)
checked_start (negsuc n) seek_set = none
checked_start (negsuc n) seek_cur = some (negsuc n)
checked_start (negsuc n) seek_end = some (negsuc n)

abbrev pub checked_len : ℤ → Option ℤ
checked_len (pos n) = some (pos n)
checked_len (negsuc n) = none

unfoldable pub parse : (String → ℤ) → (cmd type whence start len : String) → Option (Cmd × Flock)
unfolding cmd_of_word type_of_word whence_of_word
parse atoi a b c d e = do
  cmd ← cmd_of_word a
  type ← type_of_word b
  whence ← whence_of_word c
  start ← checked_start (atoi d) whence
  len ← checked_len (atoi e)
  some (cmd, record { l_type = type; l_whence = whence; l_start = start; l_len = len })

pub data Message : Type 0 where
  can_be_placed : Message
  denied_by : Found → Message
  locked : Message
  unlocked : Message
  read_lock_failed : Message
  write_lock_failed : Message
  unavailable : Message
  deadlock : Message
  fcntl_failed : Message

-- The process ends with EXIT_FAILURE, or keeps its file open for ever; and the answer of fcntl, if
-- it was called.
pub data Ended (W : Type 0) : Type 0 where
  exited : Option Message → W → Ended W
  holds : Message → W → Ended W

abbrev pub refusal : LockType → ℕ → Message
refusal f_rdlck e = read_lock_failed
refusal f_wrlck e = write_lock_failed
refusal f_unlck e =
    if e == eagain || e == eacces
    then unavailable
    else if e == edeadlk
    then deadlock
    else fcntl_failed

abbrev pub report : Found → LockType → Message
report found f_unlck = can_be_placed
report found f_rdlck = denied_by found
report found f_wrlck = denied_by found

abbrev pub success : LockType → Message
success f_unlck = unlocked
success f_rdlck = locked
success f_wrlck = locked

unfoldable pub after_fcntl : {W : Type 0} → Cmd → LockType → Reply Found × W → Ended W
after_fcntl f_getlk type (fail e, w) = exited (some fcntl_failed) w
after_fcntl f_getlk type (ok found, w) = holds (report found found.found_type) w
after_fcntl f_setlk type (fail e, w) = exited (some (refusal type e)) w
after_fcntl f_setlk type (ok found, w) = holds (success type) w
after_fcntl f_setlkw type (fail e, w) = exited (some (refusal type e)) w
after_fcntl f_setlkw type (ok found, w) = holds (success type) w

module _ (k : Kernel) where
  open k use {World}

  unfoldable pub after_open : Option (Cmd × Flock) → Reply ℕ × World → Ended World
  unfolding after_fcntl
  after_open request (fail e, w) = exited none w
  after_open none (ok fd, w) = exited none w
  after_open (some (cmd, flk)) (ok fd, w) = after_fcntl cmd flk.l_type (k.fcntl fd cmd flk w)

  -- t_fcntl_locking.c; the arguments are those behind the program's name.
  unfoldable pub main : (String → ℤ) → List String → World → Ended World
  unfolding parse after_open
  main atoi (a ∷ b ∷ c ∷ d ∷ e ∷ []) w = after_open (parse atoi a b c d e) (k.open_file w)
  main atoi _ w = exited none w

  abbrev pub whole_file : Flock
  whole_file = record { l_type = f_wrlck; l_whence = seek_set; l_start = pos 0; l_len = pos 0 }

  abbrev pub held : Reply Found × World → Ended World
  held (ok found, w) = holds locked w
  held (fail e, w) = exited none w

  abbrev pub after_open_file : Reply ℕ × World → Ended World
  after_open_file (ok fd, w) = held (k.fcntl fd f_setlk whole_file w)
  after_open_file (fail e, w) = exited none w

  -- file_lock.c
  unfoldable pub lock_file : World → Ended World
  lock_file w = after_open_file (k.open_file w)
