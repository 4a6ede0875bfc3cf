-- ===== src/RecordLocks/Holding/Words.antt =====
-- t_fcntl_locking.c: the arguments that ask for a request.
use Prim.Native.String.{String}
use linux_unix_system_progra.Prelude.{◌≡◌, refl, inl, inr, arith, [], ◌∷◌, none, some}
use linux_unix_system_progra.Prelude.Int.{ℤ, pos}
use linux_unix_system_progra.Syscall.{Reply-cases}
use linux_unix_system_progra.RecordLocks.Kernel.{
  Cmd, f_getlk, f_setlk, f_setlkw, LockType, f_rdlck, f_wrlck, f_unlck, Whence, seek_set, seek_cur,
  seek_end, Flock, Kernel,
}
use linux_unix_system_progra.RecordLocks.Holding.{
  cmd_of_word, type_of_word, whence_of_word, checked_start, checked_len, parse, Ended, exited,
  holds, main, whole_file, lock_file,
}

pub cmd_word : Cmd → String
cmd_word f_setlk = "F_SETLK"
cmd_word f_setlkw = "F_SETLKW"
cmd_word f_getlk = "F_GETLK"

pub type_word : LockType → String
type_word f_rdlck = "F_RDLCK"
type_word f_wrlck = "F_WRLCK"
type_word f_unlck = "F_UNLCK"

pub whence_word : Whence → String
whence_word seek_set = "SEEK_SET"
whence_word seek_cur = "SEEK_CUR"
whence_word seek_end = "SEEK_END"

cmd_read : (c : Cmd) → cmd_of_word (cmd_word c) ≡ some c
unfolding cmd_of_word cmd_word
cmd_read f_setlk = refl
cmd_read f_setlkw = refl
cmd_read f_getlk = refl

type_read : (t : LockType) → type_of_word (type_word t) ≡ some t
unfolding type_of_word type_word
type_read f_rdlck = refl
type_read f_wrlck = refl
type_read f_unlck = refl

whence_read : (w : Whence) → whence_of_word (whence_word w) ≡ some w
unfolding whence_of_word whence_word
whence_read seek_set = refl
whence_read seek_cur = refl
whence_read seek_end = refl

-- What the program does not refuse.
pub record IsValid (fl : Flock) : Type 0 where
  pub starts : checked_start fl.l_start fl.l_whence ≡ some fl.l_start
  pub lasts : checked_len fl.l_len ≡ some fl.l_len

-- The words that name a request, with numerals of its start and its length, are read as that
-- request, if its length is not negative, nor its start, where that counts from the beginning of the
-- file.
pub parse-words :
    (atoi : String → ℤ) (c : Cmd) (fl : Flock) (start len : String)
    → atoi start ≡ fl.l_start
    → atoi len ≡ fl.l_len
    → IsValid fl
    → parse atoi (cmd_word c) (type_word fl.l_type) (whence_word fl.l_whence) start len
      ≡ some (c, fl)
unfolding parse
parse-words atoi c fl start len starts lasts valid =
    rw
      (
        cmd_read c,
        type_read fl.l_type,
        whence_read fl.l_whence,
        starts,
        lasts,
        valid.starts,
        valid.lasts,
      )
      refl

-- Whatever was parsed is a request that is not refused.
pub parse-IsValid :
    (atoi : String → ℤ) (a b c d e : String) (cmd : Cmd) (fl : Flock)
    → parse atoi a b c d e ≡ some (cmd, fl)
    → IsValid fl
unfolding parse
parse-IsValid atoi a b c d e cmd fl h = ground arith

-- Without the message at a failure.
abbrev pub silent : {W : Type 0} → Ended W → Ended W
silent (exited m w) = exited none w
silent (holds m w) = holds m w

-- file_lock.c does what t_fcntl_locking.c does with the arguments for a write lock on the whole file.
pub lock_file-main :
    (k : Kernel) (atoi : String → ℤ) (w : k.World)
    → atoi "0" ≡ pos 0
    → lock_file k w ≡ silent (main k atoi ("F_SETLK" ∷ "F_WRLCK" ∷ "SEEK_SET" ∷ "0" ∷ "0" ∷ []) w)
unfolding main lock_file
lock_file-main k atoi w zero_read = elim (Reply-cases (k.open_file w)) [
  | inl (fd, w', q) ↦ elim (Reply-cases (k.fcntl fd f_setlk (whole_file k) w')) [
    | inl (found, w2, r) ↦ rw (zero_read, q, r) refl
    | inr (e, w2, r) ↦ rw (zero_read, q, r) refl
  ]
  | inr (e, w', q) ↦ rw (zero_read, q) refl
]
