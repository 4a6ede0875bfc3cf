-- ===== src/RecordLocks/Command.antt =====
-- i_fcntl_locking.c: how `main` reads a line. sscanf is a parameter: from the text and the values of
-- the variables it gives the number of items that it has read and the variables' new values.
use linux_unix_system_progra.Prelude.{ℕ, ◌==◌, ltb, if◌then◌else◌, Bool, not, ◌||◌, List, [], ◌∷◌}
use linux_unix_system_progra.Prelude.Int.{ℤ}
use linux_unix_system_progra.RecordLocks.Kernel.{
  Cmd, f_getlk, f_setlk, f_setlkw, LockType, f_rdlck, f_wrlck, f_unlck, Whence, seek_set, seek_cur,
  seek_end, Flock,
}

-- `cmdCh`, `lock`, `st`, `len` and `whence`.
pub record Vars : Type 0 where
  pub cmd_ch : ℕ
  pub lock : ℕ
  pub st : ℤ
  pub len : ℤ
  pub whence : ℕ

-- `line[strlen(line) - 1] = '\0'`
unfoldable pub chop : List ℕ → List ℕ
chop [] = []
chop (c ∷ []) = []
chop (c ∷ d ∷ cs) = c ∷ chop (d ∷ cs)

-- `strchr(s, c) != NULL`: the terminator is found as well.
unfoldable pub strchr : List ℕ → ℕ → Bool
strchr [] c = c == 0
strchr (d ∷ ds) c = c == d || strchr ds c

abbrev pub cmd_of : ℕ → Cmd
cmd_of c = if c == b'g' then f_getlk else if c == b's' then f_setlk else f_setlkw

abbrev pub type_of : ℕ → LockType
type_of c = if c == b'r' then f_rdlck else if c == b'w' then f_wrlck else f_unlck

abbrev pub whence_of : ℕ → Whence
whence_of c = if c == b'c' then seek_cur else if c == b'e' then seek_end else seek_set

abbrev pub flock_of : Vars → Flock
flock_of v = record {
  l_type = type_of v.lock;
  l_whence = whence_of v.whence;
  l_start = v.st;
  l_len = v.len;
}

-- The condition behind sscanf.
unfoldable pub is_invalid : ℕ → Vars → Bool
unfolding strchr
is_invalid num_read v =
    ltb num_read 4
    || not (strchr (b'g' ∷ b's' ∷ b'w' ∷ []) v.cmd_ch)
    || not (strchr (b'r' ∷ b'w' ∷ b'u' ∷ []) v.lock)
    || not (strchr (b's' ∷ b'c' ∷ b'e' ∷ []) v.whence)

-- What a line asks for.
pub data Line : Type 0 where
  blank : Line
  help : Line
  invalid : Line
  request : Cmd → Flock → Line

module _ (sscanf : List ℕ → Vars → ℕ × Vars) where
  abbrev pub scan : List ℕ → Vars → ℕ × Vars
  scan text v = sscanf text (record v { whence = b's' })

  abbrev pub request_of : ℕ × Vars → Line
  request_of (num_read, v) =
      if is_invalid num_read v then invalid else request (cmd_of v.cmd_ch) (flock_of v)

  -- Blank lines and those that begin with `?` are not scanned.
  unfoldable pub read_text : List ℕ → Vars → Line × Vars
  unfolding is_invalid
  read_text [] v = (blank, v)
  read_text (c ∷ cs) v =
      if c == b'?' then (help, v) else (request_of (scan (c ∷ cs) v), (scan (c ∷ cs) v).1)

  unfoldable pub read_line : List ℕ → Vars → Line × Vars
  unfolding read_text chop
  read_line line v = read_text (chop line) v
