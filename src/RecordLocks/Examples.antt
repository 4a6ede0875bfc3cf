-- ===== src/RecordLocks/Examples.antt =====
-- Runs of i_fcntl_locking.c and t_fcntl_locking.c on a kernel that grants every request.
use linux_unix_system_progra.Prelude.{
  ℕ, ◌≤◌, ◌≡◌, ◌==◌, refl, true, false, List, [], ◌∷◌, ◌++◌, Option, some, none, arith,
}
use linux_unix_system_progra.Prelude.Int.{ℤ, pos, negsuc}
use linux_unix_system_progra.Syscall.{ok}
use linux_unix_system_progra.RecordLocks.Kernel.{
  Cmd, f_getlk, f_setlk, f_setlkw, LockType, f_rdlck, f_wrlck, f_unlck, Whence, seek_set, seek_cur,
  seek_end, Flock, Kernel,
}
use linux_unix_system_progra.RecordLocks.Command.{Vars, read_line}
use linux_unix_system_progra.RecordLocks.Interactive.{Session, serve}
use linux_unix_system_progra.RecordLocks.Interactive.Requests.{
  Scanning, requests, execute, result, serve-execute,
}

-- The kernel records the requests, and reports no lock of another process.
abbrev granting : Kernel
granting = record {
  World = List (Cmd × Flock);
  open_file = λ w. (ok 3, w);
  fcntl = λ fd c fl w. (
    ok (record { found_type = f_unlck; found_start = pos 0; found_len = pos 0; found_pid = 0 }),
    w ++ (c, fl) ∷ [],
  );
}

-- The letters of a request.
abbrev cmd_letter : Cmd → ℕ
cmd_letter f_getlk = b'g'
cmd_letter f_setlk = b's'
cmd_letter f_setlkw = b'w'

abbrev type_letter : LockType → ℕ
type_letter f_rdlck = b'r'
type_letter f_wrlck = b'w'
type_letter f_unlck = b'u'

abbrev whence_letter : Whence → ℕ
whence_letter seek_set = b's'
whence_letter seek_cur = b'c'
whence_letter seek_end = b'e'

abbrev vars_of : Cmd → Flock → Vars
vars_of c fl = record {
  cmd_ch = cmd_letter c;
  lock = type_letter fl.l_type;
  st = fl.l_start;
  len = fl.l_len;
  whence = whence_letter fl.l_whence;
}

abbrev spaced : List (List ℕ) → List ℕ
spaced [] = []
spaced (w ∷ []) = w
spaced (w ∷ x ∷ ws) = w ++ b' ' ∷ spaced (x ∷ ws)

-- `g r 0 10 s`, for a way to write numbers.
abbrev text_of : (ℤ → List ℕ) → Vars → List ℕ
text_of show v =
    spaced ((v.cmd_ch ∷ []) ∷ (v.lock ∷ []) ∷ show v.st ∷ show v.len ∷ (v.whence ∷ []) ∷ [])

-- Numbers as a sign and one digit, of any size.
abbrev show : ℤ → List ℕ
show (pos n) = b'+' ∷ n ∷ []
show (negsuc n) = b'-' ∷ n ∷ []

abbrev number : ℕ → ℕ → ℤ
number s n = elim (s == b'-') [ true ↦ negsuc n | false ↦ pos n ]

-- It reads a line of the full form, and nothing of any other.
abbrev fields : List ℕ → Option Vars
fields (c ∷ x1 ∷ l ∷ x2 ∷ s ∷ n ∷ x3 ∷ t ∷ m ∷ x4 ∷ w ∷ []) =
    some (record { cmd_ch = c; lock = l; st = number s n; len = number t m; whence = w })
fields _ = none

abbrev filled : Option Vars → Vars → ℕ × Vars
filled (some u) v = (5, u)
filled none v = (0, v)

abbrev sscanf : List ℕ → Vars → ℕ × Vars
sscanf text v = filled (fields text) v

filled-count : (o : Option Vars) (v v' : Vars) → (filled o v).0 ≡ (filled o v').0
filled-count (some u) v v' = refl
filled-count none v v' = refl

filled-assigns :
    (o : Option Vars) (v v' : Vars) → 4 ≤ (filled o v).0 → (filled o v).1 ≡ (filled o v').1
filled-assigns (some u) v v' h = refl
filled-assigns none v v' h = absurd (omega arith)

abbrev scanning : Scanning sscanf
scanning = record {
  count = λ text v v'. filled-count (fields text) v v';
  assigns = λ text v v' h same. filled-assigns (fields text) v v' h;
}

abbrev unset : Vars
unset = record { cmd_ch = 0; lock = 0; st = pos 0; len = pos 0; whence = 0 }

abbrev read_lock : Flock
read_lock = record { l_type = f_rdlck; l_whence = seek_cur; l_start = negsuc 4; l_len = pos 9 }

-- A question mark, a word that is no command, and a request.
abbrev three_lines : List (List ℕ)
three_lines =
    (b'?' ∷ b'\n' ∷ [])
    ∷ (b'x' ∷ b'\n' ∷ [])
    ∷ (text_of show (vars_of f_setlk read_lock) ++ b'\n' ∷ [])
    ∷ []

abbrev opened : Session granting sscanf
opened = record { vars = unset; printed = []; world = [] }

serve-execute_example :
    result sscanf scanning granting 3 (serve granting sscanf 3 three_lines opened)
    ≡ execute granting 3 (requests sscanf unset three_lines) []
serve-execute_example = serve-execute sscanf scanning granting 3 three_lines opened unset

one_request :
    execute granting 3 (requests sscanf unset three_lines) [] ≡ (true, (f_setlk, read_lock) ∷ [])
unfolding requests execute read_line
one_request = refl

abbrev seven : Flock
seven = record { l_type = f_unlck; l_whence = seek_end; l_start = pos 7; l_len = pos 7 }
