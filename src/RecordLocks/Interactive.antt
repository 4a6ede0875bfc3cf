-- ===== src/RecordLocks/Interactive.antt =====
-- i_fcntl_locking.c: the loop of `main`. The input is the list of the lines that fgets returns, each
-- with its line feed, before it returns NULL. The prompt is left out.
pub mod Requests
use linux_unix_system_progra.Prelude.{
  ℕ, ◌==◌, if◌then◌else◌, Bool, true, false, ◌||◌, List, [], ◌∷◌, ◌++◌,
}
use linux_unix_system_progra.Syscall.{Reply, ok, fail, eagain}
use linux_unix_system_progra.RecordLocks.Kernel.{
  Cmd, f_getlk, f_setlk, f_setlkw, LockType, f_rdlck, f_wrlck, f_unlck, Flock, Found, Kernel,
  eacces, edeadlk,
}
use linux_unix_system_progra.RecordLocks.Command.{
  Vars, Line, blank, help, invalid, request, read_line,
}

-- What `main` prints.
pub data Answer : Type 0 where
  command_format : Answer
  invalid_command : Answer
  can_be_placed : Answer
  denied_by : Found → Answer
  got_lock : Answer
  unlocked : Answer
  incompatible_lock : Answer
  deadlock : Answer

-- The answer to F_GETLK.
abbrev pub report : LockType → Found → Answer
report f_unlck found = can_be_placed
report f_rdlck found = denied_by found
report f_wrlck found = denied_by found

module _ (k : Kernel) (sscanf : List ℕ → Vars → ℕ × Vars) where
  open k use {World}

  pub record Session : Type 0 where
    pub vars : Vars
    pub printed : List Answer
    pub world : World

  -- One round of the loop: it goes on, or ends the process with EXIT_FAILURE.
  pub data Turn : Type 0 where
    goes_on : Session → Turn
    fails : Session → Turn

  abbrev pub print : Answer → Session → Session
  print a s = record s { printed = s.printed ++ a ∷ [] }

  unfoldable pub after_getlk : Session → Reply Found × World → Turn
  after_getlk s (fail e, w) = fails (record s { world = w })
  after_getlk s (ok found, w) =
      goes_on (print (report found.found_type found) (record s { world = w }))

  unfoldable pub after_setlk : Session → Reply Found × World → Session
  after_setlk s (ok found, w) =
      print (if s.vars.lock == b'u' then unlocked else got_lock) (record s { world = w })
  after_setlk s (fail e, w) =
      if e == eagain || e == eacces
      then print incompatible_lock (record s { world = w })
      else if e == edeadlk
      then print deadlock (record s { world = w })
      else record s { world = w }

  unfoldable pub perform : ℕ → Cmd → Flock → Session → Turn
  unfolding after_getlk after_setlk
  perform fd f_getlk fl s = after_getlk s (k.fcntl fd f_getlk fl s.world)
  perform fd f_setlk fl s = goes_on (after_setlk s (k.fcntl fd f_setlk fl s.world))
  perform fd f_setlkw fl s = goes_on (after_setlk s (k.fcntl fd f_setlkw fl s.world))

  unfoldable pub turn : ℕ → Line → Session → Turn
  unfolding perform
  turn fd blank s = goes_on s
  turn fd help s = goes_on (print command_format s)
  turn fd invalid s = goes_on (print invalid_command s)
  turn fd (request cmd fl) s = perform fd cmd fl s

  -- How the process ends: with EXIT_SUCCESS or not.
  pub data Exit : Type 0 where
    exits : (success : Bool) → Session → Exit

  unfoldable pub serve : ℕ → List (List ℕ) → Session → Exit
  unfolding turn
  serve fd [] s = exits true s
  serve fd (line ∷ lines) s =
      let (read, v) = read_line sscanf line s.vars in
      elim (turn fd read (record s { vars = v })) [
        | goes_on s' ↦ serve fd lines s'
        | fails s' ↦ exits false s'
      ]

  unfoldable pub after_open : List (List ℕ) → Vars → Reply ℕ × World → Exit
  after_open lines v (ok fd, w) = serve fd lines (record { vars = v; printed = []; world = w })
  after_open lines v (fail e, w) = exits false (record { vars = v; printed = []; world = w })

  -- `main` from the opening of the file on; `v` is what the variables hold before they are set.
  unfoldable pub main : List (List ℕ) → Vars → World → Exit
  unfolding after_open
  main lines v w = after_open lines v (k.open_file w)
