-- ===== src/RecordLocks/Interactive/Requests.antt =====
-- i_fcntl_locking.c against the list of the requests that its input makes.
use linux_unix_system_progra.Prelude.{
  ℕ, ◌≤◌, ◌<◌, dec_lt, ◌≡◌, refl, ap, ◌∙◌, Bool, true, false, List, [], ◌∷◌, arith,
}
use linux_unix_system_progra.Syscall.{Reply, ok, fail}
use linux_unix_system_progra.RecordLocks.Kernel.{
  Cmd, f_getlk, f_setlk, f_setlkw, Flock, Found, Kernel,
}
use linux_unix_system_progra.RecordLocks.Command.{
  Vars, Line, blank, help, invalid, request, chop, read_text, read_line, is_invalid, scan,
  request_of,
}
use linux_unix_system_progra.RecordLocks.Interactive.{
  Session, Turn, goes_on, fails, Exit, exits, after_getlk, after_setlk, perform, turn, serve,
}

-- sscanf with the format of the program: how many items it reads depends on the text alone, and if
-- it reads the first four, it sets their variables.
pub record Scanning (sscanf : List ℕ → Vars → ℕ × Vars) : Type 0 where
  pub count : (text : List ℕ) (v v' : Vars) → (sscanf text v).0 ≡ (sscanf text v').0
  pub assigns :
      (text : List ℕ) (v v' : Vars)
      → 4 ≤ (sscanf text v).0
      → v.whence ≡ v'.whence
      → (sscanf text v).1 ≡ (sscanf text v').1

abbrev pub requested : Line → List (Cmd × Flock) → List (Cmd × Flock)
requested blank rest = rest
requested help rest = rest
requested invalid rest = rest
requested (request cmd fl) rest = (cmd, fl) ∷ rest

-- The requests of the lines, each read by itself, with the same values before it.
unfoldable pub requests : (List ℕ → Vars → ℕ × Vars) → Vars → List (List ℕ) → List (Cmd × Flock)
requests sscanf v [] = []
requests sscanf v (line ∷ lines) = requested (read_line sscanf line v).0 (requests sscanf v lines)

-- Behind an F_GETLK, which may not fail.
abbrev pub if_found : {W : Type 0} → Reply Found × W → (W → Bool × W) → Bool × W
if_found (ok found, w) next = next w
if_found (fail e, w) next = (false, w)

-- The requests one by one, up to the first F_GETLK that fails: whether there was none, and the
-- state of the kernel.
unfoldable pub execute : (k : Kernel) → ℕ → List (Cmd × Flock) → k.World → Bool × k.World
execute k fd [] w = (true, w)
execute k fd ((f_setlk, fl) ∷ rs) w = execute k fd rs (k.fcntl fd f_setlk fl w).1
execute k fd ((f_setlkw, fl) ∷ rs) w = execute k fd rs (k.fcntl fd f_setlkw fl w).1
execute k fd ((f_getlk, fl) ∷ rs) w = if_found (k.fcntl fd f_getlk fl w) (execute k fd rs)

module _ (sscanf : List ℕ → Vars → ℕ × Vars) (law : Scanning sscanf) where
  few_items : (n : ℕ) (v : Vars) → n < 4 → is_invalid n v ≡ true
  unfolding is_invalid
  few_items n v h = ground arith

  request_of-same :
      (text : List ℕ) (v v' : Vars)
      → request_of sscanf (scan sscanf text v) ≡ request_of sscanf (scan sscanf text v')
  request_of-same text v v' =
      let a = scan sscanf text v in
      let b = scan sscanf text v' in
      let n = law.count text (record v { whence = b's' }) (record v' { whence = b's' }) in
      elim (dec_lt a.0 4) [
        | yes few ↦ ground (arith, few_items a.0 a.1 few, few_items b.0 b.1 (omega (arith, n)))
        | no enough ↦ λ i. request_of sscanf (n i, variables enough i)
      ]
    where
      variables : ¬ ((scan sscanf text v).0 < 4) → (scan sscanf text v).1 ≡ (scan sscanf text v').1
      variables enough =
          law.assigns text (record v { whence = b's' }) (record v' { whence = b's' }) (omega arith)
            refl

  read_text-same :
      (text : List ℕ) (v v' : Vars) → (read_text sscanf text v).0 ≡ (read_text sscanf text v').0
  unfolding read_text
  read_text-same [] v v' = refl
  read_text-same (c ∷ cs) v v' = ground (arith, request_of-same (c ∷ cs) v v')

  read_line-same :
      (line : List ℕ) (v v' : Vars) → (read_line sscanf line v).0 ≡ (read_line sscanf line v').0
  unfolding read_line
  read_line-same line v v' = read_text-same (chop line) v v'

  module _ (k : Kernel) (fd : ℕ) where
    open k use {World}

    abbrev pub result : Exit k sscanf → Bool × World
    result (exits success s) = (success, s.world)

    abbrev after_turn : (Session k sscanf → Exit k sscanf) → Turn k sscanf → Exit k sscanf
    after_turn next (goes_on s) = next s
    after_turn next (fails s) = exits false s

    -- An answer to F_SETLK or F_SETLKW changes nothing but what is printed.
    after_setlk-world :
        (s : Session k sscanf) (x : Reply Found × World) → (after_setlk k sscanf s x).world ≡ x.1
    unfolding after_setlk
    after_setlk-world s (ok found, w) = refl
    after_setlk-world s (fail e, w) = ground arith

    after_getlk-execute :
        (s : Session k sscanf) (next : Session k sscanf → Exit k sscanf)
        (rest : World → Bool × World)
        → ((t : Session k sscanf) → result (next t) ≡ rest t.world)
        → (x : Reply Found × World)
        → result (after_turn next (after_getlk k sscanf s x)) ≡ if_found x rest
    unfolding after_getlk
    after_getlk-execute s next rest ih (fail e, w) = refl
    after_getlk-execute s next rest ih (ok found, w) = ih _

    turn-execute :
        (read : Line) (s : Session k sscanf) (next : Session k sscanf → Exit k sscanf)
        (rs : List (Cmd × Flock))
        → ((t : Session k sscanf) → result (next t) ≡ execute k fd rs t.world)
        → result (after_turn next (turn k sscanf fd read s))
          ≡ execute k fd (requested read rs) s.world
    unfolding turn perform execute
    turn-execute blank s next rs ih = ih s
    turn-execute help s next rs ih = ih _
    turn-execute invalid s next rs ih = ih _
    turn-execute (request f_getlk fl) s next rs ih =
        after_getlk-execute s next (execute k fd rs) ih (k.fcntl fd f_getlk fl s.world)
    turn-execute (request f_setlk fl) s next rs ih =
        ih _ ∙ ap (execute k fd rs) (after_setlk-world s (k.fcntl fd f_setlk fl s.world))
    turn-execute (request f_setlkw fl) s next rs ih =
        ih _ ∙ ap (execute k fd rs) (after_setlk-world s (k.fcntl fd f_setlkw fl s.world))

    -- The loop does to the locks exactly what the requests of its lines do one after the other, and
    -- ends in success exactly if no F_GETLK of them fails: blank lines, help and invalid commands do
    -- nothing, and no line depends on what the lines before it have left in the variables.
    pub serve-execute :
        (lines : List (List ℕ)) (s : Session k sscanf) (v : Vars)
        → result (serve k sscanf fd lines s) ≡ execute k fd (requests sscanf v lines) s.world
    unfolding serve requests execute
    serve-execute [] s v = refl
    serve-execute (line ∷ lines) s v =
        let read = read_line sscanf line s.vars in
        rw (← read_line-same line s.vars v) (
          turn-execute read.0 (record s { vars = read.1 }) (serve k sscanf fd lines)
            (requests sscanf v lines) (λ t. serve-execute lines t v))
