-- ===== src/Dialogue/Examples.antt =====
-- A dialogue of webprogramming/tcpClient.c and webprogramming/tcpServer.c over two queues.
use linux_unix_system_progra.Prelude.{
  ℕ, zero, suc, ◌-◌, ◌<◌, ◌≡◌, ◌≢◌, refl, sym, ap, ◌∙◌, List, [], ◌∷◌, ◌++◌, map, length, drop,
  take, Option, some, none, arith, ltb, ◌==◌, ◌&&◌, if◌then◌else◌,
}
use linux_unix_system_progra.Syscall.{Reply, ok, Result, returns, exits, unfinished}
use linux_unix_system_progra.HSocket.Kernel.{Kernel}
use linux_unix_system_progra.Clients.Defs.{Terminal, Client, still, tcp_round, rounds, c_string}
use linux_unix_system_progra.Clients.Conversation.{IsLine, nil, cons}
use linux_unix_system_progra.EchoServer.Defs.{buf_size, after_read}
use linux_unix_system_progra.Dialogue.Connection.{turn, Connection}
use linux_unix_system_progra.Dialogue.Lines.{dialogue}
use linux_unix_system_progra.Dialogue.Stop.{Upstream}

record Net : Type 0 where
  typed : List (List ℕ)
  up : List ℕ
  down : List ℕ

-- toupper in the C locale.
abbrev capital : ℕ → ℕ
capital b = if ltb 96 b && ltb b 123 then b - 32 else b

capital-keeps : (b : ℕ) → capital (suc b) ≢ 0
capital-keeps b e = ground (arith, e)

-- What a turn of the server does.
abbrev moved : Net → Net
moved w = record w { up = drop 1024 w.up; down = w.down ++ map capital (take 1024 w.up) }

abbrev settled : List ℕ → Net → Net
settled [] w = moved w
settled (b ∷ bs) w = w

abbrev read_down : ℕ → Net → Reply (List ℕ) × Net
read_down n w = (ok (take n w.down), record w { down = drop n w.down })

abbrev read_up : ℕ → Net → Reply (List ℕ) × Net
read_up n w = (ok (take n w.up), record w { up = drop n w.up })

-- The descriptor of the client is 3, that of the server 4.
abbrev net : Kernel
net = record {
  World = Net;
  Address = ℕ;
  socket = λ d t p w. (ok 3, w);
  bind = λ s a w. (ok 0, w);
  listen = λ s b w. (ok 0, w);
  connect = λ s a w. (ok 0, w);
  accept = λ s w. (ok (4, 0), w);
  read = λ fd n w. if fd == 3 then read_down n (settled w.down w) else read_up n w;
  write = λ fd buf w. (
    ok (length buf),
    if fd == 3 then record w { up = w.up ++ buf } else record w { down = w.down ++ buf },
  );
  close = λ fd w. (ok 0, w);
}

abbrev typed_line : List (List ℕ) → Net → Option (List ℕ) × Net
typed_line [] w = (none, w)
typed_line (l ∷ ls) w = (some l, record w { typed = ls })

abbrev keyboard : Terminal net
keyboard = record { fgets = λ n w. typed_line w.typed w }

typed_line_lem :
    (ts : List (List ℕ)) (w : Net) (l : List ℕ) (ls : List (List ℕ))
    → ts ≡ l ∷ ls
    → (w' : Net) × (typed_line ts w ≡ (some l, w'))
      × (w'.typed ≡ ls)
      × (w'.up ≡ w.up)
      × (w'.down ≡ w.down)
typed_line_lem ts w l ls e = (record w { typed = ls }, rw e refl, refl, refl, refl)

typed_line_end :
    (ts : List (List ℕ)) (w : Net)
    → w.typed ≡ ts
    → ts ≡ []
    → (w' : Net) × (typed_line ts w ≡ (none, w'))
      × (w'.typed ≡ [])
      × (w'.up ≡ w.up)
      × (w'.down ≡ w.down)
typed_line_end ts w q e = (w, rw e refl, q ∙ e, refl, refl)

settled_lem : (d : List ℕ) (w : Net) → 0 < length d → settled d w ≡ w
settled_lem [] w h = absurd (omega arith)
settled_lem (b ∷ bs) w h = refl

world_of : Net → Result {0, 0} Net Unit → Net
world_of d (returns u w) = w
world_of d (exits w) = w
world_of d unfinished = d

waits_lem :
    (ts : List (List ℕ)) (up : List ℕ) (n : ℕ) (w' : Net)
    → turn net capital 4 (record { typed = ts; up = up; down = [] }) ≡ returns tt w'
    → net.read 3 n (record { typed = ts; up = up; down = [] }) ≡ net.read 3 n w'
unfolding turn after_read world_of
waits_lem ts [] n w' e = ap (net.read 3 n) (ap (world_of w') e)
waits_lem ts (b ∷ bs) n w' e = ap (net.read 3 n) (ap (world_of w') e)

waits :
    (n : ℕ) (w w' : Net)
    → w.down ≡ []
    → turn net capital 4 w ≡ returns tt w'
    → net.read 3 n w ≡ net.read 3 n w'
waits n w w' e q =
    let same : w ≡ record w { down = [] } = ap (λ d. record w { down = d }) e in
    ap (net.read 3 n) same ∙ waits_lem w.typed w.up n w' (ap (turn net capital 4) (sym same) ∙ q)

abbrev connected : Connection net keyboard capital 3 4
connected = record {
  lines = λ w. w.typed;
  to_server = λ w. w.up;
  to_client = λ w. w.down;
  fgets_line = λ n w l ls e h. typed_line_lem w.typed w l ls e;
  fgets_end = λ n w e. typed_line_end w.typed w refl e;
  client_write = λ buf w. (record w { up = w.up ++ buf }, refl, refl, refl, refl);
  client_read = λ n w h.
      (record w { down = drop n w.down }, rw (settled_lem w.down w h) refl, refl, refl, refl);
  client_waits = waits;
  server_read = λ n w h. (record w { up = drop n w.up }, refl, refl, refl, refl);
  server_write = λ buf w. (refl, refl, refl);
}

abbrev hello : List ℕ
hello = b'h' ∷ b'i' ∷ b'\n' ∷ []

hello-IsLine : IsLine buf_size hello
unfolding c_string
hello-IsLine = record { some_bytes = omega arith; no_zero = refl; fits = omega arith }

abbrev typing : List (List ℕ) → Client net keyboard
typing ls = record { buf = []; shown = []; world = record { typed = ls; up = []; down = [] } }

dialogue_example :
    (c' : Client net keyboard) × (rounds net keyboard 2
        (tcp_round net keyboard 3)
        (typing (hello ∷ hello ∷ []))
      ≡ still c')
    × (c'.shown ≡ map (map capital) (hello ∷ hello ∷ []))
    × (c'.world.up ≡ [])
    × (c'.world.down ≡ [])
dialogue_example =
    dialogue capital capital-keeps net keyboard 3 4 connected (hello ∷ hello ∷ [])
      (typing (hello ∷ hello ∷ [])) (cons hello-IsLine (cons hello-IsLine nil)) refl refl refl

repeated : ℕ → List ℕ
repeated zero = []
repeated (suc n) = b'h' ∷ repeated n

abbrev long : List ℕ
long = repeated 1026

abbrev upstream : Upstream net 3 4
upstream = record {
  unread = λ w. w.up;
  client_write = λ buf w. refl;
  server_read = λ n w h. (record w { up = drop n w.up }, refl, refl);
}

-- A line is unread when the user stops the client.
abbrev one_unread : Net
one_unread = record { typed = []; up = hello; down = [] }
