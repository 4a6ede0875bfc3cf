-- ===== src/Clients/Conversation.antt =====
-- webprogramming/tcpClient.c with a server that sends every message back in capitals, as that of
-- webprogramming/tcpServer.c does.
use linux_unix_system_progra.Prelude.{
  ℕ, zero, suc, ◌<◌, ◌≤◌, ◌≡◌, ◌≢◌, refl, sym, ap, subst, ◌∙◌, List, [], ◌∷◌, ◌++◌, map, length,
  drop, some, none, arith, append-nil, append_assoc,
}
use linux_unix_system_progra.Syscall.{ok}
use linux_unix_system_progra.HSocket.Kernel.{Kernel}
use linux_unix_system_progra.Clients.Defs.{
  Terminal, Client, Turn, goes_on, still, c_string, store, tcp_buf_size, after_read, after_write,
  after_fgets, tcp_round, rounds,
}
use linux_unix_system_progra.Clients.Texts.{
  c_string-stored, drop-stored, length-map, c_string-capitals, c_string-answered,
}

-- A terminal with lines to read, `lines`, of which fgets gives those that fit into its buffer, and a connection on which every message of at most `limit`
-- bytes is answered at once; `pending` are the bytes that are under way.
pub record Answering (k : Kernel) (term : Terminal k) (toupper : ℕ → ℕ) (limit sfd : ℕ)
    : Type 0 where
  pub lines : k.World → List (List ℕ)
  pub pending : k.World → List ℕ
  pub fgets_line :
      (n : ℕ) (w : k.World) (l : List ℕ) (ls : List (List ℕ))
      → lines w ≡ l ∷ ls
      → length l < n
      → (w' : k.World) × (term.fgets n w ≡ (some l, w'))
        × (lines w' ≡ ls)
        × (pending w' ≡ pending w)
  pub fgets_end :
      (n : ℕ) (w : k.World)
      → lines w ≡ []
      → (w' : k.World) × (term.fgets n w ≡ (none, w')) × (lines w' ≡ []) × (pending w' ≡ pending w)
  pub answered :
      (n : ℕ) (buf : List ℕ) (w : k.World)
      → pending w ≡ []
      → 0 < length buf
      → length buf ≤ limit
      → limit ≤ n
      → (w1 w2 : k.World) × (k.write sfd buf w ≡ (ok (length buf), w1))
        × (k.read sfd n w1 ≡ (ok (map toupper buf), w2))
        × (lines w2 ≡ lines w)
        × (pending w2 ≡ [])

-- What fgets gives, a line that is not empty; with no byte 0, and of at most `limit` bytes.
pub record IsLine (limit : ℕ) (l : List ℕ) : Type 0 where
  pub some_bytes : 0 < length l
  pub no_zero : c_string l ≡ l
  pub fits : length l ≤ limit

pub data AllLines (limit : ℕ) : List (List ℕ) → Type 0 where
  nil : AllLines limit []
  cons :
      {l : List ℕ} {ls : List (List ℕ)}
      → IsLine limit l
      → AllLines limit ls
      → AllLines limit (l ∷ ls)

pub rounds-goes_on :
    (k : Kernel) (term : Terminal k) (fuel : ℕ) (round : Client k term → Turn k term)
    (c c' : Client k term)
    → round c ≡ goes_on c'
    → rounds k term (suc fuel) round c ≡ rounds k term fuel round c'
unfolding rounds
rounds-goes_on k term fuel round c c' e = rw (e, rounds) refl

module _ (toupper : ℕ → ℕ) (keeps : (b : ℕ) → toupper (suc b) ≢ 0) where
  module _ (k : Kernel) (term : Terminal k) (limit sfd : ℕ)
      (peer : Answering k term toupper limit sfd) (small : limit < tcp_buf_size) where
    open k use {World}
    open peer use {lines, pending}

    -- A text that is not empty is sent, and its answer read over it and shown.
    exchange :
        (c : Client k term) (b : ℕ) (bs : List ℕ)
        → pending c.world ≡ []
        → length (b ∷ bs) ≤ limit
        → (w : World) × (after_write k term sfd c (k.write sfd (b ∷ bs) c.world)
            ≡ goes_on (record {
              buf = store (map toupper (b ∷ bs)) c.buf;
              shown = c.shown ++ c_string (store (map toupper (b ∷ bs)) c.buf) ∷ [];
              world = w;
            }))
          × (lines w ≡ lines c.world)
          × (pending w ≡ [])
    unfolding after_write after_read
    exchange c b bs none_pending fits =
        let (w1, w2, e1, e2, l, p) =
          peer.answered tcp_buf_size (b ∷ bs) c.world none_pending (omega arith) fits
            (omega (arith, small)) in
        (w2, rw (e1, e2) refl, l, p)

    line_round :
        (c : Client k term) (l : List ℕ) (ls : List (List ℕ))
        → IsLine limit l
        → lines c.world ≡ l ∷ ls
        → pending c.world ≡ []
        → (c' : Client k term) × (tcp_round k term sfd c ≡ goes_on c')
          × (c'.shown ≡ c.shown ++ map toupper l ∷ [])
          × (lines c'.world ≡ ls)
          × (pending c'.world ≡ [])
          × (0 < length (c_string c'.buf))
          × (length (c_string c'.buf) ≤ limit)
    unfolding tcp_round after_fgets
    line_round c [] ls ok_line e p = absurd (omega (arith, ok_line.some_bytes))
    line_round c (b ∷ bs) ls ok_line e p =
        let l = b ∷ bs in
        let (w1, e1, l1, p1) =
          peer.fgets_line tcp_buf_size c.world l ls e (omega (arith, ok_line.fits, small)) in
        let r = drop (length (l ++ 0 ∷ [])) c.buf in
        let stored = (l ++ 0 ∷ []) ++ r in
        let sender : Client k term = record c { buf = stored; world = w1 } in
        let (w2, e2, l2, p2) = exchange sender b bs (p1 ∙ p) (omega (arith, ok_line.fits)) in
        let n = length-map toupper l in
        let behind : drop (length (map toupper l)) stored ≡ 0 ∷ r =
          subst (λ m. drop m stored ≡ 0 ∷ r) (sym n) (drop-stored l r) in
        let text : c_string (store (map toupper l) stored) ≡ map toupper l =
          rw behind (c_string-capitals toupper keeps l r ok_line.no_zero) in
        (
          record {
            buf = store (map toupper l) stored;
            shown = c.shown ++ c_string (store (map toupper l) stored) ∷ [];
            world = w2;
          },
          rw (e1, c_string-stored l r ok_line.no_zero, e2) refl,
          rw text refl,
          l2 ∙ l1,
          p2,
          rw text (omega (arith, n, ok_line.some_bytes)),
          rw text (omega (arith, n, ok_line.fits)),
        )

    end_round :
        (c : Client k term)
        → lines c.world ≡ []
        → pending c.world ≡ []
        → 0 < length (c_string c.buf)
        → length (c_string c.buf) ≤ limit
        → (c' : Client k term) × (tcp_round k term sfd c ≡ goes_on c')
          × (lines c'.world ≡ [])
          × (pending c'.world ≡ [])
          × (c_string c'.buf ≡ map toupper (c_string c.buf))
    unfolding tcp_round after_fgets
    end_round c e p some_text fits = at (c_string c.buf) refl
      where
        at :
            (t : List ℕ)
            → c_string c.buf ≡ t
            → (c' : Client k term) × (tcp_round k term sfd c ≡ goes_on c')
              × (lines c'.world ≡ [])
              × (pending c'.world ≡ [])
              × (c_string c'.buf ≡ map toupper (c_string c.buf))
        at [] q = absurd (omega (arith, ap length q))
        at (b ∷ bs) q =
            let (w1, e1, l1, p1) = peer.fgets_end tcp_buf_size c.world e in
            let (w2, e2, l2, p2) =
              exchange (record c { world = w1 }) b bs (p1 ∙ p) (omega (arith, ap length q)) in
            (
              record {
                buf = store (map toupper (b ∷ bs)) c.buf;
                shown = c.shown ++ c_string (store (map toupper (b ∷ bs)) c.buf) ∷ [];
                world = w2;
              },
              rw (e1, q, e2) refl,
              l2 ∙ l1,
              p2,
              subst (λ t. c_string (store (map toupper t) c.buf) ≡ map toupper (c_string c.buf)) q
                  (c_string-answered toupper keeps c.buf),
            )

    -- Lines that are typed in are sent one by one, and after as many rounds as there are lines each
    -- of them was shown in capitals, in the order in which they came.
    pub rounds-shown :
        (ls : List (List ℕ)) (c : Client k term)
        → AllLines limit ls
        → lines c.world ≡ ls
        → pending c.world ≡ []
        → (c' : Client k term) × (rounds k term (length ls) (tcp_round k term sfd) c ≡ still c')
          × (c'.shown ≡ c.shown ++ map (map toupper) ls)
          × (lines c'.world ≡ [])
          × (pending c'.world ≡ [])
    unfolding rounds
    rounds-shown [] c nil e p = (c, refl, sym (append-nil c.shown), e, p)
    rounds-shown (l ∷ ls) c (cons h hs) e p =
        let (c1, e1, s1, l1, p1, some_text, fits) = line_round c l ls h e p in
        let (c2, e2, s2, l2, p2) = rounds-shown ls c1 hs l1 p1 in
        (
          c2,
          rounds-goes_on k term (length ls) (tcp_round k term sfd) c c1 e1 ∙ e2,
          rw (s2, s1) (append_assoc c.shown (map toupper l ∷ []) (map (map toupper) ls)),
          l2,
          p2,
        )

    -- At the end of the input the client sends the text in its buffer, which is the last answer, again
    -- and again: its loop does not end in any number of rounds.
    pub rounds_forever :
        (fuel : ℕ) (c : Client k term)
        → lines c.world ≡ []
        → pending c.world ≡ []
        → 0 < length (c_string c.buf)
        → length (c_string c.buf) ≤ limit
        → (c' : Client k term) × (rounds k term fuel (tcp_round k term sfd) c ≡ still c')
    unfolding rounds
    rounds_forever zero c e p some_text fits = (c, refl)
    rounds_forever (suc fuel) c e p some_text fits =
        let (c1, e1, l1, p1, t) = end_round c e p some_text fits in
        let n = length-map toupper (c_string c.buf) in
        let (c2, e2) =
          rounds_forever fuel c1 l1 p1 (rw t (omega (arith, n))) (rw t (omega (arith, n))) in
        (c2, rounds-goes_on k term fuel (tcp_round k term sfd) c c1 e1 ∙ e2)
