-- ===== src/Clients/Examples.antt =====
-- A dialogue of webprogramming/tcpClient.c.
use linux_unix_system_progra.Prelude.{
  ℕ, suc, ◌+◌, ◌≤◌, ◌≡◌, ◌≢◌, refl, List, [], ◌∷◌, ◌++◌, map, length, drop, take, Option, some,
  none, arith, ◌∙◌, take-length, drop-length,
}
use linux_unix_system_progra.Syscall.{ok}
use linux_unix_system_progra.HSocket.Kernel.{Kernel}
use linux_unix_system_progra.Clients.Defs.{Terminal}
use linux_unix_system_progra.Clients.Texts.{length-map}
use linux_unix_system_progra.Clients.Conversation.{Answering}

-- What is typed in, and the answers that are under way.
record Desk : Type 0 where
  typed : List (List ℕ)
  coming : List ℕ

abbrev capital : ℕ → ℕ
capital b = b + 32

abbrev typed_line : List (List ℕ) → Desk → Option (List ℕ) × Desk
typed_line [] d = (none, d)
typed_line (l ∷ ls) d = (some l, record d { typed = ls })

abbrev desk : Kernel
desk = record {
  World = Desk;
  Address = ℕ;
  socket = λ d t p w. (ok 3, w);
  bind = λ s a w. (ok 0, w);
  listen = λ s b w. (ok 0, w);
  connect = λ s a w. (ok 0, w);
  accept = λ s w. (ok (4, 0), w);
  read = λ fd n w. (ok (take n w.coming), record w { coming = drop n w.coming });
  write = λ fd buf w. (ok (length buf), record w { coming = w.coming ++ map capital buf });
  close = λ fd w. (ok 0, w);
}

abbrev keyboard : Terminal desk
keyboard = record { fgets = λ n w. typed_line w.typed w }

typed_line_lem :
    (ts : List (List ℕ)) (w : Desk) (l : List ℕ) (ls : List (List ℕ))
    → ts ≡ l ∷ ls
    → (w' : Desk) × (typed_line ts w ≡ (some l, w')) × (w'.typed ≡ ls) × (w'.coming ≡ w.coming)
typed_line_lem ts w l ls e = (record w { typed = ls }, rw e refl, refl, refl)

typed_line_end :
    (ts : List (List ℕ)) (w : Desk)
    → w.typed ≡ ts
    → ts ≡ []
    → (w' : Desk) × (typed_line ts w ≡ (none, w')) × (w'.typed ≡ []) × (w'.coming ≡ w.coming)
typed_line_end ts w q e = (w, rw e refl, q ∙ e, refl)

answered_lem :
    (n : ℕ) (buf : List ℕ) (w : Desk)
    → w.coming ≡ []
    → length buf ≤ n
    → (w1 w2 : Desk) × (desk.write 3 buf w ≡ (ok (length buf), w1))
      × (desk.read 3 n w1 ≡ (ok (map capital buf), w2))
      × (w2.typed ≡ w.typed)
      × (w2.coming ≡ [])
answered_lem n buf w none_coming fits =
    let fits_answer : length (map capital buf) ≤ n = omega (arith, length-map capital buf, fits) in
    let coming : w.coming ++ map capital buf ≡ map capital buf = rw none_coming refl in
    (
      record w { coming = w.coming ++ map capital buf },
      record w { coming = drop n (w.coming ++ map capital buf) },
      refl,
      rw (coming, take-length n (map capital buf) fits_answer) refl,
      refl,
      rw coming (drop-length n (map capital buf) fits_answer),
    )

abbrev answering : Answering desk keyboard capital 1024 3
answering = record {
  lines = λ w. w.typed;
  pending = λ w. w.coming;
  fgets_line = λ n w l ls e h. typed_line_lem w.typed w l ls e;
  fgets_end = λ n w e. typed_line_end w.typed w refl e;
  answered = λ n buf w p pos fits small. answered_lem n buf w p (omega (arith, fits, small));
}

capital-keeps : (b : ℕ) → capital (suc b) ≢ 0
capital-keeps b e = omega arith
