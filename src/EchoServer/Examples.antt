-- ===== src/EchoServer/Examples.antt =====
-- A run of webprogramming/tcpServer.c.
use linux_unix_system_progra.Prelude.{
  ℕ, ◌+◌, ◌≤◌, ◌≡◌, refl, ap, take-length, List, [], ◌∷◌, ◌++◌, take, drop, take-append-drop, sym,
  min, suc, length, length-eq-zero, length-take, arith, subst,
}
use linux_unix_system_progra.Syscall.{Reply, ok, returns}
use linux_unix_system_progra.HSocket.Kernel.{Kernel}
use linux_unix_system_progra.EchoServer.Defs.{main, connect_client, echo}
use linux_unix_system_progra.EchoServer.Echo.{Stream}

-- One connection, on which a read takes at most three bytes and a write all of them.
record Line : Type 0 where
  coming : List ℕ
  gone : List ℕ

abbrev line_read : ℕ → Line → Reply (List ℕ) × Line
line_read n l = (ok (take (min 3 n) l.coming), record l { coming = drop (min 3 n) l.coming })

abbrev line : Kernel
line = record {
  World = Line;
  Address = ℕ;
  socket = λ d t p l. (ok 3, l);
  bind = λ s a l. (ok 0, l);
  listen = λ s b l. (ok 0, l);
  connect = λ s a l. (ok 0, l);
  accept = λ s l. (ok (4, 0), l);
  read = λ fd n l. line_read n l;
  write = λ fd buf l. (ok (length buf), record l { gone = l.gone ++ buf });
  close = λ fd l. (ok 0, l);
}

abbrev ReadLaw : Line → Reply (List ℕ) → Line → Type 0
ReadLaw l (ok bs) l' = (l.coming ≡ bs ++ l'.coming) × (l'.gone ≡ l.gone)
ReadLaw l (Reply.fail e) l' = (l.coming ≡ l'.coming) × (l'.gone ≡ l.gone)

abbrev EndLaw : Line → Reply (List ℕ) → Line → Type 0
EndLaw l (ok bs) l' = length bs ≡ 0 → length l.coming ≡ 0
EndLaw l (Reply.fail e) l' = Unit

line_read-lem :
    (n : ℕ) (l l' : Line) (r : Reply (List ℕ)) → line_read n l ≡ (r, l') → ReadLaw l r l'
line_read-lem n l l' r q =
    subst (λ y. ReadLaw l y.0 y.1) q (sym (take-append-drop (min 3 n) l.coming), refl)

line_read_end :
    (n : ℕ) (l l' : Line) (r : Reply (List ℕ)) → line_read (suc n) l ≡ (r, l') → EndLaw l r l'
line_read_end n l l' r q =
    subst (λ y. EndLaw l y.0 y.1) q (λ h. omega (arith, length-take (min 3 (suc n)) l.coming))

abbrev WriteLaw : List ℕ → Line → Reply ℕ → Line → Type 0
WriteLaw buf l (ok n) l' =
    (n ≤ length buf) × (l'.coming ≡ l.coming) × (l'.gone ≡ l.gone ++ take n buf)
WriteLaw buf l (Reply.fail e) l' = (l'.coming ≡ l.coming) × (l'.gone ≡ l.gone)

line_write-lem :
    (buf : List ℕ) (l l' : Line) (r : Reply ℕ) → line.write 4 buf l ≡ (r, l') → WriteLaw buf l r l'
line_write-lem buf l l' r q =
    subst (λ y. WriteLaw buf l y.0 y.1) q
      (omega arith, refl, ap (λ x. l.gone ++ x) (sym (take-length (length buf) buf (omega arith))))

abbrev line_stream : Stream line
line_stream = record {
  incoming = λ l fd. l.coming;
  sent = λ l fd. l.gone;
  read_ok = λ fd n l l' bs q. line_read-lem n l l' (ok bs) q;
  read_end = λ fd n l l' q. length-eq-zero l.coming (line_read_end n l l' (ok []) q refl);
  read_fail = λ fd n e l l' q. line_read-lem n l l' (Reply.fail e) q;
  write_ok = λ fd n buf l l' q. line_write-lem buf l l' (ok n) q;
  write_fail = λ fd e buf l l' q. line_write-lem buf l l' (Reply.fail e) q;
  close_keeps = λ fd fd' l. refl;
}

abbrev five_bytes : Line
five_bytes = record { coming = 1 ∷ 2 ∷ 3 ∷ 4 ∷ 5 ∷ []; gone = [] }

echo_runs :
    main line (λ b. b + 32) 9 8888 five_bytes
    ≡ returns 0 (record { coming = []; gone = 33 ∷ 34 ∷ 35 ∷ 36 ∷ 37 ∷ [] })
unfolding main connect_client echo
echo_runs = refl
