-- ===== src/HSocket/Wire.antt =====
-- A kernel to run the functions of webprogramming/HSocket.c on: one stream in each direction, with
-- a script of short transfers and interrupts. It shows that the assumptions on a kernel can be met.
use linux_unix_system_progra.Prelude.{
  ℕ, zero, suc, ◌≤◌, ◌<◌, ◌≡◌, refl, Bool, true, false, List, [], ◌∷◌, ◌++◌, arith, length, take,
  drop, min, take-append-drop, length-take, sym, subst, length-eq-zero, take-length,
}
use linux_unix_system_progra.Syscall.{Reply, ok, fail, eintr, eagain}
use linux_unix_system_progra.HSocket.Kernel.{Kernel, Inbound, Outbound}

-- `0` in the script is an interrupt, `suc c` a transfer of at most `suc c` bytes.
pub record Wire : Type 0 where
  pub coming : List ℕ
  pub gone : List ℕ
  pub script : List ℕ
  pub opened : Bool

abbrev pub wire_read : ℕ → List ℕ → Wire → Reply (List ℕ) × Wire
wire_read n [] w = (ok (take n w.coming), record w { coming = drop n w.coming })
wire_read n (zero ∷ s) w = (fail eintr, record w { script = s })
wire_read n (suc c ∷ s) w = (
  ok (take (min (suc c) n) w.coming),
  record w { coming = drop (min (suc c) n) w.coming; script = s },
)

abbrev pub wire_write : List ℕ → List ℕ → Wire → Reply ℕ × Wire
wire_write buf [] w = (ok (length buf), record w { gone = w.gone ++ buf })
wire_write buf (zero ∷ s) w = (fail eintr, record w { script = s })
wire_write buf (suc c ∷ s) w = (
  ok (min (suc c) (length buf)),
  record w { gone = w.gone ++ take (min (suc c) (length buf)) buf; script = s },
)

abbrev pub wire_accept : List ℕ → Wire → Reply (ℕ × ℕ) × Wire
wire_accept [] w = (ok (7, 0), w)
wire_accept (zero ∷ s) w = (fail eagain, record w { script = s })
wire_accept (suc c ∷ s) w = (fail (suc c), record w { script = s })

abbrev pub wire_close : Bool → Wire → Reply ℕ × Wire
wire_close true w = (ok 0, record w { opened = false })
wire_close false w = (fail 9, w)

abbrev pub wire : Kernel
wire = record {
  World = Wire;
  Address = ℕ;
  socket = λ d t p w. (ok 3, w);
  bind = λ s a w. (ok 0, w);
  listen = λ s b w. (ok 0, w);
  connect = λ s a w. (ok 0, w);
  accept = λ s w. wire_accept w.script w;
  read = λ fd n w. wire_read n w.script w;
  write = λ fd buf w. wire_write buf w.script w;
  close = λ fd w. wire_close w.opened w;
}

abbrev pub ReadLaw : ℕ → Wire → Reply (List ℕ) → Wire → Type 0
ReadLaw n w (ok bs) w' =
    (w.coming ≡ bs ++ w'.coming) × (length bs ≤ n) × (length w'.script ≤ length w.script)
ReadLaw n w (fail e) w' = (w.coming ≡ w'.coming) × (length w'.script < length w.script)

-- From the answer as a function of the script to its law.
pub law_at :
    {A : Type 0} (P : Reply A → Wire → Type 0) {x : Reply A × Wire} {r : Reply A} {w' : Wire}
    → x ≡ (r, w')
    → P x.0 x.1
    → P r w'
law_at P q h = subst (λ y. P y.0 y.1) q h

pub wire_read-lem :
    (n : ℕ) (s : List ℕ) (w w' : Wire) (r : Reply (List ℕ))
    → w.script ≡ s
    → wire_read n s w ≡ (r, w')
    → ReadLaw n w r w'
wire_read-lem n [] w w' r e q =
    law_at (ReadLaw n w) q
      (sym (take-append-drop n w.coming), omega (arith, length-take n w.coming), omega arith)
wire_read-lem n (zero ∷ s) w w' r e q = law_at (ReadLaw n w) q (refl, rw e (omega arith))
wire_read-lem n (suc c ∷ s) w w' r e q = law_at (ReadLaw n w) q (
  sym (take-append-drop (min (suc c) n) w.coming),
  omega (arith, length-take (min (suc c) n) w.coming),
  rw e (omega arith),
)

-- An empty answer to a read of something means that nothing is coming.
abbrev pub EndLaw : Wire → Reply (List ℕ) → Wire → Type 0
EndLaw w (ok bs) w' = length bs ≡ 0 → length w.coming ≡ 0
EndLaw w (fail e) w' = Unit

pub wire_read_end :
    (n : ℕ) (s : List ℕ) (w w' : Wire) (r : Reply (List ℕ))
    → wire_read (suc n) s w ≡ (r, w')
    → EndLaw w r w'
wire_read_end n [] w w' r q = law_at (EndLaw w) q (λ h. omega (arith, length-take (suc n) w.coming))
wire_read_end n (zero ∷ s) w w' r q = law_at (EndLaw w) q tt
wire_read_end n (suc c ∷ s) w w' r q =
    law_at (EndLaw w) q (λ h. omega (arith, length-take (min (suc c) (suc n)) w.coming))

abbrev pub wire_in : Inbound wire
wire_in = record {
  incoming = λ w fd. w.coming;
  interrupts = λ w. length w.script;
  read_ok = λ fd n w w' bs q. wire_read-lem n w.script w w' (ok bs) refl q;
  read_end = λ fd n w w' q. length-eq-zero w.coming (wire_read_end n w.script w w' (ok []) q refl);
  read_fail = λ fd n e w w' q. (wire_read-lem n w.script w w' (fail e) refl q).0;
  read_interrupt = λ fd n w w' q. (wire_read-lem n w.script w w' (fail eintr) refl q).1;
}

abbrev pub WriteLaw : List ℕ → Wire → Reply ℕ → Wire → Type 0
WriteLaw buf w (ok n) w' =
    (w'.gone ≡ w.gone ++ take n buf) × (n ≤ length buf) × (length w'.script ≤ length w.script)
WriteLaw buf w (fail e) w' = (w'.gone ≡ w.gone) × (length w'.script < length w.script)

pub wire_write-lem :
    (buf s : List ℕ) (w w' : Wire) (r : Reply ℕ)
    → w.script ≡ s
    → wire_write buf s w ≡ (r, w')
    → WriteLaw buf w r w'
wire_write-lem buf [] w w' r e q =
    law_at (WriteLaw buf w) q
      (rw (take-length (length buf) buf (omega arith)), omega arith, omega arith)
wire_write-lem buf (zero ∷ s) w w' r e q = law_at (WriteLaw buf w) q (refl, rw e (omega arith))
wire_write-lem buf (suc c ∷ s) w w' r e q =
    law_at (WriteLaw buf w) q (refl, omega arith, rw e (omega arith))

abbrev pub wire_out : Outbound wire
wire_out = record {
  sent = λ w fd. w.gone;
  interrupts = λ w. length w.script;
  write_ok = λ fd n buf w w' q. wire_write-lem buf w.script w w' (ok n) refl q;
  write_fail = λ fd e buf w w' q. (wire_write-lem buf w.script w w' (fail e) refl q).0;
  write_interrupt = λ fd buf w w' q. (wire_write-lem buf w.script w w' (fail eintr) refl q).1;
}
