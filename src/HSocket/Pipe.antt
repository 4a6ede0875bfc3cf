-- ===== src/HSocket/Pipe.antt =====
-- A connection to run `WriteN` and `ReadN` on: one queue, written whole and read by a script of short
-- transfers and interrupts.
use linux_unix_system_progra.Prelude.{
  ℕ, ◌≤◌, ◌≡◌, refl, List, [], ◌++◌, arith, length, take, take-length, length-eq-zero,
}
use linux_unix_system_progra.Syscall.{Reply, ok, fail, eintr}
use linux_unix_system_progra.HSocket.Kernel.{Kernel, Inbound, Outbound}
use linux_unix_system_progra.HSocket.Wire.{Wire, wire, wire_read-lem, wire_read_end, law_at}

abbrev pub pipe_write : List ℕ → Wire → Reply ℕ × Wire
pipe_write buf w = (ok (length buf), record w { coming = w.coming ++ buf })

abbrev pub pipe : Kernel
pipe = record wire { write = λ fd buf w. pipe_write buf w }

abbrev pub PutLaw : List ℕ → Wire → Reply ℕ → Wire → Type 0
PutLaw buf w (ok n) w' =
    (w'.coming ≡ w.coming ++ take n buf) × (n ≤ length buf) × (length w'.script ≤ length w.script)
PutLaw buf w (fail e) w' = ⊥

pub put_lem :
    (buf : List ℕ) (w w' : Wire) (r : Reply ℕ) → pipe_write buf w ≡ (r, w') → PutLaw buf w r w'
put_lem buf w w' r q =
    law_at (PutLaw buf w) q
      (rw (take-length (length buf) buf (omega arith)) refl, omega arith, omega arith)

abbrev pub pipe_in : Inbound pipe
pipe_in = record {
  incoming = λ w fd. w.coming;
  interrupts = λ w. length w.script;
  read_ok = λ fd n w w' bs q. wire_read-lem n w.script w w' (ok bs) refl q;
  read_end = λ fd n w w' q. length-eq-zero w.coming (wire_read_end n w.script w w' (ok []) q refl);
  read_fail = λ fd n e w w' q. (wire_read-lem n w.script w w' (fail e) refl q).0;
  read_interrupt = λ fd n w w' q. (wire_read-lem n w.script w w' (fail eintr) refl q).1;
}

abbrev pub pipe_out : Outbound pipe
pipe_out = record {
  sent = λ w fd. w.coming;
  interrupts = λ w. length w.script;
  write_ok = λ fd n buf w w' q. put_lem buf w w' (ok n) q;
  write_fail = λ fd e buf w w' q. absurd (put_lem buf w w' (fail e) q);
  write_interrupt = λ fd buf w w' q. absurd (put_lem buf w w' (fail eintr) q);
}
