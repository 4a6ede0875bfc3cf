-- ===== src/HSocket/Transfer/RoundTrip.antt =====
-- webprogramming/HSocket.c: `WriteN` at one end of a connection and `ReadN` at the other.
use linux_unix_system_progra.Prelude.{
  ℕ, ◌+◌, ◌<◌, ◌≡◌, refl, sym, ap, subst, ◌∙◌, List, [], ◌++◌, Option, none, some, length,
  take-length, drop-length, arith,
}
use linux_unix_system_progra.Syscall.{Result, returns, exits, unfinished}
use linux_unix_system_progra.HSocket.Kernel.{Kernel, Inbound, Outbound}
use linux_unix_system_progra.HSocket.Transfer.{ReadN, WriteN}
use linux_unix_system_progra.HSocket.Transfer.Reading.{Filled, ReadN-Filled}
use linux_unix_system_progra.HSocket.Transfer.Writing.{Emitted, WriteN-Emitted}

-- `wr` and `rd` are the ends of a connection that carries bytes from `wr` to `rd`: what was sent, and is
-- not read yet, is coming.
module _ (k : Kernel) (inb : Inbound k) (out : Outbound k) (wr rd : ℕ)
    (connected : (w : k.World) → out.sent w wr ≡ inb.incoming w rd) where
  open k use {World}
  open inb use {incoming}

  -- `ReadN` returned `v` with `all` in its buffer, after `buf` was written: all of it has come, or, at
  -- an error, the rest of it is still to be read.
  abbrev pub Passed : List ℕ → Option ℕ → List ℕ → World → Type 0
  Passed buf (some n) all w = (n ≡ length buf) × (all ≡ buf) × (incoming w rd ≡ [])
  Passed buf none all w = (buf ≡ all ++ incoming w rd) × (length all < length buf)

  Filled-Passed :
      (buf : List ℕ) (w w' : World) (v : Option ℕ) (all : List ℕ)
      → incoming w rd ≡ buf
      → Filled k inb rd (length buf) w v all w'
      → Passed buf v all w'
  Filled-Passed buf w w' none all e (split, less) = (sym e ∙ split, less)
  Filled-Passed buf w w' (some n) all e (count, got, left) =
      let same : all ≡ buf = got ∙ rw (e) (take-length (length buf) buf (omega arith)) in
      (count ∙ ap length same, same, left ∙ rw (e) (drop-length (length buf) buf (omega arith)))

  -- The bytes that a successful `WriteN` took are on the way.
  Emitted-incoming :
      (buf : List ℕ) (w w' : World) (n : ℕ)
      → incoming w rd ≡ []
      → Emitted k out wr (length buf) buf w (some n) w'
      → incoming w' rd ≡ buf
  Emitted-incoming buf w w' n idle (count, sent) =
      sym (connected w') ∙ sent ∙ rw (connected w, idle) refl

  value_of : (d : World) → Result World (Option ℕ) → Option ℕ × World
  value_of d (returns v w) = (v, w)
  value_of d (exits w) = (none, w)
  value_of d unfinished = (none, d)

  -- Over an idle connection, what a successful `WriteN` sends `ReadN` of as many bytes gets, with fuel
  -- for the bytes and the interrupts to come: the same bytes in the same order, and none is left. At
  -- an error of `ReadN` the bytes that it has not stored are still to be read.
  pub WriteN-ReadN :
      (fuel fuel' n : ℕ) (buf : List ℕ) (w w1 : World)
      → incoming w rd ≡ []
      → length buf + out.interrupts w < fuel
      → WriteN k fuel wr buf w ≡ returns (some n) w1
      → length buf + inb.interrupts w1 < fuel'
      → (v : Option ℕ) × (all : List ℕ) × (w2 : World) × (ReadN k fuel' rd (length buf) w1
          ≡ returns (v, all) w2)
        × Passed buf v all w2
  unfolding value_of
  WriteN-ReadN fuel fuel' n buf w w1 idle enough wrote enough' =
      let (x, u, e, sent) = WriteN-Emitted k out wr fuel buf w enough in
      let same : (x, u) ≡ (some n, w1) = ap (value_of w) (sym e ∙ wrote) in
      let sent' = subst (λ p. Emitted k out wr (length buf) buf w p.0 p.1) same sent in
      let (v, all, w2, r, filled) = ReadN-Filled k inb rd (length buf) fuel' w1 enough' in
      (v, all, w2, r, Filled-Passed buf w1 w2 v all (Emitted-incoming buf w w1 n idle sent') filled)
