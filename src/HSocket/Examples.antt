-- ===== src/HSocket/Examples.antt =====
-- Runs of the functions of webprogramming/HSocket.c on the kernel of Wire.antt.
use linux_unix_system_progra.Prelude.{
  ℕ, ◌≡◌, refl, true, false, List, [], ◌∷◌, Option, some, arith, ◌↔◌,
}
use linux_unix_system_progra.Syscall.{ok, returns, exits, unfinished}
use linux_unix_system_progra.HSocket.Wrappers.{Accept, Read, Close}
use linux_unix_system_progra.HSocket.Transfer.{ReadN, WriteN}
use linux_unix_system_progra.HSocket.Transfer.Reading.{Filled, ReadN-Filled}
use linux_unix_system_progra.HSocket.Transfer.Writing.{Emitted, WriteN-Emitted}
use linux_unix_system_progra.HSocket.Retry.{Retried}
use linux_unix_system_progra.HSocket.Calls.{interrupted, Read-Retried}
use linux_unix_system_progra.HSocket.Transfer.RoundTrip.{Passed, WriteN-ReadN}
use linux_unix_system_progra.HSocket.Pipe.{pipe, pipe_in, pipe_out}
use linux_unix_system_progra.HSocket.Wire.{Wire, wire, wire_in, wire_out}

-- Five bytes are coming, in short reads with interrupts between them.
abbrev busy : Wire
busy = record {
  coming = 1 ∷ 2 ∷ 3 ∷ 4 ∷ 5 ∷ [];
  gone = [];
  script = 0 ∷ 2 ∷ 0 ∷ 1 ∷ 9 ∷ [];
  opened = true;
}

abbrev shut : Wire
shut = record busy { opened = false }

ReadN_runs :
    ReadN wire 20 4 4 busy
    ≡ returns (some 4, 1 ∷ 2 ∷ 3 ∷ 4 ∷ []) (record busy { coming = 5 ∷ []; script = [] })
unfolding ReadN
ReadN_runs = refl

-- A stream that ends early gives fewer bytes.
ReadN_short :
    ReadN wire 20 4 9 busy
    ≡ returns (some 5, 1 ∷ 2 ∷ 3 ∷ 4 ∷ 5 ∷ []) (record busy { coming = []; script = [] })
unfolding ReadN
ReadN_short = refl

WriteN_runs :
    WriteN wire 20 4 (7 ∷ 8 ∷ 9 ∷ []) busy
    ≡ returns (some 3) (record busy { gone = 7 ∷ 8 ∷ 9 ∷ []; script = 9 ∷ [] })
unfolding WriteN
WriteN_runs = refl

Accept_exits :
    Accept wire 9 3 (record busy { script = 0 ∷ 0 ∷ 4 ∷ [] }) ≡ exits (record busy { script = [] })
unfolding Accept
Accept_exits = refl

Close_shut : Close wire 99 4 shut ≡ unfinished
unfolding Close
Close_shut = refl

ReadN-Filled_example :
    (v : Option ℕ) × (all : List ℕ) × (w' : Wire) × (ReadN wire 20 4 4 busy ≡ returns (v, all) w')
    × Filled wire wire_in 4 4 busy v all w'
ReadN-Filled_example = ReadN-Filled wire wire_in 4 4 20 busy (omega arith)

WriteN-Emitted_example :
    (v : Option ℕ) × (w' : Wire) × (WriteN wire 20 4 (7 ∷ 8 ∷ 9 ∷ []) busy ≡ returns v w')
    × Emitted wire wire_out 4 3 (7 ∷ 8 ∷ 9 ∷ []) busy v w'
WriteN-Emitted_example = WriteN-Emitted wire wire_out 4 20 (7 ∷ 8 ∷ 9 ∷ []) busy (omega arith)

Read-Retried_example :
    ((fuel : ℕ) × (Read wire fuel 4 3 busy
        ≡ returns
            (ok (1 ∷ 2 ∷ []))
            (record busy { coming = 3 ∷ 4 ∷ 5 ∷ []; script = 0 ∷ 1 ∷ 9 ∷ [] })))
    ↔ Retried
        (wire.read 4 3)
        interrupted
        busy
        (ok (1 ∷ 2 ∷ []))
        (record busy { coming = 3 ∷ 4 ∷ 5 ∷ []; script = 0 ∷ 1 ∷ 9 ∷ [] })
Read-Retried_example = Read-Retried wire 4 3 busy _ (ok (1 ∷ 2 ∷ []))

-- A connection on which the reads are short and interrupted.
abbrev idle : Wire
idle = record busy { coming = []; script = 0 ∷ 2 ∷ 0 ∷ 9 ∷ [] }

abbrev message : List ℕ
message = 7 ∷ 8 ∷ 9 ∷ []

wrote : WriteN pipe 20 4 message idle ≡ returns (some 3) (record idle { coming = message })
unfolding WriteN
wrote = refl

WriteN-ReadN_example :
    (v : Option ℕ) × (all : List ℕ) × (w2 : Wire) × (ReadN pipe 20 5 3
        (record idle { coming = message })
      ≡ returns (v, all) w2)
    × Passed pipe pipe_in pipe_out 4 5 (λ w. refl) message v all w2
WriteN-ReadN_example =
    WriteN-ReadN pipe pipe_in pipe_out 4 5 (λ w. refl) 20 20 3 message idle
      (record idle { coming = message }) refl (omega arith) wrote (omega arith)
