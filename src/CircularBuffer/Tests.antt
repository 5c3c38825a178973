-- ===== src/CircularBuffer/Tests.antt =====
-- Runs of the circular buffer, and its theorems at concrete buffers.
use opennan.Prelude.{◌≡◌, refl, true, false, List, [], ◌∷◌, arith}
use opennan.Prelude.Int.{pos, minus_one}
use opennan.CircularBuffer.Queue
use opennan.CircularBuffer.Queue.{Op, puts, overrides, gets}
use opennan.CircularBuffer.{CircularBuf, put, get}
use opennan.CircularBuffer.Inv.{IsValid}
use opennan.CircularBuffer.Items.{contents}
use opennan.CircularBuffer.Refine.{run, run_refines}

-- 8, then 9, round the end of the storage
abbrev wrapped : CircularBuf
wrapped = record { buffer = 9 ∷ 7 ∷ 8 ∷ []; head = 1; tail = 2; capacity = 3; full = false }

abbrev filled : CircularBuf
filled = record { buffer = 9 ∷ 7 ∷ 8 ∷ []; head = 1; tail = 1; capacity = 3; full = true }

abbrev calls : List Op
calls =
    puts 4 ∷ puts 5 ∷ gets 0 true ∷ gets 0 false ∷ gets 6 false ∷ gets 0 false ∷ gets 6 false ∷ []

wrapped-IsValid : IsValid wrapped
wrapped-IsValid = ground arith

filled-IsValid : IsValid filled
filled-IsValid = ground arith

run-wrapped :
    run wrapped calls
    ≡ (pos 0, 4)
      ∷ (minus_one, 5)
      ∷ (pos 0, 8)
      ∷ (pos 0, 8)
      ∷ (pos 0, 9)
      ∷ (pos 0, 4)
      ∷ (minus_one, 0)
      ∷ []
unfolding run put get
run-wrapped = refl

run_refines_example : run wrapped calls ≡ Queue.run 3 (contents wrapped) calls
run_refines_example = run_refines calls wrapped-IsValid
