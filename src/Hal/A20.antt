-- ===== src/Hal/A20.antt =====
-- The test of the A20 line.
use mylysos.Base.{ℕ, ◌≡◌, ◌==◌, not, arith, update}
use mylysos.Hal.Devices.{test_a20}

-- HalpEnableA20 succeeds exactly if the addresses 0 and 1 MB are different words on the bus, and
-- in any case leaves the memory as it was.
pub test_a20_lem :
    (line : ℕ → ℕ) (m : ℕ → ℕ) (a : ℕ)
    → ((test_a20 line m).0 ≡ not (line 0x00000000 == line 0x00100000))
      × ((test_a20 line m).1 a ≡ m a)
unfolding test_a20 update
test_a20_lem line m a = (ground arith, ground arith)
