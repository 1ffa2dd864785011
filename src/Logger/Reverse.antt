-- ===== src/Logger/Reverse.antt =====
-- `LogBufferReverse` cell by cell.
use cosmo.Logger.{reverse_from}
use cosmo.Memory.{Memory, load8, store8}
use cosmo.Prelude.{ℕ, zero, suc, ◌+◌, ◌-◌, ◌≡◌, arith, leb, ◌&&◌, if◌then◌else◌}

-- The cell `k` after the loop from `i` and `j`, as a byte.
pub reverse_from_lem :
    (log_buffer : Memory) (i j k : ℕ)
    → load8 (reverse_from log_buffer i j) k
      ≡ (if leb i k && leb k j then load8 log_buffer (i + j - k) else load8 log_buffer k)
unfolding reverse_from
reverse_from_lem log_buffer i zero k = ground arith
reverse_from_lem log_buffer i (suc j) k = ground (
  arith,
  reverse_from_lem
      (store8 (store8 log_buffer i (load8 log_buffer (suc j))) (suc j) (load8 log_buffer i)) (i + 1)
      j k,
)
