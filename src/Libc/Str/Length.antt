-- ===== src/Libc/Str/Length.antt =====
-- `strlen` against the first zero byte.
use cosmo.Libc.Str.{strlen, strlen_from}
use cosmo.Memory.{Memory, load8}
use cosmo.Prelude.{ℕ, zero, suc, ◌+◌, ◌≤◌, ◌<◌, ◌≡◌, ◌≢◌, arith, some}

strlen_from_lem :
    (m : Memory) (str len n fuel : ℕ)
    → len ≤ n
    → n < len + fuel
    → load8 m (str + n) ≡ 0
    → ((k : ℕ) → k < n → load8 m (str + k) ≢ 0)
    → strlen_from m str len fuel ≡ some n
unfolding strlen_from
strlen_from_lem m str len n zero p q e h = absurd (omega arith)
strlen_from_lem m str len n (suc fuel) p q e h =
    ground (arith, h len, strlen_from_lem m str (len + 1) n fuel)

-- With more rounds than the text is long, `strlen` returns the index of the first zero byte.
pub strlen_lem :
    (fuel : ℕ) (m : Memory) (str n : ℕ)
    → n < fuel
    → load8 m (str + n) ≡ 0
    → ((k : ℕ) → k < n → load8 m (str + k) ≢ 0)
    → strlen fuel m str ≡ some n
unfolding strlen
strlen_lem fuel m str n p e h = strlen_from_lem m str 0 n fuel (omega arith) (omega arith) e h
