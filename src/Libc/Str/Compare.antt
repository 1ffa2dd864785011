-- ===== src/Libc/Str/Compare.antt =====
-- `memcmp` against the order by the first different byte.
use cosmo.Libc.Str.{memcmp, memcmp_from}
use cosmo.Memory.{Memory, load8}
use cosmo.Prelude.{
  ℕ, zero, suc, ◌+◌, ◌≤◌, ◌<◌, ◌≡◌, arith, ℤ, pos, negsuc, ltb, Bool-cases, inl, inr, ◌⊎◌, ap, ◌∙◌,
  sym,
}

-- The bytes of the two ranges agree from index `i` up to index `j`.
abbrev pub Agree : Memory → ℕ → ℕ → ℕ → ℕ → Type 0
Agree m a b i j = (k : ℕ) → i ≤ k → k < j → load8 m (a + k) ≡ load8 m (b + k)

-- `r` says how the ranges compare from index `i` up to `n`.
abbrev pub Compares : Memory → ℕ → ℕ → ℕ → ℕ → ℤ → Type 0
Compares m a b i n (pos zero) = Agree m a b i n
Compares m a b i n (pos (suc r)) =
    (j : ℕ) × (j < n) × Agree m a b i j × (load8 m (b + j) < load8 m (a + j))
Compares m a b i n (negsuc r) =
    (j : ℕ) × (j < n) × Agree m a b i j × (load8 m (a + j) < load8 m (b + j))

module _ (m : Memory) (a b : ℕ) where
  Agree-cons :
      (i j : ℕ) → load8 m (a + i) ≡ load8 m (b + i) → Agree m a b (i + 1) j → Agree m a b i j
  Agree-cons i j e h k p q = elim (split k p) [
    | inl f ↦ ap (λ t. load8 m (a + t)) f ∙ e ∙ ap (λ t. load8 m (b + t)) (sym f)
    | inr g ↦ h k g q
  ]
    where
      split : (k : ℕ) → i ≤ k → (k ≡ i) ⊎ (i + 1 ≤ k)
      split k p = grind arith

  Compares-cons :
      (i n : ℕ) (r : ℤ)
      → load8 m (a + i) ≡ load8 m (b + i)
      → Compares m a b (i + 1) n r
      → Compares m a b i n r
  Compares-cons i n (pos zero) e h = Agree-cons i n e h
  Compares-cons i n (pos (suc r)) e (j, p, h, l) = (j, p, Agree-cons i j e h, l)
  Compares-cons i n (negsuc r) e (j, p, h, l) = (j, p, Agree-cons i j e h, l)

  memcmp_from-Compares :
      (i left n : ℕ) → i + left ≡ n → Compares m a b i n (memcmp_from m a b i left)
  unfolding memcmp_from
  memcmp_from-Compares i zero n e = λ k p q. absurd (omega arith)
  memcmp_from-Compares i (suc left) n e =
      elim (Bool-cases (ltb (load8 m (a + i)) (load8 m (b + i)))) [
        | inl below ↦ rw below (i, omega arith, λ k p q. absurd (omega arith), ground arith)
        | inr keep ↦ elim (Bool-cases (ltb (load8 m (b + i)) (load8 m (a + i)))) [
          | inl above ↦
              rw (keep, above) (i, omega arith, λ k p q. absurd (omega arith), ground arith)
          | inr same ↦
              rw (keep, same)
                (Compares-cons i n _ (ground arith)
                  (memcmp_from-Compares (i + 1) left n (omega arith)))
        ]
      ]

-- `memcmp` returns 0 if the ranges agree; else the sign tells which range has the smaller byte at
-- the first index where they differ.
pub memcmp-Compares : (m : Memory) (a b size : ℕ) → Compares m a b 0 size (memcmp m a b size)
unfolding memcmp
memcmp-Compares m a b size = memcmp_from-Compares m a b 0 size size (omega arith)
