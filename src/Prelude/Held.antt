-- ===== src/Prelude/Held.antt =====
-- Predicates on the elements of a list, lists without repetition, and removing an element.
use Prim.Native.Nat.{ℕ, suc}
use mathlib.Core.Path.{◌≡◌, subst}
use mathlib.Core.Logic.{◌≢◌}
use mathlib.Core.Bool.{Bool, true, false, ◌||◌}
use mathlib.Core.List.{List, [], ◌∷◌}
use native.Mathlib.Omega.{arith}
use cosmo.Prelude.Lists.{length}
use cosmo.Prelude.Tests.{◌==◌, if◌then◌else◌, Bool-cases}
use mathlib.Core.Logic.{inl, inr}

abbrev pub All {ℓ κ} : {A : Type ℓ} → (A → Type κ) → List A → Type κ
All P [] = Unit
All P (x ∷ xs) = P x × All P xs

abbrev pub Distinct : List ℕ → Type 0
Distinct [] = Unit
Distinct (x ∷ xs) = All (λ y. y ≢ x) xs × Distinct xs

abbrev pub has : ℕ → List ℕ → Bool
has p [] = false
has p (x ∷ xs) = x == p || has p xs

-- `xs` without the first `p`.
abbrev pub remove : ℕ → List ℕ → List ℕ
remove p [] = []
remove p (x ∷ xs) = if x == p then xs else x ∷ remove p xs

pub All-mono {ℓ κ ρ} :
    {A : Type ℓ} (P : A → Type κ) (Q : A → Type ρ) (xs : List A)
    → ((x : A) → P x → Q x)
    → All P xs
    → All Q xs
All-mono P Q [] f h = tt
All-mono P Q (x ∷ xs) f (p, ps) = (f x p, All-mono P Q xs f ps)

pub All-both {ℓ κ ρ} :
    {A : Type ℓ} (P : A → Type κ) (Q : A → Type ρ) (xs : List A)
    → All P xs
    → All Q xs
    → All (λ x. P x × Q x) xs
All-both P Q [] h k = tt
All-both P Q (x ∷ xs) (p, ps) (q, qs) = ((p, q), All-both P Q xs ps qs)

pub All-has {κ} : (P : ℕ → Type κ) (p : ℕ) (xs : List ℕ) → All P xs → has p xs ≡ true → P p
All-has P p [] h e = absurd (cc)
All-has P p (x ∷ xs) (h, hs) e = elim (Bool-cases (x == p)) [
  | inl same ↦ let d : x ≡ p = ground arith in subst P d h
  | inr other ↦ All-has P p xs hs (rw other at e)
]

pub All-remove {κ} : (P : ℕ → Type κ) (p : ℕ) (xs : List ℕ) → All P xs → All P (remove p xs)
All-remove P p [] h = tt
All-remove P p (x ∷ xs) (h, hs) = elim (Bool-cases (x == p)) [
  | inl same ↦ rw same hs
  | inr other ↦ rw other (h, All-remove P p xs hs)
]

pub Distinct-remove : (p : ℕ) (xs : List ℕ) → Distinct xs → Distinct (remove p xs)
Distinct-remove p [] h = tt
Distinct-remove p (x ∷ xs) (h, hs) = elim (Bool-cases (x == p)) [
  | inl same ↦ rw same hs
  | inr other ↦ rw other (All-remove _ p xs h, Distinct-remove p xs hs)
]

pub remove_apart : (p : ℕ) (xs : List ℕ) → Distinct xs → All (λ y. y ≢ p) (remove p xs)
remove_apart p [] h = tt
remove_apart p (x ∷ xs) (h, hs) = elim (Bool-cases (x == p)) [
  | inl same ↦ let d : x ≡ p = ground arith in rw same (subst (λ (t : ℕ). All (λ y. y ≢ t) xs) d h)
  | inr other ↦ rw other (ground arith, remove_apart p xs hs)
]

pub length-remove : (p : ℕ) (xs : List ℕ) → has p xs ≡ true → length xs ≡ suc (length (remove p xs))
length-remove p [] e = cc
length-remove p (x ∷ xs) e = ground (arith, length-remove p xs)
