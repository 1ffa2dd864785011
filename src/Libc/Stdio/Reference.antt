-- ===== src/Libc/Stdio/Reference.antt =====
-- What `printf` is to write, character by character, for the conversions `%%`, `%c` and `%s`.
use cosmo.Libc.Stdio.{VarArg, of_int, of_str, literal_length}
use cosmo.Prelude.{
  ℕ, ◌≤◌, ◌≡◌, ◌==◌, if◌then◌else◌, Bool, true, false, Bool-cases, inl, inr, Option, none, some,
  List, [], ◌∷◌, ◌++◌, length, take, drop, refl, sym, ◌∙◌, arith, u8, ap,
}

-- With `text` in front.
abbrev pub prepend : List ℕ → Option (List ℕ) → Option (List ℕ)
prepend text none = none
prepend text (some rest) = some (text ++ rest)

-- The text of a format behind a `%`, or not, or `none` when an argument is missing or of another type.
-- From an unknown conversion on, the format stands for itself.
unfoldable pub formatted : Bool → List ℕ → List VarArg → Option (List ℕ)
formatted false [] args = some []
formatted true [] args = some (b'%' ∷ [])
formatted false (c ∷ cs) args =
    if c == b'%' then formatted true cs args else prepend (c ∷ []) (formatted false cs args)
formatted true (c ∷ cs) [] =
    if c == b'%'
    then prepend (b'%' ∷ []) (formatted false cs [])
    else if c == b'c'
    then none
    else if c == b's'
    then none
    else some (b'%' ∷ c ∷ cs)
formatted true (c ∷ cs) (of_int n ∷ args) =
    if c == b'%'
    then prepend (b'%' ∷ []) (formatted false cs (of_int n ∷ args))
    else if c == b'c'
    then prepend (u8 n ∷ []) (formatted false cs args)
    else if c == b's'
    then none
    else some (b'%' ∷ c ∷ cs)
formatted true (c ∷ cs) (of_str s ∷ args) =
    if c == b'%'
    then prepend (b'%' ∷ []) (formatted false cs (of_str s ∷ args))
    else if c == b'c'
    then none
    else if c == b's'
    then prepend s (formatted false cs args)
    else some (b'%' ∷ c ∷ cs)

prepend-prepend :
    (c : ℕ) (t : List ℕ) (o : Option (List ℕ)) → prepend (c ∷ []) (prepend t o) ≡ prepend (c ∷ t) o
prepend-prepend c t none = refl
prepend-prepend c t (some r) = refl

prepend-none : (o : Option (List ℕ)) → prepend [] o ≡ o
prepend-none none = refl
prepend-none (some r) = refl

formatted-percent :
    (c : ℕ) (cs : List ℕ) (args : List VarArg)
    → (c == b'%') ≡ true
    → formatted true cs args ≡ formatted false (c ∷ cs) args
unfolding formatted
formatted-percent c cs args e = rw e refl

-- The characters before the next `%` stand for themselves.
pub formatted-literal :
    (cs : List ℕ) (args : List VarArg)
    → let n = literal_length cs in
      formatted false cs args ≡ prepend (take n cs) (formatted false (drop n cs) args)
unfolding formatted literal_length
formatted-literal [] args = refl
formatted-literal (c ∷ cs) args = elim (Bool-cases (c == b'%')) [
  | inl e ↦ rw e (
      sym (prepend-none (formatted true cs args)) ∙ ap (prepend []) (formatted-percent c cs args e))
  | inr e ↦ rw e (ap (prepend (c ∷ [])) (formatted-literal cs args) ∙ prepend-prepend c _ _)
]

pub literal_length-le : (cs : List ℕ) → literal_length cs ≤ length cs
unfolding literal_length
literal_length-le [] = omega arith
literal_length-le (c ∷ cs) = let l = literal_length-le cs in ground arith

pub prepend-some :
    (t : List ℕ) (o : Option (List ℕ)) (text : List ℕ)
    → prepend t o ≡ some text
    → (rest : List ℕ) × (o ≡ some rest) × (t ++ rest ≡ text)
prepend-some t none text e = absurd (cc e)
prepend-some t (some rest) text e = (rest, refl, cc e)

pub formatted-plain :
    (c : ℕ) (cs : List ℕ) (args : List VarArg)
    → (c == b'%') ≡ false
    → formatted false (c ∷ cs) args ≡ prepend (c ∷ []) (formatted false cs args)
unfolding formatted
formatted-plain c cs args e = rw e refl

-- A `%` at the end stands for itself.
pub formatted-last :
    (c : ℕ) (args : List VarArg)
    → (c == b'%') ≡ true
    → formatted false (c ∷ []) args ≡ some (c ∷ [])
unfolding formatted
formatted-last c args e = rw e (ap (λ x. some (x ∷ [])) (ground arith))

-- Behind a `%`.
module _ (c d : ℕ) (ds : List ℕ) (percent : (c == b'%') ≡ true) where
  pub formatted-escape :
      (args : List VarArg)
      → (d == b'%') ≡ true
      → formatted false (c ∷ d ∷ ds) args ≡ prepend (d ∷ []) (formatted false ds args)
  unfolding formatted
  formatted-escape [] e =
      rw (percent, e) (ap (λ x. prepend (x ∷ []) (formatted false ds [])) (ground arith))
  formatted-escape (of_int n ∷ args) e =
      rw (percent, e)
        (ap (λ x. prepend (x ∷ []) (formatted false ds (of_int n ∷ args))) (ground arith))
  formatted-escape (of_str s ∷ args) e =
      rw (percent, e)
        (ap (λ x. prepend (x ∷ []) (formatted false ds (of_str s ∷ args))) (ground arith))

  pub formatted-char :
      (n : ℕ) (args : List VarArg)
      → (d == b'%') ≡ false
      → (d == b'c') ≡ true
      → formatted false (c ∷ d ∷ ds) (of_int n ∷ args)
        ≡ prepend (u8 n ∷ []) (formatted false ds args)
  unfolding formatted
  formatted-char n args e f = rw (percent, e, f) refl

  pub formatted-str :
      (s : List ℕ) (args : List VarArg)
      → (d == b'%') ≡ false
      → (d == b'c') ≡ false
      → (d == b's') ≡ true
      → formatted false (c ∷ d ∷ ds) (of_str s ∷ args) ≡ prepend s (formatted false ds args)
  unfolding formatted
  formatted-str s args e f g = rw (percent, e, f, g) refl

  pub formatted-unknown :
      (args : List VarArg)
      → (d == b'%') ≡ false
      → (d == b'c') ≡ false
      → (d == b's') ≡ false
      → formatted false (c ∷ d ∷ ds) args ≡ some (c ∷ d ∷ ds)
  unfolding formatted
  formatted-unknown [] e f g = rw (percent, e, f, g) (ap (λ x. some (x ∷ d ∷ ds)) (ground arith))
  formatted-unknown (of_int n ∷ args) e f g =
      rw (percent, e, f, g) (ap (λ x. some (x ∷ d ∷ ds)) (ground arith))
  formatted-unknown (of_str s ∷ args) e f g =
      rw (percent, e, f, g) (ap (λ x. some (x ∷ d ∷ ds)) (ground arith))
