-- ===== src/Libc/Stdio/Pieces.antt =====
-- One round of `printf`.
use cosmo.Libc.Stdio.{
  int_max, VarArg, Result, returns, putchar, print, emit, literal_length, resume,
}
use cosmo.Libc.Stdio.Reference.{
  prepend, formatted, formatted-literal, literal_length-le, prepend-some,
}
use mathlib.Core.Path.{subst}
use mathlib.Core.List.{append_assoc, append-nil}
use cosmo.Prelude.{
  ℕ, zero, suc, ◌+◌, ◌-◌, ◌≤◌, ◌<◌, ◌≡◌, ltb, true, false, Bool-cases, inl, inr, Option, some, List,
  [], ◌∷◌, ◌++◌, length, length-append, length-take, take, drop, take-append_right, take-length,
  sym, ap, ◌∙◌, arith, pos, negsuc,
}

print-take :
    (bytes : List ℕ) (n : ℕ) (calls : List ℕ)
    → n ≤ length bytes
    → print bytes n calls ≡ some (true, calls ++ take n bytes)
unfolding print putchar
print-take bytes zero calls l = ap (λ p. some (true, p)) (sym (append-nil calls))
print-take [] (suc n) calls l = absurd (omega arith)
print-take (b ∷ bytes) (suc n) calls l =
    print-take bytes n (calls ++ (b ∷ [])) (omega arith)
    ∙ ap (λ p. some (true, p)) (append_assoc calls (b ∷ []) (take n bytes))

-- `putchar` is called for the characters of `text` after `calls`, and `printf` returns how many it has
-- counted then. If that is more than an `int` holds, it calls it for fewer than `text` and returns -1.
pub record Passes (text : List ℕ) (written : ℕ) (calls : List ℕ) (result : Result) : Type 0 where
  pub fits :
      written + length text ≤ int_max
      → result ≡ returns (pos (written + length text)) (calls ++ text)
  pub overflows :
      int_max < written + length text
      → (n : ℕ) × (n < length text) × (result ≡ returns (negsuc 0) (calls ++ take n text))

emit-Passes :
    (bytes text : List ℕ) (amount written : ℕ) (calls : List ℕ) (continue : ℕ → List ℕ → Result)
    → amount ≤ length bytes
    → written ≤ int_max
    → (written + amount ≤ int_max
        → Passes text
            (written + amount)
            (calls ++ take amount bytes)
            (continue (written + amount) (calls ++ take amount bytes)))
    → Passes
        (take amount bytes ++ text)
        written
        calls
        (resume (emit bytes amount written calls) continue)
unfolding emit
emit-Passes bytes text amount written calls continue l b rest =
    let piece = take amount bytes in
    let long = length-take amount bytes l in
    let total = length-append piece text in
    elim (Bool-cases (ltb (int_max - written) amount)) [
      | inl e ↦ rw e (record {
        fits = λ f. absurd (ground (arith, long, total));
        overflows =
            λ o. (0, ground (arith, long, total), ap (returns (negsuc 0)) (sym (append-nil calls)));
      })
      | inr e ↦
          let w = rest (ground arith) in
          let sum : written + length (piece ++ text) ≡ written + amount + length text =
            omega (arith, long, total) in
          rw (e, print-take bytes amount calls l)
            (record {
              fits = λ f. rw sum (
                  w.fits (omega (arith, sum))
                  ∙ ap (returns (pos (written + amount + length text)))
                      (append_assoc calls piece text));
              overflows = λ o.
                  let (n, less, e') = w.overflows (omega (arith, sum)) in
                  (
                    length piece + n,
                    omega (arith, total),
                    e'
                        ∙ ap (returns (negsuc 0)) (
                            append_assoc calls piece (take n text)
                            ∙ sym (ap (λ t. calls ++ t) (take-append_right piece text n))),
                  );
            })
    ]

-- The call for the rest of the format, `text` being what is left to write.
abbrev pub Continues : (ℕ → List ℕ → Result) → List ℕ → Type 0
Continues continue text =
    (written : ℕ) (calls : List ℕ)
    → written ≤ int_max
    → Passes text written calls (continue written calls)

-- A round that writes `piece`, the whole of its bytes.
pub piece-Passes :
    (piece : List ℕ) (rest : Option (List ℕ)) (text : List ℕ) (written : ℕ) (calls : List ℕ)
    (continue : ℕ → List ℕ → Result)
    → written ≤ int_max
    → prepend piece rest ≡ some text
    → ((t : List ℕ) → rest ≡ some t → Continues continue t)
    → Passes text written calls (resume (emit piece (length piece) written calls) continue)
piece-Passes piece rest text written calls continue b e k =
    let (t, left, whole) = prepend-some piece rest text e in
    let w =
      emit-Passes piece t (length piece) written calls continue (omega arith) b
        (λ f. k t left _ _ f) in
    subst (λ x. Passes x written calls (resume (emit piece (length piece) written calls) continue))
      (ap (λ p. p ++ t) (take-length piece) ∙ whole) w

-- A round that writes the characters before the next `%`.
pub literal-Passes :
    (c : ℕ) (cs : List ℕ) (args : List VarArg) (text : List ℕ) (written : ℕ) (calls : List ℕ)
    (continue : ℕ → List ℕ → Result)
    → written ≤ int_max
    → prepend (c ∷ []) (formatted false cs args) ≡ some text
    → ((t : List ℕ)
        → formatted false (drop (literal_length cs) cs) args ≡ some t
        → Continues continue t)
    → Passes text written calls
        (resume (emit (c ∷ cs) (suc (literal_length cs)) written calls) continue)
literal-Passes c cs args text written calls continue b e k =
    let n = literal_length cs in
    let (u, left, whole) = prepend-some (c ∷ []) (formatted false cs args) text e in
    let (t, left', whole') =
      prepend-some (take n cs) (formatted false (drop n cs) args) u
        (sym (formatted-literal cs args) ∙ left) in
    let l = literal_length-le cs in
    let w =
      emit-Passes (c ∷ cs) t (suc n) written calls continue (omega arith) b
        (λ f. k t left' _ _ f) in
    subst (λ x. Passes x written calls (resume (emit (c ∷ cs) (suc n) written calls) continue))
      (ap (λ x. c ∷ x) whole' ∙ whole) w
