-- ===== src/Libc/Stdio/Ends.antt =====
-- The rounds of `printf` come to an end.
use cosmo.Libc.Stdio.{
  int_max, VarArg, of_int, of_str, Result, unfinished, print, emit, printed, Round, ends, goes_on,
  Turn, turn, put_char, put_str, literal_length, resume, printf_loop, printf,
}
use cosmo.Prelude.{
  ℕ, zero, suc, ◌+◌, ◌-◌, ◌≤◌, ◌≡◌, ◌≢◌, ◌==◌, ltb, Bool, true, false, Bool-cases, inl, inr, Option,
  none, some, List, [], ◌∷◌, length, length-drop, drop, get_or, arith,
}

-- A round that may end the call, but not for want of fuel.
abbrev IsRound : Round → Type 0
IsRound r = r ≢ ends unfinished

printed-IsRound : (o : Option (Bool × List ℕ)) (written : ℕ) → IsRound (printed o written)
printed-IsRound none written e = absurd (cc e)
printed-IsRound (some (false, calls)) written e = absurd (cc e)
printed-IsRound (some (true, calls)) written e = absurd (cc e)

emit-IsRound :
    (bytes : List ℕ) (amount written : ℕ) (calls : List ℕ)
    → IsRound (emit bytes amount written calls)
unfolding emit
emit-IsRound bytes amount written calls = elim (Bool-cases (ltb (int_max - written) amount)) [
  | inl b ↦ rw b (λ e. cc e)
  | inr b ↦ rw b (printed-IsRound (print bytes amount calls) (written + amount))
]

-- The next round starts with `n` characters at most.
abbrev IsTurn : ℕ → Turn → Type 0
IsTurn n t = IsRound t.round × (length t.format ≤ n)

put_char-IsTurn :
    (format : List ℕ) (args : List VarArg) (written : ℕ) (calls : List ℕ)
    → IsTurn (length format) (put_char format args written calls)
unfolding put_char
put_char-IsTurn format [] written calls = (λ e. cc e, omega arith)
put_char-IsTurn format (of_str s ∷ args) written calls = (λ e. cc e, omega arith)
put_char-IsTurn format (of_int n ∷ args) written calls =
    (emit-IsRound _ _ written calls, omega arith)

put_str-IsTurn :
    (format : List ℕ) (args : List VarArg) (written : ℕ) (calls : List ℕ)
    → IsTurn (length format) (put_str format args written calls)
unfolding put_str
put_str-IsTurn format [] written calls = (λ e. cc e, omega arith)
put_str-IsTurn format (of_int n ∷ args) written calls = (λ e. cc e, omega arith)
put_str-IsTurn format (of_str s ∷ args) written calls =
    (emit-IsRound _ _ written calls, omega arith)

IsTurn-drop : (cs : List ℕ) (t : Turn) → IsTurn (length (drop 1 cs)) t → IsTurn (length cs) t
IsTurn-drop cs t (r, l) = (r, omega (arith, length-drop 1 cs))

percent-IsTurn :
    (c : ℕ) (cs : List ℕ) (args : List VarArg) (written : ℕ) (calls : List ℕ)
    → (c == b'%') ≡ true
    → IsTurn (length cs) (turn c cs args written calls)
unfolding turn
percent-IsTurn c cs args written calls e = elim (Bool-cases (get_or cs 0 0 == b'%')) [
  | inl f ↦
      rw (e, f)
        (
          emit-IsRound _ _ written calls,
          omega (arith, length-drop (suc (literal_length (drop 1 cs))) cs),
        )
  | inr f ↦ elim (Bool-cases (get_or cs 0 0 == b'c')) [
    | inl g ↦
        rw (e, f, g)
          (IsTurn-drop cs (put_char (drop 1 cs) args written calls)
            (put_char-IsTurn (drop 1 cs) args written calls))
    | inr g ↦ elim (Bool-cases (get_or cs 0 0 == b's')) [
      | inl h ↦
          rw (e, f, g, h)
            (IsTurn-drop cs (put_str (drop 1 cs) args written calls)
              (put_str-IsTurn (drop 1 cs) args written calls))
      | inr h ↦ rw (e, f, g, h) (emit-IsRound _ _ written calls, omega arith)
    ]
  ]
]

turn-IsTurn :
    (c : ℕ) (cs : List ℕ) (args : List VarArg) (written : ℕ) (calls : List ℕ)
    → IsTurn (length cs) (turn c cs args written calls)
unfolding turn
turn-IsTurn c cs args written calls = elim (Bool-cases (c == b'%')) [
  | inl e ↦ percent-IsTurn c cs args written calls e
  | inr e ↦ rw e (emit-IsRound _ _ written calls, omega (arith, length-drop (literal_length cs) cs))
]

resume-ends :
    (r : Round) (continue : ℕ → List ℕ → Result)
    → IsRound r
    → ((written : ℕ) (calls : List ℕ) → continue written calls ≢ unfinished)
    → resume r continue ≢ unfinished
resume-ends (ends result) continue i k e = i (cc e)
resume-ends (goes_on written calls) continue i k e = k written calls e

printf_loop-ends :
    (fuel : ℕ) (format : List ℕ) (args : List VarArg) (written : ℕ) (calls : List ℕ)
    → length format ≤ fuel
    → printf_loop fuel format args written calls ≢ unfinished
unfolding printf_loop
printf_loop-ends fuel [] args written calls l = λ e. absurd (cc e)
printf_loop-ends zero (c ∷ cs) args written calls l = absurd (omega arith)
printf_loop-ends (suc fuel) (c ∷ cs) args written calls l =
    let t = turn-IsTurn c cs args written calls in
    resume-ends (turn c cs args written calls).round _ t.0
      (λ written' calls'. printf_loop-ends fuel _ _ written' calls' (omega (arith, t.1)))

-- For every format and all arguments, `printf` comes to an end: its length is enough for the rounds.
pub printf-ends :
    (format : List ℕ) (args : List VarArg) (calls : List ℕ) → printf format args calls ≢ unfinished
unfolding printf
printf-ends format args calls = printf_loop-ends (length format) format args 0 calls (omega arith)
