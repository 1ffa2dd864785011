-- ===== src/Logger/Format/Typing.antt =====
-- The formats that fit the types of their arguments.
use cosmo.Logger.Convert.{amount, decimal}
use cosmo.Logger.Format.Render.{hex_text, int_text}
use cosmo.Logger.Format.{
  Arg, of_char, of_int, of_unsigned, of_str, DataType, char_type, int_type, u_int_type, str_type,
  next_arg,
}
use cosmo.Logger.Format.Print.{
  IsArg, text, specifier_text, char_text, int_arg_text, unsigned_text, hex_arg_text, str_text,
}
use cosmo.Prelude.{
  ℕ, ◌^◌, ◌<◌, ◌≡◌, ◌==◌, ◌||◌, lt→ltb, not, if◌then◌else◌, refl, Option, none, some, List, [], ◌∷◌,
  ◌++◌, map, All, Bool, true, false, Bool-cases, Option-cases, inl, inr,
}

-- The constructor of `Arg` that the compiler chooses for a value.
abbrev pub type_of : Arg → DataType
type_of (of_char c) = char_type
type_of (of_int n) = int_type
type_of (of_unsigned n) = u_int_type
type_of (of_str s) = str_type

abbrev pub same_type : DataType → DataType → Bool
same_type char_type char_type = true
same_type int_type int_type = true
same_type u_int_type u_int_type = true
same_type str_type str_type = true
same_type s t = false

-- The types behind the first, if that is the one that is needed.
abbrev pub take : DataType → List DataType → Option (List DataType)
take t [] = none
take t (first ∷ rest) = if same_type t first then some rest else none

-- The types that a specifier leaves, which reads one argument or none.
abbrev pub takes : ℕ → List DataType → Option (List DataType)
takes c types =
    if c == b'c'
    then take char_type types
    else if c == b'd'
    then take int_type types
    else if c == b'u'
    then take u_int_type types
    else if c == b'x' || c == b'X'
    then take u_int_type types
    else if c == b's'
    then take str_type types
    else some types

-- Each specifier finds an argument of its type, and the format does not end in a `%`.
unfoldable pub well_typed : List ℕ → List DataType → Bool
well_typed [] types = true
well_typed (c ∷ []) types = not (c == b'%')
well_typed (c ∷ d ∷ fmt) types =
    let rest : Bool = elim (takes d types) [ none ↦ false | some types' ↦ well_typed fmt types' ] in
    let literal = well_typed (d ∷ fmt) types in if c == b'%' then rest else literal

-- A number is not 0, and an `int` is not the least one.
abbrev pub IsPrintable : Arg → Type 0
IsPrintable (of_char c) = Unit
IsPrintable (of_int n) = (0 < amount n) × (amount n < 2 ^ 31)
IsPrintable (of_unsigned n) = 0 < n
IsPrintable (of_str s) = Unit

abbrev pub Fits : Arg → Type 0
Fits arg = IsArg arg × IsPrintable arg

-- A specifier has a text and leaves arguments of the types that it should.
pub record HasText (types : List DataType) (result : Option (List Arg × List ℕ)) : Type 0 where
  pub rest : List Arg
  pub shown : List ℕ
  pub returns : result ≡ some (rest, shown)
  pub typed : map type_of rest ≡ types
  pub fits : All Fits rest

shown_text :
    {types : List DataType} (args : List Arg) (t : List ℕ)
    → All Fits args
    → some (map type_of args) ≡ some types
    → HasText types (some (args, t))
shown_text args t a e = record { rest = args; shown = t; returns = refl; typed = cc; fits = a }

char_first :
    (args : List Arg) (types : List DataType)
    → All Fits args
    → take char_type (map type_of args) ≡ some types
    → HasText types (char_text args)
unfolding next_arg
char_first [] types a e = absurd (cc)
char_first (of_char v ∷ args) types ((l, m), a) e = shown_text args (v ∷ []) a e
char_first (of_int v ∷ args) types a e = absurd (cc)
char_first (of_unsigned v ∷ args) types a e = absurd (cc)
char_first (of_str v ∷ args) types a e = absurd (cc)

int_first :
    (args : List Arg) (types : List DataType)
    → All Fits args
    → take int_type (map type_of args) ≡ some types
    → HasText types (int_arg_text args)
unfolding next_arg
int_first [] types a e = absurd (cc)
int_first (of_char v ∷ args) types a e = absurd (cc)
int_first (of_int v ∷ args) types ((l, m), a) e =
    rw (lt→ltb 0 (amount v) m.0, lt→ltb (amount v) (2 ^ 31) m.1) (shown_text args (int_text v) a e)
int_first (of_unsigned v ∷ args) types a e = absurd (cc)
int_first (of_str v ∷ args) types a e = absurd (cc)

unsigned_first :
    (args : List Arg) (types : List DataType)
    → All Fits args
    → take u_int_type (map type_of args) ≡ some types
    → HasText types (unsigned_text args)
unfolding next_arg
unsigned_first [] types a e = absurd (cc)
unsigned_first (of_char v ∷ args) types a e = absurd (cc)
unsigned_first (of_int v ∷ args) types a e = absurd (cc)
unsigned_first (of_unsigned v ∷ args) types ((l, m), a) e =
    rw (lt→ltb 0 v m) (shown_text args (decimal v) a e)
unsigned_first (of_str v ∷ args) types a e = absurd (cc)

hex_first :
    (args : List Arg) (types : List DataType)
    → All Fits args
    → take u_int_type (map type_of args) ≡ some types
    → HasText types (hex_arg_text args)
unfolding next_arg
hex_first [] types a e = absurd (cc)
hex_first (of_char v ∷ args) types a e = absurd (cc)
hex_first (of_int v ∷ args) types a e = absurd (cc)
hex_first (of_unsigned v ∷ args) types ((l, m), a) e = shown_text args (hex_text v) a e
hex_first (of_str v ∷ args) types a e = absurd (cc)

str_first :
    (args : List Arg) (types : List DataType)
    → All Fits args
    → take str_type (map type_of args) ≡ some types
    → HasText types (str_text args)
unfolding next_arg
str_first [] types a e = absurd (cc)
str_first (of_char v ∷ args) types a e = absurd (cc)
str_first (of_int v ∷ args) types a e = absurd (cc)
str_first (of_unsigned v ∷ args) types a e = absurd (cc)
str_first (of_str v ∷ args) types ((l, m), a) e = shown_text args v a e

pub specifier-HasText :
    (c : ℕ) (args : List Arg) (types : List DataType)
    → All Fits args
    → takes c (map type_of args) ≡ some types
    → HasText types (specifier_text c args)
specifier-HasText c args types a e = elim (Bool-cases (c == b'c')) [
  | inl p ↦ rw p (char_first args types a (rw p at e))
  | inr p ↦ elim (Bool-cases (c == b'd')) [
    | inl q ↦ rw (p, q) (int_first args types a (rw (p, q) at e))
    | inr q ↦ elim (Bool-cases (c == b'u')) [
      | inl r ↦ rw (p, q, r) (unsigned_first args types a (rw (p, q, r) at e))
      | inr r ↦ elim (Bool-cases (c == b'x' || c == b'X')) [
        | inl h ↦ rw (p, q, r, h) (hex_first args types a (rw (p, q, r, h) at e))
        | inr h ↦ elim (Bool-cases (c == b's')) [
          | inl i ↦ rw (p, q, r, h, i) (str_first args types a (rw (p, q, r, h, i) at e))
          | inr i ↦ rw (p, q, r, h, i) (shown_text args [] a (rw (p, q, r, h, i) at e))
        ]
      ]
    ]
  ]
]

pub well_typed-text :
    (fmt : List ℕ) (args : List Arg)
    → All Fits args
    → well_typed fmt (map type_of args) ≡ true
    → (t : List ℕ) × (text fmt args ≡ some t)
unfolding well_typed
well_typed-text [] args a e = ([], refl)
well_typed-text (c ∷ []) args a e = elim (Bool-cases (c == b'%')) [
  | inl p ↦ absurd (cc (rw p at e))
  | inr p ↦ (c ∷ [], rw p refl)
]
well_typed-text (c ∷ d ∷ fmt) args a e = elim (Bool-cases (c == b'%')) [
  | inl p ↦ elim (Option-cases (takes d (map type_of args))) [
    | inl q ↦ absurd (cc (rw (p, q) at e))
    | inr (types, q) ↦
        let h = specifier-HasText d args types a q in
        let (t, shown) = well_typed-text fmt h.rest h.fits (rw h.typed (rw (p, q) at e)) in
        (h.shown ++ t, rw (p, h.returns, shown) refl)
  ]
  | inr p ↦
      let (t, shown) = well_typed-text (d ∷ fmt) args a (rw p at e) in (c ∷ t, rw (p, shown) refl)
]
