-- ===== src/Logger/Buffer.antt =====
-- The loops of the conversions on the buffer: what they write.
use mathlib.Core.List.{append_assoc}
use cosmo.Logger.{chars, log_buffer_reverse, put_digits, pad, finish}
use cosmo.Logger.Numeral.{IsBase, shrinks, numeral}
use cosmo.Logger.Reverse.{reverse_from_lem}
use cosmo.Memory.{Memory, load8, store8}
use cosmo.Prelude.{
  ℕ, zero, suc, ◌+◌, ◌-◌, ◌/◌, ◌%◌, ◌^◌, ◌<◌, ◌≡◌, ◌==◌, refl, ap, sym, ◌∙◌, arith, List, [], ◌∷◌,
  ◌++◌, Bool-cases, inl, inr, true, Option, some, length,
}

-- The bytes below `i`, last one first.
unfoldable pub chars_down : Memory → ℕ → List ℕ
chars_down m zero = []
chars_down m (suc i) = load8 m i ∷ chars_down m i

-- Cells at and above `i` do not matter for the bytes below.
chars_down-agree :
    (m m' : Memory) (i : ℕ)
    → ((k : ℕ) → k < i → load8 m k ≡ load8 m' k)
    → chars_down m i ≡ chars_down m' i
unfolding chars_down
chars_down-agree m m' zero h = refl
chars_down-agree m m' (suc i) h =
    rw (h i (omega arith), chars_down-agree m m' i (λ k l. h k (omega arith))) refl

pub chars_down-store :
    (m : Memory) (i v : ℕ) → v < 2 ^ 8 → chars_down (store8 m i v) (i + 1) ≡ v ∷ chars_down m i
unfolding chars_down
chars_down-store m i v l =
    let here : load8 (store8 m i v) i ≡ v = ground arith in
    let next : i + 1 ≡ suc i = omega arith in
    rw (next, here, chars_down-agree (store8 m i v) m i (λ k p. ground arith)) refl

-- A reversed copy reads as the other way round.
chars-chars_down :
    (m m' : Memory) (i left : ℕ)
    → ((k : ℕ) → k < left → load8 m' (i + k) ≡ load8 m (left - 1 - k))
    → chars m' i left ≡ chars_down m left
unfolding chars chars_down
chars-chars_down m m' i zero h = refl
chars-chars_down m m' i (suc left) h =
    let first : load8 m' i ≡ load8 m left = ground (arith, h 0 (omega arith)) in
    let rest =
      chars-chars_down m m' (i + 1) left (λ k l. ground (arith, h (k + 1) (omega arith))) in
    rw (first, rest) refl

pub length-chars : (m : Memory) (i left : ℕ) → length (chars m i left) ≡ left
unfolding chars
length-chars m i zero = refl
length-chars m i (suc left) = omega (arith, length-chars m (i + 1) left)

-- What a conversion is to leave: a length, and a buffer with the string and its terminator.
pub record Written (text : List ℕ) (result : Option (ℕ × Memory)) : Type 0 where
  pub len : ℕ
  pub buffer : Memory
  pub returns : result ≡ some (len, buffer)
  pub string : chars buffer 0 len ≡ text
  pub terminated : load8 buffer len ≡ 0

pub finish-Written :
    (i : ℕ) (m : Memory) (text : List ℕ) → chars_down m i ≡ text → Written text (some (finish i m))
unfolding log_buffer_reverse chars chars_down
finish-Written zero m text e = record {
  len = 0;
  buffer = (finish 0 m).1;
  returns = refl;
  string = e;
  terminated = refl;
}
finish-Written (suc i) m text e = record {
  len = suc i;
  buffer = (finish (suc i) m).1;
  returns = refl;
  string =
      chars-chars_down m (finish (suc i) m).1 0 (suc i)
        (λ k l. ground (arith, reverse_from_lem (store8 m (suc i) 0) 0 i k))
      ∙ e;
  terminated = ground (arith, reverse_from_lem (store8 m (suc i) 0) 0 i (suc i));
}

ltb_zero : (n : ℕ) → n < 2 ^ 0 → (n == 0) ≡ true
ltb_zero n l = ground arith

-- The digits' loop ends, and puts the numeral above what was there.
pub record Digits (text : List ℕ) (result : Option (ℕ × Memory)) : Type 0 where
  pub place : ℕ
  pub buffer : Memory
  pub returns : result ≡ some (place, buffer)
  pub string : chars_down buffer place ≡ text

module _ {base : ℕ} (b : IsBase base) (digit_char : ℕ → ℕ)
    (byte : (n : ℕ) → digit_char (n % base) < 2 ^ 8) where
  pub put_digits-Digits :
      (fuel n i : ℕ) (m : Memory)
      → n < 2 ^ fuel
      → Digits
          (numeral base digit_char fuel n ++ chars_down m i)
          (put_digits base digit_char fuel n i m)
  unfolding numeral put_digits
  put_digits-Digits zero n i m l = record {
    place = i;
    buffer = m;
    returns = rw (ltb_zero n l) refl;
    string = refl;
  }
  put_digits-Digits (suc fuel) n i m l = elim (Bool-cases (n == 0)) [
    | inl e ↦ record { place = i; buffer = m; returns = rw e refl; string = rw e refl }
    | inr e ↦
        let c = digit_char (n % base) in
        let rest = put_digits-Digits fuel (n / base) (i + 1) (store8 m i c) (shrinks b fuel n l) in
        record {
          place = rest.place;
          buffer = rest.buffer;
          returns = rw e rest.returns;
          string = rw e (
              rest.string
              ∙ ap (λ t. numeral base digit_char fuel (n / base) ++ t)
                  (chars_down-store m i c (byte n))
              ∙ sym (
                  append_assoc (numeral base digit_char fuel (n / base)) (c ∷ [])
                    (chars_down m i)));
        }
  ]

pub length-chars_down : (m : Memory) (i : ℕ) → length (chars_down m i) ≡ i
unfolding chars_down
length-chars_down m zero = refl
length-chars_down m (suc i) = omega (arith, length-chars_down m i)

-- `left` characters `0`.
unfoldable pub zeros : ℕ → List ℕ
zeros zero = []
zeros (suc left) = b'0' ∷ zeros left

-- At least `digits_required` characters.
abbrev pub padded : ℕ → List ℕ → List ℕ
padded digits_required text = zeros (digits_required - length text) ++ text

zeros-shift : (left : ℕ) (xs : List ℕ) → zeros left ++ (b'0' ∷ xs) ≡ b'0' ∷ (zeros left ++ xs)
unfolding zeros
zeros-shift zero xs = refl
zeros-shift (suc left) xs = ap (λ t. b'0' ∷ t) (zeros-shift left xs)

pub pad_lem :
    (i left : ℕ) (m : Memory) → chars_down (pad i left m) (i + left) ≡ zeros left ++ chars_down m i
unfolding pad zeros
pad_lem i zero m = let e : i + zero ≡ i = omega arith in rw e refl
pad_lem i (suc left) m =
    let e : i + suc left ≡ i + 1 + left = omega arith in
    rw e (
      pad_lem (i + 1) left (store8 m i b'0')
      ∙ ap (λ t. zeros left ++ t) (chars_down-store m i b'0' (omega arith))
      ∙ zeros-shift left (chars_down m i))
