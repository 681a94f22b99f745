-- ===== src/Saving/Numeric.antt =====
-- `parse_numeric` of src/object.c. A text is the bytes up to its end; behind the end, the 0 is read.
use mudos_v22pre.Prelude.{
  ℕ, ◌+◌, ◌-◌, ◌*◌, ◌%◌, Bool, true, false, Option, none, some, List, [], ◌∷◌, ◌&&◌, ◌==◌,
  if◌then◌else◌, ltb, leb,
}
use mudos_v22pre.Prelude.Int.{ℤ, pos, negsuc}
use mudos_v22pre.Saving.Value.{Value, number, real, Floats}

abbrev pub is_digit : ℕ → Bool
is_digit c = leb 48 c && leb c 57

-- An `int` by the bits of a word.
unfoldable pub int_of : ℕ → ℤ
int_of w = if ltb w 2147483648 then pos w else negsuc (4294967295 - w)

-- `-res`
unfoldable pub negated : ℕ → ℕ
negated w = (4294967296 - w) % 4294967296

-- `while ((c = *cp++) && isdigit(c)) { res *= 10; res += c - '0'; }`: the bits of `res`, the `c` that
-- ends it, and what follows that.
unfoldable pub read_digits : ℕ → List ℕ → ℕ × ℕ × List ℕ
read_digits res [] = (res, 0, [])
read_digits res (c ∷ cp) = elim (is_digit c) [
  | true ↦ read_digits ((res * 10 + (c - 48)) % 4294967296) cp
  | false ↦ (res, c, cp)
]

-- The digits of a fraction, as numbers, behind the first one.
pub read_fraction : List ℕ → List ℕ × ℕ × List ℕ
read_fraction [] = ([], 0, [])
read_fraction (c ∷ cp) = elim (is_digit c) [
  | true ↦ let r = read_fraction cp in ((c - 48) ∷ r.0, r.1, r.2)
  | false ↦ ([], c, cp)
]

pub read_exponent : List ℕ → Option ((Bool × ℕ) × List ℕ)
unfolding read_digits
read_exponent [] = none
read_exponent (c ∷ cp) =
    let r = read_digits 0 cp in
    if c == 43 then some ((false, r.0), r.2) else if c == 45 then some ((true, r.0), r.2) else none

module _ (fl : Floats) where
  -- A real, once the part up to its exponent is read.
  pub finish_real : Bool → ℕ → List ℕ → ℕ → List ℕ → Option (Value × List ℕ)
  unfolding read_exponent
  finish_real neg res fraction c cp =
      if c == 101
      then elim (read_exponent cp) [
        | none ↦ none
        | some (expo, rest) ↦ some (real (fl.float_of neg res fraction (some expo)), rest)
      ]
      else some (real (fl.float_of neg res fraction none), cp)

  -- Behind a point there is a digit.
  pub read_real : Bool → ℕ → List ℕ → Option (Value × List ℕ)
  unfolding finish_real read_fraction
  read_real neg res [] = none
  read_real neg res (c ∷ cp) =
      let r = read_fraction (c ∷ cp) in if is_digit c then finish_real neg res r.0 r.1 r.2 else none

  -- By the bits of `res`, the `c` behind them and what follows.
  unfoldable pub finish_numeric : Bool → ℕ → ℕ → List ℕ → Option (Value × List ℕ)
  unfolding read_real finish_real negated int_of
  finish_numeric neg res c cp =
      if c == 46
      then read_real neg res cp
      else if c == 101
      then finish_real neg res [] c cp
      else some (number (int_of (if neg then negated res else res)), cp)

  -- From the first digit on.
  unfoldable pub read_numeral : Bool → List ℕ → Option (Value × List ℕ)
  read_numeral neg cp = let r = read_digits 0 cp in finish_numeric neg r.0 r.1 r.2

  -- `none` is the result 0.
  unfoldable pub parse_numeric : ℕ → List ℕ → Option (Value × List ℕ)
  unfolding read_numeral
  parse_numeric c [] = if c == 45 then none else read_numeral false (c ∷ [])
  parse_numeric c (d ∷ cp) =
      if c == 45
      then (if is_digit d then read_numeral true (d ∷ cp) else none)
      else read_numeral false (c ∷ d ∷ cp)
