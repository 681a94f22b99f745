-- ===== src/Saving/Texts.antt =====
-- The texts of numbers and strings, as they are scanned and read.
use mudos_v22pre.Prelude.{
  ℕ, zero, suc, ◌+◌, ◌-◌, ◌*◌, ◌/◌, ◌%◌, ◌<◌, Bool, true, false, some, List, [], ◌∷◌, ◌==◌,
  if◌then◌else◌, ◌≡◌, refl, sym, ap, ◌∙◌, arith, Bool-cases, inl, inr, All,
}
use mudos_v22pre.Prelude.Int.{ℤ, pos, negsuc}
use mudos_v22pre.Saving.Value.{number, Floats}
use mudos_v22pre.Saving.Size.{magnitude}
use mudos_v22pre.Saving.Save.{write_digits, save_number, escape}
use mudos_v22pre.Saving.Numeric.{
  is_digit, int_of, negated, read_digits, finish_numeric, read_numeral, parse_numeric,
}
use mudos_v22pre.Saving.Scan.{token, numeral, skip_string, behind}
use mudos_v22pre.Saving.Restore.{interior_string}

-- An `int` but for the least one.
abbrev pub InRange : ℤ → Type 0
InRange (pos n) = n < 2147483648
InRange (negsuc n) = suc n < 2147483648

-- The bytes of a string that survive: neither the end nor a carriage return.
abbrev pub Survives : ℕ → Type 0
Survives c = (c == 13) ≡ false

pub skip_string-escape : (s rest : List ℕ) → skip_string false (escape s (34 ∷ rest)) ≡ some rest
unfolding skip_string escape
skip_string-escape [] rest = refl
skip_string-escape (c ∷ s) rest = ground (arith, skip_string-escape s rest)

pub interior_string-escape :
    (s rest : List ℕ)
    → All Survives s
    → interior_string false (escape s (34 ∷ rest)) ≡ some (s, rest)
unfolding interior_string escape
interior_string-escape [] rest h = refl
interior_string-escape (c ∷ s) rest h = ground (arith, interior_string-escape s rest h.1)

pub write_digits-last :
    (f n : ℕ) (rest : List ℕ)
    → (n / 10 == 0) ≡ true
    → write_digits (suc f) n rest ≡ (n % 10 + 48) ∷ rest
unfolding write_digits
write_digits-last f n rest h = rw (write_digits, h) refl

pub write_digits-more :
    (f n : ℕ) (rest : List ℕ)
    → (n / 10 == 0) ≡ false
    → write_digits (suc f) n rest ≡ write_digits f (n / 10) ((n % 10 + 48) ∷ rest)
unfolding write_digits
write_digits-more f n rest h = rw (write_digits, h) refl

digit-is_digit : (n : ℕ) → is_digit (n % 10 + 48) ≡ true
digit-is_digit n = ground arith

read_digits-digit :
    (res n m : ℕ) (cp : List ℕ)
    → (res * 10 + n % 10) % 4294967296 ≡ m
    → read_digits res ((n % 10 + 48) ∷ cp) ≡ read_digits m cp
unfolding read_digits
read_digits-digit res n m cp h =
    let e : (res * 10 + (n % 10 + 48 - 48)) % 4294967296 ≡ m = omega arith in
    rw (read_digits, digit-is_digit n) (ap (λ k. read_digits k cp) e)

read_digits-write :
    (f n : ℕ) (rest : List ℕ)
    → n < f
    → n < 2147483648
    → read_digits 0 (write_digits f n rest) ≡ read_digits n rest
read_digits-write zero n rest h k = absurd (omega arith)
read_digits-write (suc f) n rest h k = elim (Bool-cases (n / 10 == 0)) [
  | inl done ↦ rw (write_digits-last f n rest done) (read_digits-digit 0 n n rest (ground arith))
  | inr more ↦ rw (write_digits-more f n rest more) (
      read_digits-write f (n / 10) ((n % 10 + 48) ∷ rest) (ground arith) (omega arith)
      ∙ read_digits-digit (n / 10) n n rest (omega arith))
]

behind-digit : (n : ℕ) (rest : List ℕ) → behind 44 ((n % 10 + 48) ∷ rest) ≡ behind 44 rest
unfolding behind
behind-digit n rest = ground arith

behind-write : (f n : ℕ) (rest : List ℕ) → behind 44 (write_digits f n rest) ≡ behind 44 rest
unfolding write_digits
behind-write zero n rest = refl
behind-write (suc f) n rest = elim (Bool-cases (n / 10 == 0)) [
  | inl done ↦ rw (write_digits-last f n rest done) (behind-digit n rest)
  | inr more ↦
      rw (write_digits-more f n rest more)
        (behind-write f (n / 10) ((n % 10 + 48) ∷ rest) ∙ behind-digit n rest)
]

write_digits-starts :
    (f n : ℕ) (rest : List ℕ)
    → n < f
    → (c : ℕ) × (cp : List ℕ) × (write_digits f n rest ≡ c ∷ cp) × (is_digit c ≡ true)
write_digits-starts zero n rest h = absurd (omega arith)
write_digits-starts (suc f) n rest h = elim (Bool-cases (n / 10 == 0)) [
  | inl done ↦ ((n % 10 + 48), rest, write_digits-last f n rest done, digit-is_digit n)
  | inr more ↦
      let (c, cp, e, d) = write_digits-starts f (n / 10) ((n % 10 + 48) ∷ rest) (ground arith) in
      (c, cp, write_digits-more f n rest more ∙ e, d)
]

digit-numeral : (c : ℕ) → is_digit c ≡ true → token c ≡ numeral
unfolding token
digit-numeral c h = ground arith

-- What ends a number: the end of the text, or a comma.
abbrev pub Ends : List ℕ → Type 0
Ends [] = Unit
Ends (c ∷ rest) = c ≡ 44

abbrev pub behind_end : List ℕ → List ℕ
behind_end [] = []
behind_end (c ∷ rest) = rest

read_digits-end :
    (n : ℕ) (rest : List ℕ)
    → Ends rest
    → (c : ℕ) × (read_digits n rest ≡ (n, c, behind_end rest))
      × ((c == 46) ≡ false)
      × ((c == 101) ≡ false)
unfolding read_digits
read_digits-end n [] h = (0, refl, refl, refl)
read_digits-end n (c ∷ rest) h = (44, rw h refl, refl, refl)

int_of-small : (n : ℕ) → n < 2147483648 → int_of n ≡ pos n
unfolding int_of
int_of-small n h = ground arith

int_of-negated : (n : ℕ) → suc n < 2147483648 → int_of (negated (suc n)) ≡ negsuc n
unfolding int_of negated
int_of-negated n h = ground arith

behind-skip : (c : ℕ) (cp : List ℕ) → is_digit c ≡ true → behind 44 (c ∷ cp) ≡ behind 44 cp
unfolding behind
behind-skip c cp h = ground arith

save_number-negative :
    (n : ℕ) (rest : List ℕ)
    → suc n % 2147483648 ≡ suc n
    → save_number (negsuc n) rest ≡ 45 ∷ write_digits (suc (suc n)) (suc n) rest
unfolding save_number magnitude
save_number-negative n rest m = ap (λ k. 45 ∷ write_digits (suc k) k rest) m

module _ (fl : Floats) where
  finish_numeric-end :
      (neg : Bool) (res c : ℕ) (cp : List ℕ)
      → (c == 46) ≡ false
      → (c == 101) ≡ false
      → (finish_numeric fl neg res c cp
          ≡ some (number (int_of (if neg then negated res else res)), cp))
  unfolding finish_numeric
  finish_numeric-end neg res c cp h k = rw (finish_numeric, h, k) refl

  read_numeral-write :
      (neg : Bool) (n : ℕ) (rest : List ℕ)
      → n < 2147483648
      → Ends rest
      → (read_numeral fl neg (write_digits (suc n) n rest)
          ≡ some (number (int_of (if neg then negated n else n)), behind_end rest))
  unfolding read_numeral
  read_numeral-write neg n rest h ends =
      let (c, e, p, x) = read_digits-end n rest ends in
      ap (λ (r : ℕ × ℕ × List ℕ). finish_numeric fl neg r.0 r.1 r.2)
        (read_digits-write (suc n) n rest (omega arith) h ∙ e)
      ∙ finish_numeric-end neg n c (behind_end rest) p x

  parse_numeric-digit :
      (c : ℕ) (cp : List ℕ)
      → is_digit c ≡ true
      → parse_numeric fl c cp ≡ read_numeral fl false (c ∷ cp)
  unfolding parse_numeric
  parse_numeric-digit c [] h = let ne : (c == 45) ≡ false = ground arith in rw ne refl
  parse_numeric-digit c (d ∷ cp) h = let ne : (c == 45) ≡ false = ground arith in rw ne refl

  parse_numeric-minus :
      (d : ℕ) (cp : List ℕ)
      → is_digit d ≡ true
      → parse_numeric fl 45 (d ∷ cp) ≡ read_numeral fl true (d ∷ cp)
  unfolding parse_numeric
  parse_numeric-minus d cp h = rw (parse_numeric, h) refl

  -- A number that was saved in front of an end is read back, and is skipped by a scan.
  pub number-text :
      (n : ℤ) (rest : List ℕ)
      → InRange n
      → Ends rest
      → (c : ℕ) × (cp : List ℕ) × (save_number n rest ≡ c ∷ cp)
        × (token c ≡ numeral)
        × (parse_numeric fl c cp ≡ some (number n, behind_end rest))
        × (behind 44 cp ≡ behind 44 rest)
  unfolding save_number token
  number-text (pos n) rest h ends =
      let (c, cp, e, d) = write_digits-starts (suc n) n rest (omega arith) in
      (
        c,
        cp,
        e,
        digit-numeral c d,
        parse_numeric-digit c cp d
            ∙ (ap (read_numeral fl false) (sym e)
                ∙ (read_numeral-write false n rest h ends
                    ∙ ap (λ i. some (number i, behind_end rest)) (int_of-small n h))),
        sym (behind-skip c cp d) ∙ (ap (behind 44) (sym e) ∙ behind-write (suc n) n rest),
      )
  number-text (negsuc n) rest h ends =
      let m : suc n % 2147483648 ≡ suc n = omega arith in
      let (c, cp, e, d) = write_digits-starts (suc (suc n)) (suc n) rest (omega arith) in
      (
        45,
        c ∷ cp,
        save_number-negative n rest m ∙ ap (λ (t : List ℕ). 45 ∷ t) e,
        refl,
        parse_numeric-minus c cp d
            ∙ (ap (read_numeral fl true) (sym e)
                ∙ (read_numeral-write true (suc n) rest h ends
                    ∙ ap (λ i. some (number i, behind_end rest)) (int_of-negated n h))),
        ap (behind 44) (sym e) ∙ behind-write (suc (suc n)) (suc n) rest,
      )
