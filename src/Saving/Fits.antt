-- ===== src/Saving/Fits.antt =====
-- The size that src/object.c allocates for a text, and when it refuses a value.
use mudos_v22pre.Prelude.{
  ℕ, zero, suc, ◌+◌, ◌/◌, ◌%◌, ◌≤◌, ◌<◌, Bool, true, false, Option, none, some, List, [], ◌∷◌, ◌==◌,
  if◌then◌else◌, ◌≡◌, refl, sym, ap, arith, ltb, length, length-append, Bool-cases, inl, inr,
  some_inj,
}
use mudos_v22pre.Prelude.Int.{ℤ, pos, negsuc}
use mathlib.Core.Option
use mudos_v22pre.Saving.Value.{
  Value, number, real, string, array, class, mapping, other, Values, nil, cons, Pairs, end, pair,
  Floats, max_save_svalue_depth,
}
use mudos_v22pre.Saving.Size.{
  magnitude, count_digits, number_size, string_size, one_deeper, add_sizes, svalue_save_size,
  size_of_items, size_of_pairs,
}
use mudos_v22pre.Saving.Save.{
  save_svalue, save_items, save_pairs, save_number, write_digits, escape, save_variable,
}
use mudos_v22pre.Saving.Texts.{write_digits-last, write_digits-more}

count_digits-last : (f n len : ℕ) → (n / 10 == 0) ≡ true → count_digits (suc f) n len ≡ len
unfolding count_digits
count_digits-last f n len h =
    let small : ltb 9 n ≡ false = ground arith in rw (count_digits, small) refl

count_digits-more :
    (f n len : ℕ)
    → (n / 10 == 0) ≡ false
    → count_digits (suc f) n len ≡ count_digits f (n / 10) (len + 1)
unfolding count_digits
count_digits-more f n len h =
    let large : ltb 9 n ≡ true = ground arith in rw (count_digits, large) refl

length-digits :
    (f n len : ℕ) (rest : List ℕ)
    → n < f
    → length (write_digits f n rest) + len ≡ suc (length rest + count_digits f n len)
length-digits zero n len rest h = absurd (omega arith)
length-digits (suc f) n len rest h = elim (Bool-cases (n / 10 == 0)) [
  | inl done ↦ rw (write_digits-last f n rest done, count_digits-last f n len done) (omega arith)
  | inr more ↦
      let ih = length-digits f (n / 10) (len + 1) ((n % 10 + 48) ∷ rest) (ground arith) in
      rw (write_digits-more f n rest more, count_digits-more f n len more) (omega (arith, ih))
]

length-number :
    (n : ℤ) (rest : List ℕ) → suc (length (save_number n rest)) ≡ number_size n + length rest
unfolding save_number number_size
length-number (pos n) rest = omega (arith, length-digits (suc n) n 2 rest (omega arith))
length-number (negsuc n) rest =
    let m = magnitude (negsuc n) in omega (arith, length-digits (suc m) m 3 rest (omega arith))

length-escape_size : (s rest : List ℕ) → length (escape s rest) ≡ string_size s + length rest
unfolding escape string_size
length-escape_size [] rest = omega arith
length-escape_size (c ∷ s) rest = ground (arith, length-escape_size s rest)

module _ (fl : Floats) where
  -- The text with the 0 at its end has room in `n` bytes.
  abbrev Fits : List ℕ → ℕ → List ℕ → Type 0
  Fits text n rest = suc (length text) ≤ n + length rest

  deeper-some :
      (t : Bool) (o : Option ℕ) (n : ℕ)
      → ◌≡◌ {A = Option ℕ} (if t then none else Option.map (λ size. size + 5) o) (some n)
      → (m : ℕ) × (o ≡ some m) × (n ≡ m + 5)
  deeper-some true o n h = absurd cc
  deeper-some false none n h = absurd cc
  deeper-some false (some m) n h = (m, refl, sym (some_inj h))

  one_deeper-some :
      (d n : ℕ) (members : ℕ → Option ℕ)
      → one_deeper d members ≡ some n
      → (m : ℕ) × (members (suc d) ≡ some m) × (n ≡ m + 5)
  one_deeper-some d n members h =
      deeper-some (ltb max_save_svalue_depth (suc d)) (members (suc d)) n h

  add_sizes-some :
      (a b : Option ℕ) (n : ℕ)
      → add_sizes a b ≡ some n
      → (x : ℕ) × (y : ℕ) × (a ≡ some x) × (b ≡ some y) × (n ≡ x + y)
  add_sizes-some none b n h = absurd cc
  add_sizes-some (some x) none n h = absurd cc
  add_sizes-some (some x) (some y) n h = (x, y, refl, refl, sym (some_inj h))

  mutual
    unfolding svalue_save_size save_svalue

    value-Fits :
        (v : Value) (d n : ℕ) (rest : List ℕ)
        → svalue_save_size fl v d ≡ some n
        → Fits (save_svalue fl v rest) n rest
    value-Fits (number k) d n rest h = omega (arith, length-number k rest, some_inj h)
    value-Fits (real r) d n rest h =
        omega (arith, length-append {0} (fl.g_format r) rest, some_inj h)
    value-Fits (string s) d n rest h = omega (arith, length-escape_size s (34 ∷ rest), some_inj h)
    value-Fits (array vs) d n rest h =
        let (m, e, p) = one_deeper-some d n (size_of_items fl vs) h in
        omega (arith, items-Fits vs (suc d) m (125 ∷ 41 ∷ rest) e)
    value-Fits (class vs) d n rest h =
        let (m, e, p) = one_deeper-some d n (size_of_items fl vs) h in
        omega (arith, items-Fits vs (suc d) m (47 ∷ 41 ∷ rest) e)
    value-Fits (mapping ps) d n rest h =
        let (m, e, p) = one_deeper-some d n (size_of_pairs fl ps) h in
        omega (arith, pairs-Fits ps (suc d) m (93 ∷ 41 ∷ rest) e)
    value-Fits other d n rest h = omega (arith, some_inj h)

    items-Fits :
        (vs : Values) (d n : ℕ) (rest : List ℕ)
        → size_of_items fl vs d ≡ some n
        → length (save_items fl vs rest) ≤ n + length rest
    items-Fits nil d n rest h = omega (arith, some_inj h)
    items-Fits (cons v vs) d n rest h =
        let (x, y, a, b, p) =
          add_sizes-some (svalue_save_size fl v d) (size_of_items fl vs d) n h in
        omega (arith, value-Fits v d x (44 ∷ save_items fl vs rest) a, items-Fits vs d y rest b)

    pairs-Fits :
        (ps : Pairs) (d n : ℕ) (rest : List ℕ)
        → size_of_pairs fl ps d ≡ some n
        → length (save_pairs fl ps rest) ≤ n + length rest
    pairs-Fits end d n rest h = omega (arith, some_inj h)
    pairs-Fits (pair k v ps) d n rest h =
        let (z, y, c, b, p) =
          add_sizes-some (add_sizes (svalue_save_size fl k d) (svalue_save_size fl v d))
            (size_of_pairs fl ps d) n h in
        let (x, w, a, g, q) =
          add_sizes-some (svalue_save_size fl k d) (svalue_save_size fl v d) z c in
        omega (
          arith,
          value-Fits k d x (58 ∷ save_svalue fl v (44 ∷ save_pairs fl ps rest)) a,
          value-Fits v d w (44 ∷ save_pairs fl ps rest) g,
          pairs-Fits ps d y rest b,
        )

  -- The 0 at the end of the text that is written has its place in the bytes that are allocated, if
  -- the size of the value is below 2 ^ 31, so that an `int` holds it.
  pub save_variable-Fits :
      (v : Value) (n m : ℕ) (text : List ℕ)
      → svalue_save_size fl v 0 ≡ some m
      → m < 2147483648
      → save_variable fl v ≡ some (n, text)
      → suc (length text) ≤ n
  unfolding save_variable
  save_variable-Fits v n m text e small h =
      let q : ◌≡◌ {A = Option (ℕ × List ℕ)} (some (m % 4294967296, save_svalue fl v []))
          (some (n, text)) =
        rw e at h in
      let fits = value-Fits v 0 m [] e in
      let p : m % 4294967296 ≡ n = ap (λ (r : ℕ × List ℕ). r.0) (some_inj q) in
      let t : save_svalue fl v [] ≡ text = ap (λ (r : ℕ × List ℕ). r.1) (some_inj q) in
      omega (arith, fits, p, ap length t)
