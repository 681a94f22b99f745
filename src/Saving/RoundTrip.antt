-- ===== src/Saving/RoundTrip.antt =====
-- Values that are saved and restored by src/object.c.
use mudos_v22pre.Prelude.{
  ℕ, zero, suc, ◌+◌, ◌/◌, ◌%◌, ◌≤◌, false, some, List, [], ◌∷◌, ◌≡◌, refl, ap, ◌∙◌, arith, length,
}
use mudos_v22pre.Prelude.Int.{ℤ, pos, negsuc}
use mudos_v22pre.Saving.Value.{
  Value, number, real, string, array, class, mapping, other, Values, nil, cons, Floats,
}
use mudos_v22pre.Saving.Size.{magnitude}
use mudos_v22pre.Saving.Save.{save_svalue, save_items, save_number, write_digits, escape}
use mudos_v22pre.Saving.Numeric.{parse_numeric}
use mudos_v22pre.Saving.Scan.{numeral, closer, token, sized, size_found, restore_size}
use mudos_v22pre.Saving.Restore.{
  Reader, Kind, an_array, a_class, opening, restored, finish_container, container, too_large,
  restore_sized, restore_container, restore_svalue, reset, no_sizes,
}
use mudos_v22pre.Saving.Texts.{number-text, interior_string-escape}
use mudos_v22pre.Saving.Plain.{count, Plain, weight, nests, marked, marked-Agrees}
use mudos_v22pre.Saving.Scanning.{at, scan-items}
use mudos_v22pre.Saving.Reading.{small-array, restore_items-save}

length-write_digits : (f n : ℕ) (rest : List ℕ) → length rest ≤ length (write_digits f n rest)
unfolding write_digits
length-write_digits zero n rest = omega arith
length-write_digits (suc f) n rest =
    ground (arith, length-write_digits f (n / 10) ((n % 10 + 48) ∷ rest))

length-save_number : (n : ℤ) (rest : List ℕ) → length rest ≤ length (save_number n rest)
unfolding save_number
length-save_number (pos n) rest = length-write_digits (suc n) n rest
length-save_number (negsuc n) rest =
    omega (arith, length-write_digits (suc (magnitude (negsuc n))) (magnitude (negsuc n)) rest)

length-escape : (s rest : List ℕ) → length rest ≤ length (escape s rest)
unfolding escape
length-escape [] rest = omega arith
length-escape (c ∷ s) rest = ground (arith, length-escape s rest)

module _ (fl : Floats) (max : ℕ) where
  weight-le :
      (vs : Values) (rest : List ℕ)
      → Plain max vs
      → weight vs + length rest ≤ suc (length (save_items fl vs rest))
  unfolding weight save_items
  weight-le nil rest p = omega arith
  weight-le (cons (number n) vs) rest p =
      omega (arith, weight-le vs rest p.1, length-save_number n (44 ∷ save_items fl vs rest))
  weight-le (cons (string w) vs) rest p =
      omega (arith, weight-le vs rest p.1, length-escape w (34 ∷ 44 ∷ save_items fl vs rest))
  weight-le (cons (array xs) vs) rest p =
      omega (arith, weight-le vs rest p.2, weight-le xs (125 ∷ 41 ∷ 44 ∷ save_items fl vs rest) p.1)
  weight-le (cons (class xs) vs) rest p =
      omega (arith, weight-le vs rest p.1, weight-le xs (47 ∷ 41 ∷ 44 ∷ save_items fl vs rest) p.0)
  weight-le (cons (real r) vs) rest p = absurd p
  weight-le (cons (mapping m) vs) rest p = absurd p
  weight-le (cons other vs) rest p = absurd p

module _ (e : Reader) where
  restore_size-save :
      (xs : Values)
      → Plain e.max_array_size xs
      → (f c : ℕ) → weight xs ≤ f
      → token c ≡ closer
      → (restore_size f false (save_items e.floats xs (c ∷ 41 ∷ [])) no_sizes
          ≡ some (sized (count xs) (at 0 (marked xs 0 (λ i. 0)))))
  unfolding restore_size
  restore_size-save xs p f c h t =
      let scanned = scan-items e.floats e.max_array_size xs p f 0 false c [] 0 (λ i. 0) h t in
      let e₁ : 0 + count xs ≡ count xs = omega arith in
      ap size_found scanned ∙ ap (λ (n : ℕ). some (sized n (at 0 (marked xs 0 (λ i. 0))))) e₁

  restore_container-save :
      (k : Kind) (xs : Values)
      → Plain e.max_array_size xs
      → (f c : ℕ) → weight xs ≤ f
      → token c ≡ closer
      → too_large e k (count xs) ≡ false
      → (restore_container e f k (save_items e.floats xs (c ∷ 41 ∷ [])) no_sizes
          ≡ some (restored (container k xs) [] (at (0 + nests xs) (marked xs 0 (λ i. 0)))))
  unfolding restore_container restore_sized
  restore_container-save k xs p f c h t small =
      ap (restore_sized e f k (save_items e.floats xs (c ∷ 41 ∷ [])))
        (restore_size-save xs p f c h t)
      ∙ rw small (
          ap (finish_container k) (
            restore_items-save e xs p f k (c ∷ 41 ∷ []) 0 (marked xs 0 (λ i. 0)) h
              (marked-Agrees xs 0 (λ i. 0))))

  restore-number :
      (f b : ℕ) (cp : List ℕ) (n : ℤ)
      → token b ≡ numeral
      → parse_numeric e.floats b cp ≡ some (number n, [])
      → restore_svalue e (suc f) (b ∷ cp) ≡ some (restored (number n) [] no_sizes)
  unfolding restore_svalue
  restore-number f b cp n tk parsed = rw (restore_svalue, tk, parsed) refl

  -- The text of a value that `save_svalue` writes is read back by `restore_svalue` as that value, if
  -- no number in it is the least `int`, no string in it has a carriage return, no array in it is
  -- larger than the driver allows, and it has no real, mapping or value that is not saved in it.
  pub restore_svalue-save :
      (v : Value)
      → Plain e.max_array_size (cons v nil)
      → let text = save_svalue e.floats v [] in
        (restore_svalue e (suc (length text)) text ≡ some (restored v [] no_sizes))
  unfolding restore_svalue save_svalue token opening
  restore_svalue-save (number n) p =
      let (b, cp, q, tk, parsed, _) = number-text e.floats n [] p.0 tt in
      ap (restore_svalue e (suc (length (save_number n [])))) q
      ∙ restore-number (length (save_number n [])) b cp n tk parsed
  restore_svalue-save (string w) p = rw (interior_string-escape w [] p.0) refl
  restore_svalue-save (array xs) p = ap (reset e) (
      restore_container-save an_array xs p.1
        (suc (suc (suc (length (save_items e.floats xs (125 ∷ 41 ∷ [])))))) 125
        (omega (arith, weight-le e.floats e.max_array_size xs (125 ∷ 41 ∷ []) p.1)) refl
        (small-array e (count xs) p.0))
  restore_svalue-save (class xs) p = ap (reset e) (
      restore_container-save a_class xs p.0
        (suc (suc (suc (length (save_items e.floats xs (47 ∷ 41 ∷ [])))))) 47
        (omega (arith, weight-le e.floats e.max_array_size xs (47 ∷ 41 ∷ []) p.0)) refl
        (unfold too_large in refl))
  restore_svalue-save (real r) p = absurd p
  restore_svalue-save (mapping m) p = absurd p
  restore_svalue-save other p = absurd p
