-- ===== src/Saving/ZeroFree.antt =====
-- The texts of src/object.c are strings: no byte of them is 0.
use mudos_v22pre.Prelude.{
  ℕ, zero, suc, ◌+◌, ◌/◌, ◌%◌, Bool, true, false, List, [], ◌∷◌, ◌==◌, if◌then◌else◌, ◌≡◌, refl,
  arith, Bool-cases, inl, inr, All,
}
use mudos_v22pre.Prelude.Int.{ℤ, pos, negsuc}
use mudos_v22pre.Saving.Value.{
  Value, number, real, string, array, class, mapping, other, Values, nil, cons, Floats,
}
use mudos_v22pre.Saving.Size.{magnitude, is_escaped}
use mudos_v22pre.Saving.Save.{write_digits, save_number, escape, save_svalue, save_items}
use mudos_v22pre.Saving.Plain.{Plain}

abbrev pub IsChar : ℕ → Type 0
IsChar c = (c == 0) ≡ false

-- No string in the values has a 0 in it.
abbrev pub ZeroFree : Values → Type 0
ZeroFree nil = Unit
ZeroFree (cons (string s) vs) = All IsChar s × ZeroFree vs
ZeroFree (cons (array xs) vs) = ZeroFree xs × ZeroFree vs
ZeroFree (cons (class xs) vs) = ZeroFree xs × ZeroFree vs
ZeroFree (cons _ vs) = ZeroFree vs

write_digits-chars :
    (f n : ℕ) (rest : List ℕ) → All IsChar rest → All IsChar (write_digits f n rest)
unfolding write_digits
write_digits-chars zero n rest h = h
write_digits-chars (suc f) n rest h =
    let d : IsChar (n % 10 + 48) = ground arith in
    elim (Bool-cases (n / 10 == 0)) [
      | inl last ↦ rw (write_digits, last) (d, h)
      | inr more ↦
          rw (write_digits, more) (write_digits-chars f (n / 10) ((n % 10 + 48) ∷ rest) (d, h))
    ]

save_number-chars : (n : ℤ) (rest : List ℕ) → All IsChar rest → All IsChar (save_number n rest)
unfolding save_number
save_number-chars (pos n) rest h = write_digits-chars (suc n) n rest h
save_number-chars (negsuc n) rest h =
    (refl, write_digits-chars (suc (magnitude (negsuc n))) (magnitude (negsuc n)) rest h)

if-chars :
    (b : Bool) (xs ys : List ℕ) → All IsChar xs → All IsChar ys → All IsChar (if b then xs else ys)
if-chars true xs ys h k = h
if-chars false xs ys h k = k

escape-chars : (s rest : List ℕ) → All IsChar s → All IsChar rest → All IsChar (escape s rest)
unfolding escape
escape-chars [] rest p h = h
escape-chars (c ∷ s) rest (p, ps) h =
    let k = escape-chars s rest ps h in
    let d : IsChar (if c == 10 then 13 else c) = ground arith in
    if-chars (is_escaped c) (92 ∷ c ∷ escape s rest) ((if c == 10 then 13 else c) ∷ escape s rest)
      (refl, (p, k)) (d, k)

module _ (fl : Floats) (max : ℕ) where
  save_items-chars :
      (vs : Values) (rest : List ℕ)
      → Plain max vs
      → ZeroFree vs
      → All IsChar rest
      → All IsChar (save_items fl vs rest)
  unfolding save_items
  save_items-chars nil rest p z h = h
  save_items-chars (cons (number n) vs) rest p z h =
      save_number-chars n (44 ∷ save_items fl vs rest) (refl, save_items-chars vs rest p.1 z h)
  save_items-chars (cons (string s) vs) rest p z h =
      let more = save_items-chars vs rest p.1 z.1 h in
      (refl, escape-chars s (34 ∷ 44 ∷ save_items fl vs rest) z.0 (refl, (refl, more)))
  save_items-chars (cons (array xs) vs) rest p z h =
      let more = save_items-chars vs rest p.2 z.1 h in
      (
        refl,
        (
          refl,
          save_items-chars xs (125 ∷ 41 ∷ 44 ∷ save_items fl vs rest) p.1 z.0
              (refl, (refl, (refl, more))),
        ),
      )
  save_items-chars (cons (class xs) vs) rest p z h =
      let more = save_items-chars vs rest p.1 z.1 h in
      (
        refl,
        (
          refl,
          save_items-chars xs (47 ∷ 41 ∷ 44 ∷ save_items fl vs rest) p.0 z.0
              (refl, (refl, (refl, more))),
        ),
      )
  save_items-chars (cons (real r) vs) rest p z h = absurd p
  save_items-chars (cons (mapping m) vs) rest p z h = absurd p
  save_items-chars (cons other vs) rest p z h = absurd p

  pub save_svalue-chars :
      (v : Value)
      → Plain max (cons v nil)
      → ZeroFree (cons v nil)
      → All IsChar (save_svalue fl v [])
  unfolding save_svalue
  save_svalue-chars (number n) p z = save_number-chars n [] tt
  save_svalue-chars (string s) p z = (refl, escape-chars s (34 ∷ []) z.0 (refl, tt))
  save_svalue-chars (array xs) p z =
      (refl, (refl, save_items-chars xs (125 ∷ 41 ∷ []) p.1 z.0 (refl, (refl, tt))))
  save_svalue-chars (class xs) p z =
      (refl, (refl, save_items-chars xs (47 ∷ 41 ∷ []) p.0 z.0 (refl, (refl, tt))))
  save_svalue-chars (real r) p z = absurd p
  save_svalue-chars (mapping m) p z = absurd p
  save_svalue-chars other p z = absurd p
