-- ===== src/Saving/Save.antt =====
-- `save_svalue` of src/object.c. `save_svalue v rest` is what stands in the buffer from the place at
-- which `v` is written, if `rest` is written behind it.
use mudos_v22pre.Prelude.{
  ℕ, zero, suc, ◌+◌, ◌/◌, ◌%◌, true, false, Option, List, [], ◌∷◌, ◌++◌, ◌==◌, if◌then◌else◌,
}
use mathlib.Core.Option
use mudos_v22pre.Prelude.Int.{ℤ, pos, negsuc}
use mudos_v22pre.Saving.Value.{
  Value, number, real, string, array, class, mapping, other, Values, nil, cons, Pairs, end, pair,
  Floats,
}
use mudos_v22pre.Saving.Size.{magnitude, is_escaped, svalue_save_size}

-- `do { *--cp = res % 10 + '0'; res /= 10; } while (res);`, on fuel.
unfoldable pub write_digits : ℕ → ℕ → List ℕ → List ℕ
write_digits zero res rest = rest
write_digits (suc f) res rest = elim (res / 10 == 0) [
  | true ↦ (res % 10 + 48) ∷ rest
  | false ↦ write_digits f (res / 10) ((res % 10 + 48) ∷ rest)
]

unfoldable pub save_number : ℤ → List ℕ → List ℕ
unfolding write_digits magnitude
save_number (pos n) rest = write_digits (suc n) n rest
save_number (negsuc n) rest =
    45 ∷ write_digits (suc (magnitude (negsuc n))) (magnitude (negsuc n)) rest

-- A newline is written as a carriage return.
unfoldable pub escape : List ℕ → List ℕ → List ℕ
escape [] rest = rest
escape (c ∷ s) rest =
    if is_escaped c then 92 ∷ c ∷ escape s rest else (if c == 10 then 13 else c) ∷ escape s rest

module _ (fl : Floats) where
  unfoldable mutual
    unfolding save_number escape

    pub save_svalue : Value → List ℕ → List ℕ
    save_svalue (number n) rest = save_number n rest
    save_svalue (real r) rest = fl.g_format r ++ rest
    save_svalue (string s) rest = 34 ∷ escape s (34 ∷ rest)
    save_svalue (array vs) rest = 40 ∷ 123 ∷ save_items vs (125 ∷ 41 ∷ rest)
    save_svalue (class vs) rest = 40 ∷ 47 ∷ save_items vs (47 ∷ 41 ∷ rest)
    save_svalue (mapping ps) rest = 40 ∷ 91 ∷ save_pairs ps (93 ∷ 41 ∷ rest)
    save_svalue other rest = rest

    pub save_items : Values → List ℕ → List ℕ
    save_items nil rest = rest
    save_items (cons v vs) rest = save_svalue v (44 ∷ save_items vs rest)

    pub save_pairs : Pairs → List ℕ → List ℕ
    save_pairs end rest = rest
    save_pairs (pair k v ps) rest = save_svalue k (58 ∷ save_svalue v (44 ∷ save_pairs ps rest))

  -- The string that is returned and the size that is allocated for it, with the 0 at its end; `none`
  -- is an LPC error. The source sums the size in an `int`, whose bits are the sum modulo 2 ^ 32.
  unfoldable pub save_variable : Value → Option (ℕ × List ℕ)
  unfolding svalue_save_size save_svalue
  save_variable v =
      Option.map (λ size. (size % 4294967296, save_svalue v [])) (svalue_save_size fl v 0)
