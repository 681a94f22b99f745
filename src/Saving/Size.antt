-- ===== src/Saving/Size.antt =====
-- `svalue_save_size` of src/object.c.
use mudos_v22pre.Prelude.{
  ℕ, zero, suc, ◌+◌, ◌/◌, ◌%◌, Bool, true, false, Option, none, some, List, [], ◌∷◌, ◌||◌, ◌==◌,
  if◌then◌else◌, ltb, length,
}
use mudos_v22pre.Prelude.Int.{ℤ, pos, negsuc}
use mathlib.Core.Option
use mudos_v22pre.Saving.Value.{
  Value, number, real, string, array, class, mapping, other, Values, nil, cons, Pairs, end, pair,
  Floats, max_save_svalue_depth,
}

-- `res`, which loses its sign: `(-res) & 0x7fffffff`.
unfoldable pub magnitude : ℤ → ℕ
magnitude (pos n) = n
magnitude (negsuc n) = suc n % 2147483648

-- `while (res > 9) { res /= 10; len++; }`, on fuel.
unfoldable pub count_digits : ℕ → ℕ → ℕ → ℕ
count_digits zero res len = len
count_digits (suc f) res len = elim (ltb 9 res) [
  | true ↦ count_digits f (res / 10) (len + 1)
  | false ↦ len
]

unfoldable pub number_size : ℤ → ℕ
unfolding count_digits magnitude
number_size (pos n) = count_digits (suc n) n 2
number_size (negsuc n) = count_digits (suc (magnitude (negsuc n))) (magnitude (negsuc n)) 3

abbrev pub is_escaped : ℕ → Bool
is_escaped c = c == 92 || c == 34

unfoldable pub string_size : List ℕ → ℕ
string_size [] = 0
string_size (c ∷ s) = (if is_escaped c then 2 else 1) + string_size s

-- An array, a class or a mapping at `depth`, by the size of its members one level deeper; `none` is
-- the LPC error of `too_deep_save_error`.
abbrev pub one_deeper : ℕ → (ℕ → Option ℕ) → Option ℕ
one_deeper depth members =
    if ltb max_save_svalue_depth (suc depth)
    then none
    else Option.map (λ size. size + 5) (members (suc depth))

abbrev pub add_sizes : Option ℕ → Option ℕ → Option ℕ
add_sizes none m = none
add_sizes (some a) none = none
add_sizes (some a) (some b) = some (a + b)

module _ (fl : Floats) where
  unfoldable mutual
    unfolding number_size string_size

    -- The sum is not bounded here; the source has it in an `int`, which wraps above 2 ^ 31 - 1.
    pub svalue_save_size : Value → ℕ → Option ℕ
    svalue_save_size (number n) depth = some (number_size n)
    svalue_save_size (real r) depth = some (length (fl.g_format r) + 1)
    svalue_save_size (string s) depth = some (3 + string_size s)
    svalue_save_size (array vs) depth = one_deeper depth (size_of_items vs)
    svalue_save_size (class vs) depth = one_deeper depth (size_of_items vs)
    svalue_save_size (mapping ps) depth = one_deeper depth (size_of_pairs ps)
    svalue_save_size other depth = some 2

    pub size_of_items : Values → ℕ → Option ℕ
    size_of_items nil depth = some 0
    size_of_items (cons v vs) depth = add_sizes (svalue_save_size v depth) (size_of_items vs depth)

    pub size_of_pairs : Pairs → ℕ → Option ℕ
    size_of_pairs end depth = some 0
    size_of_pairs (pair k v ps) depth =
        add_sizes (add_sizes (svalue_save_size k depth) (svalue_save_size v depth))
          (size_of_pairs ps depth)
