-- ===== src/StringTable/Sizes.antt =====
-- The size of the string table, as `init_strings` of src/stralloc.c finds it.
use Prim.Native.Nat.{◌^◌}
use native.Mathlib.Nat.{pow-suc}
use mudos_v22pre.Prelude.{
  ℕ, zero, suc, ◌+◌, ◌*◌, ◌≤◌, ◌≡◌, refl, sym, ap, ◌∙◌, inl, inr, some, [], arith, ltb, Bool-cases,
}
use mudos_v22pre.StringTable.State.{StringTable, Config, round_up, init_strings}

abbrev pub IsPowerOfTwo : ℕ → Type 0
IsPowerOfTwo n = (k : ℕ) × (n ≡ 2 ^ k)

double-IsPowerOfTwo : (n : ℕ) → IsPowerOfTwo n → IsPowerOfTwo (n * 2)
double-IsPowerOfTwo n (k, e) = (suc k, ap (λ m. m * 2) e ∙ sym (pow-suc 2 k))

-- The fuel is enough, since the size grows by one at least.
round_up_total :
    (n y size : ℕ)
    → 1 ≤ size
    → 1 ≤ n
    → y + 1 ≤ size + n
    → IsPowerOfTwo size
    → (r : ℕ) × (round_up n y size ≡ some r) × (y ≤ r) × IsPowerOfTwo r
unfolding round_up
round_up_total zero y size h l k p = absurd (omega arith)
round_up_total (suc n) y size h l k p = elim (Bool-cases (ltb size y)) [
  | inr done ↦ (size, rw done, ground arith, p)
  | inl small ↦
      let (r, run, le, q) =
        round_up_total n y (size * 2) (omega arith) (ground arith) (omega arith)
          (double-IsPowerOfTwo size p) in
      (r, rw small run, le, q)
]

-- `init_strings` always ends, with an empty table whose size is a power of 2 and no less than the
-- configured size.
pub init_strings_total :
    (cfg : Config) (y : ℕ)
    → (s : StringTable) × (init_strings cfg y ≡ some s)
      × (y ≤ s.htable_size)
      × IsPowerOfTwo s.htable_size
      × ((h : ℕ) → s.base_table h ≡ [])
unfolding init_strings
init_strings_total cfg y =
    let (r, run, le, p) =
      round_up_total (suc y) y 1 (omega arith) (omega arith) (omega arith) (0, refl) in
    (
      record {
        base_table = λ x. [];
        htable_size = r;
        num_distinct_strings = 0;
        bytes_distinct_strings = 0;
        overhead_bytes = cfg.sizeof_pointer * r;
        allocd_strings = 0;
        allocd_bytes = 0;
        num_str_searches = 0;
        search_len = 0;
      },
      rw (init_strings, run),
      le,
      p,
      λ h. refl,
    )
