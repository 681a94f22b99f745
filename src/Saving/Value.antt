-- ===== src/Saving/Value.antt =====
-- The LPC values that src/object.c saves and restores, and what it takes of the machine's floats.
use mudos_v22pre.Prelude.{ℕ, Bool, Option, List}
use mudos_v22pre.Prelude.Int.{ℤ}

-- An `svalue_t` by its type. A string is its bytes, of which none is 0, and a real its bits. A mapping
-- is the list of its pairs, in the order in which its table is walked. `other` has one of the types
-- that are not saved.
mutual
  pub data Value : Type 0 where
    number : ℤ → Value
    real : ℕ → Value
    string : List ℕ → Value
    array : Values → Value
    class : Values → Value
    mapping : Pairs → Value
    other : Value

  pub data Values : Type 0 where
    nil : Values
    cons : Value → Values → Values

  pub data Pairs : Type 0 where
    end : Pairs
    pair : Value → Value → Pairs → Pairs

-- `sprintf` with `%#g`, and the float of a sign, a number, the digits of a fraction and an exponent.
-- The exponent has a sign of its own, `true` for minus.
pub record Floats : Type 0 where
  pub g_format : ℕ → List ℕ
  pub float_of : Bool → ℕ → List ℕ → Option (Bool × ℕ) → ℕ

abbrev pub max_save_svalue_depth : ℕ
max_save_svalue_depth = 25
