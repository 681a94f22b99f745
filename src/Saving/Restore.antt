-- ===== src/Saving/Restore.antt =====
-- `restore_svalue` of src/object.c, and what it calls but for `restore_mapping`.
use mudos_v22pre.Prelude.{
  ℕ, zero, suc, Bool, true, false, Option, none, some, List, [], ◌∷◌, ◌==◌, if◌then◌else◌, ltb,
}
use mudos_v22pre.Prelude.Int.{pos}
use mudos_v22pre.Saving.Value.{Value, number, string, array, class, Values, nil, cons, Floats}
use mudos_v22pre.Saving.Numeric.{parse_numeric}
use mudos_v22pre.Saving.Scan.{
  quote, paren, comma, numeral, token, Sizes, enter, Size, negative, sized, restore_size,
}

pub data RobError : Type 0 where
  string_error array_error mapping_error numeral_error general_error class_error : RobError

-- A value with what follows it, an error code, or an LPC error.
pub data Restored : Type 0 where
  restored : Value → List ℕ → Sizes → Restored
  failed : RobError → Restored
  raised : Restored

-- `restore_mapping`, behind the parenthesis and the bracket, is an argument.
pub record Reader : Type 0 where
  pub floats : Floats
  pub max_array_size : ℕ
  pub restore_mapping : List ℕ → Sizes → Restored

abbrev pub push_char : ℕ → Option (List ℕ × List ℕ) → Option (List ℕ × List ℕ)
push_char c none = none
push_char c (some (s, rest)) = some (c ∷ s, rest)

-- `restore_interior_string`: the string and what follows its quotation mark. A carriage return is
-- read as a newline, but not behind a backslash, which `escaped` tells. In a text that ends behind the first
-- backslash with no quotation mark, the source reads on past the 0 at its end; that is an error here.
unfoldable pub interior_string : Bool → List ℕ → Option (List ℕ × List ℕ)
interior_string escaped [] = none
interior_string true (c ∷ cp) = push_char c (interior_string false cp)
interior_string false (c ∷ cp) =
    let plain = push_char (if c == 13 then 10 else c) (interior_string false cp) in
    if c == 34 then some ([], cp) else if c == 92 then interior_string true cp else plain

abbrev pub skip_one : List ℕ → List ℕ
skip_one [] = []
skip_one (c ∷ cp) = cp

-- The kinds of container that one loop reads: an array, or a class.
pub data Kind : Type 0 where
  an_array a_class : Kind

abbrev pub kind_error : Kind → RobError
kind_error an_array = array_error
kind_error a_class = class_error

abbrev pub container : Kind → Values → Value
container an_array vs = array vs
container a_class vs = class vs

-- `allocate_array` raises an LPC error; `allocate_class_by_size` takes every size.
unfoldable pub too_large : Reader → Kind → ℕ → Bool
too_large e an_array size = ltb e.max_array_size size
too_large e a_class size = false

-- The members, what follows them, and the state; or an error.
pub data Members : Type 0 where
  members : Values → List ℕ → Sizes → Members
  no_members : RobError → Members
  raised_members : Members

-- The rest of the members, once one is read.
abbrev pub with_member : Value → Option Members → Option Members
with_member v none = none
with_member v (some (members vs rest st)) = some (members (cons v vs) rest st)
with_member v (some (no_members e)) = some (no_members e)
with_member v (some raised_members) = some raised_members

-- The end of `restore_array` and `restore_class`: `cp += 2`.
abbrev pub finish_container : Kind → Option Members → Option Restored
finish_container k none = none
finish_container k (some (members vs rest st)) =
    some (restored (container k vs) (skip_one (skip_one rest)) st)
finish_container k (some (no_members e)) = some (failed e)
finish_container k (some raised_members) = some raised

-- What is done with a nested container: `cp = *str; cp++`.
abbrev pub take_member :
    (Value → List ℕ → Sizes → Option Members) → Option Restored → Option Members
take_member next none = none
take_member next (some (restored v rest st)) = next v (skip_one rest) st
take_member next (some (failed code)) = some (no_members code)
take_member next (some raised) = some raised_members

-- Which container opens behind a parenthesis.
pub data Opening : Type 0 where
  of_kind : Kind → List ℕ → Opening
  of_mapping : List ℕ → Opening
  of_none : Opening

unfoldable pub opening : List ℕ → Opening
opening [] = of_none
opening (c ∷ cp) =
    if c == 91
    then of_mapping cp
    else if c == 123
    then of_kind an_array cp
    else if c == 47
    then of_kind a_class cp
    else of_none

abbrev pub no_sizes : Sizes
no_sizes = record { save_svalue_depth = 0; sizes = λ i. 0 }

module _ (e : Reader) where
  -- `while (size--)`, on fuel: `none` means that the fuel ran out. A nested container takes its size
  -- from `sizes`.
  unfoldable pub restore_items : ℕ → Kind → ℕ → List ℕ → Sizes → Option Members
  unfolding token interior_string parse_numeric opening too_large
  restore_items zero k size text st = none
  restore_items (suc f) k zero text st = some (members nil text st)
  restore_items (suc f) k (suc n) [] st = some (no_members (kind_error k))
  restore_items (suc f) k (suc n) (c ∷ cp) st =
      let next =
        λ (v : Value) (rest : List ℕ) (st' : Sizes). with_member v (restore_items f k n rest st') in
      elim (token c) as (λ _. Option Members) [
        | quote ↦ elim (interior_string false cp) as (λ _. Option Members) [
          | none ↦ some (no_members (kind_error k))
          | some (s, rest) ↦ next (string s) (skip_one rest) st
        ]
        | comma ↦ next (number (pos 0)) cp st
        | paren ↦ elim (opening cp) as (λ _. Option Members) [
          | of_none ↦ some (no_members (kind_error k))
          | of_mapping rest ↦ take_member next (some (e.restore_mapping rest (enter st)))
          | of_kind k' rest ↦
              let inner =
                finish_container k'
                  (restore_items f k' (st.sizes st.save_svalue_depth) rest (enter st)) in
              elim (too_large e k' (st.sizes st.save_svalue_depth)) as (λ _. Option Members) [
                | true ↦ some raised_members
                | false ↦ take_member next inner
              ]
        ]
        | numeral ↦ elim (parse_numeric e.floats c cp) as (λ _. Option Members) [
          | none ↦ some (no_members numeral_error)
          | some (v, rest) ↦ next v rest st
        ]
        | _ ↦ some (no_members (kind_error k))
      ]

  -- `restore_array` and `restore_class` on the outermost container, which is scanned first.
  unfoldable pub restore_sized : ℕ → Kind → List ℕ → Option Size → Option Restored
  unfolding restore_items too_large
  restore_sized f k text none = none
  restore_sized f k text (some negative) = some (failed (kind_error k))
  restore_sized f k text (some (sized n st)) =
      if too_large e k n then some raised else finish_container k (restore_items f k n text st)

  unfoldable pub restore_container : ℕ → Kind → List ℕ → Sizes → Option Restored
  unfolding restore_sized restore_size
  restore_container f k text st = restore_sized f k text (restore_size f false text st)

  -- `restore_string`: nothing stands behind the string.
  abbrev pub whole_string : Option (List ℕ × List ℕ) → Sizes → Restored
  whole_string none st = failed string_error
  whole_string (some (s, [])) st = restored (string s) [] st
  whole_string (some (s, c ∷ rest)) st = failed string_error

  abbrev pub whole_numeral : Option (Value × List ℕ) → Restored
  whole_numeral none = failed numeral_error
  whole_numeral (some (v, rest)) = restored v rest no_sizes

  -- `if (save_svalue_depth) { save_svalue_depth = max_depth = 0; … }`
  abbrev pub reset : Option Restored → Option Restored
  reset none = none
  reset (some (restored v rest st)) = some (restored v rest no_sizes)
  reset (some (failed code)) = some (failed code)
  reset (some raised) = some raised

  -- `restore_svalue` on a text, with `save_svalue_depth` 0 and no `sizes`.
  unfoldable pub restore_svalue : ℕ → List ℕ → Option Restored
  unfolding restore_container interior_string parse_numeric token opening
  restore_svalue f [] = some (restored (number (pos 0)) [] no_sizes)
  restore_svalue f (c ∷ cp) = elim (token c) as (λ _. Option Restored) [
    | quote ↦ some (whole_string (interior_string false cp) no_sizes)
    | paren ↦ elim (opening cp) as (λ _. Option Restored) [
      | of_none ↦ some (failed general_error)
      | of_mapping rest ↦ reset (some (e.restore_mapping rest no_sizes))
      | of_kind k rest ↦ reset (restore_container f k rest no_sizes)
    ]
    | numeral ↦ some (whole_numeral (parse_numeric e.floats c cp))
    | _ ↦ some (restored (number (pos 0)) cp no_sizes)
  ]
