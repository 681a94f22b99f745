-- ===== src/Saving/Scan.antt =====
-- `restore_size` and `restore_internal_size` of src/object.c, which count the members of an array, a
-- class or a mapping in a text before it is read.
use mudos_v22pre.Prelude.{
  ℕ, zero, suc, Bool, true, false, not, Option, none, some, List, [], ◌∷◌, ◌&&◌, ◌||◌, ◌==◌,
  if◌then◌else◌, update,
}

-- The bytes that the code tells apart.
pub data Token : Type 0 where
  quote paren comma colon bracket closer numeral unknown : Token

abbrev pub is_numeral : ℕ → Bool
is_numeral c =
    c == 45
    || c == 48
    || c == 49
    || c == 50
    || c == 51
    || c == 52
    || c == 53
    || c == 54
    || c == 55
    || c == 56
    || c == 57

unfoldable pub token : ℕ → Token
token c =
    if c == 34
    then quote
    else if c == 40
    then paren
    else if c == 44
    then comma
    else if c == 58
    then colon
    else if c == 93
    then bracket
    else if c == 47 || c == 125
    then closer
    else if is_numeral c
    then numeral
    else unknown

-- The number of containers below the outermost that were met, and the size of each.
pub record Sizes : Type 0 where
  pub save_svalue_depth : ℕ
  pub sizes : ℕ → ℕ

-- `bad` is the result that means an error; `unterminated` is a string with no end.
pub data Scanned : Type 0 where
  bad : Scanned
  unterminated : Sizes → Scanned
  counted : ℕ → List ℕ → Sizes → Scanned

-- Behind the quotation mark that ends a string; `escaped` is whether a backslash was just read.
unfoldable pub skip_string : Bool → List ℕ → Option (List ℕ)
skip_string escaped [] = none
skip_string true (c ∷ cp) = skip_string false cp
skip_string false (c ∷ cp) = if c == 34 then some cp else skip_string (c == 92) cp

-- `strchr`, and one byte on.
unfoldable pub behind : ℕ → List ℕ → Option (List ℕ)
behind delim [] = none
behind delim (c ∷ cp) = if c == delim then some cp else behind delim cp

-- `*cp++ != delim`
pub expect : ℕ → List ℕ → Option (List ℕ)
expect delim [] = none
expect delim (c ∷ cp) = if c == delim then some cp else none

-- `delim`: a value follows a key, and a key a value.
abbrev pub delim_of : Bool → Bool → ℕ
delim_of true false = 58
delim_of true true = 44
delim_of false index = 44

-- What opens behind a parenthesis: whether it is a mapping.
unfoldable pub opens : List ℕ → Option (Bool × List ℕ)
opens [] = none
opens (c ∷ cp) =
    if c == 123 || c == 47 then some (false, cp) else if c == 91 then some (true, cp) else none

abbrev pub closed_by : Bool → ℕ → List ℕ → Sizes → Scanned
closed_by fits size [] st = bad
closed_by fits size (c ∷ cp) st = if c == 41 && fits then counted size cp st else bad

abbrev pub enter : Sizes → Sizes
enter st = record st { save_svalue_depth = suc st.save_svalue_depth }

-- `sizes[depth] = size`
abbrev pub note_size : ℕ → ℕ → Sizes → Sizes
note_size depth size st = record st { sizes = update st.sizes depth size }

-- The loop that both functions have, on fuel: `none` means that the fuel ran out. `index` counts the
-- members modulo 2.
unfoldable pub scan : ℕ → Bool → Bool → ℕ → List ℕ → Sizes → Option Scanned
unfolding token skip_string behind expect opens
scan zero m index size text st = none
scan (suc f) m index size [] st = some bad
scan (suc f) m index size (c ∷ cp) st =
    let delim = delim_of m index in
    let next = λ (rest : Option (List ℕ)) (st' : Sizes). elim rest as (λ _. Option Scanned) [
      | none ↦ some bad
      | some text ↦ scan f m (not index) (suc size) text st'
    ] in
    elim (token c) as (λ _. Option Scanned) [
      | quote ↦ elim (skip_string false cp) as (λ _. Option Scanned) [
        | none ↦ some (unterminated st)
        | some rest ↦ next (expect delim rest) st
      ]
      | paren ↦ elim (opens cp) as (λ _. Option Scanned) [
        | none ↦ some bad
        | some (inner, rest) ↦
            elim (scan f inner false 0 rest (enter st)) as (λ _. Option Scanned) [
              | none ↦ none
              | some r ↦ elim r as (λ _. Option Scanned) [
                | bad ↦ some bad
                | unterminated st' ↦ some bad
                | counted n rest' st' ↦
                    next (expect delim rest') (note_size st.save_svalue_depth n st')
              ]
            ]
      ]
      | bracket ↦ some (closed_by m size cp st)
      | closer ↦ some (closed_by (not m) size cp st)
      | comma ↦ next (expect delim (c ∷ cp)) st
      | colon ↦ next (expect delim (c ∷ cp)) st
      | _ ↦ next (behind delim cp) st
    ]

-- `restore_size`: the size, or `bad` for -1. A string with no end gives 0 and leaves the text.
pub data Size : Type 0 where
  negative : Size
  sized : ℕ → Sizes → Size

abbrev pub size_found : Option Scanned → Option Size
size_found none = none
size_found (some bad) = some negative
size_found (some (unterminated st)) = some (sized 0 st)
size_found (some (counted n rest st')) = some (sized n (record st' { save_svalue_depth = 0 }))

unfoldable pub restore_size : ℕ → Bool → List ℕ → Sizes → Option Size
unfolding scan
restore_size f m text st = size_found (scan f m false 0 text st)
