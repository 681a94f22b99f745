-- ===== src/Tests/Saving.antt =====
-- Runs of src/object.c on small values and texts, and its theorems there.
use mudos_v22pre.Prelude.{ℕ, suc, ◌≤◌, ◌≡◌, refl, some, List, [], ◌∷◌, arith, length, leb}
use mudos_v22pre.Prelude.Int.{pos, negsuc}
use mudos_v22pre.Saving.Value.{Value, number, string, array, class, nil, cons, Floats}
use mudos_v22pre.Saving.Save.{save_svalue, save_variable}
use mudos_v22pre.Saving.Restore.{
  Reader, failed, mapping_error, restored, no_sizes, restore_svalue, array_error,
}
use mudos_v22pre.Saving.RoundTrip.{restore_svalue-save}
use mudos_v22pre.Saving.Fits.{save_variable-Fits}
use mudos_v22pre.Saving.Depth.{is_some, height, save_variable-height}

-- Reals are not used.
abbrev floats : Floats
floats = record { g_format = λ r. []; float_of = λ neg res fraction expo. 0 }

abbrev reader : Reader
reader = record {
  floats = floats;
  max_array_size = 15;
  restore_mapping = λ text st. failed mapping_error;
}

-- `({ -7, "a\"", ({ }), [class 12 ] })`
abbrev sample : Value
sample = array (
    cons (number (negsuc 6)) (
      cons (string (97 ∷ 34 ∷ 10 ∷ []))
        (cons (array nil) (cons (class (cons (number (pos 12)) nil)) nil))))

abbrev sample_text : List ℕ
sample_text = save_svalue floats sample []

saved_text :
    sample_text
    ≡ 40 ∷ 123 ∷ 45 ∷ 55 ∷ 44 ∷ 34 ∷ 97 ∷ 92 ∷ 34 ∷ 13 ∷ 34 ∷ 44 ∷ 40 ∷ 123 ∷ 125 ∷ 41 ∷ 44 ∷ 40
      ∷ 47 ∷ 49 ∷ 50 ∷ 44 ∷ 47 ∷ 41 ∷ 44 ∷ 125 ∷ 41 ∷ []
unfolding save_svalue
saved_text = refl

-- The least `int` loses its digits, and a string with no end makes an array empty.
least_int : save_svalue floats (number (negsuc 2147483647)) [] ≡ 45 ∷ 48 ∷ []
unfolding save_svalue
least_int = refl

endless_string :
    restore_svalue reader 9 (40 ∷ 123 ∷ 34 ∷ 97 ∷ []) ≡ some (restored (array nil) [] no_sizes)
unfolding restore_svalue
endless_string = refl

bad_end : restore_svalue reader 9 (40 ∷ 123 ∷ 49 ∷ 44 ∷ []) ≡ some (failed array_error)
unfolding restore_svalue
bad_end = refl

restore_svalue-save_example :
    restore_svalue reader (suc (length sample_text)) sample_text
    ≡ some (restored sample [] no_sizes)
restore_svalue-save_example = restore_svalue-save reader sample (
  omega arith,
  (omega arith, ((refl, (refl, (refl, tt))), (omega arith, tt, ((omega arith, tt), tt)))),
  tt,
)

save_variable-Fits_example : suc (length sample_text) ≤ 28
unfolding save_variable
save_variable-Fits_example =
    save_variable-Fits floats sample 28 28 sample_text refl (omega arith) refl

save_variable-height_example : is_some (save_variable floats sample) ≡ leb (height sample) 25
save_variable-height_example = save_variable-height floats sample
