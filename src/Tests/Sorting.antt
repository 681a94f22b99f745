-- ===== src/Tests/Sorting.antt =====
-- Runs of src/qsort.c at small arrays, and its theorems there.
use mudos_v22pre.Prelude.{ℕ, zero, suc, ◌≤◌, true, false, List, [], ◌∷◌, ◌≡◌, refl, arith, ltb}
use mudos_v22pre.Mapping.Totals.{total}
use mudos_v22pre.Sorting.State.{quick_sort}
use mudos_v22pre.Sorting.Order.{Order}
use mudos_v22pre.Sorting.Sorted.{quick_sort-moves, quick_sort-IsSorted}

abbrev entry : ℕ → List ℕ → ℕ
entry n [] = 0
entry zero (x ∷ xs) = x
entry (suc n) (x ∷ xs) = entry n xs

-- 5, 3, 9, 3, and 0 behind them.
abbrev numbers : ℕ → ℕ
numbers n = entry n (5 ∷ 3 ∷ 9 ∷ 3 ∷ [])

ltb_self : (a : ℕ) → ltb a a ≡ false
ltb_self a = ground arith

ltb_trans : (a b c : ℕ) → ltb a b ≡ true → ltb b c ≡ true → ltb a c ≡ true
ltb_trans a b c h k = ground arith

abbrev numbers_order : Order ℕ
numbers_order = record { below = ltb; below_self = ltb_self; below_trans = ltb_trans }

sorted_run :
    let v = quick_sort (λ k. ltb) numbers 4 in (v 0 ≡ 3) × (v 1 ≡ 3) × (v 2 ≡ 5) × (v 3 ≡ 9)
unfolding quick_sort
sorted_run = (refl, refl, refl, refl)

quick_sort-moves_example :
    ((w : ℕ → ℕ) → total w (quick_sort (λ k a b. ltb k 2) numbers 4) 4 ≡ total w numbers 4)
    × ((k : ℕ) → 4 ≤ k → quick_sort (λ k a b. ltb k 2) numbers 4 k ≡ numbers k)
quick_sort-moves_example = quick_sort-moves (λ k a b. ltb k 2) numbers 4

quick_sort-IsSorted_example :
    ltb (quick_sort (λ k. ltb) numbers 4 3) (quick_sort (λ k. ltb) numbers 4 1) ≡ false
quick_sort-IsSorted_example =
    quick_sort-IsSorted numbers_order numbers 4 1 3 (omega arith) (omega arith)
