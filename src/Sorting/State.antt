-- ===== src/Sorting/State.antt =====
-- `quickSort` of src/qsort.c. An array is a function from an index.
use mudos_v22pre.Prelude.{ℕ, zero, suc, ◌+◌, ◌-◌, ◌/◌, Bool, ◌||◌, if◌then◌else◌, leb, ltb, update}

module _ {ℓ} {A : Type ℓ} where
  unfoldable pub do_swap : (ℕ → A) → ℕ → ℕ → ℕ → A
  do_swap v one two = update (update v one (v two)) two (v one)

  -- `below n a b` says that the call `n` of `compar` with `a` and `b` is negative, so that the function
  -- need not answer alike each time.
  module _ (below : ℕ → A → A → Bool) where
    -- The loop over `i`, with the rounds that are left, `last`, and the calls so far.
    unfoldable pub partition : ℕ → ℕ → (ℕ → A) → ℕ → ℕ → ℕ → (ℕ → A) × ℕ × ℕ
    unfolding do_swap
    partition zero left v i last calls = (v, last, calls)
    partition (suc rounds) left v i last calls =
        let moved = partition rounds left (do_swap v (suc last) i) (suc i) (suc last) (suc calls) in
        let stays = partition rounds left v (suc i) last (suc calls) in
        if below calls (v i) (v left) then moved else stays

    -- `last - 1` stops at 0 here; it is -1 there, and the call returns at once in either case.
    unfoldable pub q_sort : ℕ → ℕ → ℕ → ℕ → ℕ → (ℕ → A) → (ℕ → A) × ℕ
    unfolding partition
    q_sort zero left right rightmost calls v = (v, calls)
    q_sort (suc fuel) left right rightmost calls v =
        let p =
          partition (right - left) left (do_swap v left ((left + right) / 2)) (suc left) left
            calls in
        let r = q_sort fuel left (p.1 - 1) rightmost p.2 (do_swap p.0 left p.1) in
        let s = q_sort fuel (suc p.1) right rightmost r.1 r.0 in
        if leb right left || ltb rightmost right then (v, calls) else s

    unfoldable pub quick_sort : (ℕ → A) → ℕ → ℕ → A
    unfolding q_sort
    quick_sort a nmemb = if ltb nmemb 2 then a else (q_sort nmemb 0 (nmemb - 1) (nmemb - 1) 0 a).0
