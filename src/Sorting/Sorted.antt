-- ===== src/Sorting/Sorted.antt =====
-- `quickSort` of src/qsort.c: the whole of it.
use mudos_v22pre.Prelude.{
  ℕ, zero, suc, ◌+◌, ◌-◌, ◌/◌, ◌≤◌, ◌<◌, Bool, true, false, not, ◌||◌, ◌≡◌, inl, inr, refl, ap, ap₂,
  ◌∙◌, arith, Bool-cases, leb, ltb,
}
use mudos_v22pre.Mapping.Totals.{total}
use mudos_v22pre.Sorting.State.{do_swap, partition, q_sort, quick_sort}
use mudos_v22pre.Sorting.Moves.{Moved, partition-Moved, q_sort-Moved}
use mudos_v22pre.Sorting.Order.{
  Order, IsSorted, IsSplit, partition-IsParted, swapped-IsSplit, joined-IsSorted,
}

-- `quickSort` only moves elements, whatever its comparison answers, alike each time or not: the sum of any weights of the elements is what it was, so that each stands there as often as before, and what is behind the `n` elements is left.
pub quick_sort-moves {ℓ} :
    {A : Type ℓ} (compar : ℕ → A → A → Bool) (v : ℕ → A) (n : ℕ)
    → ((w : A → ℕ) → total w (quick_sort compar v n) n ≡ total w v n)
      × ((k : ℕ) → n ≤ k → quick_sort compar v n k ≡ v k)
unfolding quick_sort
quick_sort-moves compar v n = elim (Bool-cases (ltb n 2)) [
  | inl few ↦ rw few (λ w. refl, λ k l. refl)
  | inr many ↦
      let two : 2 ≤ n = ground (arith, many) in
      let m = q_sort-Moved compar n 0 (n - 1) (n - 1) 0 v in
      rw many (λ w. m.totals w n (omega arith), λ k l. m.outside k (omega arith))
]

module _ {ℓ} {A : Type ℓ} (order : Order A) where
  q_sort-none :
      (fuel left right rightmost calls : ℕ) (v : ℕ → A)
      → right ≤ left
      → (q_sort (λ n. order.below) fuel left right rightmost calls v).0 ≡ v
  unfolding q_sort
  q_sort-none zero left right rightmost calls v l = refl
  q_sort-none (suc fuel) left right rightmost calls v l =
      let done : (leb right left || ltb rightmost right) ≡ true = ground (arith, l) in rw done refl

  -- The first call leaves `last` and what is behind it, and the second what is before.
  module _ (left last right : ℕ) (u r t : ℕ → A) (split : IsSplit order left last right u)
      (l : left ≤ last) where
    lower-kept :
        Moved left (last - 1) u r
        → left < last
        → (k : ℕ) → left ≤ k
        → k < last
        → order.below (r k) (u last) ≡ true
    lower-kept m less k a b =
        m.keeps (λ x. order.below x (u last)) (λ j x y. split.lower j x (omega arith)) k a
          (omega arith)

    upper-kept :
        ((k : ℕ) → last ≤ k → r k ≡ u k)
        → Moved (suc last) right r t
        → (k : ℕ) → last < k
        → k ≤ right
        → order.below (t k) (u last) ≡ false
    upper-kept same m k a b =
        let high : not (order.below (t k) (u last)) ≡ true =
          m.keeps (λ x. not (order.below x (u last)))
            (λ j x y.
              ap (λ z. not (order.below z (u last))) (same j (omega arith))
              ∙ ap not (split.upper j (omega arith) y))
            k (omega arith) b in
        ground (arith, high)

  q_sort-IsSorted :
      (fuel left right rightmost calls : ℕ) (v : ℕ → A)
      → right < left + fuel
      → right ≤ rightmost
      → IsSorted order left right (q_sort (λ n. order.below) fuel left right rightmost calls v).0
  unfolding q_sort
  q_sort-IsSorted zero left right rightmost calls v f h = λ i j a b c. absurd (omega arith)
  q_sort-IsSorted (suc fuel) left right rightmost calls v f h = elim (Bool-cases (leb right left)) [
    | inl done ↦
        let stop : (leb right left || ltb rightmost right) ≡ true = ground (arith, done) in
        rw stop (λ i j a b c.
          let e : j ≡ i = ground (arith, done, a, b, c) in
          ap (λ x. order.below (v x) (v i)) e ∙ order.below_self (v i))
    | inr more ↦
        let go : (leb right left || ltb rightmost right) ≡ false = ground (arith, more, h) in
        let less : left < right = ground (arith, more) in
        let mid = (left + right) / 2 in
        let w = do_swap v left mid in
        let p = partition (λ n. order.below) (right - left) left w (suc left) left calls in
        let last = p.1 in
        let u = do_swap p.0 left last in
        let r = q_sort (λ n. order.below) fuel left (last - 1) rightmost p.2 u in
        let t = q_sort (λ n. order.below) fuel (suc last) right rightmost r.1 r.0 in
        let (m, a, b) =
          partition-Moved (λ n. order.below) (right - left) left right w (suc left) left calls
            (omega arith) (omega arith) (omega arith) in
        let parted =
          partition-IsParted order (right - left) left right w (suc left) left calls (omega arith)
            (omega arith) (omega arith)
            (record {
              lower = λ k x y. absurd (omega arith);
              upper = λ k x y. absurd (omega arith);
            }) in
        let split = swapped-IsSplit order left last right p.0 a b parted in
        let low = q_sort-Moved (λ n. order.below) fuel left (last - 1) rightmost p.2 u in
        let up = q_sort-Moved (λ n. order.below) fuel (suc last) right rightmost r.1 r.0 in
        let low_sorted =
          q_sort-IsSorted fuel left (last - 1) rightmost p.2 u (omega arith) (omega arith) in
        let up_sorted = q_sort-IsSorted fuel (suc last) right rightmost r.1 r.0 (omega arith) h in
        let kept : (k : ℕ) → last ≤ k → r.0 k ≡ u k = λ k x. elim (Bool-cases (ltb left last)) [
          | inl some_below ↦ low.outside k (ground (arith, x, some_below))
          | inr none_below ↦
              ap (λ (g : ℕ → A). g k)
                (q_sort-none fuel left (last - 1) rightmost p.2 u (ground (arith, none_below, a)))
        ] in
        let still : (k : ℕ) → k ≤ last → t.0 k ≡ r.0 k = λ k x. up.outside k (omega arith) in
        let pivot : t.0 last ≡ u last = still last (omega arith) ∙ kept last (omega arith) in
        rw go (
          joined-IsSorted order left last right t.0
            (record {
              lower = λ k x y.
                  ap₂ order.below (still k (omega arith)) pivot
                  ∙ lower-kept left last right u r.0 t.0 split a low (omega arith) k x y;
              upper = λ k x y.
                  ap (order.below (t.0 k)) pivot
                  ∙ upper-kept left last right u r.0 t.0 split a kept up k x y;
            })
            (λ i j x y z.
              ap₂ order.below (still j (omega arith)) (still i (omega arith))
              ∙ low_sorted i j x y (omega arith))
            up_sorted)
  ]

  -- With a comparison that answers alike each time and is a strict order, `quickSort` leaves the elements so that none stands behind one that it is below.
  pub quick_sort-IsSorted :
      (v : ℕ → A) (n i j : ℕ)
      → i ≤ j
      → j < n
      → order.below (quick_sort (λ k. order.below) v n j) (quick_sort (λ k. order.below) v n i)
        ≡ false
  unfolding quick_sort
  quick_sort-IsSorted v n i j a b = elim (Bool-cases (ltb n 2)) [
    | inl few ↦
        let e : j ≡ i = ground (arith, few, a, b) in
        rw few (ap (λ x. order.below (v x) (v i)) e ∙ order.below_self (v i))
    | inr many ↦
        let some_two : 2 ≤ n = ground (arith, many) in
        rw many (
          q_sort-IsSorted n 0 (n - 1) (n - 1) 0 v (omega arith) (omega arith) i j (omega arith) a
            (omega arith))
  ]
