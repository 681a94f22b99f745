-- ===== src/Sorting/Order.antt =====
-- `quickSort` of src/qsort.c sorts, if its comparison is an order.
use mudos_v22pre.Prelude.{
  ℕ, zero, suc, ◌+◌, ◌≤◌, ◌<◌, Bool, true, false, ◌≡◌, inl, inr, refl, ap, ap₂, subst, ◌∙◌, arith,
  Bool-cases, ◌==◌, ==_iff, ==_self, ltb,
}
use mudos_v22pre.Sorting.State.{do_swap, partition}

-- A comparison that answers alike each time, and is a strict order.
pub record Order {ℓ} (A : Type ℓ) : Type ℓ where
  pub below : A → A → Bool
  pub below_self : (a : A) → below a a ≡ false
  pub below_trans : (a b c : A) → below a b ≡ true → below b c ≡ true → below a c ≡ true

module _ {ℓ} {A : Type ℓ} (order : Order A) where
  abbrev pub IsSorted : ℕ → ℕ → (ℕ → A) → Type 0
  IsSorted left right v = (i j : ℕ) → left ≤ i → i ≤ j → j ≤ right → order.below (v j) (v i) ≡ false

  below_asym : (a b : A) → order.below a b ≡ true → order.below b a ≡ false
  below_asym a b h = ground (arith, h, order.below_trans a b a, order.below_self a)

  -- The loop so far: up to `last` the elements are below the first, behind it and before `i` they are not.
  pub record IsParted (left last i : ℕ) (v : ℕ → A) : Type 0 where
    pub lower : (k : ℕ) → left < k → k ≤ last → order.below (v k) (v left) ≡ true
    pub upper : (k : ℕ) → last < k → k < i → order.below (v k) (v left) ≡ false

  swap-other : (v : ℕ → A) (i j k : ℕ) → (k == j) ≡ false → (k == i) ≡ false → do_swap v i j k ≡ v k
  unfolding do_swap
  swap-other v i j k a b = rw (a, b) refl

  swap-two : (v : ℕ → A) (i j : ℕ) → do_swap v i j j ≡ v i
  unfolding do_swap
  swap-two v i j = rw (==_self j) refl

  swap-one : (v : ℕ → A) (i j : ℕ) → do_swap v i j i ≡ v j
  unfolding do_swap
  swap-one v i j = elim (Bool-cases (i == j)) [
    | inl same ↦ let e = (==_iff i j).0 same in rw same (ap v e)
    | inr other ↦ rw (other, ==_self i) refl
  ]

  -- An element that is below goes to the place behind `last`.
  down-IsParted :
      (left last i : ℕ) (v : ℕ → A)
      → left ≤ last
      → last < i
      → order.below (v i) (v left) ≡ true
      → IsParted left last i v
      → IsParted left (suc last) (suc i) (do_swap v (suc last) i)
  down-IsParted left last i v l h down p =
      let t = do_swap v (suc last) i in
      let first : t left ≡ v left = swap-other v (suc last) i left (ground arith) (ground arith) in
      record {
        lower = λ k a b. elim (Bool-cases (k == suc last)) [
          | inl new ↦
              let e = (==_iff k (suc last)).0 new in
              ap₂ order.below (ap t e ∙ swap-one v (suc last) i) first ∙ down
          | inr old ↦
              ap₂ order.below (swap-other v (suc last) i k (ground arith) old) first
              ∙ p.lower k a (ground arith)
        ];
        upper = λ k a b. elim (Bool-cases (k == i)) [
          | inl new ↦
              let e = (==_iff k i).0 new in
              ap₂ order.below (ap t e ∙ swap-two v (suc last) i) first
              ∙ p.upper (suc last) (omega arith) (omega arith)
          | inr old ↦
              ap₂ order.below (swap-other v (suc last) i k old (ground arith)) first
              ∙ p.upper k (omega arith) (ground arith)
        ];
      }

  pub partition-IsParted :
      (rounds left right : ℕ) (v : ℕ → A) (i last calls : ℕ)
      → i + rounds ≡ suc right
      → left ≤ last
      → last < i
      → IsParted left last i v
      → IsParted left
          (partition (λ n. order.below) rounds left v i last calls).1
          (suc right)
          (partition (λ n. order.below) rounds left v i last calls).0
  unfolding partition
  partition-IsParted zero left right v i last calls e l h p =
      let s : i ≡ suc right = omega arith in subst (λ x. IsParted left last x v) s p
  partition-IsParted (suc rounds) left right v i last calls e l h p =
      elim (Bool-cases (order.below (v i) (v left))) [
        | inl down ↦
            rw (partition, down)
              (partition-IsParted rounds left right (do_swap v (suc last) i) (suc i) (suc last)
                (suc calls) (omega arith) (omega arith) (omega arith)
                (down-IsParted left last i v l h down p))
        | inr up ↦
            rw (partition, up)
              (partition-IsParted rounds left right v (suc i) last (suc calls) (omega arith) l
                (omega arith)
                (record {
                  lower = p.lower;
                  upper = λ k a b. elim (Bool-cases (k == i)) [
                    | inl new ↦
                        let e = (==_iff k i).0 new in ap (λ x. order.below (v x) (v left)) e ∙ up
                    | inr old ↦ p.upper k a (ground arith)
                  ];
                }))
      ]

  -- The first element has gone to `last`.
  pub record IsSplit (left last right : ℕ) (v : ℕ → A) : Type 0 where
    pub lower : (k : ℕ) → left ≤ k → k < last → order.below (v k) (v last) ≡ true
    pub upper : (k : ℕ) → last < k → k ≤ right → order.below (v k) (v last) ≡ false

  pub swapped-IsSplit :
      (left last right : ℕ) (v : ℕ → A)
      → left ≤ last
      → last ≤ right
      → IsParted left last (suc right) v
      → IsSplit left last right (do_swap v left last)
  swapped-IsSplit left last right v l h p =
      let t = do_swap v left last in
      let pivot : t last ≡ v left = swap-two v left last in
      record {
        lower = λ k a b. elim (Bool-cases (k == left)) [
          | inl first ↦
              let e = (==_iff k left).0 first in
              ap₂ order.below (ap t e ∙ swap-one v left last) pivot
              ∙ p.lower last (omega arith) (omega arith)
          | inr other ↦
              ap₂ order.below (swap-other v left last k (ground arith) other) pivot
              ∙ p.lower k (ground arith) (omega arith)
        ];
        upper = λ k a b.
            ap₂ order.below (swap-other v left last k (ground arith) (ground arith)) pivot
            ∙ p.upper k a (omega arith);
      }

  -- Both parts sorted.
  pub joined-IsSorted :
      (left last right : ℕ) (v : ℕ → A)
      → IsSplit left last right v
      → ((i j : ℕ) → left ≤ i → i ≤ j → j < last → order.below (v j) (v i) ≡ false)
      → IsSorted (suc last) right v
      → IsSorted left right v
  joined-IsSorted left last right v s low up i j a b c = elim (Bool-cases (ltb j last)) [
    | inl before ↦ low i j a b (ground arith)
    | inr not_before ↦ elim (Bool-cases (ltb last i)) [
      | inl behind ↦ up i j (ground arith) b c
      | inr not_behind ↦ elim (Bool-cases (i == j)) [
        | inl same ↦
            let e = (==_iff i j).0 same in
            ap (λ x. order.below (v j) (v x)) e ∙ order.below_self (v j)
        | inr apart ↦ elim (Bool-cases (i == last)) [
          | inl first ↦
              let e = (==_iff i last).0 first in
              ap (λ x. order.below (v j) (v x)) e ∙ s.upper j (ground arith) c
          | inr lower ↦
              let x = s.lower i a (ground arith) in
              elim (Bool-cases (j == last)) [
                | inl second ↦
                    let e = (==_iff j last).0 second in
                    ap (λ y. order.below (v y) (v i)) e ∙ below_asym (v i) (v last) x
                | inr higher ↦
                    let y = s.upper j (ground arith) c in
                    ground (arith, x, y, order.below_trans (v j) (v i) (v last))
              ]
        ]
      ]
    ]
  ]
