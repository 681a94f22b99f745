-- ===== src/Sorting/Moves.antt =====
-- What `quickSort` of src/qsort.c moves, whatever its comparison answers.
use mudos_v22pre.Prelude.{
  ℕ, zero, suc, ◌+◌, ◌-◌, ◌/◌, ◌≤◌, ◌<◌, Bool, true, false, ◌||◌, ◌&&◌, ◌≡◌, ◌⊎◌, inl, inr, refl,
  ap, ◌∙◌, arith, Bool-cases, ◌==◌, leb, ltb, update,
}
use mudos_v22pre.Mapping.Totals.{total, total-update}
use mudos_v22pre.Sorting.State.{do_swap, partition, q_sort}

module _ {ℓ} {A : Type ℓ} where
  -- The same elements from `left` to `right`, and the others where they were.
  pub record Moved (left right : ℕ) (v t : ℕ → A) : Type ℓ where
    pub totals : (w : A → ℕ) (n : ℕ) → right < n → total w t n ≡ total w v n
    pub outside : (j : ℕ) → (j < left) ⊎ (right < j) → t j ≡ v j
    pub keeps :
        (test : A → Bool)
        → ((j : ℕ) → left ≤ j → j ≤ right → test (v j) ≡ true)
        → (j : ℕ) → left ≤ j
        → j ≤ right
        → test (t j) ≡ true

  Moved-self : (left right : ℕ) (v : ℕ → A) → Moved left right v v
  Moved-self left right v = record {
    totals = λ w n l. refl;
    outside = λ j o. refl;
    keeps = λ test h. h;
  }

  Moved-both :
      (left right : ℕ) (v t u : ℕ → A)
      → Moved left right v t
      → Moved left right t u
      → Moved left right v u
  Moved-both left right v t u a b = record {
    totals = λ w n l. b.totals w n l ∙ a.totals w n l;
    outside = λ j o. b.outside j o ∙ a.outside j o;
    keeps = λ test h. b.keeps test (a.keeps test h);
  }

  -- A smaller part.
  Moved-part :
      (left right l r : ℕ) (v t : ℕ → A)
      → left ≤ l
      → r ≤ right
      → Moved l r v t
      → Moved left right v t
  Moved-part left right l r v t a b m = record {
    totals = λ w n h. m.totals w n (omega arith);
    outside = λ j o. m.outside j (omega arith);
    keeps = λ test h j lo hi. elim (Bool-cases (leb l j && leb j r)) [
      | inl inside ↦
          m.keeps test (λ k x y. h k (omega arith) (omega arith)) j (ground (arith, inside))
            (ground (arith, inside))
      | inr out ↦ ap test (m.outside j (ground (arith, out))) ∙ h j lo hi
    ];
  }

  swap-Moved :
      (left right i j : ℕ) (v : ℕ → A)
      → left ≤ i
      → i ≤ right
      → left ≤ j
      → j ≤ right
      → Moved left right v (do_swap v i j)
  unfolding do_swap
  swap-Moved left right i j v li ir lj jr =
      let u = update v i (v j) in
      let there : u j ≡ v j = elim (Bool-cases (j == i)) [
        | inl same ↦ rw same refl
        | inr other ↦ rw other refl
      ] in
      record {
        totals = λ w n h.
            let a = total-update w v i n (v j) (omega arith) in
            let b = total-update w u j n (v i) (omega arith) in let c = ap w there in omega arith;
        outside = λ k o.
            let x : (k == j) ≡ false = ground (arith, o) in
            let y : (k == i) ≡ false = ground (arith, o) in rw (x, y) refl;
        keeps = λ test h k lo hi. elim (Bool-cases (k == j)) [
          | inl same ↦ rw same (h i li ir)
          | inr other ↦ elim (Bool-cases (k == i)) [
            | inl here ↦ rw (other, here) (h j lj jr)
            | inr off ↦ rw (other, off) (h k lo hi)
          ]
        ];
      }

  module _ (below : ℕ → A → A → Bool) where
    -- What the loop of a round comes to: `last` stays in the part.
    pub partition-Moved :
        (rounds left right : ℕ) (v : ℕ → A) (i last calls : ℕ)
        → i + rounds ≡ suc right
        → left ≤ last
        → last < i
        → Moved left right v (partition below rounds left v i last calls).0
          × (left ≤ (partition below rounds left v i last calls).1)
          × ((partition below rounds left v i last calls).1 ≤ right)
    unfolding partition
    partition-Moved zero left right v i last calls e l h = (Moved-self left right v, l, omega arith)
    partition-Moved (suc rounds) left right v i last calls e l h =
        elim (Bool-cases (below calls (v i) (v left))) [
          | inl down ↦
              let t = do_swap v (suc last) i in
              let s =
                swap-Moved left right (suc last) i v (omega arith) (omega arith) (omega arith)
                  (omega arith) in
              let (m, a, b) =
                partition-Moved rounds left right t (suc i) (suc last) (suc calls) (omega arith)
                  (omega arith) (omega arith) in
              rw (partition, down) (Moved-both left right v t _ s m, a, b)
          | inr up ↦
              rw (partition, up)
                (partition-Moved rounds left right v (suc i) last (suc calls) (omega arith) l
                  (omega arith))
        ]

    pub q_sort-Moved :
        (fuel left right rightmost calls : ℕ) (v : ℕ → A)
        → Moved left right v (q_sort below fuel left right rightmost calls v).0
    unfolding q_sort
    q_sort-Moved zero left right rightmost calls v = Moved-self left right v
    q_sort-Moved (suc fuel) left right rightmost calls v =
        elim (Bool-cases (leb right left || ltb rightmost right)) [
          | inl done ↦ rw done (Moved-self left right v)
          | inr more ↦
              let mid = (left + right) / 2 in
              let t = do_swap v left mid in
              let p = partition below (right - left) left t (suc left) left calls in
              let u = do_swap p.0 left p.1 in
              let r = q_sort below fuel left (p.1 - 1) rightmost p.2 u in
              let less : left < right = ground (arith, more) in
              let (m, a, b) =
                partition-Moved (right - left) left right t (suc left) left calls (omega arith)
                  (omega arith) (omega arith) in
              let first =
                swap-Moved left right left mid v (omega arith) (omega arith) (omega arith)
                  (omega arith) in
              let back = swap-Moved left right left p.1 p.0 (omega arith) (omega arith) a b in
              let low = q_sort-Moved fuel left (p.1 - 1) rightmost p.2 u in
              let up = q_sort-Moved fuel (suc p.1) right rightmost r.1 r.0 in
              rw more (
                Moved-both left right v t _ first (
                  Moved-both left right t p.0 _ m (
                    Moved-both left right p.0 u _ back (
                      Moved-both left right u r.0 _
                        (Moved-part left right left (p.1 - 1) u r.0 (omega arith) (omega arith) low)
                        (Moved-part left right (suc p.1) right r.0 _ (omega arith) (omega arith)
                          up)))))
        ]
