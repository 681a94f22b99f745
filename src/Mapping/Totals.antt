-- ===== src/Mapping/Totals.antt =====
-- Sums over the buckets of a table of src/mapping.c.
use mudos_v22pre.Prelude.{
  ℕ, zero, suc, ◌+◌, ◌*◌, ◌≤◌, ◌<◌, false, ◌≡◌, inl, inr, refl, sym, ap, ◌∙◌, arith, Bool-cases,
  ◌==◌, ==_iff, update,
}

module _ {ℓ} {A : Type ℓ} (w : A → ℕ) where
  -- The weights of the first `n`.
  unfoldable pub total : (ℕ → A) → ℕ → ℕ
  total t zero = 0
  total t (suc n) = w (t n) + total t n

  pub total-agree :
      (s t : ℕ → A) (n : ℕ) → ((i : ℕ) → i < n → w (s i) ≡ w (t i)) → total s n ≡ total t n
  unfolding total
  total-agree s t zero h = refl
  total-agree s t (suc n) h =
      let a = h n (omega arith) in
      let b = total-agree s t n (λ i l. h i (omega arith)) in omega arith

  total-update_out : (t : ℕ → A) (i n : ℕ) (c : A) → n ≤ i → total (update t i c) n ≡ total t n
  total-update_out t i n c l =
      total-agree (update t i c) t n
        (λ j b. let other : (j == i) ≡ false = ground arith in rw other refl)

  pub total-update :
      (t : ℕ → A) (i n : ℕ) (c : A) → i < n → total (update t i c) n + w (t i) ≡ total t n + w c
  unfolding total
  total-update t i zero c l = absurd (omega arith)
  total-update t i (suc n) c l = elim (Bool-cases (n == i)) [
    | inl last ↦
        let e = (==_iff n i).0 last in
        let o = total-update_out t i n c (omega arith) in
        let f : w (t i) ≡ w (t n) = ap (λ x. w (t x)) (sym e) in rw last (omega arith)
    | inr other ↦ let b = total-update t i n c (ground arith) in rw other (omega arith)
  ]

  -- Two tables of the same size, one after the other.
  pub total-twice : (t : ℕ → A) (n k : ℕ) → total t (k + n) ≡ total t n + total (λ i. t (i + n)) k
  unfolding total
  total-twice t n zero = let e : 0 + n ≡ n = omega arith in ap (total t) e ∙ (omega arith)
  total-twice t n (suc k) =
      let h = total-twice t n k in
      let e : suc k + n ≡ suc (k + n) = omega arith in ap (total t) e ∙ (omega arith)

module _ {ℓ} {A : Type ℓ} (v w : A → ℕ) where
  pub total-sum :
      (r s t : ℕ → A) (n : ℕ)
      → ((i : ℕ) → i < n → w (s i) + w (t i) ≡ v (r i))
      → total w s n + total w t n ≡ total v r n
  unfolding total
  total-sum r s t zero h = refl
  total-sum r s t (suc n) h =
      let a = h n (omega arith) in
      let b = total-sum r s t n (λ i l. h i (omega arith)) in omega arith

  pub total-below : (t : ℕ → A) (n : ℕ) → ((a : A) → v a ≤ w a) → total v t n ≤ total w t n
  unfolding total
  total-below t zero h = omega arith
  total-below t (suc n) h = let a = h (t n) in let b = total-below t n h in omega arith

  pub total-double : (t : ℕ → A) (n : ℕ) → ((a : A) → v a ≤ 2 * w a) → total v t n ≤ 2 * total w t n
  unfolding total
  total-double t zero h = omega arith
  total-double t (suc n) h = let a = h (t n) in let b = total-double t n h in omega arith
