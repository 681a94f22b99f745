-- ===== src/Mapping/Grow.antt =====
-- `growMap` of src/mapping.c: where the nodes come to stand.
use mudos_v22pre.Prelude.{
  ◌⊎◌, ℕ, zero, suc, ◌+◌, ◌*◌, ◌/◌, ◌%◌, ◌≤◌, ◌<◌, false, not, [], ◌∷◌, if◌then◌else◌, ◌==◌, ==_iff,
  ==_self, ◌≡◌, ◌≢◌, refl, sym, ap, ap₂, ◌∙◌, arith, Bool-cases, inl, inr,
}
use native.Mathlib.Nat.{
  mod-eq_of_lt, add-mul-mod_self_left, mod-add-div, mod-lt, mul-add, mul_assoc,
}
use mudos_v22pre.Mapping.Key.{Keys}
use mudos_v22pre.Mapping.Chain.{Chain}
use mudos_v22pre.Mapping.Orders.{keep, turn_onto}
use mudos_v22pre.Mapping.State.{Mapping, goes_up, split_chain, split_bucket, split_buckets}

-- A remainder by twice a number.
pub bit : (a : ℕ) → (a % 2 ≡ 0) ⊎ (a % 2 ≡ 1)
bit a = elim (Bool-cases (a % 2 == 0)) [
  | inl e ↦ inl ((==_iff _ _).0 e)
  | inr e ↦ let l : a % 2 < 2 = mod-lt a (omega arith) in inr (ground arith)
]

times_bit : (n b : ℕ) → (b ≡ 0) ⊎ (b ≡ 1) → n * b ≤ n
times_bit n b (inl e) = rw e (omega arith)
times_bit n b (inr e) = rw e (omega arith)

pub mod-double : (h n : ℕ) → 0 < n → h % (n * 2) ≡ h % n + n * (h / n % 2)
mod-double h n pos =
    let a = h / n in
    let x = h % n + n * (a % 2) in
    let whole : h ≡ x + n * 2 * (a / 2) =
      let e = mod-add-div h n in
      let d = mod-add-div a 2 in
      let f : n * a ≡ n * (a % 2) + n * (2 * (a / 2)) =
        ap (λ k. n * k) (sym d) ∙ mul-add n (a % 2) (2 * (a / 2)) in
      let g = mul_assoc n 2 (a / 2) in omega arith in
    let less : x < n * 2 =
      let l = mod-lt h pos in let b = times_bit n (a % 2) (bit a) in omega arith in
    ap (λ k. k % (n * 2)) whole ∙ (add-mul-mod_self_left x (n * 2) (a / 2) ∙ mod-eq_of_lt less)

module _ {ℓ} {K V : Type ℓ} ⦃keys : Keys K⦄ where
  -- The nodes of a bucket that stay, and those that go to the new one, which has `b`.
  abbrev pub low : ℕ → Chain K V → Chain K V
  low oldsize c = keep (λ k. not (goes_up oldsize k)) c

  abbrev pub high : ℕ → Chain K V → Chain K V → Chain K V
  high oldsize c b = turn_onto (keep (goes_up oldsize) c) b

  pub split_chain-parts :
      (n : ℕ) (c b : Chain K V) (u : ℕ)
      → ((split_chain n c b u).0 ≡ low n c) × ((split_chain n c b u).1 ≡ high n c b)
  unfolding split_chain keep turn_onto
  split_chain-parts n [] b u = (refl, refl)
  split_chain-parts n (e ∷ c) b u = elim (Bool-cases (goes_up n e.0)) [
    | inl up ↦ rw (split_chain, up) (split_chain-parts n c (e ∷ b) _)
    | inr stays ↦
        let (l, h) = split_chain-parts n c b u in rw (split_chain, stays) (ap (λ x. e ∷ x) l, h)
  ]

  split_bucket-cut :
      (n i : ℕ) (m : Mapping K V) (j : ℕ)
      → ((split_bucket n i m).table j ≡ (
          if j == i + n
          then high n (m.table i) (m.table (i + n))
          else (if j == i then low n (m.table i) else m.table j)))
  unfolding split_bucket keep turn_onto
  split_bucket-cut n i m j = on (m.table i) refl
    where
      on :
          (c : Chain K V)
          → m.table i ≡ c
          → ((split_bucket n i m).table j ≡ (
              if j == i + n
              then high n c (m.table (i + n))
              else (if j == i then low n c else m.table j)))
      on [] e = elim (Bool-cases (j == i + n)) [
        | inl far ↦ rw (split_bucket, e, far) (ap m.table ((==_iff _ _).0 far))
        | inr near ↦ elim (Bool-cases (j == i)) [
          | inl here ↦ rw (split_bucket, e, near, here) (ap m.table ((==_iff _ _).0 here) ∙ e)
          | inr other ↦ rw (split_bucket, e, near, other) refl
        ]
      ]
      on (x ∷ c) e =
          let (l, h) = split_chain-parts n (x ∷ c) (m.table (i + n)) m.unfilled in
          rw (split_bucket, e)
            (ap₂
              (λ (lo hi : Chain K V). if j == i + n then hi else (if j == i then lo else m.table j))
              l h)

  module _ (n : ℕ) (i : ℕ) (m : Mapping K V) (pos : 0 < n) where
    split_bucket-low : (split_bucket n i m).table i ≡ low n (m.table i)
    split_bucket-low =
        let far : (i == i + n) ≡ false = ground (arith, pos) in
        split_bucket-cut n i m i ∙ (rw (far, ==_self i) refl)

    split_bucket-high : (split_bucket n i m).table (i + n) ≡ high n (m.table i) (m.table (i + n))
    split_bucket-high = split_bucket-cut n i m (i + n) ∙ (rw (==_self (i + n)) refl)

    pub split_bucket-rest : (j : ℕ) → j ≢ i → j ≢ i + n → (split_bucket n i m).table j ≡ m.table j
    split_bucket-rest j a b =
        let far : (j == i + n) ≡ false = ground (arith, b) in
        let near : (j == i) ≡ false = ground (arith, a) in
        split_bucket-cut n i m j ∙ (rw (far, near) refl)

  split_bucket-size :
      (n i : ℕ) (m : Mapping K V)
      → ((split_bucket n i m).table_size ≡ m.table_size) × ((split_bucket n i m).count ≡ m.count)
  unfolding split_bucket
  split_bucket-size n i m = on (m.table i) refl
    where
      on :
          (c : Chain K V)
          → m.table i ≡ c
          → ((split_bucket n i m).table_size ≡ m.table_size)
            × ((split_bucket n i m).count ≡ m.count)
      on [] e = rw (split_bucket, e) (refl, refl)
      on (x ∷ c) e = rw (split_bucket, e) (refl, refl)

  pub split_buckets-out :
      (n i : ℕ) (m : Mapping K V) (j : ℕ)
      → 0 < n
      → i ≤ n
      → i ≤ j
      → (j < n) ⊎ (i + n ≤ j)
      → (split_buckets n i m).table j ≡ m.table j
  unfolding split_buckets
  split_buckets-out n zero m j pos l a b = refl
  split_buckets-out n (suc i) m j pos l a b =
      split_buckets-out n i (split_bucket n i m) j pos (omega arith) (omega arith) (omega arith)
      ∙ split_bucket-rest n i m pos j (omega arith) (omega arith)

  pub split_buckets-low :
      (n i : ℕ) (m : Mapping K V) (j : ℕ)
      → 0 < n
      → i ≤ n
      → j < i
      → (split_buckets n i m).table j ≡ low n (m.table j)
  unfolding split_buckets
  split_buckets-low n zero m j pos l a = ground arith
  split_buckets-low n (suc i) m j pos l a = elim (Bool-cases (j == i)) [
    | inl last ↦
        let here = (==_iff j i).0 last in
        rw here (
          split_buckets-out n i (split_bucket n i m) i pos (omega arith) (omega arith) (inl l)
          ∙ split_bucket-low n i m pos)
    | inr other ↦
        let before : j < i = ground arith in
        split_buckets-low n i (split_bucket n i m) j pos (omega arith) before
        ∙ ap (low n) (split_bucket-rest n i m pos j (omega arith) (omega arith))
  ]

  pub split_buckets-high :
      (n i : ℕ) (m : Mapping K V) (j : ℕ)
      → 0 < n
      → i ≤ n
      → j < i
      → (split_buckets n i m).table (j + n) ≡ high n (m.table j) (m.table (j + n))
  unfolding split_buckets
  split_buckets-high n zero m j pos l a = ground arith
  split_buckets-high n (suc i) m j pos l a = elim (Bool-cases (j == i)) [
    | inl last ↦
        let here = (==_iff j i).0 last in
        rw here (
          split_buckets-out n i (split_bucket n i m) (i + n) pos (omega arith) (omega arith)
            (inr (omega arith))
          ∙ split_bucket-high n i m pos)
    | inr other ↦
        let before : j < i = ground arith in
        split_buckets-high n i (split_bucket n i m) j pos (omega arith) before
        ∙ ap₂ (high n) (split_bucket-rest n i m pos j (omega arith) (omega arith))
            (split_bucket-rest n i m pos (j + n) (omega arith) (omega arith))
  ]

  -- The number of nodes is not counted again.
  pub split_buckets-count : (n i : ℕ) (m : Mapping K V) → (split_buckets n i m).count ≡ m.count
  unfolding split_buckets
  split_buckets-count n zero m = refl
  split_buckets-count n (suc i) m =
      split_buckets-count n i (split_bucket n i m) ∙ (split_bucket-size n i m).1

  pub split_buckets-size :
      (n i : ℕ) (m : Mapping K V) → (split_buckets n i m).table_size ≡ m.table_size
  unfolding split_buckets
  split_buckets-size n zero m = refl
  split_buckets-size n (suc i) m =
      split_buckets-size n i (split_bucket n i m) ∙ (split_bucket-size n i m).0
