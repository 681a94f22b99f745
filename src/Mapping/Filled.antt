-- ===== src/Mapping/Filled.antt =====
-- `unfilled` of src/mapping.c: how `growMap` counts the buckets that have nodes.
use mudos_v22pre.Prelude.{
  ℕ, zero, suc, ◌+◌, ◌*◌, ◌/◌, ◌≤◌, ◌<◌, true, false, List, [], ◌∷◌, ◌≡◌, inl, inr, refl, ap, ap₂,
  ◌∙◌, arith, Bool-cases, if◌then◌else◌, ltb,
}
use mudos_v22pre.Mapping.Key.{Keys}
use mudos_v22pre.Mapping.Chain.{Chain}
use mudos_v22pre.Mapping.Orders.{keep, turn_onto}
use mudos_v22pre.Mapping.State.{
  Mapping, goes_up, split_chain, split_bucket, split_buckets, doubled, buckets, is_empty, dec16,
  inc16,
}
use mudos_v22pre.Mapping.Totals.{total, total-agree, total-twice, total-sum, total-double}
use mudos_v22pre.Mapping.Grow.{low, high, split_chain-parts, split_bucket-rest}
use mudos_v22pre.Mapping.Valid.{grown_table, grown_table-low, grown_table-high, grown_table-buckets}

-- 1 for a bucket with nodes.
abbrev pub occupied {ℓ} : {A : Type ℓ} → List A → ℕ
occupied [] = 0
occupied (x ∷ xs) = 1

pub occupied-le {ℓ} : {A : Type ℓ} (c : List A) → occupied c ≤ 1
occupied-le [] = omega arith
occupied-le (x ∷ c) = omega arith

module _ {ℓ} {K V : Type ℓ} ⦃keys : Keys K⦄ where
  occupied-turn_onto : (c acc : Chain K V) (e : K × V) → occupied (turn_onto c (e ∷ acc)) ≡ 1
  unfolding turn_onto
  occupied-turn_onto [] acc e = refl
  occupied-turn_onto (x ∷ c) acc e = occupied-turn_onto c (e ∷ acc) x

  pub occupied-turned : (c : Chain K V) → occupied (turn_onto c []) ≡ occupied c
  unfolding turn_onto
  occupied-turned [] = refl
  occupied-turned (x ∷ c) = occupied-turn_onto c [] x

  -- `*b` has a node already.
  split_chain-used :
      (n : ℕ) (c b : Chain K V) (e : K × V) (u : ℕ) → (split_chain n c (e ∷ b) u).2 ≡ u
  unfolding split_chain
  split_chain-used n [] b e u = refl
  split_chain-used n (x ∷ c) b e u = elim (Bool-cases (goes_up n x.0)) [
    | inl up ↦ rw (split_chain, up) (split_chain-used n c (e ∷ b) x u)
    | inr stays ↦ rw (split_chain, stays) (split_chain-used n c b e u)
  ]

  -- `*b` has none.
  split_chain-unfilled :
      (n : ℕ) (c : Chain K V) (u : ℕ)
      → 0 < u
      → u ≤ 65535
      → (split_chain n c [] u).2 + occupied (high n c []) ≡ u
  unfolding split_chain keep turn_onto
  split_chain-unfilled n [] u pos fits = omega arith
  split_chain-unfilled n (x ∷ c) u pos fits = elim (Bool-cases (goes_up n x.0)) [
    | inl up ↦
        let a = split_chain-used n c [] x (dec16 u) in
        let b = occupied-turn_onto (keep (goes_up n) c) [] x in rw (split_chain, up) (omega arith)
    | inr stays ↦ rw (split_chain, stays) (split_chain-unfilled n c u pos fits)
  ]

  -- What a bucket comes to: the buckets with nodes among the two that it is split into.
  abbrev halves : ℕ → Chain K V → ℕ
  halves n c = occupied (low n c) + occupied (high n c [])

  -- `if (!*a) m->unfilled++`
  pub emptied :
      (c : Chain K V) (u : ℕ) → u < 65535 → (if is_empty c then inc16 u else u) + occupied c ≡ u + 1
  emptied [] u l = omega arith
  emptied (x ∷ c) u l = refl

  halves-le : (n : ℕ) (c : Chain K V) → halves n c ≤ 2 * occupied c
  unfolding keep turn_onto
  halves-le n [] = omega arith
  halves-le n (x ∷ c) =
      let l = occupied-le (low n (x ∷ c)) in let h = occupied-le (high n (x ∷ c) []) in omega arith

  split_bucket-unfilled :
      (n i : ℕ) (m : Mapping K V)
      → m.table (i + n) ≡ []
      → 0 < m.unfilled
      → m.unfilled < 65535
      → (split_bucket n i m).unfilled + halves n (m.table i) ≡ m.unfilled + occupied (m.table i)
  unfolding split_bucket keep turn_onto
  split_bucket-unfilled n i m b pos fits = on (m.table i) refl
    where
      on :
          (c : Chain K V)
          → m.table i ≡ c
          → (split_bucket n i m).unfilled + halves n c ≡ m.unfilled + occupied c
      on [] e = rw (split_bucket, e) (omega arith)
      on (x ∷ c) e =
          let r = split_chain n (x ∷ c) [] m.unfilled in
          let (l, h) = split_chain-parts n (x ∷ c) [] m.unfilled in
          let u = split_chain-unfilled n (x ∷ c) m.unfilled pos (omega arith) in
          let o = ap occupied l in
          let z = emptied r.0 r.2 (omega arith) in rw (split_bucket, e, b) (omega arith)

  split_buckets-unfilled :
      (n i : ℕ) (m : Mapping K V)
      → 0 < n
      → i ≤ n
      → ((j : ℕ) → j < i → m.table (j + n) ≡ [])
      → total occupied m.table i < m.unfilled
      → m.unfilled + i ≤ 65535
      → (split_buckets n i m).unfilled + total (halves n) m.table i
        ≡ m.unfilled + total occupied m.table i
  unfolding split_buckets total
  split_buckets-unfilled n zero m pos l new left fits = refl
  split_buckets-unfilled n (suc i) m pos l new left fits =
      let r = split_bucket n i m in
      let one = split_bucket-unfilled n i m (new i (omega arith)) (omega arith) (omega arith) in
      let le = halves-le n (m.table i) in
      let most = occupied-le (m.table i) in
      let same : (j : ℕ) → j < i → r.table j ≡ m.table j =
        λ j b. split_bucket-rest n i m pos j (omega arith) (omega arith) in
      let a = total-agree occupied r.table m.table i (λ j b. ap occupied (same j b)) in
      let h = total-agree (halves n) r.table m.table i (λ j b. ap (halves n) (same j b)) in
      let rest =
        split_buckets-unfilled n i r pos (omega arith)
          (λ j b.
            split_bucket-rest n i m pos (j + n) (omega arith) (omega arith) ∙ new j (omega arith))
          (omega arith) (omega arith) in
      omega arith

  -- The buckets with nodes.
  abbrev pub filled : Mapping K V → ℕ
  filled m = total occupied m.table (buckets m)

  -- `growMap` counts them right, and leaves some to fill.
  pub grown_table-filled :
      (m : Mapping K V)
      → filled m < buckets m * 80 / 100
      → buckets m * 2 ≤ 32768
      → ((grown_table m).unfilled + filled (grown_table m) ≡ buckets m * 80 / 100 + filled m)
        × (filled (grown_table m) ≤ 2 * filled m)
  grown_table-filled m left fits =
      let n = buckets m in
      let t = (grown_table m).table in
      let first : (j : ℕ) → j < n → (doubled m).table j ≡ m.table j =
        λ j l. let b : ltb j n ≡ true = ground (arith, l) in rw b refl in
      let o = total-agree occupied (doubled m).table m.table n (λ j l. ap occupied (first j l)) in
      let h =
        total-agree (halves n) (doubled m).table m.table n (λ j l. ap (halves n) (first j l)) in
      let u =
        split_buckets-unfilled n n (doubled m) (omega arith) (omega arith)
          (λ j l. let b : ltb (j + n) n ≡ false = ground arith in rw b refl) (omega arith)
          (omega arith) in
      let size : buckets (grown_table m) ≡ n + n = grown_table-buckets m ∙ (omega arith) in
      let both : total occupied t n + total occupied (λ i. t (i + n)) n
          ≡ total (halves n) m.table n =
        total-sum (halves n) occupied m.table t (λ i. t (i + n)) n
          (λ i l.
            ap₂ ◌+◌ (ap occupied (grown_table-low m i l)) (ap occupied (grown_table-high m i l))) in
      let all : filled (grown_table m) ≡ total (halves n) m.table n =
        ap (total occupied t) size ∙ (total-twice occupied t n n ∙ both) in
      let twice = total-double (halves n) occupied m.table n (halves-le n) in
      (omega arith, omega arith)
