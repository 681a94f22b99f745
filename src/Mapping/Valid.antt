-- ===== src/Mapping/Valid.antt =====
-- Mappings of src/mapping.c whose nodes stand in their buckets.
use mudos_v22pre.Prelude.{
  ℕ, suc, ◌+◌, ◌*◌, ◌-◌, ◌/◌, ◌%◌, ◌<◌, ◌≤◌, Bool, true, false, not, none, [], ◌≡◌, ◌⊎◌, inl, inr,
  refl, sym, ap, ◌∙◌, subst, arith, Bool-cases, if◌then◌else◌, ◌==◌, ltb,
}
use mudos_v22pre.Mapping.Key.{Keys, Respects}
use mudos_v22pre.Mapping.Chain.{Chain, find_node, Distinct}
use mudos_v22pre.Mapping.Orders.{
  keep, turn_onto, find_node-keep, find_node-keep_out, find_node-keep-none, Distinct-keep,
  find_node-turned, Distinct-turned,
}
use mudos_v22pre.Mapping.State.{
  Mapping, goes_up, split_buckets, doubled, grow_map, buckets, bucket_of, find_in_mapping,
  max_table_size,
}
use mudos_v22pre.Mapping.Grow.{
  mod-double, bit, low, split_buckets-low, split_buckets-high, split_buckets-out,
  split_buckets-size, split_buckets-count,
}
use native.Mathlib.Nat.{mod-lt}

-- No key stands twice in a bucket, and a key stands in no bucket but its own.
pub record IsValid {ℓ} {K V : Type ℓ} ⦃keys : Keys K⦄ (m : Mapping K V) : Type ℓ where
  pub distinct : (i : ℕ) → Distinct (m.table i)
  pub placed : (i : ℕ) (q : K) → (bucket_of q m == i) ≡ false → find_node q (m.table i) ≡ none

module _ {ℓ} {K : Type ℓ} ⦃keys : Keys K⦄ where
  goes_up-Respects : (n : ℕ) → Respects {K = K} (λ k. goes_up n k)
  goes_up-Respects n a b h = ap (λ x. x / n % 2 == 1) (keys.hash_same a b h)

  not-Respects : (p : K → Bool) → Respects p → Respects (λ k. not (p k))
  not-Respects p r a b h = ap not (r a b h)

half : (i n : ℕ) → (i < n) ⊎ (((j : ℕ) × j < n × i ≡ j + n) ⊎ (n + n ≤ i))
half i n = elim (Bool-cases (ltb i n)) [
  | inl first ↦ inl (ground arith)
  | inr later ↦ elim (Bool-cases (ltb i (n + n))) [
    | inl second ↦ inr (inl (i - n, ground arith, ground arith))
    | inr beyond ↦ inr (inr (ground arith))
  ]
]

module _ {ℓ} {K V : Type ℓ} ⦃keys : Keys K⦄ where
  -- The table behind `growMap`.
  abbrev pub grown_table : Mapping K V → Mapping K V
  grown_table m = split_buckets (buckets m) (buckets m) (doubled m)

  module _ (m : Mapping K V) where
    pub grown_table-low :
        (j : ℕ) → j < buckets m → (grown_table m).table j ≡ low (buckets m) (m.table j)
    grown_table-low j l =
        let first : ltb j (buckets m) ≡ true = ground (arith, l) in
        split_buckets-low (buckets m) (buckets m) (doubled m) j (omega arith) (omega arith) l
        ∙ (rw first refl)

    pub grown_table-high :
        (j : ℕ)
        → j < buckets m
        → (grown_table m).table (j + buckets m)
          ≡ turn_onto (keep (goes_up (buckets m)) (m.table j)) []
    grown_table-high j l =
        let first : ltb j (buckets m) ≡ true = ground (arith, l) in
        let second : ltb (j + buckets m) (buckets m) ≡ false = ground arith in
        split_buckets-high (buckets m) (buckets m) (doubled m) j (omega arith) (omega arith) l
        ∙ (rw (first, second) refl)

    grown_table-out : (j : ℕ) → buckets m + buckets m ≤ j → (grown_table m).table j ≡ []
    grown_table-out j l =
        let beyond : ltb j (buckets m) ≡ false = ground (arith, l) in
        split_buckets-out (buckets m) (buckets m) (doubled m) j (omega arith) (omega arith)
          (omega arith) (inr l)
        ∙ (rw beyond refl)

    pub grown_table-buckets : buckets (grown_table m) ≡ buckets m * 2
    grown_table-buckets =
        ap suc (split_buckets-size (buckets m) (buckets m) (doubled m)) ∙ (omega arith)

    -- The bucket of a key in the table that has grown.
    pub bucket_of-grown :
        (q : K)
        → bucket_of q (grown_table m)
          ≡ (if goes_up (buckets m) q then bucket_of q m + buckets m else bucket_of q m)
    bucket_of-grown q =
        ap (λ k. keys.hash q % k) grown_table-buckets
        ∙ (mod-double (keys.hash q) (buckets m) (omega arith)
            ∙ elim (bit (keys.hash q / buckets m)) [
              | inl e ↦ rw e (omega arith)
              | inr e ↦ rw e (omega arith)
            ])

    module _ (valid : IsValid m) where
      grown_table-find : (q : K) → find_in_mapping (grown_table m) q ≡ find_in_mapping m q
      unfolding find_in_mapping
      grown_table-find q =
          let n = buckets m in
          let i = bucket_of q m in
          let inside : i < n = mod-lt (keys.hash q) (omega arith) in
          let r = goes_up-Respects {K = K} n in
          elim (Bool-cases (goes_up n q)) [
            | inl up ↦
                let home : bucket_of q (grown_table m) ≡ i + n = bucket_of-grown q ∙ (rw up refl) in
                ap (λ j. find_node q ((grown_table m).table j)) home
                ∙ (ap (find_node q) (grown_table-high i inside)
                    ∙ (find_node-turned q (keep (goes_up n) (m.table i))
                          (Distinct-keep (goes_up n) (m.table i) (valid.distinct i))
                        ∙ find_node-keep (goes_up n) r q (m.table i) up))
            | inr stays ↦
                let home : bucket_of q (grown_table m) ≡ i = bucket_of-grown q ∙ (rw stays refl) in
                ap (λ j. find_node q ((grown_table m).table j)) home
                ∙ (ap (find_node q) (grown_table-low i inside)
                    ∙ find_node-keep (λ k. not (goes_up n k)) (not-Respects (goes_up n) r) q
                        (m.table i) (ap not stays))
          ]

      grown_table-placed_low :
          (i : ℕ) (q : K)
          → i < buckets m
          → (bucket_of q (grown_table m) == i) ≡ false
          → find_node q ((grown_table m).table i) ≡ none
      grown_table-placed_low i q first away =
          let n = buckets m in
          let stay = not-Respects (goes_up n) (goes_up-Respects n) in
          ap (find_node q) (grown_table-low i first) ∙ elim (Bool-cases (goes_up n q)) [
            | inl up ↦ find_node-keep_out (λ k. not (goes_up n k)) stay q (m.table i) (ap not up)
            | inr stays ↦
                let home : bucket_of q (grown_table m) ≡ bucket_of q m =
                  bucket_of-grown q ∙ (rw stays refl) in
                find_node-keep-none (λ k. not (goes_up n k)) q (m.table i)
                  (valid.placed i q (ap (λ k. k == i) (sym home) ∙ away))
          ]

      grown_table-placed_high :
          (j : ℕ) (q : K)
          → (bucket_of q (grown_table m) == j + buckets m) ≡ false
          → find_node q (turn_onto (keep (goes_up (buckets m)) (m.table j)) []) ≡ none
      grown_table-placed_high j q away =
          let n = buckets m in
          let moved = keep (goes_up n) (m.table j) in
          find_node-turned q moved (Distinct-keep (goes_up n) (m.table j) (valid.distinct j))
          ∙ elim (Bool-cases (goes_up n q)) [
            | inl up ↦
                let home : bucket_of q (grown_table m) ≡ bucket_of q m + n =
                  bucket_of-grown q ∙ (rw up refl) in
                let apart = ap (λ k. k == j + n) (sym home) ∙ away in
                find_node-keep-none (goes_up n) q (m.table j)
                  (valid.placed j q (ground (arith, apart)))
            | inr stays ↦ find_node-keep_out (goes_up n) (goes_up-Respects n) q (m.table j) stays
          ]

      -- A bucket of the first half, of the second half, or of neither.
      grown_table-IsValid : IsValid (grown_table m)
      unfolding find_node Distinct
      grown_table-IsValid = record {
        distinct = λ i. elim (half i (buckets m)) [
          | inl first ↦
              subst (λ (c : Chain K V). Distinct c) (sym (grown_table-low i first))
                (Distinct-keep _ (m.table i) (valid.distinct i))
          | inr (inl (j, l, e)) ↦
              subst (λ (c : Chain K V). Distinct c)
                (sym (ap (grown_table m).table e ∙ grown_table-high j l))
                (Distinct-turned _ (Distinct-keep _ (m.table j) (valid.distinct j)))
          | inr (inr beyond) ↦
              subst (λ (c : Chain K V). Distinct c) (sym (grown_table-out i beyond)) tt
        ];
        placed = λ i q away. elim (half i (buckets m)) [
          | inl first ↦ grown_table-placed_low i q first away
          | inr (inl (j, l, e)) ↦
              ap (find_node q) (ap (grown_table m).table e ∙ grown_table-high j l)
              ∙ grown_table-placed_high j q
                  (ap (λ k. bucket_of q (grown_table m) == k) (sym e) ∙ away)
          | inr (inr beyond) ↦ ap (find_node q) (grown_table-out i beyond) ∙ refl
        ];
      }

  -- Growth, whether it takes place or not.
  grow_map-IsValid : (m : Mapping K V) → IsValid m → IsValid (grow_map m).0
  unfolding grow_map
  grow_map-IsValid m valid = elim (Bool-cases (ltb max_table_size (buckets m * 2))) [
    | inl large ↦ rw large valid
    | inr fits ↦ rw fits (grown_table-IsValid m valid)
  ]

  pub grow_map-count : (m : Mapping K V) → (grow_map m).0.count ≡ m.count
  unfolding grow_map
  grow_map-count m = elim (Bool-cases (ltb max_table_size (buckets m * 2))) [
    | inl large ↦ rw large refl
    | inr fits ↦ rw fits (split_buckets-count (buckets m) (buckets m) (doubled m))
  ]

  -- `growMap` changes no look-up, whether the table doubles or is left as it is; behind it, too, no key stands twice and every key stands in its bucket; and the table is left only if twice its size is above `MAX_TABLE_SIZE`.
  pub grow_map-find :
      (m : Mapping K V)
      → IsValid m
      → ((q : K) → find_in_mapping (grow_map m).0 q ≡ find_in_mapping m q)
        × IsValid (grow_map m).0
        × (buckets (grow_map m).0 ≡ (if (grow_map m).1 then buckets m * 2 else buckets m))
        × ((grow_map m).1 ≡ not (ltb max_table_size (buckets m * 2)))
  unfolding grow_map
  grow_map-find m valid =
      let kept = grow_map-IsValid m valid in
      elim (Bool-cases (ltb max_table_size (buckets m * 2))) [
        | inl large ↦ (λ q. rw large refl, kept, rw large refl, rw large refl)
        | inr fits ↦ (
          λ q. rw fits (grown_table-find m valid q),
          kept,
          rw fits (grown_table-buckets m),
          rw fits refl,
        )
      ]
