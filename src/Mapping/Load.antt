-- ===== src/Mapping/Load.antt =====
-- How full the tables of src/mapping.c get: why they can grow when they have to.
use mudos_v22pre.Prelude.{
  ℕ, suc, ◌+◌, ◌-◌, ◌*◌, ◌/◌, ◌≤◌, ◌<◌, true, false, not, none, List, [], ◌∷◌, ◌≡◌, inl, inr, refl,
  sym, ap, ◌∙◌, arith, Bool-cases, ◌==◌, ==_iff, ltb, length,
}
use native.Mathlib.Nat.{mod-lt, pow-le-pow_right, pow-suc}
use Prim.Native.Nat.{◌^◌}
use mudos_v22pre.Mapping.Key.{Keys}
use mudos_v22pre.Mapping.Chain.{Chain, assign}
use mudos_v22pre.Mapping.Orders.{keep, turn_onto}
use mudos_v22pre.Mapping.State.{
  Mapping, goes_up, max_table_size, grow_map, fill_bucket, room_for_node, link_node, store_value,
  buckets, bucket_of, with_bucket, is_empty, dec16,
}
use mudos_v22pre.Mapping.Whole.{copy_mapping}
use mudos_v22pre.Mapping.Totals.{total-agree, total-update, total-below}
use mudos_v22pre.Mapping.Valid.{
  grown_table, grown_table-low, grown_table-high, grown_table-buckets, bucket_of-grown,
}
use mudos_v22pre.Mapping.Filled.{occupied, occupied-turned, filled, grown_table-filled}
use mudos_v22pre.Mapping.Counted.{Counted, nodes_from-total}

-- A power of 2 that is no more than `MAX_TABLE_SIZE`.
abbrev pub IsSmall : ℕ → Type 0
IsSmall n = (k : ℕ) × n ≡ 2 ^ k × k ≤ 15

pub IsSmall-le : (n : ℕ) → IsSmall n → n ≤ 32768
IsSmall-le n (k, e, l) =
    let p : 2 ^ k ≤ 2 ^ 15 = pow-le-pow_right {n = 2} (omega arith) l in
    let q : 2 ^ 15 ≡ 32768 = refl in omega arith

IsSmall-half : (n : ℕ) → IsSmall n → n < 32768 → n ≤ 16384
IsSmall-half n (k, e, l) less = elim (Bool-cases (k == 15)) [
  | inl last ↦
      let a : n ≡ 32768 = e ∙ ap (λ j. 2 ^ j) ((==_iff k 15).0 last) in absurd (omega arith)
  | inr other ↦
      let small : k ≤ 14 = ground arith in
      let p : 2 ^ k ≤ 2 ^ 14 = pow-le-pow_right {n = 2} (omega arith) small in
      let q : 2 ^ 14 ≡ 16384 = refl in omega arith
]

IsSmall-double : (n d : ℕ) → IsSmall n → n < 32768 → d ≡ n * 2 → IsSmall d
IsSmall-double n d (k, e, l) less h = elim (Bool-cases (k == 15)) [
  | inl last ↦
      let a : n ≡ 32768 = e ∙ ap (λ j. 2 ^ j) ((==_iff k 15).0 last) in absurd (omega arith)
  | inr other ↦ (suc k, h ∙ (ap (λ x. x * 2) e ∙ sym (pow-suc 2 k)), ground arith)
]

-- `unfilled` and the buckets with nodes come to about 80 in 100 buckets, and some are left to fill.
pub record Roomy {ℓ} {K V : Type ℓ} ⦃keys : Keys K⦄ (m : Mapping K V) : Type 0 where
  pub some_left : 0 < m.unfilled
  pub below : m.unfilled + filled m ≤ buckets m * 80 / 100
  pub above : buckets m ≤ 2 * (m.unfilled + filled m)
  pub small : IsSmall (buckets m)

is_empty-nil {ℓ} : {A : Type ℓ} (c : List A) → is_empty c ≡ true → c ≡ []
is_empty-nil [] h = refl
is_empty-nil (x ∷ c) h = absurd cc

not_empty-occupied {ℓ} : {A : Type ℓ} (c : List A) → is_empty c ≡ false → occupied c ≡ 1
not_empty-occupied [] h = absurd cc
not_empty-occupied (x ∷ c) h = refl

module _ {ℓ} {K V : Type ℓ} ⦃keys : Keys K⦄ where
  -- Both halves of a bucket with no nodes have none.
  grown_table-empty :
      (m : Mapping K V) (k : K)
      → m.table (bucket_of k m) ≡ []
      → (grown_table m).table (bucket_of k (grown_table m)) ≡ []
  unfolding keep turn_onto
  grown_table-empty m k e =
      let n = buckets m in
      let home : bucket_of k m < n = mod-lt (keys.hash k) (omega arith) in
      elim (Bool-cases (goes_up n k)) [
        | inl up ↦
            let i : bucket_of k (grown_table m) ≡ bucket_of k m + n =
              bucket_of-grown m k ∙ (rw up refl) in
            ap (grown_table m).table i
            ∙ (grown_table-high m (bucket_of k m) home
                ∙ ap (λ c. turn_onto (keep (goes_up n) c) []) e)
        | inr stays ↦
            let i : bucket_of k (grown_table m) ≡ bucket_of k m =
              bucket_of-grown m k ∙ (rw stays refl) in
            ap (grown_table m).table i
            ∙ (grown_table-low m (bucket_of k m) home ∙ ap (keep (λ x. not (goes_up n x))) e)
      ]

  filled-count : (m : Mapping K V) → Counted m → filled m ≤ m.count
  filled-count m c =
      let a = nodes_from-total m.table_size m in
      let b = total-below occupied length m.table (buckets m) (λ l. occupied-length l) in
      omega arith
    where
      occupied-length : (l : Chain K V) → occupied l ≤ length l
      occupied-length [] = omega arith
      occupied-length (x ∷ l) = omega arith

  -- A bucket that is replaced.
  pub with_bucket-filled :
      (m : Mapping K V) (k : K) (c : Chain K V)
      → filled (with_bucket (bucket_of k m) c m) + occupied (m.table (bucket_of k m))
        ≡ filled m + occupied c
  with_bucket-filled m k c =
      total-update occupied m.table (bucket_of k m) (buckets m) c
        (mod-lt (keys.hash k) (omega arith))

  -- A table in which there is room for a node of the key.
  record HasRoom (k : K) (m : Mapping K V) : Type 0 where
    left : 0 < m.unfilled
    sum_below :
        m.unfilled + (filled m + 1) ≤ buckets m * 80 / 100 + occupied (m.table (bucket_of k m))
    sum_above :
        buckets m + 2 * occupied (m.table (bucket_of k m)) ≤ 2 * (m.unfilled + (filled m + 1))
    bounded : IsSmall (buckets m)

  link_node-Roomy : (k : K) (v : V) (m : Mapping K V) → HasRoom k m → Roomy (link_node k v m)
  unfolding link_node
  link_node-Roomy k v m r =
      let f = with_bucket-filled m k ((k, v) ∷ m.table (bucket_of k m)) in
      record {
        some_left = r.left;
        below = let b = r.sum_below in omega arith;
        above = let a = r.sum_above in omega arith;
        small = r.bounded;
      }

  fill_bucket-HasRoom :
      (k : K) (m : Mapping K V)
      → Roomy m
      → Counted m
      → m.count < 16383
      → m.table (bucket_of k m) ≡ []
      → ((fill_bucket m).1 ≡ true) × HasRoom k (fill_bucket m).0
  unfolding fill_bucket grow_map
  fill_bucket-HasRoom k m r c l e =
      let o : occupied (m.table (bucket_of k m)) ≡ 0 = ap occupied e in
      let few = filled-count m c in
      let left = r.some_left in
      let below = r.below in
      let above = r.above in
      elim (Bool-cases (dec16 m.unfilled == 0)) [
        | inl full ↦
            let last : dec16 m.unfilled ≡ 0 = (==_iff _ _).0 full in
            let one : m.unfilled ≡ 1 = let s = IsSmall-le (buckets m) r.small in omega arith in
            let most = IsSmall-le (buckets m) r.small in
            let less : buckets m < 32768 = omega arith in
            let half = IsSmall-half (buckets m) r.small less in
            let fits : ltb max_table_size (buckets m * 2) ≡ false = ground arith in
            let spent = record m { unfilled = dec16 m.unfilled } in
            let (sum, twice) = grown_table-filled spent (omega arith) (omega arith) in
            let size = grown_table-buckets spent in
            let none_there = ap occupied (grown_table-empty spent k e) in
            rw (full, fits)
              (
                refl,
                record {
                  left = omega arith;
                  sum_below = omega arith;
                  sum_above = omega arith;
                  bounded =
                      IsSmall-double (buckets m) (buckets (grown_table spent)) r.small less size;
                },
              )
        | inr room ↦
            let u : dec16 m.unfilled ≡ m.unfilled - 1 =
              let s = IsSmall-le (buckets m) r.small in omega arith in
            let p : 0 < dec16 m.unfilled = ground (arith, room) in
            rw room (
              refl,
              record {
                left = p;
                sum_below = omega arith;
                sum_above = omega arith;
                bounded = r.small;
              },
            )
      ]

  -- With fewer than 16383 nodes there is room for one more, and it may be made by growth.
  pub room_for_node-Roomy :
      (max_mapping_size : ℕ) (k : K) (v : V) (m : Mapping K V)
      → Roomy m
      → Counted m
      → m.count < max_mapping_size
      → max_mapping_size ≤ 16383
      → ((room_for_node max_mapping_size k m).1 ≡ none)
        × Roomy (link_node k v (room_for_node max_mapping_size k m).0)
  unfolding room_for_node
  room_for_node-Roomy max_mapping_size k v m r c l h =
      let fits : ltb max_mapping_size (m.count + 1) ≡ false = ground arith in
      elim (Bool-cases (is_empty (m.table (bucket_of k m)))) [
        | inl new ↦
            let (ok, room) = fill_bucket-HasRoom k m r c (omega arith) (is_empty-nil _ new) in
            rw (new, ok, fits) (refl, link_node-Roomy k v (fill_bucket m).0 room)
        | inr used ↦
            let o = not_empty-occupied (m.table (bucket_of k m)) used in
            let left = r.some_left in
            let below = r.below in
            let above = r.above in
            rw (used, fits)
              (
                refl,
                link_node-Roomy k v m (record {
                  left = left;
                  sum_below = omega arith;
                  sum_above = omega arith;
                  bounded = r.small;
                }),
              )
      ]

  occupied-assign : (k : K) (v : V) (c : Chain K V) → occupied (assign k v c) ≡ occupied c
  unfolding assign
  occupied-assign k v [] = refl
  occupied-assign k v (e ∷ c) = elim (Bool-cases (keys.same e.0 k)) [
    | inl here ↦ rw here refl
    | inr later ↦ rw later refl
  ]

  pub store_value-Roomy : (k : K) (v : V) (m : Mapping K V) → Roomy m → Roomy (store_value m k v)
  unfolding store_value
  store_value-Roomy k v m r =
      let o = occupied-assign k v (m.table (bucket_of k m)) in
      let f = with_bucket-filled m k (assign k v (m.table (bucket_of k m))) in
      let below = r.below in
      let above = r.above in
      record { some_left = r.some_left; below = omega arith; above = omega arith; small = r.small }

  pub copy_mapping-Roomy : (m : Mapping K V) → Roomy m → Roomy (copy_mapping m)
  unfolding copy_mapping
  copy_mapping-Roomy m r =
      let f =
        total-agree occupied (copy_mapping m).table m.table (buckets m)
          (λ i l. occupied-turned (m.table i)) in
      let below = r.below in
      let above = r.above in
      record { some_left = r.some_left; below = omega arith; above = omega arith; small = r.small }
