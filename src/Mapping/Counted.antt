-- ===== src/Mapping/Counted.antt =====
-- The number of nodes of a mapping of src/mapping.c, which it keeps in `count`.
use mudos_v22pre.Prelude.{
  ℕ, zero, suc, ◌+◌, ◌*◌, ◌<◌, Bool, not, some, [], ◌∷◌, ◌++◌, ◌≡◌, inl, inr, refl, sym, ap, ◌∙◌,
  arith, Bool-cases, ◌==◌, ltb, length, length-append,
}
use native.Mathlib.Nat.{mod-lt}
use mudos_v22pre.Mapping.Key.{Keys}
use mudos_v22pre.Mapping.Chain.{Chain, find_node, assign, unlink_node}
use mudos_v22pre.Mapping.Orders.{keep, turn_onto}
use mudos_v22pre.Mapping.State.{
  Mapping, goes_up, max_table_size, doubled, grow_map, buckets, bucket_of, with_bucket, fill_bucket,
  room_for_node, link_node, store_value, dec16, is_empty,
}
use mudos_v22pre.Mapping.Totals.{total, total-agree, total-update, total-twice, total-sum}
use mudos_v22pre.Mapping.Grow.{split_buckets-count}
use mudos_v22pre.Mapping.Valid.{grown_table, grown_table-low, grown_table-high, grown_table-buckets}
use mudos_v22pre.Mapping.Whole.{nodes_from, nodes, copy_mapping}

module _ {ℓ} {K V : Type ℓ} where
  pub nodes_from-total :
      (j : ℕ) (m : Mapping K V) → length (nodes_from j m) ≡ total length m.table (suc j)
  unfolding nodes_from total
  nodes_from-total zero m = omega arith
  nodes_from-total (suc j) m =
      length-append (m.table (suc j)) (nodes_from j m)
      ∙ ap (λ n. length (m.table (suc j)) + n) (nodes_from-total j m)

module _ {ℓ} {K V : Type ℓ} ⦃keys : Keys K⦄ where
  length-turn_onto : (c acc : Chain K V) → length (turn_onto c acc) ≡ length c + length acc
  unfolding turn_onto
  length-turn_onto [] acc = omega arith
  length-turn_onto (e ∷ c) acc = let h = length-turn_onto c (e ∷ acc) in omega arith

  -- The nodes that stay and those that go.
  length-parts :
      (p : K → Bool) (c : Chain K V)
      → length (keep (λ k. not (p k)) c) + length (keep p c) ≡ length c
  unfolding keep
  length-parts p [] = refl
  length-parts p (e ∷ c) =
      let h = length-parts p c in
      elim (Bool-cases (p e.0)) [
        | inl goes ↦ rw goes (omega arith)
        | inr stays ↦ rw stays (omega arith)
      ]

  length-assign : (k : K) (v : V) (c : Chain K V) → length (assign k v c) ≡ length c
  unfolding assign
  length-assign k v [] = refl
  length-assign k v (e ∷ c) =
      let h = length-assign k v c in
      elim (Bool-cases (keys.same e.0 k)) [
        | inl here ↦ rw here refl
        | inr later ↦ rw later (omega arith)
      ]

  pub length-unlink :
      (k : K) (c : Chain K V) (v : V)
      → find_node k c ≡ some v
      → length (unlink_node k c) + 1 ≡ length c
  unfolding unlink_node find_node
  length-unlink k [] v h = absurd cc
  length-unlink k (e ∷ c) v h = elim (Bool-cases (keys.same e.0 k)) [
    | inl here ↦ rw here (omega arith)
    | inr later ↦ let h = length-unlink k c v (ground (arith, h, later)) in rw later (omega arith)
  ]

  -- The nodes are as many as are counted.
  abbrev pub Counted : Mapping K V → Type 0
  Counted m = m.count ≡ length (nodes m)

  grown_table-total : (m : Mapping K V) → length (nodes (grown_table m)) ≡ length (nodes m)
  grown_table-total m =
      let n = buckets m in
      let t = (grown_table m).table in
      let size : suc (grown_table m).table_size ≡ n + n = grown_table-buckets m ∙ (omega arith) in
      let all = nodes_from-total (grown_table m).table_size (grown_table m) in
      let old = nodes_from-total m.table_size m in
      let halves = total-twice length t n n in
      let both : total length t n + total length (λ i. t (i + n)) n ≡ total length m.table n =
        total-sum length length m.table t (λ i. t (i + n)) n
          (λ i l.
            let a = ap length (grown_table-low m i l) in
            let b =
              ap length (grown_table-high m i l)
              ∙ length-turn_onto (keep (goes_up n) (m.table i)) [] in
            let d = length-parts (goes_up n) (m.table i) in omega arith) in
      all ∙ (ap (total length t) size ∙ (halves ∙ (both ∙ sym old)))

  pub bucket-Counted :
      (m : Mapping K V) (k : K) (c : Chain K V)
      → length (nodes (with_bucket (bucket_of k m) c m)) + length (m.table (bucket_of k m))
        ≡ length (nodes m) + length c
  bucket-Counted m k c =
      let home : bucket_of k m < suc m.table_size = mod-lt (keys.hash k) (omega arith) in
      let a = nodes_from-total m.table_size (with_bucket (bucket_of k m) c m) in
      let b = nodes_from-total m.table_size m in
      let d = total-update length m.table (bucket_of k m) (suc m.table_size) c home in omega arith

  -- Fields that do not count.
  pub nodes_from-fields :
      (j : ℕ) (m : Mapping K V) (u n : ℕ)
      → nodes_from j (record m { unfilled = u; count = n }) ≡ nodes_from j m
  unfolding nodes_from
  nodes_from-fields zero m u n = refl
  nodes_from-fields (suc j) m u n = ap (λ l. m.table (suc j) ++ l) (nodes_from-fields j m u n)

  grow_map-Counted : (m : Mapping K V) → Counted m → Counted (grow_map m).0
  unfolding grow_map
  grow_map-Counted m c = elim (Bool-cases (ltb max_table_size (buckets m * 2))) [
    | inl large ↦ rw large c
    | inr fits ↦
        rw fits (
          split_buckets-count (buckets m) (buckets m) (doubled m) ∙ (c ∙ sym (grown_table-total m)))
  ]

  fill_bucket-Counted : (m : Mapping K V) → Counted m → Counted (fill_bucket m).0
  unfolding fill_bucket
  fill_bucket-Counted m c =
      let filled = record m { unfilled = dec16 m.unfilled } in
      let d : Counted filled =
        c ∙ ap length (sym (nodes_from-fields m.table_size m (dec16 m.unfilled) m.count)) in
      elim (Bool-cases (dec16 m.unfilled == 0)) [
        | inl full ↦ rw full (grow_map-Counted filled d)
        | inr room ↦ rw room d
      ]

  pub room_for_node-Counted :
      (max_mapping_size : ℕ) (k : K) (m : Mapping K V)
      → Counted m
      → Counted (room_for_node max_mapping_size k m).0
  unfolding room_for_node
  room_for_node-Counted max_mapping_size k m c =
      elim (Bool-cases (is_empty (m.table (bucket_of k m)))) [
        | inl new ↦ elim (Bool-cases (fill_bucket m).1) [
          | inl grown ↦ rw (new, grown) (fill_bucket-Counted m c)
          | inr full ↦ rw (new, full) (fill_bucket-Counted m c)
        ]
        | inr used ↦ rw used c
      ]

  pub link_node-Counted : (k : K) (v : V) (m : Mapping K V) → Counted m → Counted (link_node k v m)
  unfolding link_node
  link_node-Counted k v m c =
      let b = bucket-Counted m k ((k, v) ∷ m.table (bucket_of k m)) in
      let n = with_bucket (bucket_of k m) ((k, v) ∷ m.table (bucket_of k m)) m in
      let f = ap length (nodes_from-fields m.table_size n m.unfilled (m.count + 1)) in omega arith

  pub store_value-Counted :
      (k : K) (v : V) (m : Mapping K V) → Counted m → Counted (store_value m k v)
  unfolding store_value
  store_value-Counted k v m c =
      let b = bucket-Counted m k (assign k v (m.table (bucket_of k m))) in
      let l = length-assign k v (m.table (bucket_of k m)) in omega arith

  pub copy_mapping-Counted : (m : Mapping K V) → Counted m → Counted (copy_mapping m)
  unfolding copy_mapping
  copy_mapping-Counted m c =
      let a = nodes_from-total m.table_size m in
      let b = nodes_from-total m.table_size (copy_mapping m) in
      let d =
        total-agree length (copy_mapping m).table m.table (suc m.table_size)
          (λ i l. length-turn_onto (m.table i) [] ∙ (omega arith)) in
      omega arith
