-- ===== src/Mapping/Changes.antt =====
-- `find_for_insert` and `mapping_delete` of src/mapping.c in a mapping in order.
use mudos_v22pre.Prelude.{
  ℕ, ◌≤◌, ◌<◌, none, some, [], ◌∷◌, ◌≡◌, inl, inr, refl, ap, ◌∙◌, arith, Bool-cases, Option-cases,
  if◌then◌else◌,
}
use mudos_v22pre.Mapping.Key.{Keys}
use mudos_v22pre.Mapping.Chain.{Chain, find_node, unlink_node}
use mudos_v22pre.Mapping.State.{
  Mapping, buckets, bucket_of, find_in_mapping, room_for_node, link_node, add_mapping_pair,
  mapping_delete,
}
use mudos_v22pre.Mapping.Update.{insert-known, insert-new}
use mudos_v22pre.Mapping.Laws.{node_of-find, add_mapping_pair-find, mapping_delete-find}
use mudos_v22pre.Mapping.Counted.{store_value-Counted}
use mudos_v22pre.Mapping.Filled.{occupied, occupied-le, emptied}
use mudos_v22pre.Mapping.Load.{IsSmall-le, store_value-Roomy, with_bucket-filled}
use mudos_v22pre.Mapping.Invariant.{mapping_delete-Counted}
use mudos_v22pre.Mapping.Success.{IsSound, new-IsSound}

module _ {ℓ} {K V : Type ℓ} ⦃keys : Keys K⦄ where
  -- An insertion into a mapping in order with fewer than `MAX_MAPPING_SIZE` nodes, if that is at most 16383, has no error: the table can grow when it has to. Behind it the key, and each that is the same, has the value and every other key what it had, and the mapping is in order, with its nodes counted and about 80 in 100 buckets at most in use.
  pub add_mapping_pair-made :
      (max_mapping_size : ℕ) (const0u : V) (m : Mapping K V) (key : K) (value : V)
      → IsSound m
      → m.count < max_mapping_size
      → max_mapping_size ≤ 16383
      → ((add_mapping_pair max_mapping_size const0u m key value).1 ≡ none)
        × ((q : K)
            → find_in_mapping (add_mapping_pair max_mapping_size const0u m key value).0 q
              ≡ (if keys.same key q then some value else find_in_mapping m q))
        × IsSound (add_mapping_pair max_mapping_size const0u m key value).0
  add_mapping_pair-made max_mapping_size const0u m key value s l h =
      let r = add_mapping_pair max_mapping_size const0u m key value in
      let f = add_mapping_pair-find max_mapping_size const0u m key value s.valid in
      elim (Option-cases (find_in_mapping m key)) [
        | inr (old, k) ↦
            let e = insert-known max_mapping_size const0u m key value old k in
            let ok : r.1 ≡ none = ap (λ p. p.1) e in
            (
              ok,
              λ q. f.0 q ∙ (rw ok refl),
              record {
                valid = f.1;
                counted = rw e (store_value-Counted key value m s.counted);
                roomy = rw e (store_value-Roomy key value m s.roomy);
              },
            )
        | inl new ↦
            let (room, t, c) = new-IsSound max_mapping_size m (key, const0u) s new l h in
            let e = insert-new max_mapping_size const0u m key value new room in
            let ok : r.1 ≡ none = ap (λ p. p.1) e in
            let linked = link_node key const0u (room_for_node max_mapping_size key m).0 in
            (
              ok,
              λ q. f.0 q ∙ (rw ok refl),
              record {
                valid = f.1;
                counted = rw e (store_value-Counted key value linked t.counted);
                roomy = rw e (store_value-Roomy key value linked t.roomy);
              },
            )
      ]

  occupied-unlink : (k : K) (c : Chain K V) → occupied (unlink_node k c) ≤ occupied c
  unfolding unlink_node
  occupied-unlink k [] = omega arith
  occupied-unlink k (e ∷ c) = elim (Bool-cases (keys.same e.0 k)) [
    | inl here ↦ rw here (occupied-le c)
    | inr later ↦ rw later (omega arith)
  ]

  found-occupied : (k : K) (c : Chain K V) (v : V) → find_node k c ≡ some v → occupied c ≡ 1
  unfolding find_node
  found-occupied k [] v h = absurd cc
  found-occupied k (e ∷ c) v h = refl

  -- A deletion leaves a mapping in order so, and behind it the key, and each that is the same, has no value, and every other key what it had.
  mapping_delete-IsSound :
      (m : Mapping K V) (k : K)
      → IsSound m
      → ((q : K)
          → find_in_mapping (mapping_delete m k).0 q
            ≡ (if keys.same k q then none else find_in_mapping m q))
        × IsSound (mapping_delete m k).0
  unfolding mapping_delete
  mapping_delete-IsSound m k s =
      let i = bucket_of k m in
      let d = mapping_delete-find m k s.valid in
      (
        d.0,
        record {
          valid = d.1;
          counted = mapping_delete-Counted m k s.counted;
          roomy = elim (node_of-find k (m.table i)) [
            | inl (n, f) ↦ rw (mapping_delete, n) s.roomy
            | inr (e, n, f, w) ↦
                let left = unlink_node k (m.table i) in
                let b = with_bucket-filled m k left in
                let o = occupied-unlink k (m.table i) in
                let below = s.roomy.below in
                let above = s.roomy.above in
                let most = IsSmall-le (buckets m) s.roomy.small in
                let some_left = s.roomy.some_left in
                let one = found-occupied k (m.table i) e.1 f in
                let less = occupied-le left in
                let u = emptied left m.unfilled (omega arith) in
                rw (mapping_delete, n)
                  (record {
                    some_left = omega arith;
                    below = omega arith;
                    above = omega arith;
                    small = s.roomy.small;
                  })
          ];
        },
      )
