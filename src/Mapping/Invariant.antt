-- ===== src/Mapping/Invariant.antt =====
-- The operations of src/mapping.c keep the number of nodes.
use mudos_v22pre.Prelude.{
  ℕ, ◌-◌, Bool, true, false, Option, none, some, [], ◌∷◌, inl, inr, sym, ap, ◌∙◌, arith, Bool-cases,
  Option-cases, if◌then◌else◌, ◌==◌, leb, length, subst,
}
use mudos_v22pre.Mapping.Key.{Keys}
use mudos_v22pre.Mapping.Chain.{Chain, find_node, unlink_node}
use mudos_v22pre.Mapping.State.{
  Mapping, Failure, out_of_memory, mapping_too_large, bucket_of, with_bucket, find_in_mapping,
  room_for_node, link_node, store_value, add_mapping_pair, mapping_delete, is_empty, inc16,
}
use mudos_v22pre.Mapping.Update.{insert-known, insert-full, insert-new}
use mudos_v22pre.Mapping.Laws.{node_of-find}
use mudos_v22pre.Mapping.Whole.{
  nodes, copy_mapping, add_nodes, merged, unfilled_again, add_to_mapping, unique_add_to_mapping,
  add_mapping,
}
use mudos_v22pre.Mapping.OneByOne.{add_one_by_one, add_nodes-one_by_one}
use mudos_v22pre.Mapping.Counted.{
  Counted, nodes_from-fields, room_for_node-Counted, link_node-Counted, store_value-Counted,
  copy_mapping-Counted, bucket-Counted, length-unlink,
}

module _ {ℓ} {K V : Type ℓ} ⦃keys : Keys K⦄ where
  add_mapping_pair-Counted :
      (max_mapping_size : ℕ) (const0u : V) (m : Mapping K V) (key : K) (value : V)
      → Counted m
      → Counted (add_mapping_pair max_mapping_size const0u m key value).0
  add_mapping_pair-Counted max_mapping_size const0u m key value c =
      elim (Option-cases (find_in_mapping m key)) [
        | inr (old, h) ↦
            rw (insert-known max_mapping_size const0u m key value old h)
              (store_value-Counted key value m c)
        | inl h ↦
            let room = room_for_node max_mapping_size key m in
            let r = room_for_node-Counted max_mapping_size key m c in
            elim (Option-cases room.1) [
              | inr (f, e) ↦ rw (insert-full max_mapping_size const0u m key value f h e) r
              | inl e ↦ rw (insert-new max_mapping_size const0u m key value h e) (
                  store_value-Counted key value (link_node key const0u room.0)
                    (link_node-Counted key const0u room.0 r))
            ]
      ]

  pub mapping_delete-Counted :
      (m : Mapping K V) (k : K) → Counted m → Counted (mapping_delete m k).0
  unfolding mapping_delete
  mapping_delete-Counted m k c =
      let i = bucket_of k m in
      elim (node_of-find k (m.table i)) [
        | inl (n, f) ↦ rw (mapping_delete, n) c
        | inr (e, n, f, s) ↦
            let left = unlink_node k (m.table i) in
            let b = bucket-Counted m k left in
            let l = length-unlink k (m.table i) e.1 f in
            let u = if is_empty left then inc16 m.unfilled else m.unfilled in
            let g =
              ap length (nodes_from-fields m.table_size (with_bucket i left m) u (m.count - 1)) in
            rw (mapping_delete, n) (omega arith)
      ]

  pub put-Counted :
      (overwrite : Bool) (m : Mapping K V) (e : K × V)
      → Counted m
      → Counted (if overwrite then store_value m e.0 e.1 else m)
  put-Counted true m e c = store_value-Counted e.0 e.1 m c
  put-Counted false m e c = c

  add_one_by_one-Counted :
      (overwrite : Bool) (max_mapping_size : ℕ) (m : Mapping K V) (es : Chain K V)
      → Counted m
      → Counted (add_one_by_one overwrite max_mapping_size m es).0
  unfolding add_one_by_one
  add_one_by_one-Counted overwrite max_mapping_size m [] c = c
  add_one_by_one-Counted overwrite max_mapping_size m (e ∷ es) c =
      let room = room_for_node max_mapping_size e.0 m in
      let r = room_for_node-Counted max_mapping_size e.0 m c in
      elim (Option-cases (find_node e.0 (m.table (bucket_of e.0 m)))) [
        | inr (old, h) ↦
            rw (add_one_by_one, h)
              (add_one_by_one-Counted overwrite max_mapping_size
                (if overwrite then store_value m e.0 e.1 else m) es (put-Counted overwrite m e c))
        | inl h ↦ elim (Option-cases room.1) [
          | inl ok ↦
              rw (add_one_by_one, h, ok)
                (add_one_by_one-Counted overwrite max_mapping_size (link_node e.0 e.1 room.0) es
                  (link_node-Counted e.0 e.1 room.0 r))
          | inr (f, bad) ↦ rw (add_one_by_one, h, bad) r
        ]
      ]

  add_nodes-Counted :
      (overwrite : Bool) (max_mapping_size : ℕ) (m : Mapping K V) (es : Chain K V)
      → Counted m
      → Counted (add_nodes overwrite max_mapping_size m es).0
  add_nodes-Counted overwrite max_mapping_size m es c =
      subst (λ (p : Mapping K V × Option Failure). Counted p.0)
        (sym (add_nodes-one_by_one overwrite max_mapping_size m es))
        (add_one_by_one-Counted overwrite max_mapping_size m es c)

  merged-Counted :
      (free_flag : Bool) (r : Mapping K V × Option Failure)
      → Counted r.0
      → Counted (merged free_flag r).made
  merged-Counted free_flag (m, none) c = c
  merged-Counted free_flag (m, some out_of_memory) c = c
  merged-Counted free_flag (m, some mapping_too_large) c = c

  again-Counted : (r : Mapping K V × Option Failure) → Counted r.0 → Counted (unfilled_again r).0
  again-Counted (m, none) c = c
  again-Counted (m, some out_of_memory) c =
      c ∙ ap length (sym (nodes_from-fields m.table_size m (inc16 m.unfilled) m.count))
  again-Counted (m, some mapping_too_large) c = c

  add_mapping-Counted :
      (max_mapping_size : ℕ) (m1 m2 : Mapping K V)
      → Counted m1
      → Counted m2
      → Counted (add_mapping max_mapping_size m1 m2).made
  unfolding add_mapping add_to_mapping unique_add_to_mapping
  add_mapping-Counted max_mapping_size m1 m2 c1 c2 =
      let d1 = copy_mapping-Counted m1 c1 in
      let d2 = copy_mapping-Counted m2 c2 in
      elim (Bool-cases (leb m2.count m1.count)) [
        | inl more ↦ elim (Bool-cases (m2.count == 0)) [
          | inl empty ↦ rw (more, empty) d1
          | inr full ↦
              rw (more, full)
                (merged-Counted true _
                  (add_nodes-Counted true max_mapping_size (copy_mapping m1) (nodes m2) d1))
        ]
        | inr fewer ↦ elim (Bool-cases (m1.count == 0)) [
          | inl empty ↦ rw (fewer, empty) d2
          | inr full ↦
              rw (fewer, full)
                (merged-Counted true _ (
                  again-Counted _
                    (add_nodes-Counted false max_mapping_size (copy_mapping m2) (nodes m1) d2)))
        ]
      ]

  -- If `count` is the number of nodes that a traversal comes to, in both mappings, it is so behind an
  -- insertion, a deletion and in the sum of the two, also where these end in an error.
  pub mapping_count-kept :
      (max_mapping_size : ℕ) (const0u : V) (m m2 : Mapping K V) (key : K) (value : V)
      → Counted m
      → Counted m2
      → Counted (add_mapping_pair max_mapping_size const0u m key value).0
        × Counted (mapping_delete m key).0
        × Counted (add_mapping max_mapping_size m m2).made
  mapping_count-kept max_mapping_size const0u m m2 key value c c2 = (
    add_mapping_pair-Counted max_mapping_size const0u m key value c,
    mapping_delete-Counted m key c,
    add_mapping-Counted max_mapping_size m m2 c c2,
  )
