-- ===== src/Mapping/Success.antt =====
-- When the operations of src/mapping.c that make nodes succeed.
use mudos_v22pre.Prelude.{
  ℕ, ◌+◌, ◌≤◌, ◌<◌, Bool, true, false, none, [], ◌∷◌, ◌≡◌, inl, inr, refl, ap, ◌∙◌, arith,
  Option-cases, if◌then◌else◌, ltb, length, subst, sym, Option,
}
use mudos_v22pre.Mapping.Key.{Keys}
use mudos_v22pre.Mapping.Chain.{Chain, find_node}
use mudos_v22pre.Mapping.State.{
  Failure, Mapping, bucket_of, find_in_mapping, room_for_node, link_node, store_value,
}
use mudos_v22pre.Mapping.Valid.{IsValid}
use mudos_v22pre.Mapping.Insert.{link_node-IsValid}
use mudos_v22pre.Mapping.Update.{room_for_node-Same}
use mudos_v22pre.Mapping.OneByOne.{add_one_by_one, add_nodes-one_by_one}
use mudos_v22pre.Mapping.Whole.{copy_mapping, nodes_from, add_nodes, table_room, allocate_mapping}
use mudos_v22pre.Mapping.Nodes.{copy_mapping-IsValid, allocate_mapping-IsValid}
use mudos_v22pre.Mapping.Merge.{put-IsValid}
use mudos_v22pre.Mapping.Counted.{
  Counted, room_for_node-Counted, link_node-Counted, copy_mapping-Counted,
}
use mudos_v22pre.Mapping.Totals.{total}
use mudos_v22pre.Mapping.Load.{Roomy, room_for_node-Roomy, store_value-Roomy, copy_mapping-Roomy}
use mudos_v22pre.Mapping.Invariant.{put-Counted}

-- A mapping in order, with its nodes counted and some buckets to fill.
pub record IsSound {ℓ} {K V : Type ℓ} ⦃keys : Keys K⦄ (m : Mapping K V) : Type ℓ where
  pub valid : IsValid m
  pub counted : Counted m
  pub roomy : Roomy m

module _ {ℓ} {K V : Type ℓ} ⦃keys : Keys K⦄ where
  put-Roomy :
      (overwrite : Bool) (m : Mapping K V) (e : K × V)
      → Roomy m
      → Roomy (if overwrite then store_value m e.0 e.1 else m)
  put-Roomy true m e r = store_value-Roomy e.0 e.1 m r
  put-Roomy false m e r = r

  put-count :
      (overwrite : Bool) (m : Mapping K V) (e : K × V)
      → (if overwrite then store_value m e.0 e.1 else m).count ≡ m.count
  unfolding store_value
  put-count true m e = refl
  put-count false m e = refl

  link_node-count : (m : Mapping K V) (k : K) (v : V) → (link_node k v m).count ≡ m.count + 1
  unfolding link_node
  link_node-count m k v = refl

  -- A new node, linked where there is room for it.
  pub new-IsSound :
      (max_mapping_size : ℕ) (m : Mapping K V) (e : K × V)
      → IsSound m
      → find_in_mapping m e.0 ≡ none
      → m.count < max_mapping_size
      → max_mapping_size ≤ 16383
      → ((room_for_node max_mapping_size e.0 m).1 ≡ none)
        × IsSound (link_node e.0 e.1 (room_for_node max_mapping_size e.0 m).0)
        × ((link_node e.0 e.1 (room_for_node max_mapping_size e.0 m).0).count ≡ m.count + 1)
  new-IsSound max_mapping_size m e s new l h =
      let room = (room_for_node max_mapping_size e.0 m).0 in
      let same = room_for_node-Same max_mapping_size e.0 m s.valid in
      let (ok, r) = room_for_node-Roomy max_mapping_size e.0 e.1 m s.roomy s.counted l h in
      (
        ok,
        record {
          valid = link_node-IsValid room e.0 e.1 same.valid (same.look e.0 ∙ new);
          counted =
              link_node-Counted e.0 e.1 room
                (room_for_node-Counted max_mapping_size e.0 m s.counted);
          roomy = r;
        },
        link_node-count room e.0 e.1 ∙ ap (λ n. n + 1) same.counts,
      )

  add_one_by_one-IsSound :
      (overwrite : Bool) (max_mapping_size : ℕ) (m : Mapping K V) (es : Chain K V)
      → IsSound m
      → m.count + length es ≤ max_mapping_size
      → max_mapping_size ≤ 16383
      → ((add_one_by_one overwrite max_mapping_size m es).1 ≡ none)
        × IsSound (add_one_by_one overwrite max_mapping_size m es).0
  unfolding add_one_by_one find_in_mapping
  add_one_by_one-IsSound overwrite max_mapping_size m [] s l h = (refl, s)
  add_one_by_one-IsSound overwrite max_mapping_size m (e ∷ es) s l h =
      elim (Option-cases (find_node e.0 (m.table (bucket_of e.0 m)))) [
        | inr (old, f) ↦
            let n = if overwrite then store_value m e.0 e.1 else m in
            let c = put-count overwrite m e in
            rw (add_one_by_one, f)
              (add_one_by_one-IsSound overwrite max_mapping_size n es
                (record {
                  valid = put-IsValid overwrite m e old s.valid f;
                  counted = put-Counted overwrite m e s.counted;
                  roomy = put-Roomy overwrite m e s.roomy;
                })
                (omega arith) h)
        | inl f ↦
            let (ok, t, c) = new-IsSound max_mapping_size m e s f (omega arith) h in
            rw (add_one_by_one, f, ok)
              (add_one_by_one-IsSound overwrite max_mapping_size
                (link_node e.0 e.1 (room_for_node max_mapping_size e.0 m).0) es t (omega arith) h)
      ]

  pub add_nodes-IsSound :
      (overwrite : Bool) (max_mapping_size : ℕ) (m : Mapping K V) (es : Chain K V)
      → IsSound m
      → m.count + length es ≤ max_mapping_size
      → max_mapping_size ≤ 16383
      → ((add_nodes overwrite max_mapping_size m es).1 ≡ none)
        × IsSound (add_nodes overwrite max_mapping_size m es).0
  add_nodes-IsSound overwrite max_mapping_size m es s l h =
      subst (λ (p : Mapping K V × Option Failure). (p.1 ≡ none) × IsSound p.0)
        (sym (add_nodes-one_by_one overwrite max_mapping_size m es))
        (add_one_by_one-IsSound overwrite max_mapping_size m es s l h)

  pub copy_mapping-IsSound : (m : Mapping K V) → IsSound m → IsSound (copy_mapping m)
  copy_mapping-IsSound m s = record {
    valid = copy_mapping-IsValid m s.valid;
    counted = copy_mapping-Counted m s.counted;
    roomy = copy_mapping-Roomy m s.roomy;
  }

few-buckets : (max_mapping_size n : ℕ) → n ≤ 8 → table_room max_mapping_size n ≡ 8
unfolding table_room
few-buckets max_mapping_size n l =
    let a = if ltb max_mapping_size n then max_mapping_size else n in
    let few : ltb 8 a ≡ false = ground (arith, l) in rw few refl

-- A new mapping for a few nodes is in order.
pub allocate_mapping-IsSound {ℓ} :
    {K V : Type ℓ} ⦃keys : Keys K⦄ (max_mapping_size n : ℕ)
    → n ≤ 8
    → IsSound (allocate_mapping {K = K} {V = V} max_mapping_size n)
unfolding allocate_mapping nodes_from total
allocate_mapping-IsSound max_mapping_size n l =
    let e = few-buckets max_mapping_size n l in
    record {
      valid = allocate_mapping-IsValid max_mapping_size n;
      counted = rw e refl;
      roomy = record {
        some_left = rw e (omega arith);
        below = rw e (omega arith);
        above = rw e (omega arith);
        small = rw e (3, refl, omega arith);
      };
    }
