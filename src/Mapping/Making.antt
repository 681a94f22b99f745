-- ===== src/Mapping/Making.antt =====
-- `load_mapping_from_aggregate` and `filter_mapping` of src/mapping.c, without an error.
use mudos_v22pre.Prelude.{
  ℕ, ◌+◌, ◌≤◌, Bool, true, none, some, [], ◌∷◌, ◌≡◌, inl, inr, refl, sym, ap, subst, arith,
  Bool-cases, length,
}
use mudos_v22pre.Mapping.Key.{Keys}
use mudos_v22pre.Mapping.Chain.{Chain, find_node, Distinct}
use mudos_v22pre.Mapping.Orders.{turn_onto}
use mudos_v22pre.Mapping.State.{Mapping, find_in_mapping, room_for_node, link_node}
use mudos_v22pre.Mapping.Whole.{nodes, allocate_mapping, add_nodes, load_mapping_from_aggregate}
use mudos_v22pre.Mapping.Chains.{load_mapping_from_aggregate-find}
use mudos_v22pre.Mapping.Nodes.{allocate_mapping-find, Distinct-nodes}
use mudos_v22pre.Mapping.Update.{room_for_node-Same}
use mudos_v22pre.Mapping.Filter.{
  filter_chain, filter_from, filter_mapping, push_nodes, Apart, Apart-link, pass, passing,
  passing-Distinct, passing-from, filter_mapping-find,
}
use mudos_v22pre.Mapping.Success.{IsSound, add_nodes-IsSound, new-IsSound, allocate_mapping-IsSound}

module _ {ℓ} {K V : Type ℓ} ⦃keys : Keys K⦄ where
  -- Up to `MAX_MAPPING_SIZE` keys and values, if that is at most 16383, are loaded without an error, where the mapping that is allocated for them is in order: the mapping has at a key the value of the last pair with that key, and is in order, with its nodes counted and about 80 in 100 buckets at most in use.
  pub load_mapping_from_aggregate-made :
      (max_mapping_size : ℕ) (pairs : Chain K V)
      → IsSound (allocate_mapping {K = K} {V = V} max_mapping_size (length pairs))
      → length pairs ≤ max_mapping_size
      → max_mapping_size ≤ 16383
      → (m : Mapping K V) × load_mapping_from_aggregate max_mapping_size pairs ≡ (some m, none)
        × ((q : K) → find_in_mapping m q ≡ find_node q (turn_onto pairs []))
        × IsSound m
  unfolding load_mapping_from_aggregate allocate_mapping
  load_mapping_from_aggregate-made max_mapping_size pairs s l h =
      let fresh = allocate_mapping max_mapping_size (length pairs) in
      let (ok, t) = add_nodes-IsSound true max_mapping_size fresh pairs s (omega arith) h in
      let m = (add_nodes true max_mapping_size fresh pairs).0 in
      let loaded : load_mapping_from_aggregate max_mapping_size pairs ≡ (some m, none) =
        rw (load_mapping_from_aggregate, ok) refl in
      (m, loaded, (load_mapping_from_aggregate-find max_mapping_size pairs m loaded).0, t)

  push_nodes-IsSound :
      (max_mapping_size : ℕ) (m : Mapping K V) (es : Chain K V)
      → IsSound m
      → Distinct es
      → Apart es m
      → m.count + length es ≤ max_mapping_size
      → max_mapping_size ≤ 16383
      → ((push_nodes max_mapping_size m es).1 ≡ none) × IsSound (push_nodes max_mapping_size m es).0
  unfolding push_nodes find_node Distinct
  push_nodes-IsSound max_mapping_size m [] s d a l h = (refl, s)
  push_nodes-IsSound max_mapping_size m (e ∷ es) s d a l h =
      let new : find_in_mapping m e.0 ≡ none = elim (a e.0) [
        | inl x ↦ absurd (ground (arith, x, keys.same_self e.0))
        | inr x ↦ x
      ] in
      let room = (room_for_node max_mapping_size e.0 m).0 in
      let (ok, t, c) = new-IsSound max_mapping_size m e s new (omega arith) h in
      rw (push_nodes, ok)
        (push_nodes-IsSound max_mapping_size (link_node e.0 e.1 room) es t d.1
          (Apart-link e es m room d a (room_for_node-Same max_mapping_size e.0 m s.valid).look)
          (omega arith) h)

  module _ (callback : K → V → Bool)
      (respects : (a b : K) (x : V) → keys.same a b ≡ true → callback a x ≡ callback b x) where
    length-passing : (c : Chain K V) → length (passing callback respects c) ≤ length c
    unfolding filter_chain
    length-passing [] = omega arith
    length-passing (e ∷ c) =
        let l = length-passing c in
        elim (Bool-cases (callback e.0 e.1)) [
          | inl kept ↦ rw kept (omega arith)
          | inr left ↦ rw left (omega arith)
        ]

    -- `filter_mapping`, with a callback that always has a result, which is the same for keys that are the same, makes its mapping without an error if `MAX_MAPPING_SIZE` is at least the nodes and at most 16383: it has the keys whose value passes, with these values, and no others, and is in order, with its nodes counted and about 80 in 100 buckets at most in use.
    pub filter_mapping-made :
        (max_mapping_size : ℕ) (m : Mapping K V)
        → IsSound m
        → m.count ≤ max_mapping_size
        → max_mapping_size ≤ 16383
        → ((filter_mapping max_mapping_size (λ k v. some (callback k v)) m).1 ≡ none)
          × ((q : K)
              → find_in_mapping (filter_mapping max_mapping_size (λ k v. some (callback k v)) m).0 q
                ≡ pass callback respects q (find_in_mapping m q))
          × IsSound (filter_mapping max_mapping_size (λ k v. some (callback k v)) m).0
    unfolding filter_mapping allocate_mapping
    filter_mapping-made max_mapping_size m s l h =
        let fresh = allocate_mapping max_mapping_size 0 in
        let es = filter_from (λ k x. some (callback k x)) m.table_size m in
        let same_nodes : es ≡ passing callback respects (nodes m) =
          passing-from callback respects m.table_size m in
        let fewer = length-passing (nodes m) in
        let n = s.counted in
        let w = ap length same_nodes in
        let none_yet = new_count max_mapping_size in
        let (ok, t) =
          push_nodes-IsSound max_mapping_size fresh es
            (allocate_mapping-IsSound max_mapping_size 0 (omega arith))
            (subst (λ (c : Chain K V). Distinct c) (sym same_nodes)
              (passing-Distinct callback respects (nodes m) (Distinct-nodes m s.valid)))
            (λ q. inr (allocate_mapping-find max_mapping_size 0 q)) (omega arith) h in
        (ok, (filter_mapping-find callback respects max_mapping_size m s.valid ok).0, t)
      where
        new_count : (k : ℕ) → (allocate_mapping {K = K} {V = V} k 0).count ≡ 0
        new_count k = refl
