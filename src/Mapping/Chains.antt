-- ===== src/Mapping/Chains.antt =====
-- Operations of src/mapping.c that go through every bucket: what they do to look-ups.
use mudos_v22pre.Prelude.{
  ℕ, zero, suc, ◌+◌, ◌%◌, ◌<◌, Bool, true, false, ◌&&◌, Option, none, some, List, [], ◌∷◌, map, ◌≡◌,
  inl, inr, refl, sym, ap, ◌∙◌, subst, arith, Bool-cases, Option-cases, if◌then◌else◌, ◌==◌, ==_iff,
  leb, ltb, length,
}
use native.Mathlib.Nat.{mod-lt}
use mudos_v22pre.Mapping.Key.{Keys}
use mudos_v22pre.Mapping.Chain.{Chain, find_node, find_node-same, Distinct}
use mudos_v22pre.Mapping.Orders.{turn_onto}
use mudos_v22pre.Mapping.State.{Mapping, buckets, bucket_of, find_in_mapping}
use mudos_v22pre.Mapping.Valid.{IsValid}
use mudos_v22pre.Mapping.Whole.{
  copy_mapping, nodes, add_nodes, load_mapping_from_aggregate, allocate_mapping, map_chain,
  map_mapping, compose_chain, compose_bucket, compose_buckets, compose_mapping, mapping_indices,
  mapping_values,
}
use mudos_v22pre.Mapping.Nodes.{
  copy_mapping-find, copy_mapping-IsValid, allocate_mapping-IsValid, nodes-find, Distinct-nodes,
  first_of-none,
}
use mudos_v22pre.Mapping.Merge.{add_nodes-Adds}

-- The value at the value.
abbrev pub through {ℓ} : {A B : Type ℓ} → (A → Option B) → Option A → Option B
through f none = none
through f (some a) = f a

module _ {ℓ} {K : Type ℓ} ⦃keys : Keys K⦄ where
  compose_chain-find :
      (m2 : Mapping K K) (q : K) (c : Chain K K)
      → Distinct c
      → find_node q (compose_chain m2 c).0 ≡ through (find_in_mapping m2) (find_node q c)
  unfolding compose_chain find_node Distinct
  compose_chain-find m2 q [] d = refl
  compose_chain-find m2 q (e ∷ c) (n, d) = elim (Option-cases (find_in_mapping m2 e.1)) [
    | inl out ↦ elim (Bool-cases (keys.same e.0 q)) [
      | inl here ↦
          rw (compose_chain, out, here)
            (compose_chain-find m2 q c d
              ∙ ap (through (find_in_mapping m2)) (sym (find_node-same e.0 q c here) ∙ n)
              ∙ sym out)
      | inr there ↦ rw (compose_chain, out, there) (compose_chain-find m2 q c d)
    ]
    | inr (w, into) ↦ elim (Bool-cases (keys.same e.0 q)) [
      | inl here ↦ rw (compose_chain, into, here) (sym into)
      | inr there ↦ rw (compose_chain, into, there) (compose_chain-find m2 q c d)
    ]
  ]

  Distinct-compose_chain :
      (m2 : Mapping K K) (c : Chain K K) → Distinct c → Distinct (compose_chain m2 c).0
  unfolding compose_chain Distinct
  Distinct-compose_chain m2 [] d = tt
  Distinct-compose_chain m2 (e ∷ c) (n, d) = elim (Option-cases (find_in_mapping m2 e.1)) [
    | inl out ↦ rw (compose_chain, out) (Distinct-compose_chain m2 c d)
    | inr (w, into) ↦
        rw (compose_chain, into)
          (
            compose_chain-find m2 e.0 c d ∙ ap (through (find_in_mapping m2)) n,
            Distinct-compose_chain m2 c d,
          )
  ]

  compose_buckets-table :
      (m2 : Mapping K K) (i j : ℕ) (p : Mapping K K × ℕ) (k : ℕ)
      → (compose_buckets m2 i j p).0.table k
        ≡ (if leb i k && ltb k (i + j) then (compose_chain m2 (p.0.table k)).0 else p.0.table k)
  unfolding compose_buckets compose_bucket
  compose_buckets-table m2 i zero p k =
      let e : (leb i k && ltb k (i + 0)) ≡ false = ground arith in rw e refl
  compose_buckets-table m2 i (suc j) p k =
      compose_buckets-table m2 (suc i) j (compose_bucket m2 i p) k ∙ elim (Bool-cases (k == i)) [
        | inl here ↦
            let past : (leb (suc i) k && ltb k (suc i + j)) ≡ false = ground (arith, here) in
            let now : (leb i k && ltb k (i + suc j)) ≡ true = ground (arith, here) in
            let e : k ≡ i = (==_iff k i).0 here in
            rw (past, now, here) (ap (λ x. (compose_chain m2 (p.0.table x)).0) (sym e))
        | inr other ↦
            let same_range : (leb (suc i) k && ltb k (suc i + j)) ≡ (leb i k && ltb k (i + suc j)) =
              ground (arith, other) in
            rw (same_range, other) refl
      ]

  compose_buckets-size :
      (m2 : Mapping K K) (i j : ℕ) (p : Mapping K K × ℕ)
      → (compose_buckets m2 i j p).0.table_size ≡ p.0.table_size
  unfolding compose_buckets compose_bucket
  compose_buckets-size m2 i zero p = refl
  compose_buckets-size m2 i (suc j) p = compose_buckets-size m2 (suc i) j (compose_bucket m2 i p)

  module _ (m m2 : Mapping K K) (v : IsValid m) where
    abbrev composed : Mapping K K
    composed = (compose_buckets m2 0 (suc m.table_size) (m, 0)).0

    composed-bucket :
        (k : ℕ) (q : K)
        → find_node q (composed.table k) ≡ through (find_in_mapping m2) (find_node q (m.table k))
    composed-bucket k q =
        let t = compose_buckets-table m2 0 (suc m.table_size) (m, 0) k in
        elim (Bool-cases (leb 0 k && ltb k (0 + suc m.table_size))) [
          | inl inside ↦ rw (t, inside) (compose_chain-find m2 q (m.table k) (v.distinct k))
          | inr outside ↦
              let home : bucket_of q m < buckets m = mod-lt (keys.hash q) (omega arith) in
              let away : (bucket_of q m == k) ≡ false = ground (arith, outside, home) in
              rw (t, outside, v.placed k q away) refl
        ]

    composed-Distinct : (k : ℕ) → Distinct (composed.table k)
    composed-Distinct k =
        let t = compose_buckets-table m2 0 (suc m.table_size) (m, 0) k in
        elim (Bool-cases (leb 0 k && ltb k (0 + suc m.table_size))) [
          | inl inside ↦ rw (t, inside) (Distinct-compose_chain m2 (m.table k) (v.distinct k))
          | inr outside ↦ rw (t, outside) (v.distinct k)
        ]

    composed-home : (q : K) → bucket_of q composed ≡ bucket_of q m
    composed-home q =
        ap (λ n. keys.hash q % suc n) (compose_buckets-size m2 0 (suc m.table_size) (m, 0))

    composed-find :
        ((q : K)
          → find_in_mapping (compose_mapping m m2 false) q
            ≡ through (find_in_mapping m2) (find_in_mapping m q))
        × IsValid (compose_mapping m m2 false)
    unfolding compose_mapping find_in_mapping
    composed-find = (
      λ q.
          ap (λ i. find_node q (composed.table i)) (composed-home q)
          ∙ composed-bucket (bucket_of q m) q,
      record {
        distinct = composed-Distinct;
        placed = λ i q away.
            composed-bucket i q
            ∙ ap (through (find_in_mapping m2))
                (v.placed i q (ap (λ k. k == i) (sym (composed-home q)) ∙ away));
      },
    )

  -- `compose_mapping`, on a copy or in place, has at a key the value that the second mapping has at the value of the first, and no value where either is missing; each key still stands once, in its bucket.
  pub compose_mapping-find :
      (m1 m2 : Mapping K K) (flag : Bool)
      → IsValid m1
      → ((q : K)
          → find_in_mapping (compose_mapping m1 m2 flag) q
            ≡ through (find_in_mapping m2) (find_in_mapping m1 q))
        × IsValid (compose_mapping m1 m2 flag)
  unfolding compose_mapping
  compose_mapping-find m1 m2 true v =
      let r = composed-find (copy_mapping m1) m2 (copy_mapping-IsValid m1 v) in
      (λ q. r.0 q ∙ ap (through (find_in_mapping m2)) (copy_mapping-find m1 q v), r.1)
  compose_mapping-find m1 m2 false v = composed-find m1 m2 v

abbrev pub zip {ℓ} : {A B : Type ℓ} → List A → List B → List (A × B)
zip [] ys = []
zip (x ∷ xs) [] = []
zip (x ∷ xs) (y ∷ ys) = (x, y) ∷ zip xs ys

zip-map {ℓ} : {A B : Type ℓ} (c : List (A × B)) → zip (map (λ e. e.0) c) (map (λ e. e.1) c) ≡ c
zip-map [] = refl
zip-map (e ∷ c) = ap (λ l. e ∷ l) (zip-map c)

length-maps {ℓ} :
    {A B : Type ℓ} (c : List (A × B)) → length (map (λ e. e.0) c) ≡ length (map (λ e. e.1) c)
length-maps [] = refl
length-maps (e ∷ c) = ap suc (length-maps c)

-- `map_mapping` and `load_mapping_from_aggregate`.
module _ {ℓ} {K V : Type ℓ} ⦃keys : Keys K⦄ where
  -- A mapping that is loaded from keys and values has at a key the value of the last pair with that key, and is a valid one.
  pub load_mapping_from_aggregate-find :
      (max_mapping_size : ℕ) (pairs : Chain K V) (m : Mapping K V)
      → load_mapping_from_aggregate max_mapping_size pairs ≡ (some m, none)
      → ((q : K) → find_in_mapping m q ≡ find_node q (turn_onto pairs [])) × IsValid m
  unfolding load_mapping_from_aggregate find_in_mapping
  load_mapping_from_aggregate-find max_mapping_size pairs m h =
      let fresh = allocate_mapping max_mapping_size (length pairs) in
      let r = add_nodes true max_mapping_size fresh pairs in
      let a =
        add_nodes-Adds true max_mapping_size fresh pairs
          (allocate_mapping-IsValid max_mapping_size (length pairs)) in
      elim (Option-cases r.1) [
        | inl ok ↦
            let whole : load_mapping_from_aggregate max_mapping_size pairs ≡ (some r.0, none) =
              rw (load_mapping_from_aggregate, ok) refl in
            let e : some r.0 ≡ some m = ap (λ p. p.0) (sym whole ∙ h) in
            let s : r.0 ≡ m = cc in
            subst
              (λ n. ((q : K) → find_in_mapping n q ≡ find_node q (turn_onto pairs [])) × IsValid n)
              s (λ q. a.look ok q ∙ first_of-none (find_node q (turn_onto pairs [])), a.valid)
        | inr (f, bad) ↦
            let whole : load_mapping_from_aggregate max_mapping_size pairs ≡ (none, some f) =
              rw (load_mapping_from_aggregate, bad) refl in
            let e = ap (λ p. p.1) (sym whole ∙ h) in absurd cc
      ]

  map_chain-find :
      (callback : K → V → V) (q : K) (c : Chain K V)
      → ((a b : K) (x : V) → keys.same a b ≡ true → callback a x ≡ callback b x)
      → find_node q (map_chain (λ k x. some (callback k x)) c)
        ≡ through (λ x. some (callback q x)) (find_node q c)
  unfolding map_chain find_node
  map_chain-find callback q [] r = refl
  map_chain-find callback q (e ∷ c) r = ground (arith, map_chain-find callback q c r, r e.0 q e.1)

  -- `map_mapping` with a callback that always has a result, which is the same for keys that are the same, has at each key of the mapping what the callback makes of the key and its value, and no other keys.
  map_mapping-find :
      (callback : K → V → V) (m : Mapping K V) (q : K)
      → IsValid m
      → ((a b : K) (x : V) → keys.same a b ≡ true → callback a x ≡ callback b x)
      → find_in_mapping (map_mapping (λ k x. some (callback k x)) m) q
        ≡ through (λ x. some (callback q x)) (find_in_mapping m q)
  unfolding map_mapping find_in_mapping
  map_mapping-find callback m q v r =
      let home : bucket_of q m < buckets m = mod-lt (keys.hash q) (omega arith) in
      let inside : leb (bucket_of q m) m.table_size ≡ true = ground (arith, home) in
      rw inside (
        map_chain-find callback q ((copy_mapping m).table (bucket_of q m)) r
        ∙ ap (through (λ x. some (callback q x))) (copy_mapping-find m q v))

  -- The indices and the values of a mapping, which stand in the same order, are its nodes: the value beside an index is the one that is found at it, a key that is no index has none, and no index stands twice.
  mapping_indices-values :
      (m : Mapping K V)
      → IsValid m
      → ((q : K) → find_node q (zip (mapping_indices m) (mapping_values m)) ≡ find_in_mapping m q)
        × Distinct (zip (mapping_indices m) (mapping_values m))
        × (length (mapping_indices m) ≡ length (mapping_values m))
  unfolding mapping_indices mapping_values
  mapping_indices-values m v = (
    λ q. ap (find_node q) (zip-map (nodes m)) ∙ nodes-find m v q,
    subst (λ (c : Chain K V). Distinct c) (sym (zip-map (nodes m))) (Distinct-nodes m v),
    length-maps (nodes m),
  )
