-- ===== src/Mapping/Nodes.antt =====
-- Copies of mappings of src/mapping.c, and the nodes in the order of a traversal.
use mudos_v22pre.Prelude.{
  ℕ, zero, suc, ◌<◌, true, false, Option, none, some, [], ◌∷◌, ◌++◌, ◌≡◌, ◌⊎◌, inl, inr, refl, sym,
  ap, ◌∙◌, arith, Bool-cases, if◌then◌else◌, ◌==◌, ==_iff, leb,
}
use native.Mathlib.Nat.{mod-lt}
use mudos_v22pre.Mapping.Key.{Keys}
use mudos_v22pre.Mapping.Chain.{Chain, find_node, first_of, Distinct}
use mudos_v22pre.Mapping.Orders.{find_node-append, find_node-turned, Distinct-turned}
use mudos_v22pre.Mapping.State.{Mapping, buckets, bucket_of, find_in_mapping}
use mudos_v22pre.Mapping.Valid.{IsValid}
use mudos_v22pre.Mapping.Whole.{copy_mapping, nodes_from, nodes, allocate_mapping}

pub first_of-none {ℓ} : {V : Type ℓ} (o : Option V) → first_of o none ≡ o
first_of-none none = refl
first_of-none (some x) = refl

module _ {ℓ} {K V : Type ℓ} ⦃keys : Keys K⦄ where
  pub copy_mapping-find :
      (m : Mapping K V) (q : K)
      → IsValid m
      → find_in_mapping (copy_mapping m) q ≡ find_in_mapping m q
  unfolding copy_mapping find_in_mapping
  copy_mapping-find m q v =
      find_node-turned q (m.table (bucket_of q m)) (v.distinct (bucket_of q m))

  pub copy_mapping-IsValid : (m : Mapping K V) → IsValid m → IsValid (copy_mapping m)
  unfolding copy_mapping
  copy_mapping-IsValid m v = record {
    distinct = λ i. Distinct-turned (m.table i) (v.distinct i);
    placed = λ i q n. find_node-turned q (m.table i) (v.distinct i) ∙ v.placed i q n;
  }

  pub allocate_mapping-find :
      (max_mapping_size n : ℕ) (q : K)
      → find_in_mapping (allocate_mapping {K = K} {V = V} max_mapping_size n) q ≡ none
  unfolding allocate_mapping find_in_mapping find_node
  allocate_mapping-find max_mapping_size n q = refl

  pub allocate_mapping-IsValid :
      (max_mapping_size n : ℕ) → IsValid (allocate_mapping {K = K} {V = V} max_mapping_size n)
  unfolding allocate_mapping Distinct find_node
  allocate_mapping-IsValid max_mapping_size n = record {
    distinct = λ i. tt;
    placed = λ i q e. refl;
  }

  Distinct-append :
      (a b : Chain K V)
      → Distinct a
      → Distinct b
      → ((q : K) → (find_node q a ≡ none) ⊎ (find_node q b ≡ none))
      → Distinct (a ++ b)
  unfolding find_node Distinct
  Distinct-append [] b da db apart = db
  Distinct-append (e ∷ a) b (n, da) db apart = (
    find_node-append e.0 a b ∙ (grind (arith, n, apart e.0, keys.same_self e.0)),
    Distinct-append a b da db
        (λ q. elim (apart q) [ inl h ↦ inl (grind (arith, h)) | inr h ↦ inr h ]),
  )

  module _ (m : Mapping K V) (v : IsValid m) where
    nodes_from-find :
        (j : ℕ) (q : K)
        → find_node q (nodes_from j m)
          ≡ (if leb (bucket_of q m) j then find_in_mapping m q else none)
    unfolding nodes_from find_in_mapping
    nodes_from-find zero q = elim (Bool-cases (bucket_of q m == 0)) [
      | inl here ↦
          let e : bucket_of q m ≡ 0 = (==_iff _ _).0 here in
          let l : leb (bucket_of q m) 0 ≡ true = ground (arith, e) in
          rw l (ap (λ i. find_node q (m.table i)) (sym e))
      | inr other ↦
          let l : leb (bucket_of q m) 0 ≡ false = ground (arith, other) in rw l (v.placed 0 q other)
    ]
    nodes_from-find (suc j) q =
        find_node-append q (m.table (suc j)) (nodes_from j m)
        ∙ elim (Bool-cases (bucket_of q m == suc j)) [
          | inl here ↦
              let e : bucket_of q m ≡ suc j = (==_iff _ _).0 here in
              let l : leb (bucket_of q m) (suc j) ≡ true = ground (arith, e) in
              let b : leb (bucket_of q m) j ≡ false = ground (arith, e) in
              ap (first_of (find_node q (m.table (suc j)))) (nodes_from-find j q)
              ∙ (rw (b, l) (first_of-none _ ∙ ap (λ i. find_node q (m.table i)) (sym e)))
          | inr other ↦
              let l : leb (bucket_of q m) (suc j) ≡ leb (bucket_of q m) j = ground (arith, other) in
              ap (λ o. first_of o (find_node q (nodes_from j m))) (v.placed (suc j) q other)
              ∙ (rw l (nodes_from-find j q))
        ]

    -- A key is found among the nodes as it is found by its bucket.
    pub nodes-find : (q : K) → find_node q (nodes m) ≡ find_in_mapping m q
    nodes-find q =
        let inside : bucket_of q m < buckets m = mod-lt (keys.hash q) (omega arith) in
        let l : leb (bucket_of q m) m.table_size ≡ true = ground (arith, inside) in
        nodes_from-find m.table_size q ∙ (rw l refl)

    Distinct-nodes_from : (j : ℕ) → Distinct (nodes_from j m)
    unfolding nodes_from
    Distinct-nodes_from zero = v.distinct 0
    Distinct-nodes_from (suc j) =
        Distinct-append (m.table (suc j)) (nodes_from j m) (v.distinct (suc j))
          (Distinct-nodes_from j)
          (λ q. elim (Bool-cases (bucket_of q m == suc j)) [
            | inl here ↦
                let l : leb (bucket_of q m) j ≡ false = ground (arith, here) in
                inr (nodes_from-find j q ∙ (rw l refl))
            | inr other ↦ inl (v.placed (suc j) q other)
          ])

    pub Distinct-nodes : Distinct (nodes m)
    Distinct-nodes = Distinct-nodes_from m.table_size
