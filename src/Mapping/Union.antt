-- ===== src/Mapping/Union.antt =====
-- Sums of mappings of src/mapping.c, as unions of finite maps.
use mudos_v22pre.Prelude.{
  ℕ, Bool, true, false, Option, none, some, [], ◌∷◌, ◌≡◌, inl, inr, refl, sym, ap, ◌∙◌, arith,
  Bool-cases, ◌==◌, ==_iff, leb, length,
}
use mudos_v22pre.Mapping.Key.{Keys}
use mudos_v22pre.Mapping.Chain.{Chain, find_node, first_of}
use mudos_v22pre.Mapping.Orders.{find_node-turned}
use mudos_v22pre.Mapping.State.{Mapping, Failure, out_of_memory, mapping_too_large, find_in_mapping}
use mudos_v22pre.Mapping.Valid.{IsValid}
use mudos_v22pre.Mapping.Whole.{
  MadeMapping, copy_mapping, nodes, add_nodes, merged, unfilled_again, add_to_mapping,
  unique_add_to_mapping, add_mapping,
}
use mudos_v22pre.Mapping.Nodes.{
  copy_mapping-find, copy_mapping-IsValid, nodes-find, first_of-none, Distinct-nodes,
}
use mudos_v22pre.Mapping.Counted.{Counted}
use mudos_v22pre.Mapping.Merge.{add_nodes-Adds}

module _ {ℓ} {K V : Type ℓ} ⦃keys : Keys K⦄ where
  -- A mapping that is made without an error has the look-ups, and is a valid one in any case.
  abbrev HasLookups : MadeMapping K V → (K → Option V) → Type ℓ
  HasLookups made look =
      IsValid made.made × (made.failure ≡ none → (q : K) → find_in_mapping made.made q ≡ look q)

  merged-HasLookups :
      (free_flag : Bool) (r : Mapping K V × Option Failure) (look : K → Option V)
      → IsValid r.0
      → (r.1 ≡ none → (q : K) → find_in_mapping r.0 q ≡ look q)
      → HasLookups (merged free_flag r) look
  merged-HasLookups free_flag (m, none) look v l = (v, l)
  merged-HasLookups free_flag (m, some out_of_memory) look v l = (v, λ ok. absurd cc)
  merged-HasLookups free_flag (m, some mapping_too_large) look v l = (v, λ ok. absurd cc)

  again-IsValid : (r : Mapping K V × Option Failure) → IsValid r.0 → IsValid (unfilled_again r).0
  again-IsValid (m, none) v = v
  again-IsValid (m, some out_of_memory) v = record { distinct = v.distinct; placed = v.placed }
  again-IsValid (m, some mapping_too_large) v = v

  again-look :
      (r : Mapping K V × Option Failure) (look : K → Option V)
      → (r.1 ≡ none → (q : K) → find_in_mapping r.0 q ≡ look q)
      → (unfilled_again r).1 ≡ none
      → (q : K) → find_in_mapping (unfilled_again r).0 q ≡ look q
  again-look (m, none) look l ok = l ok
  again-look (m, some out_of_memory) look l ok = absurd cc
  again-look (m, some mapping_too_large) look l ok = absurd cc

  Counted-none :
      (m : Mapping K V) → IsValid m → Counted m → m.count ≡ 0 → (q : K) → find_in_mapping m q ≡ none
  unfolding find_node
  Counted-none m v c e q = sym (nodes-find m v q) ∙ empty (nodes m) (sym c ∙ e)
    where
      empty : (es : Chain K V) → length es ≡ 0 → find_node q es ≡ none
      empty [] h = refl
      empty (x ∷ es) h = absurd (omega arith)

  add_to_mapping-HasLookups :
      (max_mapping_size : ℕ) (m1 m2 : Mapping K V) (free_flag : Bool)
      → IsValid m1
      → IsValid m2
      → HasLookups
          (add_to_mapping max_mapping_size m1 m2 free_flag)
          (λ q. first_of (find_in_mapping m2 q) (find_in_mapping m1 q))
  unfolding add_to_mapping
  add_to_mapping-HasLookups max_mapping_size m1 m2 free_flag v1 v2 =
      let a = add_nodes-Adds true max_mapping_size m1 (nodes m2) v1 in
      merged-HasLookups free_flag _ _ a.valid (λ ok q.
        a.look ok q
        ∙ ap (λ o. first_of o (find_in_mapping m1 q))
            (find_node-turned q (nodes m2) (Distinct-nodes m2 v2) ∙ nodes-find m2 v2 q))

  unique_add_to_mapping-HasLookups :
      (max_mapping_size : ℕ) (m1 m2 : Mapping K V) (free_flag : Bool)
      → IsValid m1
      → IsValid m2
      → HasLookups
          (unique_add_to_mapping max_mapping_size m1 m2 free_flag)
          (λ q. first_of (find_in_mapping m1 q) (find_in_mapping m2 q))
  unfolding unique_add_to_mapping
  unique_add_to_mapping-HasLookups max_mapping_size m1 m2 free_flag v1 v2 =
      let r = add_nodes false max_mapping_size m1 (nodes m2) in
      let a = add_nodes-Adds false max_mapping_size m1 (nodes m2) v1 in
      merged-HasLookups free_flag (unfilled_again r) _ (again-IsValid r a.valid) (
        again-look r _
          (λ ok q. a.look ok q ∙ ap (first_of (find_in_mapping m1 q)) (nodes-find m2 v2 q)))

  add_mapping-HasLookups :
      (max_mapping_size : ℕ) (m1 m2 : Mapping K V)
      → IsValid m1
      → IsValid m2
      → Counted m1
      → Counted m2
      → HasLookups
          (add_mapping max_mapping_size m1 m2)
          (λ q. first_of (find_in_mapping m2 q) (find_in_mapping m1 q))
  unfolding add_mapping
  add_mapping-HasLookups max_mapping_size m1 m2 v1 v2 c1 c2 =
      elim (Bool-cases (leb m2.count m1.count)) [
        | inl more ↦ elim (Bool-cases (m2.count == 0)) [
          | inl empty ↦
              rw (more, empty)
                (
                  copy_mapping-IsValid m1 v1,
                  λ ok q.
                      copy_mapping-find m1 q v1
                      ∙ (sym (
                          ap (λ o. first_of o (find_in_mapping m1 q))
                            (Counted-none m2 v2 c2 ((==_iff _ _).0 empty) q))),
                )
          | inr full ↦
              let r =
                add_to_mapping-HasLookups max_mapping_size (copy_mapping m1) m2 true
                  (copy_mapping-IsValid m1 v1) v2 in
              rw (more, full)
                (
                  r.0,
                  λ ok q.
                      r.1 ok q ∙ ap (first_of (find_in_mapping m2 q)) (copy_mapping-find m1 q v1),
                )
        ]
        | inr fewer ↦ elim (Bool-cases (m1.count == 0)) [
          | inl empty ↦
              rw (fewer, empty)
                (
                  copy_mapping-IsValid m2 v2,
                  λ ok q.
                      copy_mapping-find m2 q v2
                      ∙ (sym (
                          ap (first_of (find_in_mapping m2 q))
                            (Counted-none m1 v1 c1 ((==_iff _ _).0 empty) q)
                          ∙ first_of-none _)),
                )
          | inr full ↦
              let r =
                unique_add_to_mapping-HasLookups max_mapping_size (copy_mapping m2) m1 true
                  (copy_mapping-IsValid m2 v2) v1 in
              rw (fewer, full)
                (
                  r.0,
                  λ ok q.
                      r.1 ok q
                      ∙ ap (λ o. first_of o (find_in_mapping m1 q)) (copy_mapping-find m2 q v2),
                )
        ]
      ]

  -- The sum of two mappings, made without an error, is their union, and where both have a key the value is that of the second, whichever of them has more nodes: it makes the one a copy and adds the nodes of the other, over those of the copy or beside them; it is a mapping of its own in which each key stands once, in its bucket.
  pub add_mapping-find :
      (max_mapping_size : ℕ) (m1 m2 : Mapping K V)
      → IsValid m1
      → IsValid m2
      → Counted m1
      → Counted m2
      → (add_mapping max_mapping_size m1 m2).failure ≡ none
      → ((q : K)
          → find_in_mapping (add_mapping max_mapping_size m1 m2).made q
            ≡ first_of (find_in_mapping m2 q) (find_in_mapping m1 q))
        × IsValid (add_mapping max_mapping_size m1 m2).made
  add_mapping-find max_mapping_size m1 m2 v1 v2 c1 c2 ok =
      let l = add_mapping-HasLookups max_mapping_size m1 m2 v1 v2 c1 c2 in (l.1 ok, l.0)
