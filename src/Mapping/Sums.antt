-- ===== src/Mapping/Sums.antt =====
-- `add_mapping` of src/mapping.c, without an error.
use mudos_v22pre.Prelude.{
  ℕ, ◌+◌, ◌≤◌, Bool, true, false, Option, none, some, ◌≡◌, inl, inr, refl, arith, Bool-cases, ◌==◌,
  leb,
}
use mudos_v22pre.Mapping.Key.{Keys}
use mudos_v22pre.Mapping.Chain.{first_of}
use mudos_v22pre.Mapping.State.{Mapping, Failure, find_in_mapping}
use mudos_v22pre.Mapping.Whole.{
  copy_mapping, nodes, merged, unfilled_again, add_to_mapping, unique_add_to_mapping, add_mapping,
}
use mudos_v22pre.Mapping.Union.{add_mapping-find}
use mudos_v22pre.Mapping.Success.{IsSound, add_nodes-IsSound, copy_mapping-IsSound}

module _ {ℓ} {K V : Type ℓ} ⦃keys : Keys K⦄ where
  -- Nodes of which none is too much.
  abbrev Sound : Mapping K V × Option Failure → Type ℓ
  Sound r = (r.1 ≡ none) × IsSound r.0

  merged-IsSound :
      (free_flag : Bool) (r : Mapping K V × Option Failure)
      → Sound r
      → ((merged free_flag r).failure ≡ none) × IsSound (merged free_flag r).made
  merged-IsSound free_flag (m, none) s = s
  merged-IsSound free_flag (m, some e) s = absurd (let h = s.0 in cc)

  again-Sound : (r : Mapping K V × Option Failure) → Sound r → Sound (unfilled_again r)
  again-Sound (m, none) s = s
  again-Sound (m, some e) s = absurd (let h = s.0 in cc)

  add_mapping-Sound :
      (max_mapping_size : ℕ) (m1 m2 : Mapping K V)
      → IsSound m1
      → IsSound m2
      → m1.count + m2.count ≤ max_mapping_size
      → max_mapping_size ≤ 16383
      → ((add_mapping max_mapping_size m1 m2).failure ≡ none)
        × IsSound (add_mapping max_mapping_size m1 m2).made
  unfolding add_mapping add_to_mapping unique_add_to_mapping copy_mapping
  add_mapping-Sound max_mapping_size m1 m2 s1 s2 l h =
      let n1 = s1.counted in
      let n2 = s2.counted in
      let d1 = copy_mapping-IsSound m1 s1 in
      let d2 = copy_mapping-IsSound m2 s2 in
      elim (Bool-cases (leb m2.count m1.count)) [
        | inl more ↦ elim (Bool-cases (m2.count == 0)) [
          | inl empty ↦ rw (more, empty) (refl, d1)
          | inr full ↦
              rw (more, full)
                (merged-IsSound true _ (
                  add_nodes-IsSound true max_mapping_size (copy_mapping m1) (nodes m2) d1
                    (omega arith) h))
        ]
        | inr fewer ↦ elim (Bool-cases (m1.count == 0)) [
          | inl empty ↦ rw (fewer, empty) (refl, d2)
          | inr full ↦
              rw (fewer, full)
                (merged-IsSound true _ (
                  again-Sound _ (
                    add_nodes-IsSound false max_mapping_size (copy_mapping m2) (nodes m1) d2
                      (omega arith) h)))
        ]
      ]

  -- The sum of two mappings, if their nodes together are at most `MAX_MAPPING_SIZE` and that is at most 16383, is made without an error, and is their union: where both have a key the value is that of the second, whichever of them has more nodes. It makes the one a copy and adds the nodes of the other, over those of the copy or beside them; it is a mapping of its own in order, each key once and in its bucket, with its nodes counted, and about 80 in 100 buckets at most in use.
  pub add_mapping-union :
      (max_mapping_size : ℕ) (m1 m2 : Mapping K V)
      → IsSound m1
      → IsSound m2
      → m1.count + m2.count ≤ max_mapping_size
      → max_mapping_size ≤ 16383
      → ((add_mapping max_mapping_size m1 m2).failure ≡ none)
        × ((q : K)
            → find_in_mapping (add_mapping max_mapping_size m1 m2).made q
              ≡ first_of (find_in_mapping m2 q) (find_in_mapping m1 q))
        × IsSound (add_mapping max_mapping_size m1 m2).made
  add_mapping-union max_mapping_size m1 m2 s1 s2 l h =
      let (ok, s) = add_mapping-Sound max_mapping_size m1 m2 s1 s2 l h in
      (
        ok,
        (add_mapping-find max_mapping_size m1 m2 s1.valid s2.valid s1.counted s2.counted ok).0,
        s,
      )
