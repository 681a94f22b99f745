-- ===== src/Mapping/Insert.antt =====
-- `find_for_insert` of src/mapping.c and the functions that insert by it.
use mudos_v22pre.Prelude.{
  ℕ, ◌+◌, Bool, true, false, Option, none, some, ◌∷◌, ◌≡◌, inl, inr, refl, sym, ap, ◌∙◌, Bool-cases,
  if◌then◌else◌, ◌==◌, ==_iff, ==_self,
}
use mudos_v22pre.Mapping.Key.{Keys}
use mudos_v22pre.Mapping.Chain.{Chain, find_node, Distinct, find_node-assign, Distinct-assign}
use mudos_v22pre.Mapping.State.{
  Mapping, bucket_of, with_bucket, find_in_mapping, link_node, store_value,
}
use mudos_v22pre.Mapping.Valid.{IsValid}

abbrev pub is_none {ℓ} : {A : Type ℓ} → Option A → Bool
is_none none = true
is_none (some x) = false

module _ {ℓ} {K V : Type ℓ} ⦃keys : Keys K⦄ where
  same-bucket :
      (m : Mapping K V) (k q : K) → keys.same k q ≡ true → (bucket_of q m == bucket_of k m) ≡ true
  same-bucket m k q h = rw (keys.hash_same k q h) (==_self _)

  -- What a bucket comes to, by its look-ups: one key is given a value, or none.
  abbrev pub Sets : Mapping K V → K → Option V → Chain K V → Type ℓ
  Sets m k o c =
      (q : K) → find_node q c ≡ (if keys.same k q then o else find_node q (m.table (bucket_of k m)))

  module _ (m : Mapping K V) (k : K) (o : Option V) (c : Chain K V) (sets : Sets m k o c) where
    pub Sets-find :
        (q : K)
        → find_in_mapping (with_bucket (bucket_of k m) c m) q
          ≡ (if keys.same k q then o else find_in_mapping m q)
    unfolding find_in_mapping
    Sets-find q = elim (Bool-cases (bucket_of q m == bucket_of k m)) [
      | inl here ↦ let i = (==_iff _ _).0 here in rw (here, i) (sets q)
      | inr other ↦ elim (Bool-cases (keys.same k q)) [
        | inl s ↦ let b = same-bucket m k q s in absurd cc
        | inr d ↦ rw (other, d) refl
      ]
    ]

    pub Sets-IsValid : IsValid m → Distinct c → IsValid (with_bucket (bucket_of k m) c m)
    Sets-IsValid valid d = record {
      distinct = λ j. elim (Bool-cases (j == bucket_of k m)) [
        | inl here ↦ rw here d
        | inr other ↦ rw other (valid.distinct j)
      ];
      placed = λ j q away. elim (Bool-cases (j == bucket_of k m)) [
        | inl here ↦
            let i : j ≡ bucket_of k m = (==_iff j (bucket_of k m)).0 here in
            let out : (bucket_of q m == bucket_of k m) ≡ false =
              ap (λ x. bucket_of q m == x) (sym i) ∙ away in
            rw here (
              sets q ∙ elim (Bool-cases (keys.same k q)) [
                | inl s ↦ let b = same-bucket m k q s in absurd cc
                | inr n ↦ rw n (valid.placed (bucket_of k m) q out)
              ])
        | inr other ↦ rw other (valid.placed j q away)
      ];
    }

  -- The number of nodes and the bound on the buckets in use do not count here.
  pub counted-IsValid :
      (m : Mapping K V) (u n : ℕ) → IsValid m → IsValid (record m { unfilled = u; count = n })
  counted-IsValid m u n valid = record { distinct = valid.distinct; placed = valid.placed }

  link_node-Sets :
      (m : Mapping K V) (k : K) (v : V) → Sets m k (some v) ((k, v) ∷ m.table (bucket_of k m))
  unfolding find_node
  link_node-Sets m k v q = refl

  pub link_node-find :
      (m : Mapping K V) (k q : K) (v : V)
      → find_in_mapping (link_node k v m) q
        ≡ (if keys.same k q then some v else find_in_mapping m q)
  unfolding link_node find_in_mapping
  link_node-find m k q v = Sets-find m k (some v) _ (link_node-Sets m k v) q

  pub link_node-IsValid :
      (m : Mapping K V) (k : K) (v : V)
      → IsValid m
      → find_in_mapping m k ≡ none
      → IsValid (link_node k v m)
  unfolding link_node find_in_mapping Distinct
  link_node-IsValid m k v valid new =
      counted-IsValid (with_bucket (bucket_of k m) ((k, v) ∷ m.table (bucket_of k m)) m) m.unfilled
        (m.count + 1)
        (Sets-IsValid m k (some v) _ (link_node-Sets m k v) valid
          (new, valid.distinct (bucket_of k m)))

  pub store_value-find :
      (m : Mapping K V) (k q : K) (v old : V)
      → find_in_mapping m k ≡ some old
      → find_in_mapping (store_value m k v) q
        ≡ (if keys.same k q then some v else find_in_mapping m q)
  unfolding store_value find_in_mapping
  store_value-find m k q v old h =
      Sets-find m k (some v) _ (λ x. find_node-assign k x v (m.table (bucket_of k m)) old h) q

  pub store_value-IsValid :
      (m : Mapping K V) (k : K) (v old : V)
      → IsValid m
      → find_in_mapping m k ≡ some old
      → IsValid (store_value m k v)
  unfolding store_value find_in_mapping
  store_value-IsValid m k v old valid h =
      Sets-IsValid m k (some v) _ (λ x. find_node-assign k x v (m.table (bucket_of k m)) old h)
        valid (Distinct-assign k v (m.table (bucket_of k m)) (valid.distinct (bucket_of k m)))
