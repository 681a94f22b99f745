-- ===== src/Mapping/Laws.antt =====
-- What `find_for_insert`, `mapping_delete` and `find_in_mapping` of src/mapping.c come to together.
use mudos_v22pre.Prelude.{
  ℕ, ◌+◌, ◌-◌, ◌*◌, ◌≤◌, ◌<◌, Bool, true, false, not, ◌&&◌, Option, none, some, [], ◌∷◌, ◌≡◌, ◌⊎◌,
  inl, inr, refl, sym, ap, ◌∙◌, subst, arith, Bool-cases, Option-cases, if◌then◌else◌, ◌==◌, ltb,
}
use mudos_v22pre.Mapping.Key.{Keys}
use mudos_v22pre.Mapping.Chain.{
  Chain, find_node, find_node-same, unlink_node, find_node-unlink, Distinct-unlink,
}
use mudos_v22pre.Mapping.State.{
  Mapping, Failure, out_of_memory, mapping_too_large, free_value, free_key, buckets, bucket_of,
  with_bucket, find_in_mapping, max_table_size, room_for_node, fill_bucket, grow_map, link_node,
  store_value, add_mapping_pair, mapping_delete, node_of, is_empty, inc16, dec16,
}
use mudos_v22pre.Mapping.Valid.{IsValid}
use mudos_v22pre.Mapping.Insert.{is_none, Sets, Sets-find, Sets-IsValid, counted-IsValid}
use mudos_v22pre.Mapping.Update.{
  room_for_node-Same, insert-known, insert-full, insert-new, insert-SetTo, insert-unset,
}

module _ {ℓ} {K V : Type ℓ} ⦃keys : Keys K⦄ where
  room_for_node-below :
      (max_mapping_size : ℕ) (k : K) (m : Mapping K V)
      → (room_for_node max_mapping_size k m).1 ≡ none
      → m.count < max_mapping_size
  unfolding room_for_node
  room_for_node-below max_mapping_size k m =
      below (if is_empty (m.table (bucket_of k m)) then fill_bucket m else (m, true))
    where
      below :
          (p : Mapping K V × Bool)
          → (if◌then◌else◌ {A = Mapping K V × Option Failure} p.1
              (p.0, if ltb max_mapping_size (m.count + 1) then some mapping_too_large else none)
              (p.0, some out_of_memory)).1
            ≡ none
          → m.count < max_mapping_size
      below (n, true) h = elim (Bool-cases (ltb max_mapping_size (m.count + 1))) [
        | inl large ↦ absurd cc
        | inr fits ↦ ground arith
      ]
      below (n, false) h = absurd cc

  fill_bucket-fits : (m : Mapping K V) → buckets m * 2 ≤ max_table_size → (fill_bucket m).1 ≡ true
  unfolding fill_bucket grow_map
  fill_bucket-fits m l =
      let fits : ltb max_table_size (buckets m * 2) ≡ false = ground arith in
      elim (Bool-cases (dec16 m.unfilled == 0)) [
        | inl full ↦ rw (full, fits) refl
        | inr room ↦ rw room refl
      ]

  room_for_node-fits :
      (max_mapping_size : ℕ) (k : K) (m : Mapping K V)
      → m.count < max_mapping_size
      → buckets m * 2 ≤ max_table_size
      → (room_for_node max_mapping_size k m).1 ≡ none
  unfolding room_for_node
  room_for_node-fits max_mapping_size k m c l =
      let below : ltb max_mapping_size (m.count + 1) ≡ false = ground arith in
      elim (Bool-cases (is_empty (m.table (bucket_of k m)))) [
        | inl new ↦ rw (new, fill_bucket-fits m l, below) refl
        | inr used ↦ rw (used, below) refl
      ]

  module _ (max_mapping_size : ℕ) (const0u : V) (m : Mapping K V) (key : K) (value : V) where
    -- An insertion is one on a finite map: behind it the key, and each that is the same, has the value and every other key what it had, though the table may have grown; with an LPC error every key has what it had; and each key still stands once, in its bucket.
    pub add_mapping_pair-find :
        IsValid m
        → ((q : K)
            → find_in_mapping (add_mapping_pair max_mapping_size const0u m key value).0 q ≡ (
                if is_none (add_mapping_pair max_mapping_size const0u m key value).1
                  && keys.same key q
                then some value
                else find_in_mapping m q))
          × IsValid (add_mapping_pair max_mapping_size const0u m key value).0
    add_mapping_pair-find v =
        elim (Option-cases (add_mapping_pair max_mapping_size const0u m key value).1) [
          | inl ok ↦
              let s = insert-SetTo max_mapping_size const0u m key value v ok in
              (λ q. rw ok (s.set q), s.valid_too)
          | inr (e, bad) ↦
              let s = insert-unset max_mapping_size const0u m key value v e bad in
              (λ q. rw bad (s.look q), s.valid)
        ]

    -- `MAX_MAPPING_SIZE` stays a bound on the nodes, and a node is counted when the key is new and there is no error, and only then.
    add_mapping_pair-count :
        IsValid m
        → m.count ≤ max_mapping_size
        → ((add_mapping_pair max_mapping_size const0u m key value).0.count ≡ (
            if is_none (add_mapping_pair max_mapping_size const0u m key value).1
              && is_none (find_in_mapping m key)
            then m.count + 1
            else m.count))
          × ((add_mapping_pair max_mapping_size const0u m key value).0.count ≤ max_mapping_size)
    unfolding store_value link_node
    add_mapping_pair-count v bounded = elim (Option-cases (find_in_mapping m key)) [
      | inr (old, h) ↦
          rw (insert-known max_mapping_size const0u m key value old h, h) (refl, bounded)
      | inl h ↦
          let s = (room_for_node-Same max_mapping_size key m v).counts in
          elim (Option-cases (room_for_node max_mapping_size key m).1) [
            | inr (e, r) ↦
                rw (insert-full max_mapping_size const0u m key value e h r) (s, omega (arith, s))
            | inl r ↦
                let l : m.count < max_mapping_size = room_for_node-below max_mapping_size key m r in
                rw (insert-new max_mapping_size const0u m key value h r, h)
                  (ap (λ n. n + 1) s, omega (arith, s))
          ]
    ]

    -- While the nodes are fewer than `MAX_MAPPING_SIZE` and the table may double, there is no error, so that the key, and each that is the same, comes to have the value and every other key keeps what it had.
    add_mapping_pair-fits :
        IsValid m
        → m.count < max_mapping_size
        → buckets m * 2 ≤ max_table_size
        → ((add_mapping_pair max_mapping_size const0u m key value).1 ≡ none)
          × ((q : K)
              → find_in_mapping (add_mapping_pair max_mapping_size const0u m key value).0 q
                ≡ (if keys.same key q then some value else find_in_mapping m q))
    add_mapping_pair-fits v c l =
        let ok : (add_mapping_pair max_mapping_size const0u m key value).1 ≡ none =
          elim (Option-cases (find_in_mapping m key)) [
            | inr (old, h) ↦ ap (λ p. p.1) (insert-known max_mapping_size const0u m key value old h)
            | inl h ↦
                ap (λ p. p.1)
                  (insert-new max_mapping_size const0u m key value h
                    (room_for_node-fits max_mapping_size key m c l))
          ] in
        (ok, (insert-SetTo max_mapping_size const0u m key value v ok).set)

    -- In a mapping with `MAX_MAPPING_SIZE` nodes an insertion has no error exactly if the key is there.
    add_mapping_pair-full :
        max_mapping_size ≤ m.count
        → is_none (add_mapping_pair max_mapping_size const0u m key value).1
          ≡ not (is_none (find_in_mapping m key))
    add_mapping_pair-full full = elim (Option-cases (find_in_mapping m key)) [
      | inr (old, h) ↦ rw (insert-known max_mapping_size const0u m key value old h, h) refl
      | inl h ↦ elim (Option-cases (room_for_node max_mapping_size key m).1) [
        | inr (e, r) ↦ rw (insert-full max_mapping_size const0u m key value e h r, h) refl
        | inl r ↦ let b = room_for_node-below max_mapping_size key m r in absurd (omega arith)
      ]
    ]

  pub node_of-find :
      (q : K) (c : Chain K V)
      → ((node_of q c ≡ none) × (find_node q c ≡ none))
        ⊎ ((e : K × V) × node_of q c ≡ some e × find_node q c ≡ some e.1 × keys.same e.0 q ≡ true)
  unfolding node_of find_node
  node_of-find q [] = inl (refl, refl)
  node_of-find q (e ∷ c) = elim (Bool-cases (keys.same e.0 q)) [
    | inl here ↦ inr (e, rw here refl, rw here refl, here)
    | inr later ↦ rw later (node_of-find q c)
  ]

  pub find_same-bucket :
      (m : Mapping K V) (k q : K) → keys.same k q ≡ true → find_in_mapping m k ≡ find_in_mapping m q
  unfolding find_in_mapping
  find_same-bucket m k q h =
      rw (keys.hash_same k q h) (find_node-same k q (m.table (bucket_of q m)) h)

  -- A deletion is one on a finite map: behind it the key, and each that is the same, has no value, and every other key what it had; each key still stands once, in its bucket; if the key had no value nothing is done, and otherwise one node is counted off and its value and its key are freed, in that order.
  pub mapping_delete-find :
      (m : Mapping K V) (k : K)
      → IsValid m
      → ((q : K)
          → find_in_mapping (mapping_delete m k).0 q
            ≡ (if keys.same k q then none else find_in_mapping m q))
        × IsValid (mapping_delete m k).0
        × (((find_in_mapping m k ≡ none) × (mapping_delete m k ≡ (m, [])))
            ⊎ ((e : K × V) × find_in_mapping m k ≡ some e.1
                × keys.same e.0 k ≡ true
                × (mapping_delete m k).0.count ≡ m.count - 1
                × (mapping_delete m k).1 ≡ free_value e.1 ∷ free_key e.0 ∷ []))
  unfolding mapping_delete find_in_mapping
  mapping_delete-find m k v =
      let i = bucket_of k m in
      let d = v.distinct i in
      let left = unlink_node k (m.table i) in
      let u = if is_empty left then inc16 m.unfilled else m.unfilled in
      let sets : Sets m k none left = λ q. find_node-unlink k q (m.table i) d in
      elim (node_of-find k (m.table i)) [
        | inl (n, f) ↦
            let nothing : mapping_delete m k ≡ (m, []) = rw (mapping_delete, n) refl in
            (
              λ q.
                  ap (λ r. find_in_mapping r.0 q) nothing
                  ∙ (grind (arith, find_same-bucket m k q, f)),
              subst (λ r. IsValid r.0) (sym nothing) v,
              inl (f, nothing),
            )
        | inr (e, n, f, s) ↦ (
          λ q. rw (mapping_delete, n) (Sets-find m k none left sets q),
          rw (mapping_delete, n)
              (counted-IsValid (with_bucket i left m) u (m.count - 1)
                (Sets-IsValid m k none left sets v (Distinct-unlink k (m.table i) d))),
          inr (e, f, s, rw (mapping_delete, n) refl, rw (mapping_delete, n) refl),
        )
      ]
