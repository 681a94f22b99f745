-- ===== src/Mapping/Update.antt =====
-- What an insertion and a deletion of src/mapping.c come to, as changes of a finite map.
use mudos_v22pre.Prelude.{
  ℕ, Option, none, some, ◌≡◌, inl, inr, refl, ap, ◌∙◌, arith, Bool-cases, Option-cases,
  if◌then◌else◌, ◌==◌,
}
use mudos_v22pre.Mapping.Key.{Keys}
use mudos_v22pre.Mapping.Chain.{find_node}
use mudos_v22pre.Mapping.State.{
  Mapping, Failure, bucket_of, fill_bucket, find_in_mapping, room_for_node, link_node,
  find_for_insert, store_value, add_mapping_pair, dec16, is_empty,
}
use mudos_v22pre.Mapping.Valid.{IsValid, grow_map-count, grow_map-find}
use mudos_v22pre.Mapping.Insert.{
  counted-IsValid, link_node-find, link_node-IsValid, store_value-find, store_value-IsValid,
}

module _ {ℓ} {K V : Type ℓ} ⦃keys : Keys K⦄ where
  -- Another table with the same look-ups.
  pub record Same (m n : Mapping K V) : Type ℓ where
    pub look : (q : K) → find_in_mapping n q ≡ find_in_mapping m q
    pub valid : IsValid n
    pub counts : n.count ≡ m.count

  fill_bucket-Same : (m : Mapping K V) → IsValid m → Same m (fill_bucket m).0
  unfolding fill_bucket find_in_mapping
  fill_bucket-Same m v =
      let filled = record m { unfilled = dec16 m.unfilled } in
      let f : IsValid filled = counted-IsValid m (dec16 m.unfilled) m.count v in
      elim (Bool-cases (dec16 m.unfilled == 0)) [
        | inl full ↦ rw full (record {
          look = (grow_map-find filled f).0;
          valid = (grow_map-find filled f).1;
          counts = grow_map-count filled;
        })
        | inr room ↦ rw room (record { look = λ q. refl; valid = f; counts = refl })
      ]

  pub room_for_node-Same :
      (max_mapping_size : ℕ) (k : K) (m : Mapping K V)
      → IsValid m
      → Same m (room_for_node max_mapping_size k m).0
  unfolding room_for_node find_in_mapping
  room_for_node-Same max_mapping_size k m v =
      elim (Bool-cases (is_empty (m.table (bucket_of k m)))) [
        | inl new ↦ elim (Bool-cases (fill_bucket m).1) [
          | inl grown ↦ rw (new, grown) (fill_bucket-Same m v)
          | inr full ↦ rw (new, full) (fill_bucket-Same m v)
        ]
        | inr used ↦ rw used (record { look = λ q. refl; valid = v; counts = refl })
      ]

  -- Behind a key that is new: the table may have grown, and the node is linked unless there is an error.
  module _ (max_mapping_size : ℕ) (const0u : V) (m : Mapping K V) (key : K) (value : V) where
    abbrev pub room : Mapping K V × Option Failure
    room = room_for_node max_mapping_size key m

    abbrev pub result : Mapping K V × Option Failure
    result = add_mapping_pair max_mapping_size const0u m key value

    pub insert-known :
        (old : V) → find_in_mapping m key ≡ some old → result ≡ (store_value m key value, none)
    unfolding add_mapping_pair find_for_insert find_in_mapping
    insert-known old h =
        let f : find_node key (m.table (bucket_of key m)) ≡ some old = h in
        rw (add_mapping_pair, find_for_insert, f) (rw (find_for_insert, f) refl)

    pub insert-full :
        (e : Failure) → find_in_mapping m key ≡ none → room.1 ≡ some e → result ≡ (room.0, some e)
    unfolding add_mapping_pair find_for_insert find_in_mapping
    insert-full e h r =
        let f : find_node key (m.table (bucket_of key m)) ≡ none = h in
        rw (add_mapping_pair, find_for_insert, f, r) (rw (find_for_insert, f, r) refl)

    pub insert-new :
        find_in_mapping m key ≡ none
        → room.1 ≡ none
        → result ≡ (store_value (link_node key const0u room.0) key value, none)
    unfolding add_mapping_pair find_for_insert find_in_mapping
    insert-new h r =
        let f : find_node key (m.table (bucket_of key m)) ≡ none = h in
        rw (add_mapping_pair, find_for_insert, f, r) (rw (find_for_insert, f, r) refl)

    module _ (v : IsValid m) where
      -- The mapping whose look-ups are those of before with one key set.
      pub record SetTo (n : Mapping K V) : Type ℓ where
        pub set :
            (q : K)
            → find_in_mapping n q ≡ (if keys.same key q then some value else find_in_mapping m q)
        pub valid_too : IsValid n

      pub insert-SetTo : result.1 ≡ none → SetTo result.0
      insert-SetTo ok = elim (Option-cases (find_in_mapping m key)) [
        | inr (old, h) ↦ rw (insert-known old h) (record {
          set = λ q. store_value-find m key q value old h;
          valid_too = store_value-IsValid m key value old v h;
        })
        | inl h ↦ elim (Option-cases room.1) [
          | inr (e, r) ↦ let x = ap (λ p. p.1) (insert-full e h r) in absurd cc
          | inl r ↦
              let s = room_for_node-Same max_mapping_size key m v in
              let new : find_in_mapping room.0 key ≡ none = s.look key ∙ h in
              let linked = link_node key const0u room.0 in
              let there : find_in_mapping linked key ≡ some const0u =
                link_node-find room.0 key key const0u ∙ (rw (keys.same_self key) refl) in
              rw (insert-new h r) (record {
                set = λ q.
                    store_value-find linked key q value const0u there
                    ∙ (grind (arith, link_node-find room.0 key q const0u, s.look q));
                valid_too =
                    store_value-IsValid linked key value const0u
                      (link_node-IsValid room.0 key const0u s.valid new) there;
              })
        ]
      ]

      pub insert-unset : (e : Failure) → result.1 ≡ some e → Same m result.0
      insert-unset e bad = elim (Option-cases (find_in_mapping m key)) [
        | inr (old, h) ↦ let x = ap (λ p. p.1) (insert-known old h) in absurd cc
        | inl h ↦ elim (Option-cases room.1) [
          | inr (f, r) ↦ rw (insert-full f h r) (room_for_node-Same max_mapping_size key m v)
          | inl r ↦ let x = ap (λ p. p.1) (insert-new h r) in absurd cc
        ]
      ]
