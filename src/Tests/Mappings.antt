-- ===== src/Tests/Mappings.antt =====
-- Runs of src/mapping.c at small mappings, and its theorems there.
use mudos_v22pre.Prelude.{
  ℕ, ◌*◌, ◌≡◌, ◌⊎◌, refl, true, not, ◌&&◌, some, none, List, [], ◌∷◌, ◌-◌, arith, if◌then◌else◌,
  ◌==◌, ltb,
}
use mudos_v22pre.Mapping.Key.{word_keys}
use mudos_v22pre.Mapping.Chain.{find_node, first_of}
use mudos_v22pre.Mapping.Orders.{turn_onto}
use mudos_v22pre.Mapping.State.{
  Mapping, free_value, free_key, buckets, max_table_size, find_in_mapping, mapping_delete,
  add_mapping_pair, grow_map,
}
use mudos_v22pre.Mapping.Valid.{IsValid, grow_map-find}
use mudos_v22pre.Mapping.Insert.{is_none}
use mudos_v22pre.Mapping.Laws.{add_mapping_pair-find, mapping_delete-find}
use mudos_v22pre.Mapping.Whole.{
  allocate_mapping, add_mapping, compose_mapping, load_mapping_from_aggregate,
}
use mudos_v22pre.Mapping.Counted.{Counted}
use mudos_v22pre.Mapping.Success.{IsSound, allocate_mapping-IsSound}
use mudos_v22pre.Mapping.Sums.{add_mapping-union}
use mudos_v22pre.Mapping.Changes.{add_mapping_pair-made}
use mudos_v22pre.Mapping.Chains.{through, compose_mapping-find}
use mudos_v22pre.Mapping.Filter.{pass, filter_mapping}
use mudos_v22pre.Mapping.Making.{load_mapping_from_aggregate-made, filter_mapping-made}
use mudos_v22pre.Mapping.Invariant.{mapping_count-kept}

empty : Mapping ℕ ℕ
unfolding allocate_mapping
empty = allocate_mapping 9 0

-- 16 ↦ 33, and 33 ↦ 7 beside it.
one : Mapping ℕ ℕ
unfolding empty add_mapping_pair
one = (add_mapping_pair 9 0 empty 16 33).0

two : Mapping ℕ ℕ
unfolding one add_mapping_pair
two = (add_mapping_pair 9 0 one 33 7).0

-- 16 ↦ 5.
other : Mapping ℕ ℕ
unfolding empty add_mapping_pair
other = (add_mapping_pair 9 0 empty 16 5).0

empty-IsSound : IsSound empty
unfolding empty
empty-IsSound = allocate_mapping-IsSound 9 0 (omega arith)

one-IsSound : IsSound one
unfolding one
one-IsSound = (add_mapping_pair-made 9 0 empty 16 33 empty-IsSound (omega arith) (omega arith)).2

two-IsSound : IsSound two
unfolding two
two-IsSound = (add_mapping_pair-made 9 0 one 33 7 one-IsSound (omega arith) (omega arith)).2

other-IsSound : IsSound other
unfolding other
other-IsSound = (add_mapping_pair-made 9 0 empty 16 5 empty-IsSound (omega arith) (omega arith)).2

-- 33 has gone to the bucket 2, and behind `growMap` it is found in the bucket 2 of 16.
two-find : (find_in_mapping two 33 ≡ some 7) × (find_in_mapping two 17 ≡ none)
unfolding two find_in_mapping
two-find = (refl, refl)

grow_map-find_example :
    ((q : ℕ) → find_in_mapping (grow_map two).0 q ≡ find_in_mapping two q)
    × IsValid (grow_map two).0
    × (buckets (grow_map two).0 ≡ (if (grow_map two).1 then buckets two * 2 else buckets two))
    × ((grow_map two).1 ≡ not (ltb max_table_size (buckets two * 2)))
grow_map-find_example = grow_map-find two two-IsSound.valid

add_mapping_pair-find_example :
    ((q : ℕ)
      → find_in_mapping (add_mapping_pair 9 0 two 16 4).0 q ≡ (
          if is_none (add_mapping_pair 9 0 two 16 4).1 && (16 == q)
          then some 4
          else find_in_mapping two q))
    × IsValid (add_mapping_pair 9 0 two 16 4).0
add_mapping_pair-find_example = add_mapping_pair-find 9 0 two 16 4 two-IsSound.valid

mapping_delete-find_example :
    ((q : ℕ)
      → find_in_mapping (mapping_delete two 33).0 q
        ≡ (if 33 == q then none else find_in_mapping two q))
    × IsValid (mapping_delete two 33).0
    × (((find_in_mapping two 33 ≡ none) × (mapping_delete two 33 ≡ (two, [])))
        ⊎ ((e : ℕ × ℕ) × find_in_mapping two 33 ≡ some e.1
            × (e.0 == 33) ≡ true
            × (mapping_delete two 33).0.count ≡ two.count - 1
            × (mapping_delete two 33).1 ≡ free_value e.1 ∷ free_key e.0 ∷ []))
mapping_delete-find_example = mapping_delete-find two 33 two-IsSound.valid

compose_mapping-find_example :
    ((q : ℕ)
      → find_in_mapping (compose_mapping two two true) q
        ≡ through (find_in_mapping two) (find_in_mapping two q))
    × IsValid (compose_mapping two two true)
compose_mapping-find_example = compose_mapping-find two two true two-IsSound.valid

-- The value at 16 is 33, and that at 33 is 7; 7 is no key.
composed :
    (find_in_mapping (compose_mapping two two true) 16 ≡ some 7)
    × (find_in_mapping (compose_mapping two two true) 33 ≡ none)
unfolding two compose_mapping find_in_mapping
composed = (refl, refl)

abbrev pairs : List (ℕ × ℕ)
pairs = (16, 1) ∷ (32, 2) ∷ (16, 3) ∷ []

mapping_count-kept_example :
    Counted (add_mapping_pair 9 0 two 48 1).0
    × Counted (mapping_delete two 48).0
    × Counted (add_mapping 9 two other).made
mapping_count-kept_example =
    mapping_count-kept 9 0 two other 48 1 two-IsSound.counted other-IsSound.counted

abbrev small_respects : (a b x : ℕ) → (a == b) ≡ true → ltb x 10 ≡ ltb x 10
small_respects a b x h = refl

counts : (two.count ≡ 2) × (other.count ≡ 1)
unfolding two other
counts = (refl, refl)

add_mapping_pair-made_example :
    ((add_mapping_pair 9 0 two 161 4).1 ≡ none)
    × ((q : ℕ)
        → find_in_mapping (add_mapping_pair 9 0 two 161 4).0 q
          ≡ (if 161 == q then some 4 else find_in_mapping two q))
    × IsSound (add_mapping_pair 9 0 two 161 4).0
add_mapping_pair-made_example =
    add_mapping_pair-made 9 0 two 161 4 two-IsSound (omega (arith, counts.0)) (omega arith)

add_mapping-union_example :
    ((add_mapping 9 two other).failure ≡ none)
    × ((q : ℕ)
        → find_in_mapping (add_mapping 9 two other).made q
          ≡ first_of (find_in_mapping other q) (find_in_mapping two q))
    × IsSound (add_mapping 9 two other).made
add_mapping-union_example =
    add_mapping-union 9 two other two-IsSound other-IsSound (omega (arith, counts.0, counts.1))
      (omega arith)

load_mapping_from_aggregate-made_example :
    (m : Mapping ℕ ℕ) × load_mapping_from_aggregate 9 pairs ≡ (some m, none)
    × ((q : ℕ) → find_in_mapping m q ≡ find_node q (turn_onto pairs []))
    × IsSound m
load_mapping_from_aggregate-made_example =
    load_mapping_from_aggregate-made 9 pairs (allocate_mapping-IsSound 9 3 (omega arith))
      (omega arith) (omega arith)

filter_mapping-made_example :
    ((filter_mapping 9 (λ k v. some (ltb v 10)) two).1 ≡ none)
    × ((q : ℕ)
        → find_in_mapping (filter_mapping 9 (λ k v. some (ltb v 10)) two).0 q
          ≡ pass (λ k v. ltb v 10) small_respects q (find_in_mapping two q))
    × IsSound (filter_mapping 9 (λ k v. some (ltb v 10)) two).0
filter_mapping-made_example =
    filter_mapping-made (λ k v. ltb v 10) small_respects 9 two two-IsSound (omega (arith, counts.0))
      (omega arith)
