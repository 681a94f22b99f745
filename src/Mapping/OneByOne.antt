-- ===== src/Mapping/OneByOne.antt =====
-- The loop of `add_to_mapping` of src/mapping.c keeps its own count, and corrects that of the mapping
-- where it ends; here it is compared with a loop in which each new node is counted at once.
use mudos_v22pre.Prelude.{
  ℕ, zero, suc, ◌+◌, ◌-◌, ◌*◌, ◌≤◌, ◌≡◌, refl, sym, ap, ◌∙◌, Bool, true, false, Option, none, some,
  [], ◌∷◌, inl, inr, arith, if◌then◌else◌, Bool-cases, Option-cases, ltb, ◌==◌,
}
use mudos_v22pre.Mapping.Key.{Keys}
use mudos_v22pre.Mapping.Chain.{Chain, find_node}
use mudos_v22pre.Mapping.State.{
  Mapping, Failure, out_of_memory, mapping_too_large, buckets, bucket_of, dec16, is_empty, doubled,
  max_table_size, split_bucket, split_buckets, grow_map, fill_bucket, room_for_node, link_node,
  store_value,
}
use mudos_v22pre.Mapping.Whole.{counted_up, put_in, add_counting, add_nodes}

-- The mapping with another count.
abbrev pub at_count {ℓ} : {K V : Type ℓ} → ℕ → Mapping K V → Mapping K V
at_count n m = record m { count = n }

module _ {ℓ} {K V : Type ℓ} ⦃keys : Keys K⦄ where
  unfoldable pub add_one_by_one : Bool → ℕ → Mapping K V → Chain K V → Mapping K V × Option Failure
  unfolding find_node store_value room_for_node link_node
  add_one_by_one overwrite max_mapping_size m [] = (m, none)
  add_one_by_one overwrite max_mapping_size m (elt ∷ rest) =
      elim (find_node elt.0 (m.table (bucket_of elt.0 m))) as (λ _. Mapping K V × Option Failure) [
        | some old ↦
            add_one_by_one overwrite max_mapping_size
              (if overwrite then store_value m elt.0 elt.1 else m) rest
        | none ↦
            let p = room_for_node max_mapping_size elt.0 m in
            elim p.1 as (λ _. Mapping K V × Option Failure) [
              | some failure ↦ (p.0, some failure)
              | none ↦ add_one_by_one overwrite max_mapping_size (link_node elt.0 elt.1 p.0) rest
            ]
      ]

  counted_up-at_count : (n : ℕ) (m : Mapping K V) → m.count ≤ n → counted_up n m ≡ at_count n m
  counted_up-at_count n m h =
      let e : m.count + (n - m.count) ≡ n = omega arith in ap (λ (k : ℕ). at_count k m) e

  -- The growth of a table does not look at the count.
  split_bucket-at_count :
      (oldsize i n : ℕ) (m : Mapping K V)
      → split_bucket oldsize i (at_count n m) ≡ at_count n (split_bucket oldsize i m)
  unfolding split_bucket
  split_bucket-at_count oldsize i n m = on (m.table i) refl
    where
      on :
          (c : Chain K V)
          → m.table i ≡ c
          → split_bucket oldsize i (at_count n m) ≡ at_count n (split_bucket oldsize i m)
      on [] e = rw (split_bucket, e) refl
      on (elt ∷ c) e = rw (split_bucket, e) refl

  split_buckets-at_count :
      (oldsize i n : ℕ) (m : Mapping K V)
      → split_buckets oldsize i (at_count n m) ≡ at_count n (split_buckets oldsize i m)
  unfolding split_buckets
  split_buckets-at_count oldsize zero n m = refl
  split_buckets-at_count oldsize (suc i) n m =
      ap (split_buckets oldsize i) (split_bucket-at_count oldsize i n m)
      ∙ split_buckets-at_count oldsize i n (split_bucket oldsize i m)

  -- The same for a pair of a mapping and a result.
  abbrev pair_at {ℓ'} : {B : Type ℓ'} → ℕ → Mapping K V × B → Mapping K V × B
  pair_at n p = (at_count n p.0, p.1)

  if_at :
      (n : ℕ) (b : Bool) (x y x' y' : Mapping K V × Bool)
      → x' ≡ pair_at n x
      → y' ≡ pair_at n y
      → (if b then x' else y') ≡ pair_at n (if b then x else y)
  if_at n true x y x' y' e f = e
  if_at n false x y x' y' e f = f

  grow_map-at_count : (n : ℕ) (m : Mapping K V) → grow_map (at_count n m) ≡ pair_at n (grow_map m)
  unfolding grow_map
  grow_map-at_count n m =
      if_at n (ltb max_table_size (buckets m * 2)) (m, false) _ _ _ refl
        (ap (λ (k : Mapping K V). (k, true))
          (split_buckets-at_count (buckets m) (buckets m) n (doubled m)))

  fill_bucket-at_count :
      (n : ℕ) (m : Mapping K V) → fill_bucket (at_count n m) ≡ pair_at n (fill_bucket m)
  unfolding fill_bucket
  fill_bucket-at_count n m =
      let filled = record m { unfilled = dec16 m.unfilled } in
      if_at n (dec16 m.unfilled == 0) (grow_map filled) (filled, true) _ _
        (grow_map-at_count n filled) refl

  -- The bucket with room for a node, as both loops find it.
  abbrev roomy : K → Mapping K V → Mapping K V × Bool
  roomy k m = if is_empty (m.table (bucket_of k m)) then fill_bucket m else (m, true)

  roomy-at_count :
      (n : ℕ) (k : K) (m : Mapping K V) → roomy k (at_count n m) ≡ pair_at n (roomy k m)
  roomy-at_count n k m =
      if_at n (is_empty (m.table (bucket_of k m))) (fill_bucket m) (m, true) _ _
        (fill_bucket-at_count n m) refl

  roomy-count : (k : K) (m : Mapping K V) → (roomy k m).0.count ≡ m.count
  roomy-count k m = ap (λ (p : Mapping K V × Bool). p.0.count) (roomy-at_count m.count k m)

  put-at_count :
      (overwrite : Bool) (n : ℕ) (m : Mapping K V) (e : K × V)
      → ((if overwrite then store_value (at_count n m) e.0 e.1 else at_count n m)
          ≡ at_count n (if overwrite then store_value m e.0 e.1 else m))
        × ((if overwrite then store_value m e.0 e.1 else m).count ≡ m.count)
  unfolding store_value
  put-at_count true n m e = (refl, refl)
  put-at_count false n m e = (refl, refl)

  if_pair :
      (b : Bool) (x : Mapping K V) (f g : Option Failure)
      → ◌≡◌ {A = Mapping K V × Option Failure}
          (if b then (x, f) else (x, g))
          (x, if b then f else g)
  if_pair true x f g = refl
  if_pair false x f g = refl

  room-at_count :
      (max_mapping_size n : ℕ) (k : K) (m : Mapping K V)
      → room_for_node max_mapping_size k (at_count n m) ≡ (
        at_count n (roomy k m).0,
        if (roomy k m).1
            then (if ltb max_mapping_size (n + 1) then some mapping_too_large else none)
            else some out_of_memory,
      )
  unfolding room_for_node
  room-at_count max_mapping_size n k m =
      ap
        (λ (q : Mapping K V × Bool).
          if q.1
          then (q.0, if ltb max_mapping_size (n + 1) then some mapping_too_large else none)
          else (q.0, some out_of_memory))
        (roomy-at_count n k m)
      ∙ if_pair (roomy k m).1 (at_count n (roomy k m).0) _ _

  -- What the second loop does once it has looked for room.
  abbrev after_room :
      Bool → ℕ → K × V → Chain K V → Mapping K V × Option Failure → Mapping K V × Option Failure
  unfolding add_one_by_one link_node
  after_room overwrite max_mapping_size e es p = elim p.1 as (λ _. Mapping K V × Option Failure) [
    | some failure ↦ (p.0, some failure)
    | none ↦ add_one_by_one overwrite max_mapping_size (link_node e.0 e.1 p.0) es
  ]

  -- An error, or the rest of the loop: the two do the same.
  room-same :
      (overwrite : Bool) (max_mapping_size n : ℕ) (p : Mapping K V × Bool) (e : K × V)
      (es : Chain K V) (added : Mapping K V × Option Failure)
      → p.0.count ≤ n
      → added ≡ add_one_by_one overwrite max_mapping_size (at_count (n + 1) (put_in e p.0)) es
      → (if p.1
          then (if ltb max_mapping_size (n + 1)
              then (
                record p.0 { count = p.0.count + (n + 1 - (p.0.count + 1)) },
                some mapping_too_large,
              )
              else added)
          else (counted_up n p.0, some out_of_memory))
        ≡ after_room overwrite max_mapping_size e es (
          at_count n p.0,
          if p.1
              then (if ltb max_mapping_size (n + 1) then some mapping_too_large else none)
              else some out_of_memory,
        )
  unfolding after_room link_node
  room-same overwrite max_mapping_size n (m, false) e es added h s =
      ap (λ (k : Mapping K V). (k, some out_of_memory)) (counted_up-at_count n m h)
  room-same overwrite max_mapping_size n (m, true) e es added h s =
      elim (Bool-cases (ltb max_mapping_size (n + 1))) [
        | inl large ↦
            let c : m.count + (n + 1 - (m.count + 1)) ≡ n = omega arith in
            rw large (ap (λ (k : ℕ). (at_count k m, some mapping_too_large)) c)
        | inr fits ↦ rw fits s
      ]

  add_counting-one_by_one :
      (overwrite : Bool) (max_mapping_size n : ℕ) (m : Mapping K V) (es : Chain K V)
      → m.count ≤ n
      → add_counting overwrite max_mapping_size n m es
        ≡ add_one_by_one overwrite max_mapping_size (at_count n m) es
  unfolding add_counting add_one_by_one after_room
  add_counting-one_by_one overwrite max_mapping_size n m [] h =
      ap (λ (k : Mapping K V). (k, none)) (counted_up-at_count n m h)
  add_counting-one_by_one overwrite max_mapping_size n m (e ∷ es) h =
      elim (Option-cases (find_node e.0 (m.table (bucket_of e.0 m)))) [
        | inr (old, f) ↦
            let (same, c) = put-at_count overwrite n m e in
            rw (add_counting, add_one_by_one, f)
              (add_counting-one_by_one overwrite max_mapping_size n
                  (if overwrite then store_value m e.0 e.1 else m) es (omega arith)
                ∙ ap (λ (k : Mapping K V). add_one_by_one overwrite max_mapping_size k es)
                    (sym same))
        | inl f ↦
            let p = roomy e.0 m in
            let c = roomy-count e.0 m in
            rw (add_counting, add_one_by_one, f)
              (room-same overwrite max_mapping_size n p e es
                  (add_counting overwrite max_mapping_size (n + 1) (put_in e p.0) es) (omega arith)
                  (add_counting-one_by_one overwrite max_mapping_size (n + 1) (put_in e p.0) es
                    (omega arith))
                ∙ ap (after_room overwrite max_mapping_size e es)
                    (sym (room-at_count max_mapping_size n e.0 m)))
      ]

  -- The count that is corrected at the end, or before an error, is the one that is kept node by node.
  pub add_nodes-one_by_one :
      (overwrite : Bool) (max_mapping_size : ℕ) (m : Mapping K V) (es : Chain K V)
      → add_nodes overwrite max_mapping_size m es ≡ add_one_by_one overwrite max_mapping_size m es
  unfolding add_nodes
  add_nodes-one_by_one overwrite max_mapping_size m es =
      add_counting-one_by_one overwrite max_mapping_size m.count m es (omega arith)
