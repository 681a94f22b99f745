-- ===== src/Mapping/Whole.antt =====
-- The operations of src/mapping.c on all the nodes of a mapping.
use Prim.Native.Nat.{bit_or}
use mudos_v22pre.Prelude.{
  ℕ, zero, suc, ◌+◌, ◌-◌, ◌*◌, ◌/◌, ◌%◌, Bool, true, false, not, ◌&&◌, Option, none, some, List, [],
  ◌∷◌, ◌++◌, map, if◌then◌else◌, ◌==◌, ltb, leb, length, update,
}
use mudos_v22pre.Mapping.Key.{Keys}
use mudos_v22pre.Mapping.Chain.{Chain, find_node}
use mudos_v22pre.Mapping.Orders.{turn_onto}
use mudos_v22pre.Mapping.State.{
  Mapping, Failure, out_of_memory, mapping_too_large, bucket_of, with_bucket, find_in_mapping,
  fill_bucket, store_value, inc16, is_empty,
}

-- What comes of an operation that makes a mapping: the mapping, whether it has been freed, and an LPC error.
pub record MadeMapping {ℓ} (K V : Type ℓ) : Type ℓ where
  pub made : Mapping K V
  pub freed : Bool
  pub failure : Option Failure

-- The number of buckets for `n` nodes.
unfoldable pub table_room : ℕ → ℕ → ℕ
table_room max_mapping_size n =
    let a = if ltb max_mapping_size n then max_mapping_size else n in
    let b = bit_or a (a / 2) in
    let c = bit_or b (b / 4) in
    let d = bit_or c (c / 16) in
    let e = if d / 256 % 256 == 0 then d else bit_or d (d / 256) in if ltb 8 a then e + 1 else 8

module _ {ℓ} {K V : Type ℓ} where
  unfoldable pub allocate_mapping : ℕ → ℕ → Mapping K V
  unfolding table_room
  allocate_mapping max_mapping_size n =
      let size = table_room max_mapping_size n in
      record {
        table = λ i. [];
        table_size = (size - 1) % 65536;
        unfilled = size * 80 / 100 % 65536;
        count = 0;
      }

  -- The nodes of the buckets from `j` down to the first, `do ... while (j--)`.
  unfoldable pub nodes_from : ℕ → Mapping K V → Chain K V
  nodes_from zero m = m.table 0
  nodes_from (suc j) m = m.table (suc j) ++ nodes_from j m

  -- All the nodes, in the order in which `mapTraverse` and the loops like it come to them.
  abbrev pub nodes : Mapping K V → Chain K V
  nodes m = nodes_from m.table_size m

  -- `mapTraverse`: a function with a state, that stops the traversal by its result `true`.
  abbrev pub map_traverse {ℓ'} : {S : Type ℓ'} → (K × V → S → S × Bool) → Chain K V → S → S
  map_traverse func [] extra = extra
  map_traverse func (elt ∷ c) extra =
      let p = func elt extra in let rest = map_traverse func c p.0 in if p.1 then p.0 else rest

  unfoldable pub mapping_indices : Mapping K V → List K
  unfolding nodes_from
  mapping_indices m = map (λ e. e.0) (nodes m)

  unfoldable pub mapping_values : Mapping K V → List V
  unfolding nodes_from
  mapping_values m = map (λ e. e.1) (nodes m)

module _ {ℓ} {K V : Type ℓ} ⦃keys : Keys K⦄ where
  -- Each bucket is copied to the head, so that its nodes come to stand the other way round.
  unfoldable pub copy_mapping : Mapping K V → Mapping K V
  unfolding turn_onto
  copy_mapping m = record m { table = λ i. turn_onto (m.table i) [] }

  -- `m1->count += count - m1->count`, at the end of the loop and when the table cannot grow.
  abbrev pub counted_up : ℕ → Mapping K V → Mapping K V
  counted_up count m = record m { count = m.count + (count - m.count) }

  -- A new node at the head of its bucket, which is counted elsewhere.
  abbrev pub put_in : K × V → Mapping K V → Mapping K V
  put_in elt m = let i = bucket_of elt.0 m in with_bucket i ((elt.0, elt.1) ∷ m.table i) m

  -- The loop of `add_to_mapping`, and of `unique_add_to_mapping` if `overwrite` is false: a key that is
  -- there is written or left, and another gets a node. The nodes are counted in the variable `count`.
  unfoldable pub add_counting :
      Bool → ℕ → ℕ → Mapping K V → Chain K V → Mapping K V × Option Failure
  unfolding find_node store_value fill_bucket
  add_counting overwrite max_mapping_size count m [] = (counted_up count m, none)
  add_counting overwrite max_mapping_size count m (elt ∷ rest) =
      elim (find_node elt.0 (m.table (bucket_of elt.0 m))) as (λ _. Mapping K V × Option Failure) [
        | some old ↦
            add_counting overwrite max_mapping_size count
              (if overwrite then store_value m elt.0 elt.1 else m) rest
        | none ↦
            let p = if is_empty (m.table (bucket_of elt.0 m)) then fill_bucket m else (m, true) in
            let n = count + 1 in
            let added = add_counting overwrite max_mapping_size n (put_in elt p.0) rest in
            if p.1
            then (if ltb max_mapping_size n
                then (
                  record p.0 { count = p.0.count + (n - (p.0.count + 1)) },
                  some mapping_too_large,
                )
                else added)
            else (counted_up count p.0, some out_of_memory)
      ]

  unfoldable pub add_nodes : Bool → ℕ → Mapping K V → Chain K V → Mapping K V × Option Failure
  unfolding add_counting
  add_nodes overwrite max_mapping_size m es = add_counting overwrite max_mapping_size m.count m es

  -- The mapping is freed, if `free_flag` says so, when the table cannot grow; not when it is too large.
  abbrev pub merged : Bool → Mapping K V × Option Failure → MadeMapping K V
  merged free_flag (m, none) = record { made = m; freed = false; failure = none }
  merged free_flag (m, some out_of_memory) = record {
    made = m;
    freed = free_flag;
    failure = some out_of_memory;
  }
  merged free_flag (m, some mapping_too_large) = record {
    made = m;
    freed = false;
    failure = some mapping_too_large;
  }

  unfoldable pub add_to_mapping : ℕ → Mapping K V → Mapping K V → Bool → MadeMapping K V
  unfolding add_nodes nodes_from
  add_to_mapping max_mapping_size m1 m2 free_flag =
      merged free_flag (add_nodes true max_mapping_size m1 (nodes m2))

  -- `++m1->unfilled`, when the table cannot grow.
  abbrev pub unfilled_again : Mapping K V × Option Failure → Mapping K V × Option Failure
  unfilled_again (m, some out_of_memory) =
      (record m { unfilled = inc16 m.unfilled }, some out_of_memory)
  unfilled_again (m, some mapping_too_large) = (m, some mapping_too_large)
  unfilled_again (m, none) = (m, none)

  unfoldable pub unique_add_to_mapping : ℕ → Mapping K V → Mapping K V → Bool → MadeMapping K V
  unfolding add_nodes nodes_from
  unique_add_to_mapping max_mapping_size m1 m2 free_flag =
      merged free_flag (unfilled_again (add_nodes false max_mapping_size m1 (nodes m2)))

  abbrev pub absorb_mapping : ℕ → Mapping K V → Mapping K V → MadeMapping K V
  unfolding add_to_mapping
  absorb_mapping max_mapping_size m1 m2 =
      if m2.count == 0
      then record { made = m1; freed = false; failure = none }
      else add_to_mapping max_mapping_size m1 m2 false

  unfoldable pub add_mapping : ℕ → Mapping K V → Mapping K V → MadeMapping K V
  unfolding add_to_mapping unique_add_to_mapping copy_mapping
  add_mapping max_mapping_size m1 m2 =
      if leb m2.count m1.count
      then (if m2.count == 0
          then record { made = copy_mapping m1; freed = false; failure = none }
          else add_to_mapping max_mapping_size (copy_mapping m1) m2 true)
      else (if m1.count == 0
          then record { made = copy_mapping m2; freed = false; failure = none }
          else unique_add_to_mapping max_mapping_size (copy_mapping m2) m1 true)

  -- `load_mapping_from_aggregate`, from the keys and values on the stack; an error frees the mapping.
  unfoldable pub load_mapping_from_aggregate : ℕ → Chain K V → Option (Mapping K V) × Option Failure
  unfolding add_nodes allocate_mapping
  load_mapping_from_aggregate max_mapping_size pairs =
      let p =
        add_nodes true max_mapping_size (allocate_mapping max_mapping_size (length pairs)) pairs in
      elim p.1 as (λ _. Option (Mapping K V) × Option Failure) [
        | none ↦ (some p.0, none)
        | some failure ↦ (none, some failure)
      ]

  -- One bucket of `map_mapping`: a callback that has no result ends the bucket.
  unfoldable pub map_chain : (K → V → Option V) → Chain K V → Chain K V
  map_chain callback [] = []
  map_chain callback (elt ∷ c) = elim (callback elt.0 elt.1) as (λ _. Chain K V) [
    | some ret ↦ (elt.0, ret) ∷ map_chain callback c
    | none ↦ elt ∷ c
  ]

  unfoldable pub map_mapping : (K → V → Option V) → Mapping K V → Mapping K V
  unfolding map_chain copy_mapping
  map_mapping callback m =
      let copy = copy_mapping m in
      record copy {
        table = λ i. if leb i m.table_size then map_chain callback (copy.table i) else copy.table i;
      }

-- One bucket of `compose_mapping`: a value that is a key of `m2` gives way to the value there, and the
-- other nodes are deleted, which are counted.
module _ {ℓ} {K : Type ℓ} ⦃keys : Keys K⦄ where
  unfoldable pub compose_chain : Mapping K K → Chain K K → Chain K K × ℕ
  unfolding find_in_mapping
  compose_chain m2 [] = ([], 0)
  compose_chain m2 (elt ∷ c) =
      let rest = compose_chain m2 c in
      elim (find_in_mapping m2 elt.1) as (λ _. Chain K K × ℕ) [
        | some value ↦ ((elt.0, value) ∷ rest.0, rest.1)
        | none ↦ (rest.0, rest.1 + 1)
      ]

  unfoldable pub compose_bucket : Mapping K K → ℕ → Mapping K K × ℕ → Mapping K K × ℕ
  unfolding compose_chain
  compose_bucket m2 j (m1, deleted) =
      let r = compose_chain m2 (m1.table j) in
      (
        record m1 {
          table = update m1.table j r.0;
          unfilled =
              if is_empty r.0 && not (is_empty (m1.table j))
              then inc16 m1.unfilled
              else m1.unfilled;
        },
        (deleted + r.1) % 65536,
      )

  -- The buckets from `i` on, as many as `j`.
  unfoldable pub compose_buckets : Mapping K K → ℕ → ℕ → Mapping K K × ℕ → Mapping K K × ℕ
  unfolding compose_bucket
  compose_buckets m2 i zero p = p
  compose_buckets m2 i (suc j) p = compose_buckets m2 (suc i) j (compose_bucket m2 i p)

  -- `flag` says that a copy of `m1` is composed. `m2` is another mapping than `m1`.
  unfoldable pub compose_mapping : Mapping K K → Mapping K K → Bool → Mapping K K
  unfolding compose_buckets copy_mapping
  compose_mapping m1 m2 flag =
      let m = if flag then copy_mapping m1 else m1 in
      let p = compose_buckets m2 0 (suc m.table_size) (m, 0) in record p.0 { count = m.count - p.1 }
