-- ===== src/Mapping/State.antt =====
-- The hash table of a mapping of src/mapping.c, and the operations on one key of it.
use mudos_v22pre.Prelude.{
  ℕ, zero, suc, ◌+◌, ◌-◌, ◌*◌, ◌/◌, ◌%◌, Bool, true, false, Option, none, some, List, [], ◌∷◌,
  if◌then◌else◌, ◌==◌, ltb, update,
}
use mudos_v22pre.Mapping.Key.{Keys}
use mudos_v22pre.Mapping.Chain.{Chain, find_node, assign, unlink_node}

-- `mapping_t`. A bucket is the list of its nodes. `table_size` is the number of buckets less 1; that
-- number is a power of 2, so that `& m->table_size` is a remainder.
pub record Mapping {ℓ} (K V : Type ℓ) : Type ℓ where
  pub table : ℕ → Chain K V
  pub table_size : ℕ
  pub unfilled : ℕ
  pub count : ℕ

-- What happens to keys and values: `assign_svalue_no_free` and `free_svalue`.
pub data MappingEffect {ℓ} (K V : Type ℓ) : Type ℓ where
  ref_key free_key : K → MappingEffect K V
  ref_value free_value : V → MappingEffect K V

-- The LPC errors.
pub data Failure : Type 0 where
  out_of_memory mapping_too_large : Failure

abbrev pub max_table_size : ℕ
max_table_size = 32768

-- `--` and `++` on an `unsigned short`.
abbrev pub dec16 : ℕ → ℕ
dec16 n = (n + 65535) % 65536

abbrev pub inc16 : ℕ → ℕ
inc16 n = (n + 1) % 65536

abbrev pub is_empty {ℓ} : {A : Type ℓ} → List A → Bool
is_empty [] = true
is_empty (x ∷ xs) = false

-- The result of an insertion: the mapping, what was done to keys and values, and an LPC error.
abbrev pub Inserted {ℓ} : Type ℓ → Type ℓ → Type ℓ
Inserted K V = Mapping K V × List (MappingEffect K V) × Option Failure

module _ {ℓ} {K : Type ℓ} ⦃keys : Keys K⦄ where
  -- `node_hash(elt) & oldsize`
  abbrev pub goes_up : ℕ → K → Bool
  goes_up oldsize k = keys.hash k / oldsize % 2 == 1

module _ {ℓ} {K V : Type ℓ} ⦃keys : Keys K⦄ where
  abbrev pub buckets : Mapping K V → ℕ
  buckets m = suc m.table_size

  -- `svalue_to_int(lv) & m->table_size`
  abbrev pub bucket_of : K → Mapping K V → ℕ
  bucket_of k m = keys.hash k % buckets m

  abbrev pub with_bucket : ℕ → Chain K V → Mapping K V → Mapping K V
  with_bucket i c m = record m { table = update m.table i c }

  -- The inner loop of `growMap`, with `*b` and `unfilled`: what stays, what `*b` comes to, and `unfilled`.
  unfoldable pub split_chain : ℕ → Chain K V → Chain K V → ℕ → Chain K V × Chain K V × ℕ
  split_chain oldsize [] b unfilled = ([], b, unfilled)
  split_chain oldsize (elt ∷ c) b unfilled =
      let up = split_chain oldsize c (elt ∷ b) (if is_empty b then dec16 unfilled else unfilled) in
      let stays = split_chain oldsize c b unfilled in
      if goes_up oldsize elt.0 then up else (elt ∷ stays.0, stays.1, stays.2)

  unfoldable pub split_bucket : ℕ → ℕ → Mapping K V → Mapping K V
  unfolding split_chain
  split_bucket oldsize i m = elim (m.table i) as (λ _. Mapping K V) [
    | [] ↦ m
    | elt ∷ c ↦
        let r = split_chain oldsize (elt ∷ c) (m.table (i + oldsize)) m.unfilled in
        record m {
          table = update (update m.table i r.0) (i + oldsize) r.1;
          unfilled = if is_empty r.0 then inc16 r.2 else r.2;
        }
  ]

  -- `while (a--, i--)`
  unfoldable pub split_buckets : ℕ → ℕ → Mapping K V → Mapping K V
  unfolding split_bucket
  split_buckets oldsize zero m = m
  split_buckets oldsize (suc i) m = split_buckets oldsize i (split_bucket oldsize i m)

  -- The table with twice as many buckets, the new ones empty.
  abbrev pub doubled : Mapping K V → Mapping K V
  doubled m = record m {
    table = λ j. if ltb j (buckets m) then m.table j else [];
    table_size = buckets m * 2 - 1;
    unfilled = buckets m * 80 / 100;
  }

  -- `growMap`, if there is memory: `false` is the result 0.
  unfoldable pub grow_map : Mapping K V → Mapping K V × Bool
  unfolding split_buckets
  grow_map m =
      if ltb max_table_size (buckets m * 2)
      then (m, false)
      else (split_buckets (buckets m) (buckets m) (doubled m), true)

  -- `!(--m->unfilled)`, and `growMap`.
  unfoldable pub fill_bucket : Mapping K V → Mapping K V × Bool
  unfolding grow_map
  fill_bucket m =
      let filled = record m { unfilled = dec16 m.unfilled } in
      if dec16 m.unfilled == 0 then grow_map filled else (filled, true)

  -- `node_find_in_mapping` and `find_in_mapping`; `none` stands for `const0u`.
  unfoldable pub find_in_mapping : Mapping K V → K → Option V
  unfolding find_node
  find_in_mapping m lv = find_node lv (m.table (bucket_of lv m))

  -- The node with the key, that `mapping_delete` frees.
  unfoldable pub node_of : K → Chain K V → Option (K × V)
  node_of q [] = none
  node_of q (e ∷ c) = if keys.same e.0 q then some e else node_of q c

  unfoldable pub mapping_delete : Mapping K V → K → Mapping K V × List (MappingEffect K V)
  unfolding node_of unlink_node
  mapping_delete m lv =
      let i = bucket_of lv m in
      elim (node_of lv (m.table i)) as (λ _. Mapping K V × List (MappingEffect K V)) [
        | none ↦ (m, [])
        | some elt ↦
            let left = unlink_node lv (m.table i) in
            (
              record (with_bucket i left m) {
                unfilled = if is_empty left then inc16 m.unfilled else m.unfilled;
                count = m.count - 1;
              },
              free_value elt.1 ∷ free_key elt.0 ∷ [],
            )
      ]

  -- A new node at the head of its bucket, in a table with room for it.
  unfoldable pub link_node : K → V → Mapping K V → Mapping K V
  link_node k v m =
      let i = bucket_of k m in record (with_bucket i ((k, v) ∷ m.table i) m) { count = m.count + 1 }

  -- What comes before a new node is made: a bucket that is empty is counted, and the table grows if too
  -- many are not; `MAX_MAPPING_SIZE` bounds the nodes.
  unfoldable pub room_for_node : ℕ → K → Mapping K V → Mapping K V × Option Failure
  unfolding fill_bucket
  room_for_node max_mapping_size k m =
      let p = if is_empty (m.table (bucket_of k m)) then fill_bucket m else (m, true) in
      if p.1
      then (p.0, if ltb max_mapping_size (m.count + 1) then some mapping_too_large else none)
      else (p.0, some out_of_memory)

  -- `find_for_insert`: behind it a value stands at the key, which is `const0u` if the key is new. The
  -- caller writes its own through the pointer that is returned.
  unfoldable pub find_for_insert : ℕ → V → Bool → Mapping K V → K → Inserted K V
  unfolding find_node room_for_node link_node
  find_for_insert max_mapping_size const0u do_the_free m lv =
      elim (find_node lv (m.table (bucket_of lv m))) as (λ _. Inserted K V) [
        | some old ↦ (m, if do_the_free then free_value old ∷ [] else [], none)
        | none ↦
            let p = room_for_node max_mapping_size lv m in
            elim p.1 as (λ _. Inserted K V) [
              | some failure ↦ (p.0, [], some failure)
              | none ↦ (link_node lv const0u p.0, ref_key lv ∷ [], none)
            ]
      ]

  -- The write through that pointer.
  unfoldable pub store_value : Mapping K V → K → V → Mapping K V
  unfolding assign
  store_value m lv v = let i = bucket_of lv m in with_bucket i (assign lv v (m.table i)) m

  -- `insert_in_mapping` and a write, as in `add_mapping_pair` and the functions beside it.
  unfoldable pub add_mapping_pair : ℕ → V → Mapping K V → K → V → Mapping K V × Option Failure
  unfolding find_for_insert store_value
  add_mapping_pair max_mapping_size const0u m key value =
      let p = find_for_insert max_mapping_size const0u true m key in
      elim p.2 as (λ _. Mapping K V × Option Failure) [
        | some failure ↦ (p.0, some failure)
        | none ↦ (store_value p.0 key value, none)
      ]
