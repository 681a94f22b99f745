-- ===== src/StringTable/Freeing.antt =====
-- References to a shared string: `make_shared_string`, `ref_string` and `free_string` of
-- src/stralloc.c against each other.
use mudos_v22pre.Prelude.{
  ℕ, ◌+◌, ◌-◌, ◌≡◌, refl, ap, inl, inr, Bool-cases, text_eq, [], none, some, List, ◌∷◌, arith,
  update, ==_self, update-update, update_id, length,
}
use mudos_v22pre.HashChain.{find, to_front-missing}
use mudos_v22pre.StringTable.State.{
  Block, StringTable, Config, str_hash, sfindblock, new_block, alloc_new_string, add_string,
  add_new_string, sub_string, sub_new_string, write_block, store, block_at, unlink_block, looked_at,
  free_block, free_string, make_shared_string,
}
use mudos_v22pre.StringTable.Sharing.{view}

add-sub : (a b : ℕ) → a + b - b ≡ a
add-sub a b = omega arith

-- A search for a text that is not in the table looks at its whole chain.
looked_at-missing :
    (str : List ℕ) (bs : List Block) → find Block.text str bs ≡ none → looked_at str bs ≡ length bs
unfolding looked_at find
looked_at-missing str [] h = refl
looked_at-missing str (b ∷ bs) h = elim (Bool-cases (text_eq b.text str)) [
  | inl hit ↦ cc (rw hit at h)
  | inr miss ↦ rw (miss, looked_at-missing str bs (rw miss at h))
]

-- The table after a search in vain: the two counters of searches have gone up.
abbrev pub searched : List ℕ → StringTable → StringTable
searched str s = record s {
  num_str_searches = s.num_str_searches + 1;
  search_len = s.search_len + length (s.base_table (str_hash s str));
}

-- The table after a string is allocated.
abbrev allocated : Config → Block → ℕ → StringTable → StringTable
allocated cfg b h s = add_string b.size (
    add_new_string b.size cfg.sizeof_block
      (record s { base_table = update s.base_table h (b ∷ s.base_table h) }))

make-missing :
    (cfg : Config) (addr : ℕ) (str : List ℕ) (s : StringTable)
    → view s str ≡ none
    → make_shared_string cfg addr str s ≡ (
      allocated cfg (new_block cfg addr str) (str_hash s str) (searched str s),
      new_block cfg addr str,
    )
unfolding make_shared_string sfindblock view alloc_new_string add_string add_new_string
make-missing cfg addr str s missing =
    let h = str_hash s str in
    let home = s.base_table h in
    rw (
      make_shared_string,
      missing,
      to_front-missing Block.text str home missing,
      looked_at-missing str home missing,
      ==_self h,
      update-update s.base_table h home (new_block cfg addr str ∷ home),
    )

block_at-head : (b : Block) (bs : List Block) → block_at b.address (b ∷ bs) ≡ some b
unfolding block_at
block_at-head b bs = rw (==_self b.address)

write_block-head :
    (b : Block) (n : ℕ) (bs : List Block)
    → write_block (record b { refs = n }) (b ∷ bs) ≡ record b { refs = n } ∷ bs
unfolding write_block
write_block-head b n bs = rw (==_self b.address)

unlink_block-head :
    (b : Block) (n : ℕ) (bs : List Block) → unlink_block b.address (record b { refs = n } ∷ bs) ≡ bs
unfolding unlink_block
unlink_block-head b n bs = rw (==_self b.address)

table_back :
    (t : ℕ → List Block) (h : ℕ) (b : Block) (n : ℕ)
    → let t₁ = update t h (b ∷ t h) in
      let t₂ = update t₁ h (write_block (record b { refs = n }) (t₁ h)) in
      update t₂ h (unlink_block b.address (t₂ h)) ≡ t
table_back t h b n =
    rw (==_self h, write_block-head b n (t h), unlink_block-head b n (t h))
      (rw (update-update (update t h (b ∷ t h)) h _ (t h), update-update t h (b ∷ t h) (t h))
        (update_id t h))

-- The state with the last reference of the head block gone.
free_block-last :
    (cfg : Config) (h n : ℕ) (addr size : ℕ) (text : List ℕ) (s : StringTable)
    → n ≡ 1
    → let b : Block = record { address = addr; text = text; size = size; refs = n } in
      free_block cfg h b (allocated cfg b h s) ≡ s
unfolding free_block store sub_string sub_new_string add_string add_new_string
free_block-last cfg h n addr size text s one =
    let b : Block = record { address = addr; text = text; size = size; refs = 1 } in
    rw one (λ i. record {
      base_table = table_back s.base_table h b 0 i;
      htable_size = s.htable_size;
      num_distinct_strings = add-sub s.num_distinct_strings 1 i;
      bytes_distinct_strings = add-sub s.bytes_distinct_strings (size + 1) i;
      overhead_bytes = add-sub s.overhead_bytes cfg.sizeof_block i;
      allocd_strings = add-sub s.allocd_strings 1 i;
      allocd_bytes = add-sub s.allocd_bytes (size + 1) i;
      num_str_searches = s.num_str_searches;
      search_len = s.search_len;
    })

str_hash-allocated :
    (cfg : Config) (b : Block) (h : ℕ) (s : StringTable) (str : List ℕ)
    → str_hash (allocated cfg b h s) str ≡ str_hash s str
unfolding str_hash add_string add_new_string
str_hash-allocated cfg b h s str = refl

table-allocated :
    (cfg : Config) (b : Block) (h : ℕ) (s : StringTable)
    → (allocated cfg b h s).base_table h ≡ b ∷ s.base_table h
unfolding add_string add_new_string
table-allocated cfg b h s = rw (==_self h)

-- The block at the head of its chain, with one reference, is taken out of the table.
free-head :
    (cfg : Config) (str : List ℕ) (b : Block) (s : StringTable)
    → b.refs ≡ 1
    → free_string cfg b.address str (allocated cfg b (str_hash s str) s) ≡ some s
unfolding free_string
free-head cfg str b s one =
    let h = str_hash s str in
    rw
      (
        free_string,
        str_hash-allocated cfg b h s str,
        table-allocated cfg b h s,
        block_at-head b (s.base_table h),
      )
      (rw (str_hash-allocated cfg b h s str)
        (ap some (free_block-last cfg h b.refs b.address b.size b.text s one)))

new_block-refs :
    (cfg : Config) (addr : ℕ) (str : List ℕ)
    → ((new_block cfg addr str).refs ≡ 1) × ((new_block cfg addr str).address ≡ addr)
unfolding new_block
new_block-refs cfg addr str = (refl, refl)

-- Freeing a string that was not in the table before gives back the table and its counters, but for
-- the two of searches: there was one more, which looked at each block of the string's chain.
pub free_string-make :
    (cfg : Config) (addr : ℕ) (str : List ℕ) (s : StringTable)
    → view s str ≡ none
    → let r = make_shared_string cfg addr str s in
      free_string cfg r.1.address str r.0
      ≡ some (record s {
        num_str_searches = s.num_str_searches + 1;
        search_len = s.search_len + length (s.base_table (str_hash s str));
      })
unfolding str_hash
free_string-make cfg addr str s missing =
    rw (make-missing cfg addr str s missing)
      (free-head cfg str (new_block cfg addr str) (searched str s) (new_block-refs cfg addr str).0)
