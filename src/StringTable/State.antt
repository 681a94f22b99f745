-- ===== src/StringTable/State.antt =====
-- The shared strings of src/stralloc.c. A `char *` to a shared string is the address of its block
-- with its bytes, of which none is 0. The allocator is other code: it gives the address of a new
-- block. The counters are those of `STRING_STATS`.
use Prim.Native.Nat.{bit_and, min}
use mudos_v22pre.Prelude.{
  ℕ, zero, suc, ◌+◌, ◌-◌, ◌*◌, ◌%◌, Option, none, some, List, [], ◌∷◌, ltb, ◌==◌, if◌then◌else◌,
  update, length, text_eq,
}
use mudos_v22pre.Hash.{whashstr}
use mudos_v22pre.HashChain.{find, to_front}

-- `block_t`: `size` and `refs` are `unsigned short`, and `refs` is 0 for good once it has wrapped.
pub record Block : Type 0 where
  pub address : ℕ
  pub text : List ℕ
  pub size : ℕ
  pub refs : ℕ

pub record StringTable : Type 0 where
  pub base_table : ℕ → List Block
  pub htable_size : ℕ
  pub num_distinct_strings : ℕ
  pub bytes_distinct_strings : ℕ
  pub overhead_bytes : ℕ
  pub allocd_strings : ℕ
  pub allocd_bytes : ℕ
  pub num_str_searches : ℕ
  pub search_len : ℕ

-- `max_string_length`, and `sizeof(block_t)` and `sizeof(block_t *)` on the machine.
pub record Config : Type 0 where
  pub max_string_length : ℕ
  pub sizeof_block : ℕ
  pub sizeof_pointer : ℕ

abbrev pub ushrt_max : ℕ
ushrt_max = 65535

-- `for (htable_size = 1; htable_size < y; htable_size *= 2)`, on fuel.
unfoldable pub round_up : ℕ → ℕ → ℕ → Option ℕ
round_up zero y size = none
round_up (suc n) y size =
    let rest = round_up n y (size * 2) in if ltb size y then rest else some size

unfoldable pub init_strings : Config → ℕ → Option StringTable
init_strings cfg y = elim (round_up (suc y) y 1) [
  | none ↦ none
  | some size ↦ some (record {
    base_table = λ x. [];
    htable_size = size;
    num_distinct_strings = 0;
    bytes_distinct_strings = 0;
    overhead_bytes = cfg.sizeof_pointer * size;
    allocd_strings = 0;
    allocd_bytes = 0;
    num_str_searches = 0;
    search_len = 0;
  })
]

-- `StrHash`
unfoldable pub str_hash : StringTable → List ℕ → ℕ
str_hash s str = bit_and (whashstr str 20) (s.htable_size - 1)

-- The blocks that a search looks at.
unfoldable pub looked_at : List ℕ → List Block → ℕ
looked_at str [] = 0
looked_at str (b ∷ bs) = if text_eq b.text str then 1 else suc (looked_at str bs)

-- The block that is found is moved to the head of its chain.
unfoldable pub sfindblock : List ℕ → ℕ → StringTable → StringTable × Option Block
unfolding looked_at
sfindblock str h s = (
  record s {
    base_table = update s.base_table h (to_front Block.text str (s.base_table h));
    num_str_searches = s.num_str_searches + 1;
    search_len = s.search_len + looked_at str (s.base_table h);
  },
  find Block.text str (s.base_table h),
)

abbrev pub findstring : List ℕ → StringTable → StringTable × Option Block
unfolding sfindblock
findstring str s = sfindblock str (str_hash s str) s

unfoldable pub add_new_string : ℕ → ℕ → StringTable → StringTable
add_new_string len overhead s = record s {
  num_distinct_strings = s.num_distinct_strings + 1;
  bytes_distinct_strings = s.bytes_distinct_strings + (len + 1);
  overhead_bytes = s.overhead_bytes + overhead;
}

unfoldable pub sub_new_string : ℕ → ℕ → StringTable → StringTable
sub_new_string len overhead s = record s {
  num_distinct_strings = s.num_distinct_strings - 1;
  bytes_distinct_strings = s.bytes_distinct_strings - (len + 1);
  overhead_bytes = s.overhead_bytes - overhead;
}

unfoldable pub add_string : ℕ → StringTable → StringTable
add_string len s = record s {
  allocd_strings = s.allocd_strings + 1;
  allocd_bytes = s.allocd_bytes + (len + 1);
}

unfoldable pub sub_string : ℕ → StringTable → StringTable
sub_string len s = record s {
  allocd_strings = s.allocd_strings - 1;
  allocd_bytes = s.allocd_bytes - (len + 1);
}

-- `strncpy` of at most `n` bytes.
unfoldable pub cut : ℕ → List ℕ → List ℕ
cut zero str = []
cut (suc n) [] = []
cut (suc n) (c ∷ str) = c ∷ cut n str

unfoldable pub new_block : Config → ℕ → List ℕ → Block
unfolding cut
new_block cfg addr string =
    let len = min (length string) cfg.max_string_length in
    record { address = addr; text = cut len string; size = min len ushrt_max; refs = 1 }

unfoldable pub alloc_new_string : Config → ℕ → List ℕ → ℕ → StringTable → StringTable × Block
unfolding add_string add_new_string
alloc_new_string cfg addr string h s =
    let b = new_block cfg addr string in
    (
      add_string b.size (
          add_new_string b.size cfg.sizeof_block
            (record s { base_table = update s.base_table h (b ∷ s.base_table h) })),
      b,
    )

-- `if (REFS(b)) REFS(b)++`, on an `unsigned short`.
unfoldable pub inc_refs : Block → Block
inc_refs b = if b.refs == 0 then b else record b { refs = (b.refs + 1) % 65536 }

-- A write to the block at an address, in the chain that holds it.
unfoldable pub write_block : Block → List Block → List Block
write_block b [] = []
write_block b (c ∷ cs) = if c.address == b.address then b ∷ cs else c ∷ write_block b cs

unfoldable pub store : ℕ → Block → StringTable → StringTable
unfolding write_block
store h b s = record s { base_table = update s.base_table h (write_block b (s.base_table h)) }

-- `addr` is what the allocator returns if a block is needed.
unfoldable pub make_shared_string : Config → ℕ → List ℕ → StringTable → StringTable × Block
make_shared_string cfg addr str s =
    let h = str_hash s str in
    let (s₁, found) = sfindblock str h s in
    elim found [
      | none ↦ alloc_new_string cfg addr str h s₁
      | some b ↦ (add_string b.size (store h (inc_refs b) s₁), inc_refs b)
    ]

-- The block at the address of a `char *`; the table holds every shared string.
unfoldable pub block_at : ℕ → List Block → Option Block
block_at addr [] = none
block_at addr (b ∷ bs) = if b.address == addr then some b else block_at addr bs

abbrev pub ref_string : ℕ → List ℕ → StringTable → Option StringTable
ref_string addr str s =
    let h = str_hash s str in
    elim (block_at addr (s.base_table h)) [
      | none ↦ none
      | some b ↦ some (add_string b.size (store h (inc_refs b) s))
    ]

-- `while ((b = *prev)) { if (STRING(b) == str) { *prev = NEXT(b); … } }`
unfoldable pub unlink_block : ℕ → List Block → List Block
unlink_block addr [] = []
unlink_block addr (b ∷ bs) = if b.address == addr then bs else b ∷ unlink_block addr bs

-- `free_string`, of a block in the chain `h`.
unfoldable pub free_block : Config → ℕ → Block → StringTable → StringTable
free_block cfg h b s =
    if b.refs == 0
    then s
    else let b' = record b { refs = b.refs - 1 } in
      let s₁ = sub_string b.size (store h b' s) in
      if ltb 0 b'.refs
      then s₁
      else sub_new_string b.size cfg.sizeof_block (record s₁ {
        base_table = update s₁.base_table h (unlink_block b.address (s₁.base_table h));
      })

-- `none` is a string that is not in the table, which is fatal.
unfoldable pub free_string : Config → ℕ → List ℕ → StringTable → Option StringTable
free_string cfg addr str s =
    let h = str_hash s str in
    elim (block_at addr (s.base_table h)) [ none ↦ none | some b ↦ some (free_block cfg h b s) ]

abbrev pub deallocate_string : ℕ → List ℕ → StringTable → StringTable
unfolding unlink_block
deallocate_string addr str s =
    let h = str_hash s str in
    record s { base_table = update s.base_table h (unlink_block addr (s.base_table h)) }
