-- ===== src/Tests/Tables.antt =====
-- Runs of src/hash.c, src/stralloc.c and src/otable.c at small tables, and their theorems there.
use mudos_v22pre.Prelude.{
  ℕ, ◌+◌, ◌<◌, ◌≡◌, refl, false, none, some, List, [], ◌∷◌, arith, text_eq, if◌then◌else◌,
}
use mudos_v22pre.Hash.{whashstr}
use mudos_v22pre.HashChain
use mudos_v22pre.StringTable.State
use mudos_v22pre.StringTable.State.{
  Block, StringTable, Config, init_strings, inc_refs, make_shared_string, free_string,
}
use mudos_v22pre.StringTable.Sharing
use mudos_v22pre.StringTable.Sharing.{IsShared, make_shared_string-view}
use mudos_v22pre.StringTable.Freeing.{free_string-make}
use mudos_v22pre.ObjectTable.State as Objects
use mudos_v22pre.ObjectTable.State.{Object, ObjectTable, enter_object_hash, remove_object_hash}
use mudos_v22pre.ObjectTable.Lookup
use mudos_v22pre.ObjectTable.Lookup.{
  or_behind, enter_object_hash-view, enter_object_hash_at_end-view, remove_object_hash-enter,
}

-- "room"
abbrev room : List ℕ
room = 114 ∷ 111 ∷ 111 ∷ 109 ∷ []

room_hash : whashstr room 20 < 65536
unfolding whashstr
room_hash = omega arith

abbrev config : Config
config = record { max_string_length = 200; sizeof_block = 16; sizeof_pointer = 8 }

abbrev strings : StringTable
strings = record {
  base_table = λ h. [];
  htable_size = 256;
  num_distinct_strings = 0;
  bytes_distinct_strings = 0;
  overhead_bytes = 2048;
  allocd_strings = 0;
  allocd_bytes = 0;
  num_str_searches = 0;
  search_len = 0;
}

strings-IsShared : IsShared strings
unfolding HashChain.count
strings-IsShared = record { once = λ h str. omega arith }

-- The first call allocates, the second counts a reference, and the block stays where it is.
shared_twice :
    (make_shared_string config 77 room (make_shared_string config 64 room strings).0).1
    ≡ record { address = 64; text = room; size = 4; refs = 2 }
unfolding make_shared_string State.sfindblock State.alloc_new_string State.new_block
    State.add_string State.add_new_string State.store State.write_block inc_refs State.str_hash
    HashChain.find HashChain.to_front HashChain.without whashstr State.cut
shared_twice = refl

make_shared_string-view_example :
    let r = make_shared_string config 64 room strings in
    ((t : List ℕ)
      → Sharing.view r.0 t ≡ (if text_eq room t then some r.1 else Sharing.view strings t))
    × (r.1.text ≡ room)
    × IsShared r.0
make_shared_string-view_example =
    make_shared_string-view config 64 room strings strings-IsShared (omega arith)

free_string-make_example :
    let r = make_shared_string config 64 room strings in
    free_string config r.1.address room r.0
    ≡ some (record strings { num_str_searches = 1; search_len = 0 })
unfolding Sharing.view HashChain.find
free_string-make_example = free_string-make config 64 room strings refl

abbrev objects : ObjectTable
objects = record {
  obj_table = λ h. [];
  otable_size = 64;
  obj_searches = 0;
  obj_probes = 0;
  objs_found = 0;
  objs_in_table = 0;
  user_obj_lookups = 0;
  user_obj_found = 0;
}

abbrev room_object : Object
room_object = record { address = 5; name = room; is_compiled_program = false }

-- "hall"
abbrev hall_object : Object
hall_object = record { address = 6; name = 104 ∷ 97 ∷ 108 ∷ 108 ∷ []; is_compiled_program = false }

abbrev entered : ObjectTable
entered = enter_object_hash room_object objects

hall_absent : Lookup.view entered hall_object.name ≡ none
unfolding Lookup.view enter_object_hash Objects.find_obj_n Objects.obj_hash HashChain.find
    HashChain.to_front whashstr
hall_absent = refl

enter_object_hash-view_example :
    let t' = enter_object_hash hall_object entered in
    ((s : List ℕ)
      → Lookup.view t' s
        ≡ (if text_eq hall_object.name s then some hall_object else Lookup.view entered s))
    × (t'.objs_in_table ≡ entered.objs_in_table + 1)
enter_object_hash-view_example = enter_object_hash-view entered hall_object hall_absent

remove_object_hash-enter_example :
    (t' : ObjectTable) × (remove_object_hash hall_object (enter_object_hash hall_object entered)
      ≡ some t')
    × ((s : List ℕ) → Lookup.view t' s ≡ Lookup.view entered s)
    × (t'.objs_in_table ≡ entered.objs_in_table)
remove_object_hash-enter_example = remove_object_hash-enter entered hall_object hall_absent
