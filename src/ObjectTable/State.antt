-- ===== src/ObjectTable/State.antt =====
-- The hash table of object names, src/otable.c. An object stands in it by its address, its name and
-- the flag that says it is a precompiled program. The counters of the statistics are kept.
use Prim.Native.Nat.{bit_and}
use mudos_v22pre.Prelude.{
  ℕ, zero, suc, ◌+◌, ◌-◌, ◌*◌, Bool, ◌&&◌, Option, none, some, List, [], ◌∷◌, ◌++◌, ltb, ◌==◌,
  if◌then◌else◌, update, text_eq,
}
use mudos_v22pre.Hash.{whashstr}
use mudos_v22pre.HashChain.{find, to_front}

pub record Object : Type 0 where
  pub address : ℕ
  pub name : List ℕ
  pub is_compiled_program : Bool

pub record ObjectTable : Type 0 where
  pub obj_table : ℕ → List Object
  pub otable_size : ℕ
  pub obj_searches : ℕ
  pub obj_probes : ℕ
  pub objs_found : ℕ
  pub objs_in_table : ℕ
  pub user_obj_lookups : ℕ
  pub user_obj_found : ℕ

-- `for (otable_size = 1; otable_size < y; otable_size *= 2)`, on fuel.
pub power_above : ℕ → ℕ → ℕ → Option ℕ
power_above zero y size = none
power_above (suc n) y size =
    let rest = power_above n y (size * 2) in if ltb size y then rest else some size

abbrev pub init_otable : ℕ → Option ObjectTable
unfolding power_above
init_otable y = elim (power_above (suc y) y 1) [
  | none ↦ none
  | some size ↦ some (record {
    obj_table = λ x. [];
    otable_size = size;
    obj_searches = 0;
    obj_probes = 0;
    objs_found = 0;
    objs_in_table = 0;
    user_obj_lookups = 0;
    user_obj_found = 0;
  })
]

-- `ObjHash`
unfoldable pub obj_hash : ObjectTable → List ℕ → ℕ
obj_hash t s = bit_and (whashstr s 40) (t.otable_size - 1)

-- The objects that a search looks at.
pub probes : List ℕ → List Object → ℕ
probes s [] = 0
probes s (ob ∷ obs) = if text_eq ob.name s then 1 else suc (probes s obs)

abbrev pub if_found : Option Object → ℕ
if_found none = 0
if_found (some ob) = 1

-- The object that is found is moved to the head of its chain.
unfoldable pub find_obj_n : List ℕ → ObjectTable → ObjectTable × Option Object
unfolding probes
find_obj_n s t =
    let h = obj_hash t s in
    let chain = t.obj_table h in
    (
      record t {
        obj_table = update t.obj_table h (to_front Object.name s chain);
        obj_searches = t.obj_searches + 1;
        obj_probes = t.obj_probes + probes s chain;
        objs_found = t.objs_found + if_found (find Object.name s chain);
      },
      find Object.name s chain,
    )

-- `next_hash` is in the object: to enter one that is in the table already would make a cycle of its
-- chain. That is left out: names are not entered twice, which the source checks in DEBUG.
unfoldable pub enter_object_hash : Object → ObjectTable → ObjectTable
enter_object_hash ob t =
    let t₁ = (find_obj_n ob.name t).0 in
    let h = obj_hash t ob.name in
    record t₁ {
      obj_table = update t₁.obj_table h (ob ∷ t₁.obj_table h);
      objs_in_table = t₁.objs_in_table + 1;
    }

unfoldable pub enter_object_hash_at_end : Object → ObjectTable → ObjectTable
enter_object_hash_at_end ob t =
    let t₁ = (find_obj_n ob.name t).0 in
    let h = obj_hash t ob.name in
    record t₁ {
      obj_table = update t₁.obj_table h (t₁.obj_table h ++ ob ∷ []);
      objs_in_table = t₁.objs_in_table + 1;
    }

-- `ob->next_hash`, of an object in its chain.
unfoldable pub next_hash : ℕ → List Object → Option (List Object)
next_hash addr [] = none
next_hash addr (ob ∷ obs) = if ob.address == addr then some obs else next_hash addr obs

-- `none` is an object that is not in the table.
unfoldable pub remove_object_hash : Object → ObjectTable → Option ObjectTable
unfolding next_hash
remove_object_hash ob t =
    let t₁ = (find_obj_n ob.name t).0 in
    let h = obj_hash t ob.name in
    elim (next_hash ob.address (t₁.obj_table h)) [
      | none ↦ none
      | some rest ↦ some (record t₁ {
        obj_table = update t₁.obj_table h rest;
        objs_in_table = t₁.objs_in_table - 1;
      })
    ]

-- The loop of `remove_precompiled_hashes`.
pub drop_precompiled : List ℕ → List Object → List Object
drop_precompiled name [] = []
drop_precompiled name (ob ∷ obs) =
    let rest = drop_precompiled name obs in
    if ob.is_compiled_program && text_eq ob.name name then rest else ob ∷ rest

abbrev pub remove_precompiled_hashes : List ℕ → ObjectTable → ObjectTable
unfolding drop_precompiled
remove_precompiled_hashes name t =
    let h = obj_hash t name in
    record t { obj_table = update t.obj_table h (drop_precompiled name (t.obj_table h)) }

unfoldable pub lookup_object_hash : List ℕ → ObjectTable → ObjectTable × Option Object
lookup_object_hash s t =
    let (t₁, ob) = find_obj_n s t in
    (
      record t₁ {
        user_obj_lookups = t₁.user_obj_lookups + 1;
        user_obj_found = t₁.user_obj_found + if_found ob;
      },
      ob,
    )
