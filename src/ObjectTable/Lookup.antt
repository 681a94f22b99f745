-- ===== src/ObjectTable/Lookup.antt =====
-- Which object a name is looked up to, after each operation of src/otable.c.
use mudos_v22pre.Prelude.{
  ℕ, ◌+◌, ◌-◌, ◌≡◌, refl, sym, ap, ◌∙◌, Bool, true, false, inl, inr, Option, none, some, List, [],
  ◌∷◌, ◌++◌, arith, ◌==◌, ==_self, if◌then◌else◌, Bool-cases, update, update-update, text_eq,
  text_eq→eq, text_eq_self,
}
use mudos_v22pre.HashChain.{find, to_front, find-to_front, find-hit, to_front-found, without}
use mudos_v22pre.ObjectTable.State.{
  Object, ObjectTable, obj_hash, find_obj_n, enter_object_hash, enter_object_hash_at_end, next_hash,
  remove_object_hash,
}

-- The object that a search for the name finds.
unfoldable pub view : ObjectTable → List ℕ → Option Object
view t s = find Object.name s (t.obj_table (obj_hash t s))

obj_hash_same :
    (t t' : ObjectTable) (s : List ℕ)
    → t'.otable_size ≡ t.otable_size
    → obj_hash t' s ≡ obj_hash t s
unfolding obj_hash
obj_hash_same t t' s size = rw size

-- A new chain in the slot of `name` that treats `name` as `g` says and no other name.
slot_view :
    (t t' : ObjectTable) (name : List ℕ) (chain : List Object) (g : Option Object → Option Object)
    → t'.otable_size ≡ t.otable_size
    → t'.obj_table ≡ update t.obj_table (obj_hash t name) chain
    → ((s : List ℕ)
        → let old = find Object.name s (t.obj_table (obj_hash t name)) in
          find Object.name s chain ≡ (if text_eq name s then g old else old))
    → (s : List ℕ) → view t' s ≡ (if text_eq name s then g (view t s) else view t s)
unfolding view
slot_view t t' name chain g size table here s =
    rw (obj_hash_same t t' s size, table)
      (elim (Bool-cases (obj_hash t s == obj_hash t name)) [
        | inl same_slot ↦
            let e : obj_hash t s ≡ obj_hash t name = ground arith in rw same_slot (rw e (here s))
        | inr there ↦ elim (Bool-cases (text_eq name s)) [
          | inr differs ↦ rw (there, differs)
          | inl same ↦ let e = ap (obj_hash t) (text_eq→eq name s same) in absurd (ground arith)
        ]
      ])

if_same {ℓ} : {A : Type ℓ} (b : Bool) (x : A) → x ≡ (if b then x else x)
if_same true x = refl
if_same false x = refl

find_obj_n-later : (t : ObjectTable) (s s' : List ℕ) → view (find_obj_n s t).0 s' ≡ view t s'
unfolding find_obj_n
find_obj_n-later t s s' =
    slot_view t (find_obj_n s t).0 s (to_front Object.name s (t.obj_table (obj_hash t s))) (λ o. o)
      refl refl
      (λ r. find-to_front Object.name s r (t.obj_table (obj_hash t s)) ∙ if_same (text_eq s r) _) s'
    ∙ sym (if_same (text_eq s s') _)

-- The state and the chain that an operation finds after its search for the object's name.
searched :
    (t : ObjectTable) (s : List ℕ)
    → let t₁ = (find_obj_n s t).0 in
      (t₁.otable_size ≡ t.otable_size)
      × (obj_hash t₁ s ≡ obj_hash t s)
      × (t₁.objs_in_table ≡ t.objs_in_table)
unfolding find_obj_n obj_hash
searched t s = (refl, refl, refl)

find-cons :
    (ob : Object) (s : List ℕ) (obs : List Object)
    → find Object.name s (ob ∷ obs)
      ≡ (if text_eq ob.name s then some ob else find Object.name s obs)
unfolding find
find-cons ob s obs = refl

-- An object that is entered, when no object with its name is in the table, is found by its name; no
-- other name is affected.
pub enter_object_hash-view :
    (t : ObjectTable) (ob : Object)
    → view t ob.name ≡ none
    → let t' = enter_object_hash ob t in
      ((s : List ℕ) → view t' s ≡ (if text_eq ob.name s then some ob else view t s))
      × (t'.objs_in_table ≡ t.objs_in_table + 1)
unfolding enter_object_hash
enter_object_hash-view t ob absent =
    let t₁ = (find_obj_n ob.name t).0 in
    let (sized, slot, n) = searched t ob.name in
    let chain = ob ∷ t₁.obj_table (obj_hash t ob.name) in
    (
      λ s.
          slot_view t₁ (enter_object_hash ob t) ob.name chain (λ o. some ob) refl (rw slot)
            (λ r. rw slot (find-cons ob r (t₁.obj_table (obj_hash t ob.name)))) s
          ∙ ap (λ o. if text_eq ob.name s then some ob else o) (find_obj_n-later t ob.name s),
      rw n,
    )

-- What was found before, or the object that was put behind it.
abbrev pub or_behind : Object → Option Object → Option Object
or_behind ob (some o) = some o
or_behind ob none = some ob

find-append :
    (ob : Object) (s : List ℕ) (obs : List Object)
    → find Object.name s (obs ++ ob ∷ []) ≡ (
        if text_eq ob.name s then or_behind ob (find Object.name s obs) else find Object.name s obs)
unfolding find
find-append ob s [] = refl
find-append ob s (o ∷ obs) = elim (Bool-cases (text_eq o.name s)) [
  | inl hit ↦ rw hit (if_same (text_eq ob.name s) (some o))
  | inr miss ↦ rw miss (find-append ob s obs)
]

-- An object that is entered at the end is found by its name only if no other object has it.
pub enter_object_hash_at_end-view :
    (t : ObjectTable) (ob : Object)
    → let t' = enter_object_hash_at_end ob t in
      ((s : List ℕ) → view t' s ≡ (if text_eq ob.name s then or_behind ob (view t s) else view t s))
      × (t'.objs_in_table ≡ t.objs_in_table + 1)
unfolding enter_object_hash_at_end
enter_object_hash_at_end-view t ob =
    let t₁ = (find_obj_n ob.name t).0 in
    let (sized, slot, n) = searched t ob.name in
    let chain = t₁.obj_table (obj_hash t ob.name) ++ ob ∷ [] in
    (
      λ s.
          slot_view t₁ (enter_object_hash_at_end ob t) ob.name chain (or_behind ob) refl (rw slot)
            (λ r. rw slot (find-append ob r (t₁.obj_table (obj_hash t ob.name)))) s
          ∙ ap (λ o. if text_eq ob.name s then or_behind ob o else o)
              (find_obj_n-later t ob.name s),
      rw n,
    )

without-head : (ob : Object) (tail : List Object) → without Object.name ob.name (ob ∷ tail) ≡ tail
unfolding without
without-head ob tail = rw (text_eq_self ob.name)

-- The slot of an object that was just entered.
entered :
    (t : ObjectTable) (ob : Object)
    → let e = enter_object_hash ob t in
      let tail = to_front Object.name ob.name (t.obj_table (obj_hash t ob.name)) in
      (obj_hash e ob.name ≡ obj_hash t ob.name)
      × (e.obj_table (obj_hash e ob.name) ≡ ob ∷ tail)
      × (e.otable_size ≡ (find_obj_n ob.name t).0.otable_size)
      × (e.obj_table ≡ update t.obj_table (obj_hash t ob.name) (ob ∷ tail))
unfolding enter_object_hash find_obj_n obj_hash
entered t ob =
    let h = obj_hash t ob.name in
    let tail = to_front Object.name ob.name (t.obj_table h) in
    (refl, rw (==_self h), refl, rw (==_self h) (update-update t.obj_table h tail (ob ∷ tail)))

find_obj_n-table :
    (t : ObjectTable) (s : List ℕ)
    → (find_obj_n s t).0.obj_table
      ≡ update t.obj_table (obj_hash t s) (to_front Object.name s (t.obj_table (obj_hash t s)))
unfolding find_obj_n
find_obj_n-table t s = refl

-- The object at the head of its chain is removed, and what the table held is found again.
remove-head :
    (t : ObjectTable) (ob : Object) (tail : List Object)
    → t.obj_table (obj_hash t ob.name) ≡ ob ∷ tail
    → (t' : ObjectTable) × (remove_object_hash ob t ≡ some t')
      × (t'.otable_size ≡ t.otable_size)
      × (t'.obj_table ≡ update t.obj_table (obj_hash t ob.name) tail)
      × (t'.objs_in_table ≡ t.objs_in_table - 1)
unfolding remove_object_hash next_hash
remove-head t ob tail e =
    let h = obj_hash t ob.name in
    let t₁ = (find_obj_n ob.name t).0 in
    let (size, slot, n) = searched t ob.name in
    let found = find-hit Object.name ob ob.name tail (text_eq_self ob.name) in
    let fronted : to_front Object.name ob.name (ob ∷ tail) ≡ ob ∷ tail =
      to_front-found Object.name ob.name (ob ∷ tail) ob found
      ∙ ap (λ l. ob ∷ l) (without-head ob tail) in
    let table : t₁.obj_table ≡ update t.obj_table h (ob ∷ tail) =
      find_obj_n-table t ob.name ∙ rw (e, fronted) in
    let next : next_hash ob.address (ob ∷ tail) ≡ some tail = rw (==_self ob.address) in
    (
      record t₁ { obj_table = update t₁.obj_table h tail; objs_in_table = t₁.objs_in_table - 1 },
      rw (remove_object_hash, ap (λ f. f h) table, ==_self h, next),
      size,
      ap (λ f. update f h tail) table ∙ update-update t.obj_table h (ob ∷ tail) tail,
      ap (λ m. m - 1) n,
    )

-- When no object with its name was in the table, removing an object that was just entered finds it,
-- and every name is found as before.
pub remove_object_hash-enter :
    (t : ObjectTable) (ob : Object)
    → view t ob.name ≡ none
    → (t' : ObjectTable) × (remove_object_hash ob (enter_object_hash ob t) ≡ some t')
      × ((s : List ℕ) → view t' s ≡ view t s)
      × (t'.objs_in_table ≡ t.objs_in_table)
remove_object_hash-enter t ob absent =
    let e = enter_object_hash ob t in
    let (views, n) = enter_object_hash-view t ob absent in
    let tail = to_front Object.name ob.name (t.obj_table (obj_hash t ob.name)) in
    let (slot, table, size, whole) = entered t ob in
    let (t', run, size', table', n') = remove-head e ob tail table in
    let h = obj_hash t ob.name in
    let restored : t'.obj_table ≡ update t.obj_table h tail =
      table' ∙ rw (slot, whole) (update-update t.obj_table h (ob ∷ tail) tail) in
    (
      t',
      run,
      λ s.
          slot_view t t' ob.name tail (λ o. o) (size' ∙ size ∙ (searched t ob.name).0) restored
            (λ r.
              find-to_front Object.name ob.name r (t.obj_table h) ∙ if_same (text_eq ob.name r) _)
            s
          ∙ sym (if_same (text_eq ob.name s) _),
      omega arith,
    )
