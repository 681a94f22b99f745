-- ===== src/Mapping/Merge.antt =====
-- `add_to_mapping`, `unique_add_to_mapping` and `add_mapping` of src/mapping.c, as unions.
use mudos_v22pre.Prelude.{
  ℕ, Bool, true, false, Option, none, some, [], ◌∷◌, ◌++◌, ◌≡◌, inl, inr, refl, sym, ap, ◌∙◌, arith,
  Option-cases, if◌then◌else◌, subst,
}
use mathlib.Core.List.{append_assoc}
use mudos_v22pre.Mapping.Key.{Keys}
use mudos_v22pre.Mapping.Chain.{Chain, find_node, first_of}
use mudos_v22pre.Mapping.Orders.{turn_onto, find_node-append}
use mudos_v22pre.Mapping.State.{
  Mapping, Failure, bucket_of, find_in_mapping, room_for_node, link_node, store_value,
}
use mudos_v22pre.Mapping.Valid.{IsValid}
use mudos_v22pre.Mapping.Insert.{
  link_node-find, link_node-IsValid, store_value-find, store_value-IsValid,
}
use mudos_v22pre.Mapping.Update.{room_for_node-Same}
use mudos_v22pre.Mapping.Laws.{find_same-bucket}
use mudos_v22pre.Mapping.Whole.{add_nodes}
use mudos_v22pre.Mapping.OneByOne.{add_one_by_one, add_nodes-one_by_one}
use mudos_v22pre.Mapping.Nodes.{first_of-none}

first_of_assoc {ℓ} :
    {V : Type ℓ} (a b c : Option V) → first_of (first_of a b) c ≡ first_of a (first_of b c)
first_of_assoc none b c = refl
first_of_assoc (some v) b c = refl

module _ {ℓ} {K V : Type ℓ} ⦃keys : Keys K⦄ where
  turn_onto-append : (a acc : Chain K V) → turn_onto a acc ≡ turn_onto a [] ++ acc
  unfolding turn_onto
  turn_onto-append [] acc = refl
  turn_onto-append (e ∷ a) acc =
      turn_onto-append a (e ∷ acc)
      ∙ (sym (append_assoc (turn_onto a []) (e ∷ []) acc)
          ∙ ap (λ l. l ++ acc) (sym (turn_onto-append a (e ∷ []))))

  -- The look-ups of a mapping to which nodes are added: the last of them counts, or the first.
  abbrev pub union : Bool → Chain K V → Mapping K V → K → Option V
  union true es m q = first_of (find_node q (turn_onto es [])) (find_in_mapping m q)
  union false es m q = first_of (find_in_mapping m q) (find_node q es)

  -- How one node changes the look-ups.
  abbrev pub Puts : Bool → K × V → Mapping K V → Mapping K V → Type ℓ
  Puts overwrite e m n = (q : K) → find_in_mapping n q ≡ union overwrite (e ∷ []) m q

  pub union-cons :
      (overwrite : Bool) (e : K × V) (es : Chain K V) (m n : Mapping K V)
      → Puts overwrite e m n
      → (q : K) → union overwrite es n q ≡ union overwrite (e ∷ es) m q
  unfolding find_node turn_onto
  union-cons true e es m n p q =
      ap (first_of (find_node q (turn_onto es []))) (p q)
      ∙ (sym (first_of_assoc (find_node q (turn_onto es [])) _ _)
          ∙ ap (λ o. first_of o (find_in_mapping m q))
              (sym (
                ap (find_node q) (turn_onto-append es (e ∷ []))
                ∙ find_node-append q (turn_onto es []) (e ∷ []))))
  union-cons false e es m n p q =
      ap (λ o. first_of o (find_node q es)) (p q)
      ∙ (first_of_assoc (find_in_mapping m q) _ _
          ∙ ap (first_of (find_in_mapping m q)) (sym (find_node-append q (e ∷ []) es)))

  known-Puts :
      (overwrite : Bool) (m : Mapping K V) (e : K × V) (old : V)
      → find_in_mapping m e.0 ≡ some old
      → Puts overwrite e m (if overwrite then store_value m e.0 e.1 else m)
  unfolding find_node turn_onto
  known-Puts true m e old h q = store_value-find m e.0 q e.1 old h ∙ (grind arith)
  known-Puts false m e old h q =
      grind (arith, first_of-none (find_in_mapping m q), find_same-bucket m e.0 q, h)

  pub new-Puts :
      (overwrite : Bool) (m n : Mapping K V) (e : K × V)
      → ((q : K) → find_in_mapping n q ≡ find_in_mapping m q)
      → find_in_mapping m e.0 ≡ none
      → Puts overwrite e m (link_node e.0 e.1 n)
  unfolding find_node turn_onto
  new-Puts true m n e s h q = link_node-find n e.0 q e.1 ∙ (grind (arith, s q))
  new-Puts false m n e s h q =
      link_node-find n e.0 q e.1
      ∙ (grind (arith, s q, first_of-none (find_in_mapping m q), find_same-bucket m e.0 q, h))

  -- What is to show of a mapping to which nodes are added.
  pub record Adds (overwrite : Bool) (es : Chain K V) (m : Mapping K V)
      (r : Mapping K V × Option Failure) : Type ℓ where
    pub valid : IsValid r.0
    pub look : r.1 ≡ none → (q : K) → find_in_mapping r.0 q ≡ union overwrite es m q

  Adds-cons :
      (overwrite : Bool) (e : K × V) (es : Chain K V) (m n : Mapping K V)
      (r : Mapping K V × Option Failure)
      → Puts overwrite e m n
      → Adds overwrite es n r
      → Adds overwrite (e ∷ es) m r
  Adds-cons overwrite e es m n r p a = record {
    valid = a.valid;
    look = λ ok q. a.look ok q ∙ union-cons overwrite e es m n p q;
  }

  pub put-IsValid :
      (overwrite : Bool) (m : Mapping K V) (e : K × V) (old : V)
      → IsValid m
      → find_in_mapping m e.0 ≡ some old
      → IsValid (if overwrite then store_value m e.0 e.1 else m)
  put-IsValid true m e old v h = store_value-IsValid m e.0 e.1 old v h
  put-IsValid false m e old v h = v

  add_one_by_one-Adds :
      (overwrite : Bool) (max_mapping_size : ℕ) (m : Mapping K V) (es : Chain K V)
      → IsValid m
      → Adds overwrite es m (add_one_by_one overwrite max_mapping_size m es)
  unfolding add_one_by_one find_in_mapping find_node turn_onto
  add_one_by_one-Adds true max_mapping_size m [] v = record { valid = v; look = λ ok q. refl }
  add_one_by_one-Adds false max_mapping_size m [] v = record {
    valid = v;
    look = λ ok q. sym (first_of-none (find_in_mapping m q));
  }
  add_one_by_one-Adds overwrite max_mapping_size m (e ∷ es) v =
      elim (Option-cases (find_node e.0 (m.table (bucket_of e.0 m)))) [
        | inr (old, h) ↦
            let n = if overwrite then store_value m e.0 e.1 else m in
            rw (add_one_by_one, h)
              (Adds-cons overwrite e es m n _ (known-Puts overwrite m e old h) (
                add_one_by_one-Adds overwrite max_mapping_size n es
                  (put-IsValid overwrite m e old v h)))
        | inl h ↦
            let room = room_for_node max_mapping_size e.0 m in
            let s = room_for_node-Same max_mapping_size e.0 m v in
            let n = link_node e.0 e.1 room.0 in
            elim (Option-cases room.1) [
              | inl r ↦
                  rw (add_one_by_one, h, r)
                    (Adds-cons overwrite e es m n _ (new-Puts overwrite m room.0 e s.look h) (
                      add_one_by_one-Adds overwrite max_mapping_size n es
                        (link_node-IsValid room.0 e.0 e.1 s.valid (s.look e.0 ∙ h))))
              | inr (f, r) ↦
                  rw (add_one_by_one, h, r) (record { valid = s.valid; look = λ ok q. absurd cc })
            ]
      ]

  pub add_nodes-Adds :
      (overwrite : Bool) (max_mapping_size : ℕ) (m : Mapping K V) (es : Chain K V)
      → IsValid m
      → Adds overwrite es m (add_nodes overwrite max_mapping_size m es)
  add_nodes-Adds overwrite max_mapping_size m es v =
      subst (Adds overwrite es m) (sym (add_nodes-one_by_one overwrite max_mapping_size m es))
        (add_one_by_one-Adds overwrite max_mapping_size m es v)
