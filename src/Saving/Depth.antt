-- ===== src/Saving/Depth.antt =====
-- The values that src/object.c refuses to save: those that are nested too deep.
use Prim.Native.Nat.{max}
use mudos_v22pre.Prelude.{
  ℕ, suc, ◌+◌, ◌%◌, ◌≤◌, Bool, true, false, ◌&&◌, Option, none, some, List, [], if◌then◌else◌, ◌≡◌,
  refl, ap, ap₂, ◌∙◌, arith, ltb, leb, Bool-cases, inl, inr,
}
use mathlib.Core.Option
use mudos_v22pre.Saving.Value.{
  Value, number, real, string, array, class, mapping, other, Values, nil, cons, Pairs, end, pair,
  Floats,
}
use mudos_v22pre.Saving.Size.{one_deeper, add_sizes, svalue_save_size, size_of_items, size_of_pairs}
use mudos_v22pre.Saving.Save.{save_svalue, save_variable}

-- How many containers lie in one another.
mutual
  pub height : Value → ℕ
  height (array vs) = suc (height_of_items vs)
  height (class vs) = suc (height_of_items vs)
  height (mapping ps) = suc (height_of_pairs ps)
  height _ = 0

  pub height_of_items : Values → ℕ
  height_of_items nil = 0
  height_of_items (cons v vs) = max (height v) (height_of_items vs)

  pub height_of_pairs : Pairs → ℕ
  height_of_pairs end = 0
  height_of_pairs (pair k v ps) = max (max (height k) (height v)) (height_of_pairs ps)

abbrev pub is_some {ℓ} : {A : Type ℓ} → Option A → Bool
is_some none = false
is_some (some a) = true

is_some-map :
    (t : Bool) (o : Option ℕ)
    → is_some {A = ℕ} (if t then none else Option.map (λ size. size + 5) o)
      ≡ (if t then false else is_some o)
is_some-map true o = refl
is_some-map false none = refl
is_some-map false (some m) = refl

is_some-add_sizes : (a b : Option ℕ) → is_some (add_sizes a b) ≡ (is_some a && is_some b)
is_some-add_sizes none b = refl
is_some-add_sizes (some a) none = refl
is_some-add_sizes (some a) (some b) = refl

leb-max : (d a b n : ℕ) → (leb (d + a) n && leb (d + b) n) ≡ leb (d + max a b) n
leb-max d a b n = ground arith

container-height :
    (d h : ℕ) (members : ℕ → Option ℕ)
    → (suc d ≤ 25 → is_some (members (suc d)) ≡ leb (suc d + h) 25)
    → is_some (one_deeper d members) ≡ leb (d + suc h) 25
container-height d h members ih = elim (Bool-cases (ltb 25 (suc d))) [
  | inl deep ↦ is_some-map (ltb 25 (suc d)) (members (suc d)) ∙ ground arith
  | inr fits ↦
      let inner = ih (ground arith) in
      is_some-map (ltb 25 (suc d)) (members (suc d)) ∙ ground (arith, inner)
]

shallow : (d : ℕ) → d ≤ 25 → true ≡ leb (d + 0) 25
shallow d h = ground arith

module _ (fl : Floats) where
  mutual
    unfolding svalue_save_size height

    value-height :
        (v : Value) (d : ℕ) → d ≤ 25 → is_some (svalue_save_size fl v d) ≡ leb (d + height v) 25
    value-height (number k) d h = shallow d h
    value-height (real r) d h = shallow d h
    value-height (string s) d h = shallow d h
    value-height (array vs) d h =
        container-height d (height_of_items vs) (size_of_items fl vs) (items-height vs (suc d))
    value-height (class vs) d h =
        container-height d (height_of_items vs) (size_of_items fl vs) (items-height vs (suc d))
    value-height (mapping ps) d h =
        container-height d (height_of_pairs ps) (size_of_pairs fl ps) (pairs-height ps (suc d))
    value-height other d h = shallow d h

    items-height :
        (vs : Values) (d : ℕ)
        → d ≤ 25
        → is_some (size_of_items fl vs d) ≡ leb (d + height_of_items vs) 25
    items-height nil d h = shallow d h
    items-height (cons v vs) d h =
        is_some-add_sizes (svalue_save_size fl v d) (size_of_items fl vs d)
        ∙ (ap₂ ◌&&◌ (value-height v d h) (items-height vs d h)
            ∙ leb-max d (height v) (height_of_items vs) 25)

    pairs-height :
        (ps : Pairs) (d : ℕ)
        → d ≤ 25
        → is_some (size_of_pairs fl ps d) ≡ leb (d + height_of_pairs ps) 25
    pairs-height end d h = shallow d h
    pairs-height (pair k v ps) d h =
        is_some-add_sizes (add_sizes (svalue_save_size fl k d) (svalue_save_size fl v d))
          (size_of_pairs fl ps d)
        ∙ (ap₂ ◌&&◌
              (is_some-add_sizes (svalue_save_size fl k d) (svalue_save_size fl v d)
                ∙ (ap₂ ◌&&◌ (value-height k d h) (value-height v d h)
                    ∙ leb-max d (height k) (height v) 25))
              (pairs-height ps d h)
            ∙ leb-max d (max (height k) (height v)) (height_of_pairs ps) 25)

  is_some-saved :
      (v : Value) (o : Option ℕ) (text : List ℕ)
      → is_some {A = ℕ × List ℕ} (Option.map (λ (size : ℕ). (size % 4294967296, text)) o)
        ≡ is_some o
  is_some-saved v none text = refl
  is_some-saved v (some n) text = refl

  -- A value is saved exactly if at most 25 containers lie in one another in it; for any other, an LPC
  -- error is raised.
  pub save_variable-height : (v : Value) → is_some (save_variable fl v) ≡ leb (height v) 25
  unfolding save_variable
  save_variable-height v =
      let e : 0 + height v ≡ height v = omega arith in
      is_some-saved v (svalue_save_size fl v 0) (save_svalue fl v [])
      ∙ (value-height v 0 (omega arith) ∙ ap (λ (n : ℕ). leb n 25) e)
