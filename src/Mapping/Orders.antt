-- ===== src/Mapping/Orders.antt =====
-- Buckets of src/mapping.c whose nodes are chosen or put in another order.
use mudos_v22pre.Prelude.{
  Bool, true, false, none, [], ◌∷◌, ◌++◌, if◌then◌else◌, ◌≡◌, refl, sym, ap, ◌∙◌, arith, Bool-cases,
  inl, inr, subst,
}
use mathlib.Core.List.{append-nil}
use mudos_v22pre.Mapping.Key.{Keys, same_right, Respects}
use mudos_v22pre.Mapping.Chain.{Chain, first_of, find_node, Distinct}

module _ {ℓ} {K V : Type ℓ} ⦃keys : Keys K⦄ where
  -- The nodes whose key passes a test, in their order.
  unfoldable pub keep : (K → Bool) → Chain K V → Chain K V
  keep p [] = []
  keep p (e ∷ c) = if p e.0 then e ∷ keep p c else keep p c

  -- The nodes from the last to the first, in front of others.
  unfoldable pub turn_onto : Chain K V → Chain K V → Chain K V
  turn_onto [] acc = acc
  turn_onto (e ∷ c) acc = turn_onto c (e ∷ acc)

  module _ (p : K → Bool) (respects : Respects p) (q : K) where
    pub find_node-keep : (c : Chain K V) → p q ≡ true → find_node q (keep p c) ≡ find_node q c
    unfolding find_node keep
    find_node-keep [] h = refl
    find_node-keep (e ∷ c) h = ground (arith, find_node-keep c h, respects e.0 q)

    pub find_node-keep_out : (c : Chain K V) → p q ≡ false → find_node q (keep p c) ≡ none
    unfolding find_node keep
    find_node-keep_out [] h = refl
    find_node-keep_out (e ∷ c) h = ground (arith, find_node-keep_out c h, respects e.0 q)

  pub find_node-keep-none :
      (p : K → Bool) (q : K) (c : Chain K V) → find_node q c ≡ none → find_node q (keep p c) ≡ none
  unfolding find_node keep
  find_node-keep-none p q [] h = refl
  find_node-keep-none p q (e ∷ c) h = ground (arith, find_node-keep-none p q c)

  pub Distinct-keep : (p : K → Bool) (c : Chain K V) → Distinct c → Distinct (keep p c)
  unfolding Distinct keep
  Distinct-keep p [] d = tt
  Distinct-keep p (e ∷ c) (n, d) = elim (Bool-cases (p e.0)) [
    | inl kept ↦ rw kept (find_node-keep-none p e.0 c n, Distinct-keep p c d)
    | inr dropped ↦ rw dropped (Distinct-keep p c d)
  ]

  pub find_node-append :
      (q : K) (a b : Chain K V) → find_node q (a ++ b) ≡ first_of (find_node q a) (find_node q b)
  unfolding find_node
  find_node-append q [] b = refl
  find_node-append q (e ∷ a) b = ground (arith, find_node-append q a b)

  find_node-moved :
      (e : K × V) (q : K) (c acc : Chain K V)
      → find_node e.0 (c ++ acc) ≡ none
      → find_node q (c ++ e ∷ acc) ≡ find_node q (e ∷ (c ++ acc))
  unfolding find_node
  find_node-moved e q [] acc h = refl
  find_node-moved e q (x ∷ c) acc h =
      ground (arith, find_node-moved e q c acc, keys.same_sym x.0 e.0, same_right e.0 q x.0)

  Distinct-moved :
      (e : K × V) (c acc : Chain K V) → Distinct (e ∷ (c ++ acc)) → Distinct (c ++ e ∷ acc)
  unfolding find_node Distinct
  Distinct-moved e [] acc d = d
  Distinct-moved e (x ∷ c) acc (n, (nx, d)) =
      let later : find_node e.0 (c ++ acc) ≡ none = ground (arith, n) in
      let apart : keys.same e.0 x.0 ≡ false = ground (arith, n, keys.same_sym e.0 x.0) in
      (find_node-moved e x.0 c acc later ∙ (rw apart nx), Distinct-moved e c acc (later, d))

  find_node-turn_onto :
      (q : K) (c acc : Chain K V)
      → Distinct (c ++ acc)
      → find_node q (turn_onto c acc) ≡ find_node q (c ++ acc)
  unfolding turn_onto Distinct
  find_node-turn_onto q [] acc d = refl
  find_node-turn_onto q (e ∷ c) acc d =
      find_node-turn_onto q c (e ∷ acc) (Distinct-moved e c acc d) ∙ find_node-moved e q c acc d.0

  Distinct-turn_onto : (c acc : Chain K V) → Distinct (c ++ acc) → Distinct (turn_onto c acc)
  unfolding turn_onto
  Distinct-turn_onto [] acc d = d
  Distinct-turn_onto (e ∷ c) acc d = Distinct-turn_onto c (e ∷ acc) (Distinct-moved e c acc d)

  -- All the nodes of a bucket, turned round.
  pub find_node-turned :
      (q : K) (c : Chain K V) → Distinct c → find_node q (turn_onto c []) ≡ find_node q c
  find_node-turned q c d =
      find_node-turn_onto q c [] (subst (λ (l : Chain K V). Distinct l) (sym (append-nil c)) d)
      ∙ ap (find_node q) (append-nil c)

  pub Distinct-turned : (c : Chain K V) → Distinct c → Distinct (turn_onto c [])
  Distinct-turned c d =
      Distinct-turn_onto c [] (subst (λ (l : Chain K V). Distinct l) (sym (append-nil c)) d)
