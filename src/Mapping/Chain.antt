-- ===== src/Mapping/Chain.antt =====
-- A bucket of a mapping of src/mapping.c.
use mudos_v22pre.Prelude.{
  true, Option, none, some, List, [], ◌∷◌, if◌then◌else◌, ◌≡◌, refl, ap, ◌∙◌, arith, Bool-cases,
  Option-cases, inl, inr,
}
use mudos_v22pre.Mapping.Key.{Keys, same_right}

abbrev pub Chain {ℓ} : Type ℓ → Type ℓ → Type ℓ
Chain K V = List (K × V)

abbrev pub first_of {ℓ} : {V : Type ℓ} → Option V → Option V → Option V
first_of (some v) o = some v
first_of none o = o

module _ {ℓ} {K V : Type ℓ} ⦃keys : Keys K⦄ where
  -- The value of the first node with the key.
  unfoldable pub find_node : K → Chain K V → Option V
  find_node q [] = none
  find_node q (e ∷ c) = if keys.same e.0 q then some e.1 else find_node q c

  -- The value of that node is written.
  unfoldable pub assign : K → V → Chain K V → Chain K V
  assign q v [] = []
  assign q v (e ∷ c) = if keys.same e.0 q then (e.0, v) ∷ c else e ∷ assign q v c

  -- That node is unlinked.
  unfoldable pub unlink_node : K → Chain K V → Chain K V
  unlink_node q [] = []
  unlink_node q (e ∷ c) = if keys.same e.0 q then c else e ∷ unlink_node q c

  -- No key stands in two nodes.
  unfoldable pub Distinct : Chain K V → Type ℓ
  unfolding find_node
  Distinct [] = Unit
  Distinct (e ∷ c) = (find_node e.0 c ≡ none) × Distinct c

  pub find_node-assign :
      (k q : K) (v : V) (c : Chain K V) (old : V)
      → find_node k c ≡ some old
      → find_node q (assign k v c) ≡ (if keys.same k q then some v else find_node q c)
  unfolding find_node assign
  find_node-assign k q v [] old h = cc
  find_node-assign k q v (e ∷ c) old h =
      ground (arith, find_node-assign k q v c old, keys.same_congr e.0 k q, same_right k q e.0)

  find_node-assign_missing :
      (k : K) (v : V) (c : Chain K V) → find_node k c ≡ none → assign k v c ≡ c
  unfolding find_node assign
  find_node-assign_missing k v [] h = refl
  find_node-assign_missing k v (e ∷ c) h = ground (arith, find_node-assign_missing k v c)

  -- A key that is the same is found where the other is.
  pub find_node-same :
      (k q : K) (c : Chain K V) → keys.same k q ≡ true → find_node k c ≡ find_node q c
  unfolding find_node
  find_node-same k q [] h = refl
  find_node-same k q (e ∷ c) h = ground (arith, find_node-same k q c h, same_right k q e.0 h)

  pub find_node-unlink :
      (k q : K) (c : Chain K V)
      → Distinct c
      → find_node q (unlink_node k c) ≡ (if keys.same k q then none else find_node q c)
  unfolding find_node unlink_node Distinct
  find_node-unlink k q [] d = ground arith
  find_node-unlink k q (e ∷ c) (n, d) = ground (
    arith,
    find_node-unlink k q c d,
    keys.same_congr e.0 k q,
    same_right k q e.0,
    find_node-same e.0 q c,
    n,
  )

  pub Distinct-unlink : (k : K) (c : Chain K V) → Distinct c → Distinct (unlink_node k c)
  unfolding unlink_node Distinct
  Distinct-unlink k [] d = tt
  Distinct-unlink k (e ∷ c) (n, d) = elim (Bool-cases (keys.same e.0 k)) [
    | inl here ↦ rw here d
    | inr later ↦ rw later (
      find_node-unlink k e.0 c d ∙ (ground (arith, n, later, keys.same_sym e.0 k)),
      Distinct-unlink k c d,
    )
  ]

  pub Distinct-assign : (k : K) (v : V) (c : Chain K V) → Distinct c → Distinct (assign k v c)
  unfolding assign Distinct
  Distinct-assign k v [] d = tt
  Distinct-assign k v (e ∷ c) (n, d) = elim (Bool-cases (keys.same e.0 k)) [
    | inl here ↦ rw here (n, d)
    | inr later ↦ elim (Option-cases (find_node k c)) [
      | inl missing ↦
          rw later (
            ap (find_node e.0) (find_node-assign_missing k v c missing) ∙ n,
            Distinct-assign k v c d,
          )
      | inr (old, found) ↦ rw later (
        find_node-assign k e.0 v c old found ∙ (ground (arith, n, later, keys.same_sym e.0 k)),
        Distinct-assign k v c d,
      )
    ]
  ]
