-- ===== src/Mapping/Filter.antt =====
-- `filter_mapping` of src/mapping.c.
use mudos_v22pre.Prelude.{
  ℕ, zero, suc, Bool, true, false, Option, none, some, [], ◌∷◌, ◌++◌, ◌≡◌, ◌⊎◌, inl, inr, refl, sym,
  ap, ◌∙◌, subst, arith, Bool-cases, Option-cases, if◌then◌else◌,
}
use mudos_v22pre.Mapping.Key.{Keys}
use mudos_v22pre.Mapping.Chain.{Chain, find_node, find_node-same, first_of, Distinct}
use mudos_v22pre.Mapping.State.{Mapping, Failure, find_in_mapping, room_for_node, link_node}
use mudos_v22pre.Mapping.Valid.{IsValid}
use mudos_v22pre.Mapping.Insert.{link_node-find, link_node-IsValid}
use mudos_v22pre.Mapping.Update.{room_for_node-Same}
use mudos_v22pre.Mapping.Whole.{nodes_from, nodes, allocate_mapping}
use mudos_v22pre.Mapping.Nodes.{
  allocate_mapping-IsValid, allocate_mapping-find, nodes-find, Distinct-nodes, first_of-none,
}
use mudos_v22pre.Mapping.Merge.{union-cons, new-Puts}

module _ {ℓ} {K V : Type ℓ} where
  -- The nodes of a bucket that pass; a callback that has no result ends the bucket.
  unfoldable pub filter_chain : (K → V → Option Bool) → Chain K V → Chain K V
  filter_chain callback [] = []
  filter_chain callback (elt ∷ c) =
      let rest = filter_chain callback c in
      elim (callback elt.0 elt.1) as (λ _. Chain K V) [
        | none ↦ []
        | some passes ↦ if passes then elt ∷ rest else rest
      ]

  -- The buckets from `j` down.
  pub filter_from : (K → V → Option Bool) → ℕ → Mapping K V → Chain K V
  unfolding filter_chain
  filter_from callback zero m = filter_chain callback (m.table 0)
  filter_from callback (suc j) m =
      filter_chain callback (m.table (suc j)) ++ filter_from callback j m

module _ {ℓ} {K V : Type ℓ} ⦃keys : Keys K⦄ where
  -- Nodes are linked without a look for their keys.
  unfoldable pub push_nodes : ℕ → Mapping K V → Chain K V → Mapping K V × Option Failure
  unfolding room_for_node link_node
  push_nodes max_mapping_size m [] = (m, none)
  push_nodes max_mapping_size m (elt ∷ rest) =
      let p = room_for_node max_mapping_size elt.0 m in
      elim p.1 as (λ _. Mapping K V × Option Failure) [
        | some failure ↦ (p.0, some failure)
        | none ↦ push_nodes max_mapping_size (link_node elt.0 elt.1 p.0) rest
      ]

  unfoldable pub filter_mapping :
      ℕ → (K → V → Option Bool) → Mapping K V → Mapping K V × Option Failure
  unfolding filter_from push_nodes allocate_mapping
  filter_mapping max_mapping_size callback m =
      push_nodes max_mapping_size (allocate_mapping max_mapping_size 0)
        (filter_from callback m.table_size m)

  -- No key of the nodes is in the mapping.
  abbrev pub Apart : Chain K V → Mapping K V → Type ℓ
  Apart es m = (q : K) → (find_node q es ≡ none) ⊎ (find_in_mapping m q ≡ none)

  record Pushed (es : Chain K V) (m : Mapping K V) (r : Mapping K V × Option Failure) : Type ℓ where
    valid : IsValid r.0
    look :
        r.1 ≡ none
        → (q : K) → find_in_mapping r.0 q ≡ first_of (find_in_mapping m q) (find_node q es)

  pub Apart-link :
      (e : K × V) (es : Chain K V) (m n : Mapping K V)
      → Distinct (e ∷ es)
      → Apart (e ∷ es) m
      → ((q : K) → find_in_mapping n q ≡ find_in_mapping m q)
      → Apart es (link_node e.0 e.1 n)
  unfolding find_node Distinct
  Apart-link e es m n (d, ds) a s q = elim (Bool-cases (keys.same e.0 q)) [
    | inl here ↦ inl (sym (find_node-same e.0 q es here) ∙ d)
    | inr there ↦ elim (a q) [
      | inl out ↦ inl (ground (arith, out, there))
      | inr out ↦ inr (link_node-find n e.0 q e.1 ∙ (rw there (s q ∙ out)))
    ]
  ]

  push_nodes-Pushed :
      (max_mapping_size : ℕ) (m : Mapping K V) (es : Chain K V)
      → IsValid m
      → Distinct es
      → Apart es m
      → Pushed es m (push_nodes max_mapping_size m es)
  unfolding push_nodes find_node Distinct
  push_nodes-Pushed max_mapping_size m [] v d a = record {
    valid = v;
    look = λ ok q. sym (first_of-none (find_in_mapping m q));
  }
  push_nodes-Pushed max_mapping_size m (e ∷ es) v d a =
      let room = room_for_node max_mapping_size e.0 m in
      let s = room_for_node-Same max_mapping_size e.0 m v in
      let new : find_in_mapping m e.0 ≡ none = elim (a e.0) [
        | inl h ↦ absurd (ground (arith, h, keys.same_self e.0))
        | inr h ↦ h
      ] in
      let n = link_node e.0 e.1 room.0 in
      elim (Option-cases room.1) [
        | inr (f, bad) ↦ rw (push_nodes, bad) (record { valid = s.valid; look = λ ok q. absurd cc })
        | inl r ↦
            let p =
              push_nodes-Pushed max_mapping_size n es
                (link_node-IsValid room.0 e.0 e.1 s.valid (s.look e.0 ∙ new)) d.1
                (Apart-link e es m room.0 d a s.look) in
            rw (push_nodes, r)
              (record {
                valid = p.valid;
                look = λ ok q.
                    p.look ok q
                    ∙ union-cons false e es m n (new-Puts false m room.0 e s.look new) q;
              })
      ]

  module _ (callback : K → V → Bool)
      (respects : (a b : K) (x : V) → keys.same a b ≡ true → callback a x ≡ callback b x) where
    abbrev pub passing : Chain K V → Chain K V
    passing = filter_chain (λ k v. some (callback k v))

    abbrev pub pass : K → Option V → Option V
    pass q none = none
    pass q (some v) = if callback q v then some v else none

    passing-find :
        (q : K) (c : Chain K V) → Distinct c → find_node q (passing c) ≡ pass q (find_node q c)
    unfolding filter_chain find_node Distinct
    passing-find q [] d = refl
    passing-find q (e ∷ c) (n, d) =
        let i = passing-find q c d in
        elim (Bool-cases (callback e.0 e.1)) [
          | inl kept ↦ elim (Bool-cases (keys.same e.0 q)) [
            | inl here ↦ rw (kept, here, sym (respects e.0 q e.1 here), kept) refl
            | inr there ↦ rw (kept, there) i
          ]
          | inr left ↦ elim (Bool-cases (keys.same e.0 q)) [
            | inl here ↦
                let gone : find_node q (passing c) ≡ none =
                  i ∙ ap (pass q) (sym (find_node-same e.0 q c here) ∙ n) in
                rw (left, here, sym (respects e.0 q e.1 here), left) gone
            | inr there ↦ rw (left, there) i
          ]
        ]

    passing-append : (a b : Chain K V) → passing (a ++ b) ≡ passing a ++ passing b
    unfolding filter_chain
    passing-append [] b = refl
    passing-append (e ∷ a) b = elim (Bool-cases (callback e.0 e.1)) [
      | inl kept ↦ rw kept (ap (λ l. e ∷ l) (passing-append a b))
      | inr left ↦ rw left (passing-append a b)
    ]

    pub passing-Distinct : (c : Chain K V) → Distinct c → Distinct (passing c)
    unfolding filter_chain Distinct
    passing-Distinct [] d = tt
    passing-Distinct (e ∷ c) (n, d) = elim (Bool-cases (callback e.0 e.1)) [
      | inl kept ↦ rw kept (passing-find e.0 c d ∙ ap (pass e.0) n, passing-Distinct c d)
      | inr left ↦ rw left (passing-Distinct c d)
    ]

    pub passing-from :
        (j : ℕ) (m : Mapping K V)
        → filter_from (λ k v. some (callback k v)) j m ≡ passing (nodes_from j m)
    unfolding filter_from nodes_from
    passing-from zero m = refl
    passing-from (suc j) m =
        ap (λ l. passing (m.table (suc j)) ++ l) (passing-from j m)
        ∙ sym (passing-append (m.table (suc j)) (nodes_from j m))

    -- `filter_mapping`, made without an error by a callback that always has a result, which is the same for keys that are the same, has the keys whose value passes, with these values, and no others; it is a mapping of its own in which each key stands once, in its bucket.
    pub filter_mapping-find :
        (max_mapping_size : ℕ) (m : Mapping K V)
        → IsValid m
        → (filter_mapping max_mapping_size (λ k v. some (callback k v)) m).1 ≡ none
        → ((q : K)
            → find_in_mapping (filter_mapping max_mapping_size (λ k v. some (callback k v)) m).0 q
              ≡ pass q (find_in_mapping m q))
          × IsValid (filter_mapping max_mapping_size (λ k v. some (callback k v)) m).0
    unfolding filter_mapping
    filter_mapping-find max_mapping_size m v ok =
        let fresh = allocate_mapping max_mapping_size 0 in
        let es = filter_from (λ k x. some (callback k x)) m.table_size m in
        let same_nodes : es ≡ passing (nodes m) = passing-from m.table_size m in
        let d = Distinct-nodes m v in
        let p =
          push_nodes-Pushed max_mapping_size fresh es (allocate_mapping-IsValid max_mapping_size 0)
            (subst (λ (c : Chain K V). Distinct c) (sym same_nodes) (passing-Distinct (nodes m) d))
            (λ q. inr (allocate_mapping-find max_mapping_size 0 q)) in
        (
          λ q.
              p.look ok q
              ∙ (ap (λ o. first_of o (find_node q es)) (allocate_mapping-find max_mapping_size 0 q)
                  ∙ (ap (find_node q) same_nodes
                      ∙ (passing-find q (nodes m) d ∙ ap (pass q) (nodes-find m v q)))),
          p.valid,
        )
