-- ===== src/Saving/Plain.antt =====
-- Values whose text src/object.c reads back as they were, and what a scan notes of their containers.
use mudos_v22pre.Prelude.{
  ℕ, suc, ◌+◌, ◌<◌, ◌≤◌, false, ◌==◌, ◌≡◌, refl, sym, ◌∙◌, ◌⊎◌, inl, inr, arith, All, update,
  update_self,
}
use mudos_v22pre.Saving.Value.{number, string, array, class, Values, nil, cons}
use mudos_v22pre.Saving.Texts.{InRange, Survives}

abbrev pub count : Values → ℕ
count nil = 0
count (cons v vs) = suc (count vs)

-- No real, mapping or value that is not saved; no least `int`; no carriage return; and no array larger
-- than the driver allows.
abbrev pub Plain : ℕ → Values → Type 0
Plain max nil = Unit
Plain max (cons (number n) vs) = InRange n × Plain max vs
Plain max (cons (string s) vs) = All Survives s × Plain max vs
Plain max (cons (array xs) vs) = (count xs ≤ max) × Plain max xs × Plain max vs
Plain max (cons (class xs) vs) = Plain max xs × Plain max vs
Plain max (cons _ vs) = ⊥

-- The fuel that suffices.
unfoldable pub weight : Values → ℕ
weight nil = 1
weight (cons (array xs) vs) = suc (weight xs + weight vs)
weight (cons (class xs) vs) = suc (weight xs + weight vs)
weight (cons _ vs) = suc (weight vs)

-- The number of containers in the members, at every depth.
unfoldable pub nests : Values → ℕ
nests nil = 0
nests (cons (array xs) vs) = suc (nests xs) + nests vs
nests (cons (class xs) vs) = suc (nests xs) + nests vs
nests (cons _ vs) = nests vs

-- `sizes`, once the members are scanned, the first container being the `d`-th.
unfoldable pub marked : Values → ℕ → (ℕ → ℕ) → (ℕ → ℕ)
marked nil d s = s
marked (cons (array xs) vs) d s =
    marked vs (suc d + nests xs) (update (marked xs (suc d) s) d (count xs))
marked (cons (class xs) vs) d s =
    marked vs (suc d + nests xs) (update (marked xs (suc d) s) d (count xs))
marked (cons _ vs) d s = marked vs d s

-- `sizes` tells the size of each container.
abbrev pub Agrees : Values → ℕ → (ℕ → ℕ) → Type 0
Agrees nil d s = Unit
Agrees (cons (array xs) vs) d s =
    (s d ≡ count xs) × Agrees xs (suc d) s × Agrees vs (suc d + nests xs) s
Agrees (cons (class xs) vs) d s =
    (s d ≡ count xs) × Agrees xs (suc d) s × Agrees vs (suc d + nests xs) s
Agrees (cons _ vs) d s = Agrees vs d s

abbrev Outside : ℕ → ℕ → ℕ → Type 0
Outside i d n = (i < d) ⊎ (d + n ≤ i)

Outside-parts :
    (i d a b : ℕ)
    → Outside i d (suc a + b)
    → Outside i (suc d) a × Outside i (suc d + a) b × ((i == d) ≡ false)
Outside-parts i d a b (inl h) = (inl (omega arith), inl (omega arith), ground arith)
Outside-parts i d a b (inr h) = (inr (omega arith), inr (omega arith), ground arith)

update-other : (s : ℕ → ℕ) (d v i : ℕ) → (i == d) ≡ false → update s d v i ≡ s i
update-other s d v i h = rw h refl

marked-Outside :
    (vs : Values) (d : ℕ) (s : ℕ → ℕ) (i : ℕ) → Outside i d (nests vs) → marked vs d s i ≡ s i
unfolding marked nests
marked-Outside nil d s i h = refl
marked-Outside (cons (array xs) vs) d s i h =
    let (p, q, ne) = Outside-parts i d (nests xs) (nests vs) h in
    marked-Outside vs (suc d + nests xs) (update (marked xs (suc d) s) d (count xs)) i q
    ∙ (update-other (marked xs (suc d) s) d (count xs) i ne ∙ marked-Outside xs (suc d) s i p)
marked-Outside (cons (class xs) vs) d s i h =
    let (p, q, ne) = Outside-parts i d (nests xs) (nests vs) h in
    marked-Outside vs (suc d + nests xs) (update (marked xs (suc d) s) d (count xs)) i q
    ∙ (update-other (marked xs (suc d) s) d (count xs) i ne ∙ marked-Outside xs (suc d) s i p)
marked-Outside (cons _ vs) d s i h = marked-Outside vs d s i h

abbrev SameOn : ℕ → ℕ → (ℕ → ℕ) → (ℕ → ℕ) → Type 0
SameOn d n s t = (i : ℕ) → d ≤ i → i < d + n → s i ≡ t i

Agrees-same :
    (vs : Values) (d : ℕ) (s t : ℕ → ℕ) → SameOn d (nests vs) s t → Agrees vs d s → Agrees vs d t
unfolding nests
Agrees-same nil d s t h a = tt
Agrees-same (cons (array xs) vs) d s t h a = (
  sym (h d (omega arith) (omega arith)) ∙ a.0,
  Agrees-same xs (suc d) s t (λ i lo hi. h i (omega arith) (omega arith)) a.1,
  Agrees-same vs (suc d + nests xs) s t (λ i lo hi. h i (omega arith) (omega arith)) a.2,
)
Agrees-same (cons (class xs) vs) d s t h a = (
  sym (h d (omega arith) (omega arith)) ∙ a.0,
  Agrees-same xs (suc d) s t (λ i lo hi. h i (omega arith) (omega arith)) a.1,
  Agrees-same vs (suc d + nests xs) s t (λ i lo hi. h i (omega arith) (omega arith)) a.2,
)
Agrees-same (cons _ vs) d s t h a = Agrees-same vs d s t h a

-- The shared case of a container in front of others.
Agrees-container :
    (xs vs : Values) (d : ℕ) (s : ℕ → ℕ)
    → Agrees xs (suc d) (marked xs (suc d) s)
    → ((u : ℕ → ℕ) → Agrees vs (suc d + nests xs) (marked vs (suc d + nests xs) u))
    → let t = marked vs (suc d + nests xs) (update (marked xs (suc d) s) d (count xs)) in
      (t d ≡ count xs) × Agrees xs (suc d) t × Agrees vs (suc d + nests xs) t
Agrees-container xs vs d s ih ihs =
    let m = marked xs (suc d) s in
    let u : ℕ → ℕ = update m d (count xs) in
    let past =
      λ (i : ℕ) (h : i < suc d + nests xs). marked-Outside vs (suc d + nests xs) u i (inl h) in
    (
      past d (omega arith) ∙ update_self m d (count xs),
      Agrees-same xs (suc d) m (marked vs (suc d + nests xs) u)
          (λ i lo hi. sym (past i hi ∙ ground arith)) ih,
      ihs u,
    )

pub marked-Agrees : (vs : Values) (d : ℕ) (s : ℕ → ℕ) → Agrees vs d (marked vs d s)
unfolding marked
marked-Agrees nil d s = tt
marked-Agrees (cons (array xs) vs) d s =
    Agrees-container xs vs d s (marked-Agrees xs (suc d) s)
      (λ u. marked-Agrees vs (suc d + nests xs) u)
marked-Agrees (cons (class xs) vs) d s =
    Agrees-container xs vs d s (marked-Agrees xs (suc d) s)
      (λ u. marked-Agrees vs (suc d + nests xs) u)
marked-Agrees (cons _ vs) d s = marked-Agrees vs d s

pub weight_pos : (vs : Values) → 1 ≤ weight vs
unfolding weight
weight_pos nil = omega arith
weight_pos (cons (array xs) vs) = omega arith
weight_pos (cons _ vs) = omega arith
