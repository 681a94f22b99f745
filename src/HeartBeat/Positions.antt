-- ===== src/HeartBeat/Positions.antt =====
-- Positions in the list of heart beats, when it is put together of parts.
use mudos_v22pre.Prelude.{
  ℕ, zero, suc, ◌+◌, ◌<◌, Option, none, some, List, [], ◌∷◌, ◌++◌, ◌≡◌, refl, ap, ◌∙◌, arith,
  length, Option-cases, inl, inr,
}
use mudos_v22pre.HeartBeat.State.{HeartBeat, last_index, remove_at, change_at, entry_at}

abbrev pub either_index : ℕ → Option ℕ → Option ℕ → Option ℕ
either_index n (some j) o = some (n + j)
either_index n none o = o

pub last_index-append :
    (o : ℕ) (xs ys : List HeartBeat)
    → last_index o (xs ++ ys) ≡ either_index (length xs) (last_index o ys) (last_index o xs)
unfolding last_index
last_index-append o [] ys = elim (Option-cases (last_index o ys)) [
  | inl missing ↦ rw missing refl
  | inr (j, found) ↦ let e : j ≡ 0 + j = omega arith in rw found (ap some e)
]
last_index-append o (x ∷ xs) ys = elim (Option-cases (last_index o ys)) [
  | inl missing ↦ rw (last_index-append o xs ys, missing) refl
  | inr (j, found) ↦
      let e : suc (length xs + j) ≡ suc (length xs) + j = omega arith in
      rw (last_index-append o xs ys, found) (ap some e)
]

pub last_index-lt : (o : ℕ) (xs : List HeartBeat) (i : ℕ) → last_index o xs ≡ some i → i < length xs
unfolding last_index
last_index-lt o [] i h = absurd cc
last_index-lt o (x ∷ xs) i h = elim (Option-cases (last_index o xs)) [
  | inl missing ↦ ground (arith, missing)
  | inr (j, found) ↦ ground (arith, found, last_index-lt o xs j found)
]

pub remove_at-left :
    (i : ℕ) (xs ys : List HeartBeat) → i < length xs → remove_at i (xs ++ ys) ≡ remove_at i xs ++ ys
unfolding remove_at
remove_at-left i [] ys h = absurd (omega arith)
remove_at-left zero (x ∷ xs) ys h = refl
remove_at-left (suc i) (x ∷ xs) ys h = ap (λ l. x ∷ l) (remove_at-left i xs ys (omega arith))

pub remove_at-right :
    (j : ℕ) (xs ys : List HeartBeat) → remove_at (length xs + j) (xs ++ ys) ≡ xs ++ remove_at j ys
unfolding remove_at
remove_at-right j [] ys = let e : 0 + j ≡ j = omega arith in ap (λ i. remove_at i ys) e
remove_at-right j (x ∷ xs) ys =
    let e : suc (length xs) + j ≡ suc (length xs + j) = omega arith in
    ap (λ i. remove_at i (x ∷ (xs ++ ys))) e ∙ ap (λ l. x ∷ l) (remove_at-right j xs ys)

pub length-remove_at :
    (i : ℕ) (xs : List HeartBeat) → i < length xs → suc (length (remove_at i xs)) ≡ length xs
unfolding remove_at
length-remove_at i [] h = absurd (omega arith)
length-remove_at zero (x ∷ xs) h = refl
length-remove_at (suc i) (x ∷ xs) h = ap suc (length-remove_at i xs (omega arith))

module _ (f : HeartBeat → HeartBeat) where
  pub change_at-left :
      (i : ℕ) (xs ys : List HeartBeat)
      → i < length xs
      → change_at f i (xs ++ ys) ≡ change_at f i xs ++ ys
  unfolding change_at
  change_at-left i [] ys h = absurd (omega arith)
  change_at-left zero (x ∷ xs) ys h = refl
  change_at-left (suc i) (x ∷ xs) ys h = ap (λ l. x ∷ l) (change_at-left i xs ys (omega arith))

  pub change_at-right :
      (j : ℕ) (xs ys : List HeartBeat)
      → change_at f (length xs + j) (xs ++ ys) ≡ xs ++ change_at f j ys
  unfolding change_at
  change_at-right j [] ys = let e : 0 + j ≡ j = omega arith in ap (λ i. change_at f i ys) e
  change_at-right j (x ∷ xs) ys =
      let e : suc (length xs) + j ≡ suc (length xs + j) = omega arith in
      ap (λ i. change_at f i (x ∷ (xs ++ ys))) e ∙ ap (λ l. x ∷ l) (change_at-right j xs ys)

  pub length-change_at : (i : ℕ) (xs : List HeartBeat) → length (change_at f i xs) ≡ length xs
  unfolding change_at
  length-change_at i [] = refl
  length-change_at zero (x ∷ xs) = refl
  length-change_at (suc i) (x ∷ xs) = ap suc (length-change_at i xs)

pub entry_at-middle :
    (xs ys : List HeartBeat) (h : HeartBeat) → entry_at (length xs) (xs ++ h ∷ ys) ≡ some h
unfolding entry_at
entry_at-middle [] ys h = refl
entry_at-middle (x ∷ xs) ys h = entry_at-middle xs ys h
