-- ===== src/HashChain.antt =====
-- A hash chain that is searched by a text, and in which what is found moves to the head. The shared
-- strings (src/stralloc.c) and the object table (src/otable.c) keep their entries in such chains.
use mudos_v22pre.Prelude.{
  ℕ, ◌+◌, ◌≡◌, ◌≢◌, refl, sym, ◌∙◌, true, false, inl, inr, Option, none, some, List, [], ◌∷◌, arith,
  if◌then◌else◌, Bool-cases, Option-cases, text_eq, text_eq→eq, text_eq_self, text_eq-ne, some_inj,
}

module _ {A : Type 0} (text : A → List ℕ) where
  -- `while (curr)`: the first entry with the text.
  unfoldable pub find : List ℕ → List A → Option A
  find s [] = none
  find s (b ∷ bs) = if text_eq (text b) s then some b else find s bs

  -- The chain without that entry.
  unfoldable pub without : List ℕ → List A → List A
  without s [] = []
  without s (b ∷ bs) = if text_eq (text b) s then bs else b ∷ without s bs

  -- The chain with that entry at its head.
  unfoldable pub to_front : List ℕ → List A → List A
  to_front s bs = elim (find s bs) [ some b ↦ b ∷ without s bs | none ↦ bs ]

  unfoldable pub count : List ℕ → List A → ℕ
  count s [] = 0
  count s (b ∷ bs) = (if text_eq (text b) s then 1 else 0) + count s bs

  pub find-text :
      (s : List ℕ) (bs : List A) (b : A) → find s bs ≡ some b → text_eq (text b) s ≡ true
  unfolding find
  find-text s [] b h = cc
  find-text s (c ∷ bs) b h = elim (Bool-cases (text_eq (text c) s)) [
    | inl hit ↦ let e : c ≡ b = some_inj (rw hit at h) in rw (← e) hit
    | inr miss ↦ find-text s bs b (rw miss at h)
  ]

  pub find-hit :
      (b : A) (s : List ℕ) (bs : List A) → text_eq (text b) s ≡ true → find s (b ∷ bs) ≡ some b
  unfolding find
  find-hit b s bs h = rw h

  find-miss :
      (b : A) (s : List ℕ) (bs : List A) → text_eq (text b) s ≡ false → find s (b ∷ bs) ≡ find s bs
  unfolding find
  find-miss b s bs h = rw h

  pub find-without : (s t : List ℕ) (bs : List A) → t ≢ s → find t (without s bs) ≡ find t bs
  unfolding find without
  find-without s t [] ne = refl
  find-without s t (b ∷ bs) ne = elim (Bool-cases (text_eq (text b) s)) [
    | inl hit ↦
        let other : text_eq (text b) t ≡ false = text_eq-ne (text b) s t hit ne in rw (hit, other)
    | inr miss ↦ rw (miss, find-without s t bs ne)
  ]

  -- A search moves an entry and changes no later search.
  pub find-to_front : (s t : List ℕ) (bs : List A) → find t (to_front s bs) ≡ find t bs
  unfolding to_front
  find-to_front s t bs = elim (Option-cases (find s bs)) [
    | inl missing ↦ rw (to_front, missing)
    | inr (b, found) ↦
        let hit = find-text s bs b found in
        rw (to_front, found)
          (elim (Bool-cases (text_eq s t)) [
            | inl same ↦
                let e : s ≡ t = text_eq→eq s t same in
                find-hit b t (without s bs) (rw e at hit) ∙ sym (rw e at found)
            | inr differs ↦
                let ne : t ≢ s = λ e. cc (rw (e, text_eq_self s) at differs) in
                find-miss b t (without s bs) (text_eq-ne (text b) s t hit ne)
                ∙ find-without s t bs ne
          ])
  ]

  pub count-without :
      (s t : List ℕ) (bs : List A) (b : A)
      → find s bs ≡ some b
      → count t (without s bs) + (if text_eq (text b) t then 1 else 0) ≡ count t bs
  unfolding count without find
  count-without s t [] b h = cc
  count-without s t (c ∷ bs) b h = elim (Bool-cases (text_eq (text c) s)) [
    | inl hit ↦ let e : c ≡ b = some_inj (rw hit at h) in rw (hit, e) (omega arith)
    | inr miss ↦ rw miss (omega (arith, count-without s t bs b (rw miss at h)))
  ]

  -- Nor does it add or lose one.
  count-to_front : (s t : List ℕ) (bs : List A) → count t (to_front s bs) ≡ count t bs
  unfolding to_front count
  count-to_front s t bs = elim (Option-cases (find s bs)) [
    | inl missing ↦ rw (to_front, missing)
    | inr (b, found) ↦ rw (to_front, found) (omega (arith, count-without s t bs b found))
  ]

  pub count-missing : (s : List ℕ) (bs : List A) → find s bs ≡ none → count s bs ≡ 0
  unfolding count find
  count-missing s [] h = refl
  count-missing s (b ∷ bs) h = elim (Bool-cases (text_eq (text b) s)) [
    | inl hit ↦ cc (rw hit at h)
    | inr miss ↦ rw miss (omega (arith, count-missing s bs (rw miss at h)))
  ]

  pub find-missing : (s : List ℕ) (bs : List A) → count s bs ≡ 0 → find s bs ≡ none
  unfolding count find
  find-missing s [] h = refl
  find-missing s (b ∷ bs) h = ground (arith, find-missing s bs)

  pub to_front-missing : (s : List ℕ) (bs : List A) → find s bs ≡ none → to_front s bs ≡ bs
  unfolding to_front
  to_front-missing s bs h = rw (to_front, h)

  pub to_front-found :
      (s : List ℕ) (bs : List A) (b : A) → find s bs ≡ some b → to_front s bs ≡ b ∷ without s bs
  unfolding to_front
  to_front-found s bs b h = rw (to_front, h)
