-- ===== src/HeartBeat/Refine.antt =====
-- `set_heart_beat` of src/backend.c in a round, against the round as it is meant.
use mudos_v22pre.Prelude.{
  ℕ, suc, ◌+◌, ◌<◌, ◌≤◌, false, Option, none, some, List, ◌++◌, ◌≡◌, refl, sym, ap, ◌∙◌, arith,
  length, Option-cases, inl, inr, update,
}
use mudos_v22pre.HeartBeat.State.{
  HeartBeat, HeartBeats, last_index, remove_at, shifted, remove_heart_beat,
}
use mudos_v22pre.HeartBeat.Positions.{
  either_index, last_index-append, last_index-lt, remove_at-left, remove_at-right, length-remove_at,
}
use mudos_v22pre.HeartBeat.Spec.{Round, all_of, flat, edit, spec_remove}

abbrev pub build : HeartBeats → List HeartBeat → ℕ → ℕ → HeartBeats
build s l n t = record s { heart_beats = l; next = n; num_hb_to_do = t }

pub build_eq :
    {l l' : List HeartBeat} {n n' t t' : ℕ} (s : HeartBeats)
    → l ≡ l'
    → n ≡ n'
    → t ≡ t'
    → build s l n t ≡ build s l' n' t'
build_eq s p q u = λ i. build s (p i) (q i) (u i)

pub index_of :
    (o : ℕ) (r : Round)
    → last_index o (all_of r)
      ≡ either_index
          (length r.made)
          (either_index (length r.waiting) (last_index o r.late) (last_index o r.waiting))
          (last_index o r.made)
index_of o r =
    last_index-append o r.made (r.waiting ++ r.late)
    ∙ ap (λ (x : Option ℕ). either_index (length r.made) x (last_index o r.made))
        (last_index-append o r.waiting r.late)

-- Where the latest entry of an object stands, and what an edit does there. The parts keep their
-- places whatever the edit is.
pub data Found (o : ℕ) (r : Round) : Type 0 where
  in_late : (j : ℕ) → last_index o r.late ≡ some j → Found o r
  in_waiting : (j : ℕ) → last_index o r.late ≡ none → last_index o r.waiting ≡ some j → Found o r
  in_made :
      (i : ℕ)
      → last_index o r.late ≡ none
      → last_index o r.waiting ≡ none
      → last_index o r.made ≡ some i
      → Found o r
  nowhere :
      last_index o r.late ≡ none
      → last_index o r.waiting ≡ none
      → last_index o r.made ≡ none
      → Found o r

pub find_in : (o : ℕ) (r : Round) → Found o r
find_in o r = elim (Option-cases (last_index o r.late)) [
  | inr (j, a) ↦ in_late j a
  | inl a ↦ elim (Option-cases (last_index o r.waiting)) [
    | inr (j, b) ↦ in_waiting j a b
    | inl b ↦ elim (Option-cases (last_index o r.made)) [
      | inr (i, c) ↦ in_made i a b c
      | inl c ↦ nowhere a b c
    ]
  ]
]

remove-found :
    (o i : ℕ) (s : HeartBeats)
    → last_index o s.heart_beats ≡ some i
    → ((remove_heart_beat o s).0
        ≡ build
            (record s { flags = update s.flags o false })
            (remove_at i s.heart_beats)
            (shifted i s.num_hb_to_do s.next)
            (shifted i s.num_hb_to_do s.num_hb_to_do))
unfolding remove_heart_beat
remove-found o i s h = rw (remove_heart_beat, h) refl

remove-missing :
    (o : ℕ) (s : HeartBeats) → last_index o s.heart_beats ≡ none → (remove_heart_beat o s).0 ≡ s
unfolding remove_heart_beat
remove-missing o s h = rw (remove_heart_beat, h) refl

shifted-late : (m w j n : ℕ) → n ≤ m + w → shifted (m + (w + j)) (m + w) n ≡ n
shifted-late m w j n h = ground arith

shifted-front : (m w j : ℕ) → shifted (m + j) (m + w) m ≡ m
shifted-front m w j = ground arith

shifted-behind : (i t n n' : ℕ) → i < n → n ≤ t → suc n' ≡ n → shifted i t n ≡ n'
shifted-behind i t n n' h k e = ground arith

abbrev spec_flat : ℕ → HeartBeats → Round → Option Round → HeartBeats
spec_flat o s r x = let p = spec_remove o s x r in flat p.0 p.1

pub remove-Round :
    (o : ℕ) (r : Round) (s : HeartBeats)
    → Found o r
    → (remove_heart_beat o (flat r s)).0 ≡ spec_flat o s r (edit remove_at o r)
unfolding edit
remove-Round o r s (in_late j a) =
    let w = length r.waiting in
    let m = length r.made in
    let at : last_index o (all_of r) ≡ some (m + (w + j)) = index_of o r ∙ (rw a refl) in
    let e : edit remove_at o r ≡ some (record r { late = remove_at j r.late }) =
      rw (edit, a) refl in
    remove-found o (m + (w + j)) (flat r s) at
    ∙ (build_eq (record s { flags = update s.flags o false })
          (remove_at-right (w + j) r.made (r.waiting ++ r.late)
            ∙ ap (λ l. r.made ++ l) (remove_at-right j r.waiting r.late))
          (shifted-late m w j m (omega arith)) (shifted-late m w j (m + w) (omega arith))
        ∙ ap (spec_flat o s r) (sym e))
remove-Round o r s (in_waiting j a b) =
    let w = length r.waiting in
    let m = length r.made in
    let lt = last_index-lt o r.waiting j b in
    let at : last_index o (all_of r) ≡ some (m + j) = index_of o r ∙ (rw (a, b) refl) in
    let e : edit remove_at o r ≡ some (record r { waiting = remove_at j r.waiting }) =
      rw (edit, a, b) refl in
    remove-found o (m + j) (flat r s) at
    ∙ (build_eq (record s { flags = update s.flags o false })
          (remove_at-right j r.made (r.waiting ++ r.late)
            ∙ ap (λ l. r.made ++ l) (remove_at-left j r.waiting r.late lt))
          (shifted-front m w j)
          (shifted-behind (m + j) (m + w) (m + w) (m + length (remove_at j r.waiting))
            (omega (arith, lt)) (omega arith) (omega (arith, length-remove_at j r.waiting lt)))
        ∙ ap (spec_flat o s r) (sym e))
remove-Round o r s (in_made i a b c) =
    let w = length r.waiting in
    let m = length r.made in
    let lt = last_index-lt o r.made i c in
    let at : last_index o (all_of r) ≡ some i = index_of o r ∙ (rw (a, b, c) refl) in
    let e : edit remove_at o r ≡ some (record r { made = remove_at i r.made }) =
      rw (edit, a, b, c) refl in
    remove-found o i (flat r s) at
    ∙ (build_eq (record s { flags = update s.flags o false })
          (remove_at-left i r.made (r.waiting ++ r.late) lt)
          (shifted-behind i (m + w) m (length (remove_at i r.made)) lt (omega arith)
            (length-remove_at i r.made lt))
          (shifted-behind i (m + w) (m + w) (length (remove_at i r.made) + w) (omega (arith, lt))
            (omega arith) (omega (arith, length-remove_at i r.made lt)))
        ∙ ap (spec_flat o s r) (sym e))
remove-Round o r s (nowhere a b c) =
    let at : last_index o (all_of r) ≡ none = index_of o r ∙ (rw (a, b, c) refl) in
    let e : edit remove_at o r ≡ none = rw (edit, a, b, c) refl in
    remove-missing o (flat r s) at ∙ ap (spec_flat o s r) (sym e)
