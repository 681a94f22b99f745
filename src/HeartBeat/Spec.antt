-- ===== src/HeartBeat/Spec.antt =====
-- A round of heart beats as it is meant: the entries that had their turn, those that wait for it, and
-- those that came too late for this round.
use mudos_v22pre.Prelude.{
  ℕ, zero, suc, ◌+◌, Bool, true, false, Option, none, some, List, [], ◌∷◌, ◌++◌, if◌then◌else◌,
  update, length,
}
use mudos_v22pre.Prelude.Int.{ℤ, pos, negsuc}
use mudos_v22pre.HeartBeat.State.{
  HeartBeat, HeartBeats, Objects, last_index, remove_at, change_at, retimed, new_entry, grown,
  beaten,
}

pub record Round : Type 0 where
  pub made : List HeartBeat
  pub waiting : List HeartBeat
  pub late : List HeartBeat

abbrev pub all_of : Round → List HeartBeat
all_of r = r.made ++ (r.waiting ++ r.late)

-- The list during the round, and the other variables of `s`.
abbrev pub flat : Round → HeartBeats → HeartBeats
flat r s = record s {
  heart_beats = all_of r;
  next = length r.made;
  num_hb_to_do = length r.made + length r.waiting;
}

-- The latest entry of an object is edited where it stands: `none` if there is none.
abbrev pub edit_in :
    (ℕ → List HeartBeat → List HeartBeat) → ℕ → List HeartBeat → Option (List HeartBeat)
edit_in g o xs = elim (last_index o xs) as (λ _. Option (List HeartBeat)) [
  | none ↦ none
  | some i ↦ some (g i xs)
]

unfoldable pub edit : (ℕ → List HeartBeat → List HeartBeat) → ℕ → Round → Option Round
edit g o r = elim (last_index o r.late) as (λ _. Option Round) [
  | some i ↦ some (record r { late = g i r.late })
  | none ↦ elim (last_index o r.waiting) as (λ _. Option Round) [
    | some i ↦ some (record r { waiting = g i r.waiting })
    | none ↦ elim (last_index o r.made) as (λ _. Option Round) [
      | some i ↦ some (record r { made = g i r.made })
      | none ↦ none
    ]
  ]
]

-- `set_heart_beat` in a round: an entry is taken out of its part, or changed in it, and a new one is
-- late.
abbrev pub spec_remove : ℕ → HeartBeats → Option Round → Round → Round × HeartBeats
spec_remove o s none r = (r, s)
spec_remove o s (some r') r = (r', record s { flags = update s.flags o false })

abbrev pub spec_retime : HeartBeats → Option Round → Round → Round × HeartBeats
spec_retime s none r = (r, s)
spec_retime s (some r') r = (r', s)

abbrev pub spec_add : ℕ → ℕ → Round → HeartBeats → Round × HeartBeats
spec_add o to r s = (
  record r { late = r.late ++ new_entry o to ∷ [] },
  record s {
    max_heart_beats = grown s.max_heart_beats (length (all_of r));
    flags = update s.flags o true;
  },
)

unfoldable pub spec_change : ℕ → ℤ → Round → HeartBeats → Round × HeartBeats
unfolding edit
spec_change o (pos zero) r s = spec_remove o s (edit remove_at o r) r
spec_change o (pos (suc to)) r s =
    if s.flags o
    then spec_retime s (edit (change_at (retimed (suc to))) o r) r
    else spec_add o (suc to) r s
spec_change o (negsuc to) r s = if s.flags o then (r, s) else spec_add o 1 r s

unfoldable pub spec_set : Objects → ℕ → ℤ → Round → HeartBeats → Round × HeartBeats
unfolding spec_change
spec_set w o to r s = if w.is_destructed o then (r, s) else spec_change o to r s

unfoldable pub spec_calls : Objects → List (ℕ × ℤ) → Round → HeartBeats → Round × HeartBeats
spec_calls w [] r s = (r, s)
spec_calls w ((o, to) ∷ ops) r s = let p = spec_set w o to r s in spec_calls w ops p.0 p.1

-- The turn of the entry `cur`, which waited first.
unfoldable pub spec_visit :
    Objects
    → List HeartBeat
    → HeartBeat
    → List HeartBeat
    → List HeartBeat
    → HeartBeats
    → Round × HeartBeats
unfolding spec_calls beaten
spec_visit w m cur rest late s =
    let h = (beaten w cur).0 in
    let r : Round = record { made = m ++ h ∷ []; waiting = rest; late = late } in
    if (beaten w cur).1
    then spec_calls w (w.calls cur.ob) r (record s { beats = cur.ob ∷ s.beats })
    else (r, s)

-- Turns are taken in order until none waits, or the timer stops the round; on fuel.
unfoldable pub spec_round :
    ℕ → (ℕ → Bool) → ℕ → Objects → Round → HeartBeats → Option (Round × HeartBeats)
unfolding spec_visit
spec_round zero alarm k w r s = none
spec_round (suc f) alarm k w r s = elim r.waiting as (λ _. Option (Round × HeartBeats)) [
  | [] ↦ some (r, s)
  | cur ∷ rest ↦
      let p = spec_visit w r.made cur rest r.late s in
      let more = spec_round f alarm (suc k) w p.0 p.1 in if alarm k then some (r, s) else more
]
