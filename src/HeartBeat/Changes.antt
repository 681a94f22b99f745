-- ===== src/HeartBeat/Changes.antt =====
-- The calls of `set_heart_beat` that a heart beat function of src/backend.c makes, in a round.
use mudos_v22pre.Prelude.{
  ℕ, zero, suc, ◌+◌, true, Option, none, some, List, [], ◌∷◌, ◌++◌, ◌≡◌, refl, sym, ap, ◌∙◌, length,
  Bool-cases, inl, inr, update,
}
use mathlib.Core.List.{append_assoc}
use mudos_v22pre.Prelude.Int.{ℤ, pos, negsuc}
use mudos_v22pre.HeartBeat.State.{
  HeartBeats, Objects, last_index, change_at, retimed, new_entry, grown, retime_heart_beat,
  add_heart_beat, change_heart_beat, set_heart_beat, run_calls,
}
use mudos_v22pre.HeartBeat.Positions.{
  last_index-lt, change_at-left, change_at-right, length-change_at,
}
use mudos_v22pre.HeartBeat.Spec.{
  Round, all_of, flat, edit, spec_retime, spec_add, spec_change, spec_set, spec_calls,
}
use mudos_v22pre.HeartBeat.Refine.{
  build, build_eq, index_of, Found, in_late, in_waiting, in_made, nowhere, find_in, remove-Round,
}

retime-found :
    (o to i : ℕ) (s : HeartBeats)
    → last_index o s.heart_beats ≡ some i
    → ((retime_heart_beat o to s).0
        ≡ build s (change_at (retimed to) i s.heart_beats) s.next s.num_hb_to_do)
unfolding retime_heart_beat
retime-found o to i s h = rw (retime_heart_beat, h) refl

retime-missing :
    (o to : ℕ) (s : HeartBeats)
    → last_index o s.heart_beats ≡ none
    → (retime_heart_beat o to s).0 ≡ s
unfolding retime_heart_beat
retime-missing o to s h = rw (retime_heart_beat, h) refl

abbrev retimed_flat : HeartBeats → Round → Option Round → HeartBeats
retimed_flat s r x = let p = spec_retime s x r in flat p.0 p.1

retime-Round :
    (o to : ℕ) (r : Round) (s : HeartBeats)
    → Found o r
    → (retime_heart_beat o to (flat r s)).0 ≡ retimed_flat s r (edit (change_at (retimed to)) o r)
unfolding edit
retime-Round o to r s (in_late j a) =
    let f = retimed to in
    let w = length r.waiting in
    let m = length r.made in
    let at : last_index o (all_of r) ≡ some (m + (w + j)) = index_of o r ∙ (rw a refl) in
    let e : edit (change_at f) o r ≡ some (record r { late = change_at f j r.late }) =
      rw (edit, a) refl in
    retime-found o to (m + (w + j)) (flat r s) at
    ∙ (build_eq s
          (change_at-right f (w + j) r.made (r.waiting ++ r.late)
            ∙ ap (λ l. r.made ++ l) (change_at-right f j r.waiting r.late))
          refl refl
        ∙ ap (retimed_flat s r) (sym e))
retime-Round o to r s (in_waiting j a b) =
    let f = retimed to in
    let m = length r.made in
    let lt = last_index-lt o r.waiting j b in
    let at : last_index o (all_of r) ≡ some (m + j) = index_of o r ∙ (rw (a, b) refl) in
    let e : edit (change_at f) o r ≡ some (record r { waiting = change_at f j r.waiting }) =
      rw (edit, a, b) refl in
    retime-found o to (m + j) (flat r s) at
    ∙ (build_eq s
          (change_at-right f j r.made (r.waiting ++ r.late)
            ∙ ap (λ l. r.made ++ l) (change_at-left f j r.waiting r.late lt))
          refl (ap (λ n. m + n) (sym (length-change_at f j r.waiting)))
        ∙ ap (retimed_flat s r) (sym e))
retime-Round o to r s (in_made i a b c) =
    let f = retimed to in
    let w = length r.waiting in
    let lt = last_index-lt o r.made i c in
    let at : last_index o (all_of r) ≡ some i = index_of o r ∙ (rw (a, b, c) refl) in
    let e : edit (change_at f) o r ≡ some (record r { made = change_at f i r.made }) =
      rw (edit, a, b, c) refl in
    let n = sym (length-change_at f i r.made) in
    retime-found o to i (flat r s) at
    ∙ (build_eq s (change_at-left f i r.made (r.waiting ++ r.late) lt) n (ap (λ k. k + w) n)
        ∙ ap (retimed_flat s r) (sym e))
retime-Round o to r s (nowhere a b c) =
    let at : last_index o (all_of r) ≡ none = index_of o r ∙ (rw (a, b, c) refl) in
    let e : edit (change_at (retimed to)) o r ≡ none = rw (edit, a, b, c) refl in
    retime-missing o to (flat r s) at ∙ ap (retimed_flat s r) (sym e)

abbrev pub both_flat : Round × HeartBeats → HeartBeats
both_flat p = flat p.0 p.1

add-Round :
    (o to : ℕ) (r : Round) (s : HeartBeats)
    → (add_heart_beat o to (flat r s)).0 ≡ both_flat (spec_add o to r s)
unfolding add_heart_beat
add-Round o to r s =
    build_eq
      (record s {
        max_heart_beats = grown s.max_heart_beats (length (all_of r));
        flags = update s.flags o true;
      })
      (append_assoc r.made (r.waiting ++ r.late) (new_entry o to ∷ [])
        ∙ ap (λ l. r.made ++ l) (append_assoc r.waiting r.late (new_entry o to ∷ [])))
      refl refl

change-Round :
    (o : ℕ) (to : ℤ) (r : Round) (s : HeartBeats)
    → (change_heart_beat o to (flat r s)).0 ≡ both_flat (spec_change o to r s)
unfolding change_heart_beat spec_change
change-Round o (pos zero) r s = remove-Round o r s (find_in o r)
change-Round o (pos (suc to)) r s = elim (Bool-cases (s.flags o)) [
  | inl old ↦ rw (change_heart_beat, spec_change, old) (retime-Round o (suc to) r s (find_in o r))
  | inr new ↦ rw (change_heart_beat, spec_change, new) (add-Round o (suc to) r s)
]
change-Round o (negsuc to) r s = elim (Bool-cases (s.flags o)) [
  | inl old ↦ rw (change_heart_beat, spec_change, old) refl
  | inr new ↦ rw (change_heart_beat, spec_change, new) (add-Round o 1 r s)
]

-- A call of `set_heart_beat` while a round is under way takes an entry out of its part of the list,
-- changes it there, or adds one behind all: no entry has its turn twice, is left out, or comes into
-- the round by it. The counters of the round follow.
pub set_heart_beat-Round :
    (w : Objects) (o : ℕ) (to : ℤ) (r : Round) (s : HeartBeats)
    → let (r', s') = spec_set w o to r s in (set_heart_beat w o to (flat r s)).0 ≡ flat r' s'
unfolding set_heart_beat spec_set
set_heart_beat-Round w o to r s = elim (Bool-cases (w.is_destructed o)) [
  | inl gone ↦ rw (set_heart_beat, spec_set, gone) refl
  | inr here ↦ rw (set_heart_beat, spec_set, here) (change-Round o to r s)
]

pub run_calls-Round :
    (w : Objects) (ops : List (ℕ × ℤ)) (r : Round) (s : HeartBeats)
    → run_calls w ops (flat r s) ≡ both_flat (spec_calls w ops r s)
unfolding run_calls spec_calls
run_calls-Round w [] r s = refl
run_calls-Round w ((o, to) ∷ ops) r s =
    let p = spec_set w o to r s in
    ap (run_calls w ops) (set_heart_beat-Round w o to r s) ∙ run_calls-Round w ops p.0 p.1
