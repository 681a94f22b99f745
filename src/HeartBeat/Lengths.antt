-- ===== src/HeartBeat/Lengths.antt =====
-- No call of `set_heart_beat` of src/backend.c makes the entries that wait in a round more.
use mudos_v22pre.Prelude.{
  ℕ, zero, suc, ◌<◌, ◌≤◌, Option, none, some, List, [], ◌∷◌, ◌++◌, ◌≡◌, refl, ap, arith, length,
  Bool-cases, inl, inr,
}
use mudos_v22pre.Prelude.Int.{ℤ, pos, negsuc}
use mudos_v22pre.HeartBeat.State.{HeartBeat, HeartBeats, Objects, remove_at, change_at, retimed}
use mudos_v22pre.HeartBeat.Positions.{last_index-lt, length-remove_at, length-change_at}
use mudos_v22pre.HeartBeat.Spec.{
  Round, edit, spec_remove, spec_retime, spec_change, spec_set, spec_calls, spec_visit,
}
use mudos_v22pre.HeartBeat.Refine.{Found, in_late, in_waiting, in_made, nowhere, find_in}
use mudos_v22pre.HeartBeat.State.{beaten}

abbrev pub kept : Round → Option Round → Round
kept r none = r
kept r (some r') = r'

edit-waiting :
    (g : ℕ → List HeartBeat → List HeartBeat)
    → ((i : ℕ) (xs : List HeartBeat) → i < length xs → length (g i xs) ≤ length xs)
    → (o : ℕ) (r : Round) → Found o r
    → length (kept r (edit g o r)).waiting ≤ length r.waiting
unfolding edit
edit-waiting g short o r (in_late j a) = rw (edit, a) (omega arith)
edit-waiting g short o r (in_waiting j a b) =
    rw (edit, a, b) (short j r.waiting (last_index-lt o r.waiting j b))
edit-waiting g short o r (in_made i a b c) = rw (edit, a, b, c) (omega arith)
edit-waiting g short o r (nowhere a b c) = rw (edit, a, b, c) (omega arith)

spec_remove-waiting :
    (o : ℕ) (s : HeartBeats) (x : Option Round) (r : Round)
    → ((spec_remove o s x r).0).waiting ≡ (kept r x).waiting
spec_remove-waiting o s none r = refl
spec_remove-waiting o s (some r') r = refl

spec_retime-waiting :
    (s : HeartBeats) (x : Option Round) (r : Round)
    → ((spec_retime s x r).0).waiting ≡ (kept r x).waiting
spec_retime-waiting s none r = refl
spec_retime-waiting s (some r') r = refl

spec_change-waiting :
    (o : ℕ) (to : ℤ) (r : Round) (s : HeartBeats)
    → length ((spec_change o to r s).0).waiting ≤ length r.waiting
unfolding spec_change
spec_change-waiting o (pos zero) r s = omega (
  arith,
  ap (λ (l : List HeartBeat). length l) (spec_remove-waiting o s (edit remove_at o r) r),
  edit-waiting remove_at (λ i xs h. omega (arith, length-remove_at i xs h)) o r (find_in o r),
)
spec_change-waiting o (pos (suc to)) r s = elim (Bool-cases (s.flags o)) [
  | inl old ↦
      let f = retimed (suc to) in
      rw (spec_change, old)
        (omega (
          arith,
          ap (λ (l : List HeartBeat). length l) (spec_retime-waiting s (edit (change_at f) o r) r),
          edit-waiting (change_at f) (λ i xs h. omega (arith, length-change_at f i xs)) o r
              (find_in o r),
        ))
  | inr new ↦ rw (spec_change, new) (omega arith)
]
spec_change-waiting o (negsuc to) r s = elim (Bool-cases (s.flags o)) [
  | inl old ↦ rw (spec_change, old) (omega arith)
  | inr new ↦ rw (spec_change, new) (omega arith)
]

spec_calls-waiting :
    (w : Objects) (ops : List (ℕ × ℤ)) (r : Round) (s : HeartBeats)
    → length ((spec_calls w ops r s).0).waiting ≤ length r.waiting
unfolding spec_calls spec_set
spec_calls-waiting w [] r s = omega arith
spec_calls-waiting w ((o, to) ∷ ops) r s = elim (Bool-cases (w.is_destructed o)) [
  | inl gone ↦ rw (spec_calls, spec_set, gone) (spec_calls-waiting w ops r s)
  | inr here ↦
      let p = spec_change o to r s in
      rw (spec_calls, spec_set, here)
        (omega (arith, spec_calls-waiting w ops p.0 p.1, spec_change-waiting o to r s))
]

pub spec_visit-waiting :
    (w : Objects) (m : List HeartBeat) (cur : HeartBeat) (rest late : List HeartBeat)
    (s : HeartBeats)
    → length ((spec_visit w m cur rest late s).0).waiting ≤ length rest
unfolding spec_visit
spec_visit-waiting w m cur rest late s = elim (Bool-cases (beaten w cur).1) [
  | inl due ↦
      let r : Round = record { made = m ++ (beaten w cur).0 ∷ []; waiting = rest; late = late } in
      rw (spec_visit, due)
        (spec_calls-waiting w (w.calls cur.ob) r (record s { beats = cur.ob ∷ s.beats }))
  | inr early ↦ rw (spec_visit, early) (omega arith)
]
