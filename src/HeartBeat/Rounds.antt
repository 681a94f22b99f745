-- ===== src/HeartBeat/Rounds.antt =====
-- A whole round of heart beats in src/backend.c, against the round as it is meant.
use mudos_v22pre.Prelude.{
  ℕ, zero, suc, ◌+◌, ◌-◌, ◌<◌, ◌≤◌, Bool, true, false, Option, some, List, [], ◌∷◌, ◌++◌, ◌==◌,
  if◌then◌else◌, ◌≡◌, refl, sym, ap, ◌∙◌, arith, length, length-append, Bool-cases, inl, inr,
}
use mathlib.Core.List.{append_assoc, append-nil}
use mudos_v22pre.HeartBeat.State.{
  HeartBeat, HeartBeats, Objects, change_at, entry_at, beaten, called, visit, beat_round,
  call_heart_beat,
}
use mudos_v22pre.HeartBeat.Positions.{entry_at-middle}
use mudos_v22pre.HeartBeat.Spec.{Round, all_of, flat, spec_visit, spec_round}
use mudos_v22pre.HeartBeat.Lengths.{spec_visit-waiting}
use mudos_v22pre.HeartBeat.Refine.{build, build_eq}
use mudos_v22pre.HeartBeat.Changes.{both_flat, run_calls-Round}

change_at-middle :
    (f : HeartBeat → HeartBeat) (m rest : List HeartBeat) (c : HeartBeat)
    → change_at f (length m) (m ++ c ∷ rest) ≡ m ++ f c ∷ rest
unfolding change_at
change_at-middle f [] rest c = refl
change_at-middle f (x ∷ m) rest c = ap (λ l. x ∷ l) (change_at-middle f m rest c)

length-snoc : (m : List HeartBeat) (c : HeartBeat) → length (m ++ c ∷ []) ≡ suc (length m)
length-snoc m c = omega (arith, length-append {0} m (c ∷ []))

last_of : (m : List HeartBeat) (c : HeartBeat) → length (m ++ c ∷ []) - 1 ≡ length m
last_of m c = omega (arith, length-snoc m c)

visit-some :
    (w : Objects) (s : HeartBeats) (h : HeartBeat)
    → entry_at (s.next - 1) s.heart_beats ≡ some h
    → (visit w s
        ≡ called w h (
            build s
              (change_at (λ c. (beaten w c).0) (s.next - 1) s.heart_beats)
              s.next
              s.num_hb_to_do))
unfolding visit
visit-some w s h e = rw (visit, e) refl

abbrev pub waiting_for : List HeartBeat → List HeartBeat → List HeartBeat → Round
waiting_for m l late = record { made = m; waiting = l; late = late }

-- The turn of `cur` has begun.
abbrev pub turn_of : List HeartBeat → HeartBeat → List HeartBeat → List HeartBeat → Round
turn_of m cur rest late = record { made = m ++ cur ∷ []; waiting = rest; late = late }

module _ (w : Objects) (m : List HeartBeat) (cur : HeartBeat) (rest late : List HeartBeat)
    (s : HeartBeats) where
  abbrev after : Round
  after = record { made = m ++ (beaten w cur).0 ∷ []; waiting = rest; late = late }

  entry-cur : entry_at (length (m ++ cur ∷ []) - 1) (all_of (turn_of m cur rest late)) ≡ some cur
  entry-cur =
      ap (λ i. entry_at i (all_of (turn_of m cur rest late))) (last_of m cur)
      ∙ (ap (entry_at (length m)) (append_assoc m (cur ∷ []) (rest ++ late))
          ∙ entry_at-middle m (rest ++ late) cur)

  ticked-cur :
      (change_at
          (λ c. (beaten w c).0)
          (length (m ++ cur ∷ []) - 1)
          (all_of (turn_of m cur rest late))
        ≡ all_of after)
  ticked-cur =
      let f : HeartBeat → HeartBeat = λ c. (beaten w c).0 in
      ap (λ i. change_at f i (all_of (turn_of m cur rest late))) (last_of m cur)
      ∙ (ap (change_at f (length m)) (append_assoc m (cur ∷ []) (rest ++ late))
          ∙ (change_at-middle f m (rest ++ late) cur
              ∙ sym (append_assoc m (f cur ∷ []) (rest ++ late))))

  called-Round : called w cur (flat after s) ≡ both_flat (spec_visit w m cur rest late s)
  unfolding called spec_visit
  called-Round = elim (Bool-cases (beaten w cur).1) [
    | inl due ↦
        rw (called, spec_visit, due)
          (run_calls-Round w (w.calls cur.ob) after (record s { beats = cur.ob ∷ s.beats }))
    | inr early ↦ rw (called, spec_visit, early) refl
  ]

  visit-Round :
      visit w (flat (turn_of m cur rest late) s) ≡ both_flat (spec_visit w m cur rest late s)
  visit-Round =
      let n = length-snoc m cur ∙ sym (length-snoc m (beaten w cur).0) in
      visit-some w (flat (turn_of m cur rest late) s) cur entry-cur
      ∙ (ap (called w cur) (build_eq s ticked-cur n (ap (λ k. k + length rest) n)) ∙ called-Round)

-- The variables when the round is over.
abbrev pub ended : HeartBeats → HeartBeats
ended s = record s { next = 1; num_hb_to_do = 0 }

abbrev pub next_turn : HeartBeats → HeartBeats
next_turn s = record s { next = suc s.next }

module _ (alarm : ℕ → Bool) (w : Objects) where
  -- What follows the visit that leaves `s`, with fuel `f`.
  abbrev going_on : ℕ → ℕ → HeartBeats → Option HeartBeats
  going_on f k s =
      if s.next == s.num_hb_to_do then some s else beat_round f alarm (suc k) w (next_turn s)

  beat_round-step :
      (f k : ℕ) (s : HeartBeats)
      → alarm k ≡ false
      → beat_round (suc f) alarm k w s ≡ going_on f k (visit w s)
  unfolding beat_round
  beat_round-step f k s h = rw (beat_round, h) refl

  going_on-done :
      (f k : ℕ) (r : Round) (s : HeartBeats)
      → r.waiting ≡ []
      → going_on f k (flat r s) ≡ some (flat r s)
  going_on-done f k r s h =
      let e : (length r.made == length r.made + length r.waiting) ≡ true = rw h (ground arith) in
      rw e refl

  going_on-more :
      (f k : ℕ) (r : Round) (s : HeartBeats) (c : HeartBeat) (cs : List HeartBeat)
      → r.waiting ≡ c ∷ cs
      → going_on f k (flat r s) ≡ beat_round f alarm (suc k) w (flat (turn_of r.made c cs r.late) s)
  going_on-more f k r s c cs h =
      let t = turn_of r.made c cs r.late in
      let e : (length r.made == length r.made + length r.waiting) ≡ false = rw h (ground arith) in
      let n : suc (length r.made) ≡ length t.made = sym (length-snoc r.made c) in
      let l : all_of r ≡ all_of t = rw h (sym (append_assoc r.made (c ∷ []) (cs ++ r.late))) in
      let d : length r.made + length r.waiting ≡ length t.made + length cs =
        rw h (omega (arith, n)) in
      rw e (ap (beat_round f alarm (suc k) w) (build_eq s l n d))

  -- What the round of the code comes to, next to the round as it is meant.
  abbrev pub Agree : Option HeartBeats → Option (Round × HeartBeats) → Type 0
  Agree x y =
      (t : HeartBeats) × (x ≡ some t)
      × (p : Round × HeartBeats) × (y ≡ some p)
      × (ended t ≡ ended (both_flat p))

  Agree-along :
      {x x' : Option HeartBeats} {y y' : Option (Round × HeartBeats)}
      → x ≡ x'
      → y ≡ y'
      → Agree x' y'
      → Agree x y
  Agree-along e d (t, a, p, b, c) = (t, e ∙ a, p, d ∙ b, c)

  spec_round-step :
      (f k : ℕ) (m : List HeartBeat) (c : HeartBeat) (cs late : List HeartBeat) (s : HeartBeats)
      → alarm k ≡ false
      → (let p = spec_visit w m c cs late s in
          spec_round (suc f) alarm k w (waiting_for m (c ∷ cs) late) s
          ≡ spec_round f alarm (suc k) w p.0 p.1)
  unfolding spec_round
  spec_round-step f k m c cs late s h = rw (spec_round, h) refl

  round-stopped :
      (f g k : ℕ) (m : List HeartBeat) (c : HeartBeat) (cs late : List HeartBeat) (s : HeartBeats)
      → alarm k ≡ true
      → Agree
          (beat_round (suc f) alarm k w (flat (turn_of m c cs late) s))
          (spec_round (suc g) alarm k w (waiting_for m (c ∷ cs) late) s)
  unfolding spec_round beat_round
  round-stopped f g k m c cs late s h = (
    flat (turn_of m c cs late) s,
    (rw (beat_round, h) refl),
    (waiting_for m (c ∷ cs) late, s),
    (rw (spec_round, h) refl),
    build_eq s (append_assoc m (c ∷ []) (cs ++ late)) refl refl,
  )

  -- The state after a visit agrees, if the rounds that follow do.
  Turns : ℕ → Type 0
  Turns f =
      (k : ℕ) (m : List HeartBeat) (c : HeartBeat) (cs late : List HeartBeat) (s : HeartBeats)
      → length cs < f
      → Agree (beat_round f alarm k w (flat (turn_of m c cs late) s))
          (spec_round (suc f) alarm k w (waiting_for m (c ∷ cs) late) s)

  after_visit :
      (f k : ℕ) (r : Round) (s : HeartBeats)
      → Turns f
      → (l : List HeartBeat) → r.waiting ≡ l
      → length l ≤ f
      → Agree (going_on f k (flat r s)) (spec_round (suc f) alarm (suc k) w r s)
  unfolding spec_round Turns
  after_visit f k r s turns [] h n =
      let e = ap (λ l. waiting_for r.made l r.late) h in
      (
        flat r s,
        going_on-done f k r s h,
        (waiting_for r.made [] r.late, s),
        ap (λ r. spec_round (suc f) alarm (suc k) w r s) e,
        ap (λ r. ended (flat r s)) e,
      )
  after_visit f k r s turns (c ∷ cs) h n =
      let e = ap (λ l. waiting_for r.made l r.late) h in
      Agree-along (going_on-more f k r s c cs h)
        (ap (λ r. spec_round (suc f) alarm (suc k) w r s) e)
        (turns (suc k) r.made c cs r.late s (omega arith))

  turns : (f : ℕ) → Turns f
  unfolding Turns
  turns zero k m c cs late s n = absurd (omega arith)
  turns (suc f) k m c cs late s n = elim (Bool-cases (alarm k)) [
    | inl stop ↦ round-stopped f (suc f) k m c cs late s stop
    | inr on ↦
        let p = spec_visit w m c cs late s in
        Agree-along
          (beat_round-step f k (flat (turn_of m c cs late) s) on
            ∙ ap (going_on f k) (visit-Round w m c cs late s))
          (spec_round-step (suc f) k m c cs late s on)
          (after_visit f k p.0 p.1 (turns f) ((p.0).waiting) refl
            (omega (arith, spec_visit-waiting w m c cs late s)))
  ]

-- All entries wait for their turn.
abbrev pub all_waiting : HeartBeats → Round
all_waiting s = waiting_for [] s.heart_beats []

abbrev pub counted : HeartBeats → HeartBeats
counted s = record s { num_hb_calls = suc s.num_hb_calls }

abbrev pub BeatsAs : (ℕ → Bool) → Objects → HeartBeats → Type 0
BeatsAs alarm w s =
    (t : HeartBeats) × (call_heart_beat alarm w s ≡ some t)
    × (p : Round × HeartBeats) × (spec_round (suc (length s.heart_beats)) alarm 0 w (all_waiting s)
          (counted s)
        ≡ some p)
    × (t.heart_beats ≡ all_of p.0)
    × (t.flags ≡ (p.1).flags)
    × (t.beats ≡ (p.1).beats)

begun-flat :
    (c : HeartBeat) (cs : List HeartBeat) (s : HeartBeats)
    → build s (c ∷ cs) 1 (suc (length cs)) ≡ flat (turn_of [] c cs []) s
begun-flat c cs s =
    let e : suc (length cs) ≡ 1 + length cs = omega arith in
    build_eq s (ap (λ l. c ∷ l) (sym (append-nil cs))) refl e

BeatsAs-list :
    (alarm : ℕ → Bool) (w : Objects) (l : List HeartBeat) (s : HeartBeats)
    → BeatsAs alarm w (record s { heart_beats = l })
unfolding call_heart_beat spec_round Turns
BeatsAs-list alarm w [] s =
    let b : HeartBeats = record s { heart_beats = [] } in
    (record b { num_hb_to_do = 0 }, refl, (all_waiting b, counted b), refl, refl, refl, refl)
BeatsAs-list alarm w (c ∷ cs) s =
    let b : HeartBeats = record s { heart_beats = c ∷ cs } in
    let (t, a, p, d, e) = turns alarm w (suc (length cs)) 0 [] c cs [] (counted b) (omega arith) in
    let r = ap (beat_round (suc (length cs)) alarm 0 w) (begun-flat c cs (counted b)) ∙ a in
    let z : (suc (length cs) == 0) ≡ false = ground arith in
    (
      ended t,
      (rw (call_heart_beat, z, r) refl),
      p,
      d,
      ap (λ u. u.heart_beats) e,
      ap (λ u. u.flags) e,
      ap (λ u. u.beats) e,
    )

-- `call_heart_beat` always ends, and it does to the list, the flags and the objects that beat what the
-- round as it is meant does when all entries of the list wait for their turn, until the timer stops it.
pub call_heart_beat-round : (alarm : ℕ → Bool) (w : Objects) (s : HeartBeats) → BeatsAs alarm w s
call_heart_beat-round alarm w s = BeatsAs-list alarm w s.heart_beats s
