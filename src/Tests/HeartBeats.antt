-- ===== src/Tests/HeartBeats.antt =====
-- Rounds of heart beats of src/backend.c at a small list, and its theorems there.
use mudos_v22pre.Prelude.{
  ℕ, zero, suc, if◌then◌else◌, ◌≡◌, refl, Bool, true, false, Option, none, some, List, [], ◌∷◌, map,
  ◌==◌,
}
use mudos_v22pre.Prelude.Int.{ℤ, pos}
use mudos_v22pre.HeartBeat.State.{
  HeartBeats, Objects, new_entry, set_heart_beat, call_heart_beat, decrement, short_of,
}
use mudos_v22pre.HeartBeat.Spec.{Round, flat, spec_set}
use mudos_v22pre.HeartBeat.Changes.{set_heart_beat-Round}
use mudos_v22pre.HeartBeat.Rounds.{BeatsAs, call_heart_beat-round}

-- Object 1 stops itself, and starts object 4; object 3 has no function.
abbrev calls_of : ℕ → List (ℕ × ℤ)
calls_of zero = []
calls_of (suc zero) = (1, pos 0) ∷ (4, pos 2) ∷ []
calls_of (suc (suc o)) = []

abbrev world : Objects
world = record {
  is_destructed = λ o. o == 9;
  has_function = λ o. if o == 3 then false else true;
  calls = calls_of;
}

-- The timer does not stop the round.
abbrev unhurried : ℕ → Bool
unhurried k = false

abbrev list : HeartBeats
list = record {
  heart_beats = new_entry 1 1 ∷ new_entry 2 1 ∷ new_entry 3 1 ∷ new_entry 5 2 ∷ [];
  max_heart_beats = 32;
  next = 1;
  num_hb_to_do = 0;
  num_hb_calls = 0;
  flags = λ o. if o == 4 then false else true;
  beats = [];
}

-- The objects that beat, the latest first.
abbrev who : Option HeartBeats → List ℕ
who none = []
who (some s) = s.beats

abbrev left : Option HeartBeats → List ℕ
left none = []
left (some s) = map (λ h. h.ob) s.heart_beats

one_round : who (call_heart_beat unhurried world list) ≡ 2 ∷ 1 ∷ []
unfolding call_heart_beat decrement short_of
one_round = refl

after_round : left (call_heart_beat unhurried world list) ≡ 2 ∷ 3 ∷ 5 ∷ 4 ∷ []
unfolding call_heart_beat decrement short_of
after_round = refl

stopped_round : who (call_heart_beat (λ k. k == 1) world list) ≡ 1 ∷ []
unfolding call_heart_beat decrement short_of
stopped_round = refl

refused : (set_heart_beat world 9 (pos 3) list).1 ≡ 0
unfolding set_heart_beat
refused = refl

-- The second of four has its turn.
abbrev middle : Round
middle = record {
  made = new_entry 1 1 ∷ new_entry 2 1 ∷ [];
  waiting = new_entry 3 1 ∷ [];
  late = new_entry 5 2 ∷ [];
}

set_heart_beat-Round_example :
    let (r', s') = spec_set world 3 (pos 0) middle list in
    (set_heart_beat world 3 (pos 0) (flat middle list)).0 ≡ flat r' s'
set_heart_beat-Round_example = set_heart_beat-Round world 3 (pos 0) middle list

call_heart_beat-round_example : BeatsAs unhurried world list
call_heart_beat-round_example = call_heart_beat-round unhurried world list
