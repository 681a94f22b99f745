-- ===== src/HeartBeat/State.antt =====
-- The list of heart beats of src/backend.c, and the rounds through it. The called functions change the
-- list by calls of `set_heart_beat`; that a timer sets `heart_beat_flag` is an argument.
use mudos_v22pre.Prelude.{
  ℕ, zero, suc, ◌+◌, ◌-◌, ◌%◌, Bool, true, false, Option, none, some, List, [], ◌∷◌, ◌++◌, ltb,
  ◌==◌, if◌then◌else◌, update, length, ◌&&◌,
}
use mudos_v22pre.Prelude.Int.{ℤ, pos, negsuc}

-- `heart_beat_t`; the two numbers are of type `short`.
pub record HeartBeat : Type 0 where
  pub ob : ℕ
  pub heart_beat_ticks : ℤ
  pub time_to_heart_beat : ℤ

-- `heart_beats` holds the first `num_hb_objs` entries. `next` is `heart_beat_index` and 1, since the
-- index may be -1. `flags` is the flag `O_HEART_BEAT` of each object. `beats` has the objects whose
-- function is called, the latest first.
pub record HeartBeats : Type 0 where
  pub heart_beats : List HeartBeat
  pub max_heart_beats : ℕ
  pub next : ℕ
  pub num_hb_to_do : ℕ
  pub num_hb_calls : ℕ
  pub flags : ℕ → Bool
  pub beats : List ℕ

-- What other code tells of the objects: destructed ones, those whose program has a heart beat
-- function, and the calls of `set_heart_beat` that this function makes.
pub record Objects : Type 0 where
  pub is_destructed : ℕ → Bool
  pub has_function : ℕ → Bool
  pub calls : ℕ → List (ℕ × ℤ)

abbrev pub heart_beat_chunk : ℕ
heart_beat_chunk = 32

-- An `int` that is stored in a `short`.
unfoldable pub short_of : ℕ → ℤ
short_of n = if ltb (n % 65536) 32768 then pos (n % 65536) else negsuc (65535 - n % 65536)

-- `--` on a `short`
unfoldable pub decrement : ℤ → ℤ
decrement (pos zero) = negsuc 0
decrement (pos (suc n)) = pos n
decrement (negsuc n) = if n == 32767 then pos 32767 else negsuc (suc n)

-- `< 1`
abbrev pub is_due : ℤ → Bool
is_due (pos zero) = true
is_due (pos (suc n)) = false
is_due (negsuc n) = true

-- The loop `while (index--)`, which searches from the end.
unfoldable pub last_index : ℕ → List HeartBeat → Option ℕ
last_index o [] = none
last_index o (h ∷ hs) = elim (last_index o hs) as (λ _. Option ℕ) [
  | some i ↦ some (suc i)
  | none ↦ if h.ob == o then some 0 else none
]

-- `memmove`
unfoldable pub remove_at : ℕ → List HeartBeat → List HeartBeat
remove_at i [] = []
remove_at zero (h ∷ hs) = hs
remove_at (suc i) (h ∷ hs) = h ∷ remove_at i hs

unfoldable pub change_at : (HeartBeat → HeartBeat) → ℕ → List HeartBeat → List HeartBeat
change_at f i [] = []
change_at f zero (h ∷ hs) = f h ∷ hs
change_at f (suc i) (h ∷ hs) = h ∷ change_at f i hs

abbrev pub retimed : ℕ → HeartBeat → HeartBeat
retimed to h = record h { heart_beat_ticks = short_of to; time_to_heart_beat = short_of to }

-- `heart_beat_index` and 1, or `num_hb_to_do`, when the entry `index` is taken out: only a round
-- that is under way is adjusted.
abbrev pub shifted : ℕ → ℕ → ℕ → ℕ
shifted index to_do n = if to_do == 0 then n else (if ltb index n then n - 1 else n)

-- `set_heart_beat(ob, 0)` for an object that is not destructed.
unfoldable pub remove_heart_beat : ℕ → HeartBeats → HeartBeats × ℕ
unfolding last_index remove_at
remove_heart_beat o s = elim (last_index o s.heart_beats) as (λ _. HeartBeats × ℕ) [
  | none ↦ (s, 0)
  | some index ↦ (
    record s {
      heart_beats = remove_at index s.heart_beats;
      next = shifted index s.num_hb_to_do s.next;
      num_hb_to_do = shifted index s.num_hb_to_do s.num_hb_to_do;
      flags = update s.flags o false;
    },
    1,
  )
]

unfoldable pub retime_heart_beat : ℕ → ℕ → HeartBeats → HeartBeats × ℕ
unfolding last_index change_at
retime_heart_beat o to s = elim (last_index o s.heart_beats) as (λ _. HeartBeats × ℕ) [
  | none ↦ (s, 1)
  | some index ↦ (record s { heart_beats = change_at (retimed to) index s.heart_beats }, 1)
]

-- The room for entries, if one more is needed.
pub grown : ℕ → ℕ → ℕ
grown max num =
    if max == 0 then heart_beat_chunk else if num == max then max + heart_beat_chunk else max

abbrev pub new_entry : ℕ → ℕ → HeartBeat
new_entry o to = record { ob = o; heart_beat_ticks = short_of to; time_to_heart_beat = short_of to }

unfoldable pub add_heart_beat : ℕ → ℕ → HeartBeats → HeartBeats × ℕ
unfolding grown
add_heart_beat o to s = (
  record s {
    heart_beats = s.heart_beats ++ new_entry o to ∷ [];
    max_heart_beats = grown s.max_heart_beats (length s.heart_beats);
    flags = update s.flags o true;
  },
  1,
)

-- `set_heart_beat` for an object that is not destructed.
unfoldable pub change_heart_beat : ℕ → ℤ → HeartBeats → HeartBeats × ℕ
unfolding remove_heart_beat retime_heart_beat add_heart_beat
change_heart_beat o (pos zero) s = remove_heart_beat o s
change_heart_beat o (pos (suc to)) s =
    if s.flags o then retime_heart_beat o (suc to) s else add_heart_beat o (suc to) s
change_heart_beat o (negsuc to) s = if s.flags o then (s, 0) else add_heart_beat o 1 s

unfoldable pub set_heart_beat : Objects → ℕ → ℤ → HeartBeats → HeartBeats × ℕ
unfolding change_heart_beat
set_heart_beat w o to s = if w.is_destructed o then (s, 0) else change_heart_beat o to s

pub last_time : ℕ → List HeartBeat → ℤ
last_time o [] = pos 0
last_time o (h ∷ hs) = elim (last_index o hs) as (λ _. ℤ) [
  | some i ↦ last_time o hs
  | none ↦ if h.ob == o then h.time_to_heart_beat else pos 0
]

abbrev pub query_heart_beat : ℕ → HeartBeats → ℤ
unfolding last_time
query_heart_beat o s = if s.flags o then last_time o s.heart_beats else pos 0

-- The calls that a heart beat function makes.
unfoldable pub run_calls : Objects → List (ℕ × ℤ) → HeartBeats → HeartBeats
unfolding set_heart_beat
run_calls w [] s = s
run_calls w ((o, to) ∷ ops) s = run_calls w ops (set_heart_beat w o to s).0

-- `heart_beats[heart_beat_index]`
unfoldable pub entry_at : ℕ → List HeartBeat → Option HeartBeat
entry_at i [] = none
entry_at zero (h ∷ hs) = some h
entry_at (suc i) (h ∷ hs) = entry_at i hs

abbrev pub ticked : HeartBeat → HeartBeat
ticked h = record h { heart_beat_ticks = decrement h.heart_beat_ticks }

abbrev pub rewound : HeartBeat → HeartBeat
rewound h = record h { heart_beat_ticks = h.time_to_heart_beat }

-- The entry after its tick, and whether its function is called.
unfoldable pub beaten : Objects → HeartBeat → HeartBeat × Bool
beaten w h =
    if w.has_function h.ob && is_due (ticked h).heart_beat_ticks
    then (rewound (ticked h), true)
    else (ticked h, false)

-- The call of the function of the entry `h`, if it is due; its entry has ticked in `s`. An LPC error in
-- the function is left out: it sets the heart beat of the object to 0 and leaves the round by LONGJMP,
-- so that no later entry has its turn in it.
unfoldable pub called : Objects → HeartBeat → HeartBeats → HeartBeats
unfolding beaten run_calls
called w h s =
    if (beaten w h).1 then run_calls w (w.calls h.ob) (record s { beats = h.ob ∷ s.beats }) else s

-- The body of the loop, but for the end: the entry at `heart_beat_index`.
unfoldable pub visit : Objects → HeartBeats → HeartBeats
unfolding entry_at change_at called
visit w s = elim (entry_at (s.next - 1) s.heart_beats) as (λ _. HeartBeats) [
  | none ↦ s
  | some h ↦
      called w h
        (record s { heart_beats = change_at (λ c. (beaten w c).0) (s.next - 1) s.heart_beats })
]

-- `while (!heart_beat_flag)`, on fuel. `alarm k` tells whether the flag is set at the `k`-th test. The
-- way out by an LPC error in a called function is left out.
unfoldable pub beat_round : ℕ → (ℕ → Bool) → ℕ → Objects → HeartBeats → Option HeartBeats
unfolding visit
beat_round zero alarm k w s = none
beat_round (suc f) alarm k w s =
    let s₁ = visit w s in
    let rest = beat_round f alarm (suc k) w (record s₁ { next = suc s₁.next }) in
    if alarm k then some s else (if s₁.next == s₁.num_hb_to_do then some s₁ else rest)

-- The part of `call_heart_beat` that is about the list.
unfoldable pub call_heart_beat : (ℕ → Bool) → Objects → HeartBeats → Option HeartBeats
unfolding beat_round
call_heart_beat alarm w s = elim (length s.heart_beats == 0) as (λ _. Option HeartBeats) [
  | true ↦ some (record s { num_hb_to_do = 0 })
  | false ↦
      let begun = record s {
        num_hb_to_do = length s.heart_beats;
        num_hb_calls = suc s.num_hb_calls;
        next = 1;
      } in
      elim (beat_round (length s.heart_beats) alarm 0 w begun) as (λ _. Option HeartBeats) [
        | none ↦ none
        | some t ↦ some (record t { next = 1; num_hb_to_do = 0 })
      ]
]
