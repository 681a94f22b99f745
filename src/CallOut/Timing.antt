-- ===== src/CallOut/Timing.antt =====
-- The time at which a call is made: slot `slot` is visited at each second that is congruent to it,
-- and a call at position `d` is made at the `d`-th visit after `call_out_time`.
use mudos_v22pre.Prelude.{
  ℕ, suc, ◌+◌, ◌-◌, ◌*◌, ◌%◌, ◌≤◌, ◌<◌, ◌≡◌, ◌≢◌, arith, ltb, Bool-cases, inl, inr,
}
use mudos_v22pre.Prelude.Int.{pos, sub_ℕ, sub_ℕ_congr}
use mudos_v22pre.CallOut.State.{World, CallOuts}
use mudos_v22pre.CallOut.Api.{slot_of, visits_of, time_left}

pub first_visit : ℕ → ℕ → ℕ
first_visit now slot = now + 1 + (slot + 32 - (now + 1) % 32) % 32

unfoldable pub due : ℕ → ℕ → ℕ → ℕ
unfolding first_visit
due now slot d = first_visit now slot + 32 * (d - 1)

-- `due` is what its name says: a second after `now`, of the right slot, with `d - 1` visits before.
pub due_mod : (now slot d : ℕ) → slot < 32 → due now slot d % 32 ≡ slot
unfolding due
due_mod now slot d h = omega arith

pub due_bounds :
    (now slot d : ℕ)
    → slot < 32
    → 1 ≤ d
    → (now + 32 * (d - 1) < due now slot d) × (due now slot d ≤ now + 32 * d)
unfolding due
due_bounds now slot d h k = omega arith

-- One second on, the slot that is visited has one visit less to wait for.
pub due-visited :
    (now d : ℕ) → 1 ≤ d → due (now + 1) ((now + 1) % 32) d ≡ due now ((now + 1) % 32) (suc d)
unfolding due
due-visited now d h = omega arith

pub due-passed :
    (now slot d : ℕ) → slot < 32 → slot ≢ (now + 1) % 32 → due (now + 1) slot d ≡ due now slot d
unfolding due
due-passed now slot d h k = omega arith

pub due_now : (now : ℕ) → due now ((now + 1) % 32) 1 ≡ now + 1
unfolding due
due_now now = omega arith

-- The place of a new call is the one at which it is made in time.
pub due-slot_of :
    (w : World) (s : CallOuts) (delay : ℕ)
    → s.call_out_time ≤ w.current_time
    → 1 ≤ delay
    → due s.call_out_time (slot_of w delay) (visits_of w s delay) ≡ w.current_time + delay
unfolding due slot_of visits_of
due-slot_of w s delay h k = omega arith

-- `time_left` is the time from now until the call is made.
pub time_left-due :
    (w : World) (s : CallOuts) (slot d : ℕ)
    → slot < 32
    → 1 ≤ d
    → time_left w s slot d ≡ sub_ℕ (due s.call_out_time slot d) w.current_time
unfolding time_left due
time_left-due w s slot d h k = elim (Bool-cases (ltb (s.call_out_time % 32) slot)) [
  | inl later ↦ rw later (sub_ℕ_congr _ _ _ _ (ground arith))
  | inr sooner ↦ rw sooner (sub_ℕ_congr _ _ _ _ (ground arith))
]

-- The time left of a new call is its delay.
pub time_left-new :
    (w : World) (s : CallOuts) (delay : ℕ)
    → s.call_out_time ≤ w.current_time
    → 1 ≤ delay
    → time_left w s (slot_of w delay) (visits_of w s delay) ≡ pos delay
unfolding slot_of visits_of
time_left-new w s delay h k =
    rw
      (
        time_left-due w s (slot_of w delay) (visits_of w s delay) (omega arith) (omega arith),
        due-slot_of w s delay h k,
      )
      (ground arith)
