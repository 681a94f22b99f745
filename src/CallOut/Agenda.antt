-- ===== src/CallOut/Agenda.antt =====
-- The abstract view of a slot: the calls in order, each with the second at which it is made.
use mudos_v22pre.Prelude.{
  ℕ, ◌+◌, ◌≤◌, ◌≡◌, refl, Bool, inl, inr, List, [], ◌∷◌, arith, leb, Bool-cases, All,
}
use mudos_v22pre.CallOut.Chain.{PendingCall, insert, unlink, unlink_all}
use native.Mathlib.Nat.{zero-add}
use mudos_v22pre.CallOut.Schedule.{
  positions, place, take_out, take_out_all, IsPlaceless, positions-insert, positions-unlink,
  positions-unlink_all,
}
use mudos_v22pre.CallOut.Timing.{due}
use mudos_v22pre.CallOut.Valid.{IsWaiting}

unfoldable pub timed : ℕ → ℕ → List (ℕ × PendingCall) → List (ℕ × PendingCall)
timed now slot [] = []
timed now slot ((d, c) ∷ rest) = (due now slot d, c) ∷ timed now slot rest

unfoldable pub agenda : ℕ → ℕ → List PendingCall → List (ℕ × PendingCall)
agenda now slot cs = timed now slot (positions 0 cs)

abbrev pub Later : ℕ → List (ℕ × PendingCall) → Type 0
Later n = All (λ p. n ≤ p.0)

Later-positions : (n acc : ℕ) (cs : List PendingCall) → n ≤ acc → Later n (positions acc cs)
unfolding positions
Later-positions n acc [] h = tt
Later-positions n acc (c ∷ cs) h = (omega arith, Later-positions n (acc + c.delta) cs (omega arith))

-- No call of a waiting chain is at position 0.
pub Later-waiting : (cs : List PendingCall) → IsWaiting cs → Later 1 (positions 0 cs)
unfolding positions
Later-waiting [] w = tt
Later-waiting (c ∷ cs) w = (omega arith, Later-positions 1 (0 + c.delta) cs (omega arith))

due_order : (now slot d e : ℕ) → 1 ≤ d → 1 ≤ e → leb (due now slot d) (due now slot e) ≡ leb d e
unfolding due
due_order now slot d e h k = ground arith

timed-place :
    (now slot d : ℕ) (cop : PendingCall) (ps : List (ℕ × PendingCall))
    → 1 ≤ d
    → Later 1 ps
    → timed now slot (place d cop ps) ≡ place (due now slot d) cop (timed now slot ps)
unfolding timed place
timed-place now slot d cop [] h l = refl
timed-place now slot d cop ((e, c) ∷ rest) h l =
    rw (due_order now slot d e h l.0) (elim (Bool-cases (leb d e)) [
      | inl before ↦ rw before
      | inr after ↦ rw (after, timed-place now slot d cop rest h l.1)
    ])

timed-take_out :
    (now slot : ℕ) (test : PendingCall → Bool) (ps : List (ℕ × PendingCall))
    → timed now slot (take_out test ps) ≡ take_out test (timed now slot ps)
unfolding timed take_out
timed-take_out now slot test [] = refl
timed-take_out now slot test ((e, c) ∷ rest) = elim (Bool-cases (test c)) [
  | inl hit ↦ rw hit
  | inr miss ↦ rw (miss, timed-take_out now slot test rest)
]

timed-take_out_all :
    (now slot : ℕ) (test : PendingCall → Bool) (ps : List (ℕ × PendingCall))
    → timed now slot (take_out_all test ps) ≡ take_out_all test (timed now slot ps)
unfolding timed take_out_all
timed-take_out_all now slot test [] = refl
timed-take_out_all now slot test ((e, c) ∷ rest) = elim (Bool-cases (test c)) [
  | inl hit ↦ rw (hit, timed-take_out_all now slot test rest)
  | inr miss ↦ rw (miss, timed-take_out_all now slot test rest)
]

pub agenda-insert :
    (now slot delay : ℕ) (cop : PendingCall) (cs : List PendingCall)
    → 1 ≤ delay
    → IsWaiting cs
    → agenda now slot (insert delay cop cs) ≡ place (due now slot delay) cop (agenda now slot cs)
unfolding agenda
agenda-insert now slot delay cop cs h w =
    rw (positions-insert 0 delay cop cs, zero-add)
      (timed-place now slot delay cop (positions 0 cs) h (Later-waiting cs w))

pub agenda-unlink :
    (now slot : ℕ) (test : PendingCall → Bool) (cs : List PendingCall)
    → IsPlaceless test
    → agenda now slot (unlink test cs) ≡ take_out test (agenda now slot cs)
unfolding agenda
agenda-unlink now slot test cs placeless =
    rw (positions-unlink test 0 cs placeless) (timed-take_out now slot test (positions 0 cs))

pub agenda-unlink_all :
    (now slot : ℕ) (test : PendingCall → Bool) (cs : List PendingCall)
    → IsPlaceless test
    → agenda now slot (unlink_all test 0 cs) ≡ take_out_all test (agenda now slot cs)
unfolding agenda
agenda-unlink_all now slot test cs placeless =
    rw (positions-unlink_all test 0 0 cs placeless)
      (timed-take_out_all now slot test (positions 0 cs))
