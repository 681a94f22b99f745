-- ===== src/CallOut/Schedule.antt =====
-- What a chain of deltas means: the visits of the slot that each call still waits for.
use mudos_v22pre.Prelude.{
  ℕ, ◌+◌, ◌-◌, ◌≡◌, ◌≢◌, refl, Bool, true, false, inl, inr, some, List, [], ◌∷◌, arith, leb, ◌==◌,
  if◌then◌else◌, Bool-cases, All,
}
use native.Mathlib.Nat.{add-zero}
use mudos_v22pre.CallOut.Chain.{PendingCall, insert, absorb, search_chain, unlink, unlink_all}
use mudos_v22pre.CallOut.Api.{has_handle}

-- A call apart from its place.
abbrev pub bare : PendingCall → PendingCall
bare c = record c { delta = 0 }

unfoldable pub positions : ℕ → List PendingCall → List (ℕ × PendingCall)
positions acc [] = []
positions acc (c ∷ cs) = (acc + c.delta, bare c) ∷ positions (acc + c.delta) cs

-- In order of the visits, a new call before those that wait for as many.
unfoldable pub place : ℕ → PendingCall → List (ℕ × PendingCall) → List (ℕ × PendingCall)
place d cop [] = (d, bare cop) ∷ []
place d cop ((e, c) ∷ rest) =
    if leb d e then (d, bare cop) ∷ (e, c) ∷ rest else (e, c) ∷ place d cop rest

unfoldable pub take_out : (PendingCall → Bool) → List (ℕ × PendingCall) → List (ℕ × PendingCall)
take_out test [] = []
take_out test ((e, c) ∷ rest) = if test c then rest else (e, c) ∷ take_out test rest

unfoldable pub take_out_all : (PendingCall → Bool) → List (ℕ × PendingCall) → List (ℕ × PendingCall)
take_out_all test [] = []
take_out_all test ((e, c) ∷ rest) =
    if test c then take_out_all test rest else (e, c) ∷ take_out_all test rest

-- A test that does not look at the place of a call.
abbrev pub IsPlaceless : (PendingCall → Bool) → Type 0
IsPlaceless test = (c : PendingCall) (d : ℕ) → test (record c { delta = d }) ≡ test c

positions-cons :
    (acc : ℕ) (c : PendingCall) (cs : List PendingCall) (a : ℕ)
    → acc + c.delta ≡ a
    → positions acc (c ∷ cs) ≡ (a, bare c) ∷ positions a cs
unfolding positions
positions-cons acc c cs a h = rw h

pub positions-insert :
    (acc delay : ℕ) (cop : PendingCall) (cs : List PendingCall)
    → positions acc (insert delay cop cs) ≡ place (acc + delay) cop (positions acc cs)
unfolding insert place positions
positions-insert acc delay cop [] = refl
positions-insert acc delay cop (c ∷ cs) = elim (Bool-cases (leb delay c.delta)) [
  | inl small ↦
      let before : leb (acc + delay) (acc + c.delta) ≡ true = ground arith in
      let e : acc + delay + (c.delta - delay) ≡ acc + c.delta = ground arith in
      rw (small, before, e)
  | inr large ↦
      let after : leb (acc + delay) (acc + c.delta) ≡ false = ground arith in
      let e : acc + c.delta + (delay - c.delta) ≡ acc + delay = ground arith in
      rw (large, after, positions-insert (acc + c.delta) (delay - c.delta) cop cs, e)
]

positions-absorb :
    (acc d : ℕ) (cs : List PendingCall) → positions acc (absorb d cs) ≡ positions (acc + d) cs
unfolding absorb positions
positions-absorb acc d [] = refl
positions-absorb acc d (c ∷ cs) =
    let e : acc + (c.delta + d) ≡ acc + d + c.delta = omega arith in rw e

-- Taking a call out leaves every other call with the visits that it had.
pub positions-unlink :
    (test : PendingCall → Bool) (acc : ℕ) (cs : List PendingCall)
    → IsPlaceless test
    → positions acc (unlink test cs) ≡ take_out test (positions acc cs)
unfolding unlink positions take_out
positions-unlink test acc [] placeless = refl
positions-unlink test acc (c ∷ cs) placeless = elim (Bool-cases (test c)) [
  | inl hit ↦ rw (placeless c 0, hit, positions-absorb acc c.delta cs)
  | inr miss ↦ rw (placeless c 0, miss, positions-unlink test (acc + c.delta) cs placeless)
]

pub positions-unlink_all :
    (test : PendingCall → Bool) (carried acc : ℕ) (cs : List PendingCall)
    → IsPlaceless test
    → positions acc (unlink_all test carried cs) ≡ take_out_all test (positions (acc + carried) cs)
unfolding unlink_all positions take_out_all
positions-unlink_all test carried acc [] placeless = refl
positions-unlink_all test carried acc (c ∷ cs) placeless =
    let e : acc + carried + c.delta ≡ acc + (c.delta + carried) = omega arith in
    let p = placeless c (c.delta + carried) in
    elim (Bool-cases (test c)) [
      | inl hit ↦ rw (
        placeless c 0,
        p,
        unlink_all,
        hit,
        e,
        positions-unlink_all test (c.delta + carried) acc cs placeless,
      )
      | inr miss ↦ rw (
        placeless c 0,
        p,
        unlink_all,
        miss,
        e,
        positions-unlink_all test 0 (acc + (c.delta + carried)) cs placeless,
        add-zero,
      )
    ]

-- The sum that a search finds is the call's position.
pub search_chain-insert :
    (h acc delay : ℕ) (cop : PendingCall) (cs : List PendingCall)
    → cop.handle ≡ h
    → All (λ c. c.handle ≢ h) cs
    → (d : ℕ) × (search_chain (has_handle h) acc (insert delay cop cs)
        ≡ some (acc + delay, record cop { delta = d }))
unfolding search_chain insert
search_chain-insert h acc delay cop [] e fresh = (delay, ground arith)
search_chain-insert h acc delay cop (c ∷ cs) e fresh = elim (Bool-cases (leb delay c.delta)) [
  | inl small ↦ let same : (cop.handle == h) ≡ true = ground arith in (delay, rw (small, same))
  | inr large ↦
      let sum : acc + c.delta + (delay - c.delta) ≡ acc + delay = ground arith in
      let other : (c.handle == h) ≡ false = ground (arith, fresh.0) in
      let (d, found) = search_chain-insert h (acc + c.delta) (delay - c.delta) cop cs e fresh.1 in
      (d, rw (large, other, found, sum))
]

pub unlink-insert :
    (h delay : ℕ) (cop : PendingCall) (cs : List PendingCall)
    → cop.handle ≡ h
    → All (λ c. c.handle ≢ h) cs
    → unlink (has_handle h) (insert delay cop cs) ≡ cs
unfolding unlink insert absorb
unlink-insert h delay cop [] e fresh = ground arith
unlink-insert h delay cop (c ∷ cs) e fresh = elim (Bool-cases (leb delay c.delta)) [
  | inl small ↦
      let sum : c.delta - delay + delay ≡ c.delta = ground arith in
      let same : (cop.handle == h) ≡ true = ground arith in rw (small, same, sum)
  | inr large ↦
      let other : (c.handle == h) ≡ false = ground (arith, fresh.0) in
      rw (large, other, unlink-insert h (delay - c.delta) cop cs e fresh.1)
]
