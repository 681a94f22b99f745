-- ===== src/CallOut/Due.antt =====
-- The calls of a slot that are due in a round of `call_out` in src/call_out.c, in the chain and in the
-- view by time, and the inner loop on them when the called functions leave the table alone.
use mudos_v22pre.Prelude.{
  ℕ, zero, suc, ◌+◌, ◌-◌, ◌%◌, ◌≤◌, ◌<◌, ◌≡◌, ◌≢◌, refl, sym, ap₂, ◌∙◌, true, false, inl, inr, none,
  some, List, [], ◌∷◌, ◌++◌, arith, ltb, ◌==◌, if◌then◌else◌, Bool-cases, update, update_self,
  update-update, update_id, All,
}
use mudos_v22pre.CallOut.Chain.{PendingCall}
use mudos_v22pre.CallOut.State.{Effect, World, CallOuts, args_effects, called_effects, free_array}
use mudos_v22pre.CallOut.Clock.{
  Request, Apply, request_of, push_effects, is_dead, is_illegal, make_call, run_due,
}
use mudos_v22pre.CallOut.Schedule.{positions, bare}
use mudos_v22pre.CallOut.Timing.{due, due-visited, due-passed, due_now}
use mudos_v22pre.CallOut.Agenda.{timed, Later, Later-waiting}
use mudos_v22pre.CallOut.Tick.{due_count}

-- A function that leaves the table alone.
abbrev pub observer : (Request → List Effect) → Apply
observer f r s = record s { trace = f r ++ s.trace }

pub drop_due : List PendingCall → List PendingCall
drop_due [] = []
drop_due (c ∷ cs) = if c.delta == 0 then drop_due cs else c ∷ cs

pub take_due : List PendingCall → List PendingCall
take_due [] = []
take_due (c ∷ cs) = if c.delta == 0 then bare c ∷ take_due cs else []

pub drop_due_none :
    (c : PendingCall) (cs : List PendingCall)
    → 1 ≤ c.delta
    → (drop_due (c ∷ cs) ≡ c ∷ cs) × (take_due (c ∷ cs) ≡ [])
unfolding drop_due take_due
drop_due_none c cs h = ground arith

-- The calls of an agenda at the second `t`, and its later part.
unfoldable pub calls_at : ℕ → List (ℕ × PendingCall) → List PendingCall
calls_at t [] = []
calls_at t ((e, c) ∷ rest) = if e == t then c ∷ calls_at t rest else calls_at t rest

unfoldable pub calls_after : ℕ → List (ℕ × PendingCall) → List (ℕ × PendingCall)
calls_after t [] = []
calls_after t ((e, c) ∷ rest) = if ltb t e then (e, c) ∷ calls_after t rest else calls_after t rest

-- What one call does, the latest first: a call of a destructed object is only freed.
pub effects_of : World → (Request → List Effect) → PendingCall → List Effect → List Effect
effects_of w f c tr =
    if is_dead w c.callee
    then called_effects c ++ (args_effects free_array c.vs ++ tr)
    else called_effects c
      ++ (if is_illegal c.callee
          then push_effects w c.vs ++ tr
          else f (request_of w c) ++ (push_effects w c.vs ++ tr))

unfoldable pub effects_all :
    World → (Request → List Effect) → List PendingCall → List Effect → List Effect
effects_all w f [] tr = tr
effects_all w f (c ∷ cs) tr = effects_all w f cs (effects_of w f c tr)

module _ (w : World) (f : Request → List Effect) where
  make_call-observer :
      (c : PendingCall) (s : CallOuts)
      → make_call w (observer f) c s ≡ record s {
        call_list_free = s.call_list_free + 1;
        cop = none;
        trace = effects_of w f (bare c) s.trace;
      }
  unfolding make_call effects_of request_of called_effects
  make_call-observer c s = elim (Bool-cases (is_dead w c.callee)) [
    | inl dead ↦ rw dead
    | inr alive ↦ rw alive (elim (Bool-cases (is_illegal c.callee)) [
      | inl illegal ↦ rw illegal
      | inr legal ↦ rw legal
    ])
  ]

  -- The inner loop makes the calls at the head that wait for nothing, and takes them out.
  pub run_due-observer :
      (n slot : ℕ) (s : CallOuts) (cs : List PendingCall)
      → s.call_list slot ≡ cs
      → due_count cs < n
      → (s' : CallOuts) × (run_due n w (observer f) slot s ≡ some s')
        × (s'.call_list ≡ update s.call_list slot (drop_due cs))
        × (s'.call_out_time ≡ s.call_out_time)
        × (s'.trace ≡ effects_all w f (take_due cs) s.trace)
  unfolding run_due due_count drop_due take_due effects_all
  run_due-observer zero slot s cs e h = absurd (omega arith)
  run_due-observer (suc n) slot s [] e h =
      (s, rw (run_due, e), rw (← e) (sym (update_id s.call_list slot)), refl, refl)
  run_due-observer (suc n) slot s (c ∷ cs) e h = elim (Bool-cases (c.delta == 0)) [
    | inr later ↦ (
      s,
      rw (run_due, e, later),
      rw later (rw (← e) (sym (update_id s.call_list slot))),
      refl,
      rw later,
    )
    | inl now ↦
        let s₁ = record s { call_list = update s.call_list slot cs } in
        let s₂ = record s₁ {
          call_list_free = s.call_list_free + 1;
          cop = none;
          trace = effects_of w f (bare c) s.trace;
        } in
        let (s', run, table, t, tr) =
          run_due-observer n slot s₂ cs (update_self s.call_list slot cs) (ground arith) in
        (
          s',
          rw (run_due, e, now, make_call-observer c s₁) run,
          rw now (table ∙ update-update s.call_list slot cs (drop_due cs)),
          t,
          rw now tr,
        )
  ]

-- One second on, a call of the visited slot waits for one visit less.
timed-visited :
    (now acc : ℕ) (cs : List PendingCall)
    → Later 1 (positions acc cs)
    → timed (now + 1) ((now + 1) % 32) (positions acc cs)
      ≡ timed now ((now + 1) % 32) (positions (suc acc) cs)
unfolding timed positions
timed-visited now acc [] h = refl
timed-visited now acc (c ∷ cs) h =
    let e : suc acc + c.delta ≡ suc (acc + c.delta) = omega arith in
    ap₂ (λ t rest. (t, bare c) ∷ rest) (rw e (due-visited now (acc + c.delta) h.0))
      (rw e (timed-visited now (acc + c.delta) cs h.1))

pub timed-passed :
    (now slot : ℕ) (ps : List (ℕ × PendingCall))
    → slot < 32
    → slot ≢ (now + 1) % 32
    → timed (now + 1) slot ps ≡ timed now slot ps
unfolding timed
timed-passed now slot [] h k = refl
timed-passed now slot ((d, c) ∷ rest) h k =
    ap₂ (λ t more. (t, c) ∷ more) (due-passed now slot d h k) (timed-passed now slot rest h k)

pub calls_after-All :
    (now slot : ℕ) (ps : List (ℕ × PendingCall))
    → slot < 32
    → All (λ p. now + 1 < due now slot p.0) ps
    → calls_after (now + 1) (timed now slot ps) ≡ timed now slot ps
unfolding calls_after timed
calls_after-All now slot [] h l = refl
calls_after-All now slot ((d, c) ∷ rest) h l =
    let later : ltb (now + 1) (due now slot d) ≡ true = ground (arith, l.0) in
    rw (later, calls_after-All now slot rest h l.1)

calls_at_none :
    (now slot : ℕ) (ps : List (ℕ × PendingCall))
    → All (λ p. now + 1 < due now slot p.0) ps
    → calls_at (now + 1) (timed now slot ps) ≡ []
unfolding calls_at timed
calls_at_none now slot [] l = refl
calls_at_none now slot ((d, c) ∷ rest) l =
    let later : (due now slot d == now + 1) ≡ false = ground (arith, l.0) in
    rw (later, calls_at_none now slot rest l.1)

-- In the visited slot those behind the first visit are later; in any other slot all are.
later_visited :
    (now n : ℕ) (cs : List PendingCall)
    → 2 ≤ n
    → All (λ p. now + 1 < due now ((now + 1) % 32) p.0) (positions n cs)
unfolding positions due
later_visited now n [] h = tt
later_visited now n (c ∷ cs) h = (omega arith, later_visited now (n + c.delta) cs (omega arith))

pub later_passed :
    (now slot : ℕ) (ps : List (ℕ × PendingCall))
    → slot < 32
    → slot ≢ (now + 1) % 32
    → All (λ p. now + 1 < due now slot p.0) ps
unfolding due
later_passed now slot [] h k = tt
later_passed now slot ((d, c) ∷ rest) h k = (omega arith, later_passed now slot rest h k)

later_waiting :
    (now : ℕ) (c : PendingCall) (cs : List PendingCall)
    → 1 ≤ c.delta
    → All (λ p. now + 1 < due now ((now + 1) % 32) p.0) (positions 1 (c ∷ cs))
unfolding positions due
later_waiting now c cs h = (omega arith, later_visited now (1 + c.delta) cs (omega arith))

-- A chain that waits is passed over.
waiting-calls_after :
    (now : ℕ) (c : PendingCall) (cs : List PendingCall)
    → 1 ≤ c.delta
    → let slot = (now + 1) % 32 in
      (timed (now + 1) slot (positions 0 (c ∷ cs))
        ≡ calls_after (now + 1) (timed now slot (positions 1 (c ∷ cs))))
      × ([] ≡ calls_at (now + 1) (timed now slot (positions 1 (c ∷ cs))))
waiting-calls_after now c cs h = (
  timed-visited now 0 (c ∷ cs) (Later-waiting (c ∷ cs) h)
      ∙ sym (
          calls_after-All now ((now + 1) % 32) (positions 1 (c ∷ cs)) (omega arith)
            (later_waiting now c cs h)),
  sym (calls_at_none now ((now + 1) % 32) (positions 1 (c ∷ cs)) (later_waiting now c cs h)),
)

-- What the inner loop drops from the lowered chain is what the agenda has at that second.
pub drop_due-calls_after :
    (now : ℕ) (cs : List PendingCall)
    → let slot = (now + 1) % 32 in
      (timed (now + 1) slot (positions 0 (drop_due cs))
        ≡ calls_after (now + 1) (timed now slot (positions 1 cs)))
      × (take_due cs ≡ calls_at (now + 1) (timed now slot (positions 1 cs)))
unfolding drop_due take_due calls_after calls_at positions timed
drop_due-calls_after now [] = (refl, refl)
drop_due-calls_after now (c ∷ cs) = elim (Bool-cases (c.delta == 0)) [
  | inl zero_left ↦
      let e : 1 + c.delta ≡ 1 = ground arith in
      let no : ltb (now + 1) (now + 1) ≡ false = ground arith in
      let same : (now + 1 == now + 1) ≡ true = ground arith in
      let (a, b) = drop_due-calls_after now cs in rw (zero_left, e, due_now now, no, same) (a, rw b)
  | inr waits ↦ rw waits (waiting-calls_after now c cs (ground arith))
]

-- The chain after its first delta is lowered, in the frame of the second before.
pub lowered_positions :
    (c : PendingCall) (cs : List PendingCall)
    → 1 ≤ c.delta
    → positions 1 (record c { delta = c.delta - 1 } ∷ cs) ≡ positions 0 (c ∷ cs)
unfolding positions
lowered_positions c cs h = let e : 1 + (c.delta - 1) ≡ 0 + c.delta = omega arith in rw e
