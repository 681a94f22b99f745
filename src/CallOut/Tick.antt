-- ===== src/CallOut/Tick.antt =====
-- The end of the rounds of `call_out` in src/call_out.c, and its clock.
use mudos_v22pre.Prelude.{
  ℕ, zero, suc, ◌+◌, ◌-◌, ◌%◌, ◌≤◌, ◌<◌, ◌≡◌, ◌≢◌, refl, ap, ◌∙◌, Bool, inl, inr, some, List, [],
  ◌∷◌, ◌++◌, arith, ltb, leb, ◌==◌, if◌then◌else◌, Bool-cases, update, update_self, length,
}
use mathlib.Core.Option
use mudos_v22pre.CallOut.Chain.{PendingCall, insert, absorb, unlink}
use mudos_v22pre.CallOut.State.{World, CallOuts, start_clock}
use mudos_v22pre.CallOut.Clock.{
  Request, Apply, request_of, push_effects, is_dead, is_illegal, make_call, run_due, tick, ticks,
  free_left, call_out, next_second,
}

-- The calls at the head of a chain that wait for nothing.
unfoldable pub due_count : List PendingCall → ℕ
due_count [] = 0
due_count (c ∷ cs) = if c.delta == 0 then suc (due_count cs) else 0

-- A called function puts no call in front of those that are due, and leaves a running clock alone.
-- `insert` and `unlink` keep to this.
pub record IsTame (apply : Apply) : Type 0 where
  pub no_new :
      (r : Request) (s : CallOuts) (i : ℕ)
      → due_count ((apply r s).call_list i) ≤ due_count (s.call_list i)
  pub clock :
      (r : Request) (s : CallOuts)
      → s.call_out_time ≢ 0
      → (apply r s).call_out_time ≡ s.call_out_time

due_count-insert :
    (delay : ℕ) (cop : PendingCall) (cs : List PendingCall)
    → 1 ≤ delay
    → due_count (insert delay cop cs) ≤ due_count cs
unfolding due_count insert
due_count-insert delay cop [] h = ground arith
due_count-insert delay cop (c ∷ cs) h = elim (Bool-cases (leb delay c.delta)) [
  | inl small ↦ rw small (ground arith)
  | inr large ↦ rw large (ground (arith, due_count-insert (delay - c.delta) cop cs))
]

due_count-absorb : (d : ℕ) (cs : List PendingCall) → due_count (absorb d cs) ≤ due_count cs
unfolding due_count absorb
due_count-absorb d [] = omega arith
due_count-absorb d (c ∷ cs) = ground arith

due_count-absorbed :
    (c : PendingCall) (cs : List PendingCall) → due_count (absorb c.delta cs) ≤ due_count (c ∷ cs)
unfolding due_count absorb
due_count-absorbed c [] = ground arith
due_count-absorbed c (b ∷ cs) = ground arith

due_count-cons :
    (c : PendingCall) (ks bs : List PendingCall)
    → due_count ks ≤ due_count bs
    → due_count (c ∷ ks) ≤ due_count (c ∷ bs)
unfolding due_count
due_count-cons c ks bs h = ground arith

due_count-unlink :
    (test : PendingCall → Bool) (cs : List PendingCall) → due_count (unlink test cs) ≤ due_count cs
unfolding unlink
due_count-unlink test [] = omega arith
due_count-unlink test (c ∷ cs) = elim (Bool-cases (test c)) [
  | inl hit ↦ rw hit (due_count-absorbed c cs)
  | inr miss ↦ rw miss (due_count-cons c (unlink test cs) cs (due_count-unlink test cs))
]

pub due_count-le : (cs : List PendingCall) → due_count cs ≤ length cs
unfolding due_count
due_count-le [] = omega arith
due_count-le (c ∷ cs) = ground (arith, due_count-le cs)

module _ (w : World) (apply : Apply) (tame : IsTame apply) where
  -- Making a call adds none that is due, and leaves the clock.
  make_call-tame :
      (c : PendingCall) (s : CallOuts) (i : ℕ)
      → s.call_out_time ≢ 0
      → (due_count ((make_call w apply c s).call_list i) ≤ due_count (s.call_list i))
        × ((make_call w apply c s).call_out_time ≡ s.call_out_time)
  unfolding make_call
  make_call-tame c s i h =
      let pushed = record s { cop = some c; trace = push_effects w c.vs ++ s.trace } in
      elim (Bool-cases (is_dead w c.callee)) [
        | inl dead ↦ rw dead (omega arith, refl)
        | inr alive ↦ rw alive (elim (Bool-cases (is_illegal c.callee)) [
          | inl illegal ↦ rw illegal (omega arith, refl)
          | inr legal ↦
              rw legal (tame.no_new (request_of w c) pushed i, tame.clock (request_of w c) pushed h)
        ])
      ]

  run_due_total :
      (n slot : ℕ) (s : CallOuts) (cs : List PendingCall)
      → s.call_list slot ≡ cs
      → due_count cs < n
      → s.call_out_time ≢ 0
      → (s' : CallOuts) × (run_due n w apply slot s ≡ some s')
        × (s'.call_out_time ≡ s.call_out_time)
  unfolding run_due due_count
  run_due_total zero slot s cs e h k = absurd (omega arith)
  run_due_total (suc n) slot s [] e h k = (s, rw (run_due, e), refl)
  run_due_total (suc n) slot s (c ∷ cs) e h k = elim (Bool-cases (c.delta == 0)) [
    | inr later ↦ (s, rw (run_due, e, later), refl)
    | inl now ↦
        let s₁ = make_call w apply c (record s { call_list = update s.call_list slot cs }) in
        let (le, same) =
          make_call-tame c (record s { call_list = update s.call_list slot cs }) slot k in
        let fewer : due_count (s₁.call_list slot) < n =
          let le' : due_count (s₁.call_list slot) ≤ due_count cs = rw update_self at le in
          ground (arith) in
        let (s', run, t) = run_due_total n slot s₁ (s₁.call_list slot) refl fewer (rw same k) in
        (s', rw (run_due, e, now) run, t ∙ same)
  ]

  tick_of :
      (s : CallOuts) (cs : List PendingCall)
      → s.call_list ((s.call_out_time + 1) % 32) ≡ cs
      → s.call_out_time ≢ 0
      → (s' : CallOuts) × (tick w apply s ≡ some s') × (s'.call_out_time ≡ s.call_out_time + 1)
  unfolding tick
  tick_of s [] e h = (next_second s, rw (tick, e), refl)
  tick_of s (c ∷ cs) e h = elim (Bool-cases (c.delta == 1)) [
    | inr later ↦
        let tm = (s.call_out_time + 1) % 32 in
        let chain = record c { delta = c.delta - 1 } ∷ cs in
        (
          next_second (record s { call_list = update s.call_list tm chain }),
          rw (tick, e, later),
          refl,
        )
    | inl now ↦
        let tm = (s.call_out_time + 1) % 32 in
        let chain = record c { delta = c.delta - 1 } ∷ cs in
        let (s', run, same) =
          run_due_total (suc (length chain)) tm
            (record s { call_list = update s.call_list tm chain }) chain
            (update_self s.call_list tm chain) (omega (arith, due_count-le chain)) h in
        (next_second s', rw (tick, e, now, run), ap (λ t. t + 1) same)
  ]

  -- A round of the outer loop ends, one second later.
  pub tick_total :
      (s : CallOuts)
      → s.call_out_time ≢ 0
      → (s' : CallOuts) × (tick w apply s ≡ some s') × (s'.call_out_time ≡ s.call_out_time + 1)
  tick_total s h = tick_of s (s.call_list ((s.call_out_time + 1) % 32)) refl h

  ticks_total :
      (n : ℕ) (s : CallOuts)
      → s.call_out_time ≢ 0
      → s.call_out_time ≤ w.current_time
      → w.current_time - s.call_out_time < n
      → (s' : CallOuts) × (ticks n w apply s ≡ some s') × (s'.call_out_time ≡ w.current_time)
  unfolding ticks Option.bind
  ticks_total zero s h k m = absurd (omega arith)
  ticks_total (suc n) s h k m = elim (Bool-cases (ltb s.call_out_time w.current_time)) [
    | inr done ↦ (s, rw (ticks, done), ground arith)
    | inl more ↦
        let (s₁, run, t) = tick_total s h in
        let less : s.call_out_time < w.current_time = ground arith in
        let (s', rest, u) = ticks_total n s₁ (omega arith) (omega arith) (omega arith) in
        (s', rw (ticks, more, run) rest, u)
  ]

  started :
      (s : CallOuts)
      → w.current_time ≢ 0
      → s.call_out_time ≤ w.current_time
      → ((start_clock w (free_left s)).call_out_time ≢ 0)
        × ((start_clock w (free_left s)).call_out_time ≤ w.current_time)
  unfolding start_clock free_left
  started s h k = ground arith

  -- If the called functions put no call in front of those that are due and leave the clock, and the
  -- clock is not ahead of the time, which is not 0, `call_out` ends, with the clock at the current time.
  pub call_out_total :
      (s : CallOuts)
      → w.current_time ≢ 0
      → s.call_out_time ≤ w.current_time
      → (s' : CallOuts) × (call_out w apply s ≡ some s') × (s'.call_out_time ≡ w.current_time)
  unfolding call_out
  call_out_total s h k =
      let s₁ = start_clock w (free_left s) in
      ticks_total (suc (w.current_time - s₁.call_out_time)) s₁ (started s h k).0 (started s h k).1
        (omega arith)
