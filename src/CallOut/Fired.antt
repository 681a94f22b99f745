-- ===== src/CallOut/Fired.antt =====
-- Which calls a round of `call_out` makes, and in which order: those of the slot whose second has
-- come. The called functions here leave the table alone; what they do is a list of effects.
use mudos_v22pre.Prelude.{
  ℕ, suc, ◌+◌, ◌-◌, ◌%◌, ◌≤◌, ◌<◌, ◌≡◌, ◌≢◌, refl, sym, ap, ◌∙◌, false, inl, inr, some, List, [],
  ◌∷◌, arith, ◌==◌, Bool-cases, update, update_self, update-update, update_id, length,
}
use mudos_v22pre.CallOut.Chain.{PendingCall}
use mudos_v22pre.CallOut.State.{Effect, World, CallOuts}
use mudos_v22pre.CallOut.Clock.{Request, tick, next_second}
use mudos_v22pre.CallOut.Schedule.{positions}
use mudos_v22pre.CallOut.Agenda.{timed, agenda}
use mudos_v22pre.CallOut.Valid.{IsWaiting, IsValid}
use mudos_v22pre.CallOut.Tick.{due_count-le}
use mudos_v22pre.CallOut.Due.{
  observer, drop_due, take_due, drop_due_none, calls_at, calls_after, effects_all, run_due-observer,
  timed-passed, calls_after-All, later_passed, drop_due-calls_after, lowered_positions,
}

-- A round, seen by time: exactly the calls of the next second are made, in the order in which they
-- stand, and every other call keeps its second.
pub record Fired (w : World) (f : Request → List Effect) (s s' : CallOuts) : Type 0 where
  pub clock : s'.call_out_time ≡ s.call_out_time + 1
  pub others : (i : ℕ) → i ≢ (s.call_out_time + 1) % 32 → s'.call_list i ≡ s.call_list i
  pub later :
      (i : ℕ)
      → i < 32
      → agenda s'.call_out_time i (s'.call_list i)
        ≡ calls_after (s.call_out_time + 1) (agenda s.call_out_time i (s.call_list i))
  pub made :
      let slot = (s.call_out_time + 1) % 32 in
      s'.trace
      ≡ effects_all w f
          (calls_at (s.call_out_time + 1) (agenda s.call_out_time slot (s.call_list slot)))
          s.trace

module _ (w : World) (f : Request → List Effect) (s : CallOuts) where
  abbrev slot : ℕ
  slot = (s.call_out_time + 1) % 32

  passed :
      (i : ℕ) (cs : List PendingCall)
      → i < 32
      → i ≢ slot
      → agenda (s.call_out_time + 1) i cs
        ≡ calls_after (s.call_out_time + 1) (agenda s.call_out_time i cs)
  unfolding agenda
  passed i cs h k =
      timed-passed s.call_out_time i (positions 0 cs) h k
      ∙ sym (
          calls_after-All s.call_out_time i (positions 0 cs) h
            (later_passed s.call_out_time i (positions 0 cs) h k))

  Fired-intro :
      (s' : CallOuts) (cs : List PendingCall)
      → s'.call_list ≡ update s.call_list slot cs
      → s'.call_out_time ≡ s.call_out_time + 1
      → (agenda (s.call_out_time + 1) slot cs
          ≡ calls_after (s.call_out_time + 1) (agenda s.call_out_time slot (s.call_list slot)))
      → (s'.trace
          ≡ effects_all w f
              (calls_at (s.call_out_time + 1) (agenda s.call_out_time slot (s.call_list slot)))
              s.trace)
      → Fired w f s s'
  Fired-intro s' cs table clock view trace = record {
    clock = clock;
    others = λ i k. let there : (i == slot) ≡ false = ground arith in rw table (rw there);
    later = λ i h.
        rw (clock, table)
          (elim (Bool-cases (i == slot)) [
            | inl here ↦ let e : i ≡ slot = ground arith in rw here (rw e view)
            | inr there ↦ let k : i ≢ slot = ground arith in rw there (passed i (s.call_list i) h k)
          ]);
    made = trace;
  }

  lowered :
      (c : PendingCall) (cs : List PendingCall)
      → s.call_list slot ≡ c ∷ cs
      → 1 ≤ c.delta
      → let chain = record c { delta = c.delta - 1 } ∷ cs in
        let old = agenda s.call_out_time slot (s.call_list slot) in
        (agenda (s.call_out_time + 1) slot (drop_due chain) ≡ calls_after (s.call_out_time + 1) old)
        × (take_due chain ≡ calls_at (s.call_out_time + 1) old)
  unfolding agenda
  lowered c cs e h =
      rw (e, ← lowered_positions c cs h)
        (drop_due-calls_after s.call_out_time (record c { delta = c.delta - 1 } ∷ cs))

  empty_chain :
      s.call_list slot ≡ []
      → (agenda (s.call_out_time + 1) slot []
          ≡ calls_after (s.call_out_time + 1) (agenda s.call_out_time slot (s.call_list slot)))
        × ([] ≡ calls_at (s.call_out_time + 1) (agenda s.call_out_time slot (s.call_list slot)))
  unfolding agenda positions timed calls_after calls_at
  empty_chain e = rw e (refl, refl)

  Fired-chain :
      (cs : List PendingCall)
      → s.call_list slot ≡ cs
      → IsWaiting cs
      → (s' : CallOuts) × (tick w (observer f) s ≡ some s') × Fired w f s s'
  unfolding tick effects_all
  Fired-chain [] e h =
      let (view, made) = empty_chain e in
      (
        next_second s,
        rw (tick, e),
        Fired-intro (next_second s) [] (rw (← e) (sym (update_id s.call_list slot))) refl view
            (ap (λ l. effects_all w f l s.trace) made),
      )
  Fired-chain (c ∷ cs) e h =
      let chain = record c { delta = c.delta - 1 } ∷ cs in
      let s₁ = record s { call_list = update s.call_list slot chain } in
      let (view, made) = lowered c cs e h in
      elim (Bool-cases (c.delta == 1)) [
        | inr later ↦
            let (kept, none_due) =
              drop_due_none (record c { delta = c.delta - 1 }) cs (ground arith) in
            (
              next_second s₁,
              rw (tick, e, later),
              Fired-intro (next_second s₁) (drop_due chain) (rw kept) refl view
                  (ap (λ l. effects_all w f l s.trace) (sym none_due ∙ made)),
            )
        | inl now ↦
            let (s', run, table, t, tr) =
              run_due-observer w f (suc (length chain)) slot s₁ chain
                (update_self s.call_list slot chain) (omega (arith, due_count-le chain)) in
            (
              next_second s',
              rw (tick, e, now, run),
              Fired-intro (next_second s') (drop_due chain)
                  (table ∙ update-update s.call_list slot chain (drop_due chain))
                  (ap (λ n. n + 1) t) view (tr ∙ ap (λ l. effects_all w f l s.trace) made),
            )
      ]

  -- If the table is in order and the called functions leave it alone, a round ends, makes the calls of
  -- its second in order, and leaves the others to their seconds.
  pub tick-Fired : IsValid s → (s' : CallOuts) × (tick w (observer f) s ≡ some s') × Fired w f s s'
  tick-Fired v = Fired-chain (s.call_list slot) refl (v.chain slot).0
