-- ===== src/CallOut/ByName.antt =====
-- `remove_call_out` of src/call_out.c, which looks for the first call of an object's function.
use mudos_v22pre.Prelude.{
  ℕ, ◌+◌, ◌≤◌, ◌<◌, ◌≡◌, ◌≢◌, refl, ap, ◌∙◌, Bool, true, false, inl, inr, none, some, List, [], ◌∷◌,
  ◌++◌, arith, ◌==◌, if◌then◌else◌, Bool-cases, Option-cases, some_inj, All, text_eq, text_eq→eq,
  text_eq_self,
}
use mudos_v22pre.Prelude.Int.{ℤ, negsuc, sub_ℕ}
use mudos_v22pre.CallOut.Chain.{Callee, named, pointer, PendingCall, search_chain}
use mudos_v22pre.CallOut.State.{World, CallOuts}
use mudos_v22pre.CallOut.Api.{calls, search_slots, remove_call_out}
use mudos_v22pre.CallOut.Schedule.{bare, positions, take_out}
use mudos_v22pre.CallOut.Timing.{due, time_left-due}
use mudos_v22pre.CallOut.Valid.{IsValid, IsWaiting}
use mudos_v22pre.CallOut.Agenda.{timed, agenda}
use mudos_v22pre.CallOut.Remove.{
  search_slots-some, search_slots-none, drop_from-TakenOut, drop_from-IsValid,
}

-- No entry of the agenda is a call of the object's function.
abbrev pub Lacks : ℕ → List ℕ → List (ℕ × PendingCall) → Type 0
Lacks ob fun = All (λ p. (p.1).callee ≢ named ob fun)

-- The outcome of `remove_call_out`: no slot has a call of the object's function; or the first in the
-- first slot that has one is taken out, and the time until its second is returned.
pub data Removed (w : World) (ob : ℕ) (fun : List ℕ) (s : CallOuts) (r : CallOuts × ℤ)
    : Type 0 where
  nothing :
      ((j : ℕ) → j < 32 → Lacks ob fun (agenda s.call_out_time j (s.call_list j)))
      → r ≡ (s, negsuc 0)
      → Removed w ob fun s r
  removed :
      (slot t : ℕ) (c : PendingCall) (before after : List (ℕ × PendingCall))
      → slot < 32
      → ((j : ℕ) → j < slot → Lacks ob fun (agenda s.call_out_time j (s.call_list j)))
      → agenda s.call_out_time slot (s.call_list slot) ≡ before ++ (t, c) ∷ after
      → Lacks ob fun before
      → c.callee ≡ named ob fun
      → r.1 ≡ sub_ℕ t w.current_time
      → ((i : ℕ)
          → agenda (r.0).call_out_time i ((r.0).call_list i)
            ≡ (if i == slot then before ++ after else agenda s.call_out_time i (s.call_list i)))
      → Removed w ob fun s r

abbrev by_name : ℕ → List ℕ → PendingCall → Bool
by_name ob fun c = calls ob fun c.callee

calls_hit : (ob : ℕ) (fun : List ℕ) (f : Callee) → calls ob fun f ≡ true → f ≡ named ob fun
unfolding calls
calls_hit ob fun (named ob' function) h = elim (Bool-cases (text_eq function fun)) [
  | inl same ↦
      let e : ob' ≡ ob = ground arith in
      ap (λ o. named o function) e ∙ ap (named ob) (text_eq→eq function fun same)
  | inr differs ↦ absurd (ground arith)
]
calls_hit ob fun (pointer funp owner) h = absurd (cc h)

calls_self : (ob : ℕ) (fun : List ℕ) → calls ob fun (named ob fun) ≡ true
unfolding calls
calls_self ob fun = rw (text_eq_self fun) (ground arith)

calls_miss : (ob : ℕ) (fun : List ℕ) (f : Callee) → calls ob fun f ≡ false → f ≢ named ob fun
calls_miss ob fun f h e = cc (rw (e, calls_self ob fun) at h)

module _ (now slot ob : ℕ) (fun : List ℕ) where
  -- The agenda before and behind the call that a search finds.
  record Split (d : ℕ) (c : PendingCall) (ps : List (ℕ × PendingCall)) : Type 0 where
    before : List (ℕ × PendingCall)
    after : List (ℕ × PendingCall)
    whole : ps ≡ before ++ (due now slot d, bare c) ∷ after
    lacks : Lacks ob fun before
    hit : c.callee ≡ named ob fun
    left : take_out (by_name ob fun) ps ≡ before ++ after

  search-Split :
      (acc : ℕ) (cs : List PendingCall) (r : ℕ × PendingCall)
      → search_chain (by_name ob fun) acc cs ≡ some r
      → Split r.0 r.1 (timed now slot (positions acc cs))
  unfolding search_chain timed positions take_out
  search-Split acc [] r h = absurd (cc h)
  search-Split acc (c ∷ cs) r h = elim (Bool-cases (by_name ob fun c)) [
    | inl hit ↦
        let e : (acc + c.delta, c) ≡ r = some_inj (rw hit at h) in
        rw (← e) (record {
          before = [];
          after = timed now slot (positions (acc + c.delta) cs);
          whole = refl;
          lacks = tt;
          hit = calls_hit ob fun c.callee hit;
          left = rw hit;
        })
    | inr miss ↦
        let s = search-Split (acc + c.delta) cs r (rw miss at h) in
        let head : ℕ × PendingCall = (due now slot (acc + c.delta), bare c) in
        record {
          before = head ∷ s.before;
          after = s.after;
          whole = ap (λ l. head ∷ l) s.whole;
          lacks = (calls_miss ob fun c.callee miss, s.lacks);
          hit = s.hit;
          left = rw miss (ap (λ l. head ∷ l) s.left);
        }
  ]

  search-Lacks :
      (acc : ℕ) (cs : List PendingCall)
      → search_chain (by_name ob fun) acc cs ≡ none
      → Lacks ob fun (timed now slot (positions acc cs))
  unfolding search_chain timed positions
  search-Lacks acc [] h = tt
  search-Lacks acc (c ∷ cs) h = elim (Bool-cases (by_name ob fun c)) [
    | inl hit ↦ absurd (cc (rw hit at h))
    | inr miss ↦ (calls_miss ob fun c.callee miss, search-Lacks (acc + c.delta) cs (rw miss at h))
  ]

search_chain-from :
    (test : PendingCall → Bool) (acc : ℕ) (cs : List PendingCall) (r : ℕ × PendingCall)
    → search_chain test acc cs ≡ some r
    → acc ≤ r.0
unfolding search_chain
search_chain-from test acc [] r h = absurd (cc h)
search_chain-from test acc (c ∷ cs) r h = elim (Bool-cases (test c)) [
  | inl hit ↦
      let e : acc + c.delta ≡ r.0 = ap (λ (q : ℕ × PendingCall). q.0) (some_inj (rw hit at h)) in
      omega arith
  | inr miss ↦ omega (arith, search_chain-from test (acc + c.delta) cs r (rw miss at h))
]

-- In a chain that waits, a call that is found waits for a visit at least.
search_chain-waits :
    (test : PendingCall → Bool) (cs : List PendingCall) (r : ℕ × PendingCall)
    → IsWaiting cs
    → search_chain test 0 cs ≡ some r
    → 1 ≤ r.0
unfolding search_chain
search_chain-waits test [] r w h = absurd (cc h)
search_chain-waits test (c ∷ cs) r w h = elim (Bool-cases (test c)) [
  | inl hit ↦
      let e : 0 + c.delta ≡ r.0 = ap (λ (q : ℕ × PendingCall). q.0) (some_inj (rw hit at h)) in
      omega arith
  | inr miss ↦ omega (arith, search_chain-from test (0 + c.delta) cs r (rw miss at h))
]

-- In a table that is in order, removing by name takes the first call of the object's function out of the
-- first slot that has one, returns the time until the second at which it was due, and moves no other
-- call; with no such call it returns -1 and changes nothing. The table stays in order.
pub remove_call_out-Removed :
    (w : World) (ob : ℕ) (fun : List ℕ) (s : CallOuts)
    → IsValid s
    → let r = remove_call_out w (some ob) fun s in Removed w ob fun s r × IsValid r.0
unfolding remove_call_out agenda
remove_call_out-Removed w ob fun s v =
    let test = by_name ob fun in
    elim (Option-cases (search_slots test s 0 32)) [
      | inl missing ↦
          rw (remove_call_out, missing)
            (
              nothing
                  (λ j h.
                    search-Lacks s.call_out_time j ob fun 0 (s.call_list j)
                      (search_slots-none test s 0 32 missing j (omega arith) h))
                  refl,
              v,
            )
      | inr (p, found) ↦
          let (lo, hi, first, earlier) = search_slots-some test s 0 32 p found in
          let q = search-Split s.call_out_time p.0 ob fun 0 (s.call_list p.0) (p.1, p.2) first in
          let d = search_chain-waits test (s.call_list p.0) (p.1, p.2) (v.chain p.0).0 first in
          let out = drop_from-TakenOut test p.0 p.2 s (λ c d. refl) in
          rw (remove_call_out, found)
            (
              removed p.0 (due s.call_out_time p.0 p.1) (bare p.2) q.before q.after hi
                  (λ j h.
                    search-Lacks s.call_out_time j ob fun 0 (s.call_list j)
                      (earlier j (omega arith) h))
                  q.whole q.lacks q.hit (time_left-due w s p.0 p.1 hi d)
                  (λ i. out i ∙ at_slot i p.0 q.left),
              drop_from-IsValid test p.0 p.2 s v,
            )
    ]
  where
    at_slot :
        (i slot : ℕ) {new : List (ℕ × PendingCall)}
        → take_out (by_name ob fun) (agenda s.call_out_time slot (s.call_list slot)) ≡ new
        → (if i == slot
            then take_out (by_name ob fun) (agenda s.call_out_time i (s.call_list i))
            else agenda s.call_out_time i (s.call_list i))
          ≡ (if i == slot then new else agenda s.call_out_time i (s.call_list i))
    at_slot i slot e = elim (Bool-cases (i == slot)) [
      | inl here ↦ let k : i ≡ slot = ground arith in rw here (rw k e)
      | inr there ↦ rw there
    ]
