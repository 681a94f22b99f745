-- ===== src/CallOut/Remove.antt =====
-- What the removals of src/call_out.c leave in the table.
use mudos_v22pre.Prelude.{
  ℕ, zero, suc, ◌+◌, ◌%◌, ◌≤◌, ◌<◌, ◌≡◌, refl, sym, ap, ◌∙◌, Bool, true, false, inl, inr, none,
  some, List, [], ◌∷◌, arith, ltb, leb, ◌==◌, if◌then◌else◌, Bool-cases, Option-cases, ◌&&◌, ◌||◌,
  some_inj, update,
}
use mudos_v22pre.CallOut.Chain.{
  Callee, named, pointer, PendingCall, search_chain, unlink, unlink_all, all_unlinked,
}
use mudos_v22pre.CallOut.State.{World, CallOuts, free_call, free_called_call}
use mudos_v22pre.CallOut.Api.{
  has_handle, dies_with, search_slots, drop_from, free_calls, remove_all_from,
  find_call_out_by_handle, remove_call_out_by_handle, remove_all_call_out,
}
use mudos_v22pre.CallOut.Schedule.{take_out, take_out_all, IsPlaceless}
use mudos_v22pre.CallOut.Valid.{IsValid, IsChain-unlink, IsChain-unlink_all, IsValid-update}
use mudos_v22pre.CallOut.Agenda.{agenda, agenda-unlink, agenda-unlink_all}
use mudos_v22pre.CallOut.Search.{find-found, find-missing, remove-found, remove-missing}

search_chain-none :
    (test : PendingCall → Bool) (acc : ℕ) (cs : List PendingCall)
    → search_chain test acc cs ≡ none
    → unlink test cs ≡ cs
unfolding search_chain unlink
search_chain-none test acc [] h = refl
search_chain-none test acc (c ∷ cs) h = elim (Bool-cases (test c)) [
  | inl hit ↦ cc (rw hit at h)
  | inr miss ↦ rw (miss, search_chain-none test (acc + c.delta) cs (rw miss at h))
]

-- The record with a chain of one slot replaced, and what it says of the chains.
abbrev pub TakenOut : (PendingCall → Bool) → ℕ → CallOuts → CallOuts → Type 0
TakenOut test slot s s' =
    (i : ℕ)
    → agenda s'.call_out_time i (s'.call_list i) ≡ (
        if i == slot
        then take_out test (agenda s.call_out_time i (s.call_list i))
        else agenda s.call_out_time i (s.call_list i))

drop_from-table :
    (test : PendingCall → Bool) (i : ℕ) (c : PendingCall) (s : CallOuts)
    → ((drop_from test i c s).call_list ≡ update s.call_list i (unlink test (s.call_list i)))
      × ((drop_from test i c s).call_out_time ≡ s.call_out_time)
      × ((drop_from test i c s).unique ≡ s.unique)
unfolding drop_from free_call free_called_call
drop_from-table test i c s = (refl, refl, refl)

pub drop_from-TakenOut :
    (test : PendingCall → Bool) (slot : ℕ) (c : PendingCall) (s : CallOuts)
    → IsPlaceless test
    → TakenOut test slot s (drop_from test slot c s)
drop_from-TakenOut test slot c s placeless i =
    let (table, clock, u) = drop_from-table test slot c s in
    rw (table, clock)
      (elim (Bool-cases (i == slot)) [
        | inl here ↦
            let e : i ≡ slot = ground arith in
            rw here (rw e (agenda-unlink s.call_out_time slot test (s.call_list slot) placeless))
        | inr there ↦ rw there
      ])

pub drop_from-IsValid :
    (test : PendingCall → Bool) (slot : ℕ) (c : PendingCall) (s : CallOuts)
    → IsValid s
    → IsValid (drop_from test slot c s)
unfolding drop_from free_call free_called_call
drop_from-IsValid test slot c s v =
    let t =
      IsValid-update s slot (unlink test (s.call_list slot)) v
        (IsChain-unlink test s.unique slot (s.call_list slot) (v.chain slot)) in
    record { chain = t.chain }

kept-TakenOut :
    (test : PendingCall → Bool) (slot : ℕ) (s : CallOuts)
    → IsPlaceless test
    → search_chain test 0 (s.call_list slot) ≡ none
    → TakenOut test slot s s
kept-TakenOut test slot s placeless missing i = elim (Bool-cases (i == slot)) [
  | inl here ↦
      let e : i ≡ slot = ground arith in
      rw here (
        rw e (
          ap (agenda s.call_out_time slot)
            (sym (search_chain-none test 0 (s.call_list slot) missing))
          ∙ agenda-unlink s.call_out_time slot test (s.call_list slot) placeless))
  | inr there ↦ rw there
]

-- In a table that is in order, removing by handle answers what a search by the handle answers, takes out of the slot of the handle
-- the first call that has it, moves no other call, and keeps the table in order.
pub remove_call_out_by_handle-TakenOut :
    (w : World) (h : ℕ) (s : CallOuts)
    → IsValid s
    → let r = remove_call_out_by_handle w h s in
      (r.1 ≡ find_call_out_by_handle w h s) × TakenOut (has_handle h) (h % 32) s r.0 × IsValid r.0
remove_call_out_by_handle-TakenOut w h s v =
    elim (Option-cases (search_chain (has_handle h) 0 (s.call_list (h % 32)))) [
      | inl missing ↦ rw (remove-missing w s h (h % 32) refl missing) (
        sym (find-missing w s h (h % 32) refl missing),
        kept-TakenOut (has_handle h) (h % 32) s (λ c d. refl) missing,
        v,
      )
      | inr (p, found) ↦ rw (remove-found w s h (h % 32) refl found) (
        sym (find-found w s h (h % 32) refl found),
        drop_from-TakenOut (has_handle h) (h % 32) p.1 s (λ c d. refl),
        drop_from-IsValid (has_handle h) (h % 32) p.1 s v,
      )
    ]

-- The first slot with such a call; the slots before it have none.
pub search_slots-some :
    (test : PendingCall → Bool) (s : CallOuts) (i n : ℕ) (r : ℕ × ℕ × PendingCall)
    → search_slots test s i n ≡ some r
    → (i ≤ r.0)
      × (r.0 < i + n)
      × (search_chain test 0 (s.call_list r.0) ≡ some (r.1, r.2))
      × ((j : ℕ) → i ≤ j → j < r.0 → search_chain test 0 (s.call_list j) ≡ none)
unfolding search_slots
search_slots-some test s i zero r h = cc
search_slots-some test s i (suc n) r h = elim (Option-cases (search_chain test 0 (s.call_list i))) [
  | inl missing ↦
      let (lo, hi, found, before) =
        search_slots-some test s (i + 1) n r (rw (search_slots, missing) at h) in
      (
        omega arith,
        omega arith,
        found,
        λ j p q. elim (Bool-cases (j == i)) [
          | inl here ↦ let e : j ≡ i = ground arith in rw e missing
          | inr there ↦ before j (ground arith) q
        ],
      )
  | inr (p, found) ↦
      let e : (i, p.0, p.1) ≡ r = some_inj (rw (search_slots, found) at h) in
      rw (← e) (omega arith, omega arith, found, λ j lo hi. absurd (omega arith))
]

pub search_slots-none :
    (test : PendingCall → Bool) (s : CallOuts) (i n : ℕ)
    → search_slots test s i n ≡ none
    → (j : ℕ) → i ≤ j
    → j < i + n
    → search_chain test 0 (s.call_list j) ≡ none
unfolding search_slots
search_slots-none test s i zero h j lo hi = absurd (omega arith)
search_slots-none test s i (suc n) h j lo hi =
    elim (Option-cases (search_chain test 0 (s.call_list i))) [
      | inr (p, found) ↦ cc (rw (search_slots, found) at h)
      | inl missing ↦ elim (Bool-cases (j == i)) [
        | inl here ↦ let e : j ≡ i = ground arith in rw e missing
        | inr there ↦
            search_slots-none test s (i + 1) n (rw (search_slots, missing) at h) j (ground arith)
              (omega arith)
      ]
    ]

free_calls-table :
    (cs : List PendingCall) (s : CallOuts)
    → ((free_calls cs s).call_list ≡ s.call_list)
      × ((free_calls cs s).call_out_time ≡ s.call_out_time)
      × ((free_calls cs s).unique ≡ s.unique)
unfolding free_calls
free_calls-table [] s = (refl, refl, refl)
free_calls-table (c ∷ cs) s = free_calls-table cs (free_call c s)

-- The object whose call it is: the one with the function, or the owner of the function pointer.
abbrev pub owner_of : Callee → ℕ
owner_of (named ob function) = ob
owner_of (pointer funp owner) = owner

-- A call of the object, or of one that is destructed.
abbrev pub belongs : World → ℕ → PendingCall → Bool
belongs w obj c = (owner_of c.callee == obj) || w.is_destructed (owner_of c.callee)

abbrev dies : World → ℕ → PendingCall → Bool
dies w obj c = dies_with w obj c.callee

dies_with-owner :
    (w : World) (obj : ℕ) (f : Callee)
    → dies_with w obj f ≡ ((owner_of f == obj) || w.is_destructed (owner_of f))
unfolding dies_with
dies_with-owner w obj (named ob function) = refl
dies_with-owner w obj (pointer funp owner) = refl

-- A sweep that begins at `i` treats slot `i`, and goes on behind it.
sweep_step :
    (f : List PendingCall → List PendingCall) (t : ℕ → List PendingCall) (i n j : ℕ)
    → let t' = update t i (f (t i)) in
      (if leb (i + 1) j && ltb j (i + 1 + n) then f (t' j) else t' j)
      ≡ (if leb i j && ltb j (i + suc n) then f (t j) else t j)
sweep_step f t i n j = elim (Bool-cases (j == i)) [
  | inl here ↦
      let e : j ≡ i = ground arith in
      let behind : leb (i + 1) j ≡ false = ground arith in
      let from : leb i j ≡ true = ground arith in
      let below : ltb j (i + suc n) ≡ true = ground arith in rw (here, behind, from, below) (rw e)
  | inr there ↦
      let from : leb (i + 1) j ≡ leb i j = ground arith in
      let below : ltb j (i + 1 + n) ≡ ltb j (i + suc n) = ground arith in rw (there, from, below)
]

remove_all_from-table :
    (w : World) (obj i n : ℕ) (s : CallOuts)
    → let r = remove_all_from w obj i n s in
      ((j : ℕ)
        → r.call_list j ≡ (
            if leb i j && ltb j (i + n)
            then unlink_all (dies w obj) 0 (s.call_list j)
            else s.call_list j))
      × (r.call_out_time ≡ s.call_out_time)
      × (r.unique ≡ s.unique)
unfolding remove_all_from
remove_all_from-table w obj i zero s = (λ j. ground arith, refl, refl)
remove_all_from-table w obj i (suc n) s =
    let chain = unlink_all (dies w obj) 0 (s.call_list i) in
    let s₁ = record s { call_list = update s.call_list i chain } in
    let s₂ = free_calls (all_unlinked (dies w obj) (s.call_list i)) s₁ in
    let (table, clock, u) = free_calls-table (all_unlinked (dies w obj) (s.call_list i)) s₁ in
    let (rest, clock', u') = remove_all_from-table w obj (i + 1) n s₂ in
    (
      λ j. rest j ∙ rw table (sweep_step (unlink_all (dies w obj) 0) s.call_list i n j),
      clock' ∙ clock,
      u' ∙ u,
    )

remove_all_from-IsValid :
    (w : World) (obj i n : ℕ) (s : CallOuts) → IsValid s → IsValid (remove_all_from w obj i n s)
remove_all_from-IsValid w obj i n s v =
    let (table, clock, u) = remove_all_from-table w obj i n s in
    record {
      chain = λ j.
          rw (u, table j)
            (elim (Bool-cases (leb i j && ltb j (i + n))) [
              | inl swept ↦
                  rw swept (IsChain-unlink_all (dies w obj) s.unique j (s.call_list j) (v.chain j))
              | inr kept ↦ rw kept (v.chain j)
            ]);
    }

-- In a table that was in order, once an object is destructed, each slot has lost the calls of functions
-- and function pointers that belong to the object or to any object that is destructed, and keeps all
-- other calls, in order and at their seconds. The table stays in order.
pub remove_all_call_out-agenda :
    (w : World) (obj : ℕ) (s : CallOuts) (j : ℕ)
    → IsValid s
    → j < 32
    → let r = remove_all_call_out w obj s in
      (agenda r.call_out_time j (r.call_list j)
        ≡ take_out_all (belongs w obj) (agenda s.call_out_time j (s.call_list j)))
      × IsValid r
unfolding remove_all_call_out
remove_all_call_out-agenda w obj s j v h =
    let (table, clock, u) = remove_all_from-table w obj 0 32 s in
    (
      let swept : (leb 0 j && ltb j (0 + 32)) ≡ true = ground arith in
          rw (clock, table j, swept)
            (agenda-unlink_all s.call_out_time j (dies w obj) (s.call_list j) (λ c d. refl)
              ∙ ap
                  (λ (t : PendingCall → Bool).
                    take_out_all t (agenda s.call_out_time j (s.call_list j)))
                  (λ k c. dies_with-owner w obj c.callee k)),
      remove_all_from-IsValid w obj 0 32 s v,
    )
