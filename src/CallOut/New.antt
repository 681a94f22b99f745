-- ===== src/CallOut/New.antt =====
-- What `new_call_out` does to the table, to the free list and to the references.
use mudos_v22pre.Prelude.{
  ℕ, suc, ◌+◌, ◌%◌, ◌≤◌, ◌<◌, ◌≡◌, ◌≢◌, refl, ◌∙◌, subst, inl, inr, some, List, arith, ◌==◌,
  if◌then◌else◌, Bool-cases, All, update_self, update-update, update_id,
}
use native.Mathlib.Nat.{zero-add}
use mudos_v22pre.Prelude.Int.{pos}
use mudos_v22pre.CallOut.Chain.{Svalue, Callee, PendingCall, insert, search_chain}
use mudos_v22pre.CallOut.State.{
  World, CallOuts, take_free, start_clock, free_call, free_called_call,
}
use mudos_v22pre.CallOut.Api.{
  at_least_one, slot_of, visits_of, fill_call, link_call, new_call_out, has_handle, time_left,
  find_call_out_by_handle, remove_call_out_by_handle, drop_from,
}
use mudos_v22pre.CallOut.Search.{find-found, remove-found}
use mudos_v22pre.CallOut.Schedule.{place, search_chain-insert, unlink-insert}
use mudos_v22pre.CallOut.Timing.{due-slot_of, time_left-new}
use mudos_v22pre.CallOut.Valid.{IsValid, IsChain, IsChain-mono, IsChain-insert, fresh_handle}
use mudos_v22pre.CallOut.Agenda.{agenda, agenda-insert}

-- The state in which the call is linked in.
abbrev pub prepared : World → CallOuts → CallOuts
prepared w s = take_free (start_clock w s)

pub record IsPrepared (w : World) (s p : CallOuts) : Type 0 where
  pub call_list : p.call_list ≡ s.call_list
  pub unique : p.unique ≡ s.unique
  pub cop : p.cop ≡ s.cop
  pub clock : p.call_out_time ≤ w.current_time
  pub started : s.call_out_time ≢ 0 → p.call_out_time ≡ s.call_out_time

-- The clock is not ahead of the time.
abbrev pub IsOnTime : World → CallOuts → Type 0
IsOnTime w s = s.call_out_time ≤ w.current_time

prepared-IsPrepared : (w : World) (s : CallOuts) → IsOnTime w s → IsPrepared w s (prepared w s)
unfolding take_free start_clock
prepared-IsPrepared w s h = record {
  call_list = ground arith;
  unique = ground arith;
  cop = ground arith;
  clock = ground arith;
  started = ground arith;
}

prepared-IsValid : (w : World) (s : CallOuts) → IsOnTime w s → IsValid s → IsValid (prepared w s)
prepared-IsValid w s h v =
    let q = prepared-IsPrepared w s h in
    record { chain = λ i. rw (q.call_list, q.unique) (v.chain i) }

at_least_one-pos : (delay : ℕ) → 1 ≤ at_least_one delay
at_least_one-pos delay = ground arith

visits_of-pos : (w : World) (p : CallOuts) (d : ℕ) → 1 ≤ visits_of w p d
unfolding visits_of
visits_of-pos w p d = omega arith

slot_of-lt : (w : World) (d : ℕ) → slot_of w d < 32
unfolding slot_of
slot_of-lt w d = omega arith

-- The call is linked into a state that is ready for it.
module _ (w : World) (p : CallOuts) (fun : Callee) (d : ℕ) (args : List Svalue) (v : IsValid p)
    (on_time : IsOnTime w p) (d-pos : 1 ≤ d) where
  abbrev cop : PendingCall
  cop = fill_call w p d fun args

  handle_mod : cop.handle % 32 ≡ slot_of w d
  unfolding fill_call slot_of
  handle_mod = omega arith

  fresh : All (λ c. c.handle ≢ cop.handle) (p.call_list (slot_of w d))
  unfolding fill_call
  fresh =
      fresh_handle p.unique (slot_of w d) _ (p.call_list (slot_of w d)) (v.chain (slot_of w d)).1
        (omega arith)

  linked-IsChain :
      IsChain
        (suc p.unique)
        (slot_of w d)
        (insert (visits_of w p d) cop (p.call_list (slot_of w d)))
  unfolding fill_call
  linked-IsChain =
      IsChain-insert (suc p.unique) (slot_of w d) (visits_of w p d) cop (p.call_list (slot_of w d))
        (visits_of-pos w p d) (handle_mod, omega (arith, slot_of-lt w d))
        (IsChain-mono p.unique (suc p.unique) (slot_of w d) _ (omega arith) (v.chain (slot_of w d)))

  link_call-IsValid : IsValid (link_call w p d cop).0
  unfolding link_call
  link_call-IsValid = record {
    chain = λ i. elim (Bool-cases (i == slot_of w d)) [
      | inl here ↦ let e : i ≡ slot_of w d = ground arith in rw here (rw e linked-IsChain)
      | inr there ↦ rw there (IsChain-mono p.unique (suc p.unique) i _ (omega arith) (v.chain i))
    ];
  }

  linked-found :
      (e : ℕ) × (search_chain
          (has_handle cop.handle)
          0
          ((link_call w p d cop).0.call_list (slot_of w d))
        ≡ some (visits_of w p d, record cop { delta = e }))
  unfolding link_call
  linked-found =
      let (e, found) =
        search_chain-insert cop.handle 0 (visits_of w p d) cop (p.call_list (slot_of w d)) refl
          fresh in
      (e, rw (update_self, found, zero-add))

  time_left-linked : time_left w (link_call w p d cop).0 (slot_of w d) (visits_of w p d) ≡ pos d
  unfolding link_call visits_of
  time_left-linked = time_left-new w (link_call w p d cop).0 d on_time d-pos

  link_call-find : find_call_out_by_handle w cop.handle (link_call w p d cop).0 ≡ pos d
  link_call-find =
      let (e, found) = linked-found in
      find-found w (link_call w p d cop).0 cop.handle (slot_of w d) handle_mod found
      ∙ time_left-linked

  link_call-agenda :
      (i : ℕ)
      → agenda p.call_out_time i ((link_call w p d cop).0.call_list i) ≡ (
          if i == slot_of w d
          then place (w.current_time + d) cop (agenda p.call_out_time i (p.call_list i))
          else agenda p.call_out_time i (p.call_list i))
  unfolding link_call
  link_call-agenda i = elim (Bool-cases (i == slot_of w d)) [
    | inl here ↦
        let e : i ≡ slot_of w d = ground arith in
        rw here (
          rw (
            e,
            agenda-insert p.call_out_time (slot_of w d) (visits_of w p d) cop
                (p.call_list (slot_of w d)) (visits_of-pos w p d) (v.chain (slot_of w d)).0,
            due-slot_of w p d on_time d-pos,
          ))
    | inr there ↦ rw there
  ]

  link_call-agenda_of :
      (t : ℕ → List PendingCall)
      → p.call_list ≡ t
      → (i : ℕ)
      → agenda p.call_out_time i ((link_call w p d cop).0.call_list i) ≡ (
          if i == slot_of w d
          then place (w.current_time + d) cop (agenda p.call_out_time i (t i))
          else agenda p.call_out_time i (t i))
  link_call-agenda_of t e i =
      subst
        (λ l. agenda p.call_out_time i ((link_call w p d cop).0.call_list i) ≡ (
          if i == slot_of w d
          then place (w.current_time + d) cop (agenda p.call_out_time i (l i))
          else agenda p.call_out_time i (l i)))
        e (link_call-agenda i)

  -- Taking it out again leaves the table as it was.
  drop-linked :
      (c : PendingCall)
      → (drop_from (has_handle cop.handle) (slot_of w d) c (link_call w p d cop).0).call_list
        ≡ p.call_list
  unfolding link_call drop_from free_call free_called_call
  drop-linked c =
      rw
        (
          update_self,
          update-update,
          unlink-insert cop.handle (visits_of w p d) cop (p.call_list (slot_of w d)) refl fresh,
        )
        (update_id p.call_list (slot_of w d))

  link_call-remove :
      let r = remove_call_out_by_handle w cop.handle (link_call w p d cop).0 in
      (r.1 ≡ pos d) × (r.0.call_list ≡ p.call_list)
  link_call-remove =
      let (e, found) = linked-found in
      rw (remove-found w (link_call w p d cop).0 cop.handle (slot_of w d) handle_mod found)
        (time_left-linked, drop-linked _)

module _ (w : World) (s : CallOuts) (fun : Callee) (delay : ℕ) (args : List Svalue) (v : IsValid s)
    (on_time : IsOnTime w s) where
  abbrev result : CallOuts × ℕ
  result = new_call_out w fun delay args s

  -- If the table is in order and its clock not ahead of the time, a new call leaves it in order: each
  -- handle names its slot, and no chain starts by a call that is due.
  pub new_call_out-IsValid : IsValid (new_call_out w fun delay args s).0
  unfolding new_call_out
  new_call_out-IsValid =
      link_call-IsValid w (prepared w s) fun (at_least_one delay) args
        (prepared-IsValid w s on_time v) (prepared-IsPrepared w s on_time).clock
        (at_least_one-pos delay)

  -- If the table is in order and its clock not ahead of the time, the handle that `new_call_out`
  -- returns finds the call, with its whole delay left.
  pub new_call_out-find : find_call_out_by_handle w result.1 result.0 ≡ pos (at_least_one delay)
  unfolding new_call_out
  new_call_out-find =
      link_call-find w (prepared w s) fun (at_least_one delay) args (prepared-IsValid w s on_time v)
        (prepared-IsPrepared w s on_time).clock (at_least_one-pos delay)

  -- If the table is in order and its clock not ahead of the time, removing the new call by its handle
  -- returns its delay and gives back the slots as they were.
  pub new_call_out-remove :
      let r = remove_call_out_by_handle w result.1 result.0 in
      (r.1 ≡ pos (at_least_one delay)) × (r.0.call_list ≡ s.call_list)
  unfolding new_call_out
  new_call_out-remove =
      let q = prepared-IsPrepared w s on_time in
      let (left, table) =
        link_call-remove w (prepared w s) fun (at_least_one delay) args
          (prepared-IsValid w s on_time v) q.clock (at_least_one-pos delay) in
      (left, table ∙ q.call_list)

  -- If the table is in order and its clock not ahead of the time, the new call is placed at its second
  -- in the view by time, and no other call moves.
  pub new_call_out-agenda :
      (i : ℕ)
      → let d = at_least_one delay in
        let now = result.0.call_out_time in
        agenda now i (result.0.call_list i) ≡ (
          if i == slot_of w d
          then place
              (w.current_time + d)
              (fill_call w (prepared w s) d fun args)
              (agenda now i (s.call_list i))
          else agenda now i (s.call_list i))
  unfolding new_call_out link_call
  new_call_out-agenda i =
      let q = prepared-IsPrepared w s on_time in
      link_call-agenda_of w (prepared w s) fun (at_least_one delay) args
        (prepared-IsValid w s on_time v) q.clock (at_least_one-pos delay) s.call_list q.call_list i
