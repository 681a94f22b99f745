-- ===== src/Tests/CallOuts.antt =====
-- Runs of src/call_out.c at a small table, and its theorems there.
use mudos_v22pre.Prelude.{
  ℕ, ◌+◌, ◌≤◌, ◌≡◌, refl, false, none, some, List, [], ◌∷◌, arith, ◌==◌, if◌then◌else◌,
}
use mudos_v22pre.Prelude.Int.{pos}
use mudos_v22pre.CallOut.Chain
use mudos_v22pre.CallOut.Chain.{Callee, named, pointer, PendingCall, other}
use mudos_v22pre.CallOut.State
use mudos_v22pre.CallOut.State.{World, CallOuts, Effect, free_string}
use mudos_v22pre.CallOut.Api
use mudos_v22pre.CallOut.Api.{
  at_least_one, slot_of, fill_call, new_call_out, has_handle, find_call_out_by_handle,
  remove_call_out_by_handle, remove_call_out, remove_all_call_out,
}
use mudos_v22pre.CallOut.Listing.{current_length, get_all_call_outs}
use mudos_v22pre.CallOut.Listing
use mudos_v22pre.CallOut.Clock
use mudos_v22pre.CallOut.Clock.{Request, tick, call_out}
use mudos_v22pre.CallOut.Schedule.{place, take_out_all}
use mudos_v22pre.CallOut.Valid.{IsValid}
use mudos_v22pre.CallOut.Agenda.{agenda}
use mudos_v22pre.CallOut.New.{
  prepared, new_call_out-IsValid, new_call_out-find, new_call_out-remove, new_call_out-agenda,
}
use mudos_v22pre.CallOut.Tick.{IsTame, call_out_total}
use mudos_v22pre.CallOut.Due.{observer}
use mudos_v22pre.CallOut.Fired.{Fired, tick-Fired}
use mudos_v22pre.CallOut.Remove.{
  belongs, TakenOut, remove_call_out_by_handle-TakenOut, remove_all_call_out-agenda,
}
use mudos_v22pre.CallOut.ByName.{Removed, remove_call_out-Removed}
use mudos_v22pre.CallOut.Account.{IsAccounted, new_call_out-IsAccounted}

-- At second 100 nobody gives a command, and object 9 is destructed.
abbrev world : World
world = record {
  current_time = 100;
  command_giver = none;
  is_destructed = λ ob. ob == 9;
  is_listener = λ ob. false;
  shadows = λ ob. [];
}

abbrev empty : CallOuts
empty = record {
  call_list = λ i. [];
  call_list_free = 0;
  num_call = 0;
  call_out_time = 99;
  unique = 0;
  cop = none;
  trace = [];
}

-- "tick"
abbrev tick_name : List ℕ
tick_name = 116 ∷ 105 ∷ 99 ∷ 107 ∷ []

abbrev fun : Callee
fun = named 7 tick_name

empty-IsValid : IsValid empty
empty-IsValid = record { chain = λ i. (tt, tt) }

abbrev pending : CallOuts
pending = (new_call_out world fun 5 (other 3 ∷ []) empty).0

pending-IsValid : IsValid pending
pending-IsValid = new_call_out-IsValid world empty fun 5 (other 3 ∷ []) empty-IsValid (omega arith)

pending_on_time : pending.call_out_time ≤ 100
unfolding new_call_out
pending_on_time = omega arith

program : Unit {0}
unfolding new_call_out State.take_free State.start_clock Api.fill_call Api.link_call Chain.insert
    Chain.search_chain Chain.unlink Chain.absorb find_call_out_by_handle remove_call_out_by_handle
    Api.drop_from State.free_call State.free_called_call tick call_out Clock.ticks Clock.run_due
    Clock.make_call Clock.free_left Clock.request_of Clock.is_dead Clock.is_illegal Api.time_left
    remove_call_out Api.search_slots Api.calls
program = tt

-- The call waits for 5 seconds; its handle is that of slot 9 with the serial number 1.
find_pending : (new_call_out world fun 5 [] empty).1 ≡ 41
unfolding program
find_pending = refl

left_pending : find_call_out_by_handle world 41 pending ≡ pos 5
unfolding program
left_pending = refl

removed_pending : (remove_call_out world (some 7) tick_name pending).1 ≡ pos 5
unfolding program
removed_pending = refl

-- Within `call_out` at second 100, after its slot is lowered, a delay of 32 becomes 64 once the
-- second is counted.
late_by_a_cycle :
    find_call_out_by_handle world 36
      (record (new_call_out world fun 32 [] empty).0 { call_out_time = 100 })
    ≡ pos 64
unfolding program
late_by_a_cycle = refl

new_call_out-find_example :
    find_call_out_by_handle world
      (new_call_out world fun 0 [] pending).1
      (new_call_out world fun 0 [] pending).0
    ≡ pos 1
new_call_out-find_example = new_call_out-find world pending fun 0 [] pending-IsValid pending_on_time

new_call_out-remove_example :
    let n = new_call_out world fun 8 [] pending in
    let r = remove_call_out_by_handle world n.1 n.0 in
    (r.1 ≡ pos 8) × (r.0.call_list ≡ pending.call_list)
new_call_out-remove_example =
    new_call_out-remove world pending fun 8 [] pending-IsValid pending_on_time

new_call_out-agenda_example :
    let now = (new_call_out world fun 5 [] pending).0.call_out_time in
    agenda now 9 ((new_call_out world fun 5 [] pending).0.call_list 9) ≡ (
      if 9 == slot_of world 5
      then place 105
          (fill_call world (prepared world pending) 5 fun [])
          (agenda now 9 (pending.call_list 9))
      else agenda now 9 (pending.call_list 9))
new_call_out-agenda_example =
    new_call_out-agenda world pending fun 5 [] pending-IsValid pending_on_time 9

new_call_out-IsValid_example : IsValid (new_call_out world fun 5 [] pending).0
new_call_out-IsValid_example =
    new_call_out-IsValid world pending fun 5 [] pending-IsValid pending_on_time

abbrev effects : Request → List Effect
effects r = free_string tick_name ∷ []

-- A call of second 100 is pending.
abbrev due_next : CallOuts
due_next = record (new_call_out world fun 1 [] (record empty { call_out_time = 100 })).0 {
  call_out_time = 100;
}

due_next-IsValid : IsValid due_next
due_next-IsValid =
    let v =
      new_call_out-IsValid world (record empty { call_out_time = 100 }) fun 1 []
        (record { chain = λ i. (tt, tt) }) (omega arith) in
    record { chain = v.chain }

tick-Fired_example :
    (s' : CallOuts) × (tick world (observer effects) due_next ≡ some s')
    × Fired world effects due_next s'
tick-Fired_example = tick-Fired world effects due_next due_next-IsValid

observer-IsTame : IsTame (observer effects)
observer-IsTame = record { no_new = λ r s i. omega arith; clock = λ r s h. refl }

call_out_total_example :
    (s' : CallOuts) × (call_out world (observer effects) pending ≡ some s')
    × (s'.call_out_time ≡ 100)
call_out_total_example =
    call_out_total world (observer effects) observer-IsTame pending (omega arith) pending_on_time

remove_call_out_by_handle-TakenOut_example :
    let r = remove_call_out_by_handle world 41 pending in
    (r.1 ≡ find_call_out_by_handle world 41 pending)
    × TakenOut (has_handle 41) 9 pending r.0
    × IsValid r.0
remove_call_out_by_handle-TakenOut_example =
    remove_call_out_by_handle-TakenOut world 41 pending pending-IsValid

remove_call_out-Removed_example :
    Removed world 7 tick_name pending (remove_call_out world (some 7) tick_name pending)
    × IsValid (remove_call_out world (some 7) tick_name pending).0
remove_call_out-Removed_example = remove_call_out-Removed world 7 tick_name pending pending-IsValid

remove_all_call_out-agenda_example :
    let r = remove_all_call_out world 7 pending in
    (agenda r.call_out_time 9 (r.call_list 9)
      ≡ take_out_all (belongs world 7) (agenda pending.call_out_time 9 (pending.call_list 9)))
    × IsValid r
remove_all_call_out-agenda_example =
    remove_all_call_out-agenda world 7 pending 9 pending-IsValid (omega arith)

empty-IsAccounted : IsAccounted empty
unfolding current_length Listing.count_calls Listing.count_chain
empty-IsAccounted = refl

new_call_out-IsAccounted_example :
    let s' = (new_call_out world fun 5 [] empty).0 in
    IsAccounted s'
    × (current_length s' ≡ current_length empty + 1)
    × (s'.call_list_free ≡ 19)
    × (s'.num_call ≡ 0 + 20)
new_call_out-IsAccounted_example = new_call_out-IsAccounted world fun 5 [] empty empty-IsAccounted
