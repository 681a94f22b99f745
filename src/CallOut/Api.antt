-- ===== src/CallOut/Api.antt =====
-- The functions of src/call_out.c that other parts of the driver call, but for the clock.
use mudos_v22pre.Prelude.{
  ℕ, zero, suc, ◌+◌, ◌-◌, ◌*◌, ◌/◌, ◌%◌, Bool, false, ◌&&◌, ◌||◌, Option, none, some, List, [], ◌∷◌,
  ◌++◌, ltb, ◌==◌, if◌then◌else◌, update, text_eq,
}
use mudos_v22pre.Prelude.Int.{ℤ, negsuc, sub_ℕ}
use mudos_v22pre.CallOut.Chain.{
  Svalue, Callee, named, pointer, PendingCall, insert, search_chain, unlink, unlink_all,
  all_unlinked,
}
use mudos_v22pre.CallOut.State.{
  cycle_size, World, CallOuts, make_shared_string, add_ref, ref_funp, allocate_empty_array,
  giver_effects, args_effects, free_call, take_free, start_clock, Effect,
}

-- What `new_call_out` takes hold of, the latest first.
pub new_effects : PendingCall → List Effect
unfolding args_effects giver_effects
new_effects c =
    args_effects allocate_empty_array c.vs
    ++ giver_effects add_ref c.command_giver
    ++ elim c.callee [
      | named ob function ↦ add_ref ob ∷ make_shared_string function ∷ []
      | pointer funp owner ↦ ref_funp funp ∷ []
    ]

-- `cop->vs`
pub saved_args : List Svalue → Option (List Svalue)
saved_args [] = none
saved_args (a ∷ rest) = some (a ∷ rest)

-- `if (delay < 1) delay = 1`, where a negative delay is given as 0.
abbrev pub at_least_one : ℕ → ℕ
at_least_one delay = if ltb delay 1 then 1 else delay

-- `tm`, and the delay in visits of the slot. The sums of times are not bounded, where the source has
-- an `int`.
unfoldable pub slot_of : World → ℕ → ℕ
slot_of w delay = (delay + w.current_time) % cycle_size

unfoldable pub visits_of : World → CallOuts → ℕ → ℕ
visits_of w s delay = 1 + (delay + w.current_time - s.call_out_time - 1) / cycle_size

-- `cop`, less its place in the chain. The handle is not bounded: in the source it overflows an `int`
-- once `unique` is 2 ^ 26.
unfoldable pub fill_call : World → CallOuts → ℕ → Callee → List Svalue → PendingCall
unfolding saved_args slot_of
fill_call w s delay fun args = record {
  delta = 0;
  callee = fun;
  vs = saved_args args;
  command_giver = w.command_giver;
  handle = slot_of w delay + cycle_size * suc s.unique;
}

-- The call is linked in, and its handle returned.
unfoldable pub link_call : World → CallOuts → ℕ → PendingCall → CallOuts × ℕ
unfolding slot_of visits_of new_effects
link_call w s delay cop =
    let tm = slot_of w delay in
    (
      record s {
        call_list = update s.call_list tm (insert (visits_of w s delay) cop (s.call_list tm));
        unique = suc s.unique;
        trace = new_effects cop ++ s.trace;
      },
      cop.handle,
    )

unfoldable pub new_call_out : World → Callee → ℕ → List Svalue → CallOuts → CallOuts × ℕ
unfolding take_free start_clock fill_call link_call
new_call_out w fun delay args s =
    let d = at_least_one delay in
    let s₁ = take_free (start_clock w s) in link_call w s₁ d (fill_call w s₁ d fun args)

-- The time until a call that waits for `delay` visits of `slot`.
unfoldable pub time_left : World → CallOuts → ℕ → ℕ → ℤ
time_left w s slot delay =
    let current_slot = s.call_out_time % cycle_size in
    if ltb current_slot slot
    then sub_ℕ (delay * cycle_size + slot + s.call_out_time)
        (cycle_size + current_slot + w.current_time)
    else sub_ℕ (delay * cycle_size + slot + s.call_out_time) (current_slot + w.current_time)

-- The first slot, from `i` on with `n` slots left, whose chain has such a call.
unfoldable pub search_slots : (PendingCall → Bool) → CallOuts → ℕ → ℕ → Option (ℕ × ℕ × PendingCall)
search_slots test s i zero = none
search_slots test s i (suc n) = elim (search_chain test 0 (s.call_list i)) [
  | some (delay, c) ↦ some (i, delay, c)
  | none ↦ search_slots test s (i + 1) n
]

-- `(*copp)->ob == ob && strcmp((*copp)->function.s, fun) == 0`, at an `ob` that is not null.
unfoldable pub calls : ℕ → List ℕ → Callee → Bool
calls ob fun (named ob' function) = (ob' == ob) && text_eq function fun
calls ob fun (pointer funp owner) = false

abbrev pub has_handle : ℕ → PendingCall → Bool
has_handle handle c = c.handle == handle

-- The first call that passes the test is taken out of its slot and freed.
unfoldable pub drop_from : (PendingCall → Bool) → ℕ → PendingCall → CallOuts → CallOuts
unfolding free_call
drop_from test i c s =
    free_call c (record s { call_list = update s.call_list i (unlink test (s.call_list i)) })

-- A null `ob` is `none`.
unfoldable pub remove_call_out : World → Option ℕ → List ℕ → CallOuts → CallOuts × ℤ
unfolding search_slots calls drop_from time_left
remove_call_out w none fun s = (s, negsuc 0)
remove_call_out w (some ob) fun s =
    let test = λ (c : PendingCall). calls ob fun c.callee in
    elim (search_slots test s 0 cycle_size) [
      | none ↦ (s, negsuc 0)
      | some (i, delay, c) ↦ (drop_from test i c s, time_left w s i delay)
    ]

abbrev pub find_call_out : World → Option ℕ → List ℕ → CallOuts → ℤ
unfolding search_slots calls time_left
find_call_out w none fun s = negsuc 0
find_call_out w (some ob) fun s = elim (search_slots (λ c. calls ob fun c.callee) s 0 cycle_size) [
  | none ↦ negsuc 0
  | some (i, delay, c) ↦ time_left w s i delay
]

unfoldable pub remove_call_out_by_handle : World → ℕ → CallOuts → CallOuts × ℤ
unfolding drop_from time_left
remove_call_out_by_handle w handle s =
    let slot = handle % cycle_size in
    elim (search_chain (has_handle handle) 0 (s.call_list slot)) [
      | none ↦ (s, negsuc 0)
      | some (delay, c) ↦ (drop_from (has_handle handle) slot c s, time_left w s slot delay)
    ]

unfoldable pub find_call_out_by_handle : World → ℕ → CallOuts → ℤ
unfolding time_left
find_call_out_by_handle w handle s =
    let slot = handle % cycle_size in
    elim (search_chain (has_handle handle) 0 (s.call_list slot)) [
      | none ↦ negsuc 0
      | some (delay, c) ↦ time_left w s slot delay
    ]

-- A call of `obj`, or one whose object is destructed.
unfoldable pub dies_with : World → ℕ → Callee → Bool
dies_with w obj (named ob function) = (ob == obj) || w.is_destructed ob
dies_with w obj (pointer funp owner) = (owner == obj) || w.is_destructed owner

unfoldable pub free_calls : List PendingCall → CallOuts → CallOuts
unfolding free_call
free_calls [] s = s
free_calls (c ∷ cs) s = free_calls cs (free_call c s)

unfoldable pub remove_all_from : World → ℕ → ℕ → ℕ → CallOuts → CallOuts
unfolding free_calls dies_with
remove_all_from w obj i zero s = s
remove_all_from w obj i (suc n) s =
    let test = λ (c : PendingCall). dies_with w obj c.callee in
    let chain = s.call_list i in
    remove_all_from w obj (i + 1) n (
      free_calls (all_unlinked test chain)
        (record s { call_list = update s.call_list i (unlink_all test 0 chain) }))

unfoldable pub remove_all_call_out : World → ℕ → CallOuts → CallOuts
unfolding remove_all_from
remove_all_call_out w obj s = remove_all_from w obj 0 cycle_size s
