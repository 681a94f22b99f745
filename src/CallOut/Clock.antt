-- ===== src/CallOut/Clock.antt =====
-- `call_out` of src/call_out.c, which the backend calls when time has passed.
use mudos_v22pre.Prelude.{
  ℕ, zero, suc, ◌+◌, ◌-◌, ◌%◌, Bool, true, false, Option, none, some, List, [], ◌∷◌, ◌++◌, ltb,
  ◌==◌, if◌then◌else◌, update, length, map,
}
use mathlib.Core.Option
use mudos_v22pre.CallOut.Chain.{Svalue, object, other, const0, Callee, named, pointer, PendingCall}
use mudos_v22pre.CallOut.State.{
  cycle_size, Effect, free_object, free_empty_array, World, CallOuts, free_call, free_called_call,
  start_clock,
}

-- What is given to `apply` or `call_function_pointer`.
pub record Request : Type 0 where
  pub callee : Callee
  pub args : List Svalue
  pub command_giver : Option ℕ

-- The called function: it may do to the table whatever the functions of this file do. An error in
-- it comes back here too, by the `SETJMP` around it.
abbrev pub Apply : Type 0
Apply = Request → CallOuts → CallOuts

-- `while (ob->shadowing) ob = ob->shadowing`, over the chain of objects that shadow `ob`.
pub outermost : ℕ → List ℕ → ℕ
outermost ob [] = ob
outermost ob (by ∷ rest) = outermost by rest

abbrev pub listener : World → ℕ → Option ℕ
listener w ob = if w.is_listener ob then some ob else none

-- `command_giver` without one that the call remembers: the object itself, if it listens.
pub default_giver : World → Callee → Option ℕ
unfolding outermost
default_giver w (named ob function) = listener w (outermost ob (w.shadows ob))
default_giver w (pointer funp owner) = none

pub giver_of : World → PendingCall → Option ℕ
unfolding default_giver
giver_of w c = elim c.command_giver [
  | some g ↦ if w.is_destructed g then default_giver w c.callee else some g
  | none ↦ default_giver w c.callee
]

-- A destructed object among the arguments is replaced by 0, and let go.
pub live_arg : World → Svalue → Svalue
live_arg w (object ob) = if w.is_destructed ob then const0 else object ob
live_arg w (other v) = other v
live_arg w const0 = const0

pub dead_args : World → List Svalue → List Effect
dead_args w [] = []
dead_args w (object ob ∷ rest) =
    if w.is_destructed ob then free_object ob ∷ dead_args w rest else dead_args w rest
dead_args w (other v ∷ rest) = dead_args w rest
dead_args w (const0 ∷ rest) = dead_args w rest

pub pushed_args : World → Option (List Svalue) → List Svalue
unfolding live_arg
pushed_args w none = []
pushed_args w (some vec) = map (live_arg w) vec

abbrev pub push_effects : World → Option (List Svalue) → List Effect
unfolding dead_args
push_effects w none = []
push_effects w (some vec) = free_empty_array (length vec) ∷ dead_args w vec

unfoldable pub request_of : World → PendingCall → Request
unfolding giver_of pushed_args
request_of w c = record {
  callee = c.callee;
  args = pushed_args w c.vs;
  command_giver = giver_of w c;
}

-- `cop->function.s[0] == APPLY___INIT_SPECIAL_CHAR`
unfoldable pub is_illegal : Callee → Bool
is_illegal (named ob []) = false
is_illegal (named ob (b ∷ rest)) = b == b'#'
is_illegal (pointer funp owner) = false

unfoldable pub is_dead : World → Callee → Bool
is_dead w (named ob function) = w.is_destructed ob
is_dead w (pointer funp owner) = false

-- The body of the inner loop, for a call that is out of its chain.
unfoldable pub make_call : World → Apply → PendingCall → CallOuts → CallOuts
unfolding free_call free_called_call
make_call w apply c s =
    if is_dead w c.callee
    then record (free_call c s) { cop = none }
    else let pushed = record s { cop = some c; trace = push_effects w c.vs ++ s.trace } in
      let done = if is_illegal c.callee then pushed else apply (request_of w c) pushed in
      record (free_called_call c done) { cop = none }

-- The inner loop, on fuel; `none` means that the fuel ran out.
unfoldable pub run_due : ℕ → World → Apply → ℕ → CallOuts → Option CallOuts
run_due zero w apply slot s = none
run_due (suc n) w apply slot s = elim (s.call_list slot) [
  | [] ↦ some s
  | c ∷ cs ↦ elim (c.delta == 0) [
    | true ↦
        run_due n w apply slot
          (make_call w apply c (record s { call_list = update s.call_list slot cs }))
    | false ↦ some s
  ]
]

abbrev pub next_second : CallOuts → CallOuts
next_second s = record s { call_out_time = s.call_out_time + 1 }

-- One round of the outer loop. `--call_list[tm]->delta` is taken of a positive `delta` only, as
-- the invariant of the table says. The fuel is the length of the chain, and one.
unfoldable pub tick : World → Apply → CallOuts → Option CallOuts
tick w apply s =
    let tm = (s.call_out_time + 1) % cycle_size in
    elim (s.call_list tm) [
      | [] ↦ some (next_second s)
      | c ∷ cs ↦
          let chain = record c { delta = c.delta - 1 } ∷ cs in
          let s₁ = record s { call_list = update s.call_list tm chain } in
          if c.delta == 1
          then Option.map next_second (run_due (suc (length chain)) w apply tm s₁)
          else some (next_second s₁)
    ]

-- The outer loop, on fuel.
unfoldable pub ticks : ℕ → World → Apply → CallOuts → Option CallOuts
ticks zero w apply s = none
ticks (suc n) w apply s = elim (ltb s.call_out_time w.current_time) [
  | true ↦ Option.bind (tick w apply s) (ticks n w apply)
  | false ↦ some s
]

-- A call that an error left behind is freed first.
unfoldable pub free_left : CallOuts → CallOuts
unfolding free_called_call
free_left s = elim s.cop [ none ↦ s | some c ↦ record (free_called_call c s) { cop = none } ]

unfoldable pub call_out : World → Apply → CallOuts → Option CallOuts
call_out w apply s =
    let s₁ = start_clock w (free_left s) in
    ticks (suc (w.current_time - s₁.call_out_time)) w apply s₁
