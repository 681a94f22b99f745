-- ===== src/CallOut/Listing.antt =====
-- `print_call_out_usage` and `get_all_call_outs` of src/call_out.c: what they count and list.
use mudos_v22pre.Prelude.{
  ℕ, zero, suc, ◌+◌, ◌*◌, ◌%◌, Bool, true, not, List, [], ◌∷◌, ◌++◌, ltb, if◌then◌else◌,
}
use mudos_v22pre.Prelude.Int.{ℤ, sub_ℕ}
use mudos_v22pre.CallOut.Chain.{Callee, named, pointer, PendingCall}
use mudos_v22pre.CallOut.State.{
  cycle_size, World, CallOuts, Effect, make_shared_string, add_ref, allocate_array,
}

-- A loop over the calls of one chain, that counts those which pass the test.
unfoldable pub count_chain : (PendingCall → Bool) → List PendingCall → ℕ
count_chain test [] = 0
count_chain test (c ∷ cs) = (if test c then 1 else 0) + count_chain test cs

-- The loop over the `n` slots from `j` on.
unfoldable pub count_calls : (PendingCall → Bool) → (ℕ → List PendingCall) → ℕ → ℕ → ℕ
unfolding count_chain
count_calls test call_list j zero = 0
count_calls test call_list j (suc n) =
    count_chain test (call_list j) + count_calls test call_list (j + 1) n

-- The current length, of `print_call_out_usage`.
unfoldable pub current_length : CallOuts → ℕ
current_length s = count_calls (λ _. true) s.call_list 0 cycle_size

-- `!cop->ob || !(cop->ob->flags & O_DESTRUCTED)`
pub is_listed : World → Callee → Bool
is_listed w (named ob function) = not (w.is_destructed ob)
is_listed w (pointer funp owner) = true

-- An array of three items: the object, the function and the delay.
pub record Info : Type 0 where
  pub ob : ℕ
  pub function : List ℕ
  pub delay : ℤ

-- "<function>"
abbrev pub function_text : List ℕ
function_text = 60 ∷ 102 ∷ 117 ∷ 110 ∷ 99 ∷ 116 ∷ 105 ∷ 111 ∷ 110 ∷ 62 ∷ []

pub info_ob : Callee → ℕ
info_ob (named ob function) = ob
info_ob (pointer funp owner) = owner

pub info_function : Callee → List ℕ
info_function (named ob function) = function
info_function (pointer funp owner) = function_text

pub info_delay : World → CallOuts → ℕ → ℕ → ℤ
info_delay w s j delay =
    let tm = s.call_out_time % cycle_size in
    if ltb tm j
    then sub_ℕ (delay * cycle_size + j + s.call_out_time) (cycle_size + tm + w.current_time)
    else sub_ℕ (delay * cycle_size + j + s.call_out_time) (tm + w.current_time)

-- The inner loop of `get_all_call_outs`, in slot `j`.
unfoldable pub infos_of_chain : World → CallOuts → ℕ → ℕ → List PendingCall → List Info
unfolding is_listed info_delay info_ob info_function
infos_of_chain w s j delay [] = []
infos_of_chain w s j delay (c ∷ cs) =
    let d = delay + c.delta in
    let rest = infos_of_chain w s j d cs in
    if is_listed w c.callee
    then record {
      ob = info_ob c.callee;
      function = info_function c.callee;
      delay = info_delay w s j d;
    }
      ∷ rest
    else rest

unfoldable pub infos_from : World → CallOuts → ℕ → ℕ → List Info
unfolding infos_of_chain
infos_from w s j zero = []
infos_from w s j (suc n) = infos_of_chain w s j 0 (s.call_list j) ++ infos_from w s (j + 1) n

-- The references that one item takes, the latest first.
abbrev pub infos_effects : List Info → List Effect → List Effect
infos_effects [] tr = tr
infos_effects (i ∷ is) tr =
    infos_effects is (make_shared_string i.function ∷ add_ref i.ob ∷ allocate_array 3 ∷ tr)

-- The size of the array, its items, and the state with the references taken.
unfoldable pub get_all_call_outs : World → CallOuts → CallOuts × ℕ × List Info
get_all_call_outs w s =
    let size = count_calls (λ c. is_listed w c.callee) s.call_list 0 cycle_size in
    let items = infos_from w s 0 cycle_size in
    (record s { trace = infos_effects items (allocate_array size ∷ s.trace) }, size, items)
