-- ===== src/CallOut/State.antt =====
-- The state of src/call_out.c, and how a `pending_call_t` is taken from the free list and given
-- back to it. Reference counts and arrays belong to other parts of the driver: the calls that this
-- code makes of them are recorded in `trace`, the latest first.
use mudos_v22pre.Prelude.{
  ℕ, ◌+◌, ◌-◌, Bool, Option, none, some, List, [], ◌∷◌, ◌++◌, ◌==◌, if◌then◌else◌,
}
use mudos_v22pre.CallOut.Chain.{Svalue, named, pointer, PendingCall}

abbrev pub cycle_size : ℕ
cycle_size = 32

abbrev pub chunk_size : ℕ
chunk_size = 20

-- The calls of other parts: the shared strings, the objects and the function pointers.
pub data Effect : Type 0 where
  make_shared_string : List ℕ → Effect
  free_string : List ℕ → Effect
  add_ref : ℕ → Effect
  free_object : ℕ → Effect
  ref_funp : ℕ → Effect
  free_funp : ℕ → Effect
  allocate_empty_array : List Svalue → Effect
  allocate_array : ℕ → Effect
  free_array : List Svalue → Effect
  free_empty_array : ℕ → Effect

-- What the driver says at the time of a call.
pub record World : Type 0 where
  pub current_time : ℕ
  pub command_giver : Option ℕ
  pub is_destructed : ℕ → Bool
  pub is_listener : ℕ → Bool
  pub shadows : ℕ → List ℕ

-- `call_list_free` is the number of structures on the free list, and `cop` the static variable
-- of `call_out`, the call that is being made.
pub record CallOuts : Type 0 where
  pub call_list : ℕ → List PendingCall
  pub call_list_free : ℕ
  pub num_call : ℕ
  pub call_out_time : ℕ
  pub unique : ℕ
  pub cop : Option PendingCall
  pub trace : List Effect

unfoldable pub giver_effects : (ℕ → Effect) → Option ℕ → List Effect
giver_effects e none = []
giver_effects e (some ob) = e ob ∷ []

-- What `free_called_call` releases, the latest first.
unfoldable pub called_effects : PendingCall → List Effect
unfolding giver_effects
called_effects c = giver_effects free_object c.command_giver ++ elim c.callee [
  | named ob function ↦ free_object ob ∷ free_string function ∷ []
  | pointer funp owner ↦ free_funp funp ∷ []
]

unfoldable pub free_called_call : PendingCall → CallOuts → CallOuts
unfolding called_effects
free_called_call c s = record s {
  call_list_free = s.call_list_free + 1;
  trace = called_effects c ++ s.trace;
}

unfoldable pub args_effects : (List Svalue → Effect) → Option (List Svalue) → List Effect
args_effects e none = []
args_effects e (some vec) = e vec ∷ []

unfoldable pub free_call : PendingCall → CallOuts → CallOuts
unfolding free_called_call args_effects
free_call c s = free_called_call c (record s { trace = args_effects free_array c.vs ++ s.trace })

-- `call_list_free = call_list_free->next`, after a chunk is added to an empty list.
unfoldable pub take_free : CallOuts → CallOuts
take_free s =
    if s.call_list_free == 0
    then record s { call_list_free = chunk_size - 1; num_call = s.num_call + chunk_size }
    else record s { call_list_free = s.call_list_free - 1 }

-- `if (!call_out_time) call_out_time = current_time`
unfoldable pub start_clock : World → CallOuts → CallOuts
start_clock w s = if s.call_out_time == 0 then record s { call_out_time = w.current_time } else s
