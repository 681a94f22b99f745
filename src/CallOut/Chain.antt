-- ===== src/CallOut/Chain.antt =====
-- One slot of `call_list`: a chain of `pending_call_t`, each with the visits that it waits behind
-- the one before it. The walks of src/call_out.c through a chain of one slot.
use mudos_v22pre.Prelude.{
  ℕ, ◌+◌, ◌-◌, Bool, true, false, Option, none, some, List, [], ◌∷◌, leb, if◌then◌else◌,
}

-- What a program hands over: an object or any other value. `const0` replaces a destructed object.
pub data Svalue : Type 0 where
  object : ℕ → Svalue
  other : ℕ → Svalue
  const0 : Svalue

-- `union string_or_func function` with `ob`: a null `ob` says that the function is a pointer,
-- which has an owner.
pub data Callee : Type 0 where
  named : (ob : ℕ) → (function : List ℕ) → Callee
  pointer : (funp : ℕ) → (owner : ℕ) → Callee

pub record PendingCall : Type 0 where
  pub delta : ℕ
  pub callee : Callee
  pub vs : Option (List Svalue)
  pub command_giver : Option ℕ
  pub handle : ℕ

-- The loop at the end of `new_call_out`.
unfoldable pub insert : ℕ → PendingCall → List PendingCall → List PendingCall
insert delay cop [] = record cop { delta = delay } ∷ []
insert delay cop (c ∷ cs) =
    if leb delay c.delta
    then record cop { delta = delay } ∷ record c { delta = c.delta - delay } ∷ cs
    else c ∷ insert (delay - c.delta) cop cs

-- `if (cop->next) cop->next->delta += cop->delta`
unfoldable pub absorb : ℕ → List PendingCall → List PendingCall
absorb d [] = []
absorb d (c ∷ cs) = record c { delta = c.delta + d } ∷ cs

-- The search loops: the first call that passes the test, with the sum of the deltas up to it.
unfoldable pub search_chain : (PendingCall → Bool) → ℕ → List PendingCall → Option (ℕ × PendingCall)
search_chain test delay [] = none
search_chain test delay (c ∷ cs) =
    if test c then some (delay + c.delta, c) else search_chain test (delay + c.delta) cs

-- The chain once that call is taken out.
unfoldable pub unlink : (PendingCall → Bool) → List PendingCall → List PendingCall
unfolding absorb
unlink test [] = []
unlink test (c ∷ cs) = if test c then absorb c.delta cs else c ∷ unlink test cs

-- The loop of `remove_all_call_out`, which goes on after a removal with the call that follows.
unfoldable pub unlink_all : (PendingCall → Bool) → ℕ → List PendingCall → List PendingCall
unlink_all test carried [] = []
unlink_all test carried (c ∷ cs) =
    let c' = record c { delta = c.delta + carried } in
    elim (test c') [ true ↦ unlink_all test c'.delta cs | false ↦ c' ∷ unlink_all test 0 cs ]

-- The calls that this loop frees, in its order.
abbrev pub all_unlinked : (PendingCall → Bool) → List PendingCall → List PendingCall
all_unlinked test [] = []
all_unlinked test (c ∷ cs) = if test c then c ∷ all_unlinked test cs else all_unlinked test cs
