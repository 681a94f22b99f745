-- ===== src/CallOut/Account.antt =====
-- Sizes: what the listings of src/call_out.c count, and where its structures are.
use mudos_v22pre.Prelude.{
  ℕ, zero, suc, ◌+◌, ◌-◌, ◌≤◌, ◌<◌, ◌≡◌, refl, sym, ap, ◌∙◌, Bool, true, false, inl, inr, Option,
  none, some, List, [], ◌∷◌, arith, leb, ◌==◌, if◌then◌else◌, Bool-cases, update, length,
  length-append,
}
use mudos_v22pre.CallOut.Chain.{Svalue, Callee, PendingCall, insert}
use mudos_v22pre.CallOut.State.{World, CallOuts, take_free, start_clock}
use mudos_v22pre.CallOut.Api.{at_least_one, slot_of, visits_of, fill_call, link_call, new_call_out}
use mudos_v22pre.CallOut.Listing.{
  count_chain, count_calls, current_length, is_listed, infos_of_chain, infos_from,
  get_all_call_outs,
}

length-infos_of_chain :
    (w : World) (s : CallOuts) (j d : ℕ) (cs : List PendingCall)
    → length (infos_of_chain w s j d cs) ≡ count_chain (λ c. is_listed w c.callee) cs
unfolding infos_of_chain count_chain
length-infos_of_chain w s j d [] = refl
length-infos_of_chain w s j d (c ∷ cs) =
    ground (arith, length-infos_of_chain w s j (d + c.delta) cs)

length-infos_from :
    (w : World) (s : CallOuts) (j n : ℕ)
    → length (infos_from w s j n) ≡ count_calls (λ c. is_listed w c.callee) s.call_list j n
unfolding infos_from count_calls
length-infos_from w s j zero = refl
length-infos_from w s j (suc n) = omega (
  arith,
  length-append (infos_of_chain w s j 0 (s.call_list j)) (infos_from w s (j + 1) n),
  length-infos_of_chain w s j 0 (s.call_list j),
  length-infos_from w s (j + 1) n,
)

-- The array that `get_all_call_outs` allocates has room for exactly the items that it stores.
get_all_call_outs-length :
    (w : World) (s : CallOuts)
    → let r = get_all_call_outs w s in (r.1 ≡ length r.2) × (r.0.call_list ≡ s.call_list)
unfolding get_all_call_outs
get_all_call_outs-length w s = (sym (length-infos_from w s 0 32), refl)

abbrev pub every : PendingCall → Bool
every c = true

count_calls-above :
    (t : ℕ → List PendingCall) (slot i n : ℕ) (cs : List PendingCall)
    → slot < i
    → count_calls every (update t slot cs) i n ≡ count_calls every t i n
unfolding count_calls
count_calls-above t slot i zero cs h = refl
count_calls-above t slot i (suc n) cs h =
    let other : (i == slot) ≡ false = ground arith in
    rw (other, count_calls-above t slot (i + 1) n cs (omega arith))

-- A write of one chain changes the count by what the chain gains or loses.
count_calls-update :
    (t : ℕ → List PendingCall) (slot i n : ℕ) (cs : List PendingCall)
    → i ≤ slot
    → slot < i + n
    → count_calls every (update t slot cs) i n + count_chain every (t slot)
      ≡ count_calls every t i n + count_chain every cs
unfolding count_calls
count_calls-update t slot i zero cs h k = absurd (omega arith)
count_calls-update t slot i (suc n) cs h k = elim (Bool-cases (i == slot)) [
  | inl here ↦
      let e : i ≡ slot = ground arith in
      rw (here, count_calls-above t slot (i + 1) n cs (omega arith), e) (omega arith)
  | inr there ↦
      let below : i + 1 ≤ slot = ground arith in
      rw there (omega (arith, count_calls-update t slot (i + 1) n cs below (omega arith)))
]

count_chain-insert :
    (d : ℕ) (cop : PendingCall) (cs : List PendingCall)
    → count_chain every (insert d cop cs) ≡ count_chain every cs + 1
unfolding count_chain insert
count_chain-insert d cop [] = refl
count_chain-insert d cop (c ∷ cs) = elim (Bool-cases (leb d c.delta)) [
  | inl small ↦ rw small (omega arith)
  | inr large ↦ rw large (omega (arith, count_chain-insert (d - c.delta) cop cs))
]

abbrev pub in_flight : Option PendingCall → ℕ
in_flight none = 0
in_flight (some c) = 1

-- Each allocated structure is on the free list, in a chain, or the call that is being made.
abbrev pub IsAccounted : CallOuts → Type 0
IsAccounted s = s.num_call ≡ s.call_list_free + current_length s + in_flight s.cop

slot_of-lt : (w : World) (d : ℕ) → slot_of w d < 32
unfolding slot_of
slot_of-lt w d = omega arith

current_length-link_call :
    (w : World) (p : CallOuts) (d : ℕ) (cop : PendingCall)
    → current_length (link_call w p d cop).0 ≡ current_length p + 1
unfolding link_call current_length
current_length-link_call w p d cop =
    let slot = slot_of w d in
    omega (
      arith,
      count_calls-update p.call_list slot 0 32 (insert (visits_of w p d) cop (p.call_list slot))
          (omega arith) (slot_of-lt w d),
      count_chain-insert (visits_of w p d) cop (p.call_list slot),
    )

-- One structure is taken out of the free list, which was filled first if it was empty.
take_free-count :
    (w : World) (s : CallOuts)
    → let p = take_free (start_clock w s) in
      (p.num_call + s.call_list_free ≡ s.num_call + p.call_list_free + 1)
      × (current_length p ≡ current_length s)
      × (p.cop ≡ s.cop)
unfolding take_free start_clock current_length
take_free-count w s =
    (ground arith, ap (λ t. count_calls (λ _. true) t 0 32) (ground arith), ground arith)

take_free-chunk :
    (w : World) (s : CallOuts)
    → let p = take_free (start_clock w s) in
      (p.call_list_free ≡ (if s.call_list_free == 0 then 19 else s.call_list_free - 1))
      × (p.num_call ≡ s.num_call + (if s.call_list_free == 0 then 20 else 0))
unfolding take_free start_clock
take_free-chunk w s = (ground arith, ground arith)

link_call-rest :
    (w : World) (p : CallOuts) (d : ℕ) (cop : PendingCall)
    → ((link_call w p d cop).0.num_call ≡ p.num_call)
      × ((link_call w p d cop).0.call_list_free ≡ p.call_list_free)
      × ((link_call w p d cop).0.cop ≡ p.cop)
unfolding link_call
link_call-rest w p d cop = (refl, refl, refl)

-- If no structure was lost before, none is lost by a new call, and the calls are one more. The call
-- takes one off the free list, and if that is empty, one of 20 fresh ones, of which 19 are left free.
pub new_call_out-IsAccounted :
    (w : World) (fun : Callee) (delay : ℕ) (args : List Svalue) (s : CallOuts)
    → IsAccounted s
    → let s' = (new_call_out w fun delay args s).0 in
      IsAccounted s'
      × (current_length s' ≡ current_length s + 1)
      × (s'.call_list_free ≡ (if s.call_list_free == 0 then 19 else s.call_list_free - 1))
      × (s'.num_call ≡ s.num_call + (if s.call_list_free == 0 then 20 else 0))
unfolding new_call_out
new_call_out-IsAccounted w fun delay args s h =
    let p = take_free (start_clock w s) in
    let d = at_least_one delay in
    let cop = fill_call w p d fun args in
    let (counts, same, running) = take_free-count w s in
    let (num, free, cop') = link_call-rest w p d cop in
    let longer = current_length-link_call w p d cop in
    let (taken, grown) = take_free-chunk w s in
    let e = ap in_flight (cop' ∙ running) in (omega arith, omega arith, free ∙ taken, num ∙ grown)
