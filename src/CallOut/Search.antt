-- ===== src/CallOut/Search.antt =====
-- The four searches of `call_list`, in terms of the chain in which the call is found.
use mudos_v22pre.Prelude.{ℕ, ◌%◌, ◌≡◌, none, some}
use mudos_v22pre.Prelude.Int.{negsuc}
use mudos_v22pre.CallOut.Chain.{PendingCall, search_chain}
use mudos_v22pre.CallOut.State.{World, CallOuts}
use mudos_v22pre.CallOut.Api.{
  has_handle, time_left, find_call_out_by_handle, remove_call_out_by_handle, drop_from,
}

module _ (w : World) (s : CallOuts) (h slot : ℕ) (at_slot : h % 32 ≡ slot) where
  pub find-found :
      {delay : ℕ} {c : PendingCall}
      → search_chain (has_handle h) 0 (s.call_list slot) ≡ some (delay, c)
      → find_call_out_by_handle w h s ≡ time_left w s slot delay
  unfolding find_call_out_by_handle
  find-found found = rw (find_call_out_by_handle, at_slot, found) (rw at_slot)

  pub find-missing :
      search_chain (has_handle h) 0 (s.call_list slot) ≡ none
      → find_call_out_by_handle w h s ≡ negsuc 0
  unfolding find_call_out_by_handle
  find-missing missing = rw (find_call_out_by_handle, at_slot, missing)

  pub remove-found :
      {delay : ℕ} {c : PendingCall}
      → search_chain (has_handle h) 0 (s.call_list slot) ≡ some (delay, c)
      → remove_call_out_by_handle w h s
        ≡ (drop_from (has_handle h) slot c s, time_left w s slot delay)
  unfolding remove_call_out_by_handle
  remove-found found = rw (remove_call_out_by_handle, at_slot, found) (rw at_slot)

  pub remove-missing :
      search_chain (has_handle h) 0 (s.call_list slot) ≡ none
      → remove_call_out_by_handle w h s ≡ (s, negsuc 0)
  unfolding remove_call_out_by_handle
  remove-missing missing = rw (remove_call_out_by_handle, at_slot, missing)
