-- ===== src/Sockets/Fresh.antt =====
-- Which entry `find_new_socket` of src/socket_efuns.c takes.
use mudos_v22pre.Prelude.{
  ℕ, zero, suc, ◌+◌, ◌<◌, ◌≤◌, true, false, some, ◌≡◌, inl, inr, arith, Option-cases, Bool-cases,
  subst,
}
use mudos_v22pre.Sockets.State.{
  Sockets, is_closed, first_closed, find_new_socket, clear_callbacks, more_lpc_sockets,
  set_read_callback, set_write_callback, set_close_callback, put,
}

first_closed-some :
    (s : Sockets) (i n k : ℕ)
    → first_closed s i n ≡ some k
    → ((i ≤ k) × (k < i + n) × (is_closed (s.lpc_socks k).state ≡ true))
unfolding first_closed
first_closed-some s i zero k h = absurd cc
first_closed-some s i (suc n) k h = elim (Bool-cases (is_closed (s.lpc_socks i).state)) [
  | inl here ↦
      let e : i ≡ k = ground arith in
      (
        omega (arith, e),
        omega (arith, e),
        subst (λ j. is_closed (s.lpc_socks j).state ≡ true) e here,
      )
  | inr there ↦
      let h₁ : first_closed s (i + 1) n ≡ some k = ground arith in
      let (lo, hi, c) = first_closed-some s (i + 1) n k h₁ in
      (omega (arith, lo), omega (arith, hi), c)
]

-- The index that `find_new_socket` gives lies in the table it leaves, its entry is closed there, and
-- each entry that was in use is as it was.
find_new_socket-lem :
    (s : Sockets) (j : ℕ)
    → j < s.max_lpc_socks
    → is_closed (s.lpc_socks j).state ≡ false
    → let (t, i) = find_new_socket s in
      ((i < t.max_lpc_socks)
        × (is_closed (t.lpc_socks i).state ≡ true)
        × (t.lpc_socks j ≡ s.lpc_socks j))
unfolding find_new_socket clear_callbacks more_lpc_sockets set_read_callback set_write_callback
    set_close_callback put
find_new_socket-lem s j lt used = elim (Option-cases (first_closed s 0 s.max_lpc_socks)) [
  | inl full ↦ rw (find_new_socket, full) (omega arith, ground arith, ground arith)
  | inr (i, found) ↦
      let (lo, hi, c) = first_closed-some s 0 s.max_lpc_socks i found in
      rw (find_new_socket, found) (omega (arith, hi), ground arith, ground arith)
]
