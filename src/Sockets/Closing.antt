-- ===== src/Sockets/Closing.antt =====
-- Closing of sockets in src/socket_efuns.c.
use mudos_v22pre.Prelude.{
  ℕ, zero, suc, ◌+◌, ◌<◌, ◌≤◌, Bool, true, false, none, ltb, leb, ◌==◌, ◌≡◌, inl, inr, refl, arith,
  Bool-cases, if◌then◌else◌, not, ◌&&◌, ◌∙◌, lt→ltb,
}
use mudos_v22pre.Sockets.State.{
  SocketState, closed, flushing, unbound, bound, listen, data_xfer, Socket, Sockets, absent,
  is_shut, is_owner, in_range, put, set_read_callback, set_write_callback, set_close_callback,
  clear_callbacks,
}
use mudos_v22pre.Sockets.Transfer.{shut_down, socket_close, close_checks, owner_check}
use mudos_v22pre.Sockets.Handlers.{
  close_index, close_one, close_owned, close_referencing_sockets, forced_close,
}

-- What becomes of an entry that is closed: its functions are forgotten, and it is flushing while it
-- is blocked.
abbrev pub shut_entry : Socket → Socket
shut_entry k = record k {
  read_callback = absent;
  write_callback = absent;
  close_callback = absent;
  state = if k.s_blocked then flushing else closed;
}

shut_down-at :
    (n : ℕ) (s : Sockets) (j : ℕ)
    → ((shut_down n s).lpc_socks j ≡ (if j == n then shut_entry (s.lpc_socks n) else s.lpc_socks j))
unfolding shut_down clear_callbacks set_read_callback set_write_callback set_close_callback put
shut_down-at n s j = ground arith

shut_down-max : (n : ℕ) (s : Sockets) → (shut_down n s).max_lpc_socks ≡ s.max_lpc_socks
unfolding shut_down clear_callbacks set_read_callback set_write_callback set_close_callback put
shut_down-max n s = ground arith

-- What becomes of an entry when the object `ob` is destructed.
abbrev pub swept : ℕ → Socket → Socket
swept ob k = if is_owner k.owner_ob ob && not (is_shut k.state) then shut_entry k else k

close_checks-forced :
    (st : SocketState) (owns : Bool) → is_shut st ≡ false → close_checks forced_close st owns ≡ none
unfolding close_checks owner_check
close_checks-forced closed owns h = absurd cc
close_checks-forced flushing owns h = absurd cc
close_checks-forced unbound owns h = refl
close_checks-forced bound owns h = refl
close_checks-forced listen owns h = refl
close_checks-forced data_xfer owns h = refl

close_index-forced :
    (cur i : ℕ) (s : Sockets)
    → ltb i s.max_lpc_socks ≡ true
    → is_shut (s.lpc_socks i).state ≡ false
    → (close_index cur i forced_close (λ t. t) s).0 ≡ shut_down i s
unfolding close_index socket_close in_range
close_index-forced cur i s fits open_ =
    rw
      (
        close_index,
        socket_close,
        in_range,
        fits,
        close_checks-forced (s.lpc_socks i).state (is_owner (s.lpc_socks i).owner_ob cur) open_,
      )
      refl

close_one-at :
    (cur ob i : ℕ) (s : Sockets) (j : ℕ)
    → ltb i s.max_lpc_socks ≡ true
    → (((close_one cur ob i s).lpc_socks j
          ≡ (if j == i then swept ob (s.lpc_socks i) else s.lpc_socks j))
        × ((close_one cur ob i s).max_lpc_socks ≡ s.max_lpc_socks))
unfolding close_one
close_one-at cur ob i s j fits = elim (Bool-cases (is_shut (s.lpc_socks i).state)) [
  | inl shut ↦ rw (close_one, shut) (ground arith, ground arith)
  | inr open_ ↦ elim (Bool-cases (is_owner (s.lpc_socks i).owner_ob ob)) [
    | inl mine ↦
        rw (close_one, open_, mine, close_index-forced cur i s fits open_)
          (shut_down-at i s j, shut_down-max i s)
    | inr other ↦ rw (close_one, other) (ground arith, ground arith)
  ]
]

-- One more entry at the front of a range that `f` is applied to.
range-step :
    {A : Type 0} (f : A → A) (g : ℕ → A) (i c j : ℕ) (y z : A)
    → y ≡ (if j == i then f (g i) else g j)
    → z ≡ (if leb (i + 1) j && ltb j ((i + 1) + c) then f y else y)
    → z ≡ (if leb i j && ltb j (i + suc c) then f (g j) else g j)
range-step f g i c j y z h h₁ = ground arith

close_owned-at :
    (cur ob i count : ℕ) (s : Sockets) (j : ℕ)
    → i + count ≤ s.max_lpc_socks
    → (((close_owned cur ob i count s).lpc_socks j
          ≡ (if leb i j && ltb j (i + count) then swept ob (s.lpc_socks j) else s.lpc_socks j))
        × ((close_owned cur ob i count s).max_lpc_socks ≡ s.max_lpc_socks))
unfolding close_owned
close_owned-at cur ob i zero s j fits = (ground arith, refl)
close_owned-at cur ob i (suc count) s j fits =
    let (e, m) = close_one-at cur ob i s j (lt→ltb i s.max_lpc_socks (omega (arith, fits))) in
    let (e₁, m₁) =
      close_owned-at cur ob (i + 1) count (close_one cur ob i s) j (omega (arith, fits, m)) in
    (range-step (swept ob) s.lpc_socks i count j _ _ e e₁, m₁ ∙ m)

inside :
    {A : Type 0} (f : A → A) (g : ℕ → A) (j n : ℕ) (z : A)
    → j < n
    → z ≡ (if leb 0 j && ltb j (0 + n) then f (g j) else g j)
    → z ≡ f (g j)
inside f g j n z lt h = ground arith

-- Behind `close_referencing_sockets`, each entry of the table that the object owned and that was open
-- is closed, with its functions forgotten, or flushing if it is blocked, and each other entry is as
-- it was.
pub close_referencing_sockets-swept :
    (cur ob : ℕ) (s : Sockets) (j : ℕ)
    → j < s.max_lpc_socks
    → (close_referencing_sockets cur ob s).lpc_socks j ≡ swept ob (s.lpc_socks j)
unfolding close_referencing_sockets
close_referencing_sockets-swept cur ob s j lt =
    let (e, m) = close_owned-at cur ob 0 s.max_lpc_socks s j (omega arith) in
    inside (swept ob) s.lpc_socks j s.max_lpc_socks _ lt e
