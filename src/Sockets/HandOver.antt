-- ===== src/Sockets/HandOver.antt =====
-- How a socket of src/socket_efuns.c is handed over to another object.
use mudos_v22pre.Prelude.{
  ℕ, Bool, true, false, none, some, [], ◌∷◌, ltb, ◌≡◌, refl, if◌then◌else◌, not, update_self,
  ==_self, ap, ◌∙◌,
}
use mudos_v22pre.Prelude.Int.{pos}
use mudos_v22pre.Sockets.State.{
  Socket, Sockets, Callback, number, object, call_function, SocketError, ee_success, ee_socknotrlsd,
  is_shut, is_owner, in_range, owned, put, set_read_callback, set_write_callback,
  set_close_callback,
}
use mudos_v22pre.Sockets.Open.{set_callbacks}
use mudos_v22pre.Sockets.Transfer.{socket_release, acquire_entry, socket_acquire}

owned-passes :
    (ob n : ℕ) (s : Sockets) (body : ℕ → Sockets × SocketError)
    → ltb n s.max_lpc_socks ≡ true
    → is_shut (s.lpc_socks n).state ≡ false
    → is_owner (s.lpc_socks n).owner_ob ob ≡ true
    → owned ob (pos n) s body ≡ body n
unfolding owned in_range
owned-passes ob n s body fits open_ own = rw (owned, in_range, fits, open_, own) refl

-- An entry that `heir` has taken over.
abbrev pub inherited : ℕ → Callback → Callback → Callback → Socket → Socket
inherited heir read write close k = record k {
  s_release = false;
  owner_ob = some heir;
  release_ob = none;
  read_callback = read;
  write_callback = write;
  close_callback = close;
}

abbrev owned_by : ℕ → Socket → Socket
owned_by heir k = record k { s_release = false; owner_ob = some heir; release_ob = none }

third_branch {ℓ} :
    {A : Type ℓ} (shut rel own : Bool) (x y z v : A)
    → shut ≡ false
    → rel ≡ true
    → own ≡ true
    → (if shut then x else (if not rel then y else (if own then v else z))) ≡ v
third_branch shut rel own x y z v h h₁ h₂ = rw (h, h₁, h₂) refl

entry-passes :
    (heir n : ℕ) (r w c : Callback) (u : Sockets)
    → is_shut (u.lpc_socks n).state ≡ false
    → (u.lpc_socks n).s_release ≡ true
    → is_owner (u.lpc_socks n).release_ob heir ≡ true
    → (acquire_entry heir n r w c u
        ≡ (set_callbacks n r w c (put n (owned_by heir (u.lpc_socks n)) u), ee_success))
unfolding acquire_entry
entry-passes heir n r w c u open_ rel own = third_branch _ _ _ _ _ _ _ open_ rel own

acquire-passes :
    (heir n : ℕ) (r w c : Callback) (u : Sockets)
    → ltb n u.max_lpc_socks ≡ true
    → socket_acquire heir (pos n) r w c u ≡ acquire_entry heir n r w c u
unfolding socket_acquire in_range
acquire-passes heir n r w c u fits = rw (socket_acquire, in_range, fits) refl

read-at :
    (n : ℕ) (cb : Callback) (s : Sockets)
    → ((set_read_callback n cb s).lpc_socks n ≡ record (s.lpc_socks n) { read_callback = cb })
unfolding set_read_callback put
read-at n cb s = update_self s.lpc_socks n _

write-at :
    (n : ℕ) (cb : Callback) (s : Sockets)
    → ((set_write_callback n cb s).lpc_socks n ≡ record (s.lpc_socks n) { write_callback = cb })
unfolding set_write_callback put
write-at n cb s = update_self s.lpc_socks n _

close-at :
    (n : ℕ) (cb : Callback) (s : Sockets)
    → ((set_close_callback n cb s).lpc_socks n ≡ record (s.lpc_socks n) { close_callback = cb })
unfolding set_close_callback put
close-at n cb s = update_self s.lpc_socks n _

put-at : (n : ℕ) (k : Socket) (s : Sockets) → (put n k s).lpc_socks n ≡ k
unfolding put
put-at n k s = update_self s.lpc_socks n k

callbacks-at :
    (n : ℕ) (r w c : Callback) (s : Sockets)
    → ((set_callbacks n r w c s).lpc_socks n
        ≡ record (s.lpc_socks n) { read_callback = r; write_callback = w; close_callback = c })
unfolding set_callbacks
callbacks-at n r w c s =
    let s₁ = set_read_callback n r s in
    let s₂ = set_write_callback n w s₁ in
    close-at n c s₂
    ∙ ap (λ (k : Socket). record k { close_callback = c })
        (write-at n w s₁ ∙ ap (λ (k : Socket). record k { write_callback = w }) (read-at n r s))

acquire-at :
    (heir n : ℕ) (r w c : Callback) (u : Sockets)
    → ltb n u.max_lpc_socks ≡ true
    → is_shut (u.lpc_socks n).state ≡ false
    → (u.lpc_socks n).s_release ≡ true
    → is_owner (u.lpc_socks n).release_ob heir ≡ true
    → (socket_acquire heir (pos n) r w c u).0.lpc_socks n ≡ inherited heir r w c (u.lpc_socks n)
acquire-at heir n r w c u fits open_ rel own =
    ap (λ (t : Sockets × SocketError). t.0.lpc_socks n)
      (acquire-passes heir n r w c u fits ∙ entry-passes heir n r w c u open_ rel own)
    ∙ callbacks-at n r w c (put n (owned_by heir (u.lpc_socks n)) u)
    ∙ ap (λ (k : Socket). record k { read_callback = r; write_callback = w; close_callback = c })
        (put-at n (owned_by heir (u.lpc_socks n)) u)

-- The entry while it is offered to `heir`.
abbrev pub offered : ℕ → Socket → Socket
offered heir k = record k { s_release = true; release_ob = some heir }

abbrev offer : ℕ → ℕ → Callback → Sockets → Sockets
offer n heir cb s =
    let s₁ = put n (offered heir (s.lpc_socks n)) s in
    record s₁ { trace = call_function cb (some heir) (number n ∷ object heir ∷ []) ∷ s₁.trace }

offer-at :
    (n heir : ℕ) (cb : Callback) (s : Sockets)
    → (offer n heir cb s).lpc_socks n ≡ offered heir (s.lpc_socks n)
unfolding put
offer-at n heir cb s = update_self s.lpc_socks n _

-- What `socket_release` answers, by what the called function leaves.
release_answer : ℕ → Sockets → Sockets × SocketError
release_answer n t =
    if (t.lpc_socks n).s_release
    then (put n (record (t.lpc_socks n) { s_release = false; release_ob = none }) t, ee_socknotrlsd)
    else (t, ee_success)

else_branch {ℓ} : {A : Type ℓ} (b : Bool) (x y : A) → b ≡ false → (if b then x else y) ≡ y
else_branch b x y h = rw h refl

release-answer :
    (cur n heir : ℕ) (cb : Callback) (lpc : Sockets → Sockets) (s : Sockets)
    → ltb n s.max_lpc_socks ≡ true
    → is_shut (s.lpc_socks n).state ≡ false
    → is_owner (s.lpc_socks n).owner_ob cur ≡ true
    → (s.lpc_socks n).s_release ≡ false
    → socket_release cur (pos n) heir cb lpc s ≡ release_answer n (lpc (offer n heir cb s))
unfolding socket_release release_answer
release-answer cur n heir cb lpc s fits open_ own rel =
    rw (socket_release, owned-passes cur n s _ fits open_ own) (else_branch _ _ _ rel)

release_answer-taken :
    (n : ℕ) (t : Sockets) → (t.lpc_socks n).s_release ≡ false → release_answer n t ≡ (t, ee_success)
unfolding release_answer
release_answer-taken n t h = else_branch _ _ _ h

taken-over :
    (n heir : ℕ) (cb r w c : Callback) (s : Sockets)
    → ltb n s.max_lpc_socks ≡ true
    → is_shut (s.lpc_socks n).state ≡ false
    → (socket_acquire heir (pos n) r w c (offer n heir cb s)).0.lpc_socks n
      ≡ inherited heir r w c (s.lpc_socks n)
unfolding put is_owner
taken-over n heir cb r w c s fits open_ =
    let at = offer-at n heir cb s in
    acquire-at heir n r w c (offer n heir cb s) fits (ap (λ k. is_shut k.state) at ∙ open_)
      (ap Socket.s_release at) (ap (λ k. is_owner k.release_ob heir) at ∙ ==_self heir)
    ∙ ap (inherited heir r w c) at

-- If an object owns a socket in use that is not being released, and the function that it calls by
-- `socket_release` acquires the socket for the other object, the release succeeds: the other object
-- owns the socket, with its own functions, and everything else of the entry is as it was.
pub socket_release-acquire :
    (cur n heir : ℕ) (cb r w c : Callback) (s : Sockets)
    → ltb n s.max_lpc_socks ≡ true
    → is_shut (s.lpc_socks n).state ≡ false
    → is_owner (s.lpc_socks n).owner_ob cur ≡ true
    → (s.lpc_socks n).s_release ≡ false
    → let (t, e) =
        socket_release cur (pos n) heir cb (λ u. (socket_acquire heir (pos n) r w c u).0) s in
      (e ≡ ee_success) × (t.lpc_socks n ≡ inherited heir r w c (s.lpc_socks n))
socket_release-acquire cur n heir cb r w c s fits open_ own rel =
    let lpc : Sockets → Sockets = λ u. (socket_acquire heir (pos n) r w c u).0 in
    let got = taken-over n heir cb r w c s fits open_ in
    rw
      (
        release-answer cur n heir cb lpc s fits open_ own rel,
        release_answer-taken n (lpc (offer n heir cb s)) (ap Socket.s_release got),
      )
      (refl, got)
