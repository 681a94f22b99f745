-- ===== src/Sockets/Pending.antt =====
-- What waits to be written to a socket of src/socket_efuns.c, and how it goes out; and the length
-- before a value, as it is sent and read.
use mudos_v22pre.Prelude.{
  ℕ, zero, suc, ◌+◌, ◌-◌, ◌<◌, Bool, true, false, Option, none, some, List, [], ◌∷◌, ◌++◌, length,
  ◌==◌, ◌≡◌, refl, arith, not, if◌then◌else◌, sym, ◌∙◌, ap, lt→ltb, update_self,
}
use native.Mathlib.Numerals.{unary_clauses}
use mudos_v22pre.Sockets.State.{Socket, Sockets, ee_callback, put}
use mudos_v22pre.Sockets.Transfer.{wrote, bytes, send_bytes, waiting, htonl}
use mudos_v22pre.Sockets.Handlers.{
  put_byte, put_bytes, ntohl, socket_write_select_handler, write_pending, advanced,
}

abbrev pub drop : ℕ → List ℕ → List ℕ
drop zero xs = xs
drop (suc n) [] = []
drop (suc n) (x ∷ xs) = drop n xs

abbrev text_of : Option (List ℕ) → List ℕ
text_of none = []
text_of (some b) = b

-- The bytes that wait.
abbrev pub pending : Socket → List ℕ
pending k = drop k.w_off (text_of k.w_buf)

-- The entry holds `buf`, and `w_len` tells how much of it waits.
pub record Waits (buf : List ℕ) (k : Socket) : Type 0 where
  pub blocked : k.s_blocked ≡ true
  pub held : k.w_buf ≡ some buf
  pub whole : k.w_off + k.w_len ≡ length buf
  pub some_left : 0 < k.w_len

drop-drop : (m n : ℕ) (xs : List ℕ) → drop n (drop m xs) ≡ drop (m + n) xs
drop-drop zero n xs = let e : n ≡ 0 + n = omega arith in ap (λ m. drop m xs) e
drop-drop (suc m) zero [] = simp unary_clauses refl
drop-drop (suc m) (suc n) [] = simp unary_clauses refl
drop-drop (suc m) n (x ∷ xs) =
    let e : suc (m + n) ≡ suc m + n = omega arith in drop-drop m n xs ∙ ap (λ o. drop o (x ∷ xs)) e

put-at : (n : ℕ) (k : Socket) (s : Sockets) → (put n k s).lpc_socks n ≡ k
unfolding put
put-at n k s = update_self s.lpc_socks n k

send_bytes-part :
    (n off : ℕ) (buf : List ℕ) (s : Sockets)
    → off < length buf
    → (send_bytes n (wrote off) (bytes buf) s
        ≡ (put n (waiting buf off (s.lpc_socks n)) s, ee_callback))
unfolding send_bytes
send_bytes-part n off buf s lt = rw (lt→ltb off (length buf) lt) refl

waiting-Waits :
    (off : ℕ) (buf : List ℕ) (k : Socket) → off < length buf → Waits buf (waiting buf off k)
unfolding waiting
waiting-Waits off buf k lt = record {
  blocked = refl;
  held = refl;
  whole = omega (arith, lt);
  some_left = omega (arith, lt);
}

waiting-pending : (off : ℕ) (buf : List ℕ) (k : Socket) → pending (waiting buf off k) ≡ drop off buf
unfolding waiting
waiting-pending off buf k = refl

-- If the system takes only a part of the bytes, the call tells so, and the rest of the bytes waits.
send_bytes-Waits :
    (n off : ℕ) (buf : List ℕ) (s : Sockets)
    → off < length buf
    → let (t, e) = send_bytes n (wrote off) (bytes buf) s in
      ((e ≡ ee_callback) × Waits buf (t.lpc_socks n) × (pending (t.lpc_socks n) ≡ drop off buf))
send_bytes-Waits n off buf s lt =
    rw (send_bytes-part n off buf s lt, put-at n (waiting buf off (s.lpc_socks n)) s)
      (refl, waiting-Waits off buf (s.lpc_socks n) lt, waiting-pending off buf (s.lpc_socks n))

advanced-Waits :
    (taken : ℕ) (buf : List ℕ) (k : Socket)
    → Waits buf k
    → taken < k.w_len
    → Waits buf (advanced taken k)
unfolding advanced
advanced-Waits taken buf k w lt = record {
  blocked = w.blocked;
  held = w.held;
  whole = omega (arith, lt, w.whole);
  some_left = omega (arith, lt);
}

advanced-pending : (taken : ℕ) (k : Socket) → pending (advanced taken k) ≡ drop taken (pending k)
unfolding advanced
advanced-pending taken k = sym (drop-drop k.w_off taken (text_of k.w_buf))

write_pending-part :
    (current_object n taken : ℕ) (lpc : Sockets → Sockets) (s : Sockets)
    → taken < (s.lpc_socks n).w_len
    → (write_pending current_object n (wrote taken) lpc s
        ≡ (put n (advanced taken (s.lpc_socks n)) s, false))
unfolding write_pending
write_pending-part current_object n taken lpc s lt =
    let more : ((s.lpc_socks n).w_len - taken == 0) ≡ false = ground arith in rw more refl

choose {ℓ} :
    {A : Type ℓ} (b : Bool) (o : Option (List ℕ)) (buf : List ℕ) (x y : A) (z : A)
    → b ≡ true
    → o ≡ some buf
    → (if not b then x else elim o [ none ↦ y | some _ ↦ z ]) ≡ z
choose b o buf x y z h h₁ = rw (h, h₁) refl

handler-part :
    (current_object n taken : ℕ) (buf : List ℕ) (lpc : Sockets → Sockets) (s : Sockets)
    → Waits buf (s.lpc_socks n)
    → taken < (s.lpc_socks n).w_len
    → (socket_write_select_handler current_object n (wrote taken) lpc s
        ≡ (put n (advanced taken (s.lpc_socks n)) s, false))
unfolding socket_write_select_handler
handler-part current_object n taken buf lpc s w lt =
    choose (s.lpc_socks n).s_blocked (s.lpc_socks n).w_buf buf _ _ _ w.blocked w.held
    ∙ write_pending-part current_object n taken lpc s lt

-- When the system takes `taken` of the bytes that wait, and not all, the rest of them waits on, and no
-- function is called.
write_handler-part :
    (current_object n taken : ℕ) (buf : List ℕ) (lpc : Sockets → Sockets) (s : Sockets)
    → Waits buf (s.lpc_socks n)
    → taken < (s.lpc_socks n).w_len
    → let (t, raised) = socket_write_select_handler current_object n (wrote taken) lpc s in
      ((raised ≡ false)
        × Waits buf (t.lpc_socks n)
        × (pending (t.lpc_socks n) ≡ drop taken (pending (s.lpc_socks n))))
write_handler-part current_object n taken buf lpc s w lt =
    rw
      (
        handler-part current_object n taken buf lpc s w lt,
        put-at n (advanced taken (s.lpc_socks n)) s,
      )
      (refl, advanced-Waits taken buf (s.lpc_socks n) w lt, advanced-pending taken (s.lpc_socks n))

put_bytes-append :
    (o : ℕ) (a b : List ℕ) (w : ℕ)
    → put_bytes (o + length a) b (put_bytes o a w) ≡ put_bytes o (a ++ b) w
unfolding put_bytes
put_bytes-append o [] b w = simp unary_clauses refl
put_bytes-append o (x ∷ a) b w =
    let e : o + suc (length a) ≡ (o + 1) + length a = omega arith in
    rw e (put_bytes-append (o + 1) a b (put_byte o x w))

put_bytes-htonl : (len : ℕ) → len < 4294967296 → ntohl (put_bytes 0 (htonl len) 0) ≡ len
unfolding put_bytes put_byte htonl ntohl
put_bytes-htonl len lt = omega arith

-- A length below 2 ^ 32 that is sent in front of a value is read as it was, in whatever two parts its
-- four bytes arrive.
pub htonl-ntohl :
    (len : ℕ) (a b : List ℕ)
    → len < 4294967296
    → a ++ b ≡ htonl len
    → ntohl (put_bytes (length a) b (put_bytes 0 a 0)) ≡ len
htonl-ntohl len a b lt split =
    let e : length a ≡ 0 + length a = omega arith in
    rw (e, put_bytes-append 0 a b 0, split) (put_bytes-htonl len lt)
