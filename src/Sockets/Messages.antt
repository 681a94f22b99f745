-- ===== src/Sockets/Messages.antt =====
-- A value that src/socket_efuns.c sends to another driver in mode MUD, with the text that src/object.c
-- writes and reads.
use mudos_v22pre.Prelude.{
  ℕ, suc, ◌+◌, ◌≤◌, ◌<◌, true, false, none, some, List, [], ◌∷◌, ◌++◌, ◌==◌, ltb, ◌||◌, ◌≡◌, refl,
  sym, ap, ◌∙◌, arith, length, length-append, All, update_self, ==_self, update-update,
}
use mudos_v22pre.Saving.Value.{Value, nil, cons}
use mudos_v22pre.Saving.Save.{save_svalue}
use mudos_v22pre.Saving.Restore.{Reader, no_sizes, restore_svalue}
use mudos_v22pre.Saving.Restore as Restore
use mudos_v22pre.Saving.Plain.{Plain}
use mudos_v22pre.Saving.ZeroFree.{IsChar, ZeroFree, save_svalue-chars}
use mudos_v22pre.Saving.RoundTrip.{restore_svalue-save}
use mudos_v22pre.Sockets.State.{Socket, Sockets, SocketError, mud, data_xfer, put, number, restored}
use mudos_v22pre.Sockets.Transfer.{
  Message, Packed, bytes, unpacked, a_buffer, a_string, an_array, an_object, another, mud_packet,
  htonl, call_callback,
}
use mudos_v22pre.Sockets.Handlers.{
  ReadResult, received, c_string, put_bytes, ntohl, read_value, read_body, read_header,
  socket_read_select_handler,
}
use mudos_v22pre.Sockets.Pending.{htonl-ntohl}

c_string-text : (text pad : List ℕ) → All IsChar text → c_string (text ++ 0 ∷ pad) ≡ text
unfolding c_string
c_string-text [] pad h = refl
c_string-text (c ∷ text) pad (h, hs) =
    rw (c_string, h) (ap (λ t. c ∷ t) (c_string-text text pad hs))

htonl-once : (n : ℕ) → n < 4294967296 → ntohl (put_bytes 0 (htonl n) 0) ≡ n
unfolding put_bytes htonl
htonl-once n lt = htonl-ntohl n (htonl n) [] lt refl

-- A connection that waits for a value.
abbrev pub ready : Socket → Socket
ready k = record k { state = data_xfer; mode = mud; s_header = true; r_off = 0; r_len = 0 }

abbrev with_length : ℕ → Socket → Socket
with_length n k = record (ready k) { s_header = false; r_len = n; r_buf = some [] }

abbrev with_bytes : ℕ → List ℕ → Socket → Socket
with_bytes n buf k = record (with_length n k) { r_buf = some buf; r_off = n }

module _ (max current_object i : ℕ) (lpc : Sockets → Sockets) (k : Socket) where
  header-read :
      (n : ℕ) (body : ReadResult) (s : Sockets)
      → s.lpc_socks i ≡ ready k
      → n < 4294967296
      → 0 < n
      → n ≤ max
      → (read_header max current_object i (received (htonl n)) body lpc s
          ≡ read_body current_object i body lpc (put i (with_length n k) s))
  unfolding read_header htonl
  header-read n body s h lt some_bytes fits =
      let whole : ntohl (put_bytes 0 (htonl n) 0) ≡ n = htonl-once n lt in
      let fits : (n == 0 || ltb max n) ≡ false = ground (arith, some_bytes, fits) in
      rw (read_header, h, whole, fits) refl

  body-read :
      (n c : ℕ) (more : List ℕ) (s : Sockets)
      → s.lpc_socks i ≡ with_length n k
      → length (c ∷ more) ≡ n
      → (read_body current_object i (received (c ∷ more)) lpc s
          ≡ read_value i lpc (put i (with_bytes n (c ∷ more) k) s))
  unfolding read_body
  body-read n c more s h e =
      let off : 0 + length (c ∷ more) ≡ n = omega (arith, e) in
      let begun : ltb 0 n ≡ true = ground (arith, e) in
      let done : (n == n) ≡ true = ==_self n in rw (read_body, h, off, begun, done) refl

  value-read :
      (n : ℕ) (buf : List ℕ) (s : Sockets)
      → s.lpc_socks i ≡ with_bytes n buf k
      → (read_value i lpc s
          ≡ call_callback i k.read_callback
              (number i ∷ restored (c_string buf) ∷ [])
              lpc
              (put i (record (ready k) { r_buf = none }) s))
  unfolding read_value
  value-read n buf s h = rw (read_value, h) refl

  all-read :
      (n : ℕ) (buf : List ℕ) (s : Sockets)
      → s.lpc_socks i ≡ with_length n k
      → length buf ≡ n
      → 0 < n
      → (read_body current_object i (received buf) lpc s
          ≡ read_value i lpc (put i (with_bytes n buf k) s))
  all-read n [] s h e some_bytes = absurd (omega (arith, e, some_bytes))
  all-read n (c ∷ more) s h e some_bytes = body-read n c more s h e

  handler-header :
      (first body : ReadResult) (addr : List ℕ) (s : Sockets)
      → s.lpc_socks i ≡ ready k
      → (socket_read_select_handler max current_object i first body addr lpc s
          ≡ read_header max current_object i first body lpc s)
  unfolding socket_read_select_handler
  handler-header first body addr s h =
      let st : (s.lpc_socks i).state ≡ data_xfer = ap (λ k. k.state) h in
      let md : (s.lpc_socks i).mode ≡ mud = ap (λ k. k.mode) h in
      let hd : (s.lpc_socks i).s_header ≡ true = ap (λ k. k.s_header) h in
      rw (socket_read_select_handler, st, md, hd) refl

  value-delivered :
      (n : ℕ) (buf addr : List ℕ) (s : Sockets)
      → s.lpc_socks i ≡ ready k
      → length buf ≡ n
      → n < 4294967296
      → 0 < n
      → n ≤ max
      → (socket_read_select_handler max current_object i
            (received (htonl n))
            (received buf)
            addr
            lpc
            s
          ≡ call_callback i k.read_callback
              (number i ∷ restored (c_string buf) ∷ [])
              lpc
              (put i (record (ready k) { r_buf = none }) s))
  unfolding put
  value-delivered n buf addr s h e lt some_bytes fits =
      let s₁ = put i (with_length n k) s in
      let s₂ = put i (with_bytes n buf k) s₁ in
      handler-header (received (htonl n)) (received buf) addr s h
      ∙ (header-read n (received buf) s h lt some_bytes fits
          ∙ (all-read n buf s₁ (update_self s.lpc_socks i (with_length n k)) e some_bytes
              ∙ (value-read n buf s₂ (update_self s₁.lpc_socks i (with_bytes n buf k))
                  ∙ ap
                      (λ s.
                        call_callback i k.read_callback (number i ∷ restored (c_string buf) ∷ [])
                          lpc s)
                      (ap (λ f. record s { lpc_socks = f })
                        (update-update s₁.lpc_socks i (with_bytes n buf k)
                            (record (ready k) { r_buf = none })
                          ∙ update-update s.lpc_socks i (with_length n k)
                              (record (ready k) { r_buf = none }))))))

bytes_of : Packed → List ℕ
bytes_of (bytes b) = b
bytes_of (unpacked e) = []

unpacked-bytes : {e : SocketError} (b : List ℕ) → unpacked e ≡ bytes b → ⊥
unpacked-bytes b h = cc

packet-parts :
    (buf packet : List ℕ) (m : Message)
    → mud_packet (some buf) m ≡ bytes packet
    → packet ≡ htonl (length buf) ++ buf
unfolding mud_packet bytes_of
packet-parts buf packet (a_buffer b) h = sym (ap bytes_of h)
packet-parts buf packet (a_string b) h = sym (ap bytes_of h)
packet-parts buf packet (an_array els) h = sym (ap bytes_of h)
packet-parts buf packet an_object h = absurd (unpacked-bytes packet h)
packet-parts buf packet another h = sym (ap bytes_of h)

-- The bytes behind the length: the text, the 0 at its end, and what else is in the buffer.
abbrev pub saved_buffer : Reader → Value → List ℕ → List ℕ
saved_buffer e v pad = save_svalue e.floats v [] ++ 0 ∷ pad

-- A value is sent in mode MUD and read by a driver with the same limits: the packet is the length of its
-- text and the bytes of it, and when these two come in one after the other, the read callback of a
-- connection that waits for a value gets the text, which `restore_svalue` reads as the value that was
-- sent. The value is as in `restore_svalue-save`, with no byte 0 in its strings, and short enough.
pub mud_value-received :
    (e : Reader) (v : Value) (pad addr : List ℕ) (max current_object i : ℕ)
    (lpc : Sockets → Sockets) (k : Socket) (s : Sockets) (m : Message) (packet : List ℕ)
    → Plain e.max_array_size (cons v nil)
    → ZeroFree (cons v nil)
    → length (saved_buffer e v pad) < 4294967296
    → length (saved_buffer e v pad) ≤ max
    → mud_packet (some (saved_buffer e v pad)) m ≡ bytes packet
    → s.lpc_socks i ≡ ready k
    → let text = save_svalue e.floats v [] in
      let buf = saved_buffer e v pad in
      (packet ≡ htonl (length buf) ++ buf)
      × (socket_read_select_handler max current_object i
            (received (htonl (length buf)))
            (received buf)
            addr
            lpc
            s
          ≡ call_callback i k.read_callback
              (number i ∷ restored text ∷ [])
              lpc
              (put i (record (ready k) { r_buf = none }) s))
      × (restore_svalue e (suc (length text)) text ≡ some (Restore.restored v [] no_sizes))
mud_value-received e v pad addr max current_object i lpc k s m packet p z lt fits sent h =
    let text = save_svalue e.floats v [] in
    let buf = text ++ 0 ∷ pad in
    let string = c_string-text text pad (save_svalue-chars e.floats e.max_array_size v p z) in
    let some_bytes : 0 < length buf = omega (arith, length-append text (0 ∷ pad)) in
    (
      packet-parts buf packet m sent,
      value-delivered max current_object i lpc k (length buf) buf addr s h refl lt some_bytes fits
          ∙ ap
              (λ (str : List ℕ).
                call_callback i k.read_callback (number i ∷ restored str ∷ []) lpc
                  (put i (record (ready k) { r_buf = none }) s))
              string,
      restore_svalue-save e v p,
    )
