-- ===== src/Sockets/Handlers.antt =====
-- The operations of src/socket_efuns.c that the driver calls: the handlers of `select`, and the
-- closing of a destructed object's sockets.
use mudos_v22pre.Prelude.{
  ℕ, zero, suc, ◌+◌, ◌-◌, ◌*◌, ◌/◌, ◌%◌, Bool, true, false, Option, none, some, List, [], ◌∷◌, ◌==◌,
  if◌then◌else◌, ltb, length, not, ◌&&◌, ◌||◌,
}
use mudos_v22pre.Prelude.Int.{pos}
use mudos_v22pre.Sockets.State.{
  mud, stream, datagram, SocketState, closed, flushing, unbound, bound, listen, data_xfer, Socket,
  Sockets, Pushed, number, text, buffer, restored, Errno, e_wouldblock, e_intr, e_connrefused,
  SocketError, put, is_shut, is_owner,
}
use mudos_v22pre.Sockets.Transfer.{
  WriteResult, wrote, write_failed, call_callback, CloseFlags, socket_close,
}

-- The end of a handler: the table, and `true` if an LPC error is raised.
abbrev pub Handled : Type 0
Handled = Sockets × Bool

abbrev pub is_flushing : SocketState → Bool
is_flushing flushing = true
is_flushing _ = false

abbrev pub is_interrupted : Errno → Bool
is_interrupted e_intr = true
is_interrupted _ = false

abbrev final_close : CloseFlags
final_close = record { sc_force = true; sc_do_callback = false; sc_final_close = true }

abbrev close_with_callback : CloseFlags
close_with_callback = record { sc_force = true; sc_do_callback = true; sc_final_close = false }

abbrev pub forced_close : CloseFlags
forced_close = record { sc_force = true; sc_do_callback = false; sc_final_close = false }

pub is_none : Option SocketError → Bool
is_none none = true
is_none (some e) = false

-- `socket_close` as the handlers call it, for an index of the table.
unfoldable pub close_index : ℕ → ℕ → CloseFlags → (Sockets → Sockets) → Sockets → Handled
unfolding socket_close is_none
close_index current_object n flags lpc s =
    let (s₁, r) = socket_close current_object (pos n) flags lpc s in (s₁, is_none r)

-- The part behind the writing.
pub unblock : ℕ → ℕ → (Sockets → Sockets) → Sockets → Handled
unfolding put close_index call_callback
unblock current_object n lpc s =
    let s₁ = put n (record (s.lpc_socks n) { s_blocked = false }) s in
    if is_flushing (s.lpc_socks n).state
    then close_index current_object n final_close lpc s₁
    else call_callback n (s.lpc_socks n).write_callback (number n ∷ []) lpc s₁

unfoldable pub advanced : ℕ → Socket → Socket
advanced cc k = record k { w_off = k.w_off + cc; w_len = k.w_len - cc }

-- What waits was written up to `cc` bytes, or there was an error.
unfoldable pub write_pending : ℕ → ℕ → WriteResult → (Sockets → Sockets) → Sockets → Handled
unfolding put close_index unblock advanced
write_pending current_object n (write_failed e) lpc s =
    if is_flushing (s.lpc_socks n).state && not (is_interrupted e)
    then close_index current_object n final_close lpc
        (put n (record (s.lpc_socks n) { s_blocked = false }) s)
    else (s, false)
write_pending current_object n (wrote cc) lpc s =
    let k = s.lpc_socks n in
    if k.w_len - cc == 0
    then unblock current_object n lpc (put n (record k { w_buf = none; w_off = 0; w_len = 0 }) s)
    else (put n (advanced cc k) s, false)

unfoldable pub socket_write_select_handler :
    ℕ → ℕ → WriteResult → (Sockets → Sockets) → Sockets → Handled
unfolding unblock write_pending
socket_write_select_handler current_object n result lpc s =
    if not (s.lpc_socks n).s_blocked then (s, false) else elim (s.lpc_socks n).w_buf [
      | none ↦ unblock current_object n lpc s
      | some buf ↦ write_pending current_object n result lpc s
    ]

-- What `recv`, `recvfrom` and `OS_socket_read` give: the bytes, none of them at the end.
pub data ReadResult : Type 0 where
  received : List ℕ → ReadResult
  read_failed : Errno → ReadResult

-- The code behind `switch (state)`.
pub read_broken : ℕ → ℕ → Option Errno → (Sockets → Sockets) → Sockets → Handled
unfolding close_index
read_broken current_object n error lpc s =
    let close = close_index current_object n close_with_callback lpc s in
    let k = s.lpc_socks n in
    elim error [
      | some e_intr ↦ (s, false)
      | some e_wouldblock ↦ (s, false)
      | some e_connrefused ↦ elim k.state [
        | bound ↦ elim k.mode [ datagram ↦ (s, false) | _ ↦ close ]
        | _ ↦ close
      ]
      | _ ↦ close
    ]

-- The text of a buffer that a byte 0 ends.
unfoldable pub c_string : List ℕ → List ℕ
c_string [] = []
c_string (c ∷ str) = let rest = c_string str in if c == 0 then [] else c ∷ rest

pub push_bytes : Bool → List ℕ → Pushed
unfolding c_string
push_bytes true buf = buffer buf
push_bytes false buf = text (c_string buf)

-- The byte `o` of a word, the least one first, is set to `b`.
unfoldable pub put_byte : ℕ → ℕ → ℕ → ℕ
put_byte zero b w = b + 256 * (w / 256)
put_byte (suc o) b w = w % 256 + 256 * put_byte o b (w / 256)

unfoldable pub put_bytes : ℕ → List ℕ → ℕ → ℕ
unfolding put_byte
put_bytes o [] w = w
put_bytes o (b ∷ bs) w = put_bytes (o + 1) bs (put_byte o b w)

-- `ntohl`, on a machine whose words have the least byte first.
unfoldable pub ntohl : ℕ → ℕ
ntohl w = w % 256 * 16777216 + w / 256 % 256 * 65536 + w / 65536 % 256 * 256 + w / 16777216 % 256

-- The bytes of `r_buf`, with new ones at `off`.
pub store_at : ℕ → List ℕ → List ℕ → List ℕ
store_at zero new old = new
store_at (suc off) new [] = []
store_at (suc off) new (b ∷ old) = b ∷ store_at off new old

pub buffer_of : Option (List ℕ) → List ℕ
buffer_of none = []
buffer_of (some b) = b

-- A whole value is there.
unfoldable pub read_value : ℕ → (Sockets → Sockets) → Sockets → Handled
unfolding put call_callback buffer_of c_string
read_value n lpc s =
    let k = s.lpc_socks n in
    call_callback n k.read_callback (number n ∷ restored (c_string (buffer_of k.r_buf)) ∷ []) lpc
      (put n (record k { s_header = true; r_buf = none; r_off = 0; r_len = 0 }) s)

unfoldable pub read_body : ℕ → ℕ → ReadResult → (Sockets → Sockets) → Sockets → Handled
unfolding put read_broken read_value store_at buffer_of
read_body current_object n (read_failed e) lpc s =
    if ltb (s.lpc_socks n).r_off (s.lpc_socks n).r_len
    then read_broken current_object n (some e) lpc s
    else read_value n lpc s
read_body current_object n (received []) lpc s =
    if ltb (s.lpc_socks n).r_off (s.lpc_socks n).r_len
    then read_broken current_object n none lpc s
    else read_value n lpc s
read_body current_object n (received (c ∷ more)) lpc s =
    let k = s.lpc_socks n in
    let off = k.r_off + length (c ∷ more) in
    let s₁ =
      put n
        (record k { r_buf = some (store_at k.r_off (c ∷ more) (buffer_of k.r_buf)); r_off = off })
        s in
    if ltb k.r_off k.r_len
    then (if off == k.r_len then read_value n lpc s₁ else (s₁, false))
    else read_value n lpc s

-- The four bytes of the length; the body is read by a second call of `recv`.
unfoldable pub read_header :
    ℕ → ℕ → ℕ → ReadResult → ReadResult → (Sockets → Sockets) → Sockets → Handled
unfolding put put_bytes ntohl read_broken read_body
read_header max current_object n (read_failed e) body lpc s =
    read_broken current_object n (some e) lpc s
read_header max current_object n (received []) body lpc s = read_broken current_object n none lpc s
read_header max current_object n (received (c ∷ more)) body lpc s =
    let k = s.lpc_socks n in
    let off = k.r_off + length (c ∷ more) in
    let w = put_bytes k.r_off (c ∷ more) k.r_len in
    let len = ntohl w in
    if off == 4
    then (let k₁ = record k { s_header = false; r_off = 0; r_len = len } in
        if len == 0 || ltb max len
        then read_broken current_object n none lpc (put n k₁ s)
        else read_body current_object n body lpc (put n (record k₁ { r_buf = some [] }) s))
    else (put n (record k { r_off = off; r_len = w }) s, false)

pub read_stream : ℕ → ℕ → ReadResult → (Sockets → Sockets) → Sockets → Handled
unfolding read_broken push_bytes call_callback
read_stream current_object n (read_failed e) lpc s = read_broken current_object n (some e) lpc s
read_stream current_object n (received []) lpc s = read_broken current_object n none lpc s
read_stream current_object n (received (c ∷ more)) lpc s =
    let k = s.lpc_socks n in
    call_callback n k.read_callback (number n ∷ push_bytes k.s_binary (c ∷ more) ∷ []) lpc s

-- `addr` is the sender's address and port, as a text.
pub read_datagram : ℕ → ℕ → ReadResult → List ℕ → (Sockets → Sockets) → Sockets → Handled
unfolding read_broken push_bytes call_callback
read_datagram current_object n (read_failed e) addr lpc s =
    read_broken current_object n (some e) lpc s
read_datagram current_object n (received []) addr lpc s = read_broken current_object n none lpc s
read_datagram current_object n (received (c ∷ more)) addr lpc s =
    let k = s.lpc_socks n in
    call_callback n k.read_callback (number n ∷ push_bytes k.s_binary (c ∷ more) ∷ text addr ∷ [])
      lpc s

-- `first` is what the first reading gives, and `body` what a second one gives, for the body behind a
-- header. `max` is `MAX_BYTE_TRANSFER`.
unfoldable pub socket_read_select_handler :
    ℕ → ℕ → ℕ → ReadResult → ReadResult → List ℕ → (Sockets → Sockets) → Sockets → Handled
unfolding put read_broken read_datagram read_stream read_header read_body call_callback
socket_read_select_handler max current_object n first body addr lpc s =
    let k = s.lpc_socks n in
    let broken = read_broken current_object n none lpc s in
    elim k.state [
      | closed ↦ (s, false)
      | flushing ↦ (s, false)
      | unbound ↦ broken
      | bound ↦ elim k.mode [
        | datagram ↦ read_datagram current_object n first addr lpc s
        | _ ↦ broken
      ]
      | listen ↦
          call_callback n k.read_callback (number n ∷ []) lpc
            (put n (record k { s_waccept = true }) s)
      | data_xfer ↦ elim k.mode [
        | mud ↦
            if k.s_header
            then read_header max current_object n first body lpc s
            else read_body current_object n first lpc s
        | stream ↦ read_stream current_object n first lpc s
        | _ ↦ broken
      ]
    ]

-- The body of the loop of `close_referencing_sockets`.
unfoldable pub close_one : ℕ → ℕ → ℕ → Sockets → Sockets
unfolding is_owner close_index
close_one current_object ob i s =
    if is_owner (s.lpc_socks i).owner_ob ob && not (is_shut (s.lpc_socks i).state)
    then (close_index current_object i forced_close (λ t. t) s).0
    else s

-- The loop from `i` on, with `count` entries left.
unfoldable pub close_owned : ℕ → ℕ → ℕ → ℕ → Sockets → Sockets
unfolding close_one
close_owned current_object ob i zero s = s
close_owned current_object ob i (suc count) s =
    close_owned current_object ob (i + 1) count (close_one current_object ob i s)

unfoldable pub close_referencing_sockets : ℕ → ℕ → Sockets → Sockets
unfolding close_owned
close_referencing_sockets current_object ob s = close_owned current_object ob 0 s.max_lpc_socks s
