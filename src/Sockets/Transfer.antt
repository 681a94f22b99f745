-- ===== src/Sockets/Transfer.antt =====
-- The operations of src/socket_efuns.c that write to a socket, call its functions and close it.
use mudos_v22pre.Prelude.{
  ℕ, ◌-◌, ◌/◌, ◌%◌, Bool, true, false, Option, none, some, List, [], ◌∷◌, ◌++◌, ◌==◌, if◌then◌else◌,
  ltb, length, not, ◌&&◌,
}
use mudos_v22pre.Prelude.Int.{ℤ}
use mudos_v22pre.Sockets.State.{
  mud, stream, datagram, SocketState, closed, flushing, data_xfer, Callback, absent, string, funp,
  Socket, Sockets, Pushed, number, object, Effect, os_socket_close, call_function, SocketError,
  ee_success, ee_badf, ee_fdrange, ee_security, ee_modenotsupp, ee_noaddr, ee_wouldblock,
  ee_badaddr, ee_already, ee_notconn, ee_typenotsupp, ee_sendto, ee_send, ee_callback, ee_sockrlsd,
  ee_socknotrlsd, raised_error, Errno, e_wouldblock, put, clear_callbacks, in_range, is_shut,
  is_owner, owned,
}
use mudos_v22pre.Sockets.Open.{Net, set_callbacks, socket_name_to_sin}

-- An element of an array that is written: the bytes of a number or a real, or another value.
pub data Element : Type 0 where
  word : List ℕ → Element
  skipped : Element

-- The message's value, by its type.
pub data Message : Type 0 where
  an_object : Message
  a_string : List ℕ → Message
  a_buffer : List ℕ → Message
  an_array : List Element → Message
  another : Message

-- What `OS_socket_write` and `sendto` return.
pub data WriteResult : Type 0 where
  wrote : ℕ → WriteResult
  write_failed : Errno → WriteResult

-- The bytes to send, or the error that ends the call.
pub data Packed : Type 0 where
  bytes : List ℕ → Packed
  unpacked : SocketError → Packed

-- `htonl((long) len)`, as it lies in memory.
unfoldable pub htonl : ℕ → List ℕ
htonl len = (len / 16777216 % 256) ∷ (len / 65536 % 256) ∷ (len / 256 % 256) ∷ (len % 256) ∷ []

-- `malloced` is what the new buffer holds at the places of an element that is skipped.
pub array_bytes : List ℕ → List Element → List ℕ
array_bytes malloced [] = []
array_bytes malloced (word b ∷ els) = b ++ array_bytes malloced els
array_bytes malloced (skipped ∷ els) = malloced ++ array_bytes malloced els

-- `saved` holds the bytes of the buffer from `buf + 4` on: what `save_svalue` writes, its 0, and up to
-- `svalue_save_size` what was there. It is `none` if that function raises its error, a value nested too
-- deep.
unfoldable pub mud_packet : Option (List ℕ) → Message → Packed
unfolding htonl
mud_packet saved an_object = unpacked ee_typenotsupp
mud_packet none _ = unpacked raised_error
mud_packet (some text) _ = bytes (htonl (length text) ++ text)

pub stream_packet : List ℕ → Message → Packed
unfolding array_bytes
stream_packet malloced (a_buffer b) = bytes b
stream_packet malloced (a_string b) = bytes b
stream_packet malloced (an_array els) = bytes (array_bytes malloced els)
stream_packet malloced an_object = unpacked ee_typenotsupp
stream_packet malloced another = unpacked ee_typenotsupp

pub sent : WriteResult → SocketError
sent (wrote off) = ee_success
sent (write_failed e) = ee_sendto

pub send_datagram : WriteResult → Message → SocketError
unfolding sent
send_datagram result (a_string b) = sent result
send_datagram result (a_buffer b) = sent result
send_datagram result an_object = ee_typenotsupp
send_datagram result (an_array els) = ee_typenotsupp
send_datagram result another = ee_typenotsupp

pub write_error : Errno → SocketError
write_error e_wouldblock = ee_wouldblock
write_error _ = ee_send

-- The bytes of `buf` from `off` on wait in `w_buf`.
unfoldable pub waiting : List ℕ → ℕ → Socket → Socket
waiting buf off k = record k {
  s_blocked = true;
  w_buf = some buf;
  w_off = off;
  w_len = length buf - off;
}

unfoldable pub send_bytes : ℕ → WriteResult → Packed → Sockets → Sockets × SocketError
unfolding put write_error waiting
send_bytes n result (unpacked e) s = (s, e)
send_bytes n (write_failed e) (bytes buf) s = (s, write_error e)
send_bytes n (wrote off) (bytes buf) s =
    if ltb off (length buf)
    then (put n (waiting buf off (s.lpc_socks n)) s, ee_callback)
    else (s, ee_success)

pub write_checks : Net → Option (List ℕ) → Socket → Option SocketError
unfolding socket_name_to_sin
write_checks net name k = elim k.mode [
  | datagram ↦ elim name [
    | none ↦ some ee_noaddr
    | some a ↦ elim (socket_name_to_sin net a) [ none ↦ some ee_badaddr | some sin ↦ none ]
  ]
  | _ ↦ elim k.state [
    | data_xfer ↦ elim name [
      | some a ↦ some ee_badaddr
      | none ↦ if k.s_blocked then some ee_already else none
    ]
    | _ ↦ some ee_notconn
  ]
]

-- `saved`, `malloced` and `result` are what other code gives.
abbrev pub socket_write :
    Net
    → ℕ
    → ℤ
    → Message
    → Option (List ℕ)
    → Option (List ℕ)
    → List ℕ
    → WriteResult
    → Sockets
    → Sockets × SocketError
unfolding owned send_bytes send_datagram mud_packet stream_packet write_checks
socket_write net current_object fd message name saved malloced result s =
    owned current_object fd s λ n. elim (write_checks net name (s.lpc_socks n)) [
      | some e ↦ (s, e)
      | none ↦ elim (s.lpc_socks n).mode [
        | mud ↦ send_bytes n result (mud_packet saved message) s
        | stream ↦ send_bytes n result (stream_packet malloced message) s
        | datagram ↦ (s, send_datagram result message)
        | _ ↦ (s, ee_modenotsupp)
      ]
    ]

pub is_special : List ℕ → Bool
is_special [] = false
is_special (c ∷ name) = c == 35

pub called : Callback → List Pushed → Socket → (Sockets → Sockets) → Sockets → Sockets
called cb args k lpc s = lpc (record s { trace = call_function cb k.owner_ob args ∷ s.trace })

-- `lpc` is what the called function does to the table. The second value is `true` if an LPC error is
-- raised.
unfoldable pub call_callback :
    ℕ → Callback → List Pushed → (Sockets → Sockets) → Sockets → Sockets × Bool
unfolding is_special called
call_callback n absent args lpc s = (s, false)
call_callback n (funp f) args lpc s = (called (funp f) args (s.lpc_socks n) lpc s, false)
call_callback n (string name) args lpc s =
    if is_special name then (s, true) else (called (string name) args (s.lpc_socks n) lpc s, false)

pub record CloseFlags : Type 0 where
  pub sc_force : Bool
  pub sc_do_callback : Bool
  pub sc_final_close : Bool

-- `OS_socket_close` is called again while it is interrupted.
pub close_fd : Option ℕ → List Effect
close_fd none = []
close_fd (some d) = os_socket_close d ∷ []

-- `socket_close` behind the call of the function.
unfoldable pub shut_down : ℕ → Sockets → Sockets
unfolding clear_callbacks put close_fd
shut_down n s =
    let s₁ = clear_callbacks n s in
    let k = s₁.lpc_socks n in
    if k.s_blocked
    then put n (record k { state = flushing }) s₁
    else put n (record k { state = closed }) (record s₁ { trace = close_fd k.fd ++ s₁.trace })

-- `owns` is whether the caller owns the socket.
unfoldable pub owner_check : CloseFlags → Bool → Option SocketError
owner_check flags owns = if not flags.sc_force && not owns then some ee_security else none

unfoldable pub close_checks : CloseFlags → SocketState → Bool → Option SocketError
unfolding owner_check
close_checks flags closed owns = some ee_badf
close_checks flags flushing owns =
    if not flags.sc_final_close then some ee_badf else owner_check flags owns
close_checks flags _ owns = owner_check flags owns

-- No error code is returned, `none`, if an LPC error is raised.
unfoldable pub socket_close :
    ℕ → ℤ → CloseFlags → (Sockets → Sockets) → Sockets → Sockets × Option SocketError
unfolding in_range call_callback close_checks shut_down is_owner
socket_close current_object fd flags lpc s = elim (in_range s fd) [
  | none ↦ (s, some ee_fdrange)
  | some n ↦
      elim (close_checks flags (s.lpc_socks n).state
        (is_owner (s.lpc_socks n).owner_ob current_object)) [
          | some e ↦ (s, some e)
          | none ↦
              if flags.sc_do_callback
              then (let (s₁, raised) =
                    call_callback n (s.lpc_socks n).close_callback (number n ∷ []) lpc s in
                  if raised then (s₁, none) else (shut_down n s₁, some ee_success))
              else (shut_down n s, some ee_success)
        ]
]

unfoldable pub socket_release :
    ℕ → ℤ → ℕ → Callback → (Sockets → Sockets) → Sockets → Sockets × SocketError
unfolding owned put
socket_release current_object fd ob callback lpc s = owned current_object fd s λ n.
    let k = s.lpc_socks n in
    if k.s_release
    then (s, ee_sockrlsd)
    else (let s₁ = put n (record k { s_release = true; release_ob = some ob }) s in
        let call = call_function callback (some ob) (number n ∷ object ob ∷ []) in
        let s₂ = lpc (record s₁ { trace = call ∷ s₁.trace }) in
        if (s₂.lpc_socks n).s_release
        then (
          put n (record (s₂.lpc_socks n) { s_release = false; release_ob = none }) s₂,
          ee_socknotrlsd,
        )
        else (s₂, ee_success))

-- `socket_acquire` for an index in the table.
unfoldable pub acquire_entry :
    ℕ → ℕ → Callback → Callback → Callback → Sockets → Sockets × SocketError
unfolding is_owner put set_callbacks
acquire_entry current_object n read write close s =
    let k = s.lpc_socks n in
    if is_shut k.state
    then (s, ee_badf)
    else if not k.s_release
    then (s, ee_socknotrlsd)
    else if is_owner k.release_ob current_object
    then (
      set_callbacks n read write close (
          put n (record k { s_release = false; owner_ob = some current_object; release_ob = none })
            s),
      ee_success,
    )
    else (s, ee_security)

unfoldable pub socket_acquire :
    ℕ → ℤ → Callback → Callback → Callback → Sockets → Sockets × SocketError
unfolding in_range acquire_entry
socket_acquire current_object fd read write close s = elim (in_range s fd) [
  | none ↦ (s, ee_fdrange)
  | some n ↦ acquire_entry current_object n read write close s
]

abbrev pub get_socket_owner : ℤ → Sockets → Option ℕ
unfolding in_range
get_socket_owner fd s = elim (in_range s fd) [
  | none ↦ none
  | some n ↦ if is_shut (s.lpc_socks n).state then none else (s.lpc_socks n).owner_ob
]

-- The address and the port in the machine's own order.
abbrev pub get_socket_address : ℤ → Sockets → (ℕ × ℕ) × SocketError
unfolding in_range
get_socket_address fd s = elim (in_range s fd) [
  | none ↦ ((0, 0), ee_fdrange)
  | some n ↦ let addr = (s.lpc_socks n).r_addr in ((addr.sin_addr, addr.sin_port), ee_success)
]
