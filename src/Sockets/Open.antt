-- ===== src/Sockets/Open.antt =====
-- The operations of src/socket_efuns.c that open a socket and connect it.
use mudos_v22pre.Prelude.{
  ℕ, zero, suc, ◌%◌, Bool, true, false, Option, none, some, List, [], ◌∷◌, ◌==◌, if◌then◌else◌,
}
use mudos_v22pre.Prelude.Int.{ℤ}
use mudos_v22pre.Sockets.State.{
  SocketMode, mud, stream, datagram, stream_binary, datagram_binary, SocketState, unbound, bound,
  listen, data_xfer, SockAddr, zero_addr, Callback, absent, Socket, Sockets, os_socket_close,
  SocketError, ee_success, ee_socket, ee_setsockopt, ee_nonblock, ee_isbound, ee_addrinuse, ee_bind,
  ee_getsockname, ee_modenotsupp, ee_noaddr, ee_isconn, ee_listen, ee_notlistn, ee_wouldblock,
  ee_intr, ee_accept, ee_islisten, ee_badaddr, ee_already, ee_connrefused, ee_connect, Errno,
  e_wouldblock, e_intr, e_addrinuse, e_already, e_connrefused, e_inprogress, put, set_read_callback,
  set_write_callback, set_close_callback, copy_close_callback, find_new_socket, owned, is_datagram,
  mark_object,
}

-- An index of `lpc_socks`, or an error.
pub data Opened : Type 0 where
  opened : ℕ → Opened
  refused : SocketError → Opened

-- `binary`, and the mode that is left.
pub plain_mode : SocketMode → Bool × SocketMode
plain_mode stream_binary = (true, stream)
plain_mode datagram_binary = (true, datagram)
plain_mode mud = (false, mud)
plain_mode stream = (false, stream)
plain_mode datagram = (false, datagram)

-- The results of `socket`, `setsockopt` and `set_socket_nonblocking`.
pub record CreateResults : Type 0 where
  pub socket_fd : Option ℕ
  pub reuse_ok : Bool
  pub nonblocking_ok : Bool

-- The entry `i` of a socket that was created, by the values that it had.
abbrev pub created : ℕ → SocketMode → Bool → ℕ → Socket → Socket
created fd mode binary current_object k = record k {
  fd = some fd;
  s_release = false;
  s_blocked = false;
  s_header = true;
  s_waccept = false;
  s_binary = binary;
  mode = mode;
  state = unbound;
  l_addr = zero_addr;
  r_addr = zero_addr;
  name = [];
  owner_ob = some current_object;
  release_ob = none;
  r_buf = none;
  r_off = 0;
  r_len = 0;
  w_buf = none;
  w_off = 0;
  w_len = 0;
}

unfoldable pub set_callbacks : ℕ → Callback → Callback → Callback → Sockets → Sockets
unfolding set_read_callback set_write_callback set_close_callback
set_callbacks i read write close s =
    set_close_callback i close (set_write_callback i write (set_read_callback i read s))

-- The modes in which `switch (mode)` finds a socket type are those that `plain_mode` leaves.
abbrev pub socket_create :
    CreateResults → ℕ → SocketMode → Callback → Callback → Sockets → Sockets × Opened
unfolding plain_mode
socket_create os current_object mode read_callback close_callback s =
    let (binary, plain) = plain_mode mode in
    let (s₁, i) = find_new_socket s in
    elim os.socket_fd [
      | none ↦ (s₁, refused ee_socket)
      | some fd ↦
          let shut = record s₁ { trace = os_socket_close fd ∷ s₁.trace } in
          if os.reuse_ok
          then (if os.nonblocking_ok
              then (
                mark_object current_object (
                    set_callbacks i read_callback absent
                      (if is_datagram plain then absent else close_callback)
                      (put i (created fd plain binary current_object (s₁.lpc_socks i)) s₁)),
                opened i,
              )
              else (shut, refused ee_nonblock))
          else (shut, refused ee_setsockopt)
    ]

abbrev pub is_unbound : SocketState → Bool
is_unbound unbound = true
is_unbound _ = false

abbrev pub is_bound : SocketState → Bool
is_bound bound = true
is_bound _ = false

abbrev pub is_listening : SocketState → Bool
is_listening listen = true
is_listening _ = false

pub bind_error : Errno → SocketError
bind_error e_addrinuse = ee_addrinuse
bind_error _ = ee_bind

-- `bind` fails by an error; `getsockname` gives an address or fails.
abbrev pub socket_bind : ℕ → ℤ → Option Errno → Option SockAddr → Sockets → Sockets × SocketError
unfolding owned put bind_error
socket_bind current_object fd bind_result sockname s = owned current_object fd s λ n.
    let k = s.lpc_socks n in
    if is_unbound k.state
    then elim bind_result [
      | some e ↦ (s, bind_error e)
      | none ↦ elim sockname [
        | none ↦ (s, ee_getsockname)
        | some addr ↦ (put n (record k { l_addr = addr; state = bound }) s, ee_success)
      ]
    ]
    else (s, ee_isbound)

abbrev pub socket_listen : ℕ → ℤ → Callback → Bool → Sockets → Sockets × SocketError
unfolding owned put set_read_callback mark_object
socket_listen current_object fd callback listen_ok s = owned current_object fd s λ n.
    let k = s.lpc_socks n in
    if is_datagram k.mode
    then (s, ee_modenotsupp)
    else (if is_unbound k.state
        then (s, ee_noaddr)
        else (if is_bound k.state
            then (if listen_ok
                then (
                  mark_object current_object
                      (set_read_callback n callback (put n (record k { state = listen }) s)),
                  ee_success,
                )
                else (s, ee_listen))
            else (s, ee_isconn)))

-- What `accept` returns, whether `select` finds the new descriptor writable, and the host's name.
pub data AcceptResult : Type 0 where
  accepted : (accept_fd : ℕ) → (sin : SockAddr) → (writable : Bool) → (host : List ℕ) → AcceptResult
  failed : Errno → AcceptResult

pub accept_error : Errno → SocketError
accept_error e_wouldblock = ee_wouldblock
accept_error e_intr = ee_intr
accept_error _ = ee_accept

-- `strncpy(name, host, ADDR_BUF_SIZE)` with the last byte set to 0.
unfoldable pub cut : ℕ → List ℕ → List ℕ
cut zero str = []
cut (suc n) [] = []
cut (suc n) (c ∷ str) = c ∷ cut n str

-- The new entry, by the listening one and the values that it had.
abbrev pub accepted_socket : ℕ → SockAddr → Bool → List ℕ → ℕ → Socket → Socket → Socket
unfolding cut
accepted_socket accept_fd sin writable host current_object from k = record k {
  fd = some accept_fd;
  s_release = false;
  s_blocked = if writable then false else true;
  s_header = true;
  s_waccept = false;
  s_binary = from.s_binary;
  mode = from.mode;
  state = data_xfer;
  l_addr = from.l_addr;
  r_addr = sin;
  name = cut 63 host;
  owner_ob = some current_object;
  release_ob = none;
  r_buf = none;
  r_off = 0;
  r_len = 0;
  w_buf = none;
  w_off = 0;
  w_len = 0;
}

-- The index of the new socket stands beside the error code, `ee_success` if there is one.
abbrev pub accept_into :
    AcceptResult → ℕ → ℕ → Callback → Callback → Sockets → Sockets × SocketError
unfolding accept_error
accept_into (failed e) current_object n read write s = (s, accept_error e)
accept_into (accepted fd sin writable host) current_object n read write s =
    let (s₁, i) = find_new_socket s in
    let k = accepted_socket fd sin writable host current_object (s₁.lpc_socks n) (s₁.lpc_socks i) in
    (
      mark_object current_object (
          copy_close_callback i n
            (set_write_callback i write (set_read_callback i read (put i k s₁)))),
      ee_success,
    )

abbrev pub socket_accept :
    ℕ → ℤ → Callback → Callback → AcceptResult → Sockets → Sockets × SocketError
unfolding owned put
socket_accept current_object fd read write result s = owned current_object fd s λ n.
    let k = s.lpc_socks n in
    if is_datagram k.mode
    then (s, ee_modenotsupp)
    else (if is_listening k.state
        then accept_into result current_object n read write
            (put n (record k { s_waccept = false }) s)
        else (s, ee_notlistn))

-- `atoi` and `inet_addr` of the system, and `htons((u_short) port)`.
pub record Net : Type 0 where
  pub atoi : List ℕ → ℕ
  pub inet_addr : List ℕ → ℕ

-- The text before the first space and the text behind it.
pub split_space : List ℕ → Option (List ℕ × List ℕ)
split_space [] = none
split_space (c ∷ str) = elim (c == 32) [
  | true ↦ some ([], str)
  | false ↦ elim (split_space str) [ none ↦ none | some p ↦ some (c ∷ p.0, p.1) ]
]

unfoldable pub socket_name_to_sin : Net → List ℕ → Option SockAddr
unfolding cut split_space
socket_name_to_sin net name = elim (split_space (cut 63 name)) [
  | none ↦ none
  | some p ↦ some (record { sin_addr = net.inet_addr p.0; sin_port = net.atoi p.1 % 65536 })
]

-- `none` is an error that lets the connection go on.
pub connect_error : Errno → Option SocketError
connect_error e_intr = some ee_intr
connect_error e_addrinuse = some ee_addrinuse
connect_error e_already = some ee_already
connect_error e_connrefused = some ee_connrefused
connect_error e_inprogress = none
connect_error _ = some ee_connect

pub connect_result : Option Errno → Option SocketError
unfolding connect_error
connect_result none = none
connect_result (some e) = connect_error e

pub connected : ℕ → Option SocketError → Sockets → Sockets × SocketError
unfolding put
connected n (some e) s = (s, e)
connected n none s =
    (put n (record (s.lpc_socks n) { state = data_xfer; s_blocked = true }) s, ee_success)

abbrev pub socket_connect :
    Net → ℕ → ℤ → List ℕ → Callback → Callback → Option Errno → Sockets → Sockets × SocketError
unfolding owned put connected connect_result set_read_callback set_write_callback mark_object
socket_connect net current_object fd name read write result s = owned current_object fd s λ n.
    let k = s.lpc_socks n in
    if is_datagram k.mode then (s, ee_modenotsupp) else elim k.state [
      | listen ↦ (s, ee_islisten)
      | data_xfer ↦ (s, ee_isconn)
      | _ ↦ elim (socket_name_to_sin net name) [
        | none ↦ (s, ee_badaddr)
        | some sin ↦ connected n (connect_result result) (
            mark_object current_object (
              set_write_callback n write
                (set_read_callback n read (put n (record k { r_addr = sin }) s))))
      ]
    ]
