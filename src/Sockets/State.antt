-- ===== src/Sockets/State.antt =====
-- The state of src/socket_efuns.c: the table of LPC sockets, and its callbacks. The system calls and
-- the called LPC functions are other code: their results are arguments of the operations.
use mudos_v22pre.Prelude.{
  ℕ, zero, suc, ◌+◌, Bool, true, false, Option, none, some, List, [], ◌∷◌, ◌++◌, ltb, ◌==◌,
  if◌then◌else◌, update,
}
use mudos_v22pre.Prelude.Int.{ℤ, pos, negsuc}

pub data SocketMode : Type 0 where
  mud stream datagram stream_binary datagram_binary : SocketMode

pub data SocketState : Type 0 where
  closed flushing unbound bound listen data_xfer : SocketState

-- `struct sockaddr_in`, less its family.
pub record SockAddr : Type 0 where
  pub sin_addr : ℕ
  pub sin_port : ℕ

abbrev pub zero_addr : SockAddr
zero_addr = record { sin_addr = 0; sin_port = 0 }

-- `union string_or_func` with its flag `S_READ_FP`, `S_WRITE_FP` or `S_CLOSE_FP`.
pub data Callback : Type 0 where
  absent : Callback
  string : List ℕ → Callback
  funp : ℕ → Callback

-- `lpc_socket_t`, with a Boolean for each of the other flags; a `fd` of -1 is `none`.
pub record Socket : Type 0 where
  pub fd : Option ℕ
  pub s_release : Bool
  pub s_blocked : Bool
  pub s_header : Bool
  pub s_waccept : Bool
  pub s_binary : Bool
  pub mode : SocketMode
  pub state : SocketState
  pub l_addr : SockAddr
  pub r_addr : SockAddr
  pub name : List ℕ
  pub owner_ob : Option ℕ
  pub release_ob : Option ℕ
  pub read_callback : Callback
  pub write_callback : Callback
  pub close_callback : Callback
  pub r_buf : Option (List ℕ)
  pub r_off : ℕ
  pub r_len : ℕ
  pub w_buf : Option (List ℕ)
  pub w_off : ℕ
  pub w_len : ℕ

-- A value that is pushed for a called function.
pub data Pushed : Type 0 where
  number : ℕ → Pushed
  text : List ℕ → Pushed
  buffer : List ℕ → Pushed
  object : ℕ → Pushed
  restored : List ℕ → Pushed

-- What is done outside the table: references to callbacks, descriptors that are closed, calls.
pub data Effect : Type 0 where
  ref_callback : Callback → Effect
  free_callback : Callback → Effect
  os_socket_close : ℕ → Effect
  call_function : Callback → Option ℕ → List Pushed → Effect

-- `efun_socket` is the flag `O_EFUN_SOCKET` of an object. The latest effect stands first.
pub record Sockets : Type 0 where
  pub lpc_socks : ℕ → Socket
  pub max_lpc_socks : ℕ
  pub efun_socket : ℕ → Bool
  pub trace : List Effect

-- The results of the functions on sockets; `raised_error` stands for an LPC error.
pub data SocketError : Type 0 where
  ee_success ee_socket ee_setsockopt ee_nonblock ee_nosocks ee_fdrange ee_badf ee_security :
      SocketError
  ee_isbound ee_addrinuse ee_bind ee_getsockname ee_modenotsupp ee_noaddr ee_isconn : SocketError
  ee_listen ee_notlistn ee_wouldblock ee_intr ee_accept ee_islisten ee_badaddr : SocketError
  ee_already ee_connrefused ee_connect ee_notconn ee_typenotsupp ee_sendto ee_send : SocketError
  ee_callback ee_sockrlsd ee_socknotrlsd ee_baddata : SocketError
  raised_error : SocketError

-- `socket_errno`
pub data Errno : Type 0 where
  e_wouldblock e_intr e_addrinuse e_already e_connrefused e_inprogress e_other : Errno

-- The new entries of `more_lpc_sockets`.
abbrev pub fresh_socket : Socket
fresh_socket = record {
  fd = none;
  s_release = false;
  s_blocked = false;
  s_header = false;
  s_waccept = false;
  s_binary = false;
  mode = mud;
  state = closed;
  l_addr = zero_addr;
  r_addr = zero_addr;
  name = [];
  owner_ob = none;
  release_ob = none;
  read_callback = absent;
  write_callback = absent;
  close_callback = absent;
  r_buf = none;
  r_off = 0;
  r_len = 0;
  w_buf = none;
  w_off = 0;
  w_len = 0;
}

-- `lpc_socks[i] = …`
unfoldable pub put : ℕ → Socket → Sockets → Sockets
put i k s = record s { lpc_socks = update s.lpc_socks i k }

unfoldable pub more_lpc_sockets : Sockets → Sockets × ℕ
more_lpc_sockets s = (
  record s {
    lpc_socks = λ j.
        if ltb j s.max_lpc_socks
        then s.lpc_socks j
        else (if ltb j (s.max_lpc_socks + 10) then fresh_socket else s.lpc_socks j);
    max_lpc_socks = s.max_lpc_socks + 10;
  },
  s.max_lpc_socks,
)

abbrev pub freed : Callback → List Effect
freed absent = []
freed (string f) = free_callback (string f) ∷ []
freed (funp f) = free_callback (funp f) ∷ []

abbrev pub taken : Callback → List Effect
taken absent = []
taken (string f) = ref_callback (string f) ∷ []
taken (funp f) = ref_callback (funp f) ∷ []

-- `cb` is `absent` for a null pointer.
unfoldable pub set_read_callback : ℕ → Callback → Sockets → Sockets
unfolding put
set_read_callback which cb s =
    let k = s.lpc_socks which in
    put which (record k { read_callback = cb })
      (record s { trace = taken cb ++ freed k.read_callback ++ s.trace })

unfoldable pub set_write_callback : ℕ → Callback → Sockets → Sockets
unfolding put
set_write_callback which cb s =
    let k = s.lpc_socks which in
    put which (record k { write_callback = cb })
      (record s { trace = taken cb ++ freed k.write_callback ++ s.trace })

unfoldable pub set_close_callback : ℕ → Callback → Sockets → Sockets
unfolding put
set_close_callback which cb s =
    let k = s.lpc_socks which in
    put which (record k { close_callback = cb })
      (record s { trace = taken cb ++ freed k.close_callback ++ s.trace })

abbrev pub copy_close_callback : ℕ → ℕ → Sockets → Sockets
unfolding put
copy_close_callback to from s =
    let k = s.lpc_socks to in
    let cb = (s.lpc_socks from).close_callback in
    put to (record k { close_callback = cb })
      (record s { trace = taken cb ++ freed k.close_callback ++ s.trace })

abbrev pub is_closed : SocketState → Bool
is_closed closed = true
is_closed _ = false

-- The loop of `find_new_socket`, from `i` on with `n` entries left.
unfoldable pub first_closed : Sockets → ℕ → ℕ → Option ℕ
first_closed s i zero = none
first_closed s i (suc n) =
    let rest = first_closed s (i + 1) n in if is_closed (s.lpc_socks i).state then some i else rest

unfoldable pub clear_callbacks : ℕ → Sockets → Sockets
unfolding set_read_callback set_write_callback set_close_callback
clear_callbacks i s =
    set_close_callback i absent (set_write_callback i absent (set_read_callback i absent s))

unfoldable pub find_new_socket : Sockets → Sockets × ℕ
unfolding clear_callbacks more_lpc_sockets
find_new_socket s = elim (first_closed s 0 s.max_lpc_socks) [
  | some i ↦ (clear_callbacks i s, i)
  | none ↦ more_lpc_sockets s
]

-- `fd < 0 || fd >= max_lpc_socks`
unfoldable pub in_range : Sockets → ℤ → Option ℕ
in_range s (pos n) = if ltb n s.max_lpc_socks then some n else none
in_range s (negsuc n) = none

-- `state == CLOSED || state == FLUSHING`
abbrev pub is_shut : SocketState → Bool
is_shut closed = true
is_shut flushing = true
is_shut _ = false

abbrev pub is_datagram : SocketMode → Bool
is_datagram datagram = true
is_datagram _ = false

unfoldable pub is_owner : Option ℕ → ℕ → Bool
is_owner none ob = false
is_owner (some o) ob = o == ob

-- The checks by which most operations begin.
unfoldable pub owned : ℕ → ℤ → Sockets → (ℕ → Sockets × SocketError) → Sockets × SocketError
unfolding in_range is_owner
owned current_object fd s body = elim (in_range s fd) [
  | none ↦ (s, ee_fdrange)
  | some n ↦
      if is_shut (s.lpc_socks n).state
      then (s, ee_badf)
      else if is_owner (s.lpc_socks n).owner_ob current_object
      then body n
      else (s, ee_security)
]

-- `current_object->flags |= O_EFUN_SOCKET`
unfoldable pub mark_object : ℕ → Sockets → Sockets
mark_object ob s = record s { efun_socket = update s.efun_socket ob true }
