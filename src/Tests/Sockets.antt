-- ===== src/Tests/Sockets.antt =====
-- Runs of src/socket_efuns.c at a table with one socket, and its theorems there.
use mudos_v22pre.Prelude.{ℕ, ◌≡◌, refl, true, false, some, List, [], ◌∷◌, arith}
use mudos_v22pre.Prelude.Int.{pos}
use mudos_v22pre.Sockets.State.{
  stream, data_xfer, Socket, Sockets, ee_success, absent, fresh_socket, is_owner,
}
use mudos_v22pre.Sockets.Open.{Net}
use mudos_v22pre.Sockets.Transfer.{socket_release, socket_acquire}
use mudos_v22pre.Sockets.Handlers.{close_referencing_sockets}
use mudos_v22pre.Sockets.Closing.{swept, close_referencing_sockets-swept}
use mudos_v22pre.Sockets.HandOver.{inherited, socket_release-acquire}
use mudos_v22pre.Sockets.Pending.{Waits}

-- Object 1 owns a stream that is connected.
abbrev connection : Socket
connection = record fresh_socket {
  fd = some 7;
  mode = stream;
  state = data_xfer;
  owner_ob = some 1;
}

abbrev sockets : Sockets
sockets = record {
  lpc_socks = λ i. connection;
  max_lpc_socks = 1;
  efun_socket = λ ob. false;
  trace = [];
}

abbrev net : Net
net = record { atoi = λ t. 0; inet_addr = λ t. 0 }

abbrev three : List ℕ
three = 97 ∷ 98 ∷ 99 ∷ []

close_referencing_sockets-swept_example :
    (close_referencing_sockets 5 1 sockets).lpc_socks 0 ≡ swept 1 connection
close_referencing_sockets-swept_example =
    close_referencing_sockets-swept 5 1 sockets 0 (omega arith)

abbrev blocked_socket : Socket
blocked_socket = record connection { s_blocked = true; w_buf = some three; w_off = 1; w_len = 2 }

abbrev blocked : Sockets
blocked = record sockets { lpc_socks = λ i. blocked_socket }

blocked-Waits : Waits three blocked_socket
blocked-Waits = record { blocked = refl; held = refl; whole = refl; some_left = omega arith }

socket_release-acquire_example :
    let (t, e) =
      socket_release 1
        (pos 0)
        2
        absent
        (λ u. (socket_acquire 2 (pos 0) absent absent absent u).0)
        sockets in
    (e ≡ ee_success) × (t.lpc_socks 0 ≡ inherited 2 absent absent absent connection)
unfolding is_owner
socket_release-acquire_example =
    socket_release-acquire 1 0 2 absent absent absent absent sockets refl refl refl refl
