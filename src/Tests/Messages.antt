-- ===== src/Tests/Messages.antt =====
-- A value that goes from one driver to another in src/socket_efuns.c.
use mudos_v22pre.Prelude.{suc, ◌≡◌, refl, false, some, none, [], ◌∷◌, ◌++◌, arith, length}
use mudos_v22pre.Prelude.Int.{pos}
use mudos_v22pre.Saving.Value.{Value, array, nil, cons}
use mudos_v22pre.Saving.Save.{save_svalue}
use mudos_v22pre.Saving.Restore.{Reader, failed, mapping_error, no_sizes, restore_svalue}
use mudos_v22pre.Saving.Restore as Restore
use mudos_v22pre.Sockets.State.{Socket, Sockets, fresh_socket, number, restored, put}
use mudos_v22pre.Sockets.Transfer.{another, htonl, call_callback, mud_packet}
use mudos_v22pre.Sockets.Handlers.{received, socket_read_select_handler}
use mudos_v22pre.Sockets.Messages.{ready, saved_buffer, mud_value-received}

abbrev reader : Reader
reader = record {
  floats = record { g_format = λ r. []; float_of = λ neg res fraction expo. 0 };
  max_array_size = 15;
  restore_mapping = λ text st. failed mapping_error;
}

-- `({ 42, "a" })`
abbrev message : Value
message = array (cons (Value.number (pos 42)) (cons (Value.string (97 ∷ [])) nil))

abbrev waiting_socket : Socket
waiting_socket = ready fresh_socket

abbrev sockets : Sockets
sockets = record {
  lpc_socks = λ i. waiting_socket;
  max_lpc_socks = 1;
  efun_socket = λ ob. false;
  trace = [];
}

mud_value-received_example :
    let text = save_svalue reader.floats message [] in
    let buf = saved_buffer reader message [] in
    (htonl 12 ++ buf ≡ htonl (length buf) ++ buf)
    × (socket_read_select_handler 100 5 0
          (received (htonl (length buf)))
          (received buf)
          []
          (λ s. s)
          sockets
        ≡ call_callback 0 waiting_socket.read_callback
            (number 0 ∷ restored text ∷ [])
            (λ s. s)
            (put 0 (record (ready waiting_socket) { r_buf = none }) sockets))
    × (restore_svalue reader (suc (length text)) text ≡ some (Restore.restored message [] no_sizes))
unfolding save_svalue mud_packet
mud_value-received_example =
    mud_value-received reader message [] [] 100 5 0 (λ s. s) waiting_socket sockets another
      (htonl 12 ++ saved_buffer reader message [])
      (omega arith, (omega arith, ((refl, tt), tt)), tt) (((refl, tt), tt), tt) (omega arith)
      (omega arith) refl refl
