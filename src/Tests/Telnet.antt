-- ===== src/Tests/Telnet.antt =====
-- What src/comm.c makes of a few bytes of a connection, and its theorems there.
use mudos_v22pre.Prelude.{ℕ, ◌+◌, ◌*◌, ◌<◌, ◌≡◌, refl, Bool, false, List, [], ◌∷◌, arith}
use mudos_v22pre.Telnet.State.{Answer, window_size, Interactive, ts_data, copy_chars}
use mudos_v22pre.Telnet.Suboptions.{window_request, window_size-received}
use mudos_v22pre.Telnet.Commands.{
  Input, max_text, text_end, make_space, append_bytes, take_commands,
}
use mudos_v22pre.Telnet.Lines.{typed, append_bytes-room, take_commands-typed}

abbrev user : Interactive
user = record {
  state = ts_data;
  sb_pos = 0;
  sb_buf = λ i. 0;
  single_char = false;
  using_telnet = false;
  out_of_band = false;
  trace = [];
}

abbrev quiet : Answer → Bool → Bool
quiet a b = b

abbrev input : Input
input = record { text_start = 0; text = []; ip = user }

-- A doubled IAC is a byte of text; a newline is three bytes.
some_text : (copy_chars quiet (104 ∷ 255 ∷ 255 ∷ 13 ∷ 10 ∷ []) user).1 ≡ 104 ∷ 255 ∷ 32 ∷ 8 ∷ 0 ∷ []
unfolding copy_chars
some_text = refl

-- A width of 73 is taken for 0.
width_73 : (copy_chars quiet (window_request 0 73 0 24) user).0.trace ≡ window_size 0 24 ∷ []
unfolding copy_chars
width_73 = refl

-- The byte behind IAC AYT is lost.
after_ayt : (copy_chars quiet (255 ∷ 246 ∷ 104 ∷ 105 ∷ []) user).1 ≡ 105 ∷ []
unfolding copy_chars
after_ayt = refl

window_size-received_example :
    let (ip', text) = copy_chars quiet (window_request 0 80 0 255) user in
    (ip'.trace ≡ window_size (0 * 256 + 80) (0 * 256 + 255) ∷ [])
    × (ip'.state ≡ ts_data)
    × (text ≡ [])
window_size-received_example = window_size-received quiet 0 80 0 255 user refl refl refl refl refl

append_bytes-room_example :
    text_end (append_bytes quiet (104 ∷ 10 ∷ []) (make_space input).0) < max_text
append_bytes-room_example =
    append_bytes-room quiet input (104 ∷ 10 ∷ []) (omega arith) (unfold make_space in omega arith)

abbrev lines : List (List ℕ)
lines = (115 ∷ 97 ∷ 121 ∷ []) ∷ [] ∷ (110 ∷ []) ∷ []

take_commands-typed_example : take_commands 4 (append_bytes quiet (typed lines) input) ≡ lines
take_commands-typed_example =
    take_commands-typed quiet lines input
      (
        (
          (refl, refl, refl, refl, refl),
          ((refl, refl, refl, refl, refl), ((refl, refl, refl, refl, refl), tt)),
        ),
        (tt, (((refl, refl, refl, refl, refl), tt), tt)),
      )
      refl refl refl
