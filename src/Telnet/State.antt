-- ===== src/Telnet/State.antt =====
-- `copy_chars` of src/comm.c: bytes are copied from a connection, and telnet commands taken out of them.
use mudos_v22pre.Prelude.{
  ℕ, zero, suc, ◌+◌, ◌*◌, Bool, true, List, [], ◌∷◌, ◌++◌, ◌==◌, leb, if◌then◌else◌, update, ◌&&◌,
}

pub data TelnetState : Type 0 where
  ts_data ts_iac ts_will ts_wont ts_do ts_dont ts_sb ts_sb_iac : TelnetState

-- What is sent back to the user, and the functions of the user's object that are called.
pub data Answer : Type 0 where
  add_message : List ℕ → Answer
  flush_message : Answer
  terminal_type : List ℕ → Answer
  window_size : ℕ → ℕ → Answer
  telnet_suboption : List ℕ → Answer

-- The part of `interactive_t` that is used. `single_char` and `using_telnet` are flags of `iflags`.
-- `sb_buf` gives the byte at an index. `trace` has the answers, the latest first.
pub record Interactive : Type 0 where
  pub state : TelnetState
  pub sb_pos : ℕ
  pub sb_buf : ℕ → ℕ
  pub single_char : Bool
  pub using_telnet : Bool
  pub out_of_band : Bool
  pub trace : List Answer

abbrev pub sb_size : ℕ
sb_size = 100

-- `after` tells what a called function does to the flag SINGLE_CHAR.
abbrev pub answer : (Answer → Bool → Bool) → Answer → Interactive → Interactive
answer after a ip = record ip { single_char = after a ip.single_char; trace = a ∷ ip.trace }

abbrev pub goes_to : TelnetState → Interactive → Interactive
goes_to st ip = record ip { state = st }

-- `ip->sb_buf[ip->sb_pos++] = c`
abbrev pub put_sb : ℕ → Interactive → Interactive
put_sb c ip = record ip { sb_buf = update ip.sb_buf ip.sb_pos c; sb_pos = suc ip.sb_pos }

-- The string that starts at an index, on fuel.
pub string_at : ℕ → (ℕ → ℕ) → ℕ → List ℕ
string_at zero buf i = []
string_at (suc f) buf i =
    let rest = string_at f buf (suc i) in if buf i == 0 then [] else buf i ∷ rest

-- 0 is stored as `I`.
abbrev pub size_byte : ℕ → ℕ
size_byte c = if c == 73 then 0 else c

-- The answer to a suboption, once the 0 stands at its end. An LPC error in the function that is called
-- is left out: it would leave `copy_chars` in the middle of the bytes.
unfoldable pub suboption : (ℕ → ℕ) → Answer
unfolding string_at
suboption buf =
    if buf 0 == 24 && buf 1 == 73
    then terminal_type (string_at sb_size buf 2)
    else if buf 0 == 31
    then window_size (size_byte (buf 1) * 256 + size_byte (buf 2))
        (size_byte (buf 3) * 256 + size_byte (buf 4))
    else telnet_suboption (string_at (suc sb_size) buf 0)

module _ (after : Answer → Bool → Bool) where
  -- A byte of data.
  unfoldable pub take_data : ℕ → Interactive → Interactive × List ℕ
  take_data c ip =
      if c == 255
      then (goes_to ts_iac ip, [])
      else if c == 13
      then (ip, if ip.single_char then c ∷ [] else [])
      else if c == 10
      then (ip, if ip.single_char then c ∷ [] else 32 ∷ 8 ∷ 0 ∷ [])
      else (ip, c ∷ [])

  -- A byte behind IAC.
  unfoldable pub take_iac : ℕ → Interactive → Interactive × List ℕ
  take_iac c ip =
      if c == 255
      then (goes_to ts_data ip, 255 ∷ [])
      else if c == 253
      then (goes_to ts_do ip, [])
      else if c == 254
      then (goes_to ts_dont ip, [])
      else if c == 251
      then (goes_to ts_will ip, [])
      else if c == 252
      then (goes_to ts_wont ip, [])
      else if c == 243
      then (
        answer after flush_message (answer after (add_message (28 ∷ 255 ∷ 251 ∷ 6 ∷ [])) ip),
        [],
      )
      else if c == 244
      then (answer after (add_message (127 ∷ 255 ∷ 251 ∷ 6 ∷ [])) ip, [])
      else if c == 246
      then (
        answer after (add_message (10 ∷ 91 ∷ 45 ∷ 89 ∷ 101 ∷ 115 ∷ 45 ∷ 93 ∷ 32 ∷ 10 ∷ [])) ip,
        [],
      )
      else if c == 245
      then (
        answer after flush_message
            (answer after (add_message (255 ∷ 242 ∷ [])) (record ip { out_of_band = true })),
        [],
      )
      else if c == 250
      then (goes_to ts_sb (record ip { sb_pos = 0 }), [])
      else (goes_to ts_data ip, [])

  -- A byte behind IAC in a suboption: all but IAC and SE are taken as outside of one.
  unfoldable pub take_sb_iac : ℕ → Interactive → Interactive × List ℕ
  unfolding suboption take_iac
  take_sb_iac c ip =
      if c == 255
      then (if leb sb_size ip.sb_pos then ip else goes_to ts_sb (put_sb 255 ip), [])
      else if c == 240
      then (
        let buf = update ip.sb_buf ip.sb_pos 0 in
            goes_to ts_data (answer after (suboption buf) (record ip { sb_buf = buf })),
        [],
      )
      else take_iac c ip

  -- A byte of a suboption.
  unfoldable pub take_sb : ℕ → Interactive → Interactive × List ℕ
  take_sb c ip =
      if c == 255
      then (goes_to ts_sb_iac ip, [])
      else if leb sb_size ip.sb_pos
      then (ip, [])
      else (put_sb (if c == 0 then 73 else c) ip, [])

  abbrev pub knows_telnet : Interactive → Interactive
  knows_telnet ip = goes_to ts_data (record ip { using_telnet = true })

  unfoldable pub take_will : ℕ → Interactive → Interactive
  take_will c ip = knows_telnet (
      if c == 24
      then answer after flush_message (
          answer after (add_message (255 ∷ 250 ∷ 24 ∷ 1 ∷ 255 ∷ 240 ∷ []))
            (record ip { using_telnet = true }))
      else record ip { using_telnet = true })

  unfoldable pub take_do : ℕ → Interactive → Interactive
  take_do c ip = goes_to ts_data (
      if c == 6
      then answer after flush_message (answer after (add_message (255 ∷ 251 ∷ 6 ∷ [])) ip)
      else ip)

  -- The body of the loop: the state after a byte, and what is copied for it.
  unfoldable pub take_in : TelnetState → ℕ → Interactive → Interactive × List ℕ
  unfolding take_data take_iac take_sb_iac take_sb take_will take_do
  take_in ts_data c ip = take_data c ip
  take_in ts_iac c ip = take_iac c ip
  take_in ts_sb_iac c ip = take_sb_iac c ip
  take_in ts_do c ip = (take_do c ip, [])
  take_in ts_will c ip = (take_will c ip, [])
  take_in ts_dont c ip = (knows_telnet ip, [])
  take_in ts_wont c ip = (knows_telnet ip, [])
  take_in ts_sb c ip = take_sb c ip

  unfoldable pub take_byte : ℕ → Interactive → Interactive × List ℕ
  unfolding take_in
  take_byte c ip = take_in ip.state c ip

  -- The state behind the bytes, and what is copied to the buffer.
  unfoldable pub copy_chars : List ℕ → Interactive → Interactive × List ℕ
  unfolding take_byte
  copy_chars [] ip = (ip, [])
  copy_chars (c ∷ from) ip =
      let p = take_byte c ip in let q = copy_chars from p.0 in (q.0, p.1 ++ q.1)
