-- ===== src/Telnet/Commands.antt =====
-- The buffer of commands of a user in src/comm.c. The bytes before `text_start` are used up; `text` holds
-- those from there to `text_end`.
use mudos_v22pre.Prelude.{
  ℕ, zero, suc, ◌+◌, ◌-◌, ◌/◌, Bool, true, false, Option, none, some, List, [], ◌∷◌, ◌++◌, ◌==◌,
  ◌||◌, ltb, if◌then◌else◌, length,
}
use mudos_v22pre.Telnet.State.{Answer, Interactive, copy_chars}

pub record Input : Type 0 where
  pub text_start : ℕ
  pub text : List ℕ
  pub ip : Interactive

abbrev pub max_text : ℕ
max_text = 2048

abbrev pub text_end : Input → ℕ
text_end i = i.text_start + length i.text

abbrev pub emptied : Input → Input
emptied i = record i { text_start = 0; text = [] }

-- `while ((p < (ip->text + ip->text_end)) && !*p) p++;`
unfoldable pub skip_nulls : List ℕ → List ℕ
skip_nulls [] = []
skip_nulls (c ∷ text) = elim (c == 0) [ true ↦ skip_nulls text | false ↦ c ∷ text ]

-- `while ((p < (ip->text + ip->text_end)) && *p) p++;`
unfoldable pub skip_command : List ℕ → List ℕ
skip_command [] = []
skip_command (c ∷ text) = elim (c == 0) [ true ↦ c ∷ text | false ↦ skip_command text ]

-- The string at the start of the text.
unfoldable pub command : List ℕ → List ℕ
command [] = []
command (c ∷ text) = elim (c == 0) [ true ↦ [] | false ↦ c ∷ command text ]

abbrev pub not_empty : List ℕ → Bool
not_empty [] = false
not_empty (c ∷ text) = true

abbrev pub cmd_in_buf : Input → Bool
unfolding skip_nulls skip_command
cmd_in_buf i = elim (skip_nulls i.text) as (λ _. Bool) [
  | [] ↦ false
  | c ∷ text ↦ if i.ip.single_char then true else not_empty (skip_command (c ∷ text))
]

-- `text_start` moves on to where `text` stands.
abbrev pub moved_to : List ℕ → Input → Input
moved_to text i = record i { text_start = text_end i - length text; text = text }

-- Nulls are put at the last two places, and the last is given up.
pub truncated : List ℕ → List ℕ
truncated [] = []
truncated (c ∷ []) = []
truncated (c ∷ d ∷ []) = 0 ∷ []
truncated (c ∷ d ∷ e ∷ text) = c ∷ truncated (d ∷ e ∷ text)

-- The result is the string that `first_cmd_in_buf` points to.
unfoldable pub first_cmd_in_buf : Input → Input × Option (List ℕ)
unfolding skip_nulls skip_command command truncated
first_cmd_in_buf i = elim (skip_nulls i.text) as (λ _. Input × Option (List ℕ)) [
  | [] ↦ (emptied i, none)
  | c ∷ text ↦
      if i.ip.single_char
      then (moved_to (c ∷ text) i, some (command (c ∷ text)))
      else if not_empty (skip_command (c ∷ text))
      then (moved_to (c ∷ text) i, some (command (c ∷ text)))
      else if ltb (max_text - 2) (length (c ∷ text))
      then (
        record i { text_start = 0; text = truncated (c ∷ text) },
        some (command (truncated (c ∷ text))),
      )
      else (record i { text_start = 0; text = c ∷ text }, none)
]

unfoldable pub next_cmd_in_buf : Input → Input
unfolding skip_nulls skip_command
next_cmd_in_buf i = elim (skip_nulls (skip_command i.text)) as (λ _. Input) [
  | [] ↦ emptied i
  | c ∷ text ↦ moved_to (c ∷ text) i
]

-- `get_user_data` before it reads, on a telnet connection: the space for new bytes, and the buffer once
-- there is room.
abbrev pub space_from : ℕ → ℕ
space_from end = (max_text - end - 1) / 3

unfoldable pub make_space : Input → Input × ℕ
make_space i =
    if ltb (space_from (text_end i)) (max_text / 16)
    then (if ltb (space_from (length i.text)) (max_text / 16)
        then (emptied i, max_text / 3)
        else (record i { text_start = 0 }, space_from (length i.text)))
    else (i, space_from (text_end i))

-- `get_user_data` on a telnet connection from which `bytes` are read.
unfoldable pub append_bytes : (Answer → Bool → Bool) → List ℕ → Input → Input
unfolding copy_chars
append_bytes after bytes i =
    let p = copy_chars after bytes i.ip in record i { text = i.text ++ p.1; ip = p.0 }

-- `to` turned_round round, before `rest`.
abbrev pub turned_round : List ℕ → List ℕ → List ℕ
turned_round [] rest = rest
turned_round (c ∷ to) rest = turned_round to (c ∷ rest)

-- `telnet_neg`; `to` has what is written so far, the latest first.
unfoldable pub telnet_neg : List ℕ → List ℕ → List ℕ
telnet_neg to [] = turned_round to []
telnet_neg to (ch ∷ from) = elim (ch == 8 || ch == 127) as (λ _. List ℕ) [
  | true ↦ elim to as (λ _. List ℕ) [ [] ↦ telnet_neg [] from | c ∷ first ↦ telnet_neg first from ]
  | false ↦ telnet_neg (ch ∷ to) from
]

-- The commands of one user that calls of `get_user_command` give, on fuel.
unfoldable pub take_commands : ℕ → Input → List (List ℕ)
unfolding first_cmd_in_buf next_cmd_in_buf telnet_neg
take_commands zero i = []
take_commands (suc f) i =
    let p = first_cmd_in_buf i in
    let rest = take_commands f (next_cmd_in_buf p.0) in
    elim p.1 as (λ _. List (List ℕ)) [ none ↦ [] | some cmd ↦ telnet_neg [] cmd ∷ rest ]
