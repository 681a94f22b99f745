-- ===== src/Telnet/Lines.antt =====
-- The lines that a user types into src/comm.c, up to the commands that are taken out of the buffer.
use mudos_v22pre.Prelude.{
  ℕ, zero, suc, ◌+◌, ◌*◌, ◌≤◌, ◌<◌, Bool, true, false, Option, none, some, List, [], ◌∷◌, ◌++◌,
  ◌==◌, ◌||◌, if◌then◌else◌, ◌≡◌, refl, sym, ap, ap₂, ◌∙◌, arith, length, length-append, All,
}
use mudos_v22pre.Telnet.State.{
  Answer, Interactive, ts_data, take_data, take_in, take_byte, copy_chars,
}
use mudos_v22pre.Telnet.Stream.{copy_chars-length}
use mudos_v22pre.Telnet.Commands.{
  Input, max_text, text_end, skip_nulls, skip_command, command, first_cmd_in_buf, next_cmd_in_buf,
  make_space, append_bytes, take_commands, not_empty, telnet_neg, turned_round, moved_to,
}

make_space-fits :
    (i : Input)
    → text_end i < max_text
    → text_end (make_space i).0 + 3 * (make_space i).1 < max_text
unfolding make_space
make_space-fits i h = ground arith

-- However full the buffer of a user is, the bytes that are read next have their place in it once they
-- are copied, and the null behind them as well.
pub append_bytes-room :
    (after : Answer → Bool → Bool) (i : Input) (bytes : List ℕ)
    → text_end i < max_text
    → length bytes ≤ (make_space i).1
    → text_end (append_bytes after bytes (make_space i).0) < max_text
unfolding append_bytes
append_bytes-room after i bytes h k =
    let j = (make_space i).0 in
    let out = (copy_chars after bytes j.ip).1 in
    omega
      (arith, make_space-fits i h, k, copy_chars-length after bytes j.ip, length-append j.text out)

-- A byte that is copied as it is, does not end a command and takes back no byte.
abbrev pub IsPlain : ℕ → Type 0
IsPlain c =
    ((c == 0) ≡ false)
    × ((c == 10) ≡ false)
    × ((c == 13) ≡ false)
    × ((c == 255) ≡ false)
    × ((c == 8 || c == 127) ≡ false)

-- Lines as they are typed, each with its newline.
pub typed : List (List ℕ) → List ℕ
typed [] = []
typed (l ∷ ls) = l ++ 10 ∷ typed ls

-- A line as a command: it ends in a space and a backspace.
abbrev pub as_command : List ℕ → List ℕ
as_command l = l ++ 32 ∷ 8 ∷ []

-- The lines in the buffer.
buffered : List (List ℕ) → List ℕ
buffered [] = []
buffered (l ∷ ls) = l ++ 32 ∷ 8 ∷ 0 ∷ buffered ls

module _ (after : Answer → Bool → Bool) (ip : Interactive) (in_data : ip.state ≡ ts_data) where
  in_data_state : (c : ℕ) → take_byte after c ip ≡ take_data after c ip
  unfolding take_byte take_in
  in_data_state c = ap (λ st. take_in after st c ip) in_data

  byte-copied : (c : ℕ) → IsPlain c → take_byte after c ip ≡ (ip, c ∷ [])
  unfolding take_data
  byte-copied c (z, nl, cr, iac, rubout) = in_data_state c ∙ rw (take_data, nl, cr, iac) refl

  newline-copied : ip.single_char ≡ false → take_byte after 10 ip ≡ (ip, 32 ∷ 8 ∷ 0 ∷ [])
  unfolding take_data
  newline-copied by_line =
      in_data_state 10 ∙ ap (λ (b : Bool). (ip, if b then 10 ∷ [] else 32 ∷ 8 ∷ 0 ∷ [])) by_line

  copy-byte :
      (c : ℕ) (out xs : List ℕ)
      → take_byte after c ip ≡ (ip, out)
      → (copy_chars after (c ∷ xs) ip
          ≡ ((copy_chars after xs ip).0, out ++ (copy_chars after xs ip).1))
  unfolding copy_chars
  copy-byte c out xs h = rw (copy_chars, h) refl

  copy-line :
      (l : List ℕ) (xs ys : List ℕ)
      → All IsPlain l
      → copy_chars after xs ip ≡ (ip, ys)
      → copy_chars after (l ++ xs) ip ≡ (ip, l ++ ys)
  copy-line [] xs ys p h = h
  copy-line (c ∷ l) xs ys (pc, pl) h =
      copy-byte c (c ∷ []) (l ++ xs) (byte-copied c pc)
      ∙ ap (λ (q : Interactive × List ℕ). (q.0, c ∷ q.1)) (copy-line l xs ys pl h)

  copy-lines :
      (ls : List (List ℕ))
      → ip.single_char ≡ false
      → All (All IsPlain) ls
      → copy_chars after (typed ls) ip ≡ (ip, buffered ls)
  unfolding typed buffered copy_chars
  copy-lines [] by_line p = refl
  copy-lines (l ∷ ls) by_line (pl, ps) =
      let out = 32 ∷ 8 ∷ 0 ∷ [] in
      copy-line l (10 ∷ typed ls) (out ++ buffered ls) pl (
        copy-byte 10 out (typed ls) (newline-copied by_line)
        ∙ ap (λ (q : Interactive × List ℕ). (q.0, out ++ q.1)) (copy-lines ls by_line ps))

-- The first byte of a buffered line is not 0.
Starts : List ℕ → Type 0
Starts text = (c : ℕ) × (t : List ℕ) × (text ≡ c ∷ t) × ((c == 0) ≡ false)

line-Starts : (l rest : List ℕ) → All IsPlain l → Starts (l ++ 32 ∷ rest)
unfolding Starts
line-Starts [] rest p = (32, rest, refl, refl)
line-Starts (c ∷ l) rest (p, ps) = (c, l ++ 32 ∷ rest, refl, p.0)

skip_nulls-start : (c : ℕ) (t : List ℕ) → (c == 0) ≡ false → skip_nulls (c ∷ t) ≡ c ∷ t
unfolding skip_nulls
skip_nulls-start c t h = rw (skip_nulls, h) refl

skip_nulls-buffered :
    (ls : List (List ℕ)) → All (All IsPlain) ls → skip_nulls (buffered ls) ≡ buffered ls
unfolding buffered skip_nulls Starts
skip_nulls-buffered [] p = refl
skip_nulls-buffered (l ∷ ls) (pl, ps) =
    let (c, t, e, h) = line-Starts l (8 ∷ 0 ∷ buffered ls) pl in
    ap skip_nulls e ∙ (skip_nulls-start c t h ∙ sym e)

skip_command-line :
    (l rest : List ℕ) → All IsPlain l → skip_command (l ++ 32 ∷ 8 ∷ 0 ∷ rest) ≡ 0 ∷ rest
unfolding skip_command
skip_command-line [] rest p = refl
skip_command-line (c ∷ l) rest (p, ps) =
    let z = p.0 in rw (skip_command, z) (skip_command-line l rest ps)

command-line : (l rest : List ℕ) → All IsPlain l → command (l ++ 32 ∷ 8 ∷ 0 ∷ rest) ≡ as_command l
unfolding command
command-line [] rest p = refl
command-line (c ∷ l) rest (p, ps) =
    let z = p.0 in rw (command, z) (ap (λ t. c ∷ t) (command-line l rest ps))

first-found :
    (i : Input) (c : ℕ) (t : List ℕ)
    → skip_nulls i.text ≡ c ∷ t
    → i.ip.single_char ≡ false
    → not_empty (skip_command (c ∷ t)) ≡ true
    → first_cmd_in_buf i ≡ (moved_to (c ∷ t) i, some (command (c ∷ t)))
unfolding first_cmd_in_buf
first-found i c t e by_line h = rw (first_cmd_in_buf, e, by_line, h) refl

first-none : (i : Input) → skip_nulls i.text ≡ [] → (first_cmd_in_buf i).1 ≡ none
unfolding first_cmd_in_buf
first-none i e = rw (first_cmd_in_buf, e) refl

-- What is left of the text, and the connection is as it was.
next-text :
    (i : Input) (l : List ℕ)
    → skip_nulls (skip_command i.text) ≡ l
    → ((next_cmd_in_buf i).text ≡ l) × ((next_cmd_in_buf i).ip ≡ i.ip)
unfolding next_cmd_in_buf
next-text i [] e = (rw (next_cmd_in_buf, e) refl, rw (next_cmd_in_buf, e) refl)
next-text i (c ∷ t) e = (rw (next_cmd_in_buf, e) refl, rw (next_cmd_in_buf, e) refl)

take-one :
    (f : ℕ) (i j : Input) (cmd : List ℕ)
    → first_cmd_in_buf i ≡ (j, some cmd)
    → take_commands (suc f) i ≡ telnet_neg [] cmd ∷ take_commands f (next_cmd_in_buf j)
unfolding take_commands
take-one f i j cmd e =
    let found : (first_cmd_in_buf i).1 ≡ some cmd = ap (λ (q : Input × Option (List ℕ)). q.1) e in
    rw (take_commands, found)
      (ap
        (λ (q : Input × Option (List ℕ)). telnet_neg [] cmd ∷ take_commands f (next_cmd_in_buf q.0))
        e)

take-none : (f : ℕ) (i : Input) → (first_cmd_in_buf i).1 ≡ none → take_commands (suc f) i ≡ []
unfolding take_commands
take-none f i e = rw (take_commands, e) refl

telnet_neg-line : (to l : List ℕ) → All IsPlain l → telnet_neg to (as_command l) ≡ turned_round to l
unfolding telnet_neg
telnet_neg-line to [] p = refl
telnet_neg-line to (c ∷ l) (p, ps) =
    let r = p.4 in rw (telnet_neg, r) (telnet_neg-line (c ∷ to) l ps)

take-lines :
    (ls : List (List ℕ)) (f : ℕ) (i : Input)
    → All (All IsPlain) ls
    → i.text ≡ buffered ls
    → i.ip.single_char ≡ false
    → length ls < f
    → take_commands f i ≡ ls
unfolding buffered skip_nulls Starts
take-lines ls zero i p e by_line h = absurd (omega arith)
take-lines [] (suc f) i p e by_line h = take-none f i (first-none i (ap skip_nulls e))
take-lines (l ∷ ls) (suc f) i (pl, ps) e by_line h =
    let rest = buffered ls in
    let (c, t, q, z) = line-Starts l (8 ∷ 0 ∷ rest) pl in
    let left : skip_command (c ∷ t) ≡ 0 ∷ rest =
      ap skip_command (sym q) ∙ skip_command-line l rest pl in
    let found =
      first-found i c t (ap skip_nulls (e ∙ q) ∙ skip_nulls-start c t z) by_line
        (ap not_empty left) in
    let cmd : command (c ∷ t) ≡ as_command l = ap command (sym q) ∙ command-line l rest pl in
    let j = moved_to (c ∷ t) i in
    let (text, ip) = next-text j rest (ap skip_nulls left ∙ skip_nulls-buffered ls ps) in
    let same : ((next_cmd_in_buf j).ip).single_char ≡ false =
      ap (λ u. u.single_char) ip ∙ by_line in
    take-one f i j (command (c ∷ t)) found
    ∙ ap₂ (λ (x : List ℕ) (xs : List (List ℕ)). x ∷ xs)
        (ap (telnet_neg []) cmd ∙ telnet_neg-line [] l pl)
        (take-lines ls f (next_cmd_in_buf j) ps text same (omega arith))

-- A user's lines of plain bytes, with no backspace in them, that are read into an empty buffer come out
-- of it as commands one by one, each as it was typed and in its order, the empty ones as well, if the
-- connection is in data and not in single character mode.
pub take_commands-typed :
    (after : Answer → Bool → Bool) (ls : List (List ℕ)) (i : Input)
    → All (All IsPlain) ls
    → i.ip.state ≡ ts_data
    → i.ip.single_char ≡ false
    → i.text ≡ []
    → take_commands (suc (length ls)) (append_bytes after (typed ls) i) ≡ ls
unfolding append_bytes
take_commands-typed after ls i p d by_line e =
    let copied = copy-lines after i.ip d ls by_line p in
    let j = append_bytes after (typed ls) i in
    let ip = ap (λ (q : Interactive × List ℕ). q.0) copied in
    let text = ap₂ (λ (x y : List ℕ). x ++ y) e (ap (λ (q : Interactive × List ℕ). q.1) copied) in
    take-lines ls (suc (length ls)) j p text (ap (λ u. u.single_char) ip ∙ by_line) (omega arith)
