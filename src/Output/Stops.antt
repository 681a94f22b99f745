-- ===== src/Output/Stops.antt =====
-- Why `add_message` of src/comm.c gives up the rest of a message.
use mudos_v22pre.Prelude.{
  ℕ, zero, suc, Bool, true, false, ◌==◌, if◌then◌else◌, ◌≡◌, refl, arith, Bool-cases, inl, inr,
}
use mudos_v22pre.Output.State.{
  SendResult, accepted, would_block, interrupted, broken, Output, message_buf_size, offer_size,
  sent_off, called_send, put_char, flush_loop, flush_message, make_room, add_char,
}

-- The user is being thrown out, or `send` found the connection broken.
pub data IsLost (o : Output) : Type 0 where
  closing : o.is_closing ≡ true → IsLost o
  dead : o.net_dead ≡ true → IsLost o

-- The byte `c` cannot be written: there is no place, or only one for a newline, which takes two.
pub data IsStuck (c : ℕ) (o : Output) : Type 0 where
  no_place : o.message_length ≡ 4096 → IsStuck c o
  one_place : c ≡ 10 → o.message_length ≡ 4095 → IsStuck c o
  lost : IsLost o → IsStuck c o

-- The outcome of a step that may fail with the loss of the connection.
data Flushed (p : Output × Bool) : Type 0 where
  well : p.1 ≡ true → Flushed p
  failed : p.1 ≡ false → IsLost p.0 → Flushed p

if_either {ℓ} :
    {A : Type ℓ} (Q : A → Type 0) (b : Bool) (x y : A)
    → (b ≡ true → Q x)
    → (b ≡ false → Q y)
    → Q (if b then x else y)
if_either Q true x y f g = f refl
if_either Q false x y f g = g refl

answer-Flushed :
    (next : ℕ → Output × Bool) (o : Output) (a : SendResult)
    → ((num : ℕ) → Flushed (next num))
    → Flushed (elim a as (λ _. Output × Bool) [
      | accepted num ↦ next num
      | would_block ↦ (o, true)
      | interrupted ↦ (o, true)
      | broken ↦ (record o { net_dead = true }, false)
    ])
answer-Flushed next o (accepted num) g = g num
answer-Flushed next o would_block g = well refl
answer-Flushed next o interrupted g = well refl
answer-Flushed next o broken g = failed refl (dead refl)

-- No room was made: the ring holds as many bytes as before, or the connection is lost.
data Cramped (full : ℕ) (o : Output) : Type 0 where
  still : o.message_length ≡ full → Cramped full o
  gone : IsLost o → Cramped full o

Flushed-Cramped :
    (full : ℕ) (p : Output × Bool)
    → Flushed p
    → (if p.1 then (if p.0.message_length == full then false else true) else false) ≡ false
    → Cramped full p.0
Flushed-Cramped full p (failed stop l) h = gone l
Flushed-Cramped full p (well ok) h = elim (Bool-cases (p.0.message_length == full)) [
  | inl same ↦ still (ground arith)
  | inr fewer ↦ absurd (cc (rw (ok, fewer) at h))
]

full-IsStuck : (c : ℕ) (o : Output) → Cramped 4096 o → IsStuck c o
full-IsStuck c o (still same) = no_place same
full-IsStuck c o (gone l) = lost l

newline-IsStuck : (c : ℕ) (o : Output) → c ≡ 10 → Cramped 4095 o → IsStuck c o
newline-IsStuck c o e (still same) = one_place e same
newline-IsStuck c o e (gone l) = lost l

module _ (send : ℕ → ℕ → SendResult) where
  flush_loop-Flushed : (f : ℕ) (o : Output) → Flushed (flush_loop send f o)
  unfolding flush_loop
  flush_loop-Flushed zero o = well refl
  flush_loop-Flushed (suc f) o =
      if_either Flushed (o.message_length == 0) _ _ (λ e. well refl)
        (λ e.
          answer-Flushed (λ num. flush_loop send f (called_send (sent_off num o))) (called_send o)
            (send o.sends (offer_size o))
            (λ num. flush_loop-Flushed f (called_send (sent_off num o))))

  flush_message-Flushed : (o : Output) → Flushed (flush_message send o)
  unfolding flush_message
  flush_message-Flushed o =
      if_either Flushed o.is_closing _ _ (λ shut. failed refl (closing shut))
        (λ e. flush_loop-Flushed (suc o.message_length) o)

  make_room-Cramped :
      (full : ℕ) (o : Output)
      → (make_room send full o).1 ≡ false
      → Cramped full (make_room send full o).0
  unfolding make_room
  make_room-Cramped full o =
      if_either (λ (p : Output × Bool). p.1 ≡ false → Cramped full p.0) (o.message_length == full) _
        (o, true) (λ e. Flushed-Cramped full (flush_message send o) (flush_message-Flushed o))
        (λ e h. absurd (cc h))

  pub add_char-IsStuck :
      (c : ℕ) (o : Output) → (add_char send c o).1 ≡ false → IsStuck c (add_char send c o).0
  unfolding add_char
  add_char-IsStuck c o =
      let Q : Output × Bool → Type 0 = λ p. p.1 ≡ false → IsStuck c p.0 in
      let p = make_room send message_buf_size o in
      let q = make_room send 4095 p.0 in
      if_either Q p.1 _ (p.0, false)
        (λ room.
          if_either Q (c == 10) _ (put_char c p.0, true)
            (λ newline.
              if_either Q q.1 (put_char c (put_char 13 q.0), true) (q.0, false)
                (λ e h. absurd (cc h))
                (λ none_left h.
                  newline-IsStuck c q.0 (ground arith) (make_room-Cramped 4095 p.0 none_left)))
            (λ plain h. absurd (cc h)))
        (λ none_left h. full-IsStuck c p.0 (make_room-Cramped message_buf_size o none_left))
