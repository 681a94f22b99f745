-- ===== src/Output/Order.antt =====
-- The ring of src/comm.c gives out the bytes in the order in which they were written.
use mudos_v22pre.Prelude.{
  ℕ, ◌+◌, ◌<◌, Bool, true, false, List, [], ◌∷◌, ◌++◌, ◌==◌, if◌then◌else◌, ◌≡◌, refl, sym, ap, ap₂,
  subst, ◌∙◌, arith, Bool-cases, inl, inr,
}
use mathlib.Core.List.{append_assoc, append-nil}
use mudos_v22pre.Output.State.{
  SendResult, Output, message_buf_size, put_char, make_room, add_char, add_message,
}
use mudos_v22pre.Output.Stops.{IsStuck, add_char-IsStuck}
use mudos_v22pre.Output.Ring.{written, IsRing, put_char-written, put_char-IsRing}
use mudos_v22pre.Output.Flush.{Kept, Kept-trans, IsHonest, make_room-Kept, make_room-room}

-- The bytes that are sent for a message: a carriage return before each newline.
abbrev pub out_bytes : ℕ → List ℕ
out_bytes c = if c == 10 then 13 ∷ c ∷ [] else c ∷ []

pub out_text : List ℕ → List ℕ
out_text [] = []
out_text (c ∷ data_) = out_bytes c ++ out_text data_

-- The part of a message that was left out, with the state in which it was given up.
pub data Outcome (left_out : List ℕ) (o : Output) : Type 0 where
  whole : left_out ≡ [] → Outcome left_out o
  stopped :
      (c : ℕ) (rest : List ℕ) → left_out ≡ out_text (c ∷ rest) → IsStuck c o → Outcome left_out o

record Added (c : ℕ) (o : Output) (p : Output × Bool) : Type 0 where
  is_ring : IsRing p.0
  bytes : written p.0 ≡ written o ++ (if p.1 then out_bytes c else [])

module _ (send : ℕ → ℕ → SendResult) (honest : IsHonest send) where
  not-Added : (c : ℕ) (o o' : Output) → Kept o o' → Added c o (o', false)
  not-Added c o o' k = record { is_ring = k.is_ring; bytes = k.same ∙ sym (append-nil (written o)) }

  one-Added :
      (c : ℕ) (o o' : Output)
      → (c == 10) ≡ false
      → Kept o o'
      → o'.message_length < message_buf_size
      → Added c o (put_char c o', true)
  one-Added c o o' plain k lt = record {
    is_ring = put_char-IsRing c o' k.is_ring lt;
    bytes =
        put_char-written c o' k.is_ring lt
        ∙ ap₂ (λ (l : List ℕ) (b : Bool). l ++ (if b then 13 ∷ c ∷ [] else c ∷ [])) k.same
            (sym plain);
  }

  two-Added :
      (c : ℕ) (o o' : Output)
      → (c == 10) ≡ true
      → Kept o o'
      → o'.message_length + 1 < message_buf_size
      → Added c o (put_char c (put_char 13 o'), true)
  two-Added c o o' newline k lt =
      let less : o'.message_length < message_buf_size = omega (arith, lt) in
      let ring₁ = put_char-IsRing 13 o' k.is_ring less in
      record {
        is_ring = put_char-IsRing c (put_char 13 o') ring₁ lt;
        bytes =
            put_char-written c (put_char 13 o') ring₁ lt
            ∙ (ap (λ l. l ++ c ∷ []) (put_char-written 13 o' k.is_ring less)
                ∙ (append_assoc (written o') (13 ∷ []) (c ∷ [])
                    ∙ ap₂ (λ (l : List ℕ) (b : Bool). l ++ (if b then 13 ∷ c ∷ [] else c ∷ []))
                        k.same (sym newline)));
      }

  add_char-Added : (c : ℕ) (o : Output) → IsRing o → Added c o (add_char send c o)
  unfolding add_char
  add_char-Added c o r =
      let p = make_room send message_buf_size o in
      let k = make_room-Kept send honest message_buf_size o r in
      let q = make_room send 4095 p.0 in
      let k₂ = make_room-Kept send honest 4095 p.0 k.is_ring in
      let size = (k.is_ring).in_size in
      let fewer = k₂.no_more in
      elim (Bool-cases p.1) [
        | inr none_left ↦ rw (add_char, none_left) (not-Added c o p.0 k)
        | inl room ↦
            let free = make_room-room send honest message_buf_size o room in
            let lt : (p.0).message_length < message_buf_size = ground (arith, free, size) in
            elim (Bool-cases (c == 10)) [
              | inr plain ↦ rw (add_char, room, plain) (one-Added c o p.0 plain k lt)
              | inl newline ↦ elim (Bool-cases q.1) [
                | inr none_left ↦
                    rw (add_char, room, newline, none_left)
                      (not-Added c o q.0 (Kept-trans o p.0 q.0 k k₂))
                | inl room₂ ↦
                    let free₂ = make_room-room send honest 4095 p.0 room₂ in
                    let lt₂ : (q.0).message_length + 1 < message_buf_size =
                      ground (arith, free₂, lt, fewer) in
                    rw (add_char, room, newline, room₂)
                      (two-Added c o q.0 newline (Kept-trans o p.0 q.0 k k₂) lt₂)
              ]
            ]
      ]

  -- Whatever `send` takes of what it is offered, a byte at least each time, in a ring that is in order, the bytes that went out and
  -- those that wait are those from before with all the bytes of the message behind them; nothing is lost
  -- in between, sent twice or out of order. Only a first part of the message is added if, when the rest of it was
  -- given up, the ring was full at the next byte, or had one place left at a newline, or the user was
  -- being thrown out, or the connection broke.
  pub add_message-written :
      (message : List ℕ) (o : Output)
      → IsRing o
      → (part : List ℕ) × (left_out : List ℕ) × (part ++ left_out ≡ out_text message)
        × (written (add_message send message o) ≡ written o ++ part)
        × Outcome left_out (add_message send message o)
  unfolding add_message out_text
  add_message-written [] o r = ([], [], refl, sym (append-nil (written o)), whole refl)
  add_message-written (c ∷ message) o r =
      let p = add_char send c o in
      let a = add_char-Added c o r in
      let ring = a.is_ring in
      let bytes = a.bytes in
      let (part, left_out, both, e, outcome) = add_message-written message p.0 ring in
      elim (Bool-cases p.1) [
        | inl on ↦
            let added : written p.0 ≡ written o ++ out_bytes c =
              bytes ∙ ap (λ (b : Bool). written o ++ (if b then out_bytes c else [])) on in
            (
              out_bytes c ++ part,
              left_out,
              append_assoc (out_bytes c) part left_out ∙ ap (λ l. out_bytes c ++ l) both,
              ap (λ (b : Bool). written (if b then add_message send message p.0 else p.0)) on
                  ∙ (e ∙ (ap (λ l. l ++ part) added ∙ append_assoc (written o) (out_bytes c) part)),
              subst
                  (λ (b : Bool). Outcome left_out (if b then add_message send message p.0 else p.0))
                  (sym on) outcome,
            )
        | inr stop ↦ (
          [],
          out_text (c ∷ message),
          refl,
          ap (λ (b : Bool). written (if b then add_message send message p.0 else p.0)) stop
              ∙ (bytes ∙ ap (λ (b : Bool). written o ++ (if b then out_bytes c else [])) stop),
          subst
              (λ (b : Bool).
                Outcome (out_text (c ∷ message)) (if b then add_message send message p.0 else p.0))
              (sym stop) (stopped c message refl (add_char-IsStuck send c o stop)),
        )
      ]
