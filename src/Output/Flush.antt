-- ===== src/Output/Flush.antt =====
-- What a flush of src/comm.c does to the ring of output.
use mudos_v22pre.Prelude.{
  ℕ, zero, suc, ◌≤◌, ◌<◌, Bool, true, false, ◌==◌, if◌then◌else◌, ◌≡◌, ◌⊎◌, refl, sym, ◌∙◌, arith,
  Bool-cases, inl, inr,
}
use mudos_v22pre.Output.State.{
  SendResult, accepted, would_block, interrupted, broken, Output, offer_size, sent_off, called_send,
  flush_loop, flush_message, make_room,
}
use mudos_v22pre.Output.Ring.{written, IsRing, sent_off-IsRing, sent_off-written, offer_size-fits}

-- What a flush may do: the ring is in order, no byte is lost, doubled or moved, and none comes in.
pub record Kept (o o' : Output) : Type 0 where
  pub is_ring : IsRing o'
  pub same : written o' ≡ written o
  pub no_more : o'.message_length ≤ o.message_length

Kept-self : (o : Output) → IsRing o → Kept o o
Kept-self o r = record { is_ring = r; same = refl; no_more = omega arith }

pub Kept-trans : (o p q : Output) → Kept o p → Kept p q → Kept o q
Kept-trans o p q a b = record {
  is_ring = b.is_ring;
  same = b.same ∙ a.same;
  no_more = let x = a.no_more in let y = b.no_more in omega (arith, x, y);
}

if_Kept :
    (o : Output) (b : Bool) (x y : Output × Bool)
    → Kept o x.0
    → Kept o y.0
    → Kept o (if b then x else y).0
if_Kept o true x y h k = h
if_Kept o false x y h k = k

stopped-Kept : (o : Output) → IsRing o → Kept o (called_send o)
unfolding written
stopped-Kept o r =
    let a = r.in_place in
    let b = r.in_array in
    let c = r.in_size in
    record {
      is_ring = record { in_place = a; in_array = b; in_size = c };
      same = refl;
      no_more = omega arith;
    }

broken-Kept : (o : Output) → IsRing o → Kept o (record (called_send o) { net_dead = true })
unfolding written
broken-Kept o r =
    let a = r.in_place in
    let b = r.in_array in
    let c = r.in_size in
    record {
      is_ring = record { in_place = a; in_array = b; in_size = c };
      same = refl;
      no_more = omega arith;
    }

-- `send` takes no more than it is offered, and a byte at least if there is one.
abbrev pub IsHonest : (ℕ → ℕ → SendResult) → Type 0
IsHonest send = (k num m : ℕ) → send k num ≡ accepted m → (m ≤ num) × (0 < num → 0 < m)

sent-cases :
    (a : SendResult)
    → ((m : ℕ) × (a ≡ accepted m)) ⊎ ((a ≡ would_block) ⊎ ((a ≡ interrupted) ⊎ (a ≡ broken)))
sent-cases (accepted m) = inl (m, refl)
sent-cases would_block = inr (inl refl)
sent-cases interrupted = inr (inr (inl refl))
sent-cases broken = inr (inr (inr refl))

room-left : (a b : Bool) → (if a then (if b then false else true) else false) ≡ true → b ≡ false
room-left true false h = refl
room-left true true h = sym h
room-left false b h = absurd cc

module _ (send : ℕ → ℕ → SendResult) (honest : IsHonest send) where
  sent_off-Kept :
      (o : Output) (m : ℕ)
      → IsRing o
      → (o.message_length == 0) ≡ false
      → send o.sends (offer_size o) ≡ accepted m
      → Kept o (called_send (sent_off m o))
  unfolding written
  sent_off-Kept o m r h e =
      let some_left : 0 < o.message_length = ground (arith, h) in
      let (fits, piece) = offer_size-fits o r some_left in
      let le = (honest o.sends (offer_size o) m e).0 in
      let all : m ≤ o.message_length = omega (arith, fits, le) in
      let t = sent_off-IsRing m o r all in
      let a = t.in_place in
      let b = t.in_array in
      let c = t.in_size in
      record {
        is_ring = record { in_place = a; in_array = b; in_size = c };
        same = sent_off-written m o r all (omega (arith, piece, le));
        no_more = omega arith;
      }

  flush_loop-Kept : (f : ℕ) (o : Output) → IsRing o → Kept o (flush_loop send f o).0
  unfolding flush_loop
  flush_loop-Kept zero o r = Kept-self o r
  flush_loop-Kept (suc f) o r = elim (Bool-cases (o.message_length == 0)) [
    | inl empty ↦ rw (flush_loop, empty) (Kept-self o r)
    | inr left ↦ elim (sent-cases (send o.sends (offer_size o))) [
      | inl (m, e) ↦
          let next = called_send (sent_off m o) in
          let k = sent_off-Kept o m r left e in
          rw (flush_loop, left, e)
            (Kept-trans o next (flush_loop send f next).0 k (flush_loop-Kept f next k.is_ring))
      | inr (inl e) ↦ rw (flush_loop, left, e) (stopped-Kept o r)
      | inr (inr (inl e)) ↦ rw (flush_loop, left, e) (stopped-Kept o r)
      | inr (inr (inr e)) ↦ rw (flush_loop, left, e) (broken-Kept o r)
    ]
  ]

  flush_message-Kept : (o : Output) → IsRing o → Kept o (flush_message send o).0
  unfolding flush_message
  flush_message-Kept o r =
      if_Kept o o.is_closing (o, false) (flush_loop send (suc o.message_length) o) (Kept-self o r)
        (flush_loop-Kept (suc o.message_length) o r)

  pub make_room-Kept : (full : ℕ) (o : Output) → IsRing o → Kept o (make_room send full o).0
  unfolding make_room
  make_room-Kept full o r =
      if_Kept o (o.message_length == full) _ (o, true) (flush_message-Kept o r) (Kept-self o r)

  pub make_room-room :
      (full : ℕ) (o : Output)
      → (make_room send full o).1 ≡ true
      → ((make_room send full o).0.message_length == full) ≡ false
  unfolding make_room
  make_room-room full o = elim (Bool-cases (o.message_length == full)) [
    | inl is_full ↦ rw (make_room, is_full) (room-left (flush_message send o).1 _)
    | inr free ↦ rw (make_room, free) (λ h. free)
  ]

  -- The fuel of a flush is enough: with more, it does the same.
  flush_loop-enough :
      ((k num m : ℕ) → send k num ≡ accepted m → 0 < m)
      → (f : ℕ) (o : Output) → o.message_length < f
      → flush_loop send f o ≡ flush_loop send (suc f) o
  unfolding flush_loop
  flush_loop-enough moves zero o h = absurd (omega (arith, h))
  flush_loop-enough moves (suc f) o h = elim (Bool-cases (o.message_length == 0)) [
    | inl empty ↦ rw (flush_loop, empty) refl
    | inr left ↦ elim (sent-cases (send o.sends (offer_size o))) [
      | inl (m, e) ↦
          let some_left : 0 < o.message_length = ground (arith, left) in
          let some_sent = moves o.sends (offer_size o) m e in
          rw (flush_loop, left, e)
            (flush_loop-enough moves f (called_send (sent_off m o))
              (omega (arith, h, some_sent, some_left)))
      | inr (inl e) ↦ rw (flush_loop, left, e) refl
      | inr (inr (inl e)) ↦ rw (flush_loop, left, e) refl
      | inr (inr (inr e)) ↦ rw (flush_loop, left, e) refl
    ]
  ]
