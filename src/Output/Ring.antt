-- ===== src/Output/Ring.antt =====
-- The bytes in the ring of output of src/comm.c.
use mudos_v22pre.Prelude.{
  ℕ, zero, suc, ◌+◌, ◌-◌, ◌%◌, ◌≤◌, ◌<◌, true, false, List, [], ◌∷◌, ◌++◌, ◌==◌, ◌≡◌, refl, sym, ap,
  ap₂, ◌∙◌, arith, update,
}
use mathlib.Core.List.{append_assoc}
use mudos_v22pre.Output.State.{Output, message_buf_size, slice, offer_size, sent_off, put_char}

-- The bytes of the ring, from an index on.
pub ring : ℕ → ℕ → (ℕ → ℕ) → List ℕ
ring zero i buf = []
ring (suc n) i buf = buf (i % message_buf_size) ∷ ring n (suc i) buf

-- All bytes that went out or wait, in order.
unfoldable pub written : Output → List ℕ
written o = o.sent ++ ring o.message_length o.message_consumer o.message_buf

-- The producer is `message_length` places before the consumer, and the ring is not more than full.
pub record IsRing (o : Output) : Type 0 where
  pub in_place : o.message_producer ≡ (o.message_consumer + o.message_length) % message_buf_size
  pub in_array : o.message_consumer < message_buf_size
  pub in_size : o.message_length ≤ message_buf_size

ring-split : (a b i : ℕ) (buf : ℕ → ℕ) → ring (a + b) i buf ≡ ring a i buf ++ ring b (i + a) buf
unfolding ring
ring-split zero b i buf =
    let e : 0 + b ≡ b = omega arith in let d : i + 0 ≡ i = omega arith in rw (e, d) refl
ring-split (suc a) b i buf =
    let e : suc a + b ≡ suc (a + b) = omega arith in
    let d : i + suc a ≡ suc i + a = omega arith in
    rw (e, d) (ap (λ l. buf (i % message_buf_size) ∷ l) (ring-split a b (suc i) buf))

ring-turn :
    (n i j : ℕ) (buf : ℕ → ℕ)
    → i % message_buf_size ≡ j % message_buf_size
    → ring n i buf ≡ ring n j buf
unfolding ring
ring-turn zero i j buf h = refl
ring-turn (suc n) i j buf h =
    ap₂ (λ k l. buf k ∷ l) h (ring-turn n (suc i) (suc j) buf (omega (arith, h)))

ring-slice : (n i : ℕ) (buf : ℕ → ℕ) → i + n ≤ message_buf_size → slice n i buf ≡ ring n i buf
unfolding ring slice
ring-slice zero i buf h = refl
ring-slice (suc n) i buf h =
    let e : i ≡ i % message_buf_size = omega (arith, h) in
    ap₂ (λ k l. buf k ∷ l) e (ring-slice n (suc i) buf (omega (arith, h)))

-- A write behind the bytes of the ring leaves them.
ring-update :
    (n i p c : ℕ) (buf : ℕ → ℕ)
    → n < message_buf_size
    → p ≡ (i + n) % message_buf_size
    → (m : ℕ) → m ≤ n
    → ring m (i + (n - m)) (update buf p c) ≡ ring m (i + (n - m)) buf
unfolding ring
ring-update n i p c buf lt e zero h = refl
ring-update n i p c buf lt e (suc m) h =
    let away : ((i + (n - suc m)) % message_buf_size == p) ≡ false = ground (arith, e, lt, h) in
    let d : suc (i + (n - suc m)) ≡ i + (n - m) = omega (arith, h) in
    ap₂ (λ (k : ℕ) (l : List ℕ). k ∷ l) (rw away refl)
      (rw d (ring-update n i p c buf lt e m (omega (arith, h))))

ring-put :
    (n i p c : ℕ) (buf : ℕ → ℕ)
    → n < message_buf_size
    → p ≡ (i + n) % message_buf_size
    → ring (n + 1) i (update buf p c) ≡ ring n i buf ++ c ∷ []
unfolding ring
ring-put n i p c buf lt e =
    let here : ((i + n) % message_buf_size == p) ≡ true = ground (arith, e) in
    let z : i + (n - n) ≡ i = omega arith in
    let same : ring n i (update buf p c) ≡ ring n i buf =
      ap (λ k. ring n k (update buf p c)) (sym z)
      ∙ (ring-update n i p c buf lt e n (omega arith) ∙ ap (λ k. ring n k buf) z) in
    ring-split n 1 i (update buf p c) ∙ ap₂ (λ (xs ys : List ℕ). xs ++ ys) same (rw here refl)

pub put_char-written :
    (c : ℕ) (o : Output)
    → IsRing o
    → o.message_length < message_buf_size
    → written (put_char c o) ≡ written o ++ c ∷ []
unfolding written
put_char-written c o r lt =
    ap (λ l. o.sent ++ l)
      (ring-put o.message_length o.message_consumer o.message_producer c o.message_buf lt
        r.in_place)
    ∙ sym (append_assoc o.sent (ring o.message_length o.message_consumer o.message_buf) (c ∷ []))

pub put_char-IsRing :
    (c : ℕ) (o : Output) → IsRing o → o.message_length < message_buf_size → IsRing (put_char c o)
put_char-IsRing c o r lt =
    let a = r.in_place in
    let b = r.in_array in
    record { in_place = omega (arith, a); in_array = b; in_size = omega (arith, lt) }

pub sent_off-IsRing :
    (num : ℕ) (o : Output) → IsRing o → num ≤ o.message_length → IsRing (sent_off num o)
sent_off-IsRing num o r h =
    let a = r.in_place in
    let c = r.in_size in
    record { in_place = omega (arith, a, h); in_array = omega arith; in_size = omega (arith, c, h) }

pub sent_off-written :
    (num : ℕ) (o : Output)
    → IsRing o
    → num ≤ o.message_length
    → o.message_consumer + num ≤ message_buf_size
    → written (sent_off num o) ≡ written o
unfolding written
sent_off-written num o r h fits =
    let i = o.message_consumer in
    let n = o.message_length in
    let buf = o.message_buf in
    let d : n ≡ num + (n - num) = omega (arith, h) in
    let m : (i + num) % message_buf_size % message_buf_size ≡ (i + num) % message_buf_size =
      omega arith in
    append_assoc o.sent (slice num i buf) (ring (n - num) ((i + num) % message_buf_size) buf)
    ∙ ap (λ l. o.sent ++ l)
        (ap₂ (λ (xs ys : List ℕ). xs ++ ys) (ring-slice num i buf fits)
            (ring-turn (n - num) ((i + num) % message_buf_size) (i + num) buf m)
          ∙ (sym (ring-split num (n - num) i buf) ∙ ap (λ k. ring k i buf) (sym d)))

-- What is offered to `send` stands in one piece in the array and in the ring.
pub offer_size-fits :
    (o : Output)
    → IsRing o
    → 0 < o.message_length
    → (offer_size o ≤ o.message_length) × (o.message_consumer + offer_size o ≤ message_buf_size)
offer_size-fits o r h =
    let a = r.in_place in
    let b = r.in_array in
    let c = r.in_size in (ground (arith, a, b, c, h), ground (arith, a, b, c, h))
