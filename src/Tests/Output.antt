-- ===== src/Tests/Output.antt =====
-- A message to a user of src/comm.c, at a connection that takes three bytes at a time.
use mudos_v22pre.Prelude.{ℕ, ◌≡◌, refl, ap, false, List, [], ◌∷◌, ◌++◌, ltb, if◌then◌else◌, arith}
use mudos_v22pre.Output.State.{SendResult, accepted, Output, add_message, flush_message}
use mudos_v22pre.Output.Ring.{written}
use mudos_v22pre.Output.Flush.{IsHonest}
use mudos_v22pre.Output.Order.{out_text, Outcome, add_message-written}

abbrev three_of : ℕ → ℕ → SendResult
three_of k num = accepted (if ltb num 3 then num else 3)

abbrev count_of : SendResult → ℕ
count_of (accepted m) = m
count_of a = 0

three_of-IsHonest : IsHonest three_of
three_of-IsHonest k num m e =
    let d : (if ltb num 3 then num else 3) ≡ m = ap count_of e in
    (ground (arith, d), λ some_left. ground (arith, d))

-- The next byte goes to the last place of the ring.
abbrev output : Output
output = record {
  message_producer = 4095;
  message_consumer = 4095;
  message_length = 0;
  message_buf = λ i. 0;
  is_closing = false;
  net_dead = false;
  sent = [];
  sends = 0;
}

sent_text :
    (flush_message three_of (add_message three_of (104 ∷ 105 ∷ 10 ∷ []) output)).0.sent
    ≡ 104 ∷ 105 ∷ 13 ∷ 10 ∷ []
unfolding add_message flush_message
sent_text = refl

add_message-written_example :
    (part : List ℕ) × (left_out : List ℕ) × (part ++ left_out ≡ out_text (104 ∷ 10 ∷ []))
    × (written (add_message three_of (104 ∷ 10 ∷ []) output) ≡ written output ++ part)
    × Outcome left_out (add_message three_of (104 ∷ 10 ∷ []) output)
add_message-written_example =
    add_message-written three_of three_of-IsHonest (104 ∷ 10 ∷ []) output
      (record { in_place = refl; in_array = omega arith; in_size = omega arith })
