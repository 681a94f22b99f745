-- ===== src/Output/State.antt =====
-- The ring of output of a user's connection in src/comm.c: `add_message` and `flush_message`.
use mudos_v22pre.Prelude.{
  ℕ, zero, suc, ◌+◌, ◌-◌, ◌%◌, Bool, true, false, List, [], ◌∷◌, ◌++◌, ◌==◌, ltb, if◌then◌else◌,
  update,
}

-- What `send` answers.
pub data SendResult : Type 0 where
  accepted : ℕ → SendResult
  would_block : SendResult
  interrupted : SendResult
  broken : SendResult

-- The fields `message_…` of `interactive_t`; `is_closing` and `net_dead` are flags of `iflags`. `sent` has
-- the bytes that `send` took, and `sends` counts its calls.
pub record Output : Type 0 where
  pub message_producer : ℕ
  pub message_consumer : ℕ
  pub message_length : ℕ
  pub message_buf : ℕ → ℕ
  pub is_closing : Bool
  pub net_dead : Bool
  pub sent : List ℕ
  pub sends : ℕ

abbrev pub message_buf_size : ℕ
message_buf_size = 4096

-- The bytes of the array at `num` places from `i` on.
unfoldable pub slice : ℕ → ℕ → (ℕ → ℕ) → List ℕ
slice zero i buf = []
slice (suc num) i buf = buf i ∷ slice num (suc i) buf

-- The bytes that are offered to `send`: up to the producer, or to the end of the array.
abbrev pub offer_size : Output → ℕ
offer_size o =
    if ltb o.message_consumer o.message_producer
    then o.message_producer - o.message_consumer
    else message_buf_size - o.message_consumer

abbrev pub sent_off : ℕ → Output → Output
sent_off num o = record o {
  message_consumer = (o.message_consumer + num) % message_buf_size;
  message_length = o.message_length - num;
  sent = o.sent ++ slice num o.message_consumer o.message_buf;
}

abbrev pub called_send : Output → Output
called_send o = record o { sends = suc o.sends }

-- `*cp` is written, and the ring moves on.
abbrev pub put_char : ℕ → Output → Output
put_char c o = record o {
  message_buf = update o.message_buf o.message_producer c;
  message_producer = (o.message_producer + 1) % message_buf_size;
  message_length = o.message_length + 1;
}

-- `send k num` is the answer to the `k`-th call, which offers `num` bytes.
module _ (send : ℕ → ℕ → SendResult) where
  -- The loop of `flush_message`, on fuel, and its result. A `send` that succeeds without taking a byte
  -- would keep the source in its loop; here the fuel ends it, as if the flush were done.
  unfoldable pub flush_loop : ℕ → Output → Output × Bool
  unfolding slice
  flush_loop zero o = (o, true)
  flush_loop (suc f) o =
      let next : ℕ → Output × Bool = λ num. flush_loop f (called_send (sent_off num o)) in
      if o.message_length == 0
      then (o, true)
      else elim (send o.sends (offer_size o)) as (λ _. Output × Bool) [
        | accepted num ↦ next num
        | would_block ↦ (called_send o, true)
        | interrupted ↦ (called_send o, true)
        | broken ↦ (record (called_send o) { net_dead = true }, false)
      ]

  unfoldable pub flush_message : Output → Output × Bool
  unfolding flush_loop
  flush_message o = if o.is_closing then (o, false) else flush_loop (suc o.message_length) o

  -- Room for a byte when the ring holds `full` bytes or more: what is there after a flush, and whether the
  -- byte can be written.
  unfoldable pub make_room : ℕ → Output → Output × Bool
  unfolding flush_message
  make_room full o =
      let p = flush_message o in
      if o.message_length == full
      then (p.0, if p.1 then (if (p.0).message_length == full then false else true) else false)
      else (o, true)

  -- A byte of the message; `false` if the rest is given up.
  unfoldable pub add_char : ℕ → Output → Output × Bool
  unfolding make_room
  add_char c o =
      let p = make_room message_buf_size o in
      let q = make_room (message_buf_size - 1) p.0 in
      if p.1
      then (if c == 10
          then (if q.1 then (put_char c (put_char 13 q.0), true) else (q.0, false))
          else (put_char c p.0, true))
      else (p.0, false)

  -- The loop of `add_message`.
  unfoldable pub add_message : List ℕ → Output → Output
  unfolding add_char
  add_message [] o = o
  add_message (c ∷ data_) o =
      let p = add_char c o in let rest = add_message data_ p.0 in if p.1 then rest else p.0
