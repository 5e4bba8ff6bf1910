-- ===== src/Kafka/Producer/Account.antt =====
-- Every message that Kafka holds belongs to a transaction in flight, which counts it as pending.
use bottledwater_pg.Prelude.{
  ℕ, suc, ◌+◌, ◌-◌, ◌%◌, ◌<◌, ◌≤◌, ◌≡◌, refl, true, false, List, [], ◌∷◌, ◌++◌, get_elem?, some,
  arith,
}
use bottledwater_pg.Kafka.Producer.{
  Envelope, Context, xact_list_len, int_mod, decrement, is_complete, remove_at, xact_list_length,
  xact_list_full, checkpoint_tail, maybe_checkpoint, set_xact, delivered,
}
use bottledwater_pg.Kafka.Producer.Callbacks.{open_xact, count_event}
use bottledwater_pg.Kafka.Producer.Queue.{
  count, Within, Within-tail, Within-append, Within-more, Within-remove_at, count_outside,
  count-append, count-remove_at, Within-nonempty,
}
use bottledwater_pg.Kafka.Producer.Window.{
  IsValid, length-lt, length-checkpoint_tail, checkpoint_tail-IsValid, loop_induction,
}

module _ {Schema : Type 0} where
  pub record IsAccounted (c : Context Schema) : Type 0 where
    pub valid : IsValid c
    pub within : Within c.xact_tail (xact_list_length c) c.queue
    pub counted : (s : ℕ) → count s c.queue ≤ (c.xact_list s).pending_events
    pub bounded : (s : ℕ) → (c.xact_list s).pending_events < int_mod

  pub checkpoint_tail-IsAccounted :
      (c : Context Schema) (k : ℕ)
      → xact_list_length c ≡ suc k
      → is_complete (c.xact_list c.xact_tail) ≡ true
      → IsAccounted c
      → IsAccounted (checkpoint_tail c)
  checkpoint_tail-IsAccounted c k e done a = record {
    valid = checkpoint_tail-IsValid c a.valid;
    within = rw (length-checkpoint_tail c k a.valid e) (
        unfold checkpoint_tail in
        Within-tail c.xact_tail k c.queue a.valid.tail_in (rw e at a.within)
          (ground (arith, a.counted c.xact_tail)));
    counted = unfold checkpoint_tail in a.counted;
    bounded = unfold checkpoint_tail in a.bounded;
  }

  -- A checkpoint gives up only transactions of which Kafka holds no message.
  pub maybe_checkpoint-IsAccounted :
      (c : Context Schema)
      → 0 < xact_list_length c
      → IsAccounted c
      → IsAccounted (maybe_checkpoint c)
  unfolding maybe_checkpoint
  maybe_checkpoint-IsAccounted c h a =
      loop_induction IsAccounted (λ d k v e done p. checkpoint_tail-IsAccounted d k e done p)
        xact_list_len c a.valid h a

  length_of_room :
      (c : Context Schema) → xact_list_full c ≡ false → xact_list_length c < xact_list_len - 1
  unfolding xact_list_full
  length_of_room c room = ground (arith, length-lt c)

  pub next_outside :
      (c : Context Schema)
      → IsValid c
      → xact_list_full c ≡ false
      → xact_list_length c
        ≤ ((c.xact_head + 1) % xact_list_len + xact_list_len - c.xact_tail) % xact_list_len
  unfolding xact_list_length
  next_outside c v room = omega (arith, length_of_room c room)

  pub length-open_xact :
      (xid : ℕ) (c : Context Schema)
      → IsValid c
      → xact_list_full c ≡ false
      → xact_list_length (open_xact xid c) ≡ xact_list_length c + 1
  unfolding xact_list_length xact_list_full open_xact
  length-open_xact xid c v room = omega (arith, length_of_room c room)

  -- The slot to open holds no message.
  counted-open_xact :
      (xid : ℕ) (c : Context Schema) (s : ℕ)
      → xact_list_full c ≡ false
      → IsAccounted c
      → count s (open_xact xid c).queue ≤ ((open_xact xid c).xact_list s).pending_events
  unfolding open_xact
  counted-open_xact xid c s room a = ground (
    arith,
    a.counted s,
    count_outside c.xact_tail (xact_list_length c) ((c.xact_head + 1) % xact_list_len) c.queue
        a.within (next_outside c a.valid room),
  )

  -- A new transaction takes a slot that holds no message, unless the buffer is full.
  pub open_xact-IsAccounted :
      (xid : ℕ) (c : Context Schema)
      → xact_list_full c ≡ false
      → IsAccounted c
      → IsAccounted (open_xact xid c)
  open_xact-IsAccounted xid c room a = record {
    valid = unfold open_xact in record { head_in = omega arith; tail_in = a.valid.tail_in };
    within = rw (length-open_xact xid c a.valid room) (
        unfold open_xact in
        Within-more c.xact_tail (xact_list_length c) _ c.queue (omega arith) a.within);
    counted = λ s. counted-open_xact xid c s room a;
    bounded = λ s. unfold open_xact in ground (arith, a.bounded s);
  }

  length-queue :
      (c : Context Schema) (q : List Envelope)
      → xact_list_length (record c { queue = q }) ≡ xact_list_length c
  unfolding xact_list_length
  length-queue c q = refl

  pub length-count_event :
      (c : Context Schema) → xact_list_length (count_event c) ≡ xact_list_length c
  unfolding xact_list_length count_event
  length-count_event c = refl

  pub head_inside :
      (c : Context Schema)
      → IsValid c
      → 0 < xact_list_length c
      → (c.xact_head + xact_list_len - c.xact_tail) % xact_list_len < xact_list_length c
  unfolding xact_list_length
  head_inside c v h = omega arith

  counted-count_event :
      (c : Context Schema) (s : ℕ)
      → (c.xact_list c.xact_head).pending_events + 1 < int_mod
      → IsAccounted c
      → count s (count_event c).queue ≤ ((count_event c).xact_list s).pending_events
  unfolding count_event
  counted-count_event c s fits a = ground (arith, a.counted s)

  pub count_event-IsAccounted :
      (c : Context Schema)
      → (c.xact_list c.xact_head).pending_events + 1 < int_mod
      → IsAccounted c
      → IsAccounted (count_event c)
  count_event-IsAccounted c fits a = record {
    valid = unfold count_event in record { head_in = a.valid.head_in; tail_in = a.valid.tail_in };
    within = rw length-count_event (unfold count_event in a.within);
    counted = λ s. counted-count_event c s fits a;
    bounded = λ s. unfold count_event in ground (arith, a.bounded s);
  }

  abbrev pub reported : Envelope → ℕ → Context Schema → Context Schema
  reported e i c =
      let x = c.xact_list e.xact in
      set_xact e.xact (record x { pending_events = decrement x.pending_events })
        (record c { queue = remove_at c.queue i })

  -- The message that is reported on was counted.
  pub reported-IsAccounted :
      (e : Envelope) (i : ℕ) (c : Context Schema)
      → get_elem? c.queue i ≡ some e
      → IsAccounted c
      → IsAccounted (reported e i c)
  unfolding xact_list_length
  reported-IsAccounted e i c h a = record {
    valid = record { head_in = a.valid.head_in; tail_in = a.valid.tail_in };
    within = Within-remove_at c.xact_tail (xact_list_length c) c.queue i a.within;
    counted = λ s. ground (arith, count-remove_at s c.queue i e h, a.counted s, a.bounded s);
    bounded = λ s. ground (arith, a.bounded s, a.bounded e.xact);
  }

  -- A report on a message of the queue takes it out, uncounts it and keeps the account, through the
  -- checkpoint that follows.
  pub delivered-IsAccounted :
      (e : Envelope) (i : ℕ) (c : Context Schema)
      → get_elem? c.queue i ≡ some e
      → IsAccounted c
      → IsAccounted (delivered e.xact (record c { queue = remove_at c.queue i }))
  unfolding delivered
  delivered-IsAccounted e i c h a =
      maybe_checkpoint-IsAccounted (reported e i c)
        (unfold xact_list_length in
          Within-nonempty c.xact_tail (xact_list_length c) c.queue i h a.within)
        (reported-IsAccounted e i c h a)

  -- A message of the open transaction can be queued, if the transaction owes one.
  pub queued-IsAccounted :
      (c : Context Schema) (e : Envelope)
      → 0 < xact_list_length c
      → e.xact ≡ c.xact_head
      → suc (count c.xact_head c.queue) ≤ (c.xact_list c.xact_head).pending_events
      → IsAccounted c
      → IsAccounted (record c { queue = c.queue ++ (e ∷ []) })
  queued-IsAccounted c e h own owed a = record {
    valid = record { head_in = a.valid.head_in; tail_in = a.valid.tail_in };
    within = rw length-queue (
        Within-append c.xact_tail (xact_list_length c) c.queue e a.within (rw own a.valid.head_in)
          (rw own (head_inside c a.valid h)));
    counted = λ s. ground (arith, a.counted s, count-append s c.queue e);
    bounded = a.bounded;
  }
