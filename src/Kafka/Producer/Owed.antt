-- ===== src/Kafka/Producer/Owed.antt =====
-- A transaction with an event that is counted and that Kafka does not hold stays in flight.
pub mod Rows
use bottledwater_pg.Prelude.{
  ℕ, suc, ◌+◌, ◌-◌, ◌%◌, ◌<◌, ◌≡◌, ◌≢◌, refl, true, false, not, ◌&&◌, List, [], ◌∷◌, get_elem?,
  some, arith, Bool-cases, inl, inr, ◌==◌,
}
use bottledwater_pg.Prelude.Run.{Holds, Holds-bind}
use bottledwater_pg.Client.Stream.{Stream}
use bottledwater_pg.Kafka.Producer.{
  Envelope, Context, Delivery, Poll, is_complete, remove_at, xact_list_len, int_mod,
  xact_list_length, xact_list_full, xact_list_empty, checkpoint_tail, maybe_checkpoint, delivered,
  poll, backpressure,
}
use bottledwater_pg.Kafka.Producer.Callbacks.{wait_for_room, open_xact, on_begin_txn, on_commit_txn}
use bottledwater_pg.Kafka.Producer.Queue.{count, count-remove_at}
use bottledwater_pg.Kafka.Producer.Window.{
  IsValid, checkpoint_tail-IsValid, length-checkpoint_tail, loop_induction,
}
use bottledwater_pg.Kafka.Producer.Account.{reported, next_outside, length-open_xact}
use bottledwater_pg.Kafka.Producer.Open.{backpressure-Holds, poll-Holds}

-- Giving up the oldest slot brings the others nearer to it.
past_tail :
    (s t k : ℕ)
    → s < xact_list_len
    → t < xact_list_len
    → s ≢ t
    → (s + xact_list_len - t) % xact_list_len < suc k
    → (s + xact_list_len - (t + 1) % xact_list_len) % xact_list_len < k
past_tail s t k hs ht other inside = omega arith

module _ {Schema : Type 0} where
  -- The newest transaction has slot `h`; that of slot `s` is in flight, and more of its events are
  -- counted than Kafka holds.
  pub record IsOwed (h s : ℕ) (c : Context Schema) : Type 0 where
    pub slot : c.xact_head ≡ h
    pub valid : IsValid c
    pub in_list : s < xact_list_len
    pub inside : (s + xact_list_len - c.xact_tail) % xact_list_len < xact_list_length c
    pub owed : count s c.queue < (c.xact_list s).pending_events
    pub bounded : (c.xact_list s).pending_events < int_mod

  checkpoint_tail-IsOwed :
      (h s : ℕ) (c : Context Schema) (k : ℕ)
      → IsValid c
      → xact_list_length c ≡ suc k
      → is_complete (c.xact_list c.xact_tail) ≡ true
      → IsOwed h s c
      → IsOwed h s (checkpoint_tail c)
  checkpoint_tail-IsOwed h s c k v e done o =
      let other : s ≢ c.xact_tail = λ same. absurd (ground (arith, done, o.owed, same)) in
      record {
        slot = unfold checkpoint_tail in o.slot;
        valid = checkpoint_tail-IsValid c v;
        in_list = o.in_list;
        inside = rw (length-checkpoint_tail c k v e) (
            unfold checkpoint_tail in
            past_tail s c.xact_tail k o.in_list v.tail_in other (rw e at o.inside));
        owed = unfold checkpoint_tail in o.owed;
        bounded = unfold checkpoint_tail in o.bounded;
      }

  pub maybe_checkpoint-IsOwed :
      (h s : ℕ) (c : Context Schema) → IsOwed h s c → IsOwed h s (maybe_checkpoint c)
  unfolding maybe_checkpoint
  maybe_checkpoint-IsOwed h s c o =
      loop_induction (IsOwed h s) (checkpoint_tail-IsOwed h s) _ c o.valid (omega (arith, o.inside))
        o

  reported-IsOwed :
      (h s : ℕ) (e : Envelope) (i : ℕ) (c : Context Schema)
      → get_elem? c.queue i ≡ some e
      → IsOwed h s c
      → IsOwed h s (reported e i c)
  unfolding xact_list_length
  reported-IsOwed h s e i c there o = record {
    slot = o.slot;
    valid = record { head_in = o.valid.head_in; tail_in = o.valid.tail_in };
    in_list = o.in_list;
    inside = o.inside;
    owed = ground (arith, o.owed, o.bounded, count-remove_at s c.queue i e there);
    bounded = ground (arith, o.owed, o.bounded);
  }

  delivered-IsOwed :
      (h s : ℕ) (e : Envelope) (i : ℕ) (c : Context Schema)
      → get_elem? c.queue i ≡ some e
      → IsOwed h s c
      → IsOwed h s (delivered e.xact (record c { queue = remove_at c.queue i }))
  unfolding delivered
  delivered-IsOwed h s e i c there o =
      maybe_checkpoint-IsOwed h s (reported e i c) (reported-IsOwed h s e i c there o)

  pub stream-IsOwed :
      (h s : ℕ) (x : Stream) (c : Context Schema)
      → IsOwed h s c
      → IsOwed h s (record c { stream = x })
  unfolding xact_list_length
  stream-IsOwed h s x c o = record {
    slot = o.slot;
    valid = record { head_in = o.valid.head_in; tail_in = o.valid.tail_in };
    in_list = o.in_list;
    inside = o.inside;
    owed = o.owed;
    bounded = o.bounded;
  }

  pub backpressure-IsOwed :
      (h s : ℕ) (p : Poll) (c : Context Schema)
      → IsOwed h s c
      → Holds (IsOwed h s) (backpressure p c)
  backpressure-IsOwed h s =
      backpressure-Holds (IsOwed h s) (delivered-IsOwed h s) (stream-IsOwed h s)

  pub poll-IsOwed :
      (h s : ℕ) (ds : List Delivery) (c : Context Schema)
      → IsOwed h s c
      → Holds (IsOwed h s) (poll ds c)
  poll-IsOwed h s = poll-Holds (IsOwed h s) (delivered-IsOwed h s) (stream-IsOwed h s)

  abbrev HasRoom : ℕ → ℕ → Context Schema → Type 0
  HasRoom h s c = IsOwed h s c × (xact_list_full c ≡ false)

  wait_for_room-HasRoom :
      (h s : ℕ) (ps : List Poll) (c : Context Schema)
      → IsOwed h s c
      → Holds (HasRoom h s) (wait_for_room ps c)
  unfolding wait_for_room
  wait_for_room-HasRoom h s [] c o = elim (Bool-cases (xact_list_full c)) [
    | inl full ↦ rw full tt
    | inr room ↦ rw room (o, room)
  ]
  wait_for_room-HasRoom h s (p ∷ ps) c o = elim (Bool-cases (xact_list_full c)) [
    | inl full ↦ rw full (
        Holds-bind (IsOwed h s) (HasRoom h s) (backpressure p c) (wait_for_room ps)
          (backpressure-IsOwed h s p c o) (wait_for_room-HasRoom h s ps))
    | inr room ↦ rw room (o, room)
  ]

  -- The state while another transaction is being received.
  abbrev pub Owing : ℕ → Context Schema → Type 0
  Owing s c = IsOwed c.xact_head s c × (s ≢ c.xact_head)

  open_xact-Owing : (xid h s : ℕ) (c : Context Schema) → HasRoom h s c → Owing s (open_xact xid c)
  open_xact-Owing xid h s c (o, room) =
      let other : s ≢ (c.xact_head + 1) % xact_list_len =
        λ same. absurd (ground (arith, next_outside c o.valid room, o.inside, same)) in
      (
        record {
          slot = refl;
          valid = unfold open_xact in record { head_in = omega arith; tail_in = o.valid.tail_in };
          in_list = o.in_list;
          inside =
              rw (length-open_xact xid c o.valid room)
                (unfold open_xact in omega (arith, o.inside));
          owed = unfold open_xact in ground (arith, o.owed, other);
          bounded = unfold open_xact in ground (arith, o.bounded, other);
        },
        unfold open_xact in other,
      )

  pub on_begin_txn-Owing :
      (polls : List Poll) (wal_pos xid h s : ℕ) (c : Context Schema)
      → IsOwed h s c
      → Holds (λ r. Owing s r.1) (on_begin_txn polls wal_pos xid c)
  unfolding on_begin_txn
  on_begin_txn-Owing polls wal_pos xid h s c o =
      elim (Bool-cases ((xid == 0) && not ((c.xact_tail == 0) && xact_list_empty c))) [
        | inl refused ↦ rw refused tt
        | inr fine ↦ rw fine (
            Holds-bind (HasRoom h s) (λ r. Owing s r.1) (wait_for_room polls c) _
              (wait_for_room-HasRoom h s polls c o) (λ d p. open_xact-Owing xid h s d p))
      ]

  pub on_commit_txn-IsOwed :
      (wal_pos xid h s : ℕ) (c : Context Schema)
      → IsOwed h s c
      → Holds (λ r. IsOwed h s r.1) (on_commit_txn wal_pos xid c)
  unfolding on_commit_txn
  on_commit_txn-IsOwed wal_pos xid h s c o =
      elim (Bool-cases (xid == (c.xact_list c.xact_head).xid)) [
        | inr other ↦ rw other tt
        | inl same ↦ rw same (
            maybe_checkpoint-IsOwed h s _ (
              unfold xact_list_length in
              record {
                slot = o.slot;
                valid = record { head_in = o.valid.head_in; tail_in = o.valid.tail_in };
                in_list = o.in_list;
                inside = o.inside;
                owed = ground (arith, o.owed);
                bounded = ground (arith, o.bounded);
              }))
      ]
