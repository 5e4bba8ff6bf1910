-- ===== src/Kafka/Producer/Session.antt =====
-- The callbacks of a stream of transactions, in any order that Postgres sends them, whatever Kafka
-- reports meanwhile.
use bottledwater_pg.Prelude.{
  ℕ, ◌≡◌, ◌≢◌, refl, false, List, [], ◌∷◌, arith, Bool-cases, inl, inr, ◌==◌,
}
use bottledwater_pg.Prelude.Run.{Holds, Holds-bind}
use bottledwater_pg.Client.Stream.{Stream}
use bottledwater_pg.Kafka.Producer.{
  Context, Delivery, poll, Poll, set_xact, xact_list_length, xact_list_full, backpressure,
}
use bottledwater_pg.Kafka.Producer.Callbacks.{wait_for_room, open_xact, on_begin_txn, on_commit_txn}
use bottledwater_pg.Kafka.Producer.Account.{
  IsAccounted, maybe_checkpoint-IsAccounted, length-open_xact, open_xact-IsAccounted,
  delivered-IsAccounted,
}
use bottledwater_pg.Kafka.Producer.Open.{IsOpen, delivered-IsOpen, backpressure-Holds, poll-Holds}

module _ {Schema : Type 0} where
  pub stream-IsAccounted :
      (s : Stream) (c : Context Schema) → IsAccounted c → IsAccounted (record c { stream = s })
  unfolding xact_list_length
  stream-IsAccounted s c a = record {
    valid = record { head_in = a.valid.head_in; tail_in = a.valid.tail_in };
    within = a.within;
    counted = a.counted;
    bounded = a.bounded;
  }

  pub stream-IsOpen :
      (h k n : ℕ) (s : Stream) (c : Context Schema)
      → IsOpen h k n c
      → IsOpen h k n (record c { stream = s })
  unfolding xact_list_length
  stream-IsOpen h k n s c o = record {
    slot = o.slot;
    account = stream-IsAccounted s c o.account;
    nonempty = o.nonempty;
    streaming = o.streaming;
    uncommitted = o.uncommitted;
    owed = o.owed;
    limited = o.limited;
  }

  backpressure-IsAccounted :
      (p : Poll) (c : Context Schema) → IsAccounted c → Holds IsAccounted (backpressure p c)
  backpressure-IsAccounted = backpressure-Holds IsAccounted delivered-IsAccounted stream-IsAccounted

  pub backpressure-IsOpen :
      (h k n : ℕ) (p : Poll) (c : Context Schema)
      → IsOpen h k n c
      → Holds (IsOpen h k n) (backpressure p c)
  backpressure-IsOpen h k n =
      backpressure-Holds (IsOpen h k n) (delivered-IsOpen h k n) (stream-IsOpen h k n)

  pub poll-IsAccounted :
      (ds : List Delivery) (c : Context Schema) → IsAccounted c → Holds IsAccounted (poll ds c)
  poll-IsAccounted = poll-Holds IsAccounted delivered-IsAccounted stream-IsAccounted

  pub poll-IsOpen :
      (h k n : ℕ) (ds : List Delivery) (c : Context Schema)
      → IsOpen h k n c
      → Holds (IsOpen h k n) (poll ds c)
  poll-IsOpen h k n = poll-Holds (IsOpen h k n) (delivered-IsOpen h k n) (stream-IsOpen h k n)

  abbrev HasRoom : Context Schema → Type 0
  HasRoom c = IsAccounted c × (xact_list_full c ≡ false)

  wait_for_room-HasRoom :
      (ps : List Poll) (c : Context Schema) → IsAccounted c → Holds HasRoom (wait_for_room ps c)
  unfolding wait_for_room
  wait_for_room-HasRoom [] c a = elim (Bool-cases (xact_list_full c)) [
    | inl full ↦ rw full tt
    | inr room ↦ rw room (a, room)
  ]
  wait_for_room-HasRoom (p ∷ ps) c a = elim (Bool-cases (xact_list_full c)) [
    | inl full ↦ rw full (
        Holds-bind IsAccounted HasRoom (backpressure p c) (wait_for_room ps)
          (backpressure-IsAccounted p c a) (wait_for_room-HasRoom ps))
    | inr room ↦ rw room (a, room)
  ]

  open_xact-IsOpen :
      (xid : ℕ) (c : Context Schema)
      → xid ≢ 0
      → HasRoom c
      → IsOpen (open_xact xid c).xact_head 0 0 (open_xact xid c)
  open_xact-IsOpen xid c x (a, room) =
      let after = open_xact-IsAccounted xid c room a in
      record {
        slot = refl;
        account = after;
        nonempty = rw (length-open_xact xid c a.valid room) (omega arith);
        streaming = unfold open_xact in ground arith;
        uncommitted = unfold open_xact in ground arith;
        owed = omega (arith, after.counted (open_xact xid c).xact_head);
        limited = unfold open_xact in ground arith;
      }

  -- Some slot is open.
  abbrev pub InTxn : ℕ → ℕ → Context Schema → Type 0
  InTxn k n c = IsOpen c.xact_head k n c

  pub IsOpen→InTxn : (h k n : ℕ) (c : Context Schema) → IsOpen h k n c → InTxn k n c
  IsOpen→InTxn h k n c o = record {
    slot = refl;
    account = o.account;
    nonempty = o.nonempty;
    streaming = o.streaming;
    uncommitted = o.uncommitted;
    owed = o.owed;
    limited = o.limited;
  }

  -- A begin message opens a transaction, after the checkpoints that make room for it.
  pub on_begin_txn-InTxn :
      (polls : List Poll) (wal_pos xid : ℕ) (c : Context Schema)
      → xid ≢ 0
      → IsAccounted c
      → Holds (λ r. (r.0 ≡ 0) × InTxn 0 0 r.1) (on_begin_txn polls wal_pos xid c)
  unfolding on_begin_txn
  on_begin_txn-InTxn polls wal_pos xid c x a =
      let streamed : (xid == 0) ≡ false = ground arith in
      rw streamed (
        Holds-bind HasRoom (λ r. (r.0 ≡ 0) × InTxn 0 0 r.1) (wait_for_room polls c) _
          (wait_for_room-HasRoom polls c a) (λ d room. (refl, open_xact-IsOpen xid d x room)))

  commit-IsAccounted :
      (wal_pos : ℕ) (c : Context Schema)
      → IsAccounted c
      → IsAccounted
          (set_xact c.xact_head (record (c.xact_list c.xact_head) { commit_lsn = wal_pos }) c)
  unfolding xact_list_length
  commit-IsAccounted wal_pos c a = record {
    valid = record { head_in = a.valid.head_in; tail_in = a.valid.tail_in };
    within = a.within;
    counted = λ s. ground (arith, a.counted s);
    bounded = λ s. ground (arith, a.bounded s);
  }

  pub on_commit_txn-IsAccounted :
      (wal_pos xid k n : ℕ) (c : Context Schema)
      → InTxn k n c
      → Holds (λ r. (r.0 ≡ 0) × IsAccounted r.1) (on_commit_txn wal_pos xid c)
  unfolding on_commit_txn
  on_commit_txn-IsAccounted wal_pos xid k n c o =
      elim (Bool-cases (xid == (c.xact_list c.xact_head).xid)) [
        | inr other ↦ rw other tt
        | inl same ↦ rw same (
          refl,
          maybe_checkpoint-IsAccounted _ (unfold xact_list_length in o.nonempty)
              (commit-IsAccounted wal_pos c o.account),
        )
      ]
