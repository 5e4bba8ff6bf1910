-- ===== src/Kafka/Producer/Sending.antt =====
-- Sending one message of the open transaction.
use bottledwater_pg.Prelude.{
  some, none, ℕ, suc, ◌+◌, ◌<◌, ◌≡◌, List, [], ◌∷◌, ◌++◌, Option, Result, ok, err, arith,
  Option-cases, Bool-cases, inl, inr, ◌==◌, get_or,
}
use bottledwater_pg.Prelude.Run.{Holds, Holds-bind, Holds-after}
use bottledwater_pg.Kafka.Json.{Libavro}
use bottledwater_pg.Kafka.TableMapper.{Topic, new_table, lookup}
use bottledwater_pg.Kafka.Producer.{Envelope, Context, int_mod, xact_list_length, backpressure}
use bottledwater_pg.Kafka.Producer.Callbacks.{
  Attempt, count_event, produce, encode, send_encoded, send_kafka_msg, on_insert_row, on_update_row,
  on_delete_row,
}
use bottledwater_pg.Kafka.Producer.Queue.{count-append}
use bottledwater_pg.Kafka.Producer.Account.{
  count_event-IsAccounted, length-count_event, queued-IsAccounted,
}
use bottledwater_pg.Kafka.Producer.Open.{IsOpen}
use bottledwater_pg.Kafka.Producer.Session.{backpressure-IsOpen, InTxn}

module _ {Schema : Type 0} where
  IsOpen-less : (h k n : ℕ) (c : Context Schema) → IsOpen h (suc k) n c → IsOpen h k n c
  IsOpen-less h k n c o = record {
    slot = o.slot;
    account = o.account;
    nonempty = o.nonempty;
    streaming = o.streaming;
    uncommitted = o.uncommitted;
    owed = omega (arith, o.owed);
    limited = o.limited;
  }

  pub IsOpen-more : (h n : ℕ) (c : Context Schema) → IsOpen h 0 n c → IsOpen h 0 (n + 1) c
  IsOpen-more h n c o = record {
    slot = o.slot;
    account = o.account;
    nonempty = o.nonempty;
    streaming = o.streaming;
    uncommitted = o.uncommitted;
    owed = o.owed;
    limited = omega (arith, o.limited);
  }

  queued-IsOpen :
      (h k n : ℕ) (c : Context Schema) (e : Envelope)
      → e.xact ≡ h
      → IsOpen h (suc k) n c
      → IsOpen h k n (record c { queue = c.queue ++ (e ∷ []) })
  unfolding xact_list_length
  queued-IsOpen h k n c e own o = record {
    slot = o.slot;
    account =
        queued-IsAccounted c e o.nonempty (omega (arith, o.slot)) (omega (arith, o.owed)) o.account;
    nonempty = o.nonempty;
    streaming = o.streaming;
    uncommitted = o.uncommitted;
    owed = ground (arith, o.owed, o.slot, count-append c.xact_head c.queue e);
    limited = o.limited;
  }

  -- Whatever Kafka answers, the open transaction counts what Kafka holds.
  produce-IsOpen :
      (attempts : List Attempt) (h k n : ℕ) (e : Envelope) (c : Context Schema)
      → e.xact ≡ h
      → IsOpen h (suc k) n c
      → Holds (λ r. IsOpen h k n r.1) (produce attempts e c)
  unfolding produce
  produce-IsOpen [] h k n e c own o = tt
  produce-IsOpen (a ∷ rest) h k n e c own o = elim (Bool-cases (a.result == 0)) [
    | inl taken ↦
        let c' : Context Schema = record c { queue = c.queue ++ (e ∷ []) } in
        let o' : IsOpen h k n c' = queued-IsOpen h k n c e own o in
        elim (Bool-cases a.queue_full) [
          | inl full ↦
              rw (taken, full)
                (Holds-bind (IsOpen h k n) (λ r. IsOpen h k n r.1) (backpressure a.poll c') _
                  (backpressure-IsOpen h k n a.poll c' o') (λ d p. p))
          | inr free ↦ rw (taken, free) o'
        ]
    | inr failed ↦ elim (Bool-cases a.queue_full) [
      | inl full ↦
          rw (failed, full)
            (Holds-bind (IsOpen h (suc k) n) (λ r. IsOpen h k n r.1) (backpressure a.poll c) _
              (backpressure-IsOpen h (suc k) n a.poll c o)
              (λ d p. produce-IsOpen rest h k n e d own p))
      | inr free ↦ rw (failed, free) (IsOpen-less h k n c o)
    ]
  ]

  pub count_event-IsOpen :
      (h n : ℕ) (c : Context Schema)
      → n + 1 < int_mod
      → IsOpen h 0 n c
      → IsOpen h 1 (n + 1) (count_event c)
  count_event-IsOpen h n c fits o = record {
    slot = unfold count_event in o.slot;
    account = count_event-IsAccounted c (omega (arith, o.limited)) o.account;
    nonempty = rw (length-count_event c) o.nonempty;
    streaming = unfold count_event in ground (arith, o.streaming);
    uncommitted = unfold count_event in ground (arith, o.uncommitted);
    owed = unfold count_event in ground (arith, o.owed);
    limited = unfold count_event in ground (arith, o.limited);
  }

module _ (avro : Libavro) where
  open avro use {Schema}

  send_encoded-IsOpen :
      (attempts : List Attempt) (wal_pos relid : ℕ) (topic : Option Topic) (h n : ℕ)
      (c : Context Schema) (r : Result (Option (List ℕ) × Option (List ℕ)))
      → IsOpen h 1 n c
      → Holds (λ r. IsOpen h 0 n r.1) (send_encoded avro attempts wal_pos relid topic c r)
  unfolding send_encoded
  send_encoded-IsOpen attempts wal_pos relid topic h n c (err e) o = IsOpen-less h 0 n c o
  send_encoded-IsOpen attempts wal_pos relid topic h n c (ok (key, val)) o =
      produce-IsOpen attempts h 0 n _ c o.slot o

  send_kafka_msg-InTxn :
      (attempts : List Attempt) (wal_pos relid : ℕ) (key val : Option (List ℕ)) (n : ℕ)
      (c : Context Schema)
      → n + 1 < int_mod
      → InTxn 0 n c
      → Holds
          (λ r. IsOpen c.xact_head 0 (n + 1) r.1)
          (send_kafka_msg avro attempts wal_pos relid key val c)
  unfolding send_kafka_msg
  send_kafka_msg-InTxn attempts wal_pos relid key val n c fits o =
      let o₁ = count_event-IsOpen c.xact_head n c fits o in
      let c₁ = count_event c in
      elim (Option-cases (lookup c₁.mapper relid)) [
        | inl missing ↦ rw (missing, send_kafka_msg) (IsOpen-less c.xact_head 0 (n + 1) c₁ o₁)
        | inr (i, found) ↦
            rw (found, send_kafka_msg)
              (Holds-after (λ r. IsOpen c.xact_head 0 (n + 1) r.1)
                (encode avro (get_or c₁.mapper.tables i (new_table relid)) key val c₁) _
                (λ x. send_encoded-IsOpen attempts wal_pos relid _ c.xact_head (n + 1) c₁ x o₁))
      ]

  pub on_insert_row-InTxn :
      (attempts : List Attempt) (wal_pos relid : ℕ) (key : Option (List ℕ)) (new : List ℕ) (n : ℕ)
      (c : Context Schema)
      → n + 1 < int_mod
      → InTxn 0 n c
      → Holds
          (λ r. IsOpen c.xact_head 0 (n + 1) r.1)
          (on_insert_row avro attempts wal_pos relid key new c)
  unfolding on_insert_row
  on_insert_row-InTxn attempts wal_pos relid key new n c fits o =
      send_kafka_msg-InTxn attempts wal_pos relid key (some new) n c fits o

  pub on_update_row-InTxn :
      (attempts : List Attempt) (wal_pos relid : ℕ) (key old : Option (List ℕ)) (new : List ℕ)
      (n : ℕ) (c : Context Schema)
      → n + 1 < int_mod
      → InTxn 0 n c
      → Holds
          (λ r. IsOpen c.xact_head 0 (n + 1) r.1)
          (on_update_row avro attempts wal_pos relid key old new c)
  unfolding on_update_row
  on_update_row-InTxn attempts wal_pos relid key old new n c fits o =
      send_kafka_msg-InTxn attempts wal_pos relid key (some new) n c fits o

  pub on_delete_row-InTxn :
      (attempts : List Attempt) (wal_pos relid : ℕ) (key old : Option (List ℕ)) (n : ℕ)
      (c : Context Schema)
      → n + 1 < int_mod
      → InTxn 0 n c
      → Holds
          (λ r. IsOpen c.xact_head 0 (n + 1) r.1)
          (on_delete_row avro attempts wal_pos relid key old c)
  unfolding on_delete_row
  on_delete_row-InTxn attempts wal_pos relid none old n c fits o = IsOpen-more c.xact_head n c o
  on_delete_row-InTxn attempts wal_pos relid (some key) old n c fits o =
      send_kafka_msg-InTxn attempts wal_pos relid (some key) none n c fits o
