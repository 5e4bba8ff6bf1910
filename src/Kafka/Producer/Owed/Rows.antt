-- ===== src/Kafka/Producer/Owed/Rows.antt =====
-- The messages of another transaction do not touch what is owed.
use bottledwater_pg.Prelude.{
  ℕ, ◌≡◌, ◌≢◌, List, [], ◌∷◌, ◌++◌, Option, none, some, Result, ok, err, arith, Option-cases,
  Bool-cases, inl, inr, ◌==◌, get_or,
}
use bottledwater_pg.Prelude.Run.{Holds, Holds-bind, Holds-after}
use bottledwater_pg.Kafka.Json.{Libavro}
use bottledwater_pg.Kafka.TableMapper.{Topic, Mapper, Answers, new_table, lookup}
use bottledwater_pg.Kafka.Producer.{Envelope, Context, xact_list_length, backpressure}
use bottledwater_pg.Kafka.Producer.Naming.{topic_name, is_internal_table}
use bottledwater_pg.Kafka.Producer.Callbacks.{
  Attempt, count_event, produce, encode, send_encoded, send_kafka_msg, on_insert_row, on_update_row,
  on_delete_row, on_table_schema,
}
use bottledwater_pg.Kafka.Producer.Queue.{count-append}
use bottledwater_pg.Kafka.Producer.Owed.{IsOwed, backpressure-IsOwed}

module _ {Schema : Type 0} where
  queued-IsOwed :
      (h s : ℕ) (c : Context Schema) (e : Envelope)
      → s ≢ h
      → e.xact ≡ h
      → IsOwed h s c
      → IsOwed h s (record c { queue = c.queue ++ (e ∷ []) })
  unfolding xact_list_length
  queued-IsOwed h s c e other own o = record {
    slot = o.slot;
    valid = record { head_in = o.valid.head_in; tail_in = o.valid.tail_in };
    in_list = o.in_list;
    inside = o.inside;
    owed = ground (arith, o.owed, own, other, count-append s c.queue e);
    bounded = o.bounded;
  }

  count_event-IsOwed :
      (h s : ℕ) (c : Context Schema) → s ≢ h → IsOwed h s c → IsOwed h s (count_event c)
  unfolding count_event xact_list_length
  count_event-IsOwed h s c other o = record {
    slot = o.slot;
    valid = record { head_in = o.valid.head_in; tail_in = o.valid.tail_in };
    in_list = o.in_list;
    inside = o.inside;
    owed = ground (arith, o.owed, o.slot, other);
    bounded = ground (arith, o.bounded, o.slot, other);
  }

  mapper-IsOwed :
      (m : Mapper Schema) (h s : ℕ) (c : Context Schema)
      → IsOwed h s c
      → IsOwed h s (record c { mapper = m })
  unfolding xact_list_length
  mapper-IsOwed m h s c o = record {
    slot = o.slot;
    valid = record { head_in = o.valid.head_in; tail_in = o.valid.tail_in };
    in_list = o.in_list;
    inside = o.inside;
    owed = o.owed;
    bounded = o.bounded;
  }

  produce-IsOwed :
      (attempts : List Attempt) (h s : ℕ) (e : Envelope) (c : Context Schema)
      → s ≢ h
      → e.xact ≡ h
      → IsOwed h s c
      → Holds (λ r. IsOwed h s r.1) (produce attempts e c)
  unfolding produce
  produce-IsOwed [] h s e c other own o = tt
  produce-IsOwed (a ∷ rest) h s e c other own o = elim (Bool-cases (a.result == 0)) [
    | inl taken ↦
        let c' : Context Schema = record c { queue = c.queue ++ (e ∷ []) } in
        let o' : IsOwed h s c' = queued-IsOwed h s c e other own o in
        elim (Bool-cases a.queue_full) [
          | inl full ↦
              rw (taken, full)
                (Holds-bind (IsOwed h s) (λ r. IsOwed h s r.1) (backpressure a.poll c') _
                  (backpressure-IsOwed h s a.poll c' o') (λ d p. p))
          | inr free ↦ rw (taken, free) o'
        ]
    | inr failed ↦ elim (Bool-cases a.queue_full) [
      | inl full ↦
          rw (failed, full)
            (Holds-bind (IsOwed h s) (λ r. IsOwed h s r.1) (backpressure a.poll c) _
              (backpressure-IsOwed h s a.poll c o) (λ d p. produce-IsOwed rest h s e d other own p))
      | inr free ↦ rw (failed, free) o
    ]
  ]

module _ (avro : Libavro) where
  open avro use {Schema}

  send_encoded-IsOwed :
      (attempts : List Attempt) (wal_pos relid : ℕ) (topic : Option Topic) (h s : ℕ)
      (c : Context Schema) (r : Result (Option (List ℕ) × Option (List ℕ)))
      → s ≢ h
      → IsOwed h s c
      → Holds (λ r. IsOwed h s r.1) (send_encoded avro attempts wal_pos relid topic c r)
  unfolding send_encoded
  send_encoded-IsOwed attempts wal_pos relid topic h s c (err e) other o = o
  send_encoded-IsOwed attempts wal_pos relid topic h s c (ok (key, val)) other o =
      produce-IsOwed attempts h s _ c other o.slot o

  pub send_kafka_msg-IsOwed :
      (attempts : List Attempt) (wal_pos relid : ℕ) (key val : Option (List ℕ)) (h s : ℕ)
      (c : Context Schema)
      → s ≢ h
      → IsOwed h s c
      → Holds (λ r. IsOwed h s r.1) (send_kafka_msg avro attempts wal_pos relid key val c)
  unfolding send_kafka_msg
  send_kafka_msg-IsOwed attempts wal_pos relid key val h s c other o =
      let o₁ = count_event-IsOwed h s c other o in
      let c₁ = count_event c in
      elim (Option-cases (lookup c₁.mapper relid)) [
        | inl missing ↦ rw (missing, send_kafka_msg) o₁
        | inr (i, found) ↦
            rw (found, send_kafka_msg)
              (Holds-after (λ r. IsOwed h s r.1)
                (encode avro (get_or c₁.mapper.tables i (new_table relid)) key val c₁) _
                (λ x. send_encoded-IsOwed attempts wal_pos relid _ h s c₁ x other o₁))
      ]

  pub on_insert_row-IsOwed :
      (attempts : List Attempt) (wal_pos relid : ℕ) (key : Option (List ℕ)) (new : List ℕ) (h s : ℕ)
      (c : Context Schema)
      → s ≢ h
      → IsOwed h s c
      → Holds (λ r. IsOwed h s r.1) (on_insert_row avro attempts wal_pos relid key new c)
  unfolding on_insert_row
  on_insert_row-IsOwed attempts wal_pos relid key new h s c other o =
      send_kafka_msg-IsOwed attempts wal_pos relid key (some new) h s c other o

  pub on_update_row-IsOwed :
      (attempts : List Attempt) (wal_pos relid : ℕ) (key old : Option (List ℕ)) (new : List ℕ)
      (h s : ℕ) (c : Context Schema)
      → s ≢ h
      → IsOwed h s c
      → Holds (λ r. IsOwed h s r.1) (on_update_row avro attempts wal_pos relid key old new c)
  unfolding on_update_row
  on_update_row-IsOwed attempts wal_pos relid key old new h s c other o =
      send_kafka_msg-IsOwed attempts wal_pos relid key (some new) h s c other o

  pub on_delete_row-IsOwed :
      (attempts : List Attempt) (wal_pos relid : ℕ) (key old : Option (List ℕ)) (h s : ℕ)
      (c : Context Schema)
      → s ≢ h
      → IsOwed h s c
      → Holds (λ r. IsOwed h s r.1) (on_delete_row avro attempts wal_pos relid key old c)
  unfolding on_delete_row
  on_delete_row-IsOwed attempts wal_pos relid none old h s c other o = o
  on_delete_row-IsOwed attempts wal_pos relid (some key) old h s c other o =
      send_kafka_msg-IsOwed attempts wal_pos relid (some key) none h s c other o

  pub on_table_schema-IsOwed :
      (answers : Answers) (wal_pos relid : ℕ) (name namespace row_json : List ℕ)
      (key_json : Option (List ℕ)) (h s : ℕ) (c : Context Schema)
      → IsOwed h s c
      → Holds
          (λ r. IsOwed h s r.1)
          (on_table_schema avro answers wal_pos relid name namespace key_json row_json c)
  unfolding on_table_schema
  on_table_schema-IsOwed answers wal_pos relid name namespace row_json key_json h s c o =
      elim (Bool-cases (is_internal_table (topic_name name namespace))) [
        | inl internal ↦ rw internal o
        | inr own ↦ rw own (mapper-IsOwed _ h s c o)
      ]
