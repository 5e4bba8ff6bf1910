-- ===== src/Kafka/Program/Frames.antt =====
-- The producer's states under whole frames: what `process_frame` of client/protocol_client.c leaves
-- of the context, through the callbacks of kafka/bottledwater.c.
use bottledwater_pg.Prelude.{
  ℕ, ◌+◌, ◌%◌, ◌<◌, ◌≡◌, ◌≢◌, Option, none, some, List, [], ◌∷◌, ◌==◌, Bool-cases, Result-cases,
  inl, inr, arith,
}
use bottledwater_pg.Prelude.Run.{Holds, Holds-bind}
use bottledwater_pg.Client.Frames.{Message, Avro, oid_mod, schema_list_replace}
use bottledwater_pg.Client.Process.{
  without_null, option_map, report_schema, process_key_schema, process_frame_table_schema,
  process_frame_begin_txn, process_frame_commit_txn, process_frame_insert, process_frame_update,
  process_frame_delete, process_message, process_frame,
}
use bottledwater_pg.Kafka.Json.{Libavro}
use bottledwater_pg.Kafka.Producer.{Context, int_mod}
use bottledwater_pg.Kafka.Producer.Callbacks.{
  on_begin_txn, on_commit_txn, on_table_schema, on_insert_row, on_update_row, on_delete_row,
}
use bottledwater_pg.Kafka.Producer.Reach.{Phase, idle, receiving, Reach}
use bottledwater_pg.Kafka.Program.{Surroundings, init_client}
use bottledwater_pg.Kafka.Program.Leaves.{
  Reader, Leaves, callback-Leaves, handle-Leaves, with_entry-Leaves, then_read_key-Leaves,
  then_read_old-Leaves, then_read-Leaves, replaced-context,
}

-- The order in which Postgres sends messages: a transaction with a number other than 0 begins, its
-- schemas and fewer than 2 ^ 32 rows follow, and it is committed.
pub data Next : Phase → Message → Phase → Type 0 where
  begins : (xid : ℕ) → xid % oid_mod ≢ 0 → Next idle (Message.begin_txn xid) (receiving 0)
  commits : (n xid lsn : ℕ) → Next (receiving n) (Message.commit_txn xid lsn) idle
  describes :
      (n relid : ℕ) (key_json : Option (List ℕ)) (row_json : List ℕ)
      → Next (receiving n) (Message.table_schema relid key_json row_json) (receiving n)
  inserts :
      (n relid : ℕ) (key : Option (List ℕ)) (new : List ℕ)
      → n + 1 < int_mod
      → Next (receiving n) (Message.insert relid key new) (receiving (n + 1))
  updates :
      (n relid : ℕ) (key old : Option (List ℕ)) (new : List ℕ)
      → n + 1 < int_mod
      → Next (receiving n) (Message.update relid key old new) (receiving (n + 1))
  deletes :
      (n relid : ℕ) (key old : Option (List ℕ))
      → n + 1 < int_mod
      → Next (receiving n) (Message.delete relid key old) (receiving (n + 1))

pub data Ordered : Phase → List Message → Phase → Type 0 where
  no_message : {p : Phase} → Ordered p [] p
  and_then :
      {p q s : Phase} {m : Message} {ms : List Message}
      → Next p m q
      → Ordered q ms s
      → Ordered p (m ∷ ms) s

module _ (libavro : Libavro) (avro : Avro) (around : Surroundings libavro) where
  open libavro use {Schema}

  report_schema-Leaves :
      (wal_pos relid n : ℕ) (key_json : Option (List ℕ)) (row_json : List ℕ)
      (r : Reader libavro avro around)
      → Reach libavro (receiving n) r.cb_context
      → Holds
          (Leaves libavro avro around (Reach libavro (receiving n)))
          (report_schema avro (init_client libavro around) wal_pos relid key_json row_json r)
  unfolding report_schema init_client
  report_schema-Leaves wal_pos relid n key_json row_json r h =
      let json = without_null row_json in
      callback-Leaves libavro avro around _ r
        (λ c.
          on_table_schema libavro (around.answers c) wal_pos (relid % oid_mod)
            (around.schema_name json) (around.schema_namespace json)
            (option_map without_null key_json) json c)
        (λ error c e. Reach.described _ wal_pos (relid % oid_mod) error _ _ json _ e h)

  process_key_schema-Leaves :
      (wal_pos relid n : ℕ) (key_json : Option (List ℕ)) (row_json : List ℕ) (row : avro.Schema)
      (r : Reader libavro avro around)
      → Reach libavro (receiving n) r.cb_context
      → Holds (Leaves libavro avro around (Reach libavro (receiving n))) (
          process_key_schema avro
            (init_client libavro around)
            wal_pos
            relid
            key_json
            row_json
            row
            r)
  unfolding process_key_schema
  process_key_schema-Leaves wal_pos relid n none row_json row r h =
      report_schema-Leaves wal_pos relid n none row_json
        (schema_list_replace relid (λ old. none) row r)
        (rw (replaced-context libavro avro around relid) h)
  process_key_schema-Leaves wal_pos relid n (some key_json) row_json row r h =
      elim (Result-cases (avro.schema_from_json (without_null key_json))) [
        | inl (key, read) ↦
            rw (read, process_key_schema)
              (report_schema-Leaves wal_pos relid n (some key_json) row_json _
                (rw (replaced-context libavro avro around relid) h))
        | inr (e, broken) ↦
            rw (broken, process_key_schema)
              (handle-Leaves libavro avro around _ e _
                (rw (replaced-context libavro avro around relid) h))
      ]

  message-Reach :
      (wal_pos : ℕ) {p q : Phase} {m : Message} (r : Reader libavro avro around)
      → Next p m q
      → Reach libavro p r.cb_context
      → Holds
          (Leaves libavro avro around (Reach libavro q))
          (process_message avro (init_client libavro around) wal_pos m r)
  unfolding process_message process_frame_begin_txn process_frame_commit_txn
      process_frame_table_schema process_frame_insert process_frame_update process_frame_delete
      init_client
  message-Reach wal_pos r (begins xid streamed) h =
      callback-Leaves libavro avro around _ r
        (λ c. on_begin_txn (around.polls c) wal_pos (xid % oid_mod) c)
        (λ error c e.
          Reach.begun (around.polls r.cb_context) wal_pos (xid % oid_mod) error streamed e h)
  message-Reach wal_pos r (commits n xid lsn) h =
      callback-Leaves libavro avro around _ r (on_commit_txn wal_pos (xid % oid_mod))
        (λ error c e. Reach.committed wal_pos (xid % oid_mod) error e h)
  message-Reach wal_pos r (describes n relid key_json row_json) h =
      elim (Result-cases (avro.schema_from_json (without_null row_json))) [
        | inl (row, read) ↦
            rw read (process_key_schema-Leaves wal_pos relid n key_json row_json row r h)
        | inr (e, broken) ↦ rw broken (handle-Leaves libavro avro around _ e r h)
      ]
  message-Reach wal_pos r (inserts n relid key new fits) h =
      let less = λ (c : Context Schema) (g : Reach libavro (receiving n) c). Reach.skipped fits g in
      with_entry-Leaves libavro avro around _ _ less relid _ r
        (λ e. then_read_key-Leaves libavro avro around _ _ less e.key_schema key _ (
          then_read-Leaves libavro avro around _ _ less e.row_schema new _ (λ r' h'.
            callback-Leaves libavro avro around _ r'
              (λ c. on_insert_row libavro (around.attempts c) wal_pos (relid % oid_mod) key new c)
              (λ error c e'. Reach.inserted _ wal_pos (relid % oid_mod) error key new fits e' h'))))
        h
  message-Reach wal_pos r (updates n relid key old new fits) h =
      let less = λ (c : Context Schema) (g : Reach libavro (receiving n) c). Reach.skipped fits g in
      with_entry-Leaves libavro avro around _ _ less relid _ r
        (λ e. then_read_key-Leaves libavro avro around _ _ less e.key_schema key _ (
          then_read_old-Leaves libavro avro around _ _ less e.row_schema old _ (
            then_read-Leaves libavro avro around _ _ less e.row_schema new _ (λ r' h'.
              callback-Leaves libavro avro around _ r'
                (λ c.
                  on_update_row libavro (around.attempts c) wal_pos (relid % oid_mod) key old new c)
                (λ error c e'.
                  Reach.updated _ wal_pos (relid % oid_mod) error key old new fits e' h')))))
        h
  message-Reach wal_pos r (deletes n relid key old fits) h =
      let less = λ (c : Context Schema) (g : Reach libavro (receiving n) c). Reach.skipped fits g in
      with_entry-Leaves libavro avro around _ _ less relid _ r
        (λ e. then_read_key-Leaves libavro avro around _ _ less e.key_schema key _ (
          then_read_old-Leaves libavro avro around _ _ less e.row_schema old _ (λ r' h'.
            callback-Leaves libavro avro around _ r'
              (λ c. on_delete_row libavro (around.attempts c) wal_pos (relid % oid_mod) key old c)
              (λ error c e'. Reach.removed _ wal_pos (relid % oid_mod) error key old fits e' h'))))
        h

  -- When Postgres sends the messages of a frame in the order of transactions, and the frame is read
  -- without an error that ends the program, the context moves from one state of the producer to
  -- another.
  pub process_frame-Reach :
      (wal_pos : ℕ) {p q : Phase} {ms : List Message} (r : Reader libavro avro around)
      → Ordered p ms q
      → Reach libavro p r.cb_context
      → Holds
          (λ x. x.0 ≡ 0 → Reach libavro q x.1.cb_context)
          (process_frame avro (init_client libavro around) wal_pos ms r)
  unfolding process_frame
  process_frame-Reach wal_pos r no_message h = λ fine. h
  process_frame-Reach wal_pos {q = q} r (and_then {q = s} {m = m} {ms = ms} first later) h =
      Holds-bind (Leaves libavro avro around (Reach libavro s))
        (λ x. x.0 ≡ 0 → Reach libavro q x.1.cb_context)
        (process_message avro (init_client libavro around) wal_pos m r) _
        (message-Reach wal_pos r first h)
        (λ (e, r') h'. elim (Bool-cases (e == 0)) [
          | inl fine ↦ rw fine (process_frame-Reach wal_pos r' later h')
          | inr failed ↦ rw failed (λ fine. absurd (ground arith))
        ])
