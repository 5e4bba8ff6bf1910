-- ===== src/Kafka/Producer/Callbacks.antt =====
-- The callbacks of the frame reader, and the sending of messages.
use bottledwater_pg.Prelude.{
  ℕ, ◌+◌, ◌%◌, Bool, not, ◌&&◌, Option, none, some, List, [], ◌∷◌, ◌++◌, ◌==◌, if◌then◌else◌,
  update as update_at, get_or, ebusy, Result, ok, err,
}
use bottledwater_pg.Prelude.Run.{Run, running, waiting, ◌>>=◌}
use bottledwater_pg.Kafka.Registry.{encode_msg}
use bottledwater_pg.Kafka.Json.{Libavro, json_encode_msg}
use bottledwater_pg.Kafka.TableMapper.{Topic, Table, Answers, new_table, lookup}
use bottledwater_pg.Kafka.TableMapper.Update.{update}
use bottledwater_pg.Kafka.Producer.{
  OutputFormat, Envelope, Context, Poll, xact_list_len, increment, xact_list_full, xact_list_empty,
  maybe_checkpoint, fatal_error, set_xact, backpressure, handle_error,
}
use bottledwater_pg.Kafka.Producer.Naming.{topic_name, is_internal_table}

module _ {Schema : Type 0} where
  -- `while (xact_list_full(context)) backpressure(context);`
  unfoldable pub wait_for_room : List Poll → Context Schema → Run (Context Schema)
  wait_for_room [] c = if xact_list_full c then waiting else running c
  wait_for_room (p ∷ ps) c =
      if xact_list_full c then (do c' ← backpressure p c; wait_for_room ps c') else running c

  unfoldable pub open_xact : ℕ → Context Schema → Context Schema
  open_xact xid c =
      let head = (c.xact_head + 1) % xact_list_len in
      record c {
        xact_head = head;
        xact_list =
            update_at c.xact_list head
              (record { xid = xid; recvd_events = 0; pending_events = 0; commit_lsn = 0 });
      }

  -- A callback returns its error number and the state.
  unfoldable pub on_begin_txn : List Poll → ℕ → ℕ → Context Schema → Run (ℕ × Context Schema)
  unfolding open_xact
  on_begin_txn polls wal_pos xid c =
      if (xid == 0) && not ((c.xact_tail == 0) && xact_list_empty c)
      then fatal_error c
      else do c' ← wait_for_room polls c; running (0, open_xact xid c')

  unfoldable pub on_commit_txn : ℕ → ℕ → Context Schema → Run (ℕ × Context Schema)
  on_commit_txn wal_pos xid c =
      let x = c.xact_list c.xact_head in
      if not (xid == x.xid)
      then fatal_error c
      else running
          (0, maybe_checkpoint (set_xact c.xact_head (record x { commit_lsn = wal_pos }) c))

  unfoldable pub on_keepalive : ℕ → Context Schema → ℕ
  on_keepalive wal_pos c = if xact_list_empty c then 0 else ebusy

  unfoldable pub on_client_error : ℕ → Context Schema → Run (ℕ × Context Schema)
  on_client_error error c = do e ← handle_error c; running (e, c)

  -- The first lines of `send_kafka_msg`.
  unfoldable pub count_event : Context Schema → Context Schema
  count_event c =
      let x = c.xact_list c.xact_head in
      set_xact c.xact_head
        (record x {
          recvd_events = increment x.recvd_events;
          pending_events = increment x.pending_events;
        })
        c

-- One call of `rd_kafka_produce`: its result, whether `errno` then says that the queue is full, and
-- what the `backpressure` that this calls for meets.
pub record Attempt : Type 0 where
  pub result : ℕ
  pub queue_full : Bool
  pub poll : Poll

module _ {Schema : Type 0} where
  -- The loop `while (!enqueued)`.
  unfoldable pub produce : List Attempt → Envelope → Context Schema → Run (ℕ × Context Schema)
  produce [] e c = waiting
  produce (a ∷ rest) e c =
      let taken : Context Schema =
        if a.result == 0 then record c { queue = c.queue ++ (e ∷ []) } else c in
      if a.queue_full
      then (do
        c' ← backpressure a.poll taken
        let again = produce rest e c'
        if a.result == 0 then running (0, c') else again)
      else running (a.result, taken)

module _ (avro : Libavro) where
  open avro use {Schema}

  -- The key and the value to publish.
  unfoldable pub encode :
      Table Schema
      → Option (List ℕ)
      → Option (List ℕ)
      → Context Schema
      → Run (Result (Option (List ℕ) × Option (List ℕ)))
  unfolding json_encode_msg encode_msg
  encode t key_bin val_bin c = elim c.output_format [
    | OutputFormat.json ↦ running (json_encode_msg avro t.key_schema t.row_schema key_bin val_bin)
    | OutputFormat.avro ↦
        let m = encode_msg t.key_schema_id t.row_schema_id key_bin val_bin in
        running (ok (m.key, m.row))
    | OutputFormat.undefined ↦ fatal_error c
  ]

  unfoldable pub send_encoded :
      List Attempt
      → ℕ
      → ℕ
      → Option Topic
      → Context Schema
      → Result (Option (List ℕ) × Option (List ℕ))
      → Run (ℕ × Context Schema)
  unfolding produce
  send_encoded attempts wal_pos relid topic c (err e) = running (e, c)
  send_encoded attempts wal_pos relid topic c (ok (key, val)) =
      produce attempts
        (record {
          xact = c.xact_head;
          wal_pos = wal_pos;
          relid = relid;
          topic = topic;
          key = key;
          val = val;
        })
        c

  unfoldable pub send_kafka_msg :
      List Attempt
      → ℕ
      → ℕ
      → Option (List ℕ)
      → Option (List ℕ)
      → Context Schema
      → Run (ℕ × Context Schema)
  unfolding count_event encode send_encoded
  send_kafka_msg attempts wal_pos relid key_bin val_bin c =
      let c₁ = count_event c in
      elim (lookup c₁.mapper relid) [
        | none ↦ running (1, c₁)
        | some i ↦
            let t = get_or c₁.mapper.tables i (new_table relid) in
            (do
              encoded ← encode t key_bin val_bin c₁
              send_encoded attempts wal_pos relid t.topic c₁ encoded)
      ]

  unfoldable pub on_insert_row :
      List Attempt → ℕ → ℕ → Option (List ℕ) → List ℕ → Context Schema → Run (ℕ × Context Schema)
  on_insert_row attempts wal_pos relid key_bin new_bin =
      send_kafka_msg attempts wal_pos relid key_bin (some new_bin)

  unfoldable pub on_update_row :
      List Attempt
      → ℕ
      → ℕ
      → Option (List ℕ)
      → Option (List ℕ)
      → List ℕ
      → Context Schema
      → Run (ℕ × Context Schema)
  on_update_row attempts wal_pos relid key_bin old_bin new_bin =
      send_kafka_msg attempts wal_pos relid key_bin (some new_bin)

  -- A deletion publishes no value; without a key nothing can be published.
  unfoldable pub on_delete_row :
      List Attempt
      → ℕ
      → ℕ
      → Option (List ℕ)
      → Option (List ℕ)
      → Context Schema
      → Run (ℕ × Context Schema)
  on_delete_row attempts wal_pos relid none old_bin c = running (0, c)
  on_delete_row attempts wal_pos relid (some key_bin) old_bin c =
      send_kafka_msg attempts wal_pos relid (some key_bin) none c

  abbrev pub error_of : Option ℕ → ℕ
  error_of none = 1
  error_of (some i) = 0

  -- The name and the namespace are those of the row schema, as libavro gives them.
  unfoldable pub on_table_schema :
      Answers
      → ℕ
      → ℕ
      → List ℕ
      → List ℕ
      → Option (List ℕ)
      → List ℕ
      → Context Schema
      → Run (ℕ × Context Schema)
  on_table_schema answers wal_pos relid table_name namespace key_json row_json c =
      let name = topic_name table_name namespace in
      if is_internal_table name
      then running (0, c)
      else let (found, m) =
          update (avro.schema_from_json) answers relid
            (record { name = name; key_json = key_json; row_json = some row_json }) c.mapper in
        running (error_of found, record c { mapper = m })
