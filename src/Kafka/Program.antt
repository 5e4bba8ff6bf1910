-- ===== src/Kafka/Program.antt =====
-- The producer as one program: the callbacks that kafka/bottledwater.c gives to the frame reader of
-- client/protocol_client.c, which client/replication.c drives.
pub mod Leaves
pub mod Frames
use bottledwater_pg.Prelude.{
  ℕ, ◌≤◌, ◌≡◌, ◌⊎◌, refl, some, List, [], length, drop, ◌==◌, Bool-cases, inl, inr, arith,
}
use bottledwater_pg.Client.Stream.{Outside}
use bottledwater_pg.Client.Bytes.{recvint64}
use bottledwater_pg.Client.Replication.{parse_keepalive_message, receive}
use bottledwater_pg.Client.Replication.Positions.{parse_keepalive_positions}
use bottledwater_pg.Client.Frames.{Avro, Callbacks, State}
use bottledwater_pg.Client.Process.{handle_keepalive}
use bottledwater_pg.Client.Program.{FrameDecoder, HoldsClient, stream_reader}
use bottledwater_pg.Kafka.Json.{Libavro}
use bottledwater_pg.Kafka.TableMapper.{Answers}
use bottledwater_pg.Kafka.Producer.{Context, Poll}
use bottledwater_pg.Kafka.Producer.Callbacks.{
  Attempt, on_begin_txn, on_commit_txn, on_table_schema, on_insert_row, on_update_row,
  on_delete_row, on_keepalive, on_client_error,
}
use bottledwater_pg.Kafka.Producer.Reach.{Phase, Reach, on_keepalive-queue}

module _ (libavro : Libavro) where
  open libavro use {Schema}

  -- What the callbacks find outside the program in a state: what waiting for Kafka meets, the results
  -- of sending, the answers of the registry; and the name and namespace of a row schema's text.
  pub record Surroundings : Type 0 where
    pub polls : Context Schema → List Poll
    pub attempts : Context Schema → List Attempt
    pub answers : Context Schema → Answers
    pub schema_name : List ℕ → List ℕ
    pub schema_namespace : List ℕ → List ℕ

  -- `init_client`
  unfoldable pub init_client : Surroundings → Callbacks (Context Schema)
  init_client around = record {
    on_begin_txn = some (λ wal_pos xid c. on_begin_txn (around.polls c) wal_pos xid c);
    on_commit_txn = some (λ wal_pos xid c. on_commit_txn wal_pos xid c);
    on_table_schema = some (λ wal_pos relid key_json row_json c.
        on_table_schema libavro (around.answers c) wal_pos relid (around.schema_name row_json)
          (around.schema_namespace row_json) key_json row_json c);
    on_insert_row = some (λ wal_pos relid key new c.
        on_insert_row libavro (around.attempts c) wal_pos relid key new c);
    on_update_row = some (λ wal_pos relid key old new c.
        on_update_row libavro (around.attempts c) wal_pos relid key old new c);
    on_delete_row = some (λ wal_pos relid key old c.
        on_delete_row libavro (around.attempts c) wal_pos relid key old c);
    on_keepalive = some (λ wal_pos c. on_keepalive wal_pos c);
    on_error = some (λ e c. on_client_error e c);
  }

  -- The stream is part of the client that the producer's context points to.
  abbrev pub context_client : HoldsClient (Context Schema)
  context_client = record {
    stream_of = λ c. c.stream;
    set_stream = λ s c. record c { stream = s };
    stream_of_set = λ s c. refl;
    taking_snapshot_of = λ c. c.taking_snapshot;
    set_taking_snapshot = λ b c. record c { taking_snapshot = b };
    taking_snapshot_of_set = λ b c. refl;
  }

  -- From the wire to Kafka: in every state that is reached by streaming transactions with numbers
  -- other than 0 and fewer than 2 ^ 32 row messages each, a keepalive message leaves the flushed position as it is, unless Kafka has reported on every message that it was given.
  pub keepalive_message-queue :
      (avro : Avro) (around : Surroundings) (decoder : FrameDecoder) (o : Outside) (buf : List ℕ)
      (p : Phase) (r : State avro (init_client around))
      → 18 ≤ length buf
      → Reach libavro p r.cb_context
      → let program = stream_reader avro (init_client around) decoder context_client in
        let r' = (parse_keepalive_message program o buf r).1 in
        (r'.cb_context.stream.fsync_lsn ≡ r.cb_context.stream.fsync_lsn) ⊎ (r.cb_context.queue ≡ [])
  unfolding init_client handle_keepalive receive
  keepalive_message-queue avro around decoder o buf p r long reached =
      let program = stream_reader avro (init_client around) decoder context_client in
      let wal_pos = recvint64 (drop 1 buf) in
      let received = receive program wal_pos r in
      let moved = (parse_keepalive_positions program o buf r long).1 in
      elim (Bool-cases (on_keepalive wal_pos received.cb_context == 0)) [
        | inl drained ↦ inr (
            on_keepalive-queue libavro p received.cb_context wal_pos
              (Reach.streamed received.cb_context.stream reached) (ground arith))
        | inr pending ↦ inl (rw pending at moved)
      ]
