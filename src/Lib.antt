-- ===== src/Lib.antt =====
-- Bottled Water: a change stream from Postgres to Kafka, in three programs that share a protocol.
--
-- The output plugin (ext/) runs in Postgres and turns transactions into frames of messages, with the
-- Avro schemas of tables when they are new or changed. The client library (client/) receives the
-- frames over a replication connection, keeps the positions that it reports back, and calls the
-- program's callbacks. The producer (kafka/) is that program: it sends rows to Kafka, and moves the
-- flushed position only past transactions that Kafka has taken. The test client (client/bwtest.c)
-- prints them.
--
-- Which file models which part:
--   Client/Bytes, Client/Stream, Client/Replication   client/replication.c: the bytes of integers,
--     `replication_stream`, and `replication_stream_poll` with all that it calls. The program with
--     its frame reader is the record `Reader`.
--   Client/Frames, Client/Process   client/protocol_client.c: the list of schemas, errors, and
--     `process_frame` with the handler of each message (`process_frame_insert` ...). The type
--     `Message` has the records of ext/protocol.c. The callbacks are the record `Callbacks`.
--   Client/Postgres   what libpq and the server do (`Server`).
--   Client/Connect   client/connect.c, with the commands of client/replication.c for slots and
--     streams; Client/Connect/Snapshot `db_client_start` and `db_client_poll`. Modes, Resumes, Keeps
--     and Polls carry the proofs.
--   Kafka/Producer   kafka/bottledwater.c: the circular buffer `xact_list` and `maybe_checkpoint`;
--     Kafka/Producer/Callbacks the callbacks (`on_begin_txn`, `on_commit_txn`, `on_table_schema`,
--     the row callbacks, `on_keepalive`) and `send_kafka_msg`; Kafka/Producer/Naming the names of
--     topics; Kafka/Producer/Reach the states that are reached. Window, Queue, Account, Open,
--     Session, Sending, Owed (with Rows) and Later carry the proofs.
--   Client/Program   `parse_frame`, and the frame reader as an instance of `Reader`; Kafka/Program the
--     callbacks of the producer in it (`init_client`).
--   Kafka/TableMapper   kafka/table_mapper.c, with `table_mapper_update` in Kafka/TableMapper/Update.
--   Kafka/Options   kafka/bottledwater.c: `parse_config_option`; Kafka/Options/Parse `parse_options` and
--     what its options call.
--   Kafka/Main   kafka/bottledwater.c: `make_pidfile`, `start_producer`, and `main` with its loop.
--   Client/Bwtest   client/bwtest.c: the callbacks; Client/Bwtest/Main its options and `main`.
--   Kafka/Registry, Kafka/Json   kafka/registry.c and kafka/json.c.
--   Ext/Writing, Ext/Policy   ext/io_util.c and ext/error_policy.c.
--   Ext/Naming, Ext/Tables   ext/oid2avro.c: `make_avro_safe`, `table_key_index`, the columns of keys
--     and the schemas of rows.
--   Ext/Datum, Ext/Rows   ext/oid2avro.c: `schema_for_oid`, `update_avro_with_datum`, and the rows and
--     keys that are made of them.
--   Ext/SchemaCache   ext/schema_cache.c; Once and Current carry the proofs.
--   Ext/Protocol   ext/protocol.c: the schema of frames; Ext/Protocol/Wire the fields of messages as
--     ext/protocol_server.c sets them and client/protocol_client.c gets them.
--   Ext/Frames   ext/protocol_server.c; Ext/Frames/Delivery joins it to the frame reader.
--   Ext/Decoder   ext/logdecoder.c.
--   Ext/Export   ext/snapshot.c: `bottledwater_export`; Ext/Export/Texts the functions that give one
--     schema as a text. Ext/Backend has the ways that a call in Postgres ends.
--   Prelude   shared names; Prelude/Run programs that may call `exit` and that wait for events,
--     Prelude/Codes error numbers and texts.
--
-- State is passed explicitly: an operation takes the record of the C struct and returns it, with an
-- error number where the code returns one. A C `int` counter and an `Oid` are 32-bit patterns, an
-- `int64` is a 64-bit pattern. The pointer to a transaction is its index, the pointer to a table its
-- place. `Context` has Kafka's queue as a field: the messages that were taken and not reported on.
-- What comes from outside (delivery reports, the clock, replies of the registry, results of libpq,
-- libavro and librdkafka) is an argument or a record of functions.
--
-- Bounds: `maybe_checkpoint` runs its loop for one round per slot of the buffer, and a round takes a
-- transaction out, so this is enough (`Kafka.Producer.Window`). `try_writing` has four sizes. The
-- loops that wait for Kafka run on the list of what their polls meet, and end as `waiting` if that
-- list does. A call of `bottledwater_export` runs on fuel: one round for each table and each row is
-- enough (`Ext.Export.Snapshot`).
--
-- Not modelled: kafka/logger.c, which only prints, and the signal handlers, whose signals are fields
-- of a round of the main loop. The main loops run on the list of what their rounds meet.
-- Memory is taken to suffice, and reference counts are left out. The states of
-- Kafka/Producer/Reach are those of streaming: the transaction of a snapshot has number 0, which
-- `maybe_checkpoint` treats in its own way. `topic_name` takes a namespace of fewer than 128 bytes that
-- does not end inside the prefix: what `sscanf` and `strncat` do with others is left out.
pub mod Prelude
pub mod Client
pub mod Kafka
pub mod Ext
