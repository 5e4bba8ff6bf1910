-- ===== src/Kafka/Main.antt =====
-- kafka/bottledwater.c: `main`, from the options to the loop over the events of Postgres and Kafka.
pub mod Starts
pub mod Polls
pub mod Rounds
pub mod Resumes
pub mod Tests
use bottledwater_pg.Prelude.{
  ℕ, ◌≡◌, Bool, true, false, not, ◌&&◌, ◌||◌, Option, none, some, List, [], ◌∷◌, codes, ◌==◌,
  if◌then◌else◌,
}
use bottledwater_pg.Prelude.Int.{ℤ, pos, negsuc}
use bottledwater_pg.Prelude.Run.{Run, running, exited, ◌>>=◌}
use bottledwater_pg.Client.Stream.{Stream, Outside}
use bottledwater_pg.Client.Replication.{Copy}
use bottledwater_pg.Client.Frames.{Avro, State, frame_reader_new}
use bottledwater_pg.Client.Postgres.{QueryResult, Server}
use bottledwater_pg.Client.Connect.{SnapshotReader, ClientContext}
use bottledwater_pg.Client.Connect.Snapshot.{
  Event, Select, db_client_start, db_client_poll, db_client_wait,
}
use bottledwater_pg.Client.Program.{FrameDecoder, snapshot_reader}
use bottledwater_pg.Kafka.Json.{Libavro}
use bottledwater_pg.Kafka.Registry.{Registry}
use bottledwater_pg.Kafka.TableMapper.{Mapper}
use bottledwater_pg.Kafka.Producer.{
  Context, Delivery, OutputFormat, ErrorPolicy, exit_nicely, fatal_error, poll,
}
use bottledwater_pg.Kafka.Producer.Reach.{init_producer}
use bottledwater_pg.Kafka.Options.Parse.{
  Settings, CommandOption, Configurable, exit_with, parse_options, init_settings,
}
use bottledwater_pg.Kafka.Program.{Surroundings, init_client, context_client}

-- What `make_pidfile` meets: whether the file could be created, locked, unlocked and made readable.
pub record Pidfile : Type 0 where
  pub created : Bool
  pub locked : Bool
  pub unlocked : Bool
  pub readable : Bool

unfoldable pub make_pidfile : Pidfile → ℕ
make_pidfile f =
    if not f.created
    then 1
    else if not f.locked
    then 1
    else if not f.unlocked
    then 1
    else if not f.readable
    then 1
    else 0

-- librdkafka: whether a producer can be made, and how many brokers it takes from a text.
pub record Librdkafka : Type 0 where
  pub configurable : Configurable
  pub kafka_new : List (List ℕ × List ℕ) → Bool
  pub brokers_add : List ℕ → ℕ

unfoldable pub table_mapper_new :
    {Schema : Type 0} → Option Registry → Option (List ℕ) → Mapper Schema
table_mapper_new registry topic_prefix = record {
  registry = registry;
  topic_prefix = topic_prefix;
  capacity = 16;
  tables = [];
  closed = [];
}

unfoldable pub start_producer : {Schema : Type 0} → Librdkafka → Settings → Run (Mapper Schema)
unfolding table_mapper_new
start_producer kafka s =
    if not (kafka.kafka_new s.kafka_conf)
    then exit_with 1
    else if kafka.brokers_add s.brokers == 0
    then exit_with 1
    else running (table_mapper_new s.registry s.topic_prefix)

-- The stream of a client context that is filled with zeros.
abbrev pub zero_stream : Stream
zero_stream = record {
  start_lsn = 0;
  recvd_lsn = 0;
  fsync_lsn = 0;
  last_checkpoint = 0;
  status = pos 0;
  wire = [];
}

abbrev pub text_or_empty : Option (List ℕ) → List ℕ
text_or_empty none = []
text_or_empty (some text) = text

-- What one round of the loop meets: the signals that have come since the last one, what the client
-- polls and waits for, and the delivery reports of `rd_kafka_poll`.
pub record Round : Type 0 where
  pub received_shutdown_signal : Bool
  pub received_reload_signal : Bool
  pub busy : Bool
  pub result : Option QueryResult
  pub outside : Outside
  pub copy : Copy
  pub select : Select
  pub repl_consumed : Bool
  pub sql_consumed : Bool
  pub deliveries : List Delivery

abbrev pub event_of : Bool → Round → Event
event_of reload x = record {
  busy = x.busy;
  result = x.result;
  received_reload_signal = reload;
  outside = x.outside;
  copy = x.copy;
}

abbrev pub is_negative : ℤ → Bool
is_negative (pos n) = false
is_negative (negsuc n) = true

abbrev pub is_zero : ℤ → Bool
is_zero (pos n) = n == 0
is_zero (negsuc n) = false

module _ (libavro : Libavro) (avro : Avro) (around : Surroundings libavro) (decoder : FrameDecoder)
    (server : Server) where
  open libavro use {Schema}

  abbrev pub World : Type 0
  World = State avro (init_client libavro around)

  abbrev pub Client : Type 0
  Client = ClientContext World

  abbrev pub reader : SnapshotReader World
  reader = snapshot_reader avro (init_client libavro around) decoder (context_client libavro)

  abbrev pub context_of : Client → Context Schema
  context_of c = c.world.cb_context

  abbrev pub with_context : Context Schema → Client → Client
  with_context p c = record c { world = record (c.world) { cb_context = p } }

  -- The client and the producer as the options leave them.
  unfoldable pub configured : Settings → Mapper Schema → Client
  unfolding init_producer frame_reader_new
  configured s mapper = record {
    conninfo = text_or_empty s.conninfo;
    app_name = codes "bottledwater";
    error_policy = s.client_error_policy;
    slot_name = s.slot_name;
    output_plugin = codes "bottledwater";
    snapshot_name = [];
    sql_conn = false;
    allow_unkeyed = s.allow_unkeyed;
    skip_snapshot = s.skip_snapshot;
    slot_created = false;
    status = pos 0;
    sql_sent = [];
    repl_sent = [];
    world = frame_reader_new (record (init_producer zero_stream mapper) {
      output_format = s.output_format;
      error_policy = s.error_policy;
    });
  }

  -- The macro `ensure`.
  abbrev pub ensure : ℕ × Client → (Client → Run Client) → Run Client
  ensure (e, c) next = if e == 0 then next c else fatal_error (context_of c)

  unfoldable pub poll_kafka : List Delivery → Client → Run Client
  poll_kafka ds c = do p ← poll ds (context_of c); running (with_context p c)

  -- The body of the loop.
  unfoldable pub round : Bool → Round → Client → Run Client
  unfolding poll_kafka
  round reload x c = do
    polled ← db_client_poll reader server (event_of reload x) c
    ensure polled (λ c₁.
        if is_zero c₁.status
        then ensure (db_client_wait reader server x.select x.repl_consumed x.sql_consumed c₁, c₁)
            (poll_kafka x.deliveries)
        else poll_kafka x.deliveries c₁)

  -- The loop, for these rounds, and the state in which it then goes on: whether a reload signal waits
  -- for the end of the snapshot, and the client.
  unfoldable pub main_loop : List Round → Bool → Client → Run (Bool × Client)
  unfolding round
  main_loop [] reload c = running (reload, c)
  main_loop (x ∷ xs) reload c =
      let reload' = reload || x.received_reload_signal in
      if is_negative c.status || x.received_shutdown_signal
      then exited (exit_nicely (context_of c) 0)
      else do c' ← round reload' x c; main_loop xs (reload' && c.sql_conn) c'

  -- The test of the `assert` after the start.
  abbrev pub asserted : Client → Bool
  asserted c = not c.slot_created || c.skip_snapshot || (context_of c).taking_snapshot

  -- The part after the start, whose error is `e`. A failed assertion aborts the program.
  unfoldable pub after_start : List Round → ℕ × Client → Run (Bool × Client)
  unfolding main_loop
  after_start rounds (e, c) =
      if not (e == 0)
      then fatal_error (context_of c)
      else if not (asserted c)
      then exit_with 134
      else main_loop rounds true c

  unfoldable pub main :
      Librdkafka
      → Pidfile
      → List CommandOption
      → (left_over : Bool) → List Round
      → Run (Bool × Client)
  unfolding start_producer make_pidfile after_start configured
  main kafka pidfile options left_over rounds = do
    s₀ ← init_settings kafka.configurable
    s ← parse_options kafka.configurable options left_over s₀
    (if not (make_pidfile pidfile == 0) then exit_with 1 else (do
      mapper ← start_producer kafka s
      started ← db_client_start reader server (configured s mapper)
      after_start rounds started))
