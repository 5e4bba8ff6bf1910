-- ===== src/Kafka/Main/Tests.antt =====
-- Each of the results of Kafka/Main and Kafka/Options at one input.
use bottledwater_pg.Prelude.{
  ℕ, ◌≡◌, refl, true, false, not, ◌&&◌, none, some, List, [], ◌∷◌, codes, ok, arith,
}
use bottledwater_pg.Prelude.Run.{Holds}
use bottledwater_pg.Client.Replication.{Copy}
use bottledwater_pg.Client.Frames.{Message, frame_reader_new}
use bottledwater_pg.Client.Postgres.{ExecStatus, QueryResult, Server}
use bottledwater_pg.Client.Samples.{answering, accepting}
use bottledwater_pg.Client.Connect.Snapshot.{Select, db_client_start}
use bottledwater_pg.Client.Program.{FrameDecoder}
use bottledwater_pg.Kafka.Producer.Reach.{Phase, Reach, Sound, init_producer}
use bottledwater_pg.Kafka.Options.Parse.{
  CommandOption, Configurable, parse_options, default_settings,
}
use bottledwater_pg.Kafka.Options.Agreement.{IsConfigured, parse_options-IsConfigured}
use bottledwater_pg.Kafka.Program.Frames.{Next, Ordered}
use bottledwater_pg.Kafka.Samples.{avro, around, frames, no_tables, clock}
use bottledwater_pg.Kafka.Main.{
  Librdkafka, Pidfile, Round, Client, reader, context_of, zero_stream, configured, main_loop,
  after_start, main,
}
use bottledwater_pg.Kafka.Main.Rounds.{Feeds, main_loop-Sound}
use bottledwater_pg.Kafka.Main.Resumes.{main-Sound}
use bottledwater_pg.Kafka.Main.Starts.{db_client_start-main_loop}

-- A frame begins the transaction of its first byte.
abbrev first_byte : List ℕ → List Message
first_byte [] = []
first_byte (b ∷ bs) = Message.begin_txn b ∷ []

abbrev decoder : FrameDecoder
decoder = record { frame_read = λ buf. ok []; messages = first_byte }

abbrev xlogdata_7 : List ℕ
xlogdata_7 =
    b'w' ∷ 0 ∷ 0 ∷ 0 ∷ 0 ∷ 0 ∷ 0 ∷ 0 ∷ 9 ∷ 0 ∷ 0 ∷ 0 ∷ 0 ∷ 0 ∷ 0 ∷ 0 ∷ 0 ∷ 0 ∷ 0 ∷ 0 ∷ 0 ∷ 0 ∷ 0 ∷ 0
    ∷ 0 ∷ 7 ∷ []

abbrev round_with : Copy → Round
round_with copy = record {
  received_shutdown_signal = false;
  received_reload_signal = false;
  busy = false;
  result = none;
  outside = clock;
  copy = copy;
  select = Select.timeout;
  repl_consumed = true;
  sql_consumed = true;
  deliveries = [];
}

-- Transaction 7 begins, and nothing comes in the round after.
abbrev rounds : List Round
rounds = round_with (Copy.message xlogdata_7) ∷ round_with Copy.no_message ∷ []

abbrev client : Client avro frames around decoder accepting
client = configured avro frames around decoder accepting default_settings no_tables

rounds_in_order :
    (server : Server)
    → Feeds avro frames around decoder server Phase.idle rounds (Phase.receiving 0)
rounds_in_order server =
    Feeds.one_round
      (Ordered.and_then (Next.begins 7 (λ e. absurd (omega arith))) Ordered.no_message)
      (Feeds.one_round Ordered.no_message Feeds.no_round)

client_streams : client.sql_conn ≡ false
unfolding configured
client_streams = refl

client-Reach : Reach avro Phase.idle (context_of avro frames around decoder accepting client)
unfolding configured init_producer frame_reader_new default_settings
client-Reach = Reach.started zero_stream no_tables

main_loop-Sound_example :
    Holds
      (λ x. Sound avro (Phase.receiving 0) (context_of avro frames around decoder accepting x.1))
      (main_loop avro frames around decoder accepting rounds false client)
main_loop-Sound_example =
    main_loop-Sound avro frames around decoder accepting false client (rounds_in_order accepting)
      client_streams client-Reach

db_client_start-main_loop_example :
    Holds
      (λ x.
        x.0 ≡ 0
        → (x.1.sql_conn ≡ (x.1.slot_created && not x.1.skip_snapshot))
          × (x.1.world.cb_context.taking_snapshot ≡ x.1.sql_conn)
          × (after_start avro frames around decoder accepting rounds x
              ≡ main_loop avro frames around decoder accepting rounds true x.1))
      (db_client_start (reader avro frames around decoder accepting) accepting client)
db_client_start-main_loop_example =
    db_client_start-main_loop avro frames around decoder accepting rounds client

abbrev configurable : Configurable
configurable = record { conf_set = λ property value. true; topic_conf_set = λ property value. true }

abbrev options : List CommandOption
options =
    CommandOption.postgres (codes "postgres://localhost")
    ∷ CommandOption.on_error (codes "log")
    ∷ CommandOption.kafka_config (codes "a=b")
    ∷ []

parse_options-IsConfigured_example :
    Holds IsConfigured (parse_options configurable options false default_settings)
parse_options-IsConfigured_example = parse_options-IsConfigured configurable options false

-- The slot's position is 3/5, of which the test's numbers have one digit each.
abbrev slot_row : QueryResult
slot_row = record {
  status = ExecStatus.tuples_ok;
  nfields = 1;
  binary = false;
  rows = (some (3 ∷ 47 ∷ 5 ∷ []) ∷ []) ∷ [];
}

abbrev resuming : Server
resuming = answering slot_row

abbrev kafka : Librdkafka
kafka = record { configurable = configurable; kafka_new = λ conf. true; brokers_add = λ text. 1 }

abbrev pidfile : Pidfile
pidfile = record { created = true; locked = true; unlocked = true; readable = true }

main-Sound_example :
    Holds
      (λ x. Sound avro (Phase.receiving 0) (context_of avro frames around decoder resuming x.1))
      (main avro frames around decoder resuming kafka pidfile options false rounds)
main-Sound_example =
    main-Sound avro frames around decoder resuming (λ slot_name. 3 ∷ 47 ∷ 5 ∷ []) kafka pidfile
      options false (λ slot_name. refl) (λ slot_name. refl) (rounds_in_order resuming)
