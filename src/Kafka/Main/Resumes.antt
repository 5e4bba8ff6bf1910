-- ===== src/Kafka/Main/Resumes.antt =====
-- The whole program of kafka/bottledwater.c, when it goes on with a replication slot.
use bottledwater_pg.Prelude.{
  ℕ, ◌≡◌, Bool, true, false, some, List, [], ◌∷◌, ◌==◌, Bool-cases, inl, inr, arith,
}
use bottledwater_pg.Prelude.Run.{Holds, Holds-bind, Holds-after}
use bottledwater_pg.Client.Frames.{Avro, frame_reader_new}
use bottledwater_pg.Client.Postgres.{Server, is_tuples, get_value}
use bottledwater_pg.Client.Connect.{slot_query}
use bottledwater_pg.Client.Connect.Resumes.{db_client_start-Resumed}
use bottledwater_pg.Client.Program.{FrameDecoder}
use bottledwater_pg.Kafka.Json.{Libavro}
use bottledwater_pg.Kafka.TableMapper.{Mapper}
use bottledwater_pg.Kafka.Producer.Reach.{Phase, idle, Reach, Sound, init_producer}
use bottledwater_pg.Kafka.Options.Parse.{Settings, CommandOption, parse_options, init_settings}
use bottledwater_pg.Kafka.Program.{Surroundings}
use bottledwater_pg.Kafka.Main.{
  Client, World, reader, context_of, asserted, zero_stream, Librdkafka, Pidfile, Round,
  make_pidfile, start_producer, configured, after_start, main,
}
use bottledwater_pg.Kafka.Main.Rounds.{Feeds, main_loop-Sound}

module _ (libavro : Libavro) (avro : Avro) (around : Surroundings libavro) (decoder : FrameDecoder)
    (server : Server) where
  open libavro use {Schema}

  abbrev Idle : World libavro avro around decoder server → Type 0
  Idle w = Reach libavro idle w.cb_context

  configured-Idle :
      (s : Settings) (m : Mapper Schema)
      → Idle (configured libavro avro around decoder server s m).world
  unfolding configured frame_reader_new init_producer
  configured-Idle s m =
      Reach.configured s.output_format s.error_policy false (Reach.started zero_stream m)

  abbrev Ends : Phase → Bool × Client libavro avro around decoder server → Type 0
  Ends q x = Sound libavro q (context_of libavro avro around decoder server x.1)

  abbrev Starts : ℕ × Client libavro avro around decoder server → Type 0
  Starts x = x.0 ≡ 0 → (x.1.sql_conn ≡ false) × Idle x.1.world

  after_start-Sound :
      {q : Phase} {rounds : List Round} (x : ℕ × Client libavro avro around decoder server)
      → Feeds libavro avro around decoder server idle rounds q
      → Starts x
      → Holds (Ends q) (after_start libavro avro around decoder server rounds x)
  unfolding after_start
  after_start-Sound (e, c) feeds resumed = elim (Bool-cases (e == 0)) [
    | inr failed ↦ rw failed tt
    | inl fine ↦
        let (closed, reached) = resumed (ground (arith, fine)) in
        elim (Bool-cases (asserted libavro avro around decoder server c)) [
          | inr fails ↦ rw (fine, fails) tt
          | inl holds ↦
              rw (fine, holds)
                (main_loop-Sound libavro avro around decoder server true c feeds closed reached)
        ]
  ]

  -- The whole program, when the server has the replication slot, whatever the options, the pid file,
  -- Kafka, the connection and the signals do: if Postgres sends its messages in the order of
  -- transactions, with numbers other than 0 and fewer than 2 ^ 32 row messages each, then after any
  -- rounds each message that Kafka holds belongs to a transaction in flight whose `pending_events`
  -- counts it, and a transaction that is being received is in flight and not committed.
  pub main-Sound :
      (text : List ℕ → List ℕ) (kafka : Librdkafka) (pidfile : Pidfile)
      (options : List CommandOption) (left_over : Bool) {q : Phase} {rounds : List Round}
      → ((slot_name : List ℕ) → is_tuples (server.sql_result (slot_query slot_name ∷ [])) ≡ true)
      → ((slot_name : List ℕ)
          → get_value (server.sql_result (slot_query slot_name ∷ [])).rows 0
            ≡ some (text slot_name))
      → Feeds libavro avro around decoder server idle rounds q
      → Holds
          (λ x. Sound libavro q (context_of libavro avro around decoder server x.1))
          (main libavro avro around decoder server kafka pidfile options left_over rounds)
  unfolding main configured
  main-Sound text kafka pidfile options left_over {q = q} tuples there feeds =
      Holds-after (Ends q) (init_settings kafka.configurable) _ (λ s₀.
        Holds-after (Ends q) (parse_options kafka.configurable options left_over s₀) _ (λ s.
          elim (Bool-cases (make_pidfile pidfile == 0)) [
            | inr failed ↦ rw failed tt
            | inl made ↦ rw made (
                Holds-after (Ends q) (start_producer kafka s) _ (λ m.
                  Holds-bind Starts (Ends q) _ _
                    (db_client_start-Resumed (reader libavro avro around decoder server) server Idle
                      (λ stream w h. Reach.streamed stream h)
                      (λ b w h.
                        Reach.configured w.cb_context.output_format w.cb_context.error_policy b h)
                      (text s.slot_name) (configured libavro avro around decoder server s m)
                      (tuples s.slot_name, there s.slot_name) (configured-Idle s m))
                    (λ x resumed. after_start-Sound x feeds resumed)))
          ]))
