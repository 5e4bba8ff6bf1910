-- ===== src/Kafka/Main/Rounds.antt =====
-- The rounds of the main loop while it streams: the states of the producer that they reach.
use bottledwater_pg.Prelude.{
  ◌≡◌, Bool, false, ◌&&◌, ◌||◌, List, [], ◌∷◌, ◌==◌, Bool-cases, inl, inr, arith,
}
use bottledwater_pg.Prelude.Run.{Holds, Holds-bind, Holds-map, Holds-of}
use bottledwater_pg.Client.Replication.Keeps.{frame_of}
use bottledwater_pg.Client.Frames.{Avro}
use bottledwater_pg.Client.Postgres.{Server}
use bottledwater_pg.Client.Connect.Snapshot.{db_client_wait}
use bottledwater_pg.Client.Program.{FrameDecoder}
use bottledwater_pg.Kafka.Json.{Libavro}
use bottledwater_pg.Kafka.Producer.{Delivery, poll}
use bottledwater_pg.Kafka.Producer.Reach.{Phase, Reach, Sound, Reach-Sound}
use bottledwater_pg.Kafka.Program.{Surroundings}
use bottledwater_pg.Kafka.Program.Frames.{Ordered}
use bottledwater_pg.Kafka.Main.{
  Client, reader, Round, event_of, context_of, poll_kafka, round, main_loop, is_zero, is_negative,
}
use bottledwater_pg.Kafka.Main.Polls.{brought, Streams, Polls, poll-Streams}

module _ (libavro : Libavro) (avro : Avro) (around : Surroundings libavro) (decoder : FrameDecoder)
    (server : Server) where
  poll_kafka-Streams :
      (ds : List Delivery) {p : Phase} (c : Client libavro avro around decoder server)
      → Streams libavro avro around decoder server p c
      → Holds
          (Streams libavro avro around decoder server p)
          (poll_kafka libavro avro around decoder server ds c)
  unfolding poll_kafka
  poll_kafka-Streams ds {p = p} c (closed, h) =
      Holds-bind (Reach libavro p) (Streams libavro avro around decoder server p)
        (poll ds c.world.cb_context) _
        (Holds-of (Reach libavro p) (poll ds c.world.cb_context) (λ c' e. Reach.polled ds e h))
        (λ c' h'. (closed, h'))

  round-Streams :
      (reload : Bool) (x : Round) {p q : Phase} (c : Client libavro avro around decoder server)
      → Ordered p (brought libavro avro around decoder server (frame_of x.copy)) q
      → Streams libavro avro around decoder server p c
      → Holds
          (Streams libavro avro around decoder server q)
          (round libavro avro around decoder server reload x c)
  unfolding round
  round-Streams reload x {q = q} c ordered s =
      Holds-bind (Polls libavro avro around decoder server q)
        (Streams libavro avro around decoder server q) _ _
        (poll-Streams libavro avro around decoder server (event_of reload x) c ordered s)
        (λ (e, c₁) polled. elim (Bool-cases (e == 0)) [
          | inr failed ↦ rw failed tt
          | inl fine ↦
              let s₁ = polled (ground (arith, fine)) in
              let waited =
                db_client_wait (reader libavro avro around decoder server) server x.select
                  x.repl_consumed x.sql_consumed c₁ in
              let rest = poll_kafka-Streams x.deliveries c₁ s₁ in
              elim (Bool-cases (is_zero c₁.status)) [
                | inr busy ↦ rw (fine, busy) rest
                | inl idle ↦ elim (Bool-cases (waited == 0)) [
                  | inl ready ↦ rw (fine, idle, ready) rest
                  | inr failed ↦ rw (fine, idle, failed) tt
                ]
              ]
        ])

  -- Postgres sends messages in the order of transactions, over all the rounds.
  pub data Feeds : Phase → List Round → Phase → Type 0 where
    no_round : {p : Phase} → Feeds p [] p
    one_round :
        {p q s : Phase} {x : Round} {xs : List Round}
        → Ordered p (brought libavro avro around decoder server (frame_of x.copy)) q
        → Feeds q xs s
        → Feeds p (x ∷ xs) s

  main_loop-Streams :
      (reload : Bool) {p q : Phase} {xs : List Round}
      (c : Client libavro avro around decoder server)
      → Feeds p xs q
      → Streams libavro avro around decoder server p c
      → Holds
          (λ x. Streams libavro avro around decoder server q x.1)
          (main_loop libavro avro around decoder server xs reload c)
  unfolding main_loop
  main_loop-Streams reload c no_round s = s
  main_loop-Streams reload {q = q} c (one_round {q = m} {x = x} {xs = xs} ordered later) s =
      elim (Bool-cases (is_negative c.status || x.received_shutdown_signal)) [
        | inl ends ↦ rw ends tt
        | inr goes_on ↦ rw goes_on (
            Holds-bind (Streams libavro avro around decoder server m)
              (λ y. Streams libavro avro around decoder server q y.1) _ _
              (round-Streams (reload || x.received_reload_signal) x c ordered s)
              (λ c' s'.
                main_loop-Streams ((reload || x.received_reload_signal) && c.sql_conn) c' later s'))
      ]

  -- While the producer streams: if Postgres sends its messages in the order of transactions, with
  -- numbers other than 0 and fewer than 2 ^ 32 row messages each, then after any rounds of the main
  -- loop, whatever Kafka, the connection and the signals do, each message that Kafka holds belongs to
  -- a transaction in flight whose `pending_events` counts it, and a transaction that is being
  -- received is in flight and not committed.
  pub main_loop-Sound :
      (reload : Bool) {p q : Phase} {xs : List Round}
      (c : Client libavro avro around decoder server)
      → Feeds p xs q
      → c.sql_conn ≡ false
      → Reach libavro p (context_of libavro avro around decoder server c)
      → Holds
          (λ x. Sound libavro q (context_of libavro avro around decoder server x.1))
          (main_loop libavro avro around decoder server xs reload c)
  main_loop-Sound reload {q = q} {xs = xs} c feeds closed h =
      Holds-map (λ y. Streams libavro avro around decoder server q y.1) _
        (main_loop libavro avro around decoder server xs reload c)
        (λ (b, d) s. Reach-Sound libavro q d.world.cb_context s.1)
        (main_loop-Streams reload c feeds (closed, h))
