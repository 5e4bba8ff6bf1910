-- ===== src/Kafka/Main/Polls.antt =====
-- A poll of the client while it streams: the states of the producer that it reaches.
use bottledwater_pg.Prelude.{
  ℕ, ◌≡◌, refl, false, Option, none, some, List, [], ◌∷◌, ◌++◌, length, leb, ◌==◌, subst, Result,
  ok, err, Bool-cases, inl, inr, arith,
}
use bottledwater_pg.Prelude.Run.{Holds, Holds-bind}
use bottledwater_pg.Client.Replication.{replication_stream_poll}
use bottledwater_pg.Client.Replication.Keeps.{frame_of, Leads, poll-keeps}
use bottledwater_pg.Client.Frames.{Message, Avro}
use bottledwater_pg.Client.Postgres.{Server, is_tuples, get_value}
use bottledwater_pg.Client.Connect.{client_sql_connect, client_sql_disconnect}
use bottledwater_pg.Client.Connect.Snapshot.{
  Event, stream_polled, store_relids, max_table_cnt, reload_query, update_repl_table_entry,
  db_client_poll,
}
use bottledwater_pg.Client.Program.{FrameDecoder, after_read, parse_frame}
use bottledwater_pg.Kafka.Json.{Libavro}
use bottledwater_pg.Kafka.Producer.Reach.{Phase, Reach}
use bottledwater_pg.Kafka.Program.{Surroundings, init_client, context_client}
use bottledwater_pg.Kafka.Program.Frames.{Ordered, no_message, process_frame-Reach}
use bottledwater_pg.Kafka.Program.Leaves.{handle-Leaves}
use bottledwater_pg.Kafka.Main.{Client, World, reader, context_of}

module _ (libavro : Libavro) (avro : Avro) (around : Surroundings libavro) (decoder : FrameDecoder)
    (server : Server) where
  abbrev W : Type 0
  W = World libavro avro around decoder server

  abbrev C : Type 0
  C = Client libavro avro around decoder server

  abbrev At : Phase → W → Type 0
  At p w = Reach libavro p w.cb_context

  abbrev Ends : Phase → ℕ × W → Type 0
  Ends q x = x.0 ≡ 0 → At q x.1

  -- The messages that a poll of the stream brings.
  abbrev pub brought : Option (ℕ × List ℕ) → List Message
  brought none = []
  brought (some (wal_pos, frame)) = decoder.messages frame

  after_read-At :
      (read : Result {0} Unit) (wal_pos : ℕ) {p q : Phase} {ms : List Message} (w : W)
      → Ordered p ms q
      → At p w
      → Holds (Ends q) (
          after_read avro
            (init_client libavro around)
            decoder
            (context_client libavro)
            read
            wal_pos
            ms
            w)
  after_read-At (ok u) wal_pos w ordered h =
      process_frame-Reach libavro avro around wal_pos w ordered h
  after_read-At (err e) wal_pos {p = p} {q = q} {ms = ms} w ordered h =
      Holds-bind (λ x. At p x.1) (Ends q) _ _
        (handle-Leaves libavro avro around (Reach libavro p) e w h)
        (λ (e', w') h'. elim (Bool-cases (e' == 0)) [
          | inl fine ↦ rw fine (process_frame-Reach libavro avro around wal_pos w' ordered h')
          | inr failed ↦ rw failed (λ z. absurd (ground (arith, failed)))
        ])

  led :
      (frame : Option (ℕ × List ℕ)) {p q : Phase}
      → Ordered p (brought frame) q
      → Leads
          (reader libavro avro around decoder server).reader
          (At p)
          (At q)
          (λ s w h. Reach.streamed s h)
          (λ s w h. Reach.streamed s h)
          frame
  unfolding parse_frame
  led none no_message = λ w h. h
  led (some (wal_pos, frame)) ordered = λ w h. after_read-At _ wal_pos w ordered h

  stream-At :
      (ev : Event) {p q : Phase} (w : W)
      → Ordered p (brought (frame_of ev.copy)) q
      → At p w
      → Holds (Ends q) (
          replication_stream_poll
            (reader libavro avro around decoder server).reader
            ev.outside
            ev.copy
            w)
  stream-At ev {p = p} {q = q} w ordered h =
      poll-keeps (reader libavro avro around decoder server).reader (At p) (At q)
        (λ s w h. Reach.streamed s h) (λ s w h. Reach.streamed s h) ev.outside ev.copy w
        (led (frame_of ev.copy) ordered) h

  -- The client streams, and the producer is in the phase.
  abbrev pub Streams : Phase → C → Type 0
  Streams p c = (c.sql_conn ≡ false) × At p c.world

  abbrev pub Polls : Phase → ℕ × C → Type 0
  Polls q x = x.0 ≡ 0 → Streams q x.1

  stream_polled-Streams :
      (ev : Event) {p q : Phase} (c : C)
      → Ordered p (brought (frame_of ev.copy)) q
      → Streams p c
      → Holds (Polls q) (stream_polled (reader libavro avro around decoder server) server c ev)
  stream_polled-Streams ev {q = q} c ordered (closed, h) =
      Holds-bind (Ends q) (Polls q) _ _ (stream-At ev c.world ordered h) (λ (e, w) h'.
        elim (Bool-cases (e == 0)) [
          | inl fine ↦ rw fine (λ z. (closed, h' (ground (arith, fine))))
          | inr failed ↦ rw failed (λ z. absurd (ground (arith, failed)))
        ])

  -- The list of active tables is not the producer's.
  abbrev Same : C → ℕ × C → Type 0
  Same c x =
      context_of libavro avro around decoder server x.1
      ≡ context_of libavro avro around decoder server c

  client_sql_connect-Same :
      (c : C) → Same c (client_sql_connect (reader libavro avro around decoder server) server c)
  unfolding client_sql_connect
  client_sql_connect-Same c = ground arith

  store_relids-Same :
      (rows : List (List (Option (List ℕ)))) (first : Option (List ℕ)) (c : C)
      → Holds
          (Same c)
          (store_relids (reader libavro avro around decoder server) server rows first c)
  store_relids-Same rows none c = refl
  store_relids-Same rows (some first) c = elim (Bool-cases (leb (length rows) max_table_cnt)) [
    | inl fits ↦ rw fits refl
    | inr more ↦ rw more tt
  ]

  reload-Same :
      (c : C)
      → Holds
          (Same c)
          (update_repl_table_entry (reader libavro avro around decoder server) server c)
  unfolding update_repl_table_entry
  reload-Same c =
      let res = server.sql_result (c.sql_sent ++ (reload_query ∷ [])) in
      elim (Bool-cases (is_tuples res)) [
        | inl tuples ↦ rw tuples (store_relids-Same res.rows (get_value res.rows 0) _)
        | inr other ↦ rw other refl
      ]

  poll_closed-Streams :
      (ev : Event) {p q : Phase} (c : C)
      → Ordered p (brought (frame_of ev.copy)) q
      → At p c.world
      → Holds (Polls q) (
          db_client_poll
            (reader libavro avro around decoder server)
            server
            ev
            (record c { sql_conn = false }))
  unfolding db_client_poll client_sql_disconnect
  poll_closed-Streams ev {p = p} {q = q} c ordered h =
      let d : C = record c { sql_conn = false } in
      let (e₁, c₁) = client_sql_connect (reader libavro avro around decoder server) server d in
      elim (Bool-cases ev.received_reload_signal) [
        | inr calm ↦ rw calm (stream_polled-Streams ev d ordered (refl, h))
        | inl signalled ↦ elim (Bool-cases (e₁ == 0)) [
          | inr failed ↦ rw (signalled, failed) (λ z. absurd (ground (arith, failed)))
          | inl connected ↦
              rw (signalled, connected)
                (Holds-bind (Same c₁) (Polls q) _ _ (reload-Same c₁) (λ (e₂, c₂) same.
                  elim (Bool-cases (e₂ == 0)) [
                    | inr failed ↦ rw failed (λ z. absurd (ground (arith, failed)))
                    | inl loaded ↦ rw loaded (
                        stream_polled-Streams ev (record c₂ { sql_conn = false }) ordered
                          (refl, rw (same, client_sql_connect-Same d) h))
                  ]))
        ]
      ]

  pub poll-Streams :
      (ev : Event) {p q : Phase} (c : C)
      → Ordered p (brought (frame_of ev.copy)) q
      → Streams p c
      → Holds (Polls q) (db_client_poll (reader libavro avro around decoder server) server ev c)
  poll-Streams ev {q = q} c ordered (closed, h) =
      let same : record c { sql_conn = false } ≡ c = ground (arith, closed) in
      subst
        (λ d.
          Holds (Polls q) (db_client_poll (reader libavro avro around decoder server) server ev d))
        same (poll_closed-Streams ev c ordered h)
