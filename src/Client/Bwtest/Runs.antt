-- ===== src/Client/Bwtest/Runs.antt =====
-- The positions over whole runs of client/bwtest.c, the snapshot included.
use bottledwater_pg.Prelude.{
  ℕ, ◌≤◌, Bool, List, [], ◌∷◌, ◌==◌, if◌then◌else◌, Bool-cases, inl, inr, arith,
}
use bottledwater_pg.Prelude.Run.{◌>>=◌, Holds, Holds-bind, Holds-map, Holds-after}
use bottledwater_pg.Client.Stream.{Outside}
use bottledwater_pg.Client.Postgres.{Server}
use bottledwater_pg.Client.Frames.{Avro, frame_reader_new}
use bottledwater_pg.Client.Replication.{Copy, replication_stream_poll}
use bottledwater_pg.Client.Connect.Snapshot.{db_client_start, db_client_wait}
use bottledwater_pg.Client.Connect.Keeps.{Keeping, At, db_client_start-At}
use bottledwater_pg.Client.Connect.Keeps.Polls.{db_client_poll-At}
use bottledwater_pg.Client.Program.{FrameDecoder, parse_frame}
use bottledwater_pg.Client.Bwtest.{Rendering, init_client, print_begin_txn, print_commit_txn}
use bottledwater_pg.Client.Bwtest.Main.{
  TestSettings, TestOption, Round, World, Client, reader, is_zero, is_negative, configured,
  exit_nicely, round, main_loop, main, parse_options, default_settings,
}
use bottledwater_pg.Client.Bwtest.Flushed.{Between, GoodAt, after_read-Between, poll-flushed}

module _ (avro : Avro) (libavro : Rendering) (decoder : FrameDecoder) (server : Server) where
  abbrev C : Type 0
  C = Client avro libavro decoder server

  abbrev W : Type 0
  W = World avro libavro decoder server

  -- At least `f` is flushed, and no more than was received.
  abbrev Flushed : ℕ → C → Type 0
  Flushed f c = GoodAt avro libavro decoder f c.world

  reads-Good :
      (f : ℕ) (frame : List ℕ) (w : W)
      → GoodAt avro libavro decoder f w
      → Holds
          (λ x. GoodAt avro libavro decoder f x.1)
          ((reader avro libavro decoder server).reader.parse_frame 0 frame w)
  unfolding parse_frame
  reads-Good f frame w g =
      let b = w.cb_context.stream.recvd_lsn in
      Holds-map {A = ℕ × W} (λ x. Between f b 0 x.1.cb_context)
        (λ x. GoodAt avro libavro decoder f x.1)
        ((reader avro libavro decoder server).reader.parse_frame 0 frame w)
        (λ x p. ground (arith, p))
        (after_read-Between avro libavro decoder f b 0 _ (decoder.messages frame) w
          (ground (arith, g)))

  polls-Good :
      (f : ℕ) (o : Outside) (copy : Copy) (w : W)
      → GoodAt avro libavro decoder f w
      → Holds
          (λ x. GoodAt avro libavro decoder f x.1)
          (replication_stream_poll (reader avro libavro decoder server).reader o copy w)
  polls-Good f o copy w g =
      Holds-map
        (λ x.
          (w.cb_context.stream.fsync_lsn ≤ x.1.cb_context.stream.fsync_lsn)
          × (x.1.cb_context.stream.fsync_lsn ≤ x.1.cb_context.stream.recvd_lsn))
        _ _ (λ x p. ground (arith, p, g)) (poll-flushed avro libavro decoder o copy w g.1)

  prints-Keeping :
      (f : ℕ) → Keeping (reader avro libavro decoder server) server (GoodAt avro libavro decoder f)
  unfolding init_client print_begin_txn print_commit_txn
  prints-Keeping f = record {
    starts_at = λ lsn w g. g;
    begins = λ lsn w g. g;
    commits = λ lsn w g. g;
    activates = λ relids w g. g;
    takes = λ b w g. g;
    reads = reads-Good f;
    polls = polls-Good f;
  }

  round-Flushed :
      (f : ℕ) (x : Round) (c : C)
      → Flushed f c
      → Holds (Flushed f) (round avro libavro decoder server x c)
  unfolding round
  round-Flushed f x c g =
      Holds-bind (At (reader avro libavro decoder server) server (GoodAt avro libavro decoder f))
        (Flushed f) _ _
        (db_client_poll-At (reader avro libavro decoder server) server
          (GoodAt avro libavro decoder f) (prints-Keeping f) x.event c g)
        (λ (e, c₁) g₁.
          let waited =
            db_client_wait (reader avro libavro decoder server) server x.select x.repl_consumed
              x.sql_consumed c₁ in
          elim (Bool-cases (e == 0)) [
            | inr failed ↦ rw failed tt
            | inl fine ↦ elim (Bool-cases (is_zero avro libavro decoder server c₁.status)) [
              | inr busy ↦ rw (fine, busy) g₁
              | inl idle ↦ elim (Bool-cases (waited == 0)) [
                | inl ready ↦ rw (fine, idle, ready) g₁
                | inr failed ↦ rw (fine, idle, failed) tt
              ]
            ]
          ])

  main_loop-Flushed :
      (f : ℕ) (xs : List Round) (c : C)
      → Flushed f c
      → Holds (Flushed f) (main_loop avro libavro decoder server xs c)
  unfolding main_loop
  main_loop-Flushed f [] c g = g
  main_loop-Flushed f (x ∷ xs) c g =
      elim (Bool-cases (is_negative avro libavro decoder server c.status)) [
        | inl ends ↦ rw ends tt
        | inr goes_on ↦ rw goes_on (
            Holds-bind (Flushed f) (Flushed f) _ _ (round-Flushed f x c g)
              (λ c' g'. main_loop-Flushed f xs c' g'))
      ]

  configured-Flushed : (s : TestSettings) → Flushed 0 (configured avro libavro decoder server s)
  unfolding configured frame_reader_new
  configured-Flushed s = (omega arith, omega arith)

  started-Flushed :
      (rounds : List Round) (s : TestSettings)
      → Holds (Flushed 0) (
          db_client_start
            (reader avro libavro decoder server)
            server
            (configured avro libavro decoder server s)
          >>= λ x.
              if x.0 == 0
              then main_loop avro libavro decoder server rounds x.1
              else exit_nicely avro libavro decoder server x.1)
  unfolding exit_nicely
  started-Flushed rounds s =
      Holds-bind (At (reader avro libavro decoder server) server (GoodAt avro libavro decoder 0))
        (Flushed 0) _ _
        (db_client_start-At (reader avro libavro decoder server) server
          (GoodAt avro libavro decoder 0) (prints-Keeping 0)
          (configured avro libavro decoder server s) (configured-Flushed s))
        (λ (e, c) g. elim (Bool-cases (e == 0)) [
          | inl fine ↦ rw fine (main_loop-Flushed 0 rounds c g)
          | inr failed ↦ rw failed tt
        ])

  -- In the test client, whatever the options, Postgres and the connection do, in the snapshot and in
  -- the stream: after any rounds of the main loop no more is flushed than was received, and in any
  -- later rounds the flushed position does not move back.
  pub main-flushed :
      (options : List TestOption) (left_over : Bool) (rounds later : List Round)
      → Holds
          (λ c.
            (c.world.cb_context.stream.fsync_lsn ≤ c.world.cb_context.stream.recvd_lsn)
            × Holds
                (λ d. c.world.cb_context.stream.fsync_lsn ≤ d.world.cb_context.stream.fsync_lsn)
                (main_loop avro libavro decoder server later c))
          (main avro libavro decoder server options left_over rounds)
  unfolding main
  main-flushed options left_over rounds later =
      Holds-map (Flushed 0) _ (main avro libavro decoder server options left_over rounds)
        (λ c g. (
          g.1,
          Holds-map (Flushed c.world.cb_context.stream.fsync_lsn) _
              (main_loop avro libavro decoder server later c) (λ d h. h.0)
              (main_loop-Flushed c.world.cb_context.stream.fsync_lsn later c (omega arith, g.1)),
        ))
        (Holds-after (Flushed 0) (parse_options options left_over default_settings) _
          (started-Flushed rounds))
