-- ===== src/Kafka/Main/Starts.antt =====
-- The assertion of `main` after the start.
use bottledwater_pg.Prelude.{
  ℕ, ◌≡◌, refl, true, false, not, ◌&&◌, List, [], ◌∷◌, ◌==◌, Bool-cases, inl, inr, arith,
}
use bottledwater_pg.Prelude.Run.{running, Holds, Holds-bind, Holds-map}
use bottledwater_pg.Client.Frames.{Avro}
use bottledwater_pg.Client.Postgres.{Server}
use bottledwater_pg.Client.Connect.Snapshot.{db_client_start}
use bottledwater_pg.Client.Connect.Modes.{BeginKeeps, Started, db_client_start-InMode}
use bottledwater_pg.Client.Program.{FrameDecoder}
use bottledwater_pg.Kafka.Json.{Libavro}
use bottledwater_pg.Kafka.Producer.{Context, Poll, xact_list_full, xact_list_empty}
use bottledwater_pg.Kafka.Producer.Callbacks.{wait_for_room, open_xact, on_begin_txn}
use bottledwater_pg.Kafka.Program.{Surroundings, init_client}
use bottledwater_pg.Kafka.Main.{Client, reader, asserted, Round, main_loop, after_start}

module _ {Schema : Type 0} where
  not_full : (c : Context Schema) → xact_list_empty c ≡ true → xact_list_full c ≡ false
  unfolding xact_list_empty xact_list_full
  not_full c empty = ground arith

  -- With an empty buffer there is room at once.
  no_wait :
      (polls : List Poll) (c : Context Schema)
      → xact_list_full c ≡ false
      → wait_for_room polls c ≡ running c
  unfolding wait_for_room
  no_wait [] c room = rw room refl
  no_wait (p ∷ ps) c room = rw room refl

  -- The begin of the snapshot leaves the flag, or ends the program.
  snapshot_begin-taking :
      (polls : List Poll) (lsn : ℕ) (c : Context Schema)
      → Holds (λ x. x.1.taking_snapshot ≡ c.taking_snapshot) (on_begin_txn polls lsn 0 c)
  unfolding on_begin_txn open_xact
  snapshot_begin-taking polls lsn c = elim (Bool-cases ((c.xact_tail == 0) && xact_list_empty c)) [
    | inr other ↦ rw other tt
    | inl first ↦
        let empty : xact_list_empty c ≡ true = ground (arith, first) in
        rw (first, no_wait polls c (not_full c empty)) refl
  ]

module _ (libavro : Libavro) (avro : Avro) (around : Surroundings libavro) (decoder : FrameDecoder)
    (server : Server) where
  producer-BeginKeeps : BeginKeeps (reader libavro avro around decoder server) server
  unfolding init_client
  producer-BeginKeeps lsn w =
      Holds-bind (λ x. x.1.taking_snapshot ≡ w.cb_context.taking_snapshot)
        (λ x. x.1.cb_context.taking_snapshot ≡ w.cb_context.taking_snapshot)
        (on_begin_txn (around.polls w.cb_context) lsn 0 w.cb_context) _
        (snapshot_begin-taking (around.polls w.cb_context) lsn w.cb_context) (λ x same. same)

  -- After a start without an error `main` enters its loop, since its assertion holds: the connection
  -- for the snapshot is open, and the program is taking a snapshot, if and only if the slot was
  -- created and the snapshot is not skipped.
  pub db_client_start-main_loop :
      (rounds : List Round) (c : Client libavro avro around decoder server)
      → Holds
          (λ x.
            x.0 ≡ 0
            → (x.1.sql_conn ≡ (x.1.slot_created && not x.1.skip_snapshot))
              × (x.1.world.cb_context.taking_snapshot ≡ x.1.sql_conn)
              × (after_start libavro avro around decoder server rounds x
                  ≡ main_loop libavro avro around decoder server rounds true x.1))
          (db_client_start (reader libavro avro around decoder server) server c)
  unfolding after_start
  db_client_start-main_loop rounds c =
      Holds-map (Started (reader libavro avro around decoder server) server) _
        (db_client_start (reader libavro avro around decoder server) server c)
        (λ (e, d) mode fine.
          let (open_iff, flag) = mode fine in
          let holds : asserted libavro avro around decoder server d ≡ true =
            ground (arith, open_iff, flag) in
          let no_error : (e == 0) ≡ true = ground (arith, fine) in
          (open_iff, flag, rw (no_error, holds) refl))
        (db_client_start-InMode (reader libavro avro around decoder server) server c
          producer-BeginKeeps)
