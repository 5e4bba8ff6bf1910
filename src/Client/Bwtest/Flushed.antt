-- ===== src/Client/Bwtest/Flushed.antt =====
-- The positions of client/bwtest.c: the flushed position, which each event moves, and the received.
use bottledwater_pg.Prelude.{
  ℕ, ◌+◌, ◌≤◌, ◌≡◌, Option, none, some, List, ◌==◌, max, length, ltb, drop, get_or, Result, ok, err,
  Bool-cases, inl, inr, arith,
}
use bottledwater_pg.Prelude.Int.{pos}
use bottledwater_pg.Prelude.Run.{Run, Holds, Holds-bind}
use bottledwater_pg.Client.Bytes.{recvint64}
use bottledwater_pg.Client.Stream.{Stream, Outside}
use bottledwater_pg.Client.Replication.{
  Reader, Copy, set_status, receive, acknowledge, send_checkpoint, keepalive, with_checkpoint,
  settle_keepalive, parse_keepalive_message, parse_xlogdata_message, replication_stream_keepalive,
  dispatch, then_keepalive, replication_stream_poll,
}
use bottledwater_pg.Client.Frames.{Message, Avro, State}
use bottledwater_pg.Client.Process.{handle_keepalive}
use bottledwater_pg.Client.Process.Keeps.{AllKeep, handle-keeps, process_frame-keeps}
use bottledwater_pg.Client.Program.{FrameDecoder, after_read, parse_frame, stream_reader}
use bottledwater_pg.Client.Bwtest.{
  TestContext, Rendering, checkpoint, checked, checked_if, print_begin_txn, print_commit_txn,
  print_table_schema, print_insert_row, print_update_row, print_delete_row, init_client,
  test_client,
}

-- Within a frame at `wal_pos`: at least `f` is flushed, at most the frame's position or the received
-- position `b`, which stays.
abbrev pub Between : ℕ → ℕ → ℕ → TestContext → Type 0
Between f b wal_pos c =
    (f ≤ c.stream.fsync_lsn) × (c.stream.fsync_lsn ≤ max wal_pos b) × (c.stream.recvd_lsn ≡ b)

abbrev After : ℕ → ℕ → ℕ → ℕ × TestContext → Type 0
After f b wal_pos x = Between f b wal_pos x.1

module _ (libavro : Rendering) (f b wal_pos : ℕ) where
  checked-Between :
      (json : Result (List ℕ)) (c : TestContext) (next : List ℕ → Run (ℕ × TestContext))
      → Between f b wal_pos c
      → ((text : List ℕ) → Holds (After f b wal_pos) (next text))
      → Holds (After f b wal_pos) (checked libavro json c next)
  checked-Between (ok text) c next p k = k text
  checked-Between (err e) c next p k = p

  checked_if-Between :
      (bin : Option (List ℕ)) (to_json : List ℕ → Result (List ℕ)) (c : TestContext)
      (next : Option (List ℕ) → Run (ℕ × TestContext))
      → Between f b wal_pos c
      → ((text : Option (List ℕ)) → Holds (After f b wal_pos) (next text))
      → Holds (After f b wal_pos) (checked_if libavro bin to_json c next)
  checked_if-Between none to_json c next p k = k none
  checked_if-Between (some bin) to_json c next p k =
      checked-Between (to_json bin) c _ p (λ text. k (some text))

  moved-Between :
      (c : TestContext) → Between f b wal_pos c → Between f b wal_pos (checkpoint wal_pos c)
  unfolding checkpoint
  moved-Between c p = ground arith

  prints-keep : AllKeep (Between f b wal_pos) (init_client libavro) wal_pos
  unfolding init_client print_begin_txn print_commit_txn print_table_schema print_insert_row
      print_update_row print_delete_row
  prints-keep = record {
    begins = λ xid c p. elim (Bool-cases (xid == 0)) [
      | inl snapshot ↦ rw snapshot p
      | inr streamed ↦ rw streamed (ground arith)
    ];
    commits = λ xid c p. elim (Bool-cases (xid == 0)) [
      | inl snapshot ↦ rw snapshot p
      | inr streamed ↦ rw streamed (ground arith)
    ];
    describes = λ relid key row c p. p;
    inserts = λ relid key new c p.
        checked-Between (libavro.row_to_json relid new) c _ p (λ new_json.
          checked_if-Between key (libavro.key_to_json relid) c _ p (λ key_json. ground arith));
    updates = λ relid key old new c p.
        checked-Between (libavro.row_to_json relid new) c _ p (λ new_json.
          checked_if-Between old (libavro.row_to_json relid) c _ p (λ old_json.
            checked_if-Between key (libavro.key_to_json relid) c _ p (λ key_json. ground arith)));
    deletes = λ relid key old c p.
        checked_if-Between key (libavro.key_to_json relid) c _ p (λ key_json.
          checked_if-Between old (libavro.row_to_json relid) c _ p (λ old_json. ground arith));
    handles = λ e. tt;
  }

-- At least `f` is flushed, and no more than was received.
abbrev pub Good : ℕ → Stream → Type 0
Good f s = (f ≤ s.fsync_lsn) × (s.fsync_lsn ≤ s.recvd_lsn)

send_checkpoint-Good :
    (f : ℕ) (o : Outside) (s : Stream) → Good f s → Good f (send_checkpoint o s).1
unfolding send_checkpoint
send_checkpoint-Good f o s g = ground (arith, g)

keepalive-Good : (f : ℕ) (o : Outside) (s : Stream) → Good f s → Good f (keepalive o s).1
unfolding keepalive
keepalive-Good f o s g = ground (arith, g, send_checkpoint-Good f o s)

module _ (avro : Avro) (libavro : Rendering) (decoder : FrameDecoder) where
  abbrev program : Reader (State avro (init_client libavro))
  program = stream_reader avro (init_client libavro) decoder test_client

  abbrev World : Type 0
  World = State avro (init_client libavro)

  abbrev pub GoodAt : ℕ → World → Type 0
  GoodAt f w = Good f w.cb_context.stream

  pub after_read-Between :
      (f b wal_pos : ℕ) (read : Result {0} Unit) (ms : List Message) (w : World)
      → Between f b wal_pos w.cb_context
      → Holds
          (λ x. Between f b wal_pos x.1.cb_context)
          (after_read avro (init_client libavro) decoder test_client read wal_pos ms w)
  after_read-Between f b wal_pos (ok u) ms w p =
      process_frame-keeps avro (init_client libavro) (Between f b wal_pos) wal_pos
        (prints-keep libavro f b wal_pos) ms w p
  after_read-Between f b wal_pos (err e) ms w p =
      Holds-bind (λ x. Between f b wal_pos x.1.cb_context) (λ x. Between f b wal_pos x.1.cb_context)
        _ _
        (handle-keeps avro (init_client libavro) (Between f b wal_pos) wal_pos
          (prints-keep libavro f b wal_pos) e w p)
        (λ (e', w') q. elim (Bool-cases (e' == 0)) [
          | inl fine ↦ rw fine (
              process_frame-keeps avro (init_client libavro) (Between f b wal_pos) wal_pos
                (prints-keep libavro f b wal_pos) ms w' q)
          | inr failed ↦ rw failed q
        ])

  xlogdata-Good :
      (f : ℕ) (buf : List ℕ) (w : World)
      → GoodAt f w
      → Holds (λ x. GoodAt f x.1) (parse_xlogdata_message program buf w)
  unfolding parse_xlogdata_message parse_frame receive
  xlogdata-Good f buf w g = elim (Bool-cases (ltb (length buf) (25 + 1))) [
    | inl short ↦ rw short g
    | inr long ↦
        let wal_pos = recvint64 (drop 1 buf) in
        let b = w.cb_context.stream.recvd_lsn in
        rw long (
          Holds-bind {A = ℕ × World} {B = ℕ × World} (λ x. Between f b wal_pos x.1.cb_context)
            (λ x. GoodAt f x.1) (program.parse_frame wal_pos (drop 25 buf) w) _
            (after_read-Between f b wal_pos _ (decoder.messages (drop 25 buf)) w
              (ground (arith, g)))
            (λ x p. ground (arith, p)))
  ]

  settled-Good :
      (f wal_pos e : ℕ) (w : World)
      → GoodAt f w
      → wal_pos ≤ w.cb_context.stream.recvd_lsn
      → GoodAt f (settle_keepalive program wal_pos e w).1
  unfolding settle_keepalive acknowledge
  settled-Good f wal_pos e w g h = ground (arith, g, h)

  keepalive_message-Good :
      (f : ℕ) (o : Outside) (buf : List ℕ) (w : World)
      → GoodAt f w
      → GoodAt f (parse_keepalive_message program o buf w).1
  unfolding parse_keepalive_message receive with_checkpoint
  keepalive_message-Good f o buf w g = elim (Bool-cases (ltb (length buf) (1 + 8 + 8 + 1))) [
    | inl short ↦ rw short g
    | inr long ↦
        let wal_pos = recvint64 (drop 1 buf) in
        let received : World = receive program wal_pos w in
        let settled =
          settled-Good f wal_pos (handle_keepalive avro (init_client libavro) wal_pos received)
            received (ground (arith, g)) (omega arith) in
        elim (Bool-cases (get_or buf 17 0 == 0)) [
          | inl unasked ↦ rw (long, unasked) settled
          | inr asked ↦ rw (long, asked) (send_checkpoint-Good f o _ settled)
        ]
  ]

  dispatch-Good :
      (f : ℕ) (o : Outside) (buf : List ℕ) (w : World)
      → GoodAt f w
      → Holds (λ x. GoodAt f x.1) (dispatch program o buf w)
  unfolding dispatch
  dispatch-Good f o buf w g = elim (Bool-cases (get_or buf 0 0 == b'k')) [
    | inl alive ↦ rw alive (keepalive_message-Good f o buf w g)
    | inr other ↦ elim (Bool-cases (get_or buf 0 0 == b'w')) [
      | inl frame ↦ rw (other, frame) (xlogdata-Good f buf w g)
      | inr unknown ↦ rw (other, unknown) g
    ]
  ]

  then_keepalive-Good :
      (f : ℕ) (o : Outside) (x : ℕ × World) → GoodAt f x.1 → GoodAt f (then_keepalive program o x).1
  unfolding then_keepalive replication_stream_keepalive
  then_keepalive-Good f o (e, w) g = elim (Bool-cases (e == 0)) [
    | inl fine ↦ rw fine (keepalive-Good f o w.cb_context.stream g)
    | inr failed ↦ rw failed g
  ]

  -- In the test client, whatever a poll of the stream meets, also if it ends with an error: the
  -- flushed position never moves back, and stays at or before the received position, if it was there.
  pub poll-flushed :
      (o : Outside) (copy : Copy) (w : World)
      → w.cb_context.stream.fsync_lsn ≤ w.cb_context.stream.recvd_lsn
      → Holds
          (λ x.
            (w.cb_context.stream.fsync_lsn ≤ x.1.cb_context.stream.fsync_lsn)
            × (x.1.cb_context.stream.fsync_lsn ≤ x.1.cb_context.stream.recvd_lsn))
          (replication_stream_poll program o copy w)
  unfolding replication_stream_poll set_status
  poll-flushed o (Copy.end_of_copy finished) w h = (omega arith, h)
  poll-flushed o (Copy.copy_failed n) w h = (omega arith, h)
  poll-flushed o Copy.no_message w h =
      then_keepalive-Good _ o (0, set_status program (pos 0) w) (omega arith, h)
  poll-flushed o (Copy.message buf) w h =
      let f = w.cb_context.stream.fsync_lsn in
      Holds-bind (λ x. GoodAt f x.1) (λ x. GoodAt f x.1)
        (dispatch program o buf (set_status program (pos 1) w)) _
        (dispatch-Good f o buf (set_status program (pos 1) w) (omega arith, h))
        (λ x g. then_keepalive-Good f o x g)
