-- ===== src/Client/Tests.antt =====
-- Each of the results of Client at one input.
use bottledwater_pg.Prelude.{
  ℕ, ◌+◌, ◌≤◌, ◌≡◌, refl, true, none, some, List, [], ◌∷◌, length, drop, get_or, max, ◌==◌,
  if◌then◌else◌, ok, arith,
}
use bottledwater_pg.Prelude.Int.{pos}
use bottledwater_pg.Prelude.Run.{running}
use bottledwater_pg.Client.Bytes.{recvint64}
use bottledwater_pg.Client.Stream.{Stream, Outside}
use bottledwater_pg.Client.Replication.{
  checkpoint_message, keepalive, Reader, Copy, receive, parse_keepalive_message,
  replication_stream_poll, then_keepalive, replication_stream_keepalive, set_status,
}
use bottledwater_pg.Client.Replication.Messages.{checkpoint_message_fields}
use bottledwater_pg.Client.Replication.Positions.{parse_keepalive_positions, poll_recvd_mono}
use bottledwater_pg.Client.Frames.{
  Message, Avro, Callbacks, schema_list_replace, check_handle, called, read_entirely, State,
}
use bottledwater_pg.Client.Frames.Schemas.{Fits, replace-Fits}
use bottledwater_pg.Client.Process.{process_frame_insert, option_map}
use bottledwater_pg.Client.Process.Rows.{process_frame_insert-replace}

abbrev stream_at : ℕ → Stream
stream_at p = record {
  start_lsn = 0;
  recvd_lsn = p;
  fsync_lsn = 2;
  last_checkpoint = 0;
  status = pos 0;
  wire = [];
}

abbrev at_time : ℕ → Outside
at_time t = record { now = t; copied = true; flushed = true }

checkpoint_message_fields_example :
    let m = checkpoint_message (stream_at 5) 9 in
    (length m ≡ 34)
    × (get_or m 0 0 ≡ b'r')
    × (recvint64 (drop 1 m) ≡ 5)
    × (recvint64 (drop 9 m) ≡ 2)
    × (recvint64 (drop 17 m) ≡ 0)
    × (recvint64 (drop 25 m) ≡ 9)
    × (get_or m 33 1 ≡ 0)
checkpoint_message_fields_example =
    checkpoint_message_fields (stream_at 5) 9 (omega arith) (omega arith) (omega arith)

-- A program that is a stream, takes every frame and has no transaction pending.
abbrev program : Reader Stream
program = record {
  stream = λ w. w;
  with_stream = λ s w. s;
  parse_frame = λ p buf w. running (0, w);
  handle_keepalive = λ p w. 0;
  stream_with = λ s w. refl;
}

-- A keepalive message from position 7, which asks for no reply.
abbrev keepalive_7 : List ℕ
keepalive_7 = b'k' ∷ 0 ∷ 0 ∷ 0 ∷ 0 ∷ 0 ∷ 0 ∷ 0 ∷ 7 ∷ 0 ∷ 0 ∷ 0 ∷ 0 ∷ 0 ∷ 0 ∷ 0 ∷ 0 ∷ 0 ∷ []

parse_keepalive_positions_example :
    let p = recvint64 (drop 1 keepalive_7) in
    let w' = (parse_keepalive_message program (at_time 3) keepalive_7 (stream_at 5)).1 in
    (w'.recvd_lsn ≡ max p 5)
    × (w'.fsync_lsn ≡ (
        if program.handle_keepalive p (receive program p (stream_at 5)) == 0 then max p 5 else 2))
parse_keepalive_positions_example =
    parse_keepalive_positions program (at_time 3) keepalive_7 (stream_at 5) (omega arith)

abbrev polled : Stream
polled = record (stream_at 5) { status = pos 0 }

polls_nothing :
    replication_stream_poll program (at_time 3) Copy.no_message (stream_at 5) ≡ running (0, polled)
unfolding replication_stream_poll then_keepalive replication_stream_keepalive set_status keepalive
polls_nothing = refl

parse_frame_keeps :
    (p : ℕ) (buf : List ℕ) (v : Stream) (e : ℕ) (v' : Stream)
    → program.parse_frame p buf v ≡ running (e, v')
    → v'.recvd_lsn ≡ v.recvd_lsn
parse_frame_keeps p buf v e v' h = ground arith

poll_recvd_mono_example : (stream_at 5).recvd_lsn ≤ polled.recvd_lsn
poll_recvd_mono_example =
    poll_recvd_mono program parse_frame_keeps (at_time 3) Copy.no_message (stream_at 5) 0 polled
      polls_nothing

-- Schemas without content, of which a value is any buffer.
abbrev avro : Avro
avro = record { Schema = Unit; schema_from_json = λ json. ok tt; value_read = λ s buf. ok [] }

-- A program that counts the inserted rows.
abbrev counting : Callbacks ℕ
counting = record {
  on_begin_txn = none;
  on_commit_txn = none;
  on_table_schema = none;
  on_insert_row = some (λ wal_pos relid key new n. running (0, n + 1));
  on_update_row = none;
  on_delete_row = none;
  on_keepalive = none;
  on_error = none;
}

abbrev reader : State avro counting
reader = record { schemas = []; capacity = 16; active_schema_list = 16 ∷ []; cb_context = 0 }

abbrev bytes : List ℕ
bytes = 1 ∷ []

replace-Fits_example : Fits (schema_list_replace 16 (λ old. none) tt reader)
replace-Fits_example =
    replace-Fits 16 (λ old. none) tt reader (omega arith) (omega arith, omega arith, omega arith)

abbrev row : List Message
row = Message.insert 16 none bytes ∷ []

abbrev described : List Message
described = Message.table_schema 16 none bytes ∷ []

process_frame_insert-replace_example :
    let r' = schema_list_replace 16 (λ old. some tt) tt reader in
    process_frame_insert avro counting 3 16 (some bytes) bytes r'
    ≡ check_handle avro counting (
        called avro counting r'
          (option_map (λ f. f 3 16 (some bytes) bytes) counting.on_insert_row))
unfolding read_entirely
process_frame_insert-replace_example =
    process_frame_insert-replace avro counting 3 16 bytes bytes tt tt reader (omega arith) refl refl
      refl
