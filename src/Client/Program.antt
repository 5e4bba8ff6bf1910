-- ===== src/Client/Program.antt =====
-- client/protocol_client.c: `parse_frame`, and the frame reader as the stream and the snapshot use it.
use bottledwater_pg.Prelude.{
  ℕ, Bool, ◌≡◌, refl, List, [], ◌∷◌, ◌++◌, ◌==◌, if◌then◌else◌, Result, ok, err,
}
use bottledwater_pg.Prelude.Run.{Run, running, exited, waiting, ◌>>=◌}
use bottledwater_pg.Client.Stream.{Stream}
use bottledwater_pg.Client.Replication.{Reader}
use bottledwater_pg.Client.Frames.{
  Message, Avro, Callbacks, State, on_context, frame_reader_handle, consumed,
}
use bottledwater_pg.Client.Process.{process_frame, handle_keepalive, option_map}
use bottledwater_pg.Client.Process.Rows.{rest_of, process_frame-append}
use bottledwater_pg.Client.Postgres.{Server}
use bottledwater_pg.Client.Connect.{SnapshotReader}
use bottledwater_pg.Client.Connect.Polls.{read_frames}

-- `avro_value_read` of a frame: the bytes that it leaves, and the messages that the frame's value
-- holds after it, also if it failed.
pub record FrameDecoder : Type 0 where
  pub frame_read : List ℕ → Result (List ℕ)
  pub messages : List ℕ → List Message

-- Where the state of a program holds the stream, and the flag that a snapshot is being taken.
pub record HoldsClient (Ctx : Type 0) : Type 0 where
  pub stream_of : Ctx → Stream
  pub set_stream : Stream → Ctx → Ctx
  pub stream_of_set : (s : Stream) (c : Ctx) → stream_of (set_stream s c) ≡ s
  pub taking_snapshot_of : Ctx → Bool
  pub set_taking_snapshot : Bool → Ctx → Ctx
  pub taking_snapshot_of_set :
      (b : Bool) (c : Ctx) → taking_snapshot_of (set_taking_snapshot b c) ≡ b

module _ (avro : Avro) {Ctx : Type 0} (cb : Callbacks Ctx) (decoder : FrameDecoder)
    (holder : HoldsClient Ctx) where
  abbrev pub frame_whole : Result (List ℕ) → Result {0} Unit
  frame_whole (ok left) = consumed avro cb left
  frame_whole (err e) = err e

  abbrev pub after_read :
      Result {0} Unit → ℕ → List Message → State avro cb → Run (ℕ × State avro cb)
  after_read (ok u) wal_pos ms r = process_frame avro cb wal_pos ms r
  after_read (err e) wal_pos ms r = do
    (e', r') ← frame_reader_handle avro cb e r
    (let rest = process_frame avro cb wal_pos ms r' in if e' == 0 then rest else running (e', r'))

  unfoldable pub parse_frame : ℕ → List ℕ → State avro cb → Run (ℕ × State avro cb)
  parse_frame wal_pos buf r =
      after_read (frame_whole (decoder.frame_read buf)) wal_pos (decoder.messages buf) r

  abbrev pub stream_reader : Reader (State avro cb)
  stream_reader = record {
    stream = λ r. holder.stream_of r.cb_context;
    with_stream = λ s r. record r { cb_context = holder.set_stream s r.cb_context };
    parse_frame = λ wal_pos buf r. parse_frame wal_pos buf r;
    handle_keepalive = λ wal_pos r. handle_keepalive avro cb wal_pos r;
    stream_with = λ s r. holder.stream_of_set s r.cb_context;
  }

  -- The list of active tables is replaced.
  abbrev pub snapshot_reader : SnapshotReader (State avro cb)
  snapshot_reader = record {
    reader = stream_reader;
    begin_txn = option_map (λ f. λ lsn xid r. on_context avro cb r (f lsn xid)) cb.on_begin_txn;
    commit_txn = option_map (λ f. λ lsn xid r. on_context avro cb r (f lsn xid)) cb.on_commit_txn;
    set_active_schemas = λ relids r. record r { active_schema_list = relids };
    taking_snapshot = λ r. holder.taking_snapshot_of r.cb_context;
    set_taking_snapshot =
        λ b r. record r { cb_context = holder.set_taking_snapshot b r.cb_context };
    taking_snapshot_set = λ b r. holder.taking_snapshot_of_set b r.cb_context;
  }

  -- The messages of frames, one after the other.
  abbrev pub all_messages : List (List ℕ) → List Message
  all_messages [] = []
  all_messages (buf ∷ bufs) = decoder.messages buf ++ all_messages bufs

  -- Frames that are read without an error and without rest.
  pub data Whole : List (List ℕ) → Type 0 where
    no_frame : Whole []
    whole_frame :
        {buf : List ℕ} {bufs : List (List ℕ)}
        → decoder.frame_read buf ≡ ok []
        → Whole bufs
        → Whole (buf ∷ bufs)

  module _ (server : Server) where
    next_frames :
        (bufs : List (List ℕ)) (m : Run (ℕ × State avro cb))
        → ((r : State avro cb)
            → read_frames snapshot_reader server bufs r
              ≡ process_frame avro cb 0 (all_messages bufs) r)
        → (m >>= λ x.
            if x.0 == 0 then read_frames snapshot_reader server bufs x.1 else running (x.0, x.1))
          ≡ (m >>= rest_of avro cb 0 (all_messages bufs))
    next_frames bufs (running (e, r)) ih = rw (ih r) refl
    next_frames bufs (exited e) ih = refl
    next_frames bufs waiting ih = refl

    -- The frames of a snapshot, each of which is read whole, leave what one frame with all their
    -- messages leaves.
    read_frames-process_frame :
        (bufs : List (List ℕ)) (r : State avro cb)
        → Whole bufs
        → read_frames snapshot_reader server bufs r ≡ process_frame avro cb 0 (all_messages bufs) r
    unfolding read_frames process_frame parse_frame consumed
    read_frames-process_frame _ r no_frame = refl
    read_frames-process_frame _ r (whole_frame {buf = buf} {bufs = bufs} whole later) =
        rw
          (
            whole,
            next_frames bufs (process_frame avro cb 0 (decoder.messages buf) r)
                (λ r'. read_frames-process_frame bufs r' later),
            process_frame-append avro cb 0 (decoder.messages buf) (all_messages bufs) r,
          )
          refl
