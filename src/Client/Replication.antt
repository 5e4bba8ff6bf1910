-- ===== src/Client/Replication.antt =====
-- client/replication.c: the messages of a replication stream, over a program state `W` that holds
-- the stream and the frame reader with its callbacks.
pub mod Messages
pub mod Positions
pub mod Keeps
use bottledwater_pg.Prelude.{
  ℕ, ◌+◌, ◌*◌, ◌/◌, ◌%◌, ◌^◌, ◌≡◌, Bool, true, false, not, ◌&&◌, ◌||◌, List, [], ◌∷◌, ◌++◌, ltb,
  leb, ◌==◌, if◌then◌else◌, max, length, drop, get_or, eio, ebusy,
}
use bottledwater_pg.Prelude.Int.{ℤ, pos, negsuc}
use bottledwater_pg.Prelude.Run.{Run, running, ◌>>=◌}
use bottledwater_pg.Client.Bytes.{sendint64, recvint64}
use bottledwater_pg.Client.Stream.{Stream, Outside}

-- CHECKPOINT_INTERVAL_SEC * USECS_PER_SEC
abbrev pub checkpoint_interval : ℕ
checkpoint_interval = 10 * 1000000

-- InvalidXLogRecPtr
abbrev pub invalid_lsn : ℕ
invalid_lsn = 0

-- FRAME_READER_SYNC_PENDING
abbrev pub sync_pending : ℕ
sync_pending = ebusy

-- The message that `send_checkpoint` packs.
unfoldable pub checkpoint_message : Stream → ℕ → List ℕ
checkpoint_message s now =
    b'r'
    ∷ (sendint64 s.recvd_lsn
        ++ (sendint64 s.fsync_lsn ++ (sendint64 invalid_lsn ++ (sendint64 now ++ (0 ∷ [])))))

-- The error number, and the stream after the call.
unfoldable pub send_checkpoint : Outside → Stream → ℕ × Stream
send_checkpoint o s =
    let sent : Stream =
      if o.copied then record s { wire = s.wire ++ (checkpoint_message s o.now ∷ []) } else s in
    if o.copied && o.flushed then (0, record sent { last_checkpoint = o.now }) else (eio, sent)

-- `now - last_checkpoint > interval`, for times that do not overflow an `int64`.
unfoldable pub keepalive : Outside → Stream → ℕ × Stream
keepalive o s =
    if not (s.recvd_lsn == invalid_lsn) && ltb (s.last_checkpoint + checkpoint_interval) o.now
    then send_checkpoint o s
    else (0, s)

-- The frame reader of a program: `parse_frame` and `handle_keepalive` run its callbacks, which may
-- change the whole state, and may exit.
pub record Reader (W : Type 0) : Type 0 where
  pub stream : W → Stream
  pub with_stream : Stream → W → W
  pub parse_frame : ℕ → List ℕ → W → Run (ℕ × W)
  pub handle_keepalive : ℕ → W → ℕ
  pub stream_with : (s : Stream) (w : W) → stream (with_stream s w) ≡ s

-- What `PQgetCopyData` returns: a message, 0, -1 (with the command status that `PQgetResult` then
-- reports), or another negative number, -(n + 2).
pub data Copy : Type 0 where
  message : List ℕ → Copy
  no_message : Copy
  end_of_copy : Bool → Copy
  copy_failed : ℕ → Copy

module _ {W : Type 0} (r : Reader W) where
  open r use {stream, with_stream, parse_frame, handle_keepalive}

  unfoldable pub set_status : ℤ → W → W
  set_status i w = with_stream (record (stream w) { status = i }) w

  -- Max(wal_pos, recvd_lsn)
  unfoldable pub receive : ℕ → W → W
  receive wal_pos w =
      let s = stream w in with_stream (record s { recvd_lsn = max wal_pos s.recvd_lsn }) w

  unfoldable pub acknowledge : ℕ → W → W
  acknowledge wal_pos w =
      let s = stream w in with_stream (record s { fsync_lsn = max wal_pos s.recvd_lsn }) w

  unfoldable pub with_checkpoint : Outside → W → ℕ × W
  unfolding send_checkpoint
  with_checkpoint o w = let (e, s) = send_checkpoint o (stream w) in (e, with_stream s w)

  -- What the result of `handle_keepalive` means: the error to go on with, and the state.
  unfoldable pub settle_keepalive : ℕ → ℕ → W → ℕ × W
  unfolding acknowledge
  settle_keepalive wal_pos e w =
      if e == sync_pending then (0, w) else if e == 0 then (0, acknowledge wal_pos w) else (e, w)

  unfoldable pub parse_keepalive_message : Outside → List ℕ → W → ℕ × W
  unfolding receive settle_keepalive with_checkpoint
  parse_keepalive_message o buf w =
      if ltb (length buf) (1 + 8 + 8 + 1)
      then (eio, w)
      else let wal_pos = recvint64 (drop 1 buf) in
        let reply_requested = not (get_or buf 17 0 == 0) in
        let received = receive wal_pos w in
        let (e, w') = settle_keepalive wal_pos (handle_keepalive wal_pos received) received in
        if reply_requested then with_checkpoint o w' else (e, w')

  unfoldable pub parse_xlogdata_message : List ℕ → W → Run (ℕ × W)
  unfolding receive
  parse_xlogdata_message buf w = if ltb (length buf) (25 + 1) then running (eio, w) else do
    let wal_pos = recvint64 (drop 1 buf)
    (e, w') ← parse_frame wal_pos (drop 25 buf) w
    running (e, receive wal_pos w')

  unfoldable pub replication_stream_keepalive : Outside → W → ℕ × W
  unfolding keepalive
  replication_stream_keepalive o w = let (e, s) = keepalive o (stream w) in (e, with_stream s w)

  -- The `switch` on the message type.
  unfoldable pub dispatch : Outside → List ℕ → W → Run (ℕ × W)
  unfolding parse_keepalive_message parse_xlogdata_message
  dispatch o buf w =
      if get_or buf 0 0 == b'k'
      then running (parse_keepalive_message o buf w)
      else if get_or buf 0 0 == b'w'
      then parse_xlogdata_message buf w
      else running (eio, w)

  -- `if (!err) err = replication_stream_keepalive(stream)`
  unfoldable pub then_keepalive : Outside → ℕ × W → ℕ × W
  unfolding replication_stream_keepalive
  then_keepalive o (e, w) = if e == 0 then replication_stream_keepalive o w else (e, w)

  unfoldable pub replication_stream_poll : Outside → Copy → W → Run (ℕ × W)
  unfolding set_status dispatch then_keepalive
  replication_stream_poll o (end_of_copy finished) w =
      running (if finished then 0 else eio, set_status (negsuc 0) w)
  replication_stream_poll o (copy_failed n) w = running (eio, set_status (negsuc (n + 1)) w)
  replication_stream_poll o no_message w = running (then_keepalive o (0, set_status (pos 0) w))
  replication_stream_poll o (message buf) w = do
    handled ← dispatch o buf (set_status (pos 1) w)
    running (then_keepalive o handled)
