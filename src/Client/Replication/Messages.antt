-- ===== src/Client/Replication/Messages.antt =====
-- The standby status update that `send_checkpoint` packs, and when it is sent.
use bottledwater_pg.Prelude.{
  if◌then◌else◌, ◌&&◌, ℕ, ◌+◌, ◌^◌, ◌<◌, ◌≤◌, ◌≡◌, true, ◌∷◌, [], ◌++◌, length, drop, get_or, arith,
  eio,
}
use bottledwater_pg.Client.Bytes.{sendint64, recvint64}
use bottledwater_pg.Client.Stream.{Stream, Outside}
use bottledwater_pg.Client.Replication.{
  checkpoint_message, checkpoint_interval, send_checkpoint, keepalive,
}

-- A status update is 34 bytes: 'r', the received and the flushed position, an invalid third
-- position, the clock, and 0, each number readable where the protocol puts it.
pub checkpoint_message_fields :
    (s : Stream) (now : ℕ)
    → s.recvd_lsn < 2 ^ 64
    → s.fsync_lsn < 2 ^ 64
    → now < 2 ^ 64
    → let m = checkpoint_message s now in
      (length m ≡ 34)
      × (get_or m 0 0 ≡ b'r')
      × (recvint64 (drop 1 m) ≡ s.recvd_lsn)
      × (recvint64 (drop 9 m) ≡ s.fsync_lsn)
      × (recvint64 (drop 17 m) ≡ 0)
      × (recvint64 (drop 25 m) ≡ now)
      × (get_or m 33 1 ≡ 0)
unfolding checkpoint_message sendint64 recvint64
checkpoint_message_fields s now hr hf hn = omega arith

-- Once a position is known and the last update is older than the interval, `keepalive` hands libpq
-- one status update; if that is sent, no call within the next interval sends another.
keepalive_rate :
    (o o' : Outside) (s : Stream)
    → o.copied ≡ true
    → o.flushed ≡ true
    → 0 < s.recvd_lsn
    → s.last_checkpoint + checkpoint_interval < o.now
    → o'.now ≤ o.now + checkpoint_interval
    → let s' = (keepalive o s).1 in
      ((keepalive o s).0 ≡ 0)
      × (s'.wire ≡ s.wire ++ (checkpoint_message s o.now ∷ []))
      × (keepalive o' s' ≡ (0, s'))
unfolding keepalive send_checkpoint
keepalive_rate o o' s hc hf p q r = (ground arith, ground arith, ground arith)

-- Whatever it finds, a status update leaves both positions and the status as they are; it succeeds,
-- and sets the time of the last update, only if libpq took and sent the message, and is an I/O error
-- that leaves that time otherwise.
pub send_checkpoint_keeps :
    (o : Outside) (s : Stream)
    → let (e, s') = send_checkpoint o s in
      (s'.recvd_lsn ≡ s.recvd_lsn)
      × (s'.fsync_lsn ≡ s.fsync_lsn)
      × (s'.status ≡ s.status)
      × (e ≡ (if o.copied && o.flushed then 0 else eio))
      × (s'.last_checkpoint ≡ (if o.copied && o.flushed then o.now else s.last_checkpoint))
unfolding send_checkpoint
send_checkpoint_keeps o s = (ground arith, ground arith, ground arith, ground arith, ground arith)
