-- ===== src/Client/Replication/Keeps.antt =====
-- What the stream's own operations keep: all that does not look at the stream.
use bottledwater_pg.Prelude.{
  ℕ, ◌+◌, ◌≡◌, false, not, if◌then◌else◌, Option, none, some, List, length, ltb, drop, get_or, ◌==◌,
  Bool-cases, inl, inr, arith,
}
use bottledwater_pg.Prelude.Int.{pos}
use bottledwater_pg.Prelude.Run.{Holds, Holds-bind}
use bottledwater_pg.Client.Bytes.{recvint64}
use bottledwater_pg.Client.Stream.{Stream, Outside}
use bottledwater_pg.Client.Replication.{
  Reader, Copy, sync_pending, set_status, receive, acknowledge, with_checkpoint, settle_keepalive,
  parse_keepalive_message, parse_xlogdata_message, replication_stream_keepalive, dispatch,
  then_keepalive, replication_stream_poll,
}

-- The frame that a message of the stream brings, if it brings one, with its position.
abbrev pub frame_of : Copy → Option (ℕ × List ℕ)
frame_of (Copy.message buf) =
    if get_or buf 0 0 == b'k'
    then none
    else if not (get_or buf 0 0 == b'w')
    then none
    else if ltb (length buf) (25 + 1)
    then none
    else some (recvint64 (drop 1 buf), drop 25 buf)
frame_of _ = none

module _ {W : Type 0} (r : Reader W) where
  open r use {stream, with_stream, parse_frame, handle_keepalive}

  module _ (P : W → Type 0) (streams : (s : Stream) (w : W) → P w → P (with_stream s w)) where
    settle_keepalive-keeps : (wal_pos e : ℕ) (w : W) → P w → P (settle_keepalive r wal_pos e w).1
    unfolding settle_keepalive acknowledge
    settle_keepalive-keeps wal_pos e w p = elim (Bool-cases (e == sync_pending)) [
      | inl pending ↦ rw pending p
      | inr other ↦ elim (Bool-cases (e == 0)) [
        | inl done ↦ rw (other, done) (streams _ w p)
        | inr failed ↦ rw (other, failed) p
      ]
    ]

    with_checkpoint-keeps : (o : Outside) (w : W) → P w → P (with_checkpoint r o w).1
    unfolding with_checkpoint
    with_checkpoint-keeps o w p = streams _ w p

    parse_keepalive_message-keeps :
        (o : Outside) (buf : List ℕ) (w : W) → P w → P (parse_keepalive_message r o buf w).1
    unfolding parse_keepalive_message receive
    parse_keepalive_message-keeps o buf w p = elim (Bool-cases (ltb (length buf) (1 + 8 + 8 + 1))) [
      | inl short ↦ rw short p
      | inr long ↦
          let wal_pos = recvint64 (drop 1 buf) in
          let settled =
            settle_keepalive-keeps wal_pos (handle_keepalive wal_pos (receive r wal_pos w))
              (receive r wal_pos w) (streams _ w p) in
          elim (Bool-cases (get_or buf 17 0 == 0)) [
            | inl unasked ↦ rw (long, unasked) settled
            | inr asked ↦ rw (long, asked) (with_checkpoint-keeps o _ settled)
          ]
    ]

    then_keepalive-keeps :
        (o : Outside) (x : ℕ × W)
        → (x.0 ≡ 0 → P x.1)
        → (then_keepalive r o x).0 ≡ 0
        → P (then_keepalive r o x).1
    unfolding then_keepalive replication_stream_keepalive
    then_keepalive-keeps o (e, w) p = elim (Bool-cases (e == 0)) [
      | inl fine ↦ rw fine (λ h. streams _ w (p (ground (arith, fine))))
      | inr failed ↦ rw failed (λ h. absurd (ground (arith, failed)))
    ]

  module _ (P Q : W → Type 0) (streams : (s : Stream) (w : W) → P w → P (with_stream s w))
      (streams' : (s : Stream) (w : W) → Q w → Q (with_stream s w)) where
    -- What holds after a call that ends without an error.
    abbrev Fine : ℕ × W → Type 0
    Fine x = x.0 ≡ 0 → Q x.1

    -- The frame, or its absence, takes `P` to `Q`.
    abbrev pub Leads : Option (ℕ × List ℕ) → Type 0
    Leads none = (w : W) → P w → Q w
    Leads (some (wal_pos, frame)) = (w : W) → P w → Holds Fine (parse_frame wal_pos frame w)

    xlogdata-keeps :
        (buf : List ℕ) (w : W)
        → (ltb (length buf) (25 + 1) ≡ false
            → Holds Fine (parse_frame (recvint64 (drop 1 buf)) (drop 25 buf) w))
        → Holds Fine (parse_xlogdata_message r buf w)
    unfolding parse_xlogdata_message receive
    xlogdata-keeps buf w framed = elim (Bool-cases (ltb (length buf) (25 + 1))) [
      | inl short ↦ rw short (λ h. absurd (ground arith))
      | inr long ↦ rw long (
          Holds-bind Fine Fine (parse_frame (recvint64 (drop 1 buf)) (drop 25 buf) w) _
            (framed long) (λ (e, w') q h. streams' _ w' (q h)))
    ]

    dispatch-keeps :
        (o : Outside) (buf : List ℕ) (w : W)
        → Leads (frame_of (Copy.message buf))
        → P w
        → Holds Fine (dispatch r o buf w)
    unfolding dispatch
    dispatch-keeps o buf w leads p = elim (Bool-cases (get_or buf 0 0 == b'k')) [
      | inl alive ↦
          let led = rw alive at leads in
          rw alive (λ h. led _ (parse_keepalive_message-keeps P streams o buf w p))
      | inr other ↦ elim (Bool-cases (get_or buf 0 0 == b'w')) [
        | inr unknown ↦ rw (other, unknown) (λ h. absurd (ground arith))
        | inl frame ↦
            rw (other, frame)
              (xlogdata-keeps buf w (λ long. (rw (other, frame, long) at leads) w p))
      ]
    ]

    pub poll-keeps :
        (o : Outside) (copy : Copy) (w : W)
        → Leads (frame_of copy)
        → P w
        → Holds Fine (replication_stream_poll r o copy w)
    unfolding replication_stream_poll set_status
    poll-keeps o (Copy.end_of_copy finished) w leads p = λ h. leads _ (streams _ w p)
    poll-keeps o (Copy.copy_failed n) w leads p = λ h. absurd (ground arith)
    poll-keeps o Copy.no_message w leads p =
        then_keepalive-keeps Q streams' o (0, set_status r (pos 0) w) (λ h. leads _ (streams _ w p))
    poll-keeps o (Copy.message buf) w leads p =
        Holds-bind Fine Fine (dispatch r o buf _) _ (dispatch-keeps o buf _ leads (streams _ w p))
          (λ x q. then_keepalive-keeps Q streams' o x q)
