-- ===== src/Client/Replication/Positions.antt =====
-- What the messages do to the received and to the flushed position.
use bottledwater_pg.Prelude.{
  ℕ, ◌+◌, ◌≤◌, ◌≡◌, refl, ap, Bool-cases, inl, inr, ◌∙◌, List, length, drop, get_or, arith, eio,
  max, ◌==◌, if◌then◌else◌, ltb,
}
use bottledwater_pg.Prelude.Run.{Run, running, exited, waiting, ◌>>=◌}
use bottledwater_pg.Prelude.Int.{ℤ, pos, negsuc}
use bottledwater_pg.Client.Bytes.{recvint64}
use bottledwater_pg.Client.Stream.{Stream, Outside}
use bottledwater_pg.Client.Replication.{
  Reader, Copy, message, no_message, end_of_copy, copy_failed, then_keepalive, dispatch,
  replication_stream_poll, set_status, replication_stream_keepalive, keepalive, with_checkpoint,
  settle_keepalive, acknowledge, receive, parse_keepalive_message, parse_xlogdata_message,
  sync_pending,
}
use bottledwater_pg.Client.Replication.Messages.{send_checkpoint_keeps}

module _ {W : Type 0} (r : Reader W) where
  open r use {stream, parse_frame, handle_keepalive, stream_with}

  recvd_receive : (p : ℕ) (w : W) → (stream (receive r p w)).recvd_lsn ≡ max p (stream w).recvd_lsn
  unfolding receive
  recvd_receive p w = ap (λ (s : Stream). s.recvd_lsn) (stream_with _ w)

  fsync_receive : (p : ℕ) (w : W) → (stream (receive r p w)).fsync_lsn ≡ (stream w).fsync_lsn
  unfolding receive
  fsync_receive p w = ap (λ (s : Stream). s.fsync_lsn) (stream_with _ w)

  recvd_acknowledge :
      (p : ℕ) (w : W) → (stream (acknowledge r p w)).recvd_lsn ≡ (stream w).recvd_lsn
  unfolding acknowledge
  recvd_acknowledge p w = ap (λ (s : Stream). s.recvd_lsn) (stream_with _ w)

  fsync_acknowledge :
      (p : ℕ) (w : W) → (stream (acknowledge r p w)).fsync_lsn ≡ max p (stream w).recvd_lsn
  unfolding acknowledge
  fsync_acknowledge p w = ap (λ (s : Stream). s.fsync_lsn) (stream_with _ w)

  recvd_with_checkpoint :
      (o : Outside) (w : W) → (stream (with_checkpoint r o w).1).recvd_lsn ≡ (stream w).recvd_lsn
  unfolding with_checkpoint
  recvd_with_checkpoint o w =
      ap (λ (s : Stream). s.recvd_lsn) (stream_with _ w) ∙ (send_checkpoint_keeps o (stream w)).0

  fsync_with_checkpoint :
      (o : Outside) (w : W) → (stream (with_checkpoint r o w).1).fsync_lsn ≡ (stream w).fsync_lsn
  unfolding with_checkpoint
  fsync_with_checkpoint o w =
      ap (λ (s : Stream). s.fsync_lsn) (stream_with _ w) ∙ (send_checkpoint_keeps o (stream w)).1

  -- A keepalive message of full length moves the received position up to the server's, never
  -- down; it moves the flushed position there too if no transaction is pending (the callback
  -- returns 0), and otherwise leaves it.
  pub parse_keepalive_positions :
      (o : Outside) (buf : List ℕ) (w : W)
      → 18 ≤ length buf
      → let pos = recvint64 (drop 1 buf) in
        let w' = (parse_keepalive_message r o buf w).1 in
        ((stream w').recvd_lsn ≡ max pos (stream w).recvd_lsn)
        × ((stream w').fsync_lsn ≡ (
            if handle_keepalive pos (receive r pos w) == 0
            then max pos (stream w).recvd_lsn
            else (stream w).fsync_lsn))
  unfolding parse_keepalive_message settle_keepalive
  parse_keepalive_positions o buf w h =
      let p = recvint64 (drop 1 buf) in
      let v = receive r p w in
      (
        ground (
          arith,
          recvd_receive p w,
          recvd_acknowledge p v,
          recvd_with_checkpoint o v,
          recvd_with_checkpoint o (acknowledge r p v),
        ),
        ground (
          arith,
          recvd_receive p w,
          fsync_receive p w,
          fsync_acknowledge p v,
          fsync_with_checkpoint o v,
          fsync_with_checkpoint o (acknowledge r p v),
        ),
      )

  -- A keepalive message that asks for no reply is an error if it is shorter than 18 bytes; else it
  -- is one only if the callback returns one other than "transactions pending".
  parse_keepalive_result :
      (o : Outside) (buf : List ℕ) (w : W)
      → get_or buf 17 0 ≡ 0
      → let pos = recvint64 (drop 1 buf) in
        let e = handle_keepalive pos (receive r pos w) in
        (parse_keepalive_message r o buf w).0
        ≡ (if ltb (length buf) 18 then eio else (if e == sync_pending then 0 else e))
  unfolding parse_keepalive_message settle_keepalive
  parse_keepalive_result o buf w h = ground arith

  recvd_keepalive :
      (o : Outside) (w : W)
      → (stream (replication_stream_keepalive r o w).1).recvd_lsn ≡ (stream w).recvd_lsn
  unfolding replication_stream_keepalive keepalive
  recvd_keepalive o w =
      ap (λ (s : Stream). s.recvd_lsn) (stream_with _ w)
      ∙ ground (arith, send_checkpoint_keeps o (stream w))

  recvd_set_status : (i : ℤ) (w : W) → (stream (set_status r i w)).recvd_lsn ≡ (stream w).recvd_lsn
  unfolding set_status
  recvd_set_status i w = ap (λ (s : Stream). s.recvd_lsn) (stream_with _ w)

  recvd-le-keepalive_message :
      (o : Outside) (buf : List ℕ) (w : W)
      → (stream w).recvd_lsn ≤ (stream (parse_keepalive_message r o buf w).1).recvd_lsn
  recvd-le-keepalive_message o buf w = elim (Bool-cases (ltb (length buf) 18)) [
    | inl short ↦ unfold parse_keepalive_message in rw short (omega arith)
    | inr long ↦ omega (arith, (parse_keepalive_positions o buf w (ground arith)).0)
  ]

  module _
      (keeps : (p : ℕ) (buf : List ℕ) (v : W) (e : ℕ) (v' : W)
        → parse_frame p buf v ≡ running (e, v')
        → (stream v').recvd_lsn ≡ (stream v).recvd_lsn) where
    recvd-le-frame :
        (p : ℕ) (buf : List ℕ) (v : W) (f : Run (ℕ × W)) (e : ℕ) (v' : W)
        → parse_frame p buf v ≡ f
        → ◌>>=◌ {B = ℕ × W} f (λ x. running (x.0, receive r p x.1)) ≡ running (e, v')
        → (stream v).recvd_lsn ≤ (stream v').recvd_lsn
    recvd-le-frame p buf v (running (d, u)) e v' pf h =
        ground (arith, keeps p buf v d u pf, recvd_receive p u)
    recvd-le-frame p buf v (exited x) e v' pf h = cc
    recvd-le-frame p buf v waiting e v' pf h = cc

    recvd-le-xlogdata :
        (buf : List ℕ) (w : W) (e : ℕ) (w' : W)
        → parse_xlogdata_message r buf w ≡ running (e, w')
        → (stream w).recvd_lsn ≤ (stream w').recvd_lsn
    unfolding parse_xlogdata_message
    recvd-le-xlogdata buf w e w' h = elim (Bool-cases (ltb (length buf) 26)) [
      | inl short ↦ ground arith
      | inr long ↦
          recvd-le-frame (recvint64 (drop 1 buf)) (drop 25 buf) w _ e w' refl (rw long at h)
    ]

    recvd-le-then_keepalive :
        (o : Outside) (x : ℕ × W)
        → (stream x.1).recvd_lsn ≤ (stream (then_keepalive r o x).1).recvd_lsn
    unfolding then_keepalive
    recvd-le-then_keepalive o (e, w) = ground (arith, recvd_keepalive o w)

    recvd-le-dispatch :
        (o : Outside) (buf : List ℕ) (w : W) (e : ℕ) (w' : W)
        → dispatch r o buf w ≡ running (e, w')
        → (stream w).recvd_lsn ≤ (stream w').recvd_lsn
    unfolding dispatch
    recvd-le-dispatch o buf w e w' h =
        ground (arith, recvd-le-keepalive_message o buf w, recvd-le-xlogdata buf w e w')

    recvd-le-handled :
        (o : Outside) (v : W) (f : Run (ℕ × W)) (e : ℕ) (w' : W)
        → ((d : ℕ) (u : W) → f ≡ running (d, u) → (stream v).recvd_lsn ≤ (stream u).recvd_lsn)
        → ◌>>=◌ {B = ℕ × W} f (λ x. running (then_keepalive r o x)) ≡ running (e, w')
        → (stream v).recvd_lsn ≤ (stream w').recvd_lsn
    recvd-le-handled o v (running (d, u)) e w' step h =
        ground (arith, step d u refl, recvd-le-then_keepalive o (d, u))
    recvd-le-handled o v (exited x) e w' step h = cc
    recvd-le-handled o v waiting e w' step h = cc

    -- If no frame changes the received position, no poll takes it back, whatever arrives.
    pub poll_recvd_mono :
        (o : Outside) (c : Copy) (w : W) (e : ℕ) (w' : W)
        → replication_stream_poll r o c w ≡ running (e, w')
        → (stream w).recvd_lsn ≤ (stream w').recvd_lsn
    unfolding replication_stream_poll
    poll_recvd_mono o (message buf) w e w' h =
        let v = set_status r (pos 1) w in
        omega (
          arith,
          recvd_set_status (pos 1) w,
          recvd-le-handled o v (dispatch r o buf v) e w' (λ d u q. recvd-le-dispatch o buf v d u q)
              h,
        )
    poll_recvd_mono o no_message w e w' h =
        ground
          (arith, recvd_set_status (pos 0) w, recvd-le-then_keepalive o (0, set_status r (pos 0) w))
    poll_recvd_mono o (end_of_copy b) w e w' h = ground (arith, recvd_set_status (negsuc 0) w)
    poll_recvd_mono o (copy_failed n) w e w' h = ground (arith, recvd_set_status (negsuc (n + 1)) w)
