-- ===== src/Kafka/Producer/Open.antt =====
-- While a transaction is received, its slot stays in flight: it is not committed.
use bottledwater_pg.Prelude.{
  ℕ, suc, ◌+◌, ◌<◌, ◌≤◌, ◌≡◌, ◌≢◌, refl, true, List, [], ◌∷◌, get_elem?, some, arith, Option-cases,
  Bool-cases, inl, inr, ◌==◌,
}
use bottledwater_pg.Prelude.Run.{running, Holds, Holds-bind}
use bottledwater_pg.Client.Stream.{Stream}
use bottledwater_pg.Client.Replication.{keepalive}
use bottledwater_pg.Kafka.Producer.{
  Envelope, Context, ErrorPolicy, fatal_error, Delivery, Poll, is_complete, remove_at,
  xact_list_length, checkpoint_tail, maybe_checkpoint, delivered, handle_error, on_deliver_msg,
  deliver, poll, after_poll, backpressure,
}
use bottledwater_pg.Kafka.Producer.Queue.{count, count-remove_at}
use bottledwater_pg.Kafka.Producer.Window.{IsValid, length-checkpoint_tail, loop_induction}
use bottledwater_pg.Kafka.Producer.Account.{
  IsAccounted, checkpoint_tail-IsAccounted, reported, reported-IsAccounted,
}

module _ {Schema : Type 0} where
  -- The open transaction has slot `h`; `k` of its events are counted and not in Kafka's queue, and
  -- at most `n` events are pending.
  pub record IsOpen (h k n : ℕ) (c : Context Schema) : Type 0 where
    pub slot : c.xact_head ≡ h
    pub account : IsAccounted c
    pub nonempty : 0 < xact_list_length c
    pub streaming : (c.xact_list c.xact_head).xid ≢ 0
    pub uncommitted : (c.xact_list c.xact_head).commit_lsn ≡ 0
    pub owed : k + count c.xact_head c.queue ≤ (c.xact_list c.xact_head).pending_events
    pub limited : (c.xact_list c.xact_head).pending_events ≤ n

  -- The oldest transaction, if complete, is not the open one.
  pub others_left :
      (c : Context Schema) (j : ℕ)
      → IsValid c
      → xact_list_length c ≡ suc j
      → c.xact_tail ≢ c.xact_head
      → 0 < j
  unfolding xact_list_length
  others_left c j v e ne = omega arith

  tail-ne-head :
      (h k n : ℕ) (c : Context Schema)
      → IsOpen h k n c
      → is_complete (c.xact_list c.xact_tail) ≡ true
      → c.xact_tail ≢ c.xact_head
  tail-ne-head h k n c o done e = ground (arith, o.uncommitted, o.streaming)

  checkpoint_tail-IsOpen :
      (h k n : ℕ) (c : Context Schema) (j : ℕ)
      → IsValid c
      → xact_list_length c ≡ suc j
      → is_complete (c.xact_list c.xact_tail) ≡ true
      → IsOpen h k n c
      → IsOpen h k n (checkpoint_tail c)
  checkpoint_tail-IsOpen h k n c j v e done o = record {
    slot = unfold checkpoint_tail in o.slot;
    account = checkpoint_tail-IsAccounted c j e done o.account;
    nonempty =
        rw (length-checkpoint_tail c j v e) (others_left c j v e (tail-ne-head h k n c o done));
    streaming = unfold checkpoint_tail in o.streaming;
    uncommitted = unfold checkpoint_tail in o.uncommitted;
    owed = unfold checkpoint_tail in o.owed;
    limited = unfold checkpoint_tail in o.limited;
  }

  maybe_checkpoint-IsOpen :
      (h k n : ℕ) (c : Context Schema) → IsOpen h k n c → IsOpen h k n (maybe_checkpoint c)
  unfolding maybe_checkpoint
  maybe_checkpoint-IsOpen h k n c o =
      loop_induction (IsOpen h k n) (checkpoint_tail-IsOpen h k n) _ c o.account.valid o.nonempty o

  reported-IsOpen :
      (h k n : ℕ) (e : Envelope) (i : ℕ) (c : Context Schema)
      → get_elem? c.queue i ≡ some e
      → IsOpen h k n c
      → IsOpen h k n (reported e i c)
  unfolding xact_list_length
  reported-IsOpen h k n e i c at o = record {
    slot = o.slot;
    account = reported-IsAccounted e i c at o.account;
    nonempty = o.nonempty;
    streaming = ground (arith, o.streaming);
    uncommitted = ground (arith, o.uncommitted);
    owed = ground (
      arith,
      o.owed,
      count-remove_at c.xact_head c.queue i e at,
      o.account.bounded c.xact_head,
      o.account.counted c.xact_head,
    );
    limited = ground (
      arith,
      o.limited,
      count-remove_at c.xact_head c.queue i e at,
      o.account.bounded c.xact_head,
      o.account.counted c.xact_head,
    );
  }

  pub delivered-IsOpen :
      (h k n : ℕ) (e : Envelope) (i : ℕ) (c : Context Schema)
      → get_elem? c.queue i ≡ some e
      → IsOpen h k n c
      → IsOpen h k n (delivered e.xact (record c { queue = remove_at c.queue i }))
  unfolding delivered
  delivered-IsOpen h k n e i c at o =
      maybe_checkpoint-IsOpen h k n (reported e i c) (reported-IsOpen h k n e i c at o)

module _ {Schema : Type 0} where
  -- An error that is handled is no error.
  handle_error-zero : (c : Context Schema) → Holds (λ e. e ≡ 0) (handle_error c)
  unfolding handle_error
  handle_error-zero c =
      elim c.error_policy
        as (λ q.
          Holds {A = ℕ} (λ e. e ≡ 0)
            (elim q [
              | ErrorPolicy.log ↦ running 0
              | ErrorPolicy.exit ↦ fatal_error c
              | ErrorPolicy.undefined ↦ fatal_error c
            ])) [ ErrorPolicy.log ↦ refl | ErrorPolicy.exit ↦ tt | ErrorPolicy.undefined ↦ tt ]

-- What delivery reports and status updates keep, waiting for Kafka keeps.
module _ {Schema : Type 0} (P : Context Schema → Type 0)
    (reports : (e : Envelope) (i : ℕ) (c : Context Schema)
      → get_elem? c.queue i ≡ some e
      → P c
      → P (delivered e.xact (record c { queue = remove_at c.queue i })))
    (updates : (s : Stream) (c : Context Schema) → P c → P (record c { stream = s })) where
  on_deliver_msg-Holds :
      (e : Envelope) (error : ℕ) (i : ℕ) (c : Context Schema)
      → get_elem? c.queue i ≡ some e
      → P c
      → Holds P (on_deliver_msg e.xact error (record c { queue = remove_at c.queue i }))
  unfolding on_deliver_msg
  on_deliver_msg-Holds e error i c h p = elim (Bool-cases (error == 0)) [
    | inl fine ↦ rw fine (reports e i c h p)
    | inr failed ↦ rw failed (
        let c' : Context Schema = record c { queue = remove_at c.queue i } in
        Holds-bind (λ e. e ≡ 0) P (handle_error c') _ (handle_error-zero c')
          (λ z none_left. rw none_left (reports e i c h p)))
  ]

  deliver-Holds : (d : Delivery) (c : Context Schema) → P c → Holds P (deliver d c)
  unfolding deliver
  deliver-Holds d c p = elim (Option-cases (get_elem? c.queue d.place)) [
    | inl gone ↦ rw (gone, deliver) p
    | inr (e, h) ↦ rw (h, deliver) (on_deliver_msg-Holds e d.error d.place c h p)
  ]

  pub poll-Holds : (ds : List Delivery) (c : Context Schema) → P c → Holds P (poll ds c)
  unfolding poll
  poll-Holds [] c p = p
  poll-Holds (d ∷ ds) c p =
      Holds-bind P P (deliver d c) (poll ds) (deliver-Holds d c p) (poll-Holds ds)

  after_poll-Holds : (p : Poll) (c : Context Schema) → P c → Holds P (after_poll p c)
  unfolding after_poll
  after_poll-Holds p c h = elim (Bool-cases (p.signal == 0)) [
    | inl calm ↦ rw calm (elim (Bool-cases ((keepalive p.outside c.stream).0 == 0)) [
      | inl sent ↦ rw sent (updates (keepalive p.outside c.stream).1 c h)
      | inr unsent ↦ rw unsent tt
    ])
    | inr signalled ↦ rw signalled tt
  ]

  pub backpressure-Holds : (p : Poll) (c : Context Schema) → P c → Holds P (backpressure p c)
  unfolding backpressure
  backpressure-Holds p c h =
      Holds-bind P P (poll p.deliveries c) (after_poll p) (poll-Holds p.deliveries c h)
        (after_poll-Holds p)
