-- ===== src/Kafka/Producer/Failures.antt =====
-- What becomes of a transaction when a message cannot be handed to Kafka.
use bottledwater_pg.Prelude.{ℕ, ◌+◌, ◌<◌, ◌≡◌, refl, Bool, List, Option, none, arith, ebusy}
use bottledwater_pg.Prelude.Run.{running, Holds-result}
use bottledwater_pg.Kafka.Json.{Libavro}
use bottledwater_pg.Kafka.TableMapper.{lookup}
use bottledwater_pg.Kafka.Producer.{Context, int_mod}
use bottledwater_pg.Kafka.Producer.Callbacks.{
  Attempt, count_event, on_commit_txn, on_keepalive, send_kafka_msg,
}
use bottledwater_pg.Kafka.Producer.Queue.{count}
use bottledwater_pg.Kafka.Producer.Window.{nonempty_iff}
use bottledwater_pg.Kafka.Producer.Account.{head_inside}
use bottledwater_pg.Kafka.Producer.Owed.{IsOwed, on_commit_txn-IsOwed}
use bottledwater_pg.Kafka.Producer.Later.{Later, same_head, Later-IsOwed}
use bottledwater_pg.Kafka.Producer.Session.{InTxn, IsOpen→InTxn}
use bottledwater_pg.Kafka.Producer.Sending.{count_event-IsOpen}

lost_event :
    {Schema : Type 0} (n : ℕ) (c : Context Schema) → InTxn 1 n c → IsOwed c.xact_head c.xact_head c
lost_event n c o = record {
  slot = refl;
  valid = o.account.valid;
  in_list = o.account.valid.head_in;
  inside = head_inside c o.account.valid o.nonempty;
  owed = omega (arith, o.owed);
  bounded = o.account.bounded c.xact_head;
}

module _ (avro : Libavro) where
  open avro use {Schema}

  -- When a transaction that is received in a sound state is committed while one of its events is
  -- counted and not in Kafka's queue, then in every later state, whatever Kafka holds and reports and
  -- whatever other transactions Postgres sends in their order, no keepalive is acknowledged, and the
  -- transaction's slot counts more pending events than Kafka holds.
  pub commit_after_loss :
      (wal_pos xid error wal_pos' n : ℕ) (receiving : Bool) (c d d' : Context Schema)
      → InTxn 1 n c
      → on_commit_txn wal_pos xid c ≡ running (error, d)
      → Later avro d receiving d'
      → (on_keepalive wal_pos' d' ≡ ebusy)
        × (count c.xact_head d'.queue < (d'.xact_list c.xact_head).pending_events)
  unfolding on_keepalive
  commit_after_loss wal_pos xid error wal_pos' n receiving c d d' o commits later =
      let before = lost_event n c o in
      let after : IsOwed c.xact_head c.xact_head d =
        Holds-result (λ r. IsOwed c.xact_head c.xact_head r.1) commits
          (on_commit_txn-IsOwed wal_pos xid c.xact_head c.xact_head c before) in
      let still = Later-IsOwed avro c.xact_head d receiving d' (same_head avro _ _ d after) later in
      (rw ((nonempty_iff d').1 (omega (arith, still.inside))) refl, still.owed)

  -- An event of a table whose schema was never registered is refused, but stays counted in the
  -- transaction that is being received, while Kafka is given nothing.
  pub send_kafka_msg-loss :
      (attempts : List Attempt) (wal_pos relid : ℕ) (key val : Option (List ℕ)) (n : ℕ)
      (c : Context Schema)
      → n + 1 < int_mod
      → lookup c.mapper relid ≡ none
      → InTxn 0 n c
      → (d : Context Schema) × (send_kafka_msg avro attempts wal_pos relid key val c
          ≡ running (1, d))
        × InTxn 1 (n + 1) d
        × (d.queue ≡ c.queue)
  unfolding send_kafka_msg
  send_kafka_msg-loss attempts wal_pos relid key val n c fits unknown o =
      let unknown' : lookup (count_event c).mapper relid ≡ none = unfold count_event in unknown in
      (
        count_event c,
        rw (unknown', send_kafka_msg) refl,
        IsOpen→InTxn c.xact_head 1 (n + 1) (count_event c)
            (count_event-IsOpen c.xact_head n c fits o),
        unfold count_event in refl,
      )
