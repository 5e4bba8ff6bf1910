-- ===== src/Kafka/Producer/Tests.antt =====
-- Each of the results of Kafka/Producer at one input.
use bottledwater_pg.Prelude.{
  ℕ, List, ◌<◌, ◌⊎◌, ◌≡◌, refl, false, none, some, [], ◌∷◌, ◌++◌, ok, ebusy, arith,
}
use bottledwater_pg.Prelude.Run.{running}
use bottledwater_pg.Client.Frames.{State}
use bottledwater_pg.Client.Replication.{parse_keepalive_message}
use bottledwater_pg.Client.Program.{FrameDecoder, stream_reader}
use bottledwater_pg.Kafka.Program.{init_client, context_client, keepalive_message-queue}
use bottledwater_pg.Client.Samples
use bottledwater_pg.Kafka.Samples.{avro, no_tables, start, around, frames, clock}
use bottledwater_pg.Kafka.TableMapper.{lookup, find}
use bottledwater_pg.Kafka.Producer.{
  Context, set_xact, xact_list_length, xact_list_full, xact_list_empty, maybe_checkpoint,
  checkpoint_loop, checkpoint_tail,
}
use bottledwater_pg.Kafka.Producer.Callbacks.{
  wait_for_room, open_xact, on_begin_txn, on_commit_txn, on_keepalive, count_event, send_kafka_msg,
}
use bottledwater_pg.Kafka.Producer.Window.{in_flight, IsValid, Drained, maybe_checkpoint-Drained}
use bottledwater_pg.Kafka.Producer.Order.{in_flight-open_xact}
use bottledwater_pg.Kafka.Producer.Session.{InTxn, IsOpen→InTxn}
use bottledwater_pg.Kafka.Producer.Sending.{count_event-IsOpen}
use bottledwater_pg.Kafka.Producer.Reach.{
  init_producer, Phase, Reach, Sound, Reach-Sound, on_keepalive-queue,
}
use bottledwater_pg.Kafka.Producer.Later.{Later}
use bottledwater_pg.Kafka.Producer.Queue.{count}
use bottledwater_pg.Kafka.Producer.Failures.{commit_after_loss, send_kafka_msg-loss}

-- A transaction with number 7 is being received.
abbrev opened : Context Unit
opened = open_xact 7 start

-- Its commit has arrived.
abbrev committed : Context Unit
committed =
    set_xact (opened.xact_head) (record (opened.xact_list (opened.xact_head)) { commit_lsn = 9 })
      opened

begins : on_begin_txn [] 5 7 start ≡ running (0, opened)
unfolding on_begin_txn wait_for_room xact_list_full xact_list_length init_producer
begins = refl

commits : on_commit_txn 9 7 opened ≡ running (0, maybe_checkpoint committed)
unfolding on_commit_txn open_xact init_producer
commits = refl

reaches_open : Reach avro (Phase.receiving 0) opened
reaches_open =
    Reach.begun [] 5 7 0 (λ e. absurd (omega arith)) begins (Reach.started Samples.start no_tables)

reaches_end : Reach avro Phase.idle (maybe_checkpoint committed)
reaches_end = Reach.committed 9 7 0 commits reaches_open

Reach-Sound_example : Sound avro Phase.idle (maybe_checkpoint committed)
Reach-Sound_example = Reach-Sound avro Phase.idle (maybe_checkpoint committed) reaches_end

acknowledges : on_keepalive 9 (maybe_checkpoint committed) ≡ 0
unfolding on_keepalive xact_list_empty xact_list_length maybe_checkpoint checkpoint_loop
    checkpoint_tail open_xact init_producer
acknowledges = refl

on_keepalive-queue_example : (maybe_checkpoint committed).queue ≡ []
on_keepalive-queue_example =
    on_keepalive-queue avro Phase.idle (maybe_checkpoint committed) 9 reaches_end acknowledges

committed-IsValid : IsValid committed
unfolding open_xact init_producer
committed-IsValid = omega arith

committed_waits : xact_list_empty committed ≡ false
unfolding xact_list_empty xact_list_length open_xact init_producer
committed_waits = refl

maybe_checkpoint-Drained_example : Drained committed (maybe_checkpoint committed)
maybe_checkpoint-Drained_example =
    maybe_checkpoint-Drained committed committed-IsValid committed_waits

start-IsValid : IsValid start
unfolding init_producer
start-IsValid = omega arith

start_has_room : xact_list_full start ≡ false
unfolding xact_list_full xact_list_length init_producer
start_has_room = refl

in_flight-open_xact_example :
    in_flight opened
    ≡ in_flight start
      ++ (record { xid = 7; recvd_events = 0; pending_events = 0; commit_lsn = 0 } ∷ [])
in_flight-open_xact_example = in_flight-open_xact 7 start start-IsValid start_has_room

no_table : lookup (opened.mapper) 16 ≡ none
unfolding lookup find open_xact init_producer
no_table = refl

send_kafka_msg-loss_example :
    (d : Context Unit) × (send_kafka_msg avro [] 6 16 none (some []) opened ≡ running (1, d))
    × InTxn 1 1 d
    × (d.queue ≡ opened.queue)
send_kafka_msg-loss_example =
    send_kafka_msg-loss avro [] 6 16 none (some []) 0 opened (omega arith) no_table
      (Reach-Sound avro (Phase.receiving 0) opened reaches_open)

open_lost : InTxn 1 1 (count_event opened)
open_lost = IsOpen→InTxn opened.xact_head 1 1 (count_event opened) (
    count_event-IsOpen opened.xact_head 0 opened (omega arith)
      (Reach-Sound avro (Phase.receiving 0) opened reaches_open))

-- The transaction is committed without its event, and another one begins and is committed.
abbrev stuck : Context Unit
stuck = maybe_checkpoint (
    set_xact opened.xact_head
      (record { xid = 7; recvd_events = 1; pending_events = 1; commit_lsn = 9 })
      (count_event opened))

stuck_commits : on_commit_txn 9 7 (count_event opened) ≡ running (0, stuck)
unfolding on_commit_txn count_event open_xact init_producer
stuck_commits = refl

next_begins : on_begin_txn [] 10 8 stuck ≡ running (0, open_xact 8 stuck)
unfolding on_begin_txn wait_for_room xact_list_full xact_list_empty xact_list_length
    maybe_checkpoint checkpoint_loop count_event open_xact init_producer
next_begins = refl

abbrev still_stuck : Context Unit
still_stuck = maybe_checkpoint (
    set_xact (open_xact 8 stuck).xact_head
      (record { xid = 8; recvd_events = 0; pending_events = 0; commit_lsn = 11 })
      (open_xact 8 stuck))

next_commits : on_commit_txn 11 8 (open_xact 8 stuck) ≡ running (0, still_stuck)
unfolding on_commit_txn maybe_checkpoint checkpoint_loop count_event open_xact init_producer
next_commits = refl

commit_after_loss_example :
    (on_keepalive 12 still_stuck ≡ ebusy)
    × (count (count_event opened).xact_head still_stuck.queue
        < (still_stuck.xact_list (count_event opened).xact_head).pending_events)
commit_after_loss_example =
    commit_after_loss avro 9 7 0 12 1 false (count_event opened) stuck still_stuck open_lost
      stuck_commits
      (Later.committed 11 8 0 next_commits (Later.begun [] 10 8 0 next_begins Later.here))

-- Frames without messages.
abbrev decoder : FrameDecoder
decoder = record { frame_read = λ buf. ok []; messages = λ buf. [] }

abbrev reader : State frames (init_client avro around)
reader = record { schemas = []; capacity = 16; active_schema_list = []; cb_context = opened }

abbrev keepalive_7 : List ℕ
keepalive_7 = b'k' ∷ 0 ∷ 0 ∷ 0 ∷ 0 ∷ 0 ∷ 0 ∷ 0 ∷ 7 ∷ 0 ∷ 0 ∷ 0 ∷ 0 ∷ 0 ∷ 0 ∷ 0 ∷ 0 ∷ 0 ∷ []

keepalive_message-queue_example :
    let program = stream_reader frames (init_client avro around) decoder (context_client avro) in
    let r' = (parse_keepalive_message program clock keepalive_7 reader).1 in
    (r'.cb_context.stream.fsync_lsn ≡ 0) ⊎ (opened.queue ≡ [])
unfolding open_xact init_producer
keepalive_message-queue_example =
    keepalive_message-queue avro frames around decoder clock keepalive_7 (Phase.receiving 0) reader
      (omega arith) reaches_open
