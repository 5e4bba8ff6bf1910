-- ===== src/Kafka/Producer/Reach.antt =====
-- The states that the producer reaches while it streams transactions, in whatever order Postgres
-- sends messages and Kafka reports on them.
use bottledwater_pg.Prelude.{
  ℕ, ◌+◌, ◌-◌, ◌<◌, ◌≡◌, ◌≢◌, refl, Bool, true, false, List, [], Option, arith, Bool-cases, inl,
  inr,
}
use bottledwater_pg.Prelude.Run.{running, Holds, Holds-result, Holds-map}
use bottledwater_pg.Client.Stream.{Stream}
use bottledwater_pg.Kafka.Json.{Libavro}
use bottledwater_pg.Kafka.TableMapper.{Mapper, Answers}
use bottledwater_pg.Kafka.Producer.{
  Context, OutputFormat, ErrorPolicy, Delivery, Poll, xact_list_len, int_mod, xact_list_length,
  xact_list_empty, poll,
}
use bottledwater_pg.Kafka.Producer.Naming.{topic_name, is_internal_table}
use bottledwater_pg.Kafka.Producer.Callbacks.{
  Attempt, on_begin_txn, on_commit_txn, on_keepalive, on_table_schema, on_insert_row, on_update_row,
  on_delete_row,
}
use bottledwater_pg.Kafka.Producer.Queue.{Within-zero}
use bottledwater_pg.Kafka.Producer.Window.{empty_iff}
use bottledwater_pg.Kafka.Producer.Account.{IsAccounted}
use bottledwater_pg.Kafka.Producer.Open.{IsOpen}
use bottledwater_pg.Kafka.Producer.Session.{
  InTxn, IsOpen→InTxn, stream-IsAccounted, stream-IsOpen, poll-IsAccounted, poll-IsOpen,
  on_begin_txn-InTxn, on_commit_txn-IsAccounted,
}
use bottledwater_pg.Kafka.Producer.Sending.{
  IsOpen-more, on_insert_row-InTxn, on_update_row-InTxn, on_delete_row-InTxn,
}

-- The context that `main` starts with, `mapper` and `stream` as their own parts make them.
unfoldable pub init_producer : {Schema : Type 0} → Stream → Mapper Schema → Context Schema
init_producer s m = record {
  xact_list = λ i. record { xid = 0; recvd_events = 0; pending_events = 0; commit_lsn = 0 };
  xact_head = xact_list_len - 1;
  xact_tail = 0;
  stream = s;
  taking_snapshot = false;
  mapper = m;
  output_format = OutputFormat.avro;
  error_policy = ErrorPolicy.exit;
  queue = [];
}

-- Whether a transaction is being received, and how many row messages it had at most.
pub data Phase : Type 0 where
  idle : Phase
  receiving : ℕ → Phase

module _ (avro : Libavro) where
  open avro use {Schema}

  -- Messages of Postgres, delivery reports of Kafka, and other changes of the connection.
  pub data Reach : Phase → Context Schema → Type 0 where
    started : (s : Stream) (m : Mapper Schema) → Reach idle (init_producer s m)
    configured :
        (f : OutputFormat) (p : ErrorPolicy) (snapshot : Bool) {c : Context Schema}
        → Reach idle c
        → Reach idle (record c { output_format = f; error_policy = p; taking_snapshot = snapshot })
    begun :
        (polls : List Poll) (wal_pos xid error : ℕ) {c c' : Context Schema}
        → xid ≢ 0
        → on_begin_txn polls wal_pos xid c ≡ running (error, c')
        → Reach idle c
        → Reach (receiving 0) c'
    described :
        (answers : Answers) (wal_pos relid error : ℕ) (name namespace row_json : List ℕ)
        (key_json : Option (List ℕ)) {n : ℕ} {c c' : Context Schema}
        → on_table_schema avro answers wal_pos relid name namespace key_json row_json c
          ≡ running (error, c')
        → Reach (receiving n) c
        → Reach (receiving n) c'
    skipped :
        {n : ℕ} {c : Context Schema}
        → n + 1 < int_mod
        → Reach (receiving n) c
        → Reach (receiving (n + 1)) c
    inserted :
        (attempts : List Attempt) (wal_pos relid error : ℕ) (key : Option (List ℕ)) (new : List ℕ)
        {n : ℕ} {c c' : Context Schema}
        → n + 1 < int_mod
        → on_insert_row avro attempts wal_pos relid key new c ≡ running (error, c')
        → Reach (receiving n) c
        → Reach (receiving (n + 1)) c'
    updated :
        (attempts : List Attempt) (wal_pos relid error : ℕ) (key old : Option (List ℕ))
        (new : List ℕ) {n : ℕ} {c c' : Context Schema}
        → n + 1 < int_mod
        → on_update_row avro attempts wal_pos relid key old new c ≡ running (error, c')
        → Reach (receiving n) c
        → Reach (receiving (n + 1)) c'
    removed :
        (attempts : List Attempt) (wal_pos relid error : ℕ) (key old : Option (List ℕ)) {n : ℕ}
        {c c' : Context Schema}
        → n + 1 < int_mod
        → on_delete_row avro attempts wal_pos relid key old c ≡ running (error, c')
        → Reach (receiving n) c
        → Reach (receiving (n + 1)) c'
    committed :
        (wal_pos xid error : ℕ) {n : ℕ} {c c' : Context Schema}
        → on_commit_txn wal_pos xid c ≡ running (error, c')
        → Reach (receiving n) c
        → Reach idle c'
    polled :
        (ds : List Delivery) {p : Phase} {c c' : Context Schema}
        → poll ds c ≡ running c'
        → Reach p c
        → Reach p c'
    streamed :
        (s : Stream) {p : Phase} {c : Context Schema}
        → Reach p c
        → Reach p (record c { stream = s })

  abbrev pub Sound : Phase → Context Schema → Type 0
  Sound idle c = IsAccounted c
  Sound (receiving n) c = InTxn 0 n c

module _ {Schema : Type 0} where
  init_producer-IsAccounted : (s : Stream) (m : Mapper Schema) → IsAccounted (init_producer s m)
  unfolding init_producer xact_list_length
  init_producer-IsAccounted s m = record {
    valid = record { head_in = omega arith; tail_in = omega arith };
    within = tt;
    counted = λ s. omega arith;
    bounded = λ s. omega arith;
  }

  configured-IsAccounted :
      (f : OutputFormat) (p : ErrorPolicy) (snapshot : Bool) (c : Context Schema)
      → IsAccounted c
      → IsAccounted (record c { output_format = f; error_policy = p; taking_snapshot = snapshot })
  unfolding xact_list_length
  configured-IsAccounted f p snapshot c a = record {
    valid = record { head_in = a.valid.head_in; tail_in = a.valid.tail_in };
    within = a.within;
    counted = a.counted;
    bounded = a.bounded;
  }

  mapper-InTxn :
      (m : Mapper Schema) (n : ℕ) (c : Context Schema)
      → InTxn 0 n c
      → InTxn 0 n (record c { mapper = m })
  unfolding xact_list_length
  mapper-InTxn m n c o = record {
    slot = refl;
    account = record {
      valid = record { head_in = o.account.valid.head_in; tail_in = o.account.valid.tail_in };
      within = o.account.within;
      counted = o.account.counted;
      bounded = o.account.bounded;
    };
    nonempty = o.nonempty;
    streaming = o.streaming;
    uncommitted = o.uncommitted;
    owed = o.owed;
    limited = o.limited;
  }

module _ (avro : Libavro) where
  open avro use {Schema}

  on_table_schema-InTxn :
      (answers : Answers) (wal_pos relid : ℕ) (name namespace row_json : List ℕ)
      (key_json : Option (List ℕ)) (n : ℕ) (c : Context Schema)
      → InTxn 0 n c
      → Holds
          (λ r. InTxn 0 n r.1)
          (on_table_schema avro answers wal_pos relid name namespace key_json row_json c)
  unfolding on_table_schema
  on_table_schema-InTxn answers wal_pos relid name namespace row_json key_json n c o =
      elim (Bool-cases (is_internal_table (topic_name name namespace))) [
        | inl internal ↦ rw internal o
        | inr own ↦ rw own (mapper-InTxn _ n c o)
      ]

  Sound-after :
      (p : Phase) (ds : List Delivery) (c : Context Schema)
      → Sound avro p c
      → Holds (Sound avro p) (poll ds c)
  Sound-after idle ds c a = poll-IsAccounted ds c a
  Sound-after (receiving n) ds c o =
      Holds-map (IsOpen c.xact_head 0 n) (InTxn 0 n) (poll ds c) (IsOpen→InTxn c.xact_head 0 n)
        (poll-IsOpen c.xact_head 0 n ds c o)

  stream-Sound :
      (p : Phase) (s : Stream) (c : Context Schema)
      → Sound avro p c
      → Sound avro p (record c { stream = s })
  stream-Sound idle s c a = stream-IsAccounted s c a
  stream-Sound (receiving n) s c o = stream-IsOpen c.xact_head 0 n s c o

  -- In every state that is reached by streaming transactions with numbers other than 0 and fewer than
  -- 2 ^ 32 row messages each, whatever the order of events, each message that Kafka holds
  -- belongs to a transaction in flight whose `pending_events` counts it, and a transaction that is
  -- being received is in flight and not committed.
  pub Reach-Sound : (p : Phase) (c : Context Schema) → Reach avro p c → Sound avro p c
  Reach-Sound p c (started s m) = init_producer-IsAccounted s m
  Reach-Sound p c' (configured f q snapshot {c} r) =
      configured-IsAccounted f q snapshot c (Reach-Sound idle c r)
  Reach-Sound p c' (begun polls wal_pos xid error {c} x e r) =
      (Holds-result (λ r. (r.0 ≡ 0) × InTxn 0 0 r.1) e
        (on_begin_txn-InTxn polls wal_pos xid c x (Reach-Sound idle c r))).1
  Reach-Sound p c'
        (described answers wal_pos relid error name namespace row_json key_json {n} {c} e r) =
      Holds-result (λ r. InTxn 0 n r.1) e
        (on_table_schema-InTxn answers wal_pos relid name namespace row_json key_json n c
          (Reach-Sound (receiving n) c r))
  Reach-Sound p c' (skipped {n} {c} fits r) =
      IsOpen-more c.xact_head n c (Reach-Sound (receiving n) c r)
  Reach-Sound p c' (inserted attempts wal_pos relid error key new {n} {c} fits e r) =
      IsOpen→InTxn c.xact_head 0 (n + 1) c' (
        Holds-result (λ r. IsOpen c.xact_head 0 (n + 1) r.1) e
          (on_insert_row-InTxn avro attempts wal_pos relid key new n c fits
            (Reach-Sound (receiving n) c r)))
  Reach-Sound p c' (updated attempts wal_pos relid error key old new {n} {c} fits e r) =
      IsOpen→InTxn c.xact_head 0 (n + 1) c' (
        Holds-result (λ r. IsOpen c.xact_head 0 (n + 1) r.1) e
          (on_update_row-InTxn avro attempts wal_pos relid key old new n c fits
            (Reach-Sound (receiving n) c r)))
  Reach-Sound p c' (removed attempts wal_pos relid error key old {n} {c} fits e r) =
      IsOpen→InTxn c.xact_head 0 (n + 1) c' (
        Holds-result (λ r. IsOpen c.xact_head 0 (n + 1) r.1) e
          (on_delete_row-InTxn avro attempts wal_pos relid key old n c fits
            (Reach-Sound (receiving n) c r)))
  Reach-Sound p c' (committed wal_pos xid error {n} {c} e r) =
      (Holds-result (λ r. (r.0 ≡ 0) × IsAccounted r.1) e
        (on_commit_txn-IsAccounted wal_pos xid 0 n c (Reach-Sound (receiving n) c r))).1
  Reach-Sound _ c' (polled ds {p} {c} e r) =
      Holds-result (Sound avro p) e (Sound-after p ds c (Reach-Sound p c r))
  Reach-Sound _ c' (streamed s {p} {c} r) = stream-Sound p s c (Reach-Sound p c r)

  Sound-IsAccounted : (p : Phase) (c : Context Schema) → Sound avro p c → IsAccounted c
  Sound-IsAccounted idle c a = a
  Sound-IsAccounted (receiving n) c o = o.account

  empty_queue : (c : Context Schema) → IsAccounted c → xact_list_empty c ≡ true → c.queue ≡ []
  empty_queue c a e = Within-zero c.xact_tail c.queue (rw ((empty_iff c).0 e) at a.within)

  -- In every state that is reached by streaming transactions with numbers other than 0 and
  -- fewer than 2 ^ 32 row messages each, a keepalive is acknowledged only when Kafka has reported on
  -- every message that it was given.
  pub on_keepalive-queue :
      (p : Phase) (c : Context Schema) (wal_pos : ℕ)
      → Reach avro p c
      → on_keepalive wal_pos c ≡ 0
      → c.queue ≡ []
  unfolding on_keepalive
  on_keepalive-queue p c wal_pos r h = elim (Bool-cases (xact_list_empty c)) [
    | inl empty ↦ empty_queue c (Sound-IsAccounted p c (Reach-Sound p c r)) empty
    | inr more ↦ absurd (ground arith)
  ]
