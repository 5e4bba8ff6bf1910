-- ===== src/Kafka/Producer/Later.antt =====
-- What comes after a state of the producer, and what it cannot repair.
use bottledwater_pg.Prelude.{ℕ, ◌≡◌, ◌≢◌, refl, Bool, true, false, List, Option}
use bottledwater_pg.Prelude.Run.{Run, running, Holds, Holds-result}
use bottledwater_pg.Client.Stream.{Stream}
use bottledwater_pg.Kafka.Json.{Libavro}
use bottledwater_pg.Kafka.TableMapper.{Answers}
use bottledwater_pg.Kafka.Producer.{Context, Delivery, Poll, poll}
use bottledwater_pg.Kafka.Producer.Callbacks.{
  Attempt, on_begin_txn, on_commit_txn, on_insert_row, on_update_row, on_delete_row,
  on_table_schema,
}
use bottledwater_pg.Kafka.Producer.Owed.{
  IsOwed, Owing, stream-IsOwed, poll-IsOwed, on_begin_txn-Owing, on_commit_txn-IsOwed,
}
use bottledwater_pg.Kafka.Producer.Owed.Rows.{
  on_insert_row-IsOwed, on_update_row-IsOwed, on_delete_row-IsOwed, on_table_schema-IsOwed,
}

module _ (avro : Libavro) where
  open avro use {Schema}

  -- The states after `d`, and whether a transaction is being received there: messages of Postgres in
  -- the order of transactions, delivery reports, and other changes of the connection.
  pub data Later (d : Context Schema) : Bool → Context Schema → Type 0 where
    here : Later d false d
    begun :
        (polls : List Poll) (wal_pos xid error : ℕ) {c c' : Context Schema}
        → on_begin_txn polls wal_pos xid c ≡ running (error, c')
        → Later d false c
        → Later d true c'
    described :
        (answers : Answers) (wal_pos relid error : ℕ) (name namespace row_json : List ℕ)
        (key_json : Option (List ℕ)) {c c' : Context Schema}
        → on_table_schema avro answers wal_pos relid name namespace key_json row_json c
          ≡ running (error, c')
        → Later d true c
        → Later d true c'
    inserted :
        (attempts : List Attempt) (wal_pos relid error : ℕ) (key : Option (List ℕ)) (new : List ℕ)
        {c c' : Context Schema}
        → on_insert_row avro attempts wal_pos relid key new c ≡ running (error, c')
        → Later d true c
        → Later d true c'
    updated :
        (attempts : List Attempt) (wal_pos relid error : ℕ) (key old : Option (List ℕ))
        (new : List ℕ) {c c' : Context Schema}
        → on_update_row avro attempts wal_pos relid key old new c ≡ running (error, c')
        → Later d true c
        → Later d true c'
    removed :
        (attempts : List Attempt) (wal_pos relid error : ℕ) (key old : Option (List ℕ))
        {c c' : Context Schema}
        → on_delete_row avro attempts wal_pos relid key old c ≡ running (error, c')
        → Later d true c
        → Later d true c'
    committed :
        (wal_pos xid error : ℕ) {c c' : Context Schema}
        → on_commit_txn wal_pos xid c ≡ running (error, c')
        → Later d true c
        → Later d false c'
    polled :
        (ds : List Delivery) {receiving : Bool} {c c' : Context Schema}
        → poll ds c ≡ running c'
        → Later d receiving c
        → Later d receiving c'
    streamed :
        (x : Stream) {receiving : Bool} {c : Context Schema}
        → Later d receiving c
        → Later d receiving (record c { stream = x })

  -- Between transactions any slot may be the newest.
  abbrev Owes : ℕ → Bool → Context Schema → Type 0
  Owes s false c = IsOwed c.xact_head s c
  Owes s true c = Owing s c

  pub same_head : (h s : ℕ) (c : Context Schema) → IsOwed h s c → IsOwed c.xact_head s c
  same_head h s c o = record {
    slot = refl;
    valid = o.valid;
    in_list = o.in_list;
    inside = o.inside;
    owed = o.owed;
    bounded = o.bounded;
  }

  still_Owing : (h s : ℕ) (c : Context Schema) → s ≢ h → IsOwed h s c → Owing s c
  still_Owing h s c other o = (same_head h s c o, rw o.slot other)

  owes : (s : ℕ) (b : Bool) (c : Context Schema) → Owes s b c → IsOwed c.xact_head s c
  owes s false c o = o
  owes s true c o = o.0

  Owes-after :
      (s : ℕ) (b : Bool) (c c' : Context Schema)
      → Owes s b c
      → IsOwed c.xact_head s c'
      → Owes s b c'
  Owes-after s false c c' o o' = same_head c.xact_head s c' o'
  Owes-after s true c c' o o' = still_Owing c.xact_head s c' o.1 o'

  result_IsOwed :
      (s error : ℕ) (c c' : Context Schema) (m : Run (ℕ × Context Schema))
      → m ≡ running (error, c')
      → Owing s c
      → Holds (λ r. IsOwed c.xact_head s r.1) m
      → Owing s c'
  result_IsOwed s error c c' m e o holds =
      still_Owing c.xact_head s c' o.1 (Holds-result (λ r. IsOwed c.xact_head s r.1) e holds)

  -- What is owed before is owed in every later state.
  Later-Owes :
      (s : ℕ) (d : Context Schema) (b : Bool) (c : Context Schema)
      → IsOwed d.xact_head s d
      → Later d b c
      → Owes s b c
  Later-Owes s d b c o here = o
  Later-Owes s d b c' o (begun polls wal_pos xid error {c} e later) =
      Holds-result (λ r. Owing s r.1) e
        (on_begin_txn-Owing polls wal_pos xid c.xact_head s c (Later-Owes s d false c o later))
  Later-Owes s d b c' o
        (described answers wal_pos relid error name namespace row_json key_json {c} e later) =
      let p = Later-Owes s d true c o later in
      result_IsOwed s error c c' _ e p (
        on_table_schema-IsOwed avro answers wal_pos relid name namespace row_json key_json
          c.xact_head s c p.0)
  Later-Owes s d b c' o (inserted attempts wal_pos relid error key new {c} e later) =
      let p = Later-Owes s d true c o later in
      result_IsOwed s error c c' _ e p
        (on_insert_row-IsOwed avro attempts wal_pos relid key new c.xact_head s c p.1 p.0)
  Later-Owes s d b c' o (updated attempts wal_pos relid error key old new {c} e later) =
      let p = Later-Owes s d true c o later in
      result_IsOwed s error c c' _ e p
        (on_update_row-IsOwed avro attempts wal_pos relid key old new c.xact_head s c p.1 p.0)
  Later-Owes s d b c' o (removed attempts wal_pos relid error key old {c} e later) =
      let p = Later-Owes s d true c o later in
      result_IsOwed s error c c' _ e p
        (on_delete_row-IsOwed avro attempts wal_pos relid key old c.xact_head s c p.1 p.0)
  Later-Owes s d b c' o (committed wal_pos xid error {c} e later) =
      let p = Later-Owes s d true c o later in
      same_head c.xact_head s c' (
        Holds-result (λ r. IsOwed c.xact_head s r.1) e
          (on_commit_txn-IsOwed wal_pos xid c.xact_head s c p.0))
  Later-Owes s d _ c' o (polled ds {receiving} {c} e later) =
      let p = Later-Owes s d receiving c o later in
      Owes-after s receiving c c' p (
        Holds-result (IsOwed c.xact_head s) e
          (poll-IsOwed c.xact_head s ds c (owes s receiving c p)))
  Later-Owes s d _ c' o (streamed x {receiving} {c} later) =
      let p = Later-Owes s d receiving c o later in
      Owes-after s receiving c c' p (stream-IsOwed c.xact_head s x c (owes s receiving c p))

  pub Later-IsOwed :
      (s : ℕ) (d : Context Schema) (b : Bool) (c : Context Schema)
      → IsOwed d.xact_head s d
      → Later d b c
      → IsOwed c.xact_head s c
  Later-IsOwed s d b c o later = owes s b c (Later-Owes s d b c o later)
