-- ===== src/Client/Connect/Keeps.antt =====
-- What the start and the polls of client/connect.c keep of the program's state.
pub mod Polls
use bottledwater_pg.Prelude.{
  ℕ, ◌≡◌, refl, Bool, true, false, not, ◌||◌, Option, none, some, List, [], ◌∷◌, ◌++◌, length, leb,
  ltb, ◌==◌, if◌then◌else◌, codes, if-cases, Bool-cases, Option-cases, inl, inr, arith,
}
use bottledwater_pg.Prelude.Run.{Run, running, exited, ◌>>=◌, Holds, Holds-bind}
use bottledwater_pg.Client.Stream.{Stream, Outside}
use bottledwater_pg.Client.Replication.{Copy, replication_stream_poll}
use bottledwater_pg.Client.Postgres.{QueryResult, Server, is_tuples, is_row, get_value, field_of}
use bottledwater_pg.Client.Connect.{
  SnapshotReader, ClientContext, is_empty, slot_query, exec_sql, client_connect, client_sql_connect,
  client_sql_disconnect, replication_stream_check, replication_slot_exists, replication_slot_create,
  replication_stream_start, slot_made,
}
use bottledwater_pg.Client.Connect.Modes.{
  replication_stream_start-Kept, exec_sql-Kept, snapshot_commands-Same,
}
use bottledwater_pg.Client.Connect.Snapshot.{
  Event, max_table_cnt, reload_query, then_run, and_run, call_back, dispatched, taking,
  export_command, snapshot_commands, snapshot_start, snapshot_tuple, snapshot_tuples, snapshot_poll,
  store_relids, update_repl_table_entry, stream_polled, reloaded, start_stream, slot_found,
  db_client_poll, db_client_start,
}

module _ {W : Type 0} (r : SnapshotReader W) (server : Server) (P : W → Type 0) where
  open r use {reader}

  abbrev pub CallsKeep : Option (ℕ → ℕ → W → Run (ℕ × W)) → Type 0
  CallsKeep none = Unit
  CallsKeep (some f) = (lsn : ℕ) (w : W) → P w → Holds (λ x. P x.1) (f lsn 0 w)

  -- What the parts of the program keep.
  pub record Keeping : Type 0 where
    pub starts_at :
        (lsn : ℕ) (w : W)
        → P w
        → P (reader.with_stream (record (reader.stream w) { start_lsn = lsn }) w)
    pub begins : CallsKeep r.begin_txn
    pub commits : CallsKeep r.commit_txn
    pub activates : (relids : List ℕ) (w : W) → P w → P (r.set_active_schemas relids w)
    pub takes : (b : Bool) (w : W) → P w → P (r.set_taking_snapshot b w)
    pub reads : (frame : List ℕ) (w : W) → P w → Holds (λ x. P x.1) (reader.parse_frame 0 frame w)
    pub polls :
        (o : Outside) (copy : Copy) (w : W)
        → P w
        → Holds (λ x. P x.1) (replication_stream_poll reader o copy w)

  abbrev pub At : ℕ × ClientContext W → Type 0
  At x = P x.1.world

  pub then_run-At :
      (x : ℕ × ClientContext W) (next : ClientContext W → Run (ℕ × ClientContext W))
      → At x
      → ((c : ClientContext W) → P c.world → Holds At (next c))
      → Holds At (then_run r server x next)
  then_run-At (e, c) next p k = elim (Bool-cases (e == 0)) [
    | inl fine ↦ rw fine (k c p)
    | inr failed ↦ rw failed p
  ]

  pub and_run-At :
      (m : Run (ℕ × ClientContext W)) (next : ClientContext W → Run (ℕ × ClientContext W))
      → Holds At m
      → ((c : ClientContext W) → P c.world → Holds At (next c))
      → Holds At (and_run r server m next)
  and_run-At m next h k = Holds-bind At At m _ h (λ x p. then_run-At x next p k)

  module _ (keeping : Keeping) where
    pub call_back-At :
        (g : Option (ℕ → ℕ → W → Run (ℕ × W))) (c : ClientContext W)
        → CallsKeep g
        → P c.world
        → Holds At (call_back r server g c)
    unfolding call_back
    call_back-At none c keeps p = p
    call_back-At (some f) c keeps p =
        Holds-bind (λ x. P x.1) At (f (reader.stream c.world).start_lsn 0 c.world) _
          (keeps (reader.stream c.world).start_lsn c.world p) (λ x q. q)

    dispatched-At : (c : ClientContext W) → P c.world → Holds At (dispatched r server c)
    unfolding call_back
    dispatched-At c p = elim (Bool-cases server.dispatches) [
      | inr fails ↦ rw fails p
      | inl sends ↦ elim (Bool-cases server.single_row_mode) [
        | inr fails ↦ rw (sends, fails) p
        | inl single ↦ rw (sends, single) (call_back-At r.begin_txn c keeping.begins p)
      ]
    ]

    snapshot_start-At : (c : ClientContext W) → P c.world → Holds At (snapshot_start r server c)
    unfolding snapshot_start
    snapshot_start-At c p = elim (Bool-cases (is_empty c.snapshot_name)) [
      | inl empty ↦ rw empty p
      | inr named ↦ rw named (
          then_run-At (snapshot_commands r server c)
            (λ c₁.
              dispatched r server
                (record c₁ { sql_sent = c₁.sql_sent ++ (export_command r server c₁ ∷ []) }))
            (rw (snapshot_commands-Same r server c).1 p)
            (λ c₁ p₁.
              dispatched-At
                (record c₁ { sql_sent = c₁.sql_sent ++ (export_command r server c₁ ∷ []) }) p₁))
    ]

    pub started-At : (c : ClientContext W) → P c.world → At (replication_stream_start r server c)
    started-At c p = rw (replication_stream_start-Kept r server c).1 p

    start_stream-At : (c : ClientContext W) → P c.world → Holds At (start_stream r server c)
    unfolding client_sql_disconnect
    start_stream-At c p =
        started-At (taking r server false (record c { sql_conn = false }))
          (keeping.takes false c.world p)

    connected-At : (c : ClientContext W) → P c.world → At (client_connect r server c)
    unfolding client_connect client_sql_connect
    connected-At c p =
        let same : (client_connect r server c).1.world ≡ c.world = ground arith in rw same p

    checked-At : (c : ClientContext W) → P c.world → At (replication_stream_check r server c)
    unfolding replication_stream_check
    checked-At c p =
        let same : (replication_stream_check r server c).1.world ≡ c.world = ground arith in
        rw same p

    exists-At : (c : ClientContext W) → P c.world → P (replication_slot_exists r server c).2.world
    unfolding replication_slot_exists
    exists-At c p =
        let res = server.sql_result (c.sql_sent ++ (slot_query c.slot_name ∷ [])) in
        elim (Bool-cases (is_empty c.slot_name)) [
          | inl missing ↦ rw missing p
          | inr named ↦ elim (Bool-cases (is_tuples res)) [
            | inr other ↦ rw (named, other) p
            | inl tuples ↦ elim (Option-cases (get_value res.rows 0)) [
              | inl no_row ↦ rw (named, tuples, no_row) p
              | inr (text, there) ↦ elim (Option-cases (server.scan_lsn text)) [
                | inl unread ↦ rw (named, tuples, there, unread) p
                | inr ((h32, l32), scans) ↦
                    rw (named, tuples, there, scans) (keeping.starts_at _ c.world p)
              ]
            ]
          ]
        ]

    made-At :
        (lsn name : Option (List ℕ)) (c : ClientContext W)
        → P c.world
        → At (slot_made r server lsn name c)
    made-At none name c p = p
    made-At (some lsn) none c p = p
    made-At (some lsn) (some name) c p = elim (Option-cases (server.scan_lsn lsn)) [
      | inl unread ↦ rw unread p
      | inr ((h32, l32), scans) ↦ rw scans (keeping.starts_at _ c.world p)
    ]

    create-At : (c : ClientContext W) → P c.world → At (replication_slot_create r server c)
    unfolding replication_slot_create
    create-At c p =
        let create =
          codes "CREATE_REPLICATION_SLOT \""
          ++ (c.slot_name ++ (codes "\" LOGICAL \"" ++ (c.output_plugin ++ codes "\""))) in
        let res = server.repl_result (c.repl_sent ++ (create ∷ [])) in
        elim (Bool-cases (is_empty c.slot_name || is_empty c.output_plugin)) [
          | inl missing ↦ rw missing p
          | inr named ↦ elim (Bool-cases (is_tuples res)) [
            | inr other ↦ rw (named, other) p
            | inl tuples ↦
                elim (Bool-cases (not (length res.rows == 1) || not (res.nfields == 4))) [
                  | inl strange ↦ rw (named, tuples, strange) p
                  | inr one ↦
                      rw (named, tuples, one)
                        (made-At (get_value res.rows 1) (get_value res.rows 2)
                          (record c { repl_sent = c.repl_sent ++ (create ∷ []) }) p)
                ]
          ]
        ]

    abbrev created : ClientContext W → Run (ℕ × ClientContext W)
    created c =
        if c.skip_snapshot
        then start_stream r server c
        else snapshot_start r server (taking r server true c)

    created-At : (c : ClientContext W) → P c.world → Holds At (created c)
    created-At c p =
        if-cases (Holds At) c.skip_snapshot (start_stream r server c)
          (snapshot_start r server (taking r server true c)) (λ skip. start_stream-At c p)
          (λ take. snapshot_start-At (taking r server true c) (keeping.takes true c.world p))

    slot_found-At :
        (found : Bool × ℕ × ClientContext W)
        → P found.2.world
        → Holds At (slot_found r server found)
    slot_found-At (true, e, c) p = elim (Bool-cases (e == 0)) [
      | inr failed ↦ rw failed p
      | inl asked ↦ rw asked (start_stream-At _ p)
    ]
    slot_found-At (false, e, c) p = elim (Bool-cases (e == 0)) [
      | inr failed ↦ rw failed p
      | inl asked ↦ rw asked (
          then_run-At (replication_slot_create r server c)
            (λ c₁. created (record c₁ { slot_created = true })) (create-At c p)
            (λ c₁ p₁. created-At (record c₁ { slot_created = true }) p₁))
    ]

    pub db_client_start-At :
        (c : ClientContext W) → P c.world → Holds At (db_client_start r server c)
    unfolding db_client_start
    db_client_start-At c p = then_run-At (client_connect r server c) _ (connected-At c p) (λ c₁ p₁.
        then_run-At (replication_stream_check r server c₁) _ (checked-At c₁ p₁)
          (λ c₂ p₂. slot_found-At (replication_slot_exists r server c₂) (exists-At c₂ p₂)))
