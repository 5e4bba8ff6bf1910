-- ===== src/Client/Connect/Snapshot.antt =====
-- client/connect.c: starting, and polling for data of the snapshot or of the stream.
use bottledwater_pg.Prelude.{
  ℕ, Bool, true, false, not, ◌&&◌, Option, none, some, List, [], ◌∷◌, ◌++◌, length, leb, ◌==◌,
  if◌then◌else◌, codes, einval, eio,
}
use bottledwater_pg.Prelude.Int.{pos}
use bottledwater_pg.Prelude.Run.{Run, running, exited, ◌>>=◌}
use bottledwater_pg.Client.Stream.{Outside}
use bottledwater_pg.Client.Replication.{Copy, replication_stream_poll}
use bottledwater_pg.Client.Postgres.{QueryResult, is_tuples, is_row, get_value, field_of, Server}
use bottledwater_pg.Client.Connect.{
  SnapshotReader, ClientContext, is_empty, check, ask_sql, exec_sql, client_connect,
  client_sql_connect, client_sql_disconnect, replication_stream_check, replication_slot_exists,
  replication_slot_create, replication_stream_start,
}

-- MAX_TABLE_CNT
abbrev pub max_table_cnt : ℕ
max_table_cnt = 512

-- The query for the active tables.
abbrev pub reload_query : List ℕ
reload_query = codes "SELECT reloid, table_name from tbl_mapps ORDER BY reloid"

-- What `db_client_poll` finds: whether the snapshot's connection is busy, the result that
-- `PQgetResult` gives there, whether the reload signal was received, and what the stream finds.
pub record Event : Type 0 where
  pub busy : Bool
  pub result : Option QueryResult
  pub received_reload_signal : Bool
  pub outside : Outside
  pub copy : Copy

-- What `select` gives: a timeout, a signal, another error with its number, or data.
pub data Select : Type 0 where
  timeout interrupted ready : Select
  failed : ℕ → Select

module _ {W : Type 0} (r : SnapshotReader W) (server : Server) where
  open r use {reader}

  abbrev pub Outcome : Type 0
  Outcome = Run (ℕ × ClientContext W)

  -- The macros `check` and `checkRepl`, when a callback may follow.
  abbrev pub then_run : ℕ × ClientContext W → (ClientContext W → Outcome) → Outcome
  then_run (e, c) next = if e == 0 then next c else running (e, c)

  -- A callback of the frame reader, with the position of the stream and xid 0.
  unfoldable pub call_back : Option (ℕ → ℕ → W → Run (ℕ × W)) → ClientContext W → Outcome
  call_back none c = running (0, c)
  call_back (some f) c = do
    (e, w) ← f (reader.stream c.world).start_lsn 0 c.world
    running (e, record c { world = w })

  abbrev pub dispatched : ClientContext W → Outcome
  dispatched c =
      if not server.dispatches
      then running (eio, c)
      else if not server.single_row_mode
      then running (eio, c)
      else call_back r.begin_txn c

  -- The command, whose parameters follow its text.
  abbrev pub export_command : ClientContext W → List ℕ
  export_command c =
      codes "SELECT bottledwater_export(table_pattern := %, allow_unkeyed := "
      ++ ((if c.allow_unkeyed then codes "t" else codes "f")
          ++ (codes ", error_policy := " ++ (c.error_policy ++ codes ")")))

  abbrev pub snapshot_commands : ClientContext W → ℕ × ClientContext W
  snapshot_commands c = check r server (exec_sql r server (codes "BEGIN") c) (λ c₁.
      check r server
        (exec_sql r server (codes "SET TRANSACTION ISOLATION LEVEL REPEATABLE READ") c₁)
        (λ c₂.
          exec_sql r server (codes "SET TRANSACTION SNAPSHOT '" ++ (c₂.snapshot_name ++ codes "'"))
            c₂))

  unfoldable pub snapshot_start : ClientContext W → Outcome
  unfolding exec_sql call_back
  snapshot_start c =
      if is_empty c.snapshot_name
      then running (einval, c)
      else then_run (snapshot_commands c)
          (λ c₁. dispatched (record c₁ { sql_sent = c₁.sql_sent ++ (export_command c₁ ∷ []) }))

  -- One tuple of a result with so many fields, in binary format or not.
  unfoldable pub snapshot_tuple : ℕ → Bool → List (Option (List ℕ)) → ClientContext W → Outcome
  snapshot_tuple nfields binary row c =
      if not (nfields == 1) then running (eio, c) else elim (field_of 0 row) [
        | none ↦ running (eio, c)
        | some value ↦ if not binary then running (eio, c) else (do
          (e, w) ← reader.parse_frame 0 value c.world
          running (e, record c { world = w }))
      ]

  -- The loop over the tuples of a result.
  unfoldable pub snapshot_tuples :
      ℕ → Bool → List (List (Option (List ℕ))) → ClientContext W → Outcome
  unfolding snapshot_tuple
  snapshot_tuples nfields binary [] c = running (0, c)
  snapshot_tuples nfields binary (row ∷ rows) c = do
    (e, c₁) ← snapshot_tuple nfields binary row c
    (let rest = snapshot_tuples nfields binary rows c₁ in if e == 0 then rest else running (e, c₁))

  unfoldable pub snapshot_poll : Option QueryResult → ClientContext W → Outcome
  unfolding exec_sql call_back snapshot_tuples client_sql_disconnect
  snapshot_poll none c =
      then_run (exec_sql r server (codes "COMMIT") c)
        (λ c₁. call_back r.commit_txn (client_sql_disconnect r server c₁))
  snapshot_poll (some res) c =
      if not (is_row res)
      then running (eio, c)
      else snapshot_tuples res.nfields res.binary res.rows c

  abbrev pub relids : List (List (Option (List ℕ))) → List ℕ
  relids [] = []
  relids (row ∷ rows) = elim (field_of 0 row) [
    | none ↦ server.atoll [] ∷ relids rows
    | some text ↦ server.atoll text ∷ relids rows
  ]

  -- The list is replaced if the first row holds a number. A write past its end is the end here.
  abbrev pub store_relids :
      List (List (Option (List ℕ))) → Option (List ℕ) → ClientContext W → Outcome
  store_relids rows none c = running (0, c)
  store_relids rows (some first) c =
      if leb (length rows) max_table_cnt
      then running (0, record c { world = r.set_active_schemas (relids rows) c.world })
      else exited (record { status = 139; slot_dropped = false })

  unfoldable pub update_repl_table_entry : ClientContext W → Outcome
  update_repl_table_entry c =
      let (res, c₁) = ask_sql r server reload_query c in
      if not (is_tuples res)
      then running (eio, c₁)
      else store_relids res.rows (get_value res.rows 0) c₁

  abbrev pub stream_polled : ClientContext W → Event → Outcome
  stream_polled c ev = do
    (e, w) ← replication_stream_poll reader ev.outside ev.copy c.world
    (let c₁ : ClientContext W = record c { world = w } in
        if e == 0
        then running (0, record c₁ { status = (reader.stream w).status })
        else running (e, c₁))

  abbrev pub and_run : Outcome → (ClientContext W → Outcome) → Outcome
  and_run m next = do (e, c) ← m; (if e == 0 then next c else running (e, c))

  -- The reload before the stream is polled.
  abbrev pub reloaded : Event → ClientContext W → (ClientContext W → Outcome) → Outcome
  reloaded ev c next =
      if ev.received_reload_signal
      then then_run (client_sql_connect r server c) (λ c₁.
        and_run (update_repl_table_entry c₁) (λ c₂. next (client_sql_disconnect r server c₂)))
      else next c

  unfoldable pub db_client_poll : Event → ClientContext W → Outcome
  unfolding snapshot_poll replication_stream_start client_sql_connect update_repl_table_entry
      client_sql_disconnect
  db_client_poll ev c =
      if c.sql_conn
      then (if ev.busy
          then running (0, record c { status = pos 0 })
          else and_run (snapshot_poll ev.result c) (λ c₁.
            let c₂ : ClientContext W = record c₁ { status = pos 1 } in
            if c₂.sql_conn
            then running (0, c₂)
            else running (replication_stream_start r server c₂)))
      else reloaded ev c (λ c₁. stream_polled c₁ ev)

  abbrev pub taking : Bool → ClientContext W → ClientContext W
  taking b c = record c { world = r.set_taking_snapshot b c.world }

  abbrev pub start_stream : ClientContext W → Outcome
  start_stream c =
      running (replication_stream_start r server (taking false (client_sql_disconnect r server c)))

  abbrev pub slot_found : Bool × ℕ × ClientContext W → Outcome
  slot_found (exists, e, c) =
      if not (e == 0)
      then running (e, c)
      else if exists
      then start_stream (record c { slot_created = false })
      else then_run (replication_slot_create r server c) (λ c₁.
        let c₂ : ClientContext W = record c₁ { slot_created = true } in
        if c₂.skip_snapshot then start_stream c₂ else snapshot_start (taking true c₂))

  unfoldable pub db_client_start : ClientContext W → Outcome
  unfolding client_connect replication_stream_check replication_slot_exists replication_slot_create
      replication_stream_start client_sql_disconnect snapshot_start
  db_client_start c = then_run (client_connect r server c) (λ c₁.
      then_run (replication_stream_check r server c₁)
        (λ c₂. slot_found (replication_slot_exists r server c₂)))

  -- Whether `PQconsumeInput` then succeeds on the replication connection and on the other one.
  unfoldable pub db_client_wait : Select → (repl_consumed sql_consumed : Bool) → ClientContext W → ℕ
  db_client_wait Select.timeout repl_consumed sql_consumed c = 0
  db_client_wait Select.interrupted repl_consumed sql_consumed c = 0
  db_client_wait (Select.failed errno) repl_consumed sql_consumed c = errno
  db_client_wait Select.ready repl_consumed sql_consumed c =
      if not repl_consumed then eio else if c.sql_conn && not sql_consumed then eio else 0

  unfoldable pub db_client_set_error_policy : List ℕ → ClientContext W → ClientContext W
  db_client_set_error_policy policy c = record c { error_policy = policy }
