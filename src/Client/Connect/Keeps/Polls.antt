-- ===== src/Client/Connect/Keeps/Polls.antt =====
-- What a poll of client/connect.c keeps of the program's state.
use bottledwater_pg.Prelude.{
  ℕ, ◌≡◌, Bool, false, Option, none, some, List, [], ◌∷◌, ◌++◌, length, leb, ◌==◌, if◌then◌else◌,
  codes, if-cases, Bool-cases, Option-cases, inl, inr, arith,
}
use bottledwater_pg.Prelude.Int.{pos}
use bottledwater_pg.Prelude.Run.{Run, running, Holds, Holds-bind}
use bottledwater_pg.Client.Replication.{replication_stream_poll}
use bottledwater_pg.Client.Postgres.{QueryResult, Server, is_tuples, is_row, get_value, field_of}
use bottledwater_pg.Client.Connect.{
  SnapshotReader, ClientContext, exec_sql, client_sql_connect, client_sql_disconnect,
  replication_stream_start,
}
use bottledwater_pg.Client.Connect.Modes.{exec_sql-Kept}
use bottledwater_pg.Client.Connect.Snapshot.{
  Event, max_table_cnt, reload_query, and_run, call_back, snapshot_tuple, snapshot_tuples,
  snapshot_poll, store_relids, update_repl_table_entry, stream_polled, reloaded, db_client_poll,
}
use bottledwater_pg.Client.Connect.Keeps.{
  Keeping, At, then_run-At, and_run-At, call_back-At, started-At,
}

module _ {W : Type 0} (r : SnapshotReader W) (server : Server) (P : W → Type 0)
    (keeping : Keeping r server P) where
  open r use {reader}

  abbrev Keeps : ℕ × ClientContext W → Type 0
  Keeps = At r server P

  tuple-At :
      (nfields : ℕ) (binary : Bool) (row : List (Option (List ℕ))) (c : ClientContext W)
      → P c.world
      → Holds Keeps (snapshot_tuple r server nfields binary row c)
  unfolding snapshot_tuple
  tuple-At nfields binary row c p = elim (Bool-cases (nfields == 1)) [
    | inr several ↦ rw several p
    | inl one ↦ elim (Option-cases (field_of 0 row)) [
      | inl missing ↦ rw (one, missing) p
      | inr (value, there) ↦ elim (Bool-cases binary) [
        | inr text ↦ rw (one, there, text) p
        | inl packed ↦
            rw (one, there, packed)
              (Holds-bind (λ x. P x.1) Keeps (reader.parse_frame 0 value c.world) _
                (keeping.reads value c.world p) (λ x q. q))
      ]
    ]
  ]

  tuples-At :
      (nfields : ℕ) (binary : Bool) (rows : List (List (Option (List ℕ)))) (c : ClientContext W)
      → P c.world
      → Holds Keeps (snapshot_tuples r server nfields binary rows c)
  unfolding snapshot_tuples
  tuples-At nfields binary [] c p = p
  tuples-At nfields binary (row ∷ rows) c p =
      Holds-bind Keeps Keeps (snapshot_tuple r server nfields binary row c) _
        (tuple-At nfields binary row c p)
        (λ (e, c₁) p₁. elim (Bool-cases (e == 0)) [
          | inl fine ↦ rw fine (tuples-At nfields binary rows c₁ p₁)
          | inr failed ↦ rw failed p₁
        ])

  snapshot_poll-At :
      (res : Option QueryResult) (c : ClientContext W)
      → P c.world
      → Holds Keeps (snapshot_poll r server res c)
  unfolding snapshot_poll client_sql_disconnect
  snapshot_poll-At none c p =
      then_run-At r server P (exec_sql r server (codes "COMMIT") c)
        (λ c₁. call_back r server r.commit_txn (client_sql_disconnect r server c₁))
        (rw (exec_sql-Kept r server (codes "COMMIT") c).1 p)
        (λ c₁ p₁.
          call_back-At r server P keeping r.commit_txn (record c₁ { sql_conn = false })
            keeping.commits p₁)
  snapshot_poll-At (some res) c p = elim (Bool-cases (is_row res)) [
    | inr other ↦ rw other p
    | inl row ↦ rw row (tuples-At res.nfields res.binary res.rows c p)
  ]

  store_relids-At :
      (rows : List (List (Option (List ℕ)))) (first : Option (List ℕ)) (c : ClientContext W)
      → P c.world
      → Holds Keeps (store_relids r server rows first c)
  store_relids-At rows none c p = p
  store_relids-At rows (some first) c p = elim (Bool-cases (leb (length rows) max_table_cnt)) [
    | inl fits ↦ rw fits (keeping.activates _ c.world p)
    | inr more ↦ rw more tt
  ]

  update-At : (c : ClientContext W) → P c.world → Holds Keeps (update_repl_table_entry r server c)
  unfolding update_repl_table_entry
  update-At c p =
      let res = server.sql_result (c.sql_sent ++ (reload_query ∷ [])) in
      elim (Bool-cases (is_tuples res)) [
        | inr other ↦ rw other p
        | inl tuples ↦ rw tuples (store_relids-At res.rows (get_value res.rows 0) _ p)
      ]

  stream_polled-At :
      (c : ClientContext W) (ev : Event) → P c.world → Holds Keeps (stream_polled r server c ev)
  stream_polled-At c ev p =
      Holds-bind (λ x. P x.1) Keeps (replication_stream_poll reader ev.outside ev.copy c.world) _
        (keeping.polls ev.outside ev.copy c.world p)
        (λ (e, w) q. elim (Bool-cases (e == 0)) [ inl fine ↦ rw fine q | inr failed ↦ rw failed q ])

  reconnected-At : (c : ClientContext W) → P c.world → Keeps (client_sql_connect r server c)
  unfolding client_sql_connect
  reconnected-At c p =
      let same : (client_sql_connect r server c).1.world ≡ c.world = ground arith in rw same p

  -- After the snapshot's poll: the client waits for more, or starts the stream.
  abbrev ended : ClientContext W → Run (ℕ × ClientContext W)
  ended c = if c.sql_conn then running (0, c) else running (replication_stream_start r server c)

  ended-At : (c : ClientContext W) → P c.world → Holds Keeps (ended c)
  ended-At c p =
      if-cases (Holds Keeps) c.sql_conn (running (0, c))
        (running (replication_stream_start r server c)) (λ open_still. p)
        (λ closed. started-At r server P keeping c p)

  abbrev snapshot_polled : Event → ClientContext W → Run (ℕ × ClientContext W)
  snapshot_polled ev c =
      if ev.busy
      then running (0, record c { status = pos 0 })
      else and_run r server (snapshot_poll r server ev.result c)
          (λ c₁. ended (record c₁ { status = pos 1 }))

  snapshot_polled-At :
      (ev : Event) (c : ClientContext W) → P c.world → Holds Keeps (snapshot_polled ev c)
  snapshot_polled-At ev c p = elim (Bool-cases ev.busy) [
    | inl busy ↦ rw busy p
    | inr ready ↦ rw ready (
        and_run-At r server P (snapshot_poll r server ev.result c)
          (λ c₁. ended (record c₁ { status = pos 1 })) (snapshot_poll-At ev.result c p)
          (λ c₁ p₁. ended-At (record c₁ { status = pos 1 }) p₁))
  ]

  reloaded-At :
      (ev : Event) (c : ClientContext W)
      → P c.world
      → Holds Keeps (reloaded r server ev c (λ c₁. stream_polled r server c₁ ev))
  unfolding client_sql_disconnect
  reloaded-At ev c p =
      if-cases (Holds Keeps) ev.received_reload_signal _ _
        (λ signalled.
          then_run-At r server P (client_sql_connect r server c)
            (λ c₁.
              and_run r server (update_repl_table_entry r server c₁)
                (λ c₂. stream_polled r server (client_sql_disconnect r server c₂) ev))
            (reconnected-At c p)
            (λ c₁ p₁.
              and_run-At r server P (update_repl_table_entry r server c₁)
                (λ c₂. stream_polled r server (client_sql_disconnect r server c₂) ev)
                (update-At c₁ p₁)
                (λ c₂ p₂. stream_polled-At (record c₂ { sql_conn = false }) ev p₂)))
        (λ calm. stream_polled-At c ev p)

  pub db_client_poll-At :
      (ev : Event) (c : ClientContext W) → P c.world → Holds Keeps (db_client_poll r server ev c)
  unfolding db_client_poll
  db_client_poll-At ev c p =
      if-cases (Holds Keeps) c.sql_conn (snapshot_polled ev c)
        (reloaded r server ev c (λ c₁. stream_polled r server c₁ ev))
        (λ open_still. snapshot_polled-At ev c p) (λ closed. reloaded-At ev c p)
