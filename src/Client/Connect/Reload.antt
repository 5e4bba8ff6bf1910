-- ===== src/Client/Connect/Reload.antt =====
-- A reload of the active tables that fails, in client/connect.c.
use bottledwater_pg.Prelude.{ℕ, ◌≡◌, refl, true, false, none, some, [], ◌∷◌, ◌++◌, codes, eio}
use bottledwater_pg.Prelude.Int.{pos}
use bottledwater_pg.Prelude.Run.{Run, running}
use bottledwater_pg.Client.Postgres.{is_tuples, is_command, Server}
use bottledwater_pg.Client.Connect.{
  SnapshotReader, ClientContext, is_empty, client_sql_connect, replication_stream_start,
}
use bottledwater_pg.Client.Connect.Snapshot.{
  Event, update_repl_table_entry, reload_query, db_client_poll,
}
use bottledwater_pg.Client.Connect.Polls.{end_step}

module _ {W : Type 0} (r : SnapshotReader W) (server : Server) where
  open r use {reader}

  -- After the table of active tables could not be read on a reload, the connection for it stays
  -- open, and the next poll takes it for the end of a snapshot: it calls the commit callback with
  -- xid 0 and starts the stream again, if the server accepts a commit there.
  reload_failure :
      (ev next : Event) (c : ClientContext W) (w : W) (f : ℕ → ℕ → W → Run (ℕ × W))
      → c.sql_conn ≡ false
      → ev.received_reload_signal ≡ true
      → is_empty c.conninfo ≡ false
      → is_empty c.app_name ≡ false
      → server.sql_connects ≡ true
      → is_tuples (server.sql_result (c.sql_sent ++ (reload_query ∷ []))) ≡ false
      → next.busy ≡ false
      → next.result ≡ none
      → is_command
          (server.sql_result ((c.sql_sent ++ (reload_query ∷ [])) ++ (codes "COMMIT" ∷ [])))
        ≡ true
      → r.commit_txn ≡ some f
      → f (reader.stream c.world).start_lsn 0 c.world ≡ running (0, w)
      → let sent = c.sql_sent ++ (reload_query ∷ []) in
        let failed : ClientContext W = record c { sql_conn = true; sql_sent = sent } in
        let ended : ClientContext W = record c {
          sql_conn = false;
          status = pos 1;
          sql_sent = sent ++ (codes "COMMIT" ∷ []);
          world = w;
        } in
        (db_client_poll r server ev c ≡ running (eio, failed))
        × (db_client_poll r server next failed ≡ running (replication_stream_start r server ended))
  unfolding db_client_poll update_repl_table_entry client_sql_connect
  reload_failure ev next c w f closed signalled told named connects fails ready ends commits has
        takes =
      (
        rw (closed, signalled, told, named, connects, fails) refl,
        end_step r server next _ w f ready ends refl commits has takes,
      )
