-- ===== src/Client/Connect/Resumes.antt =====
-- `db_client_start` of client/connect.c on a replication slot that exists.
use bottledwater_pg.Prelude.{
  ℕ, ◌≡◌, Bool, true, false, some, List, [], ◌∷◌, ◌++◌, ◌==◌, Bool-cases, Option-cases, inl, inr,
  arith,
}
use bottledwater_pg.Prelude.Run.{Holds}
use bottledwater_pg.Client.Stream.{Stream}
use bottledwater_pg.Client.Postgres.{Server, is_tuples, get_value}
use bottledwater_pg.Client.Connect.{
  SnapshotReader, ClientContext, is_empty, slot_query, client_connect, client_sql_connect,
  client_sql_disconnect, replication_stream_check, replication_slot_exists,
}
use bottledwater_pg.Client.Connect.Modes.{replication_stream_start-Kept}
use bottledwater_pg.Client.Connect.Snapshot.{taking, slot_found, start_stream, db_client_start}

module _ {W : Type 0} (r : SnapshotReader W) (server : Server) (P : W → Type 0)
    (streams : (s : Stream) (w : W) → P w → P (r.reader.with_stream s w))
    (takes : (b : Bool) (w : W) → P w → P (r.set_taking_snapshot b w)) where
  open r use {reader}

  -- The server answers the query for the context's slot with a row.
  abbrev HasSlot : List ℕ → ClientContext W → Type 0
  HasSlot text c =
      let res = server.sql_result (c.sql_sent ++ (slot_query c.slot_name ∷ [])) in
      (is_tuples res ≡ true) × (get_value res.rows 0 ≡ some text)

  -- Unless the start fails: the stream is started, and the program's state is as good as before.
  abbrev Resumed : ℕ × ClientContext W → Type 0
  Resumed x = x.0 ≡ 0 → (x.1.sql_conn ≡ false) × P x.1.world

  start_stream-Resumed : (c : ClientContext W) → P c.world → Holds Resumed (start_stream r server c)
  unfolding client_sql_disconnect
  start_stream-Resumed c p =
      let closed : ClientContext W = taking r server false (record c { sql_conn = false }) in
      let (kept, same) = replication_stream_start-Kept r server closed in
      λ fine. (ground (arith, kept), rw same (takes false c.world p))

  found-Resumed :
      (text : List ℕ) (c : ClientContext W)
      → HasSlot text c
      → P c.world
      → Holds Resumed (slot_found r server (replication_slot_exists r server c))
  unfolding replication_slot_exists
  found-Resumed text c (tuples, there) p = elim (Bool-cases (is_empty c.slot_name)) [
    | inl missing ↦ rw missing (λ fine. absurd (ground arith))
    | inr named ↦ elim (Option-cases (server.scan_lsn text)) [
      | inl unread ↦ rw (named, tuples, there, unread) (λ fine. absurd (ground arith))
      | inr ((h32, l32), scans) ↦
          rw (named, tuples, there, scans) (start_stream-Resumed _ (streams _ c.world p))
    ]
  ]

  -- The slot's query is the first one, and the state is the same.
  abbrev Untouched : ClientContext W → ClientContext W → Type 0
  Untouched c d = (d.sql_sent ≡ c.sql_sent) × (d.slot_name ≡ c.slot_name) × (d.world ≡ c.world)

  client_connect-Untouched : (c : ClientContext W) → Untouched c (client_connect r server c).1
  unfolding client_connect client_sql_connect
  client_connect-Untouched c = ground arith

  check-Untouched : (c : ClientContext W) → Untouched c (replication_stream_check r server c).1
  unfolding replication_stream_check
  check-Untouched c = ground arith

  pub db_client_start-Resumed :
      (text : List ℕ) (c : ClientContext W)
      → HasSlot text c
      → P c.world
      → Holds Resumed (db_client_start r server c)
  unfolding db_client_start
  db_client_start-Resumed text c slot p =
      let (e₁, c₁) = client_connect r server c in
      let (e₂, c₂) = replication_stream_check r server c₁ in
      let (sent₁, name₁, world₁) = client_connect-Untouched c in
      let (sent₂, name₂, world₂) = check-Untouched c₁ in
      elim (Bool-cases (e₁ == 0)) [
        | inr failed ↦ rw failed (λ fine. absurd (ground arith))
        | inl connected ↦ elim (Bool-cases (e₂ == 0)) [
          | inr failed ↦ rw (connected, failed) (λ fine. absurd (ground arith))
          | inl checked ↦
              rw (connected, checked)
                (found-Resumed text c₂ (rw (sent₂, name₂, sent₁, name₁) slot)
                  (rw (world₂, world₁) p))
        ]
      ]
