-- ===== src/Client/Connect/Modes.antt =====
-- The modes of the client that `db_client_start` leaves.
use bottledwater_pg.Prelude.{
  ℕ, ◌≡◌, refl, Bool, true, false, not, ◌&&◌, Option, none, some, List, ◌++◌, ◌==◌, if◌then◌else◌,
  codes, if-cases, Bool-cases, inl, inr, arith,
}
use bottledwater_pg.Prelude.Run.{Run, Holds, Holds-bind}
use bottledwater_pg.Client.Postgres.{Server}
use bottledwater_pg.Client.Connect.{
  SnapshotReader, ClientContext, is_empty, exec_sql, client_connect, client_sql_connect,
  client_sql_disconnect, replication_stream_check, replication_slot_exists, replication_slot_create,
  replication_stream_start,
}
use bottledwater_pg.Client.Connect.Snapshot.{
  call_back, taking, snapshot_commands, dispatched, snapshot_start, slot_found, start_stream,
  db_client_start,
}

module _ {W : Type 0} (r : SnapshotReader W) (server : Server) where
  open r use {reader, taking_snapshot}

  -- The connection for the snapshot is open if and only if the slot was created and the snapshot is
  -- not skipped, and the flag agrees.
  abbrev pub InMode : ClientContext W → Type 0
  InMode c =
      (c.sql_conn ≡ (c.slot_created && not c.skip_snapshot))
      × (taking_snapshot c.world ≡ c.sql_conn)

  -- The modes are those of before.
  abbrev Kept : ClientContext W → ClientContext W → Type 0
  Kept c d =
      (d.sql_conn ≡ c.sql_conn)
      × (d.skip_snapshot ≡ c.skip_snapshot)
      × (d.slot_created ≡ c.slot_created)

  client_connect-open :
      (c : ClientContext W)
      → (client_connect r server c).0 ≡ 0
      → (client_connect r server c).1.sql_conn ≡ true
  unfolding client_connect client_sql_connect
  client_connect-open c h = ground arith

  replication_stream_check-Kept :
      (c : ClientContext W) → Kept c (replication_stream_check r server c).1
  unfolding replication_stream_check
  replication_stream_check-Kept c = ground arith

  replication_slot_exists-Kept :
      (c : ClientContext W) → Kept c (replication_slot_exists r server c).2
  unfolding replication_slot_exists
  replication_slot_exists-Kept c = ground arith

  replication_slot_create-Kept :
      (c : ClientContext W) → Kept c (replication_slot_create r server c).1
  unfolding replication_slot_create
  replication_slot_create-Kept c = ground arith

  pub replication_stream_start-Kept :
      (c : ClientContext W)
      → Kept c (replication_stream_start r server c).1
        × ((replication_stream_start r server c).1.world ≡ c.world)
  unfolding replication_stream_start
  replication_stream_start-Kept c = ground arith

  pub exec_sql-Kept :
      (query : List ℕ) (c : ClientContext W)
      → Kept c (exec_sql r server query c).1 × ((exec_sql r server query c).1.world ≡ c.world)
  unfolding exec_sql
  exec_sql-Kept query c = ground arith

  -- The callback for the snapshot's begin, if there is one, leaves the flag.
  abbrev pub KeepsFlag : Option (ℕ → ℕ → W → Run (ℕ × W)) → Type 0
  KeepsFlag none = Unit
  KeepsFlag (some f) =
      (lsn : ℕ) (w : W) → Holds (λ x. taking_snapshot x.1 ≡ taking_snapshot w) (f lsn 0 w)

  abbrev pub BeginKeeps : Type 0
  BeginKeeps = KeepsFlag r.begin_txn

  -- What the start leaves, unless it fails.
  abbrev pub Started : ℕ × ClientContext W → Type 0
  Started x = x.0 ≡ 0 → InMode x.1

  abbrev Taking : ClientContext W → Type 0
  Taking c =
      (c.sql_conn ≡ true)
      × (c.slot_created ≡ true)
      × (c.skip_snapshot ≡ false)
      × (taking_snapshot c.world ≡ true)

  call_back-Started :
      (g : Option (ℕ → ℕ → W → Run (ℕ × W))) (c : ClientContext W)
      → KeepsFlag g
      → Taking c
      → Holds Started (call_back r server g c)
  unfolding call_back
  call_back-Started none c keeps t = λ fine. ground arith
  call_back-Started (some f) c keeps t =
      Holds-bind (λ x. taking_snapshot x.1 ≡ taking_snapshot c.world) Started
        (f (reader.stream c.world).start_lsn 0 c.world) _
        (keeps (reader.stream c.world).start_lsn c.world) (λ x same fine. ground arith)

  dispatched-Started :
      (c : ClientContext W) → BeginKeeps → Taking c → Holds Started (dispatched r server c)
  unfolding call_back
  dispatched-Started c keeps t = elim (Bool-cases server.dispatches) [
    | inr fails ↦ rw fails (λ fine. absurd (ground arith))
    | inl sends ↦ elim (Bool-cases server.single_row_mode) [
      | inr fails ↦ rw (sends, fails) (λ fine. absurd (ground arith))
      | inl single ↦ rw (sends, single) (call_back-Started r.begin_txn c keeps t)
    ]
  ]

  abbrev Same : ClientContext W → ClientContext W → Type 0
  Same c d = Kept c d × (d.world ≡ c.world)

  pub snapshot_commands-Same : (c : ClientContext W) → Same c (snapshot_commands r server c).1
  snapshot_commands-Same c =
      let level = codes "SET TRANSACTION ISOLATION LEVEL REPEATABLE READ" in
      let c₁ = (exec_sql r server (codes "BEGIN") c).1 in
      let c₂ = (exec_sql r server level c₁).1 in
      let import = codes "SET TRANSACTION SNAPSHOT '" ++ (c₂.snapshot_name ++ codes "'") in
      let first = exec_sql-Kept (codes "BEGIN") c in
      let second = exec_sql-Kept level c₁ in
      elim (Bool-cases ((exec_sql r server (codes "BEGIN") c).0 == 0)) [
        | inr failed ↦ rw failed first
        | inl began ↦ elim (Bool-cases ((exec_sql r server level c₁).0 == 0)) [
          | inr failed ↦ rw (began, failed) (ground (arith, first, second))
          | inl levelled ↦
              rw (began, levelled) (ground (arith, first, second, exec_sql-Kept import c₂))
        ]
      ]

  snapshot_start-Started :
      (c : ClientContext W) → BeginKeeps → Taking c → Holds Started (snapshot_start r server c)
  unfolding snapshot_start
  snapshot_start-Started c keeps t = elim (Bool-cases (is_empty c.snapshot_name)) [
    | inl empty ↦ rw empty (λ fine. absurd (ground arith))
    | inr named ↦
        let kept = snapshot_commands-Same c in
        elim (Bool-cases ((snapshot_commands r server c).0 == 0)) [
          | inr failed ↦ rw (named, failed) (λ fine. absurd (ground arith))
          | inl sent ↦ rw (named, sent) (dispatched-Started _ keeps (ground (arith, kept)))
        ]
  ]

  start_stream-Started :
      (c : ClientContext W)
      → (c.slot_created && not c.skip_snapshot) ≡ false
      → Holds Started (start_stream r server c)
  unfolding client_sql_disconnect
  start_stream-Started c no_snapshot =
      let closed : ClientContext W = taking r server false (record c { sql_conn = false }) in
      λ fine. ground (
        arith,
        no_snapshot,
        replication_stream_start-Kept closed,
        r.taking_snapshot_set false c.world,
      )

  created-Started :
      (c : ClientContext W)
      → BeginKeeps
      → c.sql_conn ≡ true
      → c.slot_created ≡ true
      → Holds Started (
          if c.skip_snapshot
          then start_stream r server c
          else snapshot_start r server (taking r server true c))
  created-Started c keeps open_still created =
      if-cases (Holds Started) _ _ _
        (λ skip. start_stream-Started c (ground (arith, skip, created)))
        (λ take.
          snapshot_start-Started (taking r server true c) keeps
            (open_still, created, take, r.taking_snapshot_set true c.world))

  slot_found-Started :
      (found : Bool × ℕ × ClientContext W)
      → BeginKeeps
      → found.2.sql_conn ≡ true
      → Holds Started (slot_found r server found)
  slot_found-Started (true, e, c) keeps open_still = elim (Bool-cases (e == 0)) [
    | inr failed ↦ rw failed (λ fine. absurd (ground arith))
    | inl asked ↦ rw asked (start_stream-Started (record c { slot_created = false }) refl)
  ]
  slot_found-Started (false, e, c) keeps open_still =
      let (e', c₁) = replication_slot_create r server c in
      let kept = replication_slot_create-Kept c in
      elim (Bool-cases (e == 0)) [
        | inr failed ↦ rw failed (λ fine. absurd (ground arith))
        | inl asked ↦ elim (Bool-cases (e' == 0)) [
          | inr failed ↦ rw (asked, failed) (λ fine. absurd (ground arith))
          | inl made ↦
              rw (asked, made)
                (created-Started (record c₁ { slot_created = true }) keeps
                  (ground (arith, kept, open_still)) refl)
        ]
      ]

  -- If the callback for the snapshot's begin leaves the flag of the snapshot, then after a start
  -- without an error the connection for the snapshot is open, and the flag is set, if and only if the
  -- slot was created and the snapshot is not skipped.
  pub db_client_start-InMode :
      (c : ClientContext W) → BeginKeeps → Holds Started (db_client_start r server c)
  unfolding db_client_start
  db_client_start-InMode c keeps =
      let (e₁, c₁) = client_connect r server c in
      let (e₂, c₂) = replication_stream_check r server c₁ in
      elim (Bool-cases (e₁ == 0)) [
        | inr failed ↦ rw failed (λ fine. absurd (ground arith))
        | inl connected ↦ elim (Bool-cases (e₂ == 0)) [
          | inr failed ↦ rw (connected, failed) (λ fine. absurd (ground arith))
          | inl checked ↦
              rw (connected, checked)
                (slot_found-Started (replication_slot_exists r server c₂) keeps (
                  ground (
                    arith,
                    connected,
                    client_connect-open c,
                    replication_stream_check-Kept c₁,
                    replication_slot_exists-Kept c₂,
                  )))
        ]
      ]
