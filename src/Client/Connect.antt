-- ===== src/Client/Connect.antt =====
-- client/connect.c and the commands of client/replication.c: connecting, the snapshot, and the
-- switch to the replication stream.
pub mod Snapshot
pub mod Polls
pub mod Params
pub mod Reload
pub mod Modes
pub mod Keeps
pub mod Resumes
pub mod Tests
use bottledwater_pg.Prelude.{
  ℕ, zero, suc, ◌+◌, ◌*◌, ◌/◌, ◌%◌, ◌^◌, ◌<◌, ◌≡◌, Bool, true, false, not, ◌&&◌, ◌||◌, Option, none,
  some, List, [], ◌∷◌, ◌++◌, length, get_elem?, ltb, leb, ◌==◌, if◌then◌else◌, codes, einval, eio,
}
use bottledwater_pg.Prelude.Int.{ℤ, pos, negsuc}
use bottledwater_pg.Prelude.Run.{Run, running, exited, ◌>>=◌}
use bottledwater_pg.Client.Postgres.{
  ExecStatus, QueryResult, is_tuples, is_command, is_copy, is_row, field_of, get_value, Server,
}
use bottledwater_pg.Client.Stream.{Stream, Outside}
use bottledwater_pg.Client.Replication.{Reader, Copy, replication_stream_poll}

-- The program's frame reader, with the callbacks that the snapshot calls itself, and its list of
-- active tables. `taking_snapshot` is the field of `client_context`, which the callbacks change too.
pub record SnapshotReader (W : Type 0) : Type 0 where
  pub reader : Reader W
  pub begin_txn : Option (ℕ → ℕ → W → Run (ℕ × W))
  pub commit_txn : Option (ℕ → ℕ → W → Run (ℕ × W))
  pub set_active_schemas : List ℕ → W → W
  pub taking_snapshot : W → Bool
  pub set_taking_snapshot : Bool → W → W
  pub taking_snapshot_set : (b : Bool) (w : W) → taking_snapshot (set_taking_snapshot b w) ≡ b

-- `client_context`, in which a text that is not set is empty, with the commands that its connections
-- were sent, and the program's state.
pub record ClientContext (W : Type 0) : Type 0 where
  pub conninfo : List ℕ
  pub app_name : List ℕ
  pub error_policy : List ℕ
  pub slot_name : List ℕ
  pub output_plugin : List ℕ
  pub snapshot_name : List ℕ
  pub sql_conn : Bool
  pub allow_unkeyed : Bool
  pub skip_snapshot : Bool
  pub slot_created : Bool
  pub status : ℤ
  pub sql_sent : List (List ℕ)
  pub repl_sent : List (List ℕ)
  pub world : W

abbrev is_empty : List ℕ → Bool
is_empty [] = true
is_empty (b ∷ bs) = false

-- The query for a slot, whose parameter follows its text.
abbrev pub slot_query : List ℕ → List ℕ
slot_query slot_name =
    codes "SELECT restart_lsn FROM pg_replication_slots where slot_name = " ++ slot_name

-- The options with a value.
unfoldable pub kept_options : List (List ℕ × List ℕ) → List (List ℕ × List ℕ)
kept_options [] = []
kept_options ((keyword, val) ∷ rest) =
    let others = kept_options rest in if is_empty val then others else (keyword, val) ∷ others

-- `optcount` after the first loop, over a count of 2.
unfoldable pub option_count : List (List ℕ × List ℕ) → ℕ → ℕ
option_count [] optcount = optcount
option_count ((keyword, val) ∷ rest) optcount =
    option_count rest (if is_empty val then optcount else optcount + 1)

-- The entries of `keys` and `values` before the null pointers that end them.
unfoldable pub connection_params : List (List ℕ × List ℕ) → List ℕ → List (List ℕ × List ℕ)
unfolding kept_options
connection_params parsed_opts app_name =
    kept_options parsed_opts
    ++ ((codes "replication", codes "database")
        ∷ (codes "fallback_application_name", app_name)
        ∷ [])

module _ {W : Type 0} (r : SnapshotReader W) (server : Server) where
  open r use {reader}

  abbrev pub Context : Type 0
  Context = ClientContext W

  -- The macros `check` and `checkRepl`.
  abbrev pub check : ℕ × Context → (Context → ℕ × Context) → ℕ × Context
  check (e, c) next = if e == 0 then next c else (e, c)

  abbrev pub ask_sql : List ℕ → Context → QueryResult × Context
  ask_sql command c =
      let sent = c.sql_sent ++ (command ∷ []) in
      (server.sql_result sent, record c { sql_sent = sent })

  abbrev pub ask_repl : List ℕ → Context → QueryResult × Context
  ask_repl command c =
      let sent = c.repl_sent ++ (command ∷ []) in
      (server.repl_result sent, record c { repl_sent = sent })

  unfoldable pub exec_sql : List ℕ → Context → ℕ × Context
  exec_sql query c =
      let (res, c₁) = ask_sql query c in if is_command res then (0, c₁) else (eio, c₁)

  abbrev connect_repl : Option (List (List ℕ × List ℕ)) → Context → ℕ × Context
  connect_repl none c = (eio, c)
  connect_repl (some parsed_opts) c =
      if server.repl_connects (connection_params parsed_opts c.app_name) then (0, c) else (eio, c)

  -- A connection that failed is not closed.
  unfoldable pub client_sql_connect : Context → ℕ × Context
  client_sql_connect c =
      if is_empty c.conninfo || is_empty c.app_name
      then (einval, c)
      else if server.sql_connects
      then (0, record c { sql_conn = true })
      else (eio, record c { sql_conn = true })

  unfoldable pub client_connect : Context → ℕ × Context
  unfolding client_sql_connect connection_params
  client_connect c =
      check (client_sql_connect c) (λ c₁. connect_repl (server.conninfo_parse c₁.conninfo) c₁)

  unfoldable pub client_sql_disconnect : Context → Context
  client_sql_disconnect c = record c { sql_conn = false }

  unfoldable pub replication_stream_check : Context → ℕ × Context
  replication_stream_check c =
      let (res, c₁) = ask_repl (codes "IDENTIFY_SYSTEM") c in
      if not (is_tuples res)
      then (eio, c₁)
      else if not (length res.rows == 1) || ltb res.nfields 4
      then (eio, c₁)
      else elim (get_value res.rows 3) [ none ↦ (eio, c₁) | some name ↦ (0, c₁) ]

  abbrev set_start_lsn : ℕ → Context → Context
  set_start_lsn lsn c = record c {
    world = reader.with_stream (record (reader.stream c.world) { start_lsn = lsn }) c.world;
  }

  -- The position of a text, unless it cannot be scanned.
  abbrev scanned : Option (ℕ × ℕ) → Context → ℕ × Context
  scanned none c = (eio, c)
  scanned (some (h32, l32)) c = (0, set_start_lsn (h32 * 2 ^ 32 + l32) c)

  -- Whether the slot exists, then the error and the context.
  abbrev restart_at : Option (List ℕ) → Context → Bool × ℕ × Context
  restart_at none c = (false, 0, c)
  restart_at (some text) c = let (e, c₁) = scanned (server.scan_lsn text) c in (true, e, c₁)

  unfoldable pub replication_slot_exists : Context → Bool × ℕ × Context
  replication_slot_exists c =
      let (res, c₁) = ask_sql (slot_query c.slot_name) c in
      if is_empty c.slot_name
      then (false, einval, c)
      else if not (is_tuples res)
      then (false, eio, c₁)
      else restart_at (get_value res.rows 0) c₁

  abbrev slot_made : Option (List ℕ) → Option (List ℕ) → Context → ℕ × Context
  slot_made (some lsn) (some name) c =
      check (scanned (server.scan_lsn lsn) c) (λ c₁. (0, record c₁ { snapshot_name = name }))
  slot_made _ _ c = (eio, c)

  unfoldable pub replication_slot_create : Context → ℕ × Context
  replication_slot_create c =
      let (res, c₁) =
        ask_repl
          (codes "CREATE_REPLICATION_SLOT \""
            ++ (c.slot_name ++ (codes "\" LOGICAL \"" ++ (c.output_plugin ++ codes "\""))))
          c in
      if is_empty c.slot_name || is_empty c.output_plugin
      then (einval, c)
      else if not (is_tuples res)
      then (eio, c₁)
      else if not (length res.rows == 1) || not (res.nfields == 4)
      then (eio, c₁)
      else slot_made (get_value res.rows 1) (get_value res.rows 2) c₁

  unfoldable pub replication_slot_drop : Context → ℕ × Context
  replication_slot_drop c =
      let (res, c₁) =
        ask_repl (codes "DROP_REPLICATION_SLOT \"" ++ (c.slot_name ++ codes "\"")) c in
      if is_command res then (0, c₁) else (eio, c₁)

  -- The command that starts the stream, from the position that the stream holds.
  unfoldable pub start_command : Context → List ℕ
  start_command c =
      let lsn = (reader.stream c.world).start_lsn in
      codes "START_REPLICATION SLOT \""
      ++ (c.slot_name
          ++ (codes "\" LOGICAL "
              ++ (server.print_hex (lsn / 2 ^ 32 % 2 ^ 32)
                  ++ (codes "/"
                      ++ (server.print_hex (lsn % 2 ^ 32)
                          ++ (codes " (\"error_policy\" '" ++ (c.error_policy ++ codes "')")))))))

  unfoldable pub replication_stream_start : Context → ℕ × Context
  unfolding start_command
  replication_stream_start c =
      let (res, c₁) = ask_repl (start_command c) c in if is_copy res then (0, c₁) else (eio, c₁)
