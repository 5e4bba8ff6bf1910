-- ===== src/Client/Bwtest.antt =====
-- client/bwtest.c: a program that prints what the frame reader gives it.
pub mod Flushed
pub mod Main
pub mod Runs
pub mod Tests
use bottledwater_pg.Prelude.{
  ℕ, zero, ◌≡◌, refl, Bool, true, false, not, ◌||◌, Option, none, some, List, [], ◌∷◌, ◌++◌, codes,
  ◌==◌, if◌then◌else◌, max, Result, ok, err,
}
use bottledwater_pg.Prelude.Int.{ℤ, pos, negsuc}
use bottledwater_pg.Prelude.Run.{Run, running, exited, ◌>>=◌}
use bottledwater_pg.Client.Stream.{Stream, Outside}
use bottledwater_pg.Client.Replication.{Copy}
use bottledwater_pg.Client.Postgres.{QueryResult, Server}
use bottledwater_pg.Client.Frames.{Avro, Callbacks, State, frame_reader_new}
use bottledwater_pg.Client.Connect.{ClientContext}
use bottledwater_pg.Client.Connect.Snapshot.{
  Event, Select, db_client_start, db_client_poll, db_client_wait,
}
use bottledwater_pg.Client.Program.{FrameDecoder, HoldsClient, snapshot_reader}

-- A line of the output, on the standard output or (the first two) on the standard error.
pub data Line : Type 0 where
  snapshot_begins : Line
  snapshot_complete : (wal_pos : ℕ) → Line
  begin_line commit_line : (xid wal_pos : ℕ) → Line
  schema_line : (relid : ℕ) (key : Option (List ℕ)) (row : List ℕ) → Line
  insert_line : (table : List ℕ) (key : Option (List ℕ)) (new : List ℕ) → Line
  update_line : (table : List ℕ) (key old : Option (List ℕ)) (new : List ℕ) → Line
  delete_line : (table : Option (List ℕ)) (relid : ℕ) (key old : Option (List ℕ)) → Line

-- The part of the client context that the callbacks use, and what was printed, oldest first.
pub record TestContext : Type 0 where
  pub stream : Stream
  pub taking_snapshot : Bool
  pub printed : List Line

-- What libavro makes of the values that were read for a table: their JSON, and their schema's name.
pub record Rendering : Type 0 where
  pub key_to_json : (relid : ℕ) → List ℕ → Result (List ℕ)
  pub row_to_json : (relid : ℕ) → List ℕ → Result (List ℕ)
  pub row_name : (relid : ℕ) → List ℕ

abbrev print : Line → TestContext → TestContext
print line c = record c { printed = c.printed ++ (line ∷ []) }

unfoldable pub checkpoint : ℕ → TestContext → TestContext
checkpoint wal_pos c = record c {
  stream = record (c.stream) { fsync_lsn = max wal_pos c.stream.fsync_lsn };
}

unfoldable pub print_begin_txn : ℕ → ℕ → TestContext → Run (ℕ × TestContext)
unfolding checkpoint
print_begin_txn wal_pos xid c =
    if xid == 0
    then running (0, print Line.snapshot_begins c)
    else running (0, checkpoint wal_pos (print (Line.begin_line xid wal_pos) c))

unfoldable pub print_commit_txn : ℕ → ℕ → TestContext → Run (ℕ × TestContext)
unfolding checkpoint
print_commit_txn wal_pos xid c =
    if xid == 0
    then running (0, record (print (Line.snapshot_complete wal_pos) c) { taking_snapshot = false })
    else running (0, checkpoint wal_pos (print (Line.commit_line xid wal_pos) c))

unfoldable pub print_table_schema :
    ℕ → ℕ → Option (List ℕ) → List ℕ → TestContext → Run (ℕ × TestContext)
print_table_schema wal_pos relid key_json row_json c =
    running (0, print (Line.schema_line relid key_json row_json) c)

module _ (libavro : Rendering) where
  -- `check(err, avro_value_to_json(...))`
  abbrev pub checked :
      Result (List ℕ) → TestContext → (List ℕ → Run (ℕ × TestContext)) → Run (ℕ × TestContext)
  checked (err e) c next = running (e, c)
  checked (ok json) c next = next json

  -- The same, of a value that may be missing.
  abbrev pub checked_if :
      Option (List ℕ)
      → (List ℕ → Result (List ℕ))
      → TestContext
      → (Option (List ℕ) → Run (ℕ × TestContext))
      → Run (ℕ × TestContext)
  checked_if none to_json c next = next none
  checked_if (some bin) to_json c next = checked (to_json bin) c (λ json. next (some json))

  abbrev pub print_row : ℕ → Line → TestContext → Run (ℕ × TestContext)
  print_row wal_pos line c = running (0, checkpoint wal_pos (print line c))

  unfoldable pub print_insert_row :
      ℕ → ℕ → Option (List ℕ) → List ℕ → TestContext → Run (ℕ × TestContext)
  unfolding checkpoint
  print_insert_row wal_pos relid key new c = checked (libavro.row_to_json relid new) c (λ new_json.
      checked_if key (libavro.key_to_json relid) c (λ key_json.
        print_row wal_pos (Line.insert_line (libavro.row_name relid) key_json new_json) c))

  unfoldable pub print_update_row :
      ℕ → ℕ → Option (List ℕ) → Option (List ℕ) → List ℕ → TestContext → Run (ℕ × TestContext)
  unfolding checkpoint
  print_update_row wal_pos relid key old new c =
      checked (libavro.row_to_json relid new) c (λ new_json.
        checked_if old (libavro.row_to_json relid) c (λ old_json.
          checked_if key (libavro.key_to_json relid) c (λ key_json.
            print_row wal_pos (Line.update_line (libavro.row_name relid) key_json old_json new_json)
              c)))

  -- The name is that of the old row's schema, if there is an old row.
  abbrev name_if : ℕ → Option (List ℕ) → Option (List ℕ)
  name_if relid none = none
  name_if relid (some old_json) = some (libavro.row_name relid)

  unfoldable pub print_delete_row :
      ℕ → ℕ → Option (List ℕ) → Option (List ℕ) → TestContext → Run (ℕ × TestContext)
  unfolding checkpoint
  print_delete_row wal_pos relid key old c =
      checked_if key (libavro.key_to_json relid) c (λ key_json.
        checked_if old (libavro.row_to_json relid) c (λ old_json.
          print_row wal_pos (Line.delete_line (name_if relid old_json) relid key_json old_json) c))

  -- `init_client`, the callbacks: none for keepalives or errors.
  unfoldable pub init_client : Callbacks TestContext
  init_client = record {
    on_begin_txn = some (λ wal_pos xid c. print_begin_txn wal_pos xid c);
    on_commit_txn = some (λ wal_pos xid c. print_commit_txn wal_pos xid c);
    on_table_schema = some (λ wal_pos relid key row c. print_table_schema wal_pos relid key row c);
    on_insert_row = some (λ wal_pos relid key new c. print_insert_row wal_pos relid key new c);
    on_update_row =
        some (λ wal_pos relid key old new c. print_update_row wal_pos relid key old new c);
    on_delete_row = some (λ wal_pos relid key old c. print_delete_row wal_pos relid key old c);
    on_keepalive = none;
    on_error = none;
  }

abbrev pub test_client : HoldsClient TestContext
test_client = record {
  stream_of = λ c. c.stream;
  set_stream = λ s c. record c { stream = s };
  stream_of_set = λ s c. refl;
  taking_snapshot_of = λ c. c.taking_snapshot;
  set_taking_snapshot = λ b c. record c { taking_snapshot = b };
  taking_snapshot_of_set = λ b c. refl;
}
