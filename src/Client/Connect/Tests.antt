-- ===== src/Client/Connect/Tests.antt =====
-- Each of the results on connecting and the snapshot at one input.
use bottledwater_pg.Prelude.{
  ℕ, ◌≡◌, refl, Bool, true, false, Option, none, some, List, [], ◌∷◌, ◌++◌, codes, arith,
}
use bottledwater_pg.Prelude.Int.{pos}
use bottledwater_pg.Prelude.Run.{Run, running}
use bottledwater_pg.Client.Stream.{Stream}
use bottledwater_pg.Client.Samples.{start, answering, accepting}
use bottledwater_pg.Client.Replication.{Copy}
use bottledwater_pg.Client.Postgres.{ExecStatus, QueryResult}
use bottledwater_pg.Client.Connect.{
  SnapshotReader, ClientContext, replication_slot_exists, start_command,
}
use bottledwater_pg.Client.Connect.Snapshot.{Event}
use bottledwater_pg.Client.Connect.Polls.{
  busy, frame, complete, still_busy, no_event, frame_result, end_result, read_frames, polls,
  snapshot_ends, resumes_at,
}

-- The state of the small program: a stream and the flag of the snapshot.
record World : Type 0 where
  stream : Stream
  taking : Bool

abbrev world : World
world = record { stream = start; taking = true }

abbrev takes_commit : ℕ → ℕ → World → Run (ℕ × World)
takes_commit wal_pos xid w = running (0, w)

-- A program that is a stream with the flag, takes every frame and every commit.
abbrev program : SnapshotReader World
program = record {
  reader = record {
    stream = λ w. w.stream;
    with_stream = λ s w. record w { stream = s };
    parse_frame = λ p buf w. running (0, w);
    handle_keepalive = λ p w. 0;
    stream_with = λ s w. refl;
  };
  begin_txn = none;
  commit_txn = some takes_commit;
  set_active_schemas = λ relids w. w;
  taking_snapshot = λ w. w.taking;
  set_taking_snapshot = λ b w. record w { taking = b };
  taking_snapshot_set = λ b w. refl;
}

abbrev connected : Bool → ClientContext World
connected sql = record {
  conninfo = codes "db";
  app_name = codes "bw";
  error_policy = codes "exit";
  slot_name = codes "slot";
  output_plugin = codes "plugin";
  snapshot_name = codes "snap";
  sql_conn = sql;
  allow_unkeyed = false;
  skip_snapshot = false;
  slot_created = true;
  status = pos 0;
  sql_sent = [];
  repl_sent = [];
  world = world;
}

abbrev event : Bool → Option QueryResult → Event
event is_busy result = record {
  busy = is_busy;
  result = result;
  received_reload_signal = true;
  outside = record { now = 0; copied = true; flushed = true };
  copy = Copy.no_message;
}

abbrev events : List Event
events =
    event true none
    ∷ event false (some (frame_result (1 ∷ [])))
    ∷ event false (some end_result)
    ∷ event true none
    ∷ []

abbrev committed : ClientContext World
committed = record (connected true) {
  sql_conn = false;
  status = pos 1;
  sql_sent = codes "COMMIT" ∷ [];
}

snapshot_ends_example :
    polls program accepting (events ++ (event false none ∷ [])) (connected true)
    ≡ running (0, record committed { repl_sent = start_command program accepting committed ∷ [] })
unfolding read_frames
snapshot_ends_example =
    snapshot_ends program accepting events (event false none) ((1 ∷ []) ∷ []) (connected true)
      committed world world takes_commit
      (busy (event true none) refl (
        frame (event false (some (frame_result (1 ∷ [])))) (1 ∷ []) refl refl (
          complete (event false (some end_result)) refl refl
            (still_busy (event true none) refl no_event))))
      refl refl refl refl refl refl refl refl refl

abbrev restart_row : QueryResult
restart_row = record {
  status = ExecStatus.tuples_ok;
  nfields = 1;
  binary = false;
  rows = (some (3 ∷ 47 ∷ 5 ∷ []) ∷ []) ∷ [];
}

resumes_at_example :
    let (exists, e, c₁) =
      replication_slot_exists program (answering restart_row) (connected true) in
    (exists ≡ true)
    × (e ≡ 0)
    × (start_command program (answering restart_row) c₁
        ≡ codes "START_REPLICATION SLOT \"slot\" LOGICAL "
          ++ (3 ∷ 47 ∷ 5 ∷ codes " (\"error_policy\" 'exit')"))
resumes_at_example =
    resumes_at program (answering restart_row) (connected true) 3 5 restart_row (omega arith)
      (omega arith) refl refl refl refl
