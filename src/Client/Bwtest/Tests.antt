-- ===== src/Client/Bwtest/Tests.antt =====
-- The result of Client/Bwtest at one input.
use bottledwater_pg.Prelude.{ℕ, ◌≤◌, true, false, none, some, List, [], ◌∷◌, codes, ok}
use bottledwater_pg.Prelude.Run.{Holds}
use bottledwater_pg.Client.Stream.{Outside}
use bottledwater_pg.Client.Replication.{Copy}
use bottledwater_pg.Client.Frames.{Message, Avro}
use bottledwater_pg.Client.Postgres.{ExecStatus, Server}
use bottledwater_pg.Client.Connect.Snapshot.{Select}
use bottledwater_pg.Client.Program.{FrameDecoder}
use bottledwater_pg.Client.Samples.{answering}
use bottledwater_pg.Client.Bwtest.{Rendering}
use bottledwater_pg.Client.Bwtest.Main.{TestOption, Round, main_loop, main}
use bottledwater_pg.Client.Bwtest.Runs.{main-flushed}

abbrev avro : Avro
avro = record { Schema = Unit; schema_from_json = λ json. ok tt; value_read = λ s buf. ok [] }

abbrev rendering : Rendering
rendering = record {
  key_to_json = λ relid bin. ok bin;
  row_to_json = λ relid bin. ok bin;
  row_name = λ relid. codes "t";
}

-- A frame begins a transaction and commits it.
abbrev whole_transaction : List ℕ → List Message
whole_transaction [] = []
whole_transaction (b ∷ bs) = Message.begin_txn b ∷ Message.commit_txn b 9 ∷ []

abbrev decoder : FrameDecoder
decoder = record { frame_read = λ buf. ok []; messages = whole_transaction }

abbrev xlogdata_7 : List ℕ
xlogdata_7 =
    b'w' ∷ 0 ∷ 0 ∷ 0 ∷ 0 ∷ 0 ∷ 0 ∷ 0 ∷ 9 ∷ 0 ∷ 0 ∷ 0 ∷ 0 ∷ 0 ∷ 0 ∷ 0 ∷ 0 ∷ 0 ∷ 0 ∷ 0 ∷ 0 ∷ 0 ∷ 0 ∷ 0
    ∷ 0 ∷ 7 ∷ []

abbrev clock : Outside
clock = record { now = 3; copied = true; flushed = true }

abbrev round_with : Copy → Round
round_with copy = record {
  event = record {
    busy = false;
    result = none;
    received_reload_signal = false;
    outside = clock;
    copy = copy;
  };
  select = Select.timeout;
  repl_consumed = true;
  sql_consumed = true;
}

abbrev rounds : List Round
rounds = round_with (Copy.message xlogdata_7) ∷ round_with Copy.no_message ∷ []

-- The slot's position is 3/5, of which the test's numbers have one digit each.
abbrev server : Server
server = answering (record {
  status = ExecStatus.tuples_ok;
  nfields = 1;
  binary = false;
  rows = (some (3 ∷ 47 ∷ 5 ∷ []) ∷ []) ∷ [];
})

abbrev options : List TestOption
options = TestOption.postgres (codes "postgres://localhost") ∷ []

main-flushed_example :
    Holds
      (λ c.
        (c.world.cb_context.stream.fsync_lsn ≤ c.world.cb_context.stream.recvd_lsn)
        × Holds
            (λ d. c.world.cb_context.stream.fsync_lsn ≤ d.world.cb_context.stream.fsync_lsn)
            (main_loop avro rendering decoder server rounds c))
      (main avro rendering decoder server options false rounds)
main-flushed_example = main-flushed avro rendering decoder server options false rounds rounds
