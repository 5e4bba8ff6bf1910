-- ===== src/Client/Samples.antt =====
-- A stream and a server for the tests.
use bottledwater_pg.Prelude.{ℕ, refl, true, false, Option, none, some, List, [], ◌∷◌}
use bottledwater_pg.Prelude.Int.{pos}
use bottledwater_pg.Client.Stream.{Stream}
use bottledwater_pg.Client.Postgres.{ExecStatus, QueryResult, Server}

abbrev pub start : Stream
start = record {
  start_lsn = 0;
  recvd_lsn = 0;
  fsync_lsn = 0;
  last_checkpoint = 0;
  status = pos 0;
  wire = [];
}

-- Numbers are printed as one digit.
abbrev scan : List ℕ → Option (ℕ × ℕ)
scan (h ∷ slash ∷ l ∷ []) = some (h, l)
scan _ = none

abbrev empty_result : ExecStatus → QueryResult
empty_result status = record { status = status; nfields = 0; binary = false; rows = [] }

abbrev pub answering : QueryResult → Server
answering res = record {
  sql_connects = true;
  conninfo_parse = λ conninfo. some [];
  repl_connects = λ params. true;
  sql_result = λ sent. res;
  repl_result = λ sent. empty_result ExecStatus.copy_both;
  dispatches = true;
  single_row_mode = true;
  print_hex = λ n. n ∷ [];
  scan_lsn = scan;
  atoll = λ text. 0;
  scan_print = λ h l hh hl. refl;
}

abbrev pub accepting : Server
accepting = answering (empty_result ExecStatus.command_ok)
