-- ===== src/Client/Postgres.antt =====
-- What libpq and a Postgres server do, as client/connect.c and client/replication.c see it.
use bottledwater_pg.Prelude.{
  ℕ, ◌^◌, ◌<◌, ◌≡◌, Bool, true, false, Option, none, some, List, [], ◌∷◌, ◌++◌, get_elem?, codes,
}

-- The statuses of results that the code tells apart.
pub data ExecStatus : Type 0 where
  command_ok tuples_ok single_tuple copy_both other_status : ExecStatus

-- A result: its rows, and whether its first column is in binary format. A null field is `none`.
pub record QueryResult : Type 0 where
  pub status : ExecStatus
  pub nfields : ℕ
  pub binary : Bool
  pub rows : List (List (Option (List ℕ)))

abbrev pub is_tuples : QueryResult → Bool
is_tuples res = elim (res.status) [ ExecStatus.tuples_ok ↦ true | _ ↦ false ]

abbrev pub is_command : QueryResult → Bool
is_command res = elim (res.status) [ ExecStatus.command_ok ↦ true | _ ↦ false ]

abbrev pub is_copy : QueryResult → Bool
is_copy res = elim (res.status) [ ExecStatus.copy_both ↦ true | _ ↦ false ]

abbrev pub is_row : QueryResult → Bool
is_row res = elim (res.status) [
  | ExecStatus.single_tuple ↦ true
  | ExecStatus.tuples_ok ↦ true
  | _ ↦ false
]

abbrev column_of : Option (Option (List ℕ)) → Option (List ℕ)
column_of none = none
column_of (some value) = value

abbrev pub field_of : ℕ → List (Option (List ℕ)) → Option (List ℕ)
field_of column row = column_of (get_elem? row column)

-- The value of a field, unless it is null.
abbrev pub get_value : List (List (Option (List ℕ))) → ℕ → Option (List ℕ)
get_value [] column = none
get_value (row ∷ rows) column = field_of column row

-- What libpq and the server do: whether connections are made (the replication connection with these
-- parameters), how a connection string is parsed (a missing value is empty), the results of the
-- commands that a connection was sent so far, whether a query is dispatched in single-row mode, and
-- how `%X` prints a number, `"%X/%X"` scans two, and `atoll` reads one.
pub record Server : Type 0 where
  pub sql_connects : Bool
  pub conninfo_parse : List ℕ → Option (List (List ℕ × List ℕ))
  pub repl_connects : List (List ℕ × List ℕ) → Bool
  pub sql_result : List (List ℕ) → QueryResult
  pub repl_result : List (List ℕ) → QueryResult
  pub dispatches : Bool
  pub single_row_mode : Bool
  pub print_hex : ℕ → List ℕ
  pub scan_lsn : List ℕ → Option (ℕ × ℕ)
  pub atoll : List ℕ → ℕ
  pub scan_print :
      (h l : ℕ)
      → h < 2 ^ 32
      → l < 2 ^ 32
      → scan_lsn (print_hex h ++ (codes "/" ++ print_hex l)) ≡ some (h, l)
