-- ===== src/Ext/Datum/Values.antt =====
-- ext/oid2avro.c: `update_avro_with_datum` and what it calls. Integers are bit patterns, of 32 bits
-- for `int` and 64 for `long`.
use bottledwater_pg.Prelude.{
  ℕ, ◌+◌, ◌-◌, ◌*◌, ◌%◌, ◌^◌, Bool, List, [], ◌∷◌, ◌==◌, ltb, if◌then◌else◌,
}
use bottledwater_pg.Ext.Datum.{Typid}

-- `struct pg_tm` and the fraction of a second.
pub record Tm : Type 0 where
  pub tm_year : ℕ
  pub tm_mon : ℕ
  pub tm_mday : ℕ
  pub tm_hour : ℕ
  pub tm_min : ℕ
  pub tm_sec : ℕ
  pub fsec : ℕ

-- What Postgres gives for a datum: the `DatumGet` macros, the decoding of dates and intervals, and
-- the text of a type's output function. `Float` is a floating-point number.
pub record Postgres : Type 1 where
  pub Datum : Type 0
  pub Float : Type 0
  pub get_bool : Datum → Bool
  pub get_float4 : Datum → Float
  pub get_float8 : Datum → Float
  pub get_int16 : Datum → ℕ
  pub get_int32 : Datum → ℕ
  pub get_int64 : Datum → ℕ
  pub get_cash : Datum → ℕ
  pub get_object_id : Datum → ℕ
  pub get_transaction_id : Datum → ℕ
  pub get_command_id : Datum → ℕ
  pub numeric_to_double : Datum → Float
  pub get_date : Datum → ℕ
  pub j2date : ℕ → ℕ × ℕ × ℕ
  pub get_time : Datum → ℕ
  pub get_time_tz : Datum → ℕ × ℕ
  pub get_timestamp : Datum → ℕ
  pub get_timestamp_tz : Datum → ℕ
  pub interval2tm : Datum → Tm
  pub get_bytea : Datum → List ℕ
  pub get_char : Datum → ℕ
  pub get_name : Datum → List ℕ
  pub text_get_cstring : Datum → List ℕ
  pub output_text : ℕ → Datum → List ℕ

-- DATEVAL_NOBEGIN and DATEVAL_NOEND, the smallest and the largest `int32`
abbrev pub dateval_nobegin : ℕ
dateval_nobegin = 2 ^ 31

abbrev pub dateval_noend : ℕ
dateval_noend = 2 ^ 31 - 1

-- POSTGRES_EPOCH_JDATE
abbrev pub postgres_epoch_jdate : ℕ
postgres_epoch_jdate = 2451545

-- (POSTGRES_EPOCH_JDATE - UNIX_EPOCH_JDATE) * USECS_PER_DAY
abbrev pub epoch_difference : ℕ
epoch_difference = (2451545 - 2440588) * 86400000000

-- The wrap-around of an `int64`.
unfoldable pub to_unix_epoch : ℕ → ℕ
to_unix_epoch timestamp = (timestamp + epoch_difference) % 2 ^ 64

-- An `int16` as an `int`.
abbrev pub sign_extend : ℕ → ℕ
sign_extend x = if ltb x (2 ^ 15) then x else x + (2 ^ 32 - 2 ^ 16)

-- A primitive value, whose float and double are the same numbers here.
pub data Scalar (Float : Type 0) : Type 0 where
  boolean : Bool → Scalar Float
  float double : Float → Scalar Float
  int long : ℕ → Scalar Float
  bytes string : List ℕ → Scalar Float

-- The value of a branch: a primitive, the fields of a record, or the number of an enum's symbol.
pub data BranchValue (Float : Type 0) : Type 0 where
  scalar : Scalar Float → BranchValue Float
  fields : List (Scalar Float) → BranchValue Float
  symbol : ℕ → BranchValue Float

-- What is set in the value of a column, a union: its null branch, another branch, or something in
-- the union itself, with no branch selected.
pub data ColumnValue (Float : Type 0) : Type 0 where
  null : ColumnValue Float
  branch : ℕ → BranchValue Float → ColumnValue Float
  unbranched : BranchValue Float → ColumnValue Float

module _ (pg : Postgres) where
  open pg use {Datum, Float}

  unfoldable pub update_avro_with_date : ℕ → ColumnValue Float
  update_avro_with_date date =
      let (year, month, day) = pg.j2date ((date + postgres_epoch_jdate) % 2 ^ 32) in
      if date == dateval_nobegin
      then ColumnValue.branch 2 (BranchValue.symbol 1)
      else if date == dateval_noend
      then ColumnValue.branch 2 (BranchValue.symbol 0)
      else ColumnValue.branch 1
          (BranchValue.fields (Scalar.int year ∷ Scalar.int month ∷ Scalar.int day ∷ []))

  unfoldable pub update_avro_with_time_tz : ℕ × ℕ → BranchValue Float
  update_avro_with_time_tz (time, zone) =
      BranchValue.fields (Scalar.long time ∷ Scalar.int ((2 ^ 32 - zone) % 2 ^ 32) ∷ [])

  unfoldable pub update_avro_with_interval : Tm → BranchValue Float
  update_avro_with_interval decoded = BranchValue.fields (
      Scalar.int decoded.tm_year
      ∷ Scalar.int decoded.tm_mon
      ∷ Scalar.int decoded.tm_mday
      ∷ Scalar.int decoded.tm_hour
      ∷ Scalar.int decoded.tm_min
      ∷ Scalar.int decoded.tm_sec
      ∷ Scalar.int decoded.fsec
      ∷ [])

  -- A string ends at its null byte.
  unfoldable pub update_avro_with_char : ℕ → BranchValue Float
  update_avro_with_char c = BranchValue.scalar (Scalar.string (if c == 0 then [] else c ∷ []))

  unfoldable pub update_avro_with_bytes : List ℕ → BranchValue Float
  update_avro_with_bytes data_bytes = BranchValue.scalar (Scalar.bytes data_bytes)

  -- The text of the type's output function.
  unfoldable pub update_avro_with_string : ℕ → Datum → BranchValue Float
  update_avro_with_string typid d = BranchValue.scalar (Scalar.string (pg.output_text typid d))

  abbrev pub first_branch : Scalar Float → ColumnValue Float
  first_branch v = ColumnValue.branch 1 (BranchValue.scalar v)

  unfoldable pub update_avro_with_datum : Typid → Datum → ColumnValue Float
  unfolding update_avro_with_date update_avro_with_time_tz update_avro_with_interval
  update_avro_with_datum Typid.booloid d = first_branch (Scalar.boolean (pg.get_bool d))
  update_avro_with_datum Typid.float4oid d = first_branch (Scalar.float (pg.get_float4 d))
  update_avro_with_datum Typid.float8oid d = first_branch (Scalar.double (pg.get_float8 d))
  update_avro_with_datum Typid.int2oid d = first_branch (Scalar.int (sign_extend (pg.get_int16 d)))
  update_avro_with_datum Typid.int4oid d = first_branch (Scalar.int (pg.get_int32 d))
  update_avro_with_datum Typid.int8oid d = first_branch (Scalar.long (pg.get_int64 d))
  update_avro_with_datum Typid.cashoid d = first_branch (Scalar.long (pg.get_cash d))
  update_avro_with_datum Typid.oidoid d = first_branch (Scalar.long (pg.get_object_id d))
  update_avro_with_datum Typid.regprocoid d = first_branch (Scalar.long (pg.get_object_id d))
  update_avro_with_datum Typid.xidoid d = first_branch (Scalar.long (pg.get_transaction_id d))
  update_avro_with_datum Typid.cidoid d = first_branch (Scalar.long (pg.get_command_id d))
  update_avro_with_datum Typid.numericoid d = first_branch (Scalar.double (pg.numeric_to_double d))
  update_avro_with_datum Typid.dateoid d = update_avro_with_date (pg.get_date d)
  update_avro_with_datum Typid.timeoid d = first_branch (Scalar.long (pg.get_time d))
  update_avro_with_datum Typid.timetzoid d =
      ColumnValue.branch 1 (update_avro_with_time_tz (pg.get_time_tz d))
  update_avro_with_datum Typid.timestampoid d =
      first_branch (Scalar.long (to_unix_epoch (pg.get_timestamp d)))
  update_avro_with_datum Typid.timestamptzoid d =
      ColumnValue.unbranched
        (BranchValue.scalar (Scalar.long (to_unix_epoch (pg.get_timestamp_tz d))))
  update_avro_with_datum Typid.intervaloid d =
      ColumnValue.branch 1 (update_avro_with_interval (pg.interval2tm d))
  update_avro_with_datum Typid.byteaoid d =
      ColumnValue.branch 1 (update_avro_with_bytes (pg.get_bytea d))
  update_avro_with_datum Typid.charoid d =
      ColumnValue.branch 1 (update_avro_with_char (pg.get_char d))
  update_avro_with_datum Typid.nameoid d = first_branch (Scalar.string (pg.get_name d))
  update_avro_with_datum Typid.textoid d = first_branch (Scalar.string (pg.text_get_cstring d))
  update_avro_with_datum Typid.bpcharoid d = first_branch (Scalar.string (pg.text_get_cstring d))
  update_avro_with_datum Typid.varcharoid d = first_branch (Scalar.string (pg.text_get_cstring d))
  update_avro_with_datum (Typid.otheroid n) d = ColumnValue.branch 1 (update_avro_with_string n d)
