-- ===== src/Ext/Samples.antt =====
-- Concrete libraries, tables and rows.
pub mod Written
pub mod Writer
use bottledwater_pg.Prelude.{
  ℕ, ◌+◌, ◌≤◌, ◌<◌, ◌≡◌, refl, Bool, true, false, not, ◌&&◌, ◌==◌, str_eq, str_eq_refl, str_eq→eq,
  none, some, List, [], ◌∷◌, ◌++◌, codes, length, leb, ltb, if◌then◌else◌, enospc, einval, arith,
  Bool-cases, inl, inr,
}
use bottledwater_pg.Ext.Writing.{MemoryWriter}
use bottledwater_pg.Ext.Tables.{Attribute, Index, Relation, RecordSchema, ReplicaIdentity, Catalog}
use bottledwater_pg.Ext.SchemaCache.{Cache}
use bottledwater_pg.Ext.Datum.{ValueSchema}
use bottledwater_pg.Ext.Datum.Values.{Postgres, Tm, ColumnValue, BranchValue, Scalar}
use bottledwater_pg.Ext.Datum.Schemas.{conforms}
use bottledwater_pg.Ext.Rows.{AvroValues, Tuple}
use bottledwater_pg.Ext.Frames.{Encoding}

-- A memory writer as libavro documents it.
abbrev pub memory_error : ℕ → ℕ → ℕ → ℕ
memory_error capacity used bytes = if leb (used + bytes) capacity then 0 else enospc

pub memory_error_fits :
    (capacity used bytes : ℕ) → used + bytes ≤ capacity → memory_error capacity used bytes ≡ 0
memory_error_fits capacity used bytes h = ground arith

pub memory_error_full :
    (capacity used bytes : ℕ) → capacity < used + bytes → memory_error capacity used bytes ≡ enospc
memory_error_full capacity used bytes h = ground arith

abbrev pub memory : MemoryWriter
memory = record {
  avro_write = memory_error;
  write_fits = memory_error_fits;
  write_full = memory_error_full;
}

abbrev same_flag : Bool → Bool → Bool
same_flag true b = b
same_flag false b = not b

same_flag_refl : (a : Bool) → same_flag a a ≡ true
same_flag_refl true = refl
same_flag_refl false = refl

same_flag→eq : (a b : Bool) → same_flag a b ≡ true → a ≡ b
same_flag→eq true b h = ground arith
same_flag→eq false b h = ground arith

abbrev column : List ℕ → ℕ → Bool → Attribute
column name typid dropped = record { attname = name; atttypid = typid; attisdropped = dropped }

-- The first column was dropped.
abbrev pub columns : List Attribute
columns =
    column (codes "old") 23 true ∷ column (codes "id") 23 false ∷ column (codes "t") 25 false ∷ []

abbrev pub primary : Index
primary = record {
  index_id = 17;
  index_ns_id = 1;
  index_name = codes "pkey";
  index_attrs = column (codes "id") 23 false ∷ [];
  indkey = 2 ∷ [];
  is_valid = true;
  is_ready = true;
  is_primary = true;
}

abbrev pub table : Relation
table = record {
  relid = 16;
  ns_id = 1;
  relname = codes "t";
  replident = ReplicaIdentity.default;
  replica_index = none;
  indexes = primary ∷ [];
  attrs = columns;
}

abbrev same_attribute : Attribute → Attribute → Bool
same_attribute a b =
    str_eq a.attname b.attname
    && (a.atttypid == b.atttypid)
    && same_flag a.attisdropped b.attisdropped

same_attribute_refl : (a : Attribute) → same_attribute a a ≡ true
same_attribute_refl a = ground (arith, str_eq_refl a.attname, same_flag_refl a.attisdropped)

same_attribute→eq : (a b : Attribute) → same_attribute a b ≡ true → a ≡ b
same_attribute→eq a b h =
    let name : a.attname ≡ b.attname = str_eq→eq a.attname b.attname (ground arith) in
    let typid : a.atttypid ≡ b.atttypid = ground arith in
    let flag : a.attisdropped ≡ b.attisdropped =
      same_flag→eq a.attisdropped b.attisdropped (ground arith) in
    λ i. record { attname = name i; atttypid = typid i; attisdropped = flag i }

-- The comparison of descriptors, column by column.
abbrev pub same_attributes : List Attribute → List Attribute → Bool
same_attributes [] [] = true
same_attributes [] (b ∷ others) = false
same_attributes (a ∷ cols) [] = false
same_attributes (a ∷ cols) (b ∷ others) = same_attribute a b && same_attributes cols others

pub same_attributes_refl : (d : List Attribute) → same_attributes d d ≡ true
same_attributes_refl [] = refl
same_attributes_refl (a ∷ cols) = rw (same_attribute_refl a, same_attributes_refl cols) refl

pub same_attributes→eq : (d e : List Attribute) → same_attributes d e ≡ true → d ≡ e
same_attributes→eq [] [] h = refl
same_attributes→eq [] (b ∷ others) h = absurd (ground arith)
same_attributes→eq (a ∷ cols) [] h = absurd (ground arith)
same_attributes→eq (a ∷ cols) (b ∷ others) h =
    let here = same_attribute→eq a b (ground arith) in
    let there = same_attributes→eq cols others (ground arith) in rw (here, there) refl

-- A catalog in which record schemas can be made, or cannot.
abbrev pub catalog : Bool → Catalog
catalog works = record {
  schema_record = λ name namespace. works;
  field_append = λ s name typid. 0;
  generic_class = λ s. true;
  get_namespace_name = λ i. codes "public";
  equal_tuple_descs = same_attributes;
  equal_tuple_descs_refl = same_attributes_refl;
  equal_tuple_descs→eq = same_attributes→eq;
}

abbrev pub no_entries : Cache
no_entries i = none

-- A Postgres whose data are numbers, which it gives back where it can.
abbrev pub server : Postgres
server = record {
  Datum = ℕ;
  Float = Unit;
  get_bool = λ d. true;
  get_float4 = λ d. tt;
  get_float8 = λ d. tt;
  get_int16 = λ d. d;
  get_int32 = λ d. d;
  get_int64 = λ d. d;
  get_cash = λ d. d;
  get_object_id = λ d. d;
  get_transaction_id = λ d. d;
  get_command_id = λ d. d;
  numeric_to_double = λ d. tt;
  get_date = λ d. d;
  j2date = λ j. (2000, 1, 1);
  get_time = λ d. d;
  get_time_tz = λ d. (d, 0);
  get_timestamp = λ d. d;
  get_timestamp_tz = λ d. d;
  interval2tm = λ d. record {
    tm_year = d;
    tm_mon = 0;
    tm_mday = 0;
    tm_hour = 0;
    tm_min = 0;
    tm_sec = 0;
    fsec = 0;
  };
  get_bytea = λ d. d ∷ [];
  get_char = λ d. d;
  get_name = λ d. d ∷ [];
  text_get_cstring = λ d. d ∷ [];
  output_text = λ n d. d ∷ [];
}

abbrev pub by_index : RecordSchema → ℕ → ℕ
by_index s i = if ltb i (length s.fields) then 0 else einval

abbrev pub set_value : List ValueSchema → ColumnValue Unit → ℕ
set_value ss v = if conforms ss v then 0 else einval

pub by_index_field : (s : RecordSchema) (i : ℕ) → i < length s.fields → by_index s i ≡ 0
by_index_field s i h = ground arith

pub set_value-conforms :
    (ss : List ValueSchema) (v : ColumnValue Unit) → conforms ss v ≡ true → set_value ss v ≡ 0
set_value-conforms ss v h = rw h refl

pub set_value_refused :
    (ss : List ValueSchema) (v : ColumnValue Unit) → conforms ss v ≡ false → set_value ss v ≡ einval
set_value_refused ss v h = rw h refl

-- Values as an Avro library takes and refuses them.
abbrev pub setters : AvroValues Unit
setters = record {
  get_by_index = by_index;
  set = set_value;
  get_field = by_index_field;
  set_conforms = set_value-conforms;
  set_refused = set_value_refused;
}

abbrev pub bytes_of : List (ColumnValue Unit) → List ℕ
bytes_of [] = []
bytes_of (ColumnValue.branch i (BranchValue.scalar (Scalar.int n)) ∷ vs) = n ∷ bytes_of vs
bytes_of (v ∷ vs) = 0 ∷ bytes_of vs

-- A row is written as its integers, a schema as its name.
abbrev pub encoding : Encoding Unit
encoding = record { avro_binary = λ s vs. bytes_of vs; schema_json = λ s. s.name }

-- A row of `columns`, whose key is `id`.
abbrev pub row : ℕ → Tuple server
row id i = some id
