-- ===== src/Ext/Datum.antt =====
-- ext/oid2avro.c: the Avro schema of a column of some type, and the Avro value of a datum.
pub mod Schemas
pub mod Values
use bottledwater_pg.Prelude.{
  ℕ, ◌+◌, ◌-◌, ◌*◌, ◌%◌, ◌^◌, Bool, true, false, ◌||◌, List, [], ◌∷◌, ◌==◌, ltb, if◌then◌else◌,
  codes,
}

-- The types that `schema_for_oid` and `update_avro_with_datum` name in a `case` with a body of its
-- own, and the other types, which take the default.
pub data Typid : Type 0 where
  booloid float4oid float8oid int2oid int4oid int8oid cashoid oidoid regprocoid xidoid : Typid
  cidoid numericoid dateoid timeoid timetzoid timestampoid timestamptzoid intervaloid : Typid
  byteaoid charoid nameoid textoid bpcharoid varcharoid : Typid
  otheroid : ℕ → Typid

-- The numbers of the types, as Postgres' catalog has them.
abbrev typids : List (ℕ × Typid)
typids =
    (16, Typid.booloid)
    ∷ (17, Typid.byteaoid)
    ∷ (18, Typid.charoid)
    ∷ (19, Typid.nameoid)
    ∷ (20, Typid.int8oid)
    ∷ (21, Typid.int2oid)
    ∷ (23, Typid.int4oid)
    ∷ (24, Typid.regprocoid)
    ∷ (25, Typid.textoid)
    ∷ (26, Typid.oidoid)
    ∷ (28, Typid.xidoid)
    ∷ (29, Typid.cidoid)
    ∷ (700, Typid.float4oid)
    ∷ (701, Typid.float8oid)
    ∷ (790, Typid.cashoid)
    ∷ (1042, Typid.bpcharoid)
    ∷ (1043, Typid.varcharoid)
    ∷ (1082, Typid.dateoid)
    ∷ (1083, Typid.timeoid)
    ∷ (1114, Typid.timestampoid)
    ∷ (1184, Typid.timestamptzoid)
    ∷ (1186, Typid.intervaloid)
    ∷ (1266, Typid.timetzoid)
    ∷ (1700, Typid.numericoid)
    ∷ []

unfoldable find_typid : List (ℕ × Typid) → ℕ → Typid
find_typid [] n = Typid.otheroid n
find_typid ((i, t) ∷ rest) n = let later = find_typid rest n in if i == n then t else later

unfoldable pub typid_of : ℕ → Typid
unfolding find_typid
typid_of n = find_typid typids n

pub data Primitive : Type 0 where
  boolean float double int long bytes string : Primitive

-- A branch of a column's schema. Only primitive types occur as fields of the predefined records.
pub data ValueSchema : Type 0 where
  primitive : Primitive → ValueSchema
  record_of : (name : List ℕ) (fields : List (List ℕ × Primitive)) → ValueSchema
  enum_of : (name : List ℕ) (symbols : List (List ℕ)) → ValueSchema
  link : ValueSchema → ValueSchema

-- Which of the predefined schemas were made for the record that is built.
pub record PredefSchema : Type 0 where
  pub date_schema : Bool
  pub time_tz_schema : Bool
  pub interval_schema : Bool
  pub special_time_schema : Bool

unfoldable pub schema_for_date_fields : List (List ℕ × Primitive)
schema_for_date_fields =
    (codes "year", Primitive.int)
    ∷ (codes "month", Primitive.int)
    ∷ (codes "day", Primitive.int)
    ∷ []

-- The fields of a date, then those that this appends.
unfoldable pub schema_for_time_fields : List (List ℕ × Primitive)
schema_for_time_fields =
    (codes "year", Primitive.int)
    ∷ (codes "month", Primitive.int)
    ∷ (codes "day", Primitive.int)
    ∷ (codes "hour", Primitive.int)
    ∷ (codes "minute", Primitive.int)
    ∷ (codes "second", Primitive.int)
    ∷ (codes "micro", Primitive.int)
    ∷ []

abbrev pub date_record : ValueSchema
date_record = ValueSchema.record_of (codes "Date") schema_for_date_fields

abbrev pub special_time_enum : ValueSchema
special_time_enum =
    ValueSchema.enum_of (codes "SpecialTime") (codes "POS_INFINITY" ∷ codes "NEG_INFINITY" ∷ [])

abbrev pub time_tz_record : ValueSchema
time_tz_record =
    ValueSchema.record_of (codes "TimeTZ")
      ((codes "micro", Primitive.long) ∷ (codes "zoneOffset", Primitive.int) ∷ [])

abbrev pub interval_record : ValueSchema
interval_record = ValueSchema.record_of (codes "Interval") schema_for_time_fields

-- A schema that was made is linked, another is made.
abbrev pub link_or : Bool → ValueSchema → ValueSchema
link_or true s = ValueSchema.link s
link_or false s = s

-- The branches of a union after null, and the predefined schemas that are then made.
unfoldable pub schema_for_special_times :
    PredefSchema → ValueSchema → List ValueSchema × PredefSchema
schema_for_special_times predef record_schema = (
  record_schema ∷ link_or predef.special_time_schema special_time_enum ∷ [],
  record predef { special_time_schema = true },
)

unfoldable pub schema_for_date : PredefSchema → List ValueSchema × PredefSchema
unfolding schema_for_special_times
schema_for_date predef =
    schema_for_special_times (record predef { date_schema = true })
      (link_or predef.date_schema date_record)

unfoldable pub schema_for_time_tz : PredefSchema → ValueSchema × PredefSchema
schema_for_time_tz predef =
    (link_or predef.time_tz_schema time_tz_record, record predef { time_tz_schema = true })

unfoldable pub schema_for_interval : PredefSchema → ValueSchema × PredefSchema
schema_for_interval predef =
    (link_or predef.interval_schema interval_record, record predef { interval_schema = true })

abbrev only : PredefSchema → Primitive → List ValueSchema × PredefSchema
only predef p = (ValueSchema.primitive p ∷ [], predef)

abbrev one : ValueSchema × PredefSchema → List ValueSchema × PredefSchema
one (s, predef) = (s ∷ [], predef)

-- The branches of the union after its first one, null.
unfoldable pub schema_for_oid : PredefSchema → Typid → List ValueSchema × PredefSchema
unfolding schema_for_date schema_for_time_tz schema_for_interval
schema_for_oid predef Typid.booloid = only predef Primitive.boolean
schema_for_oid predef Typid.float4oid = only predef Primitive.float
schema_for_oid predef Typid.float8oid = only predef Primitive.double
schema_for_oid predef Typid.int2oid = only predef Primitive.int
schema_for_oid predef Typid.int4oid = only predef Primitive.int
schema_for_oid predef Typid.int8oid = only predef Primitive.long
schema_for_oid predef Typid.cashoid = only predef Primitive.long
schema_for_oid predef Typid.oidoid = only predef Primitive.long
schema_for_oid predef Typid.regprocoid = only predef Primitive.long
schema_for_oid predef Typid.xidoid = only predef Primitive.long
schema_for_oid predef Typid.cidoid = only predef Primitive.long
schema_for_oid predef Typid.numericoid = only predef Primitive.double
schema_for_oid predef Typid.dateoid = schema_for_date predef
schema_for_oid predef Typid.timeoid = only predef Primitive.long
schema_for_oid predef Typid.timetzoid = one (schema_for_time_tz predef)
schema_for_oid predef Typid.timestampoid = only predef Primitive.long
schema_for_oid predef Typid.timestamptzoid = only predef Primitive.long
schema_for_oid predef Typid.intervaloid = one (schema_for_interval predef)
schema_for_oid predef Typid.byteaoid = only predef Primitive.bytes
schema_for_oid predef Typid.charoid = only predef Primitive.string
schema_for_oid predef Typid.nameoid = only predef Primitive.string
schema_for_oid predef Typid.textoid = only predef Primitive.string
schema_for_oid predef Typid.bpcharoid = only predef Primitive.string
schema_for_oid predef Typid.varcharoid = only predef Primitive.string
schema_for_oid predef (Typid.otheroid n) = only predef Primitive.string
