-- ===== src/Ext/Datum/Schemas.antt =====
-- Which values a column's schema accepts.
use bottledwater_pg.Prelude.{
  ℕ, zero, suc, ◌≡◌, refl, Bool, true, false, not, ◌&&◌, List, [], ◌∷◌, length, ltb, get_elem?,
  Option, none, some, Bool-cases, inl, inr, ◌==◌,
}
use bottledwater_pg.Ext.Datum.{
  Typid, Primitive, ValueSchema, PredefSchema, link_or, schema_for_special_times, schema_for_date,
  schema_for_time_tz, schema_for_interval, schema_for_oid, schema_for_date_fields,
  schema_for_time_fields,
}
use bottledwater_pg.Ext.Datum.Values.{
  Postgres, Scalar, BranchValue, ColumnValue, update_avro_with_datum, update_avro_with_date,
  update_avro_with_time_tz, update_avro_with_interval, update_avro_with_char,
  update_avro_with_bytes, update_avro_with_string, dateval_nobegin, dateval_noend,
}

module _ {Float : Type 0} where
  -- A value of a primitive type is of that type.
  unfoldable pub scalar_fits : Primitive → Scalar Float → Bool
  scalar_fits Primitive.boolean (Scalar.boolean b) = true
  scalar_fits Primitive.float (Scalar.float x) = true
  scalar_fits Primitive.double (Scalar.double x) = true
  scalar_fits Primitive.int (Scalar.int n) = true
  scalar_fits Primitive.long (Scalar.long n) = true
  scalar_fits Primitive.bytes (Scalar.bytes b) = true
  scalar_fits Primitive.string (Scalar.string s) = true
  scalar_fits _ _ = false

  -- A record has its fields, each of its type.
  unfoldable pub fields_fit : List (List ℕ × Primitive) → List (Scalar Float) → Bool
  unfolding scalar_fits
  fields_fit [] [] = true
  fields_fit [] (v ∷ vs) = false
  fields_fit (f ∷ fs) [] = false
  fields_fit (f ∷ fs) (v ∷ vs) = scalar_fits f.1 v && fields_fit fs vs

  unfoldable pub fits : ValueSchema → BranchValue Float → Bool
  unfolding fields_fit
  fits (ValueSchema.primitive p) (BranchValue.scalar v) = scalar_fits p v
  fits (ValueSchema.record_of name fs) (BranchValue.fields vs) = fields_fit fs vs
  fits (ValueSchema.enum_of name symbols) (BranchValue.symbol n) = ltb n (length symbols)
  fits (ValueSchema.link s) v = fits s v
  fits _ _ = false

  abbrev pub fits_some : Option ValueSchema → BranchValue Float → Bool
  fits_some none v = false
  fits_some (some s) v = fits s v

  -- A value of a union with null selects a branch, and is of its type. `schemas` are the branches
  -- after null.
  unfoldable pub conforms : List ValueSchema → ColumnValue Float → Bool
  conforms schemas ColumnValue.null = true
  conforms schemas (ColumnValue.branch zero v) = false
  conforms schemas (ColumnValue.branch (suc i) v) = fits_some (get_elem? schemas i) v
  conforms schemas (ColumnValue.unbranched v) = false

abbrev pub is_timestamptz : Typid → Bool
is_timestamptz Typid.timestamptzoid = true
is_timestamptz _ = false

module _ (pg : Postgres) where
  open pg use {Datum}

  fits-link_or :
      (made : Bool) (s : ValueSchema) (v : BranchValue pg.Float)
      → fits (link_or made s) v ≡ fits s v
  unfolding fits
  fits-link_or true s v = refl
  fits-link_or false s v = refl

  date-conforms :
      (predef : PredefSchema) (date : ℕ)
      → conforms (schema_for_date predef).0 (update_avro_with_date pg date) ≡ true
  unfolding conforms schema_for_date schema_for_special_times update_avro_with_date fits fields_fit
      scalar_fits schema_for_date_fields
  date-conforms predef date = elim (Bool-cases (date == dateval_nobegin)) [
    | inl infinite ↦ rw (infinite, conforms, fits-link_or) refl
    | inr later ↦ elim (Bool-cases (date == dateval_noend)) [
      | inl infinite ↦ rw (later, infinite, conforms, fits-link_or) refl
      | inr finite ↦ rw (later, finite, conforms, fits-link_or) refl
    ]
  ]

  -- The value made of a datum conforms to the schema made for its type, whichever predefined
  -- schemas were made before, for every type except a timestamp with time zone, of which no value
  -- conforms.
  pub update_avro_with_datum-conforms :
      (predef : PredefSchema) (typid : Typid) (d : Datum)
      → conforms (schema_for_oid predef typid).0 (update_avro_with_datum pg typid d)
        ≡ not (is_timestamptz typid)
  unfolding conforms schema_for_oid update_avro_with_datum fits fields_fit scalar_fits
      schema_for_time_tz schema_for_interval schema_for_time_fields update_avro_with_time_tz
      update_avro_with_interval update_avro_with_char update_avro_with_bytes update_avro_with_string
  update_avro_with_datum-conforms predef Typid.dateoid d = date-conforms predef (pg.get_date d)
  update_avro_with_datum-conforms predef Typid.timetzoid d = rw fits-link_or refl
  update_avro_with_datum-conforms predef Typid.intervaloid d = rw fits-link_or refl
  update_avro_with_datum-conforms predef Typid.charoid d = refl
  update_avro_with_datum-conforms predef Typid.booloid d = refl
  update_avro_with_datum-conforms predef Typid.float4oid d = refl
  update_avro_with_datum-conforms predef Typid.float8oid d = refl
  update_avro_with_datum-conforms predef Typid.int2oid d = refl
  update_avro_with_datum-conforms predef Typid.int4oid d = refl
  update_avro_with_datum-conforms predef Typid.int8oid d = refl
  update_avro_with_datum-conforms predef Typid.cashoid d = refl
  update_avro_with_datum-conforms predef Typid.oidoid d = refl
  update_avro_with_datum-conforms predef Typid.regprocoid d = refl
  update_avro_with_datum-conforms predef Typid.xidoid d = refl
  update_avro_with_datum-conforms predef Typid.cidoid d = refl
  update_avro_with_datum-conforms predef Typid.numericoid d = refl
  update_avro_with_datum-conforms predef Typid.timeoid d = refl
  update_avro_with_datum-conforms predef Typid.timestampoid d = refl
  update_avro_with_datum-conforms predef Typid.timestamptzoid d = refl
  update_avro_with_datum-conforms predef Typid.byteaoid d = refl
  update_avro_with_datum-conforms predef Typid.nameoid d = refl
  update_avro_with_datum-conforms predef Typid.textoid d = refl
  update_avro_with_datum-conforms predef Typid.bpcharoid d = refl
  update_avro_with_datum-conforms predef Typid.varcharoid d = refl
  update_avro_with_datum-conforms predef (Typid.otheroid n) d = refl
