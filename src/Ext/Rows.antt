-- ===== src/Ext/Rows.antt =====
-- ext/oid2avro.c: the Avro values of a row and of its key.
pub mod Laws
use bottledwater_pg.Prelude.{
  ℕ, ◌+◌, ◌-◌, ◌<◌, ◌≡◌, ◌≢◌, Bool, true, false, not, Option, none, some, List, [], ◌∷◌, length,
  get_elem?, ◌==◌, if◌then◌else◌, Result, ok, err, einval,
}
use bottledwater_pg.Ext.Backend.{Backend, returned, aborted, check}
use bottledwater_pg.Ext.Tables.{Attribute, RecordSchema, key_field}
use bottledwater_pg.Ext.Datum.{Typid, ValueSchema, PredefSchema, typid_of, schema_for_oid}
use bottledwater_pg.Ext.Datum.Values.{Postgres, ColumnValue, update_avro_with_datum}
use bottledwater_pg.Ext.Datum.Schemas.{conforms}

-- What `heap_getattr` gives for the column at each place: its datum, unless it is null.
abbrev pub Tuple : Postgres → Type 0
Tuple pg = ℕ → Option pg.Datum

abbrev no_predef : PredefSchema
no_predef = record {
  date_schema = false;
  time_tz_schema = false;
  interval_schema = false;
  special_time_schema = false;
}

-- The branches of the union that is the schema of a field, after null. A link is the schema that it
-- links.
unfoldable pub field_schemas : Option ℕ → List ValueSchema
field_schemas none = []
field_schemas (some typid) = (schema_for_oid no_predef (typid_of typid)).0

abbrev pub schemas_at : Option (List ℕ × Option ℕ) → List ValueSchema
schemas_at none = []
schemas_at (some (name, typid)) = field_schemas typid

-- Avro's generic values: the error of `avro_value_get_by_index` on a record, and that of setting a
-- field to a value, which an Avro library takes if it conforms to the field's schema, and refuses
-- otherwise.
pub record AvroValues (Float : Type 0) : Type 0 where
  pub get_by_index : RecordSchema → ℕ → ℕ
  pub set : List ValueSchema → ColumnValue Float → ℕ
  pub get_field : (s : RecordSchema) (i : ℕ) → i < length s.fields → get_by_index s i ≡ 0
  pub set_conforms :
      (ss : List ValueSchema) (v : ColumnValue Float) → conforms ss v ≡ true → set ss v ≡ 0
  pub set_refused :
      (ss : List ValueSchema) (v : ColumnValue Float) → conforms ss v ≡ false → set ss v ≡ einval

abbrev pub column_value : (pg : Postgres) → ℕ → Option pg.Datum → ColumnValue pg.Float
column_value pg typid none = ColumnValue.null
column_value pg typid (some d) = update_avro_with_datum pg (typid_of typid) d

module _ (pg : Postgres) (values : AvroValues pg.Float) where
  open pg use {Float}

  abbrev pub prepend :
      ColumnValue Float → Result (List (ColumnValue Float)) → Result (List (ColumnValue Float))
  prepend v (ok vs) = ok (v ∷ vs)
  prepend v (err e) = err e

  -- Field `field` of a record is set to a value, and the rest follows.
  unfoldable pub set_field :
      RecordSchema
      → ℕ
      → ColumnValue Float
      → Result (List (ColumnValue Float))
      → Result (List (ColumnValue Float))
  set_field s field v rest =
      let no_field = values.get_by_index s field in
      let refused = values.set (schemas_at (get_elem? s.fields field)) v in
      if not (no_field == 0)
      then err no_field
      else if not (refused == 0)
      then err refused
      else prepend v rest

  -- The loop from column `i` on.
  unfoldable pub row_from :
      RecordSchema → List Attribute → Tuple pg → ℕ → ℕ → Result (List (ColumnValue Float))
  unfolding set_field
  row_from s [] tuple i field = ok []
  row_from s (a ∷ rest) tuple i field =
      let skipped = row_from s rest tuple (i + 1) field in
      let set = row_from s rest tuple (i + 1) (field + 1) in
      if a.attisdropped
      then skipped
      else set_field s field (column_value pg a.atttypid (tuple i)) set

  -- The values of the fields, in order.
  unfoldable pub tuple_to_avro_row :
      RecordSchema → List Attribute → Tuple pg → Result (List (ColumnValue Float))
  unfolding row_from
  tuple_to_avro_row s attrs tuple = row_from s attrs tuple 0 0

  abbrev pub typid_at : Option Attribute → ℕ
  typid_at none = 0
  typid_at (some a) = a.atttypid

  -- One round of the loop over the columns of the index.
  abbrev key_round :
      RecordSchema
      → List Attribute
      → Tuple pg
      → ℕ
      → Option ℕ
      → Backend (Result (List (ColumnValue Float)))
      → Backend (Result (List (ColumnValue Float)))
  key_round s attrs tuple field none rest = aborted
  key_round s attrs tuple field (some tup_i) rest =
      let v = column_value pg (typid_at (get_elem? attrs tup_i)) (tuple tup_i) in
      elim (set_field s field v (ok [])) [
        | err e ↦ returned (err e)
        | ok set ↦ check rest err (λ vs. returned (ok (v ∷ vs)))
      ]

  unfoldable pub key_from :
      RecordSchema
      → List Attribute
      → List Attribute
      → Tuple pg
      → List ℕ
      → ℕ
      → Backend (Result (List (ColumnValue Float)))
  unfolding set_field
  key_from s rel_attrs attrs tuple [] field = returned (ok [])
  key_from s rel_attrs attrs tuple (n ∷ indkey) field =
      let rest = key_from s rel_attrs attrs tuple indkey (field + 1) in
      key_round s attrs tuple field (key_field rel_attrs attrs (n - 1)) rest

  -- Of the columns of the table, the columns of the tuple, and the numbers of the columns of the
  -- index.
  unfoldable pub tuple_to_avro_key :
      RecordSchema
      → List Attribute
      → List Attribute
      → Tuple pg
      → List ℕ
      → Backend (Result (List (ColumnValue Float)))
  unfolding key_from
  tuple_to_avro_key s rel_attrs attrs tuple indkey = key_from s rel_attrs attrs tuple indkey 0
