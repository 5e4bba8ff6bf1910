-- ===== src/Ext/Samples/Written.antt =====
-- A table of the samples in the schema cache, and two of its rows as they are written.
use bottledwater_pg.Prelude.{ℕ, ◌≡◌, refl, true, some, List, [], ◌∷◌, codes, ok, ap}
use bottledwater_pg.Ext.Backend.{returned}
use bottledwater_pg.Ext.Writing.{try_writing, unless_full, write_once, terminated}
use bottledwater_pg.Ext.Tables.{
  RecordSchema, schema_for_table_row, schema_for_table_key, table_key_index, key_field,
}
use bottledwater_pg.Ext.Naming.{make_avro_safe, safe_from, passes}
use bottledwater_pg.Ext.SchemaCache.{
  Cache, Entry, Lookup, schema_cache_entry_update, schema_cache_lookup, make_schemas,
}
use bottledwater_pg.Ext.SchemaCache.Once.{lookup_again}
use bottledwater_pg.Ext.Datum.{schema_for_oid, typid_of}
use bottledwater_pg.Ext.Datum.Values.{update_avro_with_datum}
use bottledwater_pg.Ext.Datum.Schemas.{fits, conforms}
use bottledwater_pg.Ext.Rows.{field_schemas, tuple_to_avro_row, tuple_to_avro_key}
use bottledwater_pg.Ext.Frames.{extract_tuple_key, written_row}
use bottledwater_pg.Ext.Samples.{
  memory, columns, table, catalog, no_entries, server, setters, encoding, row,
}

abbrev pub entry : Entry
entry = schema_cache_entry_update (catalog true) table

abbrev pub safe_namespace : List ℕ
safe_namespace = codes "com.martinkl.bottledwater.dbschema.public"

abbrev pub key_schema : RecordSchema
key_schema = record {
  name = codes "pkey";
  namespace = safe_namespace;
  fields = (codes "id", some 23) ∷ [];
}

abbrev pub row_schema : RecordSchema
row_schema = record {
  name = codes "t";
  namespace = safe_namespace;
  fields = (codes "id", some 23) ∷ (codes "t", some 25) ∷ [];
}

pub whole_entry :
    entry.schemas ≡ some (record { key_schema = some key_schema; row_schema = row_schema })
unfolding make_schemas schema_for_table_row schema_for_table_key table_key_index
    schema_cache_entry_update make_avro_safe safe_from passes
whole_entry = refl

pub new_table : (schema_cache_lookup (catalog true) table no_entries).0 ≡ Lookup.unseen entry
unfolding schema_cache_lookup
new_table = rw whole_entry refl

pub key_of_5 :
    extract_tuple_key
      (catalog true)
      memory
      server
      setters
      encoding
      (some key_schema)
      table
      columns
      (row 5)
    ≡ returned (ok (some (5 ∷ [])))
unfolding extract_tuple_key table_key_index tuple_to_avro_key key_field conforms
    update_avro_with_datum typid_of field_schemas schema_for_oid fits try_writing unless_full
    write_once terminated
key_of_5 = refl

pub key_of_6 :
    extract_tuple_key
      (catalog true)
      memory
      server
      setters
      encoding
      (some key_schema)
      table
      columns
      (row 6)
    ≡ returned (ok (some (6 ∷ [])))
unfolding extract_tuple_key table_key_index tuple_to_avro_key key_field conforms
    update_avro_with_datum typid_of field_schemas schema_for_oid fits try_writing unless_full
    write_once terminated
key_of_6 = refl

pub row_of_5 :
    written_row (catalog true) memory server setters encoding row_schema columns (row 5)
    ≡ ok (5 ∷ 0 ∷ [])
unfolding written_row tuple_to_avro_row conforms update_avro_with_datum typid_of field_schemas
    schema_for_oid fits try_writing unless_full write_once terminated
row_of_5 = refl

pub row_of_6 :
    written_row (catalog true) memory server setters encoding row_schema columns (row 6)
    ≡ ok (6 ∷ 0 ∷ [])
unfolding written_row tuple_to_avro_row conforms update_avro_with_datum typid_of field_schemas
    schema_for_oid fits try_writing unless_full write_once terminated
row_of_6 = refl

abbrev pub known : Cache
known = (schema_cache_lookup (catalog true) table no_entries).1

pub found_again : (schema_cache_lookup (catalog true) table known).0 ≡ Lookup.unchanged entry
found_again = ap (λ p. p.0) (lookup_again (catalog true) table no_entries entry (rw new_table refl))
