-- ===== src/Ext/Tests.antt =====
-- Runs of the definitions of Ext, and each of its results at one input.
use bottledwater_pg.Prelude.{
  ℕ, ◌+◌, ◌*◌, ◌<◌, ◌≡◌, refl, true, false, none, some, List, [], ◌∷◌, codes, length, get_elem?,
  leb, if◌then◌else◌, ok, err, enospc, einval, arith,
}
use bottledwater_pg.Client.Frames.{Message}
use bottledwater_pg.Ext.Protocol.{schema_for_frame}
use bottledwater_pg.Ext.Protocol.Wire.{message_value, get_message}
use bottledwater_pg.Ext.Protocol.Wire.RoundTrip.{received, is_message, get_message-message_value}
use bottledwater_pg.Ext.Writing.{
  try_writing, writes, try_writing-writes, max_buffer_length, varhdrsz,
}
use bottledwater_pg.Ext.Naming.{
  make_avro_safe, safe_from, passes, escape, IsName, make_avro_safe-IsName, make_avro_safe_overrun,
}
use bottledwater_pg.Ext.Tables.{
  key_field, table_key_index, schema_for_table_row, schema_for_table_key,
}
use bottledwater_pg.Ext.Tables.Keys.{kept, key_field-kept}
use bottledwater_pg.Ext.SchemaCache.{
  Entry, Lookup, made as schemas_of, make_schemas, schema_cache_entry_update,
  schema_cache_entry_changed, schema_cache_lookup,
}
use bottledwater_pg.Ext.Samples.{memory, columns, table, catalog, no_entries}
use bottledwater_pg.Ext.SchemaCache.Once.{entry_of, lookup_again, lookup_half_made}
use bottledwater_pg.Ext.SchemaCache.Current.{Version, cache_after, lookup_describes}

abbrev three_bytes : List ℕ
three_bytes = 1 ∷ 2 ∷ 3 ∷ []

try_writing-writes_example : try_writing memory (writes memory three_bytes) ≡ (
    if leb (length three_bytes + 1 + varhdrsz) max_buffer_length
    then ok three_bytes
    else err enospc)
try_writing-writes_example = try_writing-writes memory three_bytes

escapes_slash : make_avro_safe (codes "a/b") false ≡ codes "a_2f_b"
unfolding make_avro_safe safe_from passes escape
escapes_slash = refl

make_avro_safe-IsName_example : IsName (make_avro_safe (codes "2a/b") false)
make_avro_safe-IsName_example = make_avro_safe-IsName (codes "2a/b") (omega arith)

make_avro_safe_overrun_example :
    4 * length (codes "//") < length (make_avro_safe (codes "//") false) + 1
unfolding passes
make_avro_safe_overrun_example = make_avro_safe_overrun (codes "//") false (refl, (refl, tt))

key_field-kept_example :
    (i : ℕ) × (key_field columns (kept columns) 1 ≡ some i)
    × (get_elem? (kept columns) i ≡ get_elem? columns 1)
key_field-kept_example = key_field-kept columns 1 (omega arith) refl

abbrev made : Entry
made = schema_cache_entry_update (catalog true) table

made_is_whole :
    entry_of (catalog true) (schema_cache_lookup (catalog true) table no_entries).0 ≡ some made
unfolding schema_cache_lookup make_schemas schema_for_table_row schema_for_table_key table_key_index
made_is_whole = refl

lookup_again_example :
    let cache' = (schema_cache_lookup (catalog true) table no_entries).1 in
    schema_cache_lookup (catalog true) table cache' ≡ (Lookup.unchanged made, cache')
lookup_again_example = lookup_again (catalog true) table no_entries made made_is_whole

-- The table before a column was added.
abbrev narrower : Version
narrower = record {
  table = record table { attrs = [] };
  namespaces = (catalog true).get_namespace_name;
}

abbrev now : Version
now = record { table = table; namespaces = (catalog true).get_namespace_name }

made_again :
    entry_of
      (catalog true)
      (schema_cache_lookup (catalog true) table (cache_after (catalog true) (narrower ∷ []))).0
    ≡ some made
unfolding cache_after schema_cache_lookup make_schemas schema_for_table_row schema_for_table_key
    table_key_index schema_cache_entry_changed
made_again = refl

lookup_describes_example :
    made.schemas ≡ schemas_of (catalog true) (make_schemas (catalog true) table)
lookup_describes_example = lookup_describes (catalog true) (narrower ∷ []) now made made_again

no_schema : make_schemas (catalog false) table ≡ err einval
unfolding make_schemas schema_for_table_row schema_for_table_key table_key_index
no_schema = refl

lookup_half_made_example :
    let (r, cache') = schema_cache_lookup (catalog false) table no_entries in
    (r ≡ Lookup.not_created)
    × (e : Entry) × ((schema_cache_lookup (catalog false) table cache').0 ≡ Lookup.unchanged e)
    × (e.schemas ≡ none)
lookup_half_made_example = lookup_half_made (catalog false) table no_entries einval refl no_schema

abbrev changed_row : Message
changed_row = Message.update 16 (some (5 ∷ [])) none (5 ∷ 0 ∷ [])

get_message-message_value_example :
    (is_message schema_for_frame (message_value changed_row) ≡ true)
    × (get_message (message_value changed_row) ≡ some (received changed_row))
get_message-message_value_example = get_message-message_value changed_row
