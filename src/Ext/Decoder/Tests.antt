-- ===== src/Ext/Decoder/Tests.antt =====
-- Each of the results on the callbacks of the plugin at one input.
use bottledwater_pg.Prelude.{true, ◌≡◌, refl, some, [], ◌∷◌, arith}
use bottledwater_pg.Ext.Backend.{returned}
use bottledwater_pg.Ext.Writing.{try_writing, unless_full, write_once, terminated}
use bottledwater_pg.Ext.Policy.{Policy}
use bottledwater_pg.Ext.SchemaCache.{Cache, schema_cache_lookup}
use bottledwater_pg.Ext.Frames.Rows.{known_insert}
use bottledwater_pg.Ext.Decoder.{
  PluginState, Change, convert_change, finish_change, output_avro_change, write_frame,
}
use bottledwater_pg.Ext.Decoder.Losses.{WroteAll, output_avro_change_exit, schemas_lost}
use bottledwater_pg.Ext.Samples.{memory, table, catalog, no_entries, server, setters, encoding, row}
use bottledwater_pg.Ext.Samples.Writer.{length-zeros, writer}
use bottledwater_pg.Ext.Samples.Written.{
  entry, key_schema, row_schema, whole_entry, new_table, key_of_5, key_of_6, row_of_5, row_of_6,
  known, found_again,
}

abbrev plugin : Cache → Policy → PluginState
plugin cache policy = record { schema_cache = cache; error_policy = policy; written = [] }

schemas_lost_example :
    (state' : PluginState) × (output_avro_change memory writer
        (catalog true)
        server
        setters
        encoding
        table
        (Change.insert (some (row 5)))
        (plugin no_entries Policy.log)
      ≡ returned state')
    × (state'.written ≡ [])
    × (output_avro_change memory writer
          (catalog true)
          server
          setters
          encoding
          table
          (Change.insert (some (row 6)))
          state'
        ≡ returned (record state' { written = (1 ∷ []) ∷ [] }))
schemas_lost_example =
    schemas_lost memory writer (catalog true) server setters encoding table (row 5) (row 6)
      (plugin no_entries Policy.log) entry key_schema row_schema (5 ∷ []) (5 ∷ 0 ∷ []) (6 ∷ [])
      (6 ∷ 0 ∷ []) refl new_table whole_entry (omega arith) (omega arith) key_of_5 row_of_5
      (omega (arith, length-zeros 1048576)) key_of_6 row_of_6 (omega arith)

abbrev after_6 : PluginState
after_6 = record {
  schema_cache = (schema_cache_lookup (catalog true) table known).1;
  error_policy = Policy.exit;
  written = (1 ∷ []) ∷ [];
}

writes_6 :
    output_avro_change memory writer
      (catalog true)
      server
      setters
      encoding
      table
      (Change.insert (some (row 6)))
      (plugin known Policy.exit)
    ≡ returned after_6
unfolding output_avro_change convert_change finish_change write_frame try_writing unless_full
    write_once terminated
writes_6 =
    rw
      (known_insert (catalog true) memory server setters encoding table table.attrs (row 6) known
        entry (record { key_schema = some key_schema; row_schema = row_schema }) (some (6 ∷ []))
        (6 ∷ 0 ∷ []) found_again whole_entry key_of_6 row_of_6)
      refl

output_avro_change_exit_example :
    WroteAll memory writer
      (convert_change memory writer
        (catalog true)
        server
        setters
        encoding
        table
        (Change.insert (some (row 6)))
        known)
      (plugin known Policy.exit)
      after_6
output_avro_change_exit_example =
    output_avro_change_exit memory writer (catalog true) server setters encoding table
      (Change.insert (some (row 6))) (plugin known Policy.exit) after_6 refl writes_6
