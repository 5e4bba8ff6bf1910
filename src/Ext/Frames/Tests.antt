-- ===== src/Ext/Frames/Tests.antt =====
-- Each of the results on columns, rows and frames at one input.
use bottledwater_pg.Prelude.{
  ℕ, ◌+◌, ◌≡◌, refl, true, Option, none, some, List, [], ◌∷◌, codes, length, if◌then◌else◌, ok, err,
  einval, arith,
}
use bottledwater_pg.Prelude.Run.{running, Run}
use bottledwater_pg.Client.Frames.{
  Message, Avro, Callbacks, State, schema_list_replace, check_handle, called, read_entirely,
}
use bottledwater_pg.Client.Process.{process_frame, option_map}
use bottledwater_pg.Ext.Backend.{returned}
use bottledwater_pg.Ext.Naming.{make_avro_safe, safe_from, passes}
use bottledwater_pg.Ext.Tables.{schema_for_table_row}
use bottledwater_pg.Ext.Datum.{Typid, schema_for_oid, PredefSchema}
use bottledwater_pg.Ext.Datum.Values.{update_avro_with_datum}
use bottledwater_pg.Ext.Datum.Schemas.{conforms, update_avro_with_datum-conforms}
use bottledwater_pg.Ext.Rows.{tuple_to_avro_row}
use bottledwater_pg.Ext.Rows.Laws.{
  has_timestamptz, live_values, tuple_to_avro_row-schema_for_table_row,
}
use bottledwater_pg.Ext.Frames.{all_made, update_frame_with_insert, update_frame_with_update}
use bottledwater_pg.Ext.Frames.Rows.{rows_of, update_frame_with_update-Rows}
use bottledwater_pg.Ext.Frames.Delivery.{first_insert_delivered}
use bottledwater_pg.Ext.Samples.Written.{
  entry, key_schema, row_schema, whole_entry, new_table, key_of_5, key_of_6, row_of_5, row_of_6,
  known, found_again,
}
use bottledwater_pg.Ext.Samples.{
  memory, columns, table, catalog, no_entries, server, setters, encoding, row,
}

abbrev all_made_before : PredefSchema
all_made_before = record {
  date_schema = true;
  time_tz_schema = true;
  interval_schema = true;
  special_time_schema = true;
}

update_avro_with_datum-conforms_example :
    conforms
      (schema_for_oid all_made_before Typid.dateoid).0
      (update_avro_with_datum server Typid.dateoid 7)
    ≡ true
update_avro_with_datum-conforms_example =
    update_avro_with_datum-conforms server all_made_before Typid.dateoid 7

row_schema_made : schema_for_table_row (catalog true) (codes "t") 1 columns ≡ ok row_schema
unfolding schema_for_table_row make_avro_safe safe_from passes
row_schema_made = refl

tuple_to_avro_row-schema_for_table_row_example :
    tuple_to_avro_row server setters row_schema columns (row 5) ≡ (
      if has_timestamptz server columns (row 5) 0
      then err einval
      else ok (live_values server columns (row 5) 0))
tuple_to_avro_row-schema_for_table_row_example =
    tuple_to_avro_row-schema_for_table_row server setters (catalog true) (codes "t") 1 columns
      columns row_schema (row 5) (omega arith) refl row_schema_made

update_frame_with_update-Rows_example :
    rows_of
      (update_frame_with_update
        (catalog true)
        memory
        server
        setters
        encoding
        table
        (some (row 5))
        (row 6)
        []
        known)
      (λ i. none)
      (5 ∷ [])
    ≡ none
update_frame_with_update-Rows_example =
    update_frame_with_update-Rows (catalog true) memory server setters encoding table (row 5)
      (row 6) known entry (record { key_schema = some key_schema; row_schema = row_schema })
      (5 ∷ []) (5 ∷ 0 ∷ []) (6 ∷ []) (6 ∷ 0 ∷ []) (λ i. none) (5 ∷ []) found_again whole_entry
      key_of_5 row_of_5 key_of_6 row_of_6

-- Schemas without content, of which a value is any buffer.
abbrev avro : Avro
avro = record { Schema = Unit; schema_from_json = λ json. ok tt; value_read = λ s buf. ok [] }

abbrev takes_schemas : ℕ → ℕ → Option (List ℕ) → List ℕ → ℕ → Run (ℕ × ℕ)
takes_schemas wal_pos relid key_json row_json n = running (0, n)

-- A program that takes schemas, and counts the inserted rows.
abbrev counting : Callbacks ℕ
counting = record {
  on_begin_txn = none;
  on_commit_txn = none;
  on_table_schema = some takes_schemas;
  on_insert_row = some (λ wal_pos relid key new n. running (0, n + 1));
  on_update_row = none;
  on_delete_row = none;
  on_keepalive = none;
  on_error = none;
}

abbrev reader : State avro counting
reader = record { schemas = []; capacity = 16; active_schema_list = 16 ∷ []; cb_context = 0 }

first_insert_delivered_example :
    (ms : List Message) × (update_frame_with_insert
        (catalog true)
        memory
        server
        setters
        encoding
        table
        columns
        (row 5)
        []
        no_entries
      ≡ returned (0, all_made ms, known))
    × (length ms ≡ 2)
    × (process_frame avro counting 3 ms reader
        ≡ check_handle avro counting (
            called avro counting
              (record (schema_list_replace 16 (λ old. some tt) tt reader) { cb_context = 0 })
              (option_map (λ g. g 3 16 (some (5 ∷ [])) (5 ∷ 0 ∷ [])) counting.on_insert_row)))
unfolding read_entirely
first_insert_delivered_example =
    first_insert_delivered avro counting (catalog true) memory server setters encoding table columns
      (row 5) no_entries entry key_schema row_schema (5 ∷ []) (5 ∷ 0 ∷ []) 3 tt tt takes_schemas 0
      reader new_table whole_entry (omega arith) (omega arith) key_of_5 row_of_5 (omega arith) refl
      refl refl refl refl refl refl
