-- ===== src/Ext/Export/Tests.antt =====
-- Each of the results of Ext/Export at one input: two tables, of which the second is empty.
use bottledwater_pg.Prelude.{
  ℕ, ◌≡◌, refl, Bool, Option, none, some, List, [], ◌∷◌, ◌++◌, codes, ok, arith, true, false, ◌==◌,
  if◌then◌else◌, ◌⊎◌,
}
use bottledwater_pg.Client.Frames.{Message}
use bottledwater_pg.Ext.Backend.{returned}
use bottledwater_pg.Ext.Writing.{try_writing, unless_full, write_once, terminated}
use bottledwater_pg.Ext.Naming.{make_avro_safe, safe_from, passes}
use bottledwater_pg.Ext.Tables.{
  Relation, schema_for_table_row, schema_for_table_key, table_key_index,
}
use bottledwater_pg.Ext.SchemaCache.{Schemas, make_schemas}
use bottledwater_pg.Ext.Frames.{update_frame_with_table_schema}
use bottledwater_pg.Ext.Samples.Written.{key_schema, row_schema}
use bottledwater_pg.Ext.Export.{TableRow, list_tables, get_table_list}
use bottledwater_pg.Ext.Export.Listing.{Distinct, relids, oids, all_keyed, get_table_list-Distinct}
use bottledwater_pg.Ext.Export.Texts.{
  schema_for_relname, bottledwater_key_schema, bottledwater_row_schema, texts_in_frame,
}
use bottledwater_pg.Ext.Policy.{Policy}
use bottledwater_pg.Ext.Samples.{memory, columns, table, catalog, server, setters, encoding, row}
use bottledwater_pg.Ext.Samples.Writer.{writer}
use bottledwater_pg.Ext.Rows.{Tuple}
use bottledwater_pg.Ext.Export.{ExportTable, Contents, all_calls, first_call}
use bottledwater_pg.Ext.Export.Snapshot.{all_rows, complete, snapshot_rows, all_calls-snapshot_rows}

abbrev exported : ℕ → ExportTable
exported i = record {
  relid = i;
  rel = record table { relid = i };
  namespace = codes "public";
  rel_name = codes "t";
  repl_ident = 100;
  index_name = some (codes "pkey");
}

abbrev rows_held : ExportTable → List (Tuple server)
rows_held t = if t.relid == 16 then row 5 ∷ row 6 ∷ [] else []

abbrev database : Contents memory writer server
database = record { rows_of = rows_held; result_attrs = λ t. columns }

abbrev two_tables : List ExportTable
two_tables = exported 16 ∷ exported 17 ∷ []

all_calls-snapshot_rows_example :
    all_calls memory writer server
      (catalog true)
      setters
      encoding
      database
      9
      9
      (first_call memory writer server database two_tables Policy.log)
    ≡ complete memory writer server (catalog true) setters encoding database (
        snapshot_rows memory writer server
          (catalog true)
          setters
          encoding
          database
          Policy.log
          (λ relid. none)
          (all_rows memory writer server database two_tables))
all_calls-snapshot_rows_example =
    all_calls-snapshot_rows memory writer server (catalog true) setters encoding database two_tables
      Policy.log 9 9 (omega arith) (omega arith)

abbrev queried : ℕ → TableRow
queried i = record {
  oid = some i;
  nspname = some (codes "public");
  table_name = some (codes "t");
  relreplident = some 100;
  indname = some (codes "pkey");
}

abbrev relation_open : ℕ → Relation
relation_open i = record table { relid = i }

abbrev rows : List TableRow
rows = queried 16 ∷ queried 17 ∷ []

lists_two : get_table_list relation_open rows false ≡ returned two_tables
unfolding get_table_list list_tables
lists_two = refl

get_table_list-Distinct_example :
    Distinct two_tables
    × (relids two_tables ≡ oids rows)
    × ((all_keyed two_tables ≡ true) ⊎ (Bool.false ≡ true))
get_table_list-Distinct_example =
    get_table_list-Distinct relation_open rows false two_tables lists_two

abbrev found : List ℕ → Option Relation
found relname = some table

abbrev made : Schemas
made = record { key_schema = some key_schema; row_schema = row_schema }

made_schemas : make_schemas (catalog true) table ≡ ok made
unfolding make_schemas schema_for_table_row schema_for_table_key table_key_index make_avro_safe
    safe_from passes
made_schemas = refl

key_text :
    bottledwater_key_schema (catalog true) memory server setters encoding found (codes "t")
    ≡ returned (codes "pkey")
unfolding bottledwater_key_schema schema_for_relname schema_for_table_key table_key_index
    make_avro_safe safe_from passes try_writing unless_full write_once terminated
    schema_for_table_row
key_text = refl

row_text :
    bottledwater_row_schema (catalog true) memory server setters encoding found (codes "t")
    ≡ returned (codes "t")
unfolding bottledwater_row_schema schema_for_relname schema_for_table_row make_avro_safe safe_from
    passes try_writing unless_full write_once terminated
row_text = refl

texts_in_frame_example :
    update_frame_with_table_schema (catalog true) memory server setters encoding 16 made [] ≡ (
      0,
      some (Message.table_schema 16 (some (codes "pkey" ++ (0 ∷ []))) (codes "t" ++ (0 ∷ []))) ∷ [],
    )
texts_in_frame_example =
    texts_in_frame (catalog true) memory server setters encoding found (codes "t") (codes "pkey")
      (codes "t") table made 16 [] refl made_schemas key_text row_text
