-- ===== src/Ext/Export/Texts.antt =====
-- ext/snapshot.c: the functions that give the schema of a table, or of frames, as a text.
use bottledwater_pg.Prelude.{
  ℕ, ◌≡◌, refl, Bool, true, false, Option, none, some, List, [], ◌∷◌, ◌++◌, Result, ok, err, arith,
}
use bottledwater_pg.Client.Frames.{Message}
use bottledwater_pg.Ext.Backend.{Backend, returned, aborted, crashed}
use bottledwater_pg.Ext.Writing.{MemoryWriter, try_writing, writes}
use bottledwater_pg.Ext.Tables.{
  Relation, RecordSchema, Catalog, schema_for_table_key, schema_for_table_row,
}
use bottledwater_pg.Ext.SchemaCache.{Schemas, make_schemas}
use bottledwater_pg.Ext.Datum.Values.{Postgres}
use bottledwater_pg.Ext.Rows.{AvroValues}
use bottledwater_pg.Ext.Frames.{Frame, Encoding, update_frame_with_table_schema}

module _ (k : Catalog) (w : MemoryWriter) (pg : Postgres) (values : AvroValues pg.Float)
    (enc : Encoding pg.Float) where
  -- `try_writing` with `write_schema_json`, whose failure ends the statement.
  abbrev text_of : Result (List ℕ) → Backend (Option (List ℕ))
  text_of (ok json) = returned (some json)
  text_of (err e) = aborted

  abbrev json_of : Result (Option RecordSchema) → Backend (Option (List ℕ))
  json_of (err e) = aborted
  json_of (ok none) = returned none
  json_of (ok (some s)) = text_of (try_writing w (writes w (enc.schema_json s)))

  abbrev present_schema : Result RecordSchema → Result (Option RecordSchema)
  present_schema (ok s) = ok (some s)
  present_schema (err e) = err e

  abbrev opened :
      Option Relation → (Relation → Backend (Option (List ℕ))) → Backend (Option (List ℕ))
  opened none f = aborted
  opened (some rel) f = f rel

  -- `relation_openrv` finds the relation of the name, or ends the statement.
  unfoldable pub schema_for_relname :
      (List ℕ → Option Relation) → List ℕ → (get_key : Bool) → Backend (Option (List ℕ))
  schema_for_relname relation_openrv relname true =
      opened (relation_openrv relname) (λ rel. json_of (schema_for_table_key k rel))
  schema_for_relname relation_openrv relname false =
      opened (relation_openrv relname)
        (λ rel. json_of (present_schema (schema_for_table_row k rel.relname rel.ns_id rel.attrs)))

  abbrev or_abort : Backend (Option (List ℕ)) → Backend (List ℕ)
  or_abort (returned (some json)) = returned json
  or_abort (returned none) = aborted
  or_abort aborted = aborted
  or_abort crashed = crashed

  abbrev or_crash : Backend (Option (List ℕ)) → Backend (List ℕ)
  or_crash (returned (some json)) = returned json
  or_crash (returned none) = crashed
  or_crash aborted = aborted
  or_crash crashed = crashed

  -- A table without a key is an error.
  unfoldable pub bottledwater_key_schema : (List ℕ → Option Relation) → List ℕ → Backend (List ℕ)
  unfolding schema_for_relname
  bottledwater_key_schema relation_openrv relname =
      or_abort (schema_for_relname relation_openrv relname true)

  unfoldable pub bottledwater_row_schema : (List ℕ → Option Relation) → List ℕ → Backend (List ℕ)
  unfolding schema_for_relname
  bottledwater_row_schema relation_openrv relname =
      or_crash (schema_for_relname relation_openrv relname false)

  -- Of the text that libavro makes of `schema_for_frame`.
  unfoldable pub bottledwater_frame_schema : List ℕ → Backend (List ℕ)
  bottledwater_frame_schema frame_json = or_abort (text_of (try_writing w (writes w frame_json)))

  made_key :
      (rel : Relation) (s : Schemas)
      → make_schemas k rel ≡ ok s
      → schema_for_table_key k rel ≡ ok s.key_schema
  unfolding make_schemas
  made_key rel s h = ground arith

  made_row :
      (rel : Relation) (s : Schemas)
      → make_schemas k rel ≡ ok s
      → schema_for_table_row k rel.relname rel.ns_id rel.attrs ≡ ok s.row_schema
  unfolding make_schemas
  made_row rel s h = ground arith

  abbrev written : RecordSchema → Result (List ℕ)
  written s = try_writing w (writes w (enc.schema_json s))

  text_ok :
      (r : Result (List ℕ)) (json : List ℕ) → or_abort (text_of r) ≡ returned json → r ≡ ok json
  text_ok (ok json') json h = ground arith
  text_ok (err e) json h = absurd (ground arith)

  text_ok' :
      (r : Result (List ℕ)) (json : List ℕ) → or_crash (text_of r) ≡ returned json → r ≡ ok json
  text_ok' (ok json') json h = ground arith
  text_ok' (err e) json h = absurd (ground arith)

  written_key :
      (key_schema : Option RecordSchema) (key : List ℕ)
      → or_abort (json_of (ok key_schema)) ≡ returned key
      → (t : RecordSchema) × (key_schema ≡ some t) × (written t ≡ ok key)
  written_key none key h = absurd (ground arith)
  written_key (some t) key h = (t, refl, text_ok (written t) key h)

  -- The texts of a table's schemas as the functions for one table give them, and as the frames do: if
  -- the schemas of the table of that name can be made, and both functions return a text, then the
  -- message with these schemas has the same texts, each with a null byte after it.
  pub texts_in_frame :
      (relation_openrv : List ℕ → Option Relation) (relname key row : List ℕ) (rel : Relation)
      (s : Schemas) (relid : ℕ) (frame : Frame)
      → relation_openrv relname ≡ some rel
      → make_schemas k rel ≡ ok s
      → bottledwater_key_schema relation_openrv relname ≡ returned key
      → bottledwater_row_schema relation_openrv relname ≡ returned row
      → update_frame_with_table_schema k w pg values enc relid s frame ≡ (
        0,
        frame
            ++ (some (Message.table_schema relid (some (key ++ (0 ∷ []))) (row ++ (0 ∷ []))) ∷ []),
      )
  unfolding bottledwater_key_schema bottledwater_row_schema update_frame_with_table_schema
  texts_in_frame relation_openrv relname key row rel s relid frame finds made key_text row_text =
      let (key_schema, there, key_written) =
        written_key s.key_schema key (rw (finds, made_key rel s made) at key_text) in
      let row_written =
        text_ok' (written s.row_schema) row (rw (finds, made_row rel s made) at row_text) in
      rw (there, key_written, row_written) refl
