-- ===== src/Ext/Frames/Rows.antt =====
-- What a frame says of the rows of a table.
use bottledwater_pg.Prelude.{
  ℕ, ◌+◌, ◌≤◌, ◌≡◌, refl, true, Option, none, some, List, [], ◌∷◌, ◌++◌, length, str_eq, str_eq→eq,
  leb, if◌then◌else◌, ok, arith, Bool-cases, inl, inr,
}
use bottledwater_pg.Client.Frames.{Message}
use bottledwater_pg.Ext.Backend.{Backend, returned}
use bottledwater_pg.Ext.Writing.{MemoryWriter, try_writing-writes, varhdrsz, max_buffer_length}
use bottledwater_pg.Ext.Tables.{Attribute, Relation, RecordSchema, Catalog}
use bottledwater_pg.Ext.SchemaCache.{Schemas, Entry, Cache, Lookup, schema_cache_lookup}
use bottledwater_pg.Ext.Datum.Values.{Postgres}
use bottledwater_pg.Ext.Rows.{Tuple, AvroValues}
use bottledwater_pg.Ext.Frames.{
  Frame, Encoding, Out, written_row, extract_tuple_key, with_schemas, with_lookup,
  update_frame_with_table_schema, update_frame_with_insert, update_frame_with_update, old_parts,
  schema_text, update_frame_with_insert_raw, update_frame_with_delete_raw,
  update_frame_with_update_raw, key_changes, update_messages,
}

-- The rows of a table by their keys, as one who reads the messages keeps them.
abbrev pub Rows : Type 0
Rows = List ℕ → Option (List ℕ)

abbrev pub put_row : Option (List ℕ) → Option (List ℕ) → Rows → Rows
put_row none row rows i = rows i
put_row (some key) row rows i = if str_eq key i then row else rows i

-- What a message does to the rows of its table.
unfoldable pub applied : Message → Rows → Rows
applied (Message.insert relid key new) rows = put_row key (some new) rows
applied (Message.update relid key old new) rows = put_row key (some new) rows
applied (Message.delete relid key old) rows = put_row key none rows
applied _ rows = rows

unfoldable pub applied_all : Frame → Rows → Rows
unfolding applied
applied_all [] rows = rows
applied_all (none ∷ ms) rows = applied_all ms rows
applied_all (some m ∷ ms) rows = applied_all ms (applied m rows)

abbrev pub rows_of : Backend Out → Rows → Rows
rows_of (returned (e, frame, cache)) rows = applied_all frame rows
rows_of _ rows = rows

module _ (k : Catalog) (w : MemoryWriter) (pg : Postgres) (values : AvroValues pg.Float)
    (enc : Encoding pg.Float) where
  moved_or_kept :
      (relid : ℕ) (old_key new_key new_bin : List ℕ) (old_bin : Option (List ℕ)) (cache : Cache)
      (rows : Rows) (i : List ℕ)
      → rows_of
          (update_messages k w pg values enc relid
            (some old_key)
            old_bin
            (some new_key)
            new_bin
            []
            cache)
          rows
          i
        ≡ (if str_eq new_key i then some new_bin else if str_eq old_key i then none else rows i)
  unfolding update_messages key_changes applied_all applied update_frame_with_insert_raw
      update_frame_with_delete_raw update_frame_with_update_raw
  moved_or_kept relid old_key new_key new_bin old_bin cache rows i =
      elim (Bool-cases (str_eq old_key new_key)) [
        | inl same ↦
            rw (same, str_eq→eq old_key new_key same)
              (elim (Bool-cases (str_eq new_key i)) [
                | inl here ↦ rw here refl
                | inr elsewhere ↦ rw elsewhere refl
              ])
        | inr moved ↦ rw moved refl
      ]

  known_table :
      (rel : Relation) (frame : Frame) (cache : Cache) (e : Entry) (s : Schemas)
      (next : Schemas → Frame → Cache → Backend Out)
      → (schema_cache_lookup k rel cache).0 ≡ Lookup.unchanged e
      → e.schemas ≡ some s
      → with_schemas k w pg values enc rel frame cache next
        ≡ next s frame (schema_cache_lookup k rel cache).1
  unfolding with_schemas with_lookup
  known_table rel frame cache e s next found whole = rw (found, with_lookup, whole) refl

  -- An update of a row of a known table, whose key and row can be written before and after, leaves,
  -- for one who keeps the rows by their keys, the new row under the new key and, if that is another,
  -- nothing under the old key; every other row stays.
  pub update_frame_with_update-Rows :
      (rel : Relation) (oldtuple newtuple : Tuple pg) (cache : Cache) (e : Entry) (s : Schemas)
      (old_key old_bin new_key new_bin : List ℕ) (rows : Rows) (i : List ℕ)
      → (schema_cache_lookup k rel cache).0 ≡ Lookup.unchanged e
      → e.schemas ≡ some s
      → extract_tuple_key k w pg values enc s.key_schema rel rel.attrs oldtuple
        ≡ returned (ok (some old_key))
      → written_row k w pg values enc s.row_schema rel.attrs oldtuple ≡ ok old_bin
      → extract_tuple_key k w pg values enc s.key_schema rel rel.attrs newtuple
        ≡ returned (ok (some new_key))
      → written_row k w pg values enc s.row_schema rel.attrs newtuple ≡ ok new_bin
      → rows_of
          (update_frame_with_update k w pg values enc rel (some oldtuple) newtuple [] cache)
          rows
          i
        ≡ (if str_eq new_key i then some new_bin else if str_eq old_key i then none else rows i)
  unfolding update_frame_with_update old_parts
  update_frame_with_update-Rows rel oldtuple newtuple cache e s old_key old_bin new_key new_bin rows
        i found whole ok₁ ok₂ ok₃ ok₄ =
      rw (known_table rel [] cache e s _ found whole, ok₁, ok₂, ok₃, ok₄)
        (moved_or_kept rel.relid old_key new_key new_bin (some old_bin)
          (schema_cache_lookup k rel cache).1 rows i)

  announced :
      (s : RecordSchema)
      → length (enc.schema_json s) + 1 + varhdrsz ≤ max_buffer_length
      → schema_text k w pg values enc s ≡ ok (enc.schema_json s ++ (0 ∷ []))
  announced s fits =
      let small : leb (length (enc.schema_json s) + 1 + varhdrsz) max_buffer_length ≡ true =
        ground arith in
      rw (try_writing-writes w (enc.schema_json s), small) refl

  -- The first inserted row of a table comes after the table's schemas, if the texts of the schemas
  -- fit a buffer and the key and the row can be written.
  pub first_insert :
      (rel : Relation) (tupdesc : List Attribute) (newtuple : Tuple pg) (cache : Cache) (e : Entry)
      (ks row : RecordSchema) (key_bin new_bin : List ℕ)
      → (schema_cache_lookup k rel cache).0 ≡ Lookup.unseen e
      → e.schemas ≡ some (record { key_schema = some ks; row_schema = row })
      → length (enc.schema_json ks) + 1 + varhdrsz ≤ max_buffer_length
      → length (enc.schema_json row) + 1 + varhdrsz ≤ max_buffer_length
      → extract_tuple_key k w pg values enc (some ks) rel tupdesc newtuple
        ≡ returned (ok (some key_bin))
      → written_row k w pg values enc row tupdesc newtuple ≡ ok new_bin
      → update_frame_with_insert k w pg values enc rel tupdesc newtuple [] cache
        ≡ returned (
          0,
          some (
                Message.table_schema e.relid
                  (some (enc.schema_json ks ++ (0 ∷ [])))
                  (enc.schema_json row ++ (0 ∷ [])))
              ∷ some (Message.insert rel.relid (some key_bin) new_bin)
              ∷ [],
          (schema_cache_lookup k rel cache).1,
        )
  unfolding update_frame_with_insert with_schemas with_lookup update_frame_with_table_schema
      update_frame_with_insert_raw
  first_insert rel tupdesc newtuple cache e ks row key_bin new_bin found whole fits₁ fits₂ ok₁ ok₂ =
      rw (found, with_lookup, whole, announced ks fits₁, announced row fits₂, ok₁, ok₂) refl

  -- A later inserted row of the same table comes alone.
  pub known_insert :
      (rel : Relation) (tupdesc : List Attribute) (newtuple : Tuple pg) (cache : Cache) (e : Entry)
      (s : Schemas) (key_bin : Option (List ℕ)) (new_bin : List ℕ)
      → (schema_cache_lookup k rel cache).0 ≡ Lookup.unchanged e
      → e.schemas ≡ some s
      → extract_tuple_key k w pg values enc s.key_schema rel tupdesc newtuple
        ≡ returned (ok key_bin)
      → written_row k w pg values enc s.row_schema tupdesc newtuple ≡ ok new_bin
      → update_frame_with_insert k w pg values enc rel tupdesc newtuple [] cache
        ≡ returned (
          0,
          some (Message.insert rel.relid key_bin new_bin) ∷ [],
          (schema_cache_lookup k rel cache).1,
        )
  unfolding update_frame_with_insert update_frame_with_insert_raw
  known_insert rel tupdesc newtuple cache e s key_bin new_bin found whole ok₁ ok₂ =
      rw (known_table rel [] cache e s _ found whole, ok₁, ok₂) refl
