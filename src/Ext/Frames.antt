-- ===== src/Ext/Frames.antt =====
-- ext/protocol_server.c: the messages of a frame, made of rows of Postgres.
pub mod Rows
pub mod Delivery
pub mod Tests
use bottledwater_pg.Prelude.{
  ℕ, ◌+◌, ◌<◌, ◌≡◌, Bool, true, false, not, Option, none, some, List, [], ◌∷◌, ◌++◌, str_eq, ◌==◌,
  if◌then◌else◌, Result, ok, err, einval, ◌>>=◌,
}
use bottledwater_pg.Client.Frames.{Message}
use bottledwater_pg.Ext.Backend.{Backend, returned, aborted, crashed, check}
use bottledwater_pg.Ext.Writing.{MemoryWriter, try_writing, writes}
use bottledwater_pg.Ext.Tables.{Attribute, Index, Relation, RecordSchema, Catalog, table_key_index}
use bottledwater_pg.Ext.SchemaCache.{Schemas, Entry, Cache, Lookup, schema_cache_lookup}
use bottledwater_pg.Ext.Datum.Values.{Postgres, ColumnValue}
use bottledwater_pg.Ext.Rows.{Tuple, AvroValues, tuple_to_avro_row, tuple_to_avro_key}

-- `frame_value`: its messages, `none` for one that was left without all its fields.
abbrev pub Frame : Type 0
Frame = List (Option Message)

-- A frame whose messages have all their fields.
abbrev pub all_made : List Message → Frame
all_made [] = []
all_made (m ∷ ms) = some m ∷ all_made ms

-- What an Avro library writes: the bytes of a record whose fields were set, and the text of a schema.
pub record Encoding (Float : Type 0) : Type 0 where
  pub avro_binary : RecordSchema → List (ColumnValue Float) → List ℕ
  pub schema_json : RecordSchema → List ℕ

-- An error number, the frame, and the schema cache.
abbrev pub Out : Type 0
Out = ℕ × Frame × Cache

unfoldable pub update_frame_with_begin_txn : ℕ → Frame → ℕ × Frame
update_frame_with_begin_txn xid frame = (0, frame ++ (some (Message.begin_txn xid) ∷ []))

unfoldable pub update_frame_with_commit_txn : ℕ → ℕ → Frame → ℕ × Frame
update_frame_with_commit_txn xid commit_lsn frame =
    (0, frame ++ (some (Message.commit_txn xid commit_lsn) ∷ []))

unfoldable pub update_frame_with_insert_raw :
    ℕ → Option (List ℕ) → List ℕ → Frame → Cache → Backend Out
update_frame_with_insert_raw relid key_bin new_bin frame cache =
    returned (0, frame ++ (some (Message.insert relid key_bin new_bin) ∷ []), cache)

unfoldable pub update_frame_with_update_raw :
    ℕ → Option (List ℕ) → Option (List ℕ) → List ℕ → Frame → Cache → Backend Out
update_frame_with_update_raw relid key_bin old_bin new_bin frame cache =
    returned (0, frame ++ (some (Message.update relid key_bin old_bin new_bin) ∷ []), cache)

unfoldable pub update_frame_with_delete_raw :
    ℕ → Option (List ℕ) → Option (List ℕ) → Frame → Cache → Backend Out
update_frame_with_delete_raw relid key_bin old_bin frame cache =
    returned (0, frame ++ (some (Message.delete relid key_bin old_bin) ∷ []), cache)

module _ (k : Catalog) (w : MemoryWriter) (pg : Postgres) (values : AvroValues pg.Float)
    (enc : Encoding pg.Float) where
  unfoldable pub written_row : RecordSchema → List Attribute → Tuple pg → Result (List ℕ)
  written_row s attrs tuple = do
    vs ← tuple_to_avro_row pg values s attrs tuple
    try_writing w (writes w (enc.avro_binary s vs))

  abbrev present : Result (List ℕ) → Result (Option (List ℕ))
  present (ok b) = ok (some b)
  present (err e) = err e

  -- The key of a table that has none any more follows a null pointer.
  unfoldable pub key_of_index :
      RecordSchema
      → Relation
      → List Attribute
      → Tuple pg
      → Option Index
      → Backend (Result (Option (List ℕ)))
  key_of_index s rel attrs tuple none = crashed
  key_of_index s rel attrs tuple (some index) =
      check (tuple_to_avro_key pg values s rel.attrs attrs tuple index.indkey) err
        (λ vs. returned (present (try_writing w (writes w (enc.avro_binary s vs)))))

  unfoldable pub extract_tuple_key :
      Option RecordSchema
      → Relation
      → List Attribute
      → Tuple pg
      → Backend (Result (Option (List ℕ)))
  unfolding key_of_index
  extract_tuple_key none rel attrs tuple = returned (ok none)
  extract_tuple_key (some s) rel attrs tuple = key_of_index s rel attrs tuple (table_key_index rel)

  -- The text of a schema, with the null byte after it.
  abbrev pub schema_text : RecordSchema → Result (List ℕ)
  schema_text s = do json ← try_writing w (writes w (enc.schema_json s)); ok (json ++ (0 ∷ []))

  abbrev pub key_schema_text : Option RecordSchema → Result (Option (List ℕ))
  key_schema_text none = ok none
  key_schema_text (some s) = present (schema_text s)

  abbrev schema_message : ℕ → Result (Option (List ℕ) × List ℕ) → Frame → ℕ × Frame
  schema_message relid (ok (key_json, row_json)) frame =
      (0, frame ++ (some (Message.table_schema relid key_json row_json) ∷ []))
  schema_message relid (err e) frame = (e, frame ++ (none ∷ []))

  abbrev schema_texts : Schemas → Result (Option (List ℕ) × List ℕ)
  schema_texts s = do
    key_json ← key_schema_text s.key_schema
    row_json ← schema_text s.row_schema
    ok (key_json, row_json)

  -- The message is appended before its fields are made.
  unfoldable pub update_frame_with_table_schema : ℕ → Schemas → Frame → ℕ × Frame
  update_frame_with_table_schema relid s frame = schema_message relid (schema_texts s) frame

  -- An entry that was left half made holds no value to write to.
  abbrev use_entry :
      Option Schemas → Frame → Cache → (Schemas → Frame → Cache → Backend Out) → Backend Out
  use_entry none frame cache next = crashed
  use_entry (some s) frame cache next = next s frame cache

  abbrev announce :
      ℕ → Option Schemas → Frame → Cache → (Schemas → Frame → Cache → Backend Out) → Backend Out
  announce relid none frame cache next = crashed
  announce relid (some s) frame cache next =
      let (e, frame') = update_frame_with_table_schema relid s frame in
      if e == 0 then next s frame' cache else returned (e, frame', cache)

  -- What the three handlers of rows start with.
  unfoldable pub with_lookup :
      Lookup → Frame → Cache → (Schemas → Frame → Cache → Backend Out) → Backend Out
  unfolding update_frame_with_table_schema
  with_lookup (Lookup.unchanged e) frame cache next = use_entry e.schemas frame cache next
  with_lookup (Lookup.changed e) frame cache next = announce e.relid e.schemas frame cache next
  with_lookup (Lookup.unseen e) frame cache next = announce e.relid e.schemas frame cache next
  with_lookup Lookup.not_updated frame cache next = returned (einval, frame, cache)
  with_lookup Lookup.broken frame cache next = crashed
  with_lookup Lookup.not_created frame cache next = returned (einval, frame, cache)

  unfoldable pub with_schemas :
      Relation → Frame → Cache → (Schemas → Frame → Cache → Backend Out) → Backend Out
  unfolding with_lookup
  with_schemas rel frame cache next =
      let (found, cache') = schema_cache_lookup k rel cache in with_lookup found frame cache' next

  unfoldable pub update_frame_with_insert :
      Relation → List Attribute → Tuple pg → Frame → Cache → Backend Out
  unfolding with_schemas update_frame_with_insert_raw
  update_frame_with_insert rel tupdesc newtuple frame cache =
      with_schemas rel frame cache (λ s frame₁ cache₁.
        check (extract_tuple_key s.key_schema rel tupdesc newtuple) (λ e. (e, frame₁, cache₁))
          (λ key_bin.
            check (returned (written_row s.row_schema tupdesc newtuple)) (λ e. (e, frame₁, cache₁))
              (λ new_bin. update_frame_with_insert_raw rel.relid key_bin new_bin frame₁ cache₁)))

  -- The key and the row of a tuple, both if there is one.
  unfoldable pub old_parts :
      Schemas → Relation → Option (Tuple pg) → Backend (Result (Option (List ℕ) × Option (List ℕ)))
  old_parts s rel none = returned (ok (none, none))
  old_parts s rel (some oldtuple) =
      check (extract_tuple_key s.key_schema rel rel.attrs oldtuple) err (λ key_bin.
        check (returned (written_row s.row_schema rel.attrs oldtuple)) err
          (λ old_bin. returned (ok (key_bin, some old_bin))))

  -- Whether the old key is there and differs from the new one, which is read without a test.
  unfoldable pub key_changes : Option (List ℕ) → Option (List ℕ) → Backend Bool
  key_changes none new_key = returned false
  key_changes (some old_key) none = crashed
  key_changes (some old_key) (some new_key) = returned (not (str_eq old_key new_key))

  abbrev after_delete : Backend Out → (Frame → Cache → Backend Out) → Backend Out
  after_delete (returned (e, frame, cache)) next =
      if e == 0 then next frame cache else returned (e, frame, cache)
  after_delete aborted next = aborted
  after_delete crashed next = crashed

  abbrev update_or_replace :
      Backend Bool
      → ℕ
      → Option (List ℕ)
      → Option (List ℕ)
      → Option (List ℕ)
      → List ℕ
      → Frame
      → Cache
      → Backend Out
  update_or_replace aborted relid old_key old_bin new_key new_bin frame cache = aborted
  update_or_replace crashed relid old_key old_bin new_key new_bin frame cache = crashed
  update_or_replace (returned changed) relid old_key old_bin new_key new_bin frame cache =
      if changed
      then after_delete (update_frame_with_delete_raw relid old_key old_bin frame cache)
          (λ frame₁ cache₁. update_frame_with_insert_raw relid new_key new_bin frame₁ cache₁)
      else update_frame_with_update_raw relid new_key old_bin new_bin frame cache

  -- If the key changed, the update is turned into a delete and an insert.
  unfoldable pub update_messages :
      ℕ → Option (List ℕ) → Option (List ℕ) → Option (List ℕ) → List ℕ → Frame → Cache → Backend Out
  unfolding key_changes
  update_messages relid old_key old_bin new_key new_bin frame cache =
      update_or_replace (key_changes old_key new_key) relid old_key old_bin new_key new_bin frame
        cache

  unfoldable pub update_frame_with_update :
      Relation → Option (Tuple pg) → Tuple pg → Frame → Cache → Backend Out
  unfolding with_schemas old_parts update_messages
  update_frame_with_update rel oldtuple newtuple frame cache =
      with_schemas rel frame cache (λ s frame₁ cache₁.
        check (old_parts s rel oldtuple) (λ e. (e, frame₁, cache₁))
          (λ (old_key, old_bin).
            check (extract_tuple_key s.key_schema rel rel.attrs newtuple) (λ e. (e, frame₁, cache₁))
              (λ new_key.
                check (returned (written_row s.row_schema rel.attrs newtuple))
                  (λ e. (e, frame₁, cache₁))
                  (λ new_bin.
                    update_messages rel.relid old_key old_bin new_key new_bin frame₁ cache₁))))

  unfoldable pub update_frame_with_delete :
      Relation → Option (Tuple pg) → Frame → Cache → Backend Out
  unfolding with_schemas old_parts update_frame_with_delete_raw
  update_frame_with_delete rel oldtuple frame cache =
      with_schemas rel frame cache (λ s frame₁ cache₁.
        check (old_parts s rel oldtuple) (λ e. (e, frame₁, cache₁))
          (λ (key_bin, old_bin).
            update_frame_with_delete_raw rel.relid key_bin old_bin frame₁ cache₁))
