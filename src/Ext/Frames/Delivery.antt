-- ===== src/Ext/Frames/Delivery.antt =====
-- From a row of Postgres to the callback of the client: ext/protocol_server.c writes a frame that
-- client/protocol_client.c reads.
use bottledwater_pg.Prelude.{
  ℕ, ◌+◌, ◌-◌, ◌%◌, ◌<◌, ◌≤◌, ◌≡◌, refl, true, Option, some, List, [], ◌∷◌, ◌++◌, length, take,
  ◌==◌, ok, arith, ap, length-append, Bool-cases, inl, inr,
}
use bottledwater_pg.Prelude.Run.{Run, running, exited, waiting, ◌>>=◌}
use bottledwater_pg.Client.Frames.{
  Message, Avro, Callbacks, State, oid_mod, active, schema_list_replace, schema_list_lookup,
  read_entirely, check_handle, called,
}
use bottledwater_pg.Client.Frames.Schemas.{lookup-replace, replace-active, replace-context}
use bottledwater_pg.Client.Process.{
  process_frame, process_message, process_frame_table_schema, process_key_schema, report_schema,
  option_map, without_null,
}
use bottledwater_pg.Client.Process.Rows.{insert_found, rest_of}
use bottledwater_pg.Ext.Backend.{returned}
use bottledwater_pg.Ext.Writing.{MemoryWriter, varhdrsz, max_buffer_length}
use bottledwater_pg.Ext.Tables.{Attribute, Relation, RecordSchema, Catalog}
use bottledwater_pg.Ext.SchemaCache.{Entry, Cache, Lookup, schema_cache_lookup}
use bottledwater_pg.Ext.SchemaCache.Once.{lookup-relid}
use bottledwater_pg.Ext.Datum.Values.{Postgres}
use bottledwater_pg.Ext.Rows.{Tuple, AvroValues}
use bottledwater_pg.Ext.Frames.{
  all_made, Encoding, written_row, extract_tuple_key, update_frame_with_insert,
}
use bottledwater_pg.Ext.Frames.Rows.{first_insert}

take-append : (xs ys : List ℕ) → take (length xs) (xs ++ ys) ≡ xs
take-append [] ys = refl
take-append (x ∷ xs) ys = ap (λ l. x ∷ l) (take-append xs ys)

without_null-append : (text : List ℕ) → without_null (text ++ (0 ∷ [])) ≡ text
without_null-append text =
    let size : length (text ++ (0 ∷ [])) - 1 ≡ length text =
      omega (arith, length-append text (0 ∷ [])) in
    rw size (take-append text (0 ∷ []))

module _ (avro : Avro) {Ctx : Type 0} (cb : Callbacks Ctx) where
  open avro use {Schema}

  last_message :
      (wal_pos : ℕ) (m : Run (ℕ × State avro cb)) → (m >>= rest_of avro cb wal_pos []) ≡ m
  unfolding process_frame
  last_message wal_pos (running (e, r)) = elim (Bool-cases (e == 0)) [
    | inl fine ↦ rw fine (let none_left : e ≡ 0 = ground arith in rw none_left refl)
    | inr failed ↦ rw failed refl
  ]
  last_message wal_pos (exited e) = refl
  last_message wal_pos waiting = refl

  schemas_taken :
      (wal_pos relid : ℕ) (key_json row_json : List ℕ) (k row : Schema)
      (f : ℕ → ℕ → Option (List ℕ) → List ℕ → Ctx → Run (ℕ × Ctx)) (c : Ctx) (r : State avro cb)
      → relid < oid_mod
      → avro.schema_from_json key_json ≡ ok k
      → avro.schema_from_json row_json ≡ ok row
      → cb.on_table_schema ≡ some f
      → f wal_pos relid (some key_json) row_json r.cb_context ≡ running (0, c)
      → process_frame_table_schema avro cb wal_pos relid
          (some (key_json ++ (0 ∷ [])))
          (row_json ++ (0 ∷ []))
          r
        ≡ running (0, record (schema_list_replace relid (λ old. some k) row r) { cb_context = c })
  unfolding process_frame_table_schema process_key_schema report_schema check_handle
  schemas_taken wal_pos relid key_json row_json k row f c r small made₁ made₂ has takes =
      let same : relid % oid_mod ≡ relid = omega arith in
      let context = replace-context relid (λ old. some k) row r in
      rw
        (
          without_null-append row_json,
          made₂,
          process_key_schema,
          without_null-append key_json,
          made₁,
          report_schema,
          has,
          without_null-append row_json,
          without_null-append key_json,
          same,
          context,
          takes,
        )
        refl

  -- The schemas of an active table, then an inserted row.
  schemas_then_insert :
      (wal_pos relid : ℕ) (key_json row_json key new : List ℕ) (k row : Schema)
      (f : ℕ → ℕ → Option (List ℕ) → List ℕ → Ctx → Run (ℕ × Ctx)) (c : Ctx) (r : State avro cb)
      → relid < oid_mod
      → active r.active_schema_list relid ≡ true
      → avro.schema_from_json key_json ≡ ok k
      → avro.schema_from_json row_json ≡ ok row
      → read_entirely avro cb k key ≡ ok tt
      → read_entirely avro cb row new ≡ ok tt
      → cb.on_table_schema ≡ some f
      → f wal_pos relid (some key_json) row_json r.cb_context ≡ running (0, c)
      → process_frame avro cb wal_pos
          (Message.table_schema relid (some (key_json ++ (0 ∷ []))) (row_json ++ (0 ∷ []))
            ∷ Message.insert relid (some key) new
            ∷ [])
          r
        ≡ check_handle avro cb (
            called avro cb
              (record (schema_list_replace relid (λ old. some k) row r) { cb_context = c })
              (option_map (λ g. g wal_pos relid (some key) new) cb.on_insert_row))
  unfolding process_frame process_message schema_list_lookup
  schemas_then_insert wal_pos relid key_json row_json key new k row f c r small on made₁ made₂
        whole₁ whole₂ has takes =
      let r' : State avro cb = record (schema_list_replace relid (λ old. some k) row r) {
        cb_context = c;
      } in
      let found = (lookup-replace relid (relid + 1) (λ old. some k) row r small (omega arith)).0 in
      let on' : active r'.active_schema_list relid ≡ true =
        rw (replace-active relid (λ old. some k) row r) on in
      let same : relid % oid_mod ≡ relid = omega arith in
      let row_read =
        insert_found avro cb wal_pos relid key new k row (relid % oid_mod) r' on' found whole₁
          whole₂ in
      rw
        (
          schemas_taken wal_pos relid key_json row_json k row f c r small made₁ made₂ has takes,
          row_read,
          same,
        )
        (last_message wal_pos (
          check_handle avro cb (
            called avro cb r' (option_map (λ g. g wal_pos relid (some key) new) cb.on_insert_row))))

  module _ (k : Catalog) (w : MemoryWriter) (pg : Postgres) (values : AvroValues pg.Float)
      (enc : Encoding pg.Float) where
    -- From the table to the callback: the first inserted row of a table with a key makes one frame
    -- of two messages, and a client that follows the table, reads the schemas' texts, accepts the
    -- key and the row as values of these schemas, and whose callback takes the schemas, passes to its
    -- callback for inserted rows the key and the row that the plugin wrote, with the schemas stored.
    pub first_insert_delivered :
        (rel : Relation) (tupdesc : List Attribute) (newtuple : Tuple pg) (cache : Cache)
        (e : Entry) (ks row : RecordSchema) (key_bin new_bin : List ℕ) (wal_pos : ℕ)
        (key_class row_class : Schema) (f : ℕ → ℕ → Option (List ℕ) → List ℕ → Ctx → Run (ℕ × Ctx))
        (c : Ctx) (r : State avro cb)
        → (schema_cache_lookup k rel cache).0 ≡ Lookup.unseen e
        → e.schemas ≡ some (record { key_schema = some ks; row_schema = row })
        → length (enc.schema_json ks) + 1 + varhdrsz ≤ max_buffer_length
        → length (enc.schema_json row) + 1 + varhdrsz ≤ max_buffer_length
        → extract_tuple_key k w pg values enc (some ks) rel tupdesc newtuple
          ≡ returned (ok (some key_bin))
        → written_row k w pg values enc row tupdesc newtuple ≡ ok new_bin
        → rel.relid < oid_mod
        → active r.active_schema_list rel.relid ≡ true
        → avro.schema_from_json (enc.schema_json ks) ≡ ok key_class
        → avro.schema_from_json (enc.schema_json row) ≡ ok row_class
        → read_entirely avro cb key_class key_bin ≡ ok tt
        → read_entirely avro cb row_class new_bin ≡ ok tt
        → cb.on_table_schema ≡ some f
        → f wal_pos rel.relid (some (enc.schema_json ks)) (enc.schema_json row) r.cb_context
          ≡ running (0, c)
        → (ms : List Message) × (update_frame_with_insert k w pg values enc rel tupdesc newtuple []
              cache
            ≡ returned (0, all_made ms, (schema_cache_lookup k rel cache).1))
          × (length ms ≡ 2)
          × (process_frame avro cb wal_pos ms r
              ≡ check_handle avro cb (
                  called avro cb
                    (record (schema_list_replace rel.relid (λ old. some key_class) row_class r) {
                      cb_context = c;
                    })
                    (option_map
                      (λ g. g wal_pos rel.relid (some key_bin) new_bin)
                      cb.on_insert_row)))
    first_insert_delivered rel tupdesc newtuple cache e ks row key_bin new_bin wal_pos key_class
          row_class f c r found whole fits₁ fits₂ ok₁ ok₂ small on made₁ made₂ whole₁ whole₂ has
          takes =
        let number : e.relid ≡ rel.relid = lookup-relid k rel cache e (rw found refl) in
        (
          Message.table_schema rel.relid (some (enc.schema_json ks ++ (0 ∷ [])))
                (enc.schema_json row ++ (0 ∷ []))
              ∷ Message.insert rel.relid (some key_bin) new_bin
              ∷ [],
          rw number at (
              first_insert k w pg values enc rel tupdesc newtuple cache e ks row key_bin new_bin
                found whole fits₁ fits₂ ok₁ ok₂),
          omega arith,
          schemas_then_insert wal_pos rel.relid (enc.schema_json ks) (enc.schema_json row) key_bin
              new_bin key_class row_class f c r small on made₁ made₂ whole₁ whole₂ has takes,
        )
