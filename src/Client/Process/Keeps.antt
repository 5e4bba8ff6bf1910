-- ===== src/Client/Process/Keeps.antt =====
-- What every callback of a program keeps, a whole frame keeps.
use bottledwater_pg.Prelude.{
  ℕ, ◌≡◌, refl, Option, none, some, List, [], ◌∷◌, ◌==◌, einval, Bool-cases, Option-cases,
  Result-cases, inl, inr,
}
use bottledwater_pg.Prelude.Run.{Run, Holds, Holds-bind}
use bottledwater_pg.Client.Frames.{
  Message, Avro, Callbacks, SchemaListEntry, State, active, schema_list_replace, store_entry,
  schema_list_entry_new, schema_list_lookup, called, or_error, frame_reader_handle, check_handle,
  read_entirely, then_read,
}
use bottledwater_pg.Client.Process.{
  without_null, option_map, report_schema, process_key_schema, process_frame_table_schema,
  with_entry, then_read_key, then_read_old, process_frame_begin_txn, process_frame_commit_txn,
  process_frame_insert, process_frame_update, process_frame_delete, process_message, process_frame,
}

module _ {Ctx : Type 0} (P : Ctx → Type 0) where
  -- A callback, if there is one, keeps `P`.
  abbrev pub CallKeeps : Option (Ctx → Run (ℕ × Ctx)) → Type 0
  CallKeeps none = Unit
  CallKeeps (some f) = (c : Ctx) → P c → Holds (λ x. P x.1) (f c)

  -- The callbacks of a frame at a position.
  pub record AllKeep (cb : Callbacks Ctx) (wal_pos : ℕ) : Type 0 where
    pub begins : (xid : ℕ) → CallKeeps (option_map (λ f. f wal_pos xid) cb.on_begin_txn)
    pub commits : (xid : ℕ) → CallKeeps (option_map (λ f. f wal_pos xid) cb.on_commit_txn)
    pub describes :
        (relid : ℕ) (key : Option (List ℕ)) (row : List ℕ)
        → CallKeeps (option_map (λ f. f wal_pos relid key row) cb.on_table_schema)
    pub inserts :
        (relid : ℕ) (key : Option (List ℕ)) (new : List ℕ)
        → CallKeeps (option_map (λ f. f wal_pos relid key new) cb.on_insert_row)
    pub updates :
        (relid : ℕ) (key old : Option (List ℕ)) (new : List ℕ)
        → CallKeeps (option_map (λ f. f wal_pos relid key old new) cb.on_update_row)
    pub deletes :
        (relid : ℕ) (key old : Option (List ℕ))
        → CallKeeps (option_map (λ f. f wal_pos relid key old) cb.on_delete_row)
    pub handles : (e : ℕ) → CallKeeps (option_map (λ f. f e) cb.on_error)

module _ (avro : Avro) {Ctx : Type 0} (cb : Callbacks Ctx) (P : Ctx → Type 0) (wal_pos : ℕ)
    (keep : AllKeep P cb wal_pos) where
  abbrev pub Reader : Type 0
  Reader = State avro cb

  abbrev pub Kept : ℕ × Reader → Type 0
  Kept x = P x.1.cb_context

  called-keeps :
      (r : Reader) (g : Option (Ctx → Run (ℕ × Ctx)))
      → CallKeeps P g
      → P r.cb_context
      → Holds Kept (called avro cb r g)
  called-keeps r none k p = p
  called-keeps r (some f) k p =
      Holds-bind (λ x. P x.1) Kept (f r.cb_context) _ (k r.cb_context p) (λ x q. q)

  handler-keeps :
      (h : Option (ℕ → Ctx → Run (ℕ × Ctx))) (e : ℕ) (r : Reader)
      → CallKeeps P (option_map (λ f. f e) h)
      → P r.cb_context
      → Holds Kept (or_error avro cb e r h)
  handler-keeps none e r k p = p
  handler-keeps (some f) e r k p =
      Holds-bind (λ x. P x.1) Kept (f e r.cb_context) _ (k r.cb_context p) (λ x q. q)

  pub handle-keeps :
      (e : ℕ) (r : Reader) → P r.cb_context → Holds Kept (frame_reader_handle avro cb e r)
  unfolding frame_reader_handle
  handle-keeps e r p = handler-keeps cb.on_error e r (keep.handles e) p

  callback-keeps :
      (r : Reader) (g : Option (Ctx → Run (ℕ × Ctx)))
      → CallKeeps P g
      → P r.cb_context
      → Holds Kept (check_handle avro cb (called avro cb r g))
  unfolding check_handle
  callback-keeps r g k p =
      Holds-bind Kept Kept (called avro cb r g) _ (called-keeps r g k p) (λ (e, r') q.
        elim (Bool-cases (e == 0)) [
          | inl fine ↦ rw fine q
          | inr failed ↦ rw failed (handle-keeps e r' q)
        ])

  abbrev Continues : (Reader → Run (ℕ × Reader)) → Type 0
  Continues next = (r : Reader) → P r.cb_context → Holds Kept (next r)

  then_read-keeps :
      (s : avro.Schema) (buf : List ℕ) (next : Reader → Run (ℕ × Reader))
      → Continues next
      → Continues (λ r. then_read avro cb s buf r next)
  unfolding then_read
  then_read-keeps s buf next k r p = elim (Result-cases (read_entirely avro cb s buf)) [
    | inl (u, whole) ↦ rw (whole, then_read) (k r p)
    | inr (e, broken) ↦
        rw (broken, then_read)
          (Holds-bind Kept Kept (frame_reader_handle avro cb e r) _ (handle-keeps e r p)
            (λ (e', r') q. elim (Bool-cases (e' == 0)) [
              | inl fine ↦ rw fine (k r' q)
              | inr failed ↦ rw failed q
            ]))
  ]

  then_read_key-keeps :
      (s : Option avro.Schema) (key : Option (List ℕ)) (next : Reader → Run (ℕ × Reader))
      → Continues next
      → Continues (λ r. then_read_key avro cb s key r next)
  unfolding then_read_key
  then_read_key-keeps s none next k r p = k r p
  then_read_key-keeps none (some key) next k r p = tt
  then_read_key-keeps (some s) (some key) next k r p = then_read-keeps s key next k r p

  then_read_old-keeps :
      (s : avro.Schema) (old : Option (List ℕ)) (next : Reader → Run (ℕ × Reader))
      → Continues next
      → Continues (λ r. then_read_old avro cb s old r next)
  unfolding then_read_old
  then_read_old-keeps s none next k r p = k r p
  then_read_old-keeps s (some old) next k r p = then_read-keeps s old next k r p

  with_entry-keeps :
      (relid : ℕ) (f : SchemaListEntry avro.Schema → Reader → Run (ℕ × Reader)) (r : Reader)
      → ((e : SchemaListEntry avro.Schema) → Continues (f e))
      → P r.cb_context
      → Holds Kept (with_entry avro cb relid r (λ e. f e r))
  unfolding with_entry
  with_entry-keeps relid f r k p = elim (Bool-cases (active r.active_schema_list relid)) [
    | inr inactive ↦ rw inactive p
    | inl listed ↦ elim (Option-cases (schema_list_lookup r relid)) [
      | inl unknown ↦ rw (listed, unknown, with_entry) (handle-keeps einval r p)
      | inr (e, known) ↦ rw (listed, known, with_entry) (k e r p)
    ]
  ]

  replaced-context :
      (relid : ℕ) (key : Option avro.Schema → Option avro.Schema) (row : avro.Schema) (r : Reader)
      → (schema_list_replace relid key row r).cb_context ≡ r.cb_context
  unfolding schema_list_replace store_entry schema_list_entry_new
  replaced-context relid key row r = elim (Option-cases (schema_list_lookup r relid)) [
    | inl unknown ↦ rw (unknown, store_entry) refl
    | inr (old, known) ↦ rw (known, store_entry) refl
  ]

  report_schema-keeps :
      (relid : ℕ) (key_json : Option (List ℕ)) (row_json : List ℕ) (r : Reader)
      → P r.cb_context
      → Holds Kept (report_schema avro cb wal_pos relid key_json row_json r)
  unfolding report_schema
  report_schema-keeps relid key_json row_json r p = callback-keeps r _ (keep.describes _ _ _) p

  process_key_schema-keeps :
      (relid : ℕ) (key_json : Option (List ℕ)) (row_json : List ℕ) (row : avro.Schema) (r : Reader)
      → P r.cb_context
      → Holds Kept (process_key_schema avro cb wal_pos relid key_json row_json row r)
  unfolding process_key_schema
  process_key_schema-keeps relid none row_json row r p =
      report_schema-keeps relid none row_json (schema_list_replace relid (λ old. none) row r)
        (rw (replaced-context relid) p)
  process_key_schema-keeps relid (some key_json) row_json row r p =
      elim (Result-cases (avro.schema_from_json (without_null key_json))) [
        | inl (key, read) ↦
            rw (read, process_key_schema)
              (report_schema-keeps relid (some key_json) row_json _ (rw (replaced-context relid) p))
        | inr (e, broken) ↦
            rw (broken, process_key_schema) (handle-keeps e _ (rw (replaced-context relid) p))
      ]

  message-keeps :
      (m : Message) (r : Reader) → P r.cb_context → Holds Kept (process_message avro cb wal_pos m r)
  unfolding process_message process_frame_begin_txn process_frame_commit_txn
      process_frame_table_schema process_frame_insert process_frame_update process_frame_delete
  message-keeps (Message.begin_txn xid) r p = callback-keeps r _ (keep.begins _) p
  message-keeps (Message.commit_txn xid lsn) r p = callback-keeps r _ (keep.commits _) p
  message-keeps (Message.table_schema relid key_json row_json) r p =
      elim (Result-cases (avro.schema_from_json (without_null row_json))) [
        | inl (row, read) ↦ rw read (process_key_schema-keeps relid key_json row_json row r p)
        | inr (e, broken) ↦ rw broken (handle-keeps e r p)
      ]
  message-keeps (Message.insert relid key new) r p =
      with_entry-keeps relid _ r
        (λ e.
          then_read_key-keeps e.key_schema key _ (
            then_read-keeps e.row_schema new _
              (λ r' q. callback-keeps r' _ (keep.inserts _ _ _) q)))
        p
  message-keeps (Message.update relid key old new) r p =
      with_entry-keeps relid _ r
        (λ e. then_read_key-keeps e.key_schema key _ (
          then_read_old-keeps e.row_schema old _ (
            then_read-keeps e.row_schema new _
              (λ r' q. callback-keeps r' _ (keep.updates _ _ _ _) q))))
        p
  message-keeps (Message.delete relid key old) r p =
      with_entry-keeps relid _ r
        (λ e. then_read_key-keeps e.key_schema key _ (
          then_read_old-keeps e.row_schema old _
            (λ r' q. callback-keeps r' _ (keep.deletes _ _ _) q)))
        p

  pub process_frame-keeps :
      (ms : List Message) (r : Reader)
      → P r.cb_context
      → Holds Kept (process_frame avro cb wal_pos ms r)
  unfolding process_frame
  process_frame-keeps [] r p = p
  process_frame-keeps (m ∷ ms) r p =
      Holds-bind Kept Kept (process_message avro cb wal_pos m r) _ (message-keeps m r p)
        (λ (e, r') q. elim (Bool-cases (e == 0)) [
          | inl fine ↦ rw fine (process_frame-keeps ms r' q)
          | inr failed ↦ rw failed q
        ])
