-- ===== src/Ext/Decoder/Losses.antt =====
-- What the error policy lets the plugin lose.
use bottledwater_pg.Prelude.{
  ℕ, ◌+◌, ◌<◌, ◌≤◌, ◌≡◌, refl, ap, false, true, some, List, [], ◌∷◌, ◌++◌, length, leb, ◌==◌,
  Result, ok, err, enospc, arith, Bool-cases, inl, inr,
}
use bottledwater_pg.Client.Frames.{Message}
use bottledwater_pg.Ext.Backend.{Backend, returned, aborted, crashed}
use bottledwater_pg.Ext.Writing.{
  MemoryWriter, try_writing, try_writing-writes, varhdrsz, max_buffer_length,
}
use bottledwater_pg.Ext.Policy.{Policy, error_policy_handle}
use bottledwater_pg.Ext.Tables.{Relation, RecordSchema, Catalog}
use bottledwater_pg.Ext.SchemaCache.{Cache, Entry, Lookup, schema_cache_lookup}
use bottledwater_pg.Ext.Datum.Values.{Postgres}
use bottledwater_pg.Ext.Rows.{Tuple, AvroValues}
use bottledwater_pg.Ext.Frames.{Frame, all_made, Encoding, Out, written_row, extract_tuple_key}
use bottledwater_pg.Ext.SchemaCache.Once.{lookup_again}
use bottledwater_pg.Ext.Frames.Rows.{first_insert, known_insert}
use bottledwater_pg.Ext.Decoder.{
  FrameWriter, PluginState, Change, write_frame, finish_change, convert_change, output_avro_change,
}

module _ (w : MemoryWriter) (fw : FrameWriter w) where
  -- The frame was made whole, and was written.
  abbrev pub WroteAll : Backend Out → PluginState → PluginState → Type 0
  WroteAll converted state state' =
      (frame : Frame) × (cache : Cache) × (output : List ℕ) × (converted
        ≡ returned (0, frame, cache))
      × (try_writing w (fw.write_avro_binary frame) ≡ ok output)
      × (state'.written ≡ state.written ++ (output ∷ []))

  written_whole :
      (state state' : PluginState) (frame : Frame) (cache : Cache) (m : Result (List ℕ))
      → try_writing w (fw.write_avro_binary frame) ≡ m
      → state.error_policy ≡ Policy.exit
      → finish_change w fw state (returned (0, frame, cache)) ≡ returned state'
      → WroteAll (returned (0, frame, cache)) state state'
  unfolding finish_change write_frame error_policy_handle
  written_whole state state' frame cache (ok output) m exits h =
      let final : PluginState = record state {
        schema_cache = cache;
        written = state.written ++ (output ∷ []);
      } in
      let same : finish_change w fw state (returned (0, frame, cache)) ≡ returned final =
        rw m refl in
      let reached : final ≡ state' = ground (arith, same, h) in
      (frame, cache, output, refl, m, rw (← reached) refl)
  written_whole state state' frame cache (err e) m exits h =
      let stops : finish_change w fw state (returned (0, frame, cache)) ≡ aborted =
        rw (m, exits) refl in
      absurd (ground arith)

  finish_exit :
      (state state' : PluginState) (converted : Backend Out)
      → state.error_policy ≡ Policy.exit
      → finish_change w fw state converted ≡ returned state'
      → WroteAll converted state state'
  unfolding finish_change error_policy_handle
  finish_exit state state' aborted exits h = absurd (ground arith)
  finish_exit state state' crashed exits h = absurd (ground arith)
  finish_exit state state' (returned (e, frame, cache)) exits h = elim (Bool-cases (e == 0)) [
    | inl fine ↦
        let none_left : e ≡ 0 = ground arith in
        rw none_left (written_whole state state' frame cache _ refl exits (rw none_left at h))
    | inr failed ↦
        let stops : finish_change w fw state (returned (e, frame, cache)) ≡ aborted =
          rw (failed, exits) refl in
        absurd (ground arith)
  ]

  made_frame :
      (ms : List Message) (state : PluginState)
      → length (fw.frame_bytes ms) + 1 + varhdrsz ≤ max_buffer_length
      → write_frame w fw (all_made ms) state
        ≡ ok (record state { written = state.written ++ (fw.frame_bytes ms ∷ []) })
  unfolding write_frame
  made_frame ms state fits =
      let small : leb (length (fw.frame_bytes ms) + 1 + varhdrsz) max_buffer_length ≡ true =
        ground arith in
      rw (fw.write_made ms, try_writing-writes w (fw.frame_bytes ms), small) refl

  large_frame :
      (ms : List Message) (state : PluginState)
      → max_buffer_length < length (fw.frame_bytes ms) + 1 + varhdrsz
      → write_frame w fw (all_made ms) state ≡ err enospc
  unfolding write_frame
  large_frame ms state large =
      let full : leb (length (fw.frame_bytes ms) + 1 + varhdrsz) max_buffer_length ≡ false =
        ground arith in
      rw (fw.write_made ms, try_writing-writes w (fw.frame_bytes ms), full) refl

  module _ (k : Catalog) (pg : Postgres) (values : AvroValues pg.Float)
      (enc : Encoding pg.Float) where
    -- Under the policy to exit, a change that the plugin returns from was converted without an error
    -- and its frame was written: nothing is lost.
    pub output_avro_change_exit :
        (rel : Relation) (change : Change pg) (state state' : PluginState)
        → state.error_policy ≡ Policy.exit
        → output_avro_change w fw k pg values enc rel change state ≡ returned state'
        → WroteAll (convert_change w fw k pg values enc rel change state.schema_cache) state state'
    unfolding output_avro_change
    output_avro_change_exit rel change state state' exits h =
        finish_exit state state' (convert_change w fw k pg values enc rel change state.schema_cache)
          exits h

    -- Under the policy to log, when the frame of the first inserted row of a table is too large to be
    -- written, the table's schemas are lost with it: nothing is written, and the next inserted row of
    -- the table is written without them.
    pub schemas_lost :
        (rel : Relation) (first later : Tuple pg) (state : PluginState) (e : Entry)
        (ks row : RecordSchema) (key_bin new_bin key_bin' new_bin' : List ℕ)
        → state.error_policy ≡ Policy.log
        → (schema_cache_lookup k rel state.schema_cache).0 ≡ Lookup.unseen e
        → e.schemas ≡ some (record { key_schema = some ks; row_schema = row })
        → length (enc.schema_json ks) + 1 + varhdrsz ≤ max_buffer_length
        → length (enc.schema_json row) + 1 + varhdrsz ≤ max_buffer_length
        → extract_tuple_key k w pg values enc (some ks) rel rel.attrs first
          ≡ returned (ok (some key_bin))
        → written_row k w pg values enc row rel.attrs first ≡ ok new_bin
        → max_buffer_length
          < length (
              fw.frame_bytes (
                Message.table_schema e.relid
                  (some (enc.schema_json ks ++ (0 ∷ [])))
                  (enc.schema_json row ++ (0 ∷ []))
                ∷ Message.insert rel.relid (some key_bin) new_bin
                ∷ []))
            + 1
            + varhdrsz
        → extract_tuple_key k w pg values enc (some ks) rel rel.attrs later
          ≡ returned (ok (some key_bin'))
        → written_row k w pg values enc row rel.attrs later ≡ ok new_bin'
        → length (fw.frame_bytes (Message.insert rel.relid (some key_bin') new_bin' ∷ []))
            + 1
            + varhdrsz
          ≤ max_buffer_length
        → (state' : PluginState) × (output_avro_change w fw k pg values enc rel
              (Change.insert (some first))
              state
            ≡ returned state')
          × (state'.written ≡ state.written)
          × (output_avro_change w fw k pg values enc rel (Change.insert (some later)) state'
              ≡ returned (record state' {
                written =
                    state.written
                    ++ (fw.frame_bytes (Message.insert rel.relid (some key_bin') new_bin' ∷ [])
                        ∷ []);
              }))
    unfolding output_avro_change convert_change finish_change error_policy_handle
    schemas_lost rel first later state e ks row key_bin new_bin key_bin' new_bin' logs found whole
          fits₁ fits₂ ok₁ ok₂ large ok₃ ok₄ fits =
        let cache' = (schema_cache_lookup k rel state.schema_cache).1 in
        let again = lookup_again k rel state.schema_cache e (rw found refl) in
        let state' : PluginState = record state { schema_cache = cache' } in
        (
          state',
          rw
              (
                first_insert k w pg values enc rel rel.attrs first state.schema_cache e ks row
                    key_bin new_bin found whole fits₁ fits₂ ok₁ ok₂,
                finish_change,
                large_frame _ state' large,
                logs,
              )
              refl,
          refl,
          rw
              (
                known_insert k w pg values enc rel rel.attrs later cache' e _ _ new_bin'
                    (ap (λ p. p.0) again) whole ok₃ ok₄,
                finish_change,
                again,
                made_frame (Message.insert rel.relid (some key_bin') new_bin' ∷ []) state' fits,
              )
              refl,
        )
