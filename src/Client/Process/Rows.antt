-- ===== src/Client/Process/Rows.antt =====
-- Which rows of a frame reach the callbacks, and in what order.
use bottledwater_pg.Prelude.{
  ℕ, ◌+◌, ◌%◌, ◌<◌, ◌≡◌, refl, true, false, Option, some, List, [], ◌∷◌, ◌++◌, ◌==◌, if◌then◌else◌,
  ok, arith, Bool-cases, inl, inr,
}
use bottledwater_pg.Prelude.Run.{Run, running, exited, waiting, ◌>>=◌}
use bottledwater_pg.Client.Frames.{
  Message, Avro, Callbacks, oid_mod, active, schema_list_lookup, State, read_entirely, then_read,
  schema_list_replace, check_handle, called,
}
use bottledwater_pg.Client.Frames.Schemas.{lookup-replace, replace-active}
use bottledwater_pg.Client.Process.{
  with_entry, then_read_key, process_frame_insert, process_frame_update, process_frame_delete,
  process_message, process_frame, option_map,
}

module _ (avro : Avro) {Ctx : Type 0} (cb : Callbacks Ctx) where
  open avro use {Schema}

  -- The rows of a table that is not on the list of active tables are passed over, without an error
  -- and without a callback.
  process_frame_inactive :
      (wal_pos relid : ℕ) (key old : Option (List ℕ)) (new : List ℕ) (r : State avro cb)
      → active r.active_schema_list relid ≡ false
      → (process_frame_insert avro cb wal_pos relid key new r ≡ running (0, r))
        × (process_frame_update avro cb wal_pos relid key old new r ≡ running (0, r))
        × (process_frame_delete avro cb wal_pos relid key old r ≡ running (0, r))
  unfolding process_frame_insert process_frame_update process_frame_delete with_entry
  process_frame_inactive wal_pos relid key old new r h = rw h (refl, refl, refl)

  -- What follows a part of a frame.
  abbrev pub rest_of : ℕ → List Message → ℕ × State avro cb → Run (ℕ × State avro cb)
  rest_of wal_pos ms x = if x.0 == 0 then process_frame avro cb wal_pos ms x.1 else running x

  append_after :
      (wal_pos : ℕ) (ms ns : List Message) (m : Run (ℕ × State avro cb))
      → ((r : State avro cb)
          → process_frame avro cb wal_pos (ms ++ ns) r
            ≡ (process_frame avro cb wal_pos ms r >>= rest_of wal_pos ns))
      → (m >>= rest_of wal_pos (ms ++ ns)) ≡ (m >>= rest_of wal_pos ms >>= rest_of wal_pos ns)
  append_after wal_pos ms ns (running (e, r)) ih = elim (Bool-cases (e == 0)) [
    | inl fine ↦ rw fine (ih r)
    | inr failed ↦ rw (failed, failed) refl
  ]
  append_after wal_pos ms ns (exited e) ih = refl
  append_after wal_pos ms ns waiting ih = refl

  -- The messages of a frame are handled one after the other: a frame in two parts is the first part,
  -- and the second only if the first ends without an error.
  pub process_frame-append :
      (wal_pos : ℕ) (ms ns : List Message) (r : State avro cb)
      → process_frame avro cb wal_pos (ms ++ ns) r
        ≡ (process_frame avro cb wal_pos ms r >>= rest_of wal_pos ns)
  unfolding process_frame
  process_frame-append wal_pos [] ns r = refl
  process_frame-append wal_pos (m ∷ ms) ns r =
      append_after wal_pos ms ns (process_message avro cb wal_pos m r)
        (process_frame-append wal_pos ms ns)

  read-then :
      (s : Schema) (buf : List ℕ) (r : State avro cb)
      (next : State avro cb → Run (ℕ × State avro cb))
      → read_entirely avro cb s buf ≡ ok tt
      → then_read avro cb s buf r next ≡ next r
  unfolding then_read
  read-then s buf r next h = rw (h, then_read) refl

  -- What is left of an insert when the entry is found.
  pub insert_found :
      (wal_pos relid : ℕ) (key new : List ℕ) (k row : Schema) (i : ℕ) (r : State avro cb)
      → active r.active_schema_list relid ≡ true
      → schema_list_lookup r relid
        ≡ some (record { relid = i; key_schema = some k; row_schema = row })
      → read_entirely avro cb k key ≡ ok tt
      → read_entirely avro cb row new ≡ ok tt
      → process_frame_insert avro cb wal_pos relid (some key) new r
        ≡ check_handle avro cb (
            called avro cb r
              (option_map (λ f. f wal_pos (relid % oid_mod) (some key) new) cb.on_insert_row))
  unfolding process_frame_insert with_entry then_read_key
  insert_found wal_pos relid key new k row i r on found key_whole row_whole =
      rw (on, found, read-then k key r _ key_whole, read-then row new r _ row_whole) refl

  -- After the schemas of an active table were replaced by a key and a row schema, an inserted row of
  -- that table whose key and row are whole values of these schemas is passed to the callback, with
  -- the bytes that the frame holds.
  pub process_frame_insert-replace :
      (wal_pos relid : ℕ) (key new : List ℕ) (k row : Schema) (r : State avro cb)
      → relid < oid_mod
      → active r.active_schema_list relid ≡ true
      → read_entirely avro cb k key ≡ ok tt
      → read_entirely avro cb row new ≡ ok tt
      → let r' = schema_list_replace relid (λ old. some k) row r in
        process_frame_insert avro cb wal_pos relid (some key) new r'
        ≡ check_handle avro cb
            (called avro cb r' (option_map (λ f. f wal_pos relid (some key) new) cb.on_insert_row))
  process_frame_insert-replace wal_pos relid key new k row r small on key_whole row_whole =
      let r' = schema_list_replace relid (λ old. some k) row r in
      let found = (lookup-replace relid (relid + 1) (λ old. some k) row r small (omega arith)).0 in
      let on' : active r'.active_schema_list relid ≡ true =
        rw (replace-active relid (λ old. some k) row r) on in
      let same : relid % oid_mod ≡ relid = omega arith in
      rw same at (
        insert_found wal_pos relid key new k row (relid % oid_mod) r' on' found key_whole row_whole)
