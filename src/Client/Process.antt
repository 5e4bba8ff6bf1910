-- ===== src/Client/Process.antt =====
-- client/protocol_client.c: `process_frame` and the handlers of the messages.
pub mod Rows
pub mod Keeps
use bottledwater_pg.Prelude.{
  ℕ, zero, suc, ◌+◌, ◌-◌, ◌%◌, Bool, true, false, not, Option, none, some, List, [], ◌∷◌, length,
  take, ◌==◌, if◌then◌else◌, Result, ok, err, einval,
}
use bottledwater_pg.Prelude.Run.{Run, running, exited, ◌>>=◌}
use bottledwater_pg.Client.Frames.{
  Message, Avro, Callbacks, SchemaListEntry, FrameReader, oid_mod, active, schema_list_lookup,
  schema_list_replace, State, called, frame_reader_handle, check_handle, checked, then_read,
}

abbrev pub without_null : List ℕ → List ℕ
without_null text = take (length text - 1) text

abbrev pub option_map {ℓ κ} : {A : Type ℓ} {B : Type κ} → (A → B) → Option A → Option B
option_map f none = none
option_map f (some a) = some (f a)

module _ (avro : Avro) {Ctx : Type 0} (cb : Callbacks Ctx) where
  open avro use {Schema}

  unfoldable pub process_frame_begin_txn : ℕ → ℕ → State avro cb → Run (ℕ × State avro cb)
  process_frame_begin_txn wal_pos xid r =
      check_handle avro cb
        (called avro cb r (option_map (λ f. f wal_pos (xid % oid_mod)) cb.on_begin_txn))

  unfoldable pub process_frame_commit_txn : ℕ → ℕ → State avro cb → Run (ℕ × State avro cb)
  process_frame_commit_txn wal_pos xid r =
      check_handle avro cb
        (called avro cb r (option_map (λ f. f wal_pos (xid % oid_mod)) cb.on_commit_txn))

  -- The part of `process_frame_table_schema` after the entry is stored.
  unfoldable pub report_schema :
      ℕ → ℕ → Option (List ℕ) → List ℕ → State avro cb → Run (ℕ × State avro cb)
  report_schema wal_pos relid key_json row_json r = check_handle avro cb (
      called avro cb r (
        option_map
          (λ f.
            f wal_pos (relid % oid_mod) (option_map without_null key_json) (without_null row_json))
          cb.on_table_schema))

  unfoldable pub process_key_schema :
      ℕ → ℕ → Option (List ℕ) → List ℕ → Schema → State avro cb → Run (ℕ × State avro cb)
  unfolding report_schema
  process_key_schema wal_pos relid none row_json row r =
      report_schema wal_pos relid none row_json (schema_list_replace relid (λ old. none) row r)
  process_key_schema wal_pos relid (some key_json) row_json row r =
      elim (avro.schema_from_json (without_null key_json)) [
        | err e ↦ frame_reader_handle avro cb e (schema_list_replace relid (λ old. old) row r)
        | ok key ↦
            report_schema wal_pos relid (some key_json) row_json
              (schema_list_replace relid (λ old. some key) row r)
      ]

  unfoldable pub process_frame_table_schema :
      ℕ → ℕ → Option (List ℕ) → List ℕ → State avro cb → Run (ℕ × State avro cb)
  unfolding process_key_schema
  process_frame_table_schema wal_pos relid key_json row_json r =
      checked avro cb r (avro.schema_from_json (without_null row_json))
        (λ row. process_key_schema wal_pos relid key_json row_json row r)

  -- CHECK_ACTIVE_SCHEMA and the search for the entry, which a row message starts with.
  unfoldable pub with_entry :
      ℕ
      → State avro cb
      → (SchemaListEntry Schema → Run (ℕ × State avro cb))
      → Run (ℕ × State avro cb)
  with_entry relid r f =
      if not (active r.active_schema_list relid)
      then running (0, r)
      else elim (schema_list_lookup r relid) [
        | none ↦ frame_reader_handle avro cb einval r
        | some e ↦ f e
      ]

  -- Reading a key into the value of an entry that has no key schema follows a null pointer.
  abbrev pub segmentation_fault : Run (ℕ × State avro cb)
  segmentation_fault = exited (record { status = 139; slot_dropped = false })

  unfoldable pub then_read_key :
      Option Schema
      → Option (List ℕ)
      → State avro cb
      → (State avro cb → Run (ℕ × State avro cb))
      → Run (ℕ × State avro cb)
  then_read_key k none r next = next r
  then_read_key none (some key_bin) r next = segmentation_fault
  then_read_key (some k) (some key_bin) r next = then_read avro cb k key_bin r next

  unfoldable pub then_read_old :
      Schema
      → Option (List ℕ)
      → State avro cb
      → (State avro cb → Run (ℕ × State avro cb))
      → Run (ℕ × State avro cb)
  then_read_old s none r next = next r
  then_read_old s (some old_bin) r next = then_read avro cb s old_bin r next

  unfoldable pub process_frame_insert :
      ℕ → ℕ → Option (List ℕ) → List ℕ → State avro cb → Run (ℕ × State avro cb)
  unfolding with_entry then_read_key
  process_frame_insert wal_pos relid key new r = with_entry relid r (λ e.
      then_read_key e.key_schema key r (λ r₁. then_read avro cb e.row_schema new r₁ (λ r₂.
        check_handle avro cb (
          called avro cb r₂
            (option_map (λ f. f wal_pos (relid % oid_mod) key new) cb.on_insert_row)))))

  unfoldable pub process_frame_update :
      ℕ → ℕ → Option (List ℕ) → Option (List ℕ) → List ℕ → State avro cb → Run (ℕ × State avro cb)
  unfolding with_entry then_read_key then_read_old
  process_frame_update wal_pos relid key old new r = with_entry relid r (λ e.
      then_read_key e.key_schema key r (λ r₁. then_read_old e.row_schema old r₁ (λ r₂.
        then_read avro cb e.row_schema new r₂ (λ r₃. check_handle avro cb (
          called avro cb r₃
            (option_map (λ f. f wal_pos (relid % oid_mod) key old new) cb.on_update_row))))))

  unfoldable pub process_frame_delete :
      ℕ → ℕ → Option (List ℕ) → Option (List ℕ) → State avro cb → Run (ℕ × State avro cb)
  unfolding with_entry then_read_key then_read_old
  process_frame_delete wal_pos relid key old r = with_entry relid r (λ e.
      then_read_key e.key_schema key r (λ r₁. then_read_old e.row_schema old r₁ (λ r₂.
        check_handle avro cb (
          called avro cb r₂
            (option_map (λ f. f wal_pos (relid % oid_mod) key old) cb.on_delete_row)))))

  -- The `switch` on the message type.
  unfoldable pub process_message : ℕ → Message → State avro cb → Run (ℕ × State avro cb)
  process_message wal_pos (Message.begin_txn xid) r = process_frame_begin_txn wal_pos xid r
  process_message wal_pos (Message.commit_txn xid lsn) r = process_frame_commit_txn wal_pos xid r
  process_message wal_pos (Message.table_schema relid key_json row_json) r =
      process_frame_table_schema wal_pos relid key_json row_json r
  process_message wal_pos (Message.insert relid key new) r =
      process_frame_insert wal_pos relid key new r
  process_message wal_pos (Message.update relid key old new) r =
      process_frame_update wal_pos relid key old new r
  process_message wal_pos (Message.delete relid key old) r =
      process_frame_delete wal_pos relid key old r

  -- The first error that was not handled ends the frame.
  unfoldable pub process_frame : ℕ → List Message → State avro cb → Run (ℕ × State avro cb)
  process_frame wal_pos [] r = running (0, r)
  process_frame wal_pos (m ∷ ms) r = do
    (e, r') ← process_message wal_pos m r
    (let rest = process_frame wal_pos ms r' in if e == 0 then rest else running (e, r'))

  unfoldable pub handle_keepalive : ℕ → State avro cb → ℕ
  handle_keepalive wal_pos r = elim (cb.on_keepalive) [ none ↦ 0 | some f ↦ f wal_pos r.cb_context ]
