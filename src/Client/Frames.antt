-- ===== src/Client/Frames.antt =====
-- client/protocol_client.c: the frames of the output plugin, whose messages ext/protocol.c describes.
pub mod Schemas
use bottledwater_pg.Prelude.{
  ℕ, zero, suc, ◌+◌, ◌-◌, ◌*◌, ◌%◌, ◌^◌, Bool, true, false, not, ◌&&◌, ◌||◌, Option, none, some,
  List, [], ◌∷◌, ◌++◌, length, take, ◌==◌, if◌then◌else◌, Result, ok, err, einval,
}
use bottledwater_pg.Prelude.Run.{Run, running, ◌>>=◌}

-- A message of a frame, with the fields of its record. The texts of schemas end in a null byte.
pub data Message : Type 0 where
  begin_txn : (xid : ℕ) → Message
  commit_txn : (xid lsn : ℕ) → Message
  table_schema : (relid : ℕ) (key_json : Option (List ℕ)) (row_json : List ℕ) → Message
  insert : (relid : ℕ) (key : Option (List ℕ)) (new : List ℕ) → Message
  update : (relid : ℕ) (key old : Option (List ℕ)) (new : List ℕ) → Message
  delete : (relid : ℕ) (key old : Option (List ℕ)) → Message

-- `avro_schema_from_json_length`, and `avro_value_read`, which gives the bytes that it leaves.
pub record Avro : Type 1 where
  pub Schema : Type 0
  pub schema_from_json : List ℕ → Result Schema
  pub value_read : Schema → List ℕ → Result (List ℕ)

-- `schema_list_entry`
pub record SchemaListEntry (Schema : Type 0) : Type 0 where
  pub relid : ℕ
  pub key_schema : Option Schema
  pub row_schema : Schema

-- The callbacks and the program's own state: they return an error number and the state, and may exit.
pub record Callbacks (Ctx : Type 0) : Type 0 where
  pub on_begin_txn : Option (ℕ → ℕ → Ctx → Run (ℕ × Ctx))
  pub on_commit_txn : Option (ℕ → ℕ → Ctx → Run (ℕ × Ctx))
  pub on_table_schema : Option (ℕ → ℕ → Option (List ℕ) → List ℕ → Ctx → Run (ℕ × Ctx))
  pub on_insert_row : Option (ℕ → ℕ → Option (List ℕ) → List ℕ → Ctx → Run (ℕ × Ctx))
  pub on_update_row :
      Option (ℕ → ℕ → Option (List ℕ) → Option (List ℕ) → List ℕ → Ctx → Run (ℕ × Ctx))
  pub on_delete_row : Option (ℕ → ℕ → Option (List ℕ) → Option (List ℕ) → Ctx → Run (ℕ × Ctx))
  pub on_keepalive : Option (ℕ → Ctx → ℕ)
  pub on_error : Option (ℕ → Ctx → Run (ℕ × Ctx))

-- `frame_reader`, with the state that `cb_context` points to. `schemas` has `num_schemas` elements,
-- and `active_schema_list` has `num_active_schemas`.
pub record FrameReader (Schema Ctx : Type 0) : Type 0 where
  pub schemas : List (SchemaListEntry Schema)
  pub capacity : ℕ
  pub active_schema_list : List ℕ
  pub cb_context : Ctx

-- An `Oid` or a transaction's number has 32 bits.
abbrev pub oid_mod : ℕ
oid_mod = 2 ^ 32

module _ {Schema : Type 0} where
  unfoldable pub find_schema : List (SchemaListEntry Schema) → ℕ → Option (SchemaListEntry Schema)
  find_schema [] relid = none
  find_schema (e ∷ rest) relid =
      let later = find_schema rest relid in if e.relid == relid then some e else later

  -- The old entry is overwritten where it stands.
  unfoldable pub overwrite :
      ℕ → SchemaListEntry Schema → List (SchemaListEntry Schema) → List (SchemaListEntry Schema)
  overwrite relid new [] = []
  overwrite relid new (e ∷ rest) =
      let later = overwrite relid new rest in if e.relid == relid then new ∷ rest else e ∷ later

  abbrev old_key : Option (SchemaListEntry Schema) → Option Schema
  old_key none = none
  old_key (some e) = e.key_schema

abbrev pub active : List ℕ → ℕ → Bool
active [] relid = false
active (a ∷ rest) relid = (a == relid) || active rest relid

module _ {Schema Ctx : Type 0} where
  -- With the state that the program then gives it.
  unfoldable pub frame_reader_new : Ctx → FrameReader Schema Ctx
  frame_reader_new c = record {
    schemas = [];
    capacity = 16;
    active_schema_list = [];
    cb_context = c;
  }

  unfoldable pub schema_list_lookup : FrameReader Schema Ctx → ℕ → Option (SchemaListEntry Schema)
  unfolding find_schema
  schema_list_lookup r relid = find_schema r.schemas relid

  -- `schema_list_entry_new`, with what the caller then writes to the entry.
  unfoldable pub schema_list_entry_new :
      SchemaListEntry Schema → FrameReader Schema Ctx → FrameReader Schema Ctx
  schema_list_entry_new e r = record r {
    capacity = if length r.schemas == r.capacity then r.capacity * 4 % 2 ^ 32 else r.capacity;
    schemas = r.schemas ++ (e ∷ []);
  }

  -- Whether there was an entry decides where the new one goes.
  unfoldable pub store_entry :
      ℕ
      → Option (SchemaListEntry Schema)
      → SchemaListEntry Schema
      → FrameReader Schema Ctx
      → FrameReader Schema Ctx
  unfolding overwrite schema_list_entry_new
  store_entry relid none e r = schema_list_entry_new e r
  store_entry relid (some old) e r = record r { schemas = overwrite relid e r.schemas }

  -- `schema_list_replace`, with what `process_frame_table_schema` writes to the entry that it gives:
  -- `key` says what becomes of the key schema that stands there.
  unfoldable pub schema_list_replace :
      ℕ → (Option Schema → Option Schema) → Schema → FrameReader Schema Ctx → FrameReader Schema Ctx
  unfolding store_entry
  schema_list_replace relid key row r =
      let found = schema_list_lookup r relid in
      store_entry relid found
        (record { relid = relid % oid_mod; key_schema = key (old_key found); row_schema = row }) r

module _ (avro : Avro) {Ctx : Type 0} (cb : Callbacks Ctx) where
  open avro use {Schema}

  abbrev pub State : Type 0
  State = FrameReader Schema Ctx

  abbrev pub on_context : State → (Ctx → Run (ℕ × Ctx)) → Run (ℕ × State)
  on_context r f = do (e, c) ← f (r.cb_context); running (e, record r { cb_context = c })

  abbrev pub called : State → Option (Ctx → Run (ℕ × Ctx)) → Run (ℕ × State)
  called r none = running (0, r)
  called r (some f) = on_context r f

  abbrev pub or_error : ℕ → State → Option (ℕ → Ctx → Run (ℕ × Ctx)) → Run (ℕ × State)
  or_error e r none = running (e, r)
  or_error e r (some h) = on_context r (h e)

  unfoldable pub frame_reader_handle : ℕ → State → Run (ℕ × State)
  frame_reader_handle e r = or_error e r cb.on_error

  -- The macro `check_handle`, about a callback.
  unfoldable pub check_handle : Run (ℕ × State) → Run (ℕ × State)
  unfolding frame_reader_handle
  check_handle m = do (e, r) ← m; (if e == 0 then running (0, r) else frame_reader_handle e r)

  -- The macro `check_handle`, about a call of libavro or of the reader itself.
  abbrev pub checked {ℓ} : {A : Type ℓ} → State → Result A → (A → Run (ℕ × State)) → Run (ℕ × State)
  checked r (err e) f = frame_reader_handle e r
  checked r (ok a) f = f a

  -- Only a read that consumes the whole buffer is accepted.
  unfoldable pub consumed : List ℕ → Result {0} Unit
  consumed [] = ok tt
  consumed (b ∷ bs) = err einval

  -- The error that `frame_reader_handle` reports, if the buffer is not one whole value.
  unfoldable pub read_entirely : Schema → List ℕ → Result {0} Unit
  unfolding consumed
  read_entirely s buf = elim (avro.value_read s buf) [ ok left ↦ consumed left | err e ↦ err e ]

  -- `check(err, read_entirely(...))`: an error that was handled counts as none.
  unfoldable pub then_read : Schema → List ℕ → State → (State → Run (ℕ × State)) → Run (ℕ × State)
  unfolding read_entirely
  then_read s buf r next = elim (read_entirely s buf) [
    | ok u ↦ next r
    | err e ↦ (do
      (e', r') ← frame_reader_handle e r
      (if e' == 0 then next r' else running (e', r')))
  ]
