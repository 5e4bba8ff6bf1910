-- ===== src/Ext/Protocol/Wire/RoundTrip.antt =====
-- From ext/protocol_server.c to client/protocol_client.c by the schemas of ext/protocol.c.
use bottledwater_pg.Prelude.{
  ℕ, ◌≡◌, refl, Bool, true, false, ◌&&◌, Option, none, some, List, [], ◌∷◌, get_elem?, ◌==◌,
  if◌then◌else◌,
}
use bottledwater_pg.Client.Frames.{Message}
use bottledwater_pg.Ext.Protocol.{FieldSchema, MessageSchema, FrameSchema, schema_for_frame}
use bottledwater_pg.Ext.Protocol.Wire.{
  FieldValue, MessageValue, Received, begin_txn_value, commit_txn_value, table_schema_value,
  insert_value, update_value, delete_value, message_value, get_message,
}

-- What is left of a message without the position of a commit.
abbrev pub received : Message → Received
received (Message.begin_txn xid) = Received.begin_txn xid
received (Message.commit_txn xid lsn) = Received.commit_txn xid
received (Message.table_schema relid key_json row_json) =
    Received.table_schema relid key_json row_json
received (Message.insert relid key new) = Received.insert relid key new
received (Message.update relid key old new) = Received.update relid key old new
received (Message.delete relid key old) = Received.delete relid key old

-- Whether a value is one of the schema.
abbrev has_schema : FieldSchema → FieldValue → Bool
has_schema FieldSchema.null FieldValue.null = true
has_schema FieldSchema.long (FieldValue.long n) = true
has_schema FieldSchema.string (FieldValue.string text) = true
has_schema FieldSchema.bytes (FieldValue.bytes bin) = true
has_schema (FieldSchema.union a b) (FieldValue.branch n v) =
    let first = has_schema a v in
    let second = has_schema b v in if n == 0 then first else if n == 1 then second else false
has_schema _ _ = false

abbrev have_schemas : List (List ℕ × FieldSchema) → List FieldValue → Bool
have_schemas [] [] = true
have_schemas ((name, s) ∷ fields) (v ∷ vs) = has_schema s v && have_schemas fields vs
have_schemas _ _ = false

abbrev is_branch : Option MessageSchema → List FieldValue → Bool
is_branch none vs = false
is_branch (some s) vs = have_schemas s.fields vs

abbrev pub is_message : Option FrameSchema → MessageValue → Bool
is_message none m = false
is_message (some s) m = is_branch (get_elem? s.messages m.discriminant) m.fields

-- For every message: the schema of frames is made without a failed assertion, the value that the
-- output plugin sets has the schema of the branch that its discriminant names, and the client gets
-- from it what the plugin put in, but for the position of a commit.
pub get_message-message_value :
    (m : Message)
    → (is_message schema_for_frame (message_value m) ≡ true)
      × (get_message (message_value m) ≡ some (received m))
unfolding begin_txn_value commit_txn_value table_schema_value insert_value update_value delete_value
    get_message schema_for_frame
get_message-message_value (Message.begin_txn xid) = (refl, refl)
get_message-message_value (Message.commit_txn xid lsn) = (refl, refl)
get_message-message_value (Message.table_schema relid none row_json) = (refl, refl)
get_message-message_value (Message.table_schema relid (some key_json) row_json) = (refl, refl)
get_message-message_value (Message.insert relid none new) = (refl, refl)
get_message-message_value (Message.insert relid (some key) new) = (refl, refl)
get_message-message_value (Message.update relid none none new) = (refl, refl)
get_message-message_value (Message.update relid none (some old) new) = (refl, refl)
get_message-message_value (Message.update relid (some key) none new) = (refl, refl)
get_message-message_value (Message.update relid (some key) (some old) new) = (refl, refl)
get_message-message_value (Message.delete relid none none) = (refl, refl)
get_message-message_value (Message.delete relid none (some old)) = (refl, refl)
get_message-message_value (Message.delete relid (some key) none) = (refl, refl)
get_message-message_value (Message.delete relid (some key) (some old)) = (refl, refl)
