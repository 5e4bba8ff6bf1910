-- ===== src/Ext/Protocol/Wire.antt =====
-- The values of messages: ext/protocol_server.c sets their fields by index, and
-- client/protocol_client.c gets them by index.
pub mod RoundTrip
use bottledwater_pg.Prelude.{ℕ, Option, none, some, List, [], ◌∷◌, get_elem?, ◌==◌, if◌then◌else◌}
use bottledwater_pg.Client.Frames.{Message}
use bottledwater_pg.Ext.Protocol.{
  msg_begin_txn, msg_commit_txn, msg_table_schema, msg_insert, msg_update, msg_delete,
}

-- A value of a field: a branch is that of a union, with its discriminant.
pub data FieldValue : Type 0 where
  null : FieldValue
  long : ℕ → FieldValue
  string bytes : List ℕ → FieldValue
  branch : ℕ → FieldValue → FieldValue

-- A value of the union of messages: the discriminant, and the fields of the record.
pub record MessageValue : Type 0 where
  pub discriminant : ℕ
  pub fields : List FieldValue

abbrev bytes_or_null : Option (List ℕ) → FieldValue
bytes_or_null none = FieldValue.branch 0 FieldValue.null
bytes_or_null (some bin) = FieldValue.branch 1 (FieldValue.bytes bin)

abbrev string_or_null : Option (List ℕ) → FieldValue
string_or_null none = FieldValue.branch 0 FieldValue.null
string_or_null (some text) = FieldValue.branch 1 (FieldValue.string text)

-- What `update_frame_with_begin_txn` and the other handlers of the output plugin set.
unfoldable pub begin_txn_value : ℕ → MessageValue
begin_txn_value xid = record { discriminant = msg_begin_txn; fields = FieldValue.long xid ∷ [] }

unfoldable pub commit_txn_value : ℕ → ℕ → MessageValue
commit_txn_value xid lsn = record {
  discriminant = msg_commit_txn;
  fields = FieldValue.long xid ∷ FieldValue.long lsn ∷ [];
}

unfoldable pub table_schema_value : ℕ → Option (List ℕ) → List ℕ → MessageValue
table_schema_value relid key_json row_json = record {
  discriminant = msg_table_schema;
  fields = FieldValue.long relid ∷ string_or_null key_json ∷ FieldValue.string row_json ∷ [];
}

unfoldable pub insert_value : ℕ → Option (List ℕ) → List ℕ → MessageValue
insert_value relid key_bin new_bin = record {
  discriminant = msg_insert;
  fields = FieldValue.long relid ∷ bytes_or_null key_bin ∷ FieldValue.bytes new_bin ∷ [];
}

unfoldable pub update_value : ℕ → Option (List ℕ) → Option (List ℕ) → List ℕ → MessageValue
update_value relid key_bin old_bin new_bin = record {
  discriminant = msg_update;
  fields =
      FieldValue.long relid
      ∷ bytes_or_null key_bin
      ∷ bytes_or_null old_bin
      ∷ FieldValue.bytes new_bin
      ∷ [];
}

unfoldable pub delete_value : ℕ → Option (List ℕ) → Option (List ℕ) → MessageValue
delete_value relid key_bin old_bin = record {
  discriminant = msg_delete;
  fields = FieldValue.long relid ∷ bytes_or_null key_bin ∷ bytes_or_null old_bin ∷ [];
}

abbrev pub message_value : Message → MessageValue
message_value (Message.begin_txn xid) = begin_txn_value xid
message_value (Message.commit_txn xid lsn) = commit_txn_value xid lsn
message_value (Message.table_schema relid key_json row_json) =
    table_schema_value relid key_json row_json
message_value (Message.insert relid key new) = insert_value relid key new
message_value (Message.update relid key old new) = update_value relid key old new
message_value (Message.delete relid key old) = delete_value relid key old

-- `avro_value_get_by_index` with `avro_value_get_long` and so on. `none` is an error.
abbrev get_long : Option FieldValue → Option ℕ
get_long (some (FieldValue.long n)) = some n
get_long _ = none

abbrev get_bytes : Option FieldValue → Option (List ℕ)
get_bytes (some (FieldValue.bytes bin)) = some bin
get_bytes _ = none

abbrev get_string : Option FieldValue → Option (List ℕ)
get_string (some (FieldValue.string text)) = some text
get_string _ = none

abbrev present : Option (List ℕ) → Option (Option (List ℕ))
present none = none
present (some bin) = some (some bin)

-- The discriminant tells whether there is a value in the current branch.
abbrev get_if_present :
    (Option FieldValue → Option (List ℕ)) → Option FieldValue → Option (Option (List ℕ))
get_if_present get (some (FieldValue.branch n v)) =
    if n == 0 then some none else present (get (some v))
get_if_present get _ = none

-- What the handlers of the client get: the position of a commit is not among it.
pub data Received : Type 0 where
  begin_txn commit_txn : (xid : ℕ) → Received
  table_schema : (relid : ℕ) (key_json : Option (List ℕ)) (row_json : List ℕ) → Received
  insert : (relid : ℕ) (key : Option (List ℕ)) (new : List ℕ) → Received
  update : (relid : ℕ) (key old : Option (List ℕ)) (new : List ℕ) → Received
  delete : (relid : ℕ) (key old : Option (List ℕ)) → Received

abbrev or_fail : {A : Type 0} → Option A → (A → Option Received) → Option Received
or_fail none next = none
or_fail (some a) next = next a

unfoldable pub get_begin_txn : List FieldValue → Option Received
get_begin_txn record_val =
    or_fail (get_long (get_elem? record_val 0)) (λ xid. some (Received.begin_txn xid))

unfoldable pub get_commit_txn : List FieldValue → Option Received
get_commit_txn record_val =
    or_fail (get_long (get_elem? record_val 0)) (λ xid. some (Received.commit_txn xid))

unfoldable pub get_table_schema : List FieldValue → Option Received
get_table_schema record_val = or_fail (get_long (get_elem? record_val 0)) (λ relid.
    or_fail (get_if_present get_string (get_elem? record_val 1)) (λ key_schema_json.
      or_fail (get_string (get_elem? record_val 2))
        (λ row_schema_json. some (Received.table_schema relid key_schema_json row_schema_json))))

unfoldable pub get_insert : List FieldValue → Option Received
get_insert record_val = or_fail (get_long (get_elem? record_val 0)) (λ relid.
    or_fail (get_if_present get_bytes (get_elem? record_val 1)) (λ key_bin.
      or_fail (get_bytes (get_elem? record_val 2))
        (λ new_bin. some (Received.insert relid key_bin new_bin))))

unfoldable pub get_update : List FieldValue → Option Received
get_update record_val = or_fail (get_long (get_elem? record_val 0)) (λ relid.
    or_fail (get_if_present get_bytes (get_elem? record_val 1)) (λ key_bin.
      or_fail (get_if_present get_bytes (get_elem? record_val 2)) (λ old_bin.
        or_fail (get_bytes (get_elem? record_val 3))
          (λ new_bin. some (Received.update relid key_bin old_bin new_bin)))))

unfoldable pub get_delete : List FieldValue → Option Received
get_delete record_val = or_fail (get_long (get_elem? record_val 0)) (λ relid.
    or_fail (get_if_present get_bytes (get_elem? record_val 1)) (λ key_bin.
      or_fail (get_if_present get_bytes (get_elem? record_val 2))
        (λ old_bin. some (Received.delete relid key_bin old_bin))))

-- The `switch` on the discriminant.
unfoldable pub get_message : MessageValue → Option Received
unfolding get_begin_txn get_commit_txn get_table_schema get_insert get_update get_delete
get_message m =
    if m.discriminant == msg_begin_txn
    then get_begin_txn m.fields
    else if m.discriminant == msg_commit_txn
    then get_commit_txn m.fields
    else if m.discriminant == msg_table_schema
    then get_table_schema m.fields
    else if m.discriminant == msg_insert
    then get_insert m.fields
    else if m.discriminant == msg_update
    then get_update m.fields
    else if m.discriminant == msg_delete
    then get_delete m.fields
    else none
