-- ===== src/Ext/Protocol.antt =====
-- ext/protocol.c: the schema of a frame, by which the output plugin writes and the client reads.
pub mod Wire
use bottledwater_pg.Prelude.{
  ℕ, Option, none, some, List, [], ◌∷◌, ◌++◌, length, codes, ◌==◌, if◌then◌else◌,
}

-- The schemas of fields that libavro makes.
pub data FieldSchema : Type 0 where
  null long string bytes : FieldSchema
  union : FieldSchema → FieldSchema → FieldSchema

-- A record schema, with the names of its fields.
pub record MessageSchema : Type 0 where
  pub name : List ℕ
  pub namespace : List ℕ
  pub fields : List (List ℕ × FieldSchema)

-- A record with one field, an array of the union of `messages`.
pub record FrameSchema : Type 0 where
  pub name : List ℕ
  pub namespace : List ℕ
  pub field : List ℕ
  pub messages : List MessageSchema

-- PROTOCOL_SCHEMA_NAMESPACE
abbrev protocol_namespace : List ℕ
protocol_namespace = codes "com.martinkl.bottledwater.protocol"

-- PROTOCOL_MSG_BEGIN_TXN ... PROTOCOL_MSG_DELETE
abbrev pub msg_begin_txn : ℕ
msg_begin_txn = 0

abbrev pub msg_commit_txn : ℕ
msg_commit_txn = 1

abbrev pub msg_table_schema : ℕ
msg_table_schema = 2

abbrev pub msg_insert : ℕ
msg_insert = 3

abbrev pub msg_update : ℕ
msg_update = 4

abbrev pub msg_delete : ℕ
msg_delete = 5

-- `avro_schema_record`, and `avro_schema_record_field_append`.
abbrev schema_record : List ℕ → MessageSchema
schema_record name = record { name = name; namespace = protocol_namespace; fields = [] }

abbrev field_append : MessageSchema → List ℕ → FieldSchema → MessageSchema
field_append s name schema = record s { fields = s.fields ++ ((name, schema) ∷ []) }

unfoldable pub nullable_schema : FieldSchema → FieldSchema
nullable_schema value_schema = FieldSchema.union FieldSchema.null value_schema

unfoldable pub schema_for_begin_txn : MessageSchema
schema_for_begin_txn =
    field_append (schema_record (codes "BeginTxn")) (codes "xid") FieldSchema.long

unfoldable pub schema_for_commit_txn : MessageSchema
schema_for_commit_txn =
    let s = field_append (schema_record (codes "CommitTxn")) (codes "xid") FieldSchema.long in
    field_append s (codes "lsn") FieldSchema.long

unfoldable pub schema_for_table_schema : MessageSchema
unfolding nullable_schema
schema_for_table_schema =
    let s = field_append (schema_record (codes "TableSchema")) (codes "relid") FieldSchema.long in
    let s₁ = field_append s (codes "keySchema") (nullable_schema FieldSchema.string) in
    field_append s₁ (codes "rowSchema") FieldSchema.string

unfoldable pub schema_for_insert : MessageSchema
unfolding nullable_schema
schema_for_insert =
    let s = field_append (schema_record (codes "Insert")) (codes "relid") FieldSchema.long in
    let s₁ = field_append s (codes "key") (nullable_schema FieldSchema.bytes) in
    field_append s₁ (codes "newRow") FieldSchema.bytes

unfoldable pub schema_for_update : MessageSchema
unfolding nullable_schema
schema_for_update =
    let s = field_append (schema_record (codes "Update")) (codes "relid") FieldSchema.long in
    let s₁ = field_append s (codes "key") (nullable_schema FieldSchema.bytes) in
    let s₂ = field_append s₁ (codes "oldRow") (nullable_schema FieldSchema.bytes) in
    field_append s₂ (codes "newRow") FieldSchema.bytes

unfoldable pub schema_for_delete : MessageSchema
unfolding nullable_schema
schema_for_delete =
    let s = field_append (schema_record (codes "Delete")) (codes "relid") FieldSchema.long in
    let s₁ = field_append s (codes "key") (nullable_schema FieldSchema.bytes) in
    field_append s₁ (codes "oldRow") (nullable_schema FieldSchema.bytes)

-- An assertion on the size of the union, and the next branch. A failed assertion is `none`.
abbrev append_branch : ℕ → MessageSchema → Option (List MessageSchema) → Option (List MessageSchema)
append_branch size branch none = none
append_branch size branch (some u) = if length u == size then some (u ++ (branch ∷ [])) else none

abbrev frame_of : Option (List MessageSchema) → Option FrameSchema
frame_of none = none
frame_of (some u) = some (record {
  name = codes "Frame";
  namespace = protocol_namespace;
  field = codes "msg";
  messages = u;
})

unfoldable pub schema_for_frame : Option FrameSchema
unfolding schema_for_begin_txn schema_for_commit_txn schema_for_table_schema schema_for_insert
    schema_for_update schema_for_delete
schema_for_frame =
    let u₁ = append_branch msg_begin_txn schema_for_begin_txn (some []) in
    let u₂ = append_branch msg_commit_txn schema_for_commit_txn u₁ in
    let u₃ = append_branch msg_table_schema schema_for_table_schema u₂ in
    let u₄ = append_branch msg_insert schema_for_insert u₃ in
    let u₅ = append_branch msg_update schema_for_update u₄ in
    frame_of (append_branch msg_delete schema_for_delete u₅)
