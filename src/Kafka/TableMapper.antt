-- ===== src/Kafka/TableMapper.antt =====
-- kafka/table_mapper.c: what is known of each table, and its Kafka topic.
pub mod Update
pub mod Lookup
pub mod Known
pub mod Repeat
use bottledwater_pg.Prelude.{
  ℕ, zero, suc, ◌+◌, ◌-◌, ◌*◌, ◌%◌, ◌^◌, Bool, true, false, not, ◌&&◌, ◌||◌, Option, none, some,
  List, [], ◌∷◌, ◌++◌, ltb, ◌==◌, if◌then◌else◌, length, get_elem?, set, str_eq, codes, Result, ok,
  err, ◌>>=◌,
}
use mathlib.Core.Option.{get_or}
use bottledwater_pg.Kafka.Registry.{Registry, Reply, request}

-- TABLE_MAPPER_SCHEMA_ID_MISSING, the 32-bit pattern of -1.
abbrev pub schema_id_missing : ℕ
schema_id_missing = 2 ^ 32 - 1

-- TABLE_MAPPER_MAX_TOPIC_LEN
abbrev pub max_topic_len : ℕ
max_topic_len = 256 + 1

-- The 32-bit pattern of the error -1.
abbrev pub minus_one : ℕ
minus_one = 2 ^ 32 - 1

-- An open Kafka topic: librdkafka's handle, and its name.
pub record Topic : Type 0 where
  pub handle : ℕ
  pub topic_name : List ℕ

pub record Table (Schema : Type 0) : Type 0 where
  pub relid : ℕ
  pub table_name : Option (List ℕ)
  pub topic : Option Topic
  pub key_schema_id : ℕ
  pub key_schema : Option Schema
  pub row_schema_id : ℕ
  pub row_schema : Option Schema
  pub deleted : Bool

-- `tables` lists the records that the array points to; `num_tables` is its length. `closed` lists
-- the handles that were given to `rd_kafka_topic_destroy`, newest last.
pub record Mapper (Schema : Type 0) : Type 0 where
  pub registry : Option Registry
  pub topic_prefix : Option (List ℕ)
  pub capacity : ℕ
  pub tables : List (Table Schema)
  pub closed : List ℕ

-- What the outside gives during one update: the handle that `rd_kafka_topic_new` returns, if it
-- does, and the registry's replies for the key and for the row schema.
pub record Answers : Type 0 where
  pub new_handle : Option ℕ
  pub key_reply : Reply
  pub row_reply : Reply

-- The name of the topic, or `none` if `snprintf` reports that it does not fit.
unfoldable pub prefixed_name : Option (List ℕ) → List ℕ → Option (List ℕ)
prefixed_name none table_name = some table_name
prefixed_name (some prefix) table_name =
    let name = prefix ++ (b'.' ∷ table_name) in
    if ltb (length name) max_topic_len then some name else none

abbrev pub name_of_topic : Option Topic → List ℕ
name_of_topic none = []
name_of_topic (some topic) = topic.topic_name

module _ {Schema : Type 0} where
  abbrev pub is_live : ℕ → Table Schema → Bool
  is_live relid t = not t.deleted && (t.relid == relid)

  unfoldable pub new_table : ℕ → Table Schema
  new_table relid = record {
    relid = relid;
    table_name = none;
    topic = none;
    key_schema_id = schema_id_missing;
    key_schema = none;
    row_schema_id = schema_id_missing;
    row_schema = none;
    deleted = false;
  }

  -- The place of the table in the array, in place of its address.
  unfoldable pub find : ℕ → List (Table Schema) → Option ℕ
  find relid [] = none
  find relid (t ∷ ts) =
      let later = find relid ts in
      if is_live relid t then some 0 else elim later [ none ↦ none | some i ↦ some (suc i) ]

  unfoldable pub lookup : Mapper Schema → ℕ → Option ℕ
  unfolding find
  lookup m relid = find relid m.tables

  -- `table_metadata_new`, with memory taken to suffice: the array grows by a factor of 4 when full.
  unfoldable pub add_table : Mapper Schema → Table Schema → Mapper Schema
  add_table m t = record m {
    capacity = if length m.tables == m.capacity then m.capacity * 4 % 2 ^ 32 else m.capacity;
    tables = m.tables ++ (t ∷ []);
  }

  -- `rd_kafka_topic_new`, and what is stored of its result.
  unfoldable pub open_topic : Option (List ℕ) → Option ℕ → List ℕ → Table Schema → ℕ × Table Schema
  unfolding prefixed_name
  open_topic prefix new_handle name t =
      let named : Table Schema = record t { table_name = some name } in
      elim (prefixed_name prefix name) [
        | none ↦ (minus_one, named)
        | some topic_name ↦ elim new_handle [
          | none ↦ (minus_one, record named { topic = none })
          | some h ↦
              (0, record named { topic = some (record { handle = h; topic_name = topic_name }) })
        ]
      ]

  -- A table with a topic has a name (`IsNamed`), so `strcmp` never reads NULL.
  unfoldable pub update_topic :
      Option (List ℕ) → Option ℕ → List ℕ → Table Schema → List ℕ → ℕ × Table Schema × List ℕ
  unfolding open_topic
  update_topic prefix new_handle name t closed = elim t.topic [
    | none ↦ let (e, t') = open_topic prefix new_handle name t in (e, t', closed)
    | some old ↦
        if str_eq name (get_or t.table_name [])
        then (0, t, closed)
        else let (e, t') = open_topic prefix new_handle name t in
          (e, t', closed ++ (old.handle ∷ []))
  ]

  abbrev pub schema_id : Bool → Table Schema → ℕ
  schema_id true t = t.key_schema_id
  schema_id false t = t.row_schema_id

  unfoldable pub set_schema_id : Bool → ℕ → Table Schema → Table Schema
  set_schema_id true i t = record t { key_schema_id = i }
  set_schema_id false i t = record t { row_schema_id = i }

  -- The slot after `*schema` was compared with `new_schema`; a parsed schema is a fresh object.
  unfoldable pub stored : Option Schema → Option Schema → Option Schema
  stored none none = none
  stored none (some new) = some new
  stored (some old) none = none
  stored (some old) (some new) = some new

  unfoldable pub set_schema : Bool → Option Schema → Table Schema → Table Schema
  unfolding stored
  set_schema true new t = record t { key_schema = stored t.key_schema new }
  set_schema false new t = record t { row_schema = stored t.row_schema new }

  -- The registration: the schema id to go on with, and the table.
  unfoldable pub register :
      Option Registry → Bool → Option (List ℕ) → Reply → Table Schema → Result (ℕ × Table Schema)
  unfolding set_schema_id
  register none is_key schema_json reply t = ok (schema_id_missing, t)
  register (some registry) is_key schema_json reply t = do
    answer ← request registry (name_of_topic t.topic) is_key schema_json reply
    let id = get_or answer schema_id_missing
    ok (id, set_schema_id is_key id t)

-- libavro's parser of schemas is a parameter.
module _ {Schema : Type 0} (from_json : List ℕ → Result Schema) where
  -- The parsing, left out if the registry answers with the id that the table had before.
  unfoldable pub store : Bool → Option (List ℕ) → ℕ → ℕ × Table Schema → ℕ × Table Schema
  unfolding set_schema
  store is_key schema_json prev_id (id, t) =
      if (prev_id == schema_id_missing) || not (prev_id == id)
      then elim schema_json [
        | none ↦ (0, set_schema is_key none t)
        | some json ↦ elim (from_json json) [
          | ok s ↦ (0, set_schema is_key (some s) t)
          | err e ↦ (e, t)
        ]
      ]
      else (0, t)

  unfoldable pub update_schema :
      Option Registry → Bool → Option (List ℕ) → Reply → Table Schema → ℕ × Table Schema
  unfolding register store
  update_schema registry is_key schema_json reply t =
      elim (register registry is_key schema_json reply t) [
        | ok registered ↦ store is_key schema_json (schema_id is_key t) registered
        | err e ↦ (e, t)
      ]
