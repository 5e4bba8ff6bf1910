-- ===== src/Kafka/TableMapper/Update.antt =====
-- `table_mapper_update` and `table_mapper_free`: the steps of Kafka/TableMapper in the order of the
-- code.
use bottledwater_pg.Prelude.{
  ℕ, Bool, true, false, Option, none, some, List, [], ◌∷◌, ◌++◌, ◌==◌, if◌then◌else◌, length, set,
  Result,
}
use bottledwater_pg.Prelude as P
use bottledwater_pg.Kafka.Registry.{Registry}
use bottledwater_pg.Kafka.TableMapper.{
  Table, Mapper, Answers, new_table, lookup, add_table, update_topic, update_schema,
}

-- The arguments of one update, after the mapper and the relid.
pub record Schemas : Type 0 where
  pub name : List ℕ
  pub key_json : Option (List ℕ)
  pub row_json : Option (List ℕ)

module _ {Schema : Type 0} where
  -- `if (table) table->deleted = 1; return NULL`
  abbrev pub deleted : Table Schema → Bool × Table Schema
  deleted t = (false, record t { deleted = true })

  -- The record to update, and the mapper that holds it.
  unfoldable pub locate : Mapper Schema → ℕ → ℕ × Mapper Schema
  unfolding add_table new_table
  locate m relid = elim (lookup m relid) [
    | some i ↦ (i, m)
    | none ↦ (length m.tables, add_table m (new_table relid))
  ]

  -- `rd_kafka_topic_destroy` for each table that has a topic.
  unfoldable pub topics : List (Table Schema) → List ℕ
  topics [] = []
  topics (t ∷ ts) = elim t.topic [ none ↦ topics ts | some topic ↦ topic.handle ∷ topics ts ]

  unfoldable pub free : Mapper Schema → List ℕ
  unfolding topics
  free m = m.closed ++ topics m.tables

module _ {Schema : Type 0} (from_json : List ℕ → Result Schema) where
  -- The two schema updates: whether both succeeded, and the table.
  unfoldable pub update_schemas :
      Option Registry → Answers → Schemas → Table Schema → Bool × Table Schema
  unfolding update_schema
  update_schemas registry a x t =
      let (e, t₁) = update_schema from_json registry true x.key_json a.key_reply t in
      let (e', t₂) = update_schema from_json registry false x.row_json a.row_reply t₁ in
      if e == 0 then (if e' == 0 then (true, t₂) else deleted t₂) else deleted t₁

  unfoldable pub update_record :
      Option Registry
      → Option (List ℕ)
      → Answers
      → Schemas
      → Table Schema
      → List ℕ
      → Bool × Table Schema × List ℕ
  unfolding update_topic update_schemas
  update_record registry prefix a x t closed =
      let (e, t₁, closed') = update_topic prefix a.new_handle x.name t closed in
      let (done, t₂) = if e == 0 then update_schemas registry a x t₁ else deleted t₁ in
      (done, t₂, closed')

  -- The place of the updated record, or `none` for NULL.
  unfoldable pub update : Answers → ℕ → Schemas → Mapper Schema → Option ℕ × Mapper Schema
  update a relid x m =
      let (i, m') = locate m relid in
      let (done, t, closed) =
        update_record m.registry m.topic_prefix a x (P.get_or m'.tables i (new_table relid))
          m.closed in
      (if done then some i else none, record m' { tables = set m'.tables i t; closed = closed })
