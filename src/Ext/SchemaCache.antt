-- ===== src/Ext/SchemaCache.antt =====
-- ext/schema_cache.c: the schemas of the tables that were sent to the client.
pub mod Once
pub mod Current
use bottledwater_pg.Prelude.{
  ℕ, zero, suc, ◌≡◌, ◌≢◌, refl, ap, Bool, true, false, not, ◌&&◌, ◌||◌, Option, none, some, List,
  [], ◌∷◌, ◌==◌, if◌then◌else◌, str_eq, arith, Bool-cases, inl, inr, Result, ok, err, einval, ◌>>=◌,
}
use bottledwater_pg.Ext.Tables.{
  Attribute, Index, Relation, RecordSchema, Catalog, table_key_index, schema_for_table_row,
  schema_for_table_key,
}

-- The fields of an entry that are set for a table with a key; without one `key_id` is InvalidOid.
pub record KeyEntry : Type 0 where
  pub key_id : ℕ
  pub keyns_id : ℕ
  pub key_name : List ℕ
  pub keyns_name : List ℕ
  pub key_tupdesc : List Attribute

-- The schemas with the classes and values that are made of them.
pub record Schemas : Type 0 where
  pub key_schema : Option RecordSchema
  pub row_schema : RecordSchema

-- `schemas` is `none` in an entry that was left half made.
pub record Entry : Type 0 where
  pub relid : ℕ
  pub ns_id : ℕ
  pub relname : List ℕ
  pub ns_name : List ℕ
  pub key : Option KeyEntry
  pub row_tupdesc : List Attribute
  pub schemas : Option Schemas

-- The hash table: the entry of a relation's number, if there is one.
abbrev pub Cache : Type 0
Cache = ℕ → Option Entry

abbrev pub put : Cache → ℕ → Entry → Cache
put cache relid e i = if i == relid then some e else cache i

-- What `schema_cache_lookup` returns, 0, 1, 2, -1 and -2 in this order, and `*entry_out`. A changed
-- entry that was left half made is `broken`: the references of values that were never made are given
-- back, whose behaviour is undefined.
pub data Lookup : Type 0 where
  unchanged changed unseen : Entry → Lookup
  not_updated not_created broken : Lookup

module _ (k : Catalog) where
  abbrev pub key_entry : Option Index → Option KeyEntry
  key_entry none = none
  key_entry (some i) = some (record {
    key_id = i.index_id;
    keyns_id = i.index_ns_id;
    key_name = i.index_name;
    keyns_name = k.get_namespace_name i.index_ns_id;
    key_tupdesc = i.index_attrs;
  })

  abbrev class_of : Option RecordSchema → Bool
  class_of none = true
  class_of (some s) = k.generic_class s

  -- The part of `schema_cache_entry_update` that can fail.
  unfoldable pub make_schemas : Relation → Result Schemas
  make_schemas rel = do
    key_schema ← schema_for_table_key k rel
    row_schema ← schema_for_table_row k rel.relname rel.ns_id rel.attrs
    (if k.generic_class row_schema && class_of key_schema
        then ok (record { key_schema = key_schema; row_schema = row_schema })
        else err einval)

  abbrev pub made : Result Schemas → Option Schemas
  made (ok s) = some s
  made (err e) = none

  -- The entry that it leaves.
  unfoldable pub schema_cache_entry_update : Relation → Entry
  schema_cache_entry_update rel = record {
    relid = rel.relid;
    ns_id = rel.ns_id;
    relname = rel.relname;
    ns_name = k.get_namespace_name rel.ns_id;
    key = key_entry (table_key_index rel);
    row_tupdesc = rel.attrs;
    schemas = made (make_schemas rel);
  }

  unfoldable pub key_changed : Option KeyEntry → Option Index → Bool
  key_changed none none = false
  key_changed none (some i) = true
  key_changed (some e) none = true
  key_changed (some e) (some i) =
      not (e.key_id == i.index_id)
      || not (e.keyns_id == i.index_ns_id)
      || not (str_eq e.key_name i.index_name)
      || not (str_eq e.keyns_name (k.get_namespace_name i.index_ns_id))
      || not (k.equal_tuple_descs e.key_tupdesc i.index_attrs)

  unfoldable pub schema_cache_entry_changed : Entry → Relation → Bool
  unfolding key_changed
  schema_cache_entry_changed e rel =
      not (e.relid == rel.relid)
      || not (e.ns_id == rel.ns_id)
      || not (str_eq e.relname rel.relname)
      || not (str_eq e.ns_name (k.get_namespace_name rel.ns_id))
      || key_changed e.key (table_key_index rel)
      || not (k.equal_tuple_descs e.row_tupdesc rel.attrs)

  abbrev updated : (Entry → Lookup) → Lookup → Entry → Option Schemas → Lookup
  updated done failed e none = failed
  updated done failed e (some s) = done e

  -- The end of a lookup that finds a changed entry with the schemas `old`.
  abbrev renewed : Option Schemas → Relation → Cache → Lookup × Cache
  renewed none rel cache = (Lookup.broken, cache)
  renewed (some old) rel cache =
      let e = schema_cache_entry_update rel in
      (updated Lookup.changed Lookup.not_updated e e.schemas, put cache rel.relid e)

  unfoldable pub schema_cache_lookup : Relation → Cache → Lookup × Cache
  unfolding schema_cache_entry_update
  schema_cache_lookup rel cache =
      let e = schema_cache_entry_update rel in
      elim (cache rel.relid) [
        | some old ↦
            if not (schema_cache_entry_changed old rel)
            then (Lookup.unchanged old, cache)
            else renewed old.schemas rel cache
        | none ↦ (updated Lookup.unseen Lookup.not_created e e.schemas, put cache rel.relid e)
      ]
