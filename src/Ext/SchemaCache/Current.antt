-- ===== src/Ext/SchemaCache/Current.antt =====
-- The schemas in the cache are those of the table as it is, whatever was looked up before.
use bottledwater_pg.Prelude.{
  ℕ, ◌≡◌, refl, false, Option, none, some, List, [], ◌∷◌, ◌==◌, str_eq→eq, arith, Bool-cases, inl,
  inr,
}
use bottledwater_pg.Ext.Tables.{
  Attribute, Index, Relation, RecordSchema, Catalog, table_key_index, append_columns,
  schema_for_table_row, schema_of_index, schema_for_table_key,
}
use bottledwater_pg.Ext.SchemaCache.{
  Entry, Cache, put, Lookup, key_entry, made, make_schemas, schema_cache_entry_update, key_changed,
  schema_cache_entry_changed, schema_cache_lookup,
}
use bottledwater_pg.Ext.SchemaCache.Once.{entry_of, Outcome, same, fails, breaks, makes, outcome}

-- A table at some time, with the names that namespaces have then.
pub record Version : Type 0 where
  pub table : Relation
  pub namespaces : ℕ → List ℕ

module _ (k : Catalog) where
  -- The catalog at that time.
  abbrev pub at : (ℕ → List ℕ) → Catalog
  at names = record {
    schema_record = k.schema_record;
    field_append = k.field_append;
    generic_class = k.generic_class;
    get_namespace_name = names;
    equal_tuple_descs = k.equal_tuple_descs;
    equal_tuple_descs_refl = k.equal_tuple_descs_refl;
    equal_tuple_descs→eq = k.equal_tuple_descs→eq;
  }

  -- The cache after some lookups, the last one first.
  unfoldable pub cache_after : List Version → Cache
  cache_after [] i = none
  cache_after (v ∷ vs) i = (schema_cache_lookup (at v.namespaces) v.table (cache_after vs)).1 i

  append_columns-at :
      (f g : ℕ → List ℕ) (cols : List Attribute) (s : RecordSchema)
      → append_columns (at f) cols s ≡ append_columns (at g) cols s
  unfolding append_columns
  append_columns-at f g [] s = refl
  append_columns-at f g (a ∷ cols) s =
      rw (append_columns-at f g cols s, append_columns-at f g cols _) refl

  row_schema-at :
      (f g : ℕ → List ℕ) (relname : List ℕ) (ns_id : ℕ) (cols : List Attribute)
      → f ns_id ≡ g ns_id
      → schema_for_table_row (at f) relname ns_id cols
        ≡ schema_for_table_row (at g) relname ns_id cols
  unfolding schema_for_table_row
  row_schema-at f g relname ns_id cols named = rw (named, append_columns-at f g cols _) refl

  same_key :
      (f g : ℕ → List ℕ) (i j : Option Index)
      → key_changed (at g) (key_entry (at f) i) j ≡ false
      → schema_of_index (at f) i ≡ schema_of_index (at g) j
  unfolding key_changed
  same_key f g none none h = refl
  same_key f g none (some j) h = absurd (ground arith)
  same_key f g (some i) none h = absurd (ground arith)
  same_key f g (some i) (some j) h =
      let ns : i.index_ns_id ≡ j.index_ns_id = ground arith in
      let name : i.index_name ≡ j.index_name = str_eq→eq _ _ (ground arith) in
      let names : f i.index_ns_id ≡ g j.index_ns_id = str_eq→eq _ _ (ground arith) in
      let attrs : i.index_attrs ≡ j.index_attrs = k.equal_tuple_descs→eq _ _ (ground arith) in
      let names' : f j.index_ns_id ≡ g j.index_ns_id = rw ns at names in
      rw (name, ns, attrs, row_schema-at f g j.index_name j.index_ns_id j.index_attrs names') refl

  -- An entry that compares unchanged was made of the schemas that the table has now.
  same_schemas :
      (f g : ℕ → List ℕ) (old rel : Relation)
      → schema_cache_entry_changed (at g) (schema_cache_entry_update (at f) old) rel ≡ false
      → make_schemas (at f) old ≡ make_schemas (at g) rel
  unfolding schema_cache_entry_changed schema_cache_entry_update make_schemas schema_for_table_key
  same_schemas f g old rel h =
      let ns : old.ns_id ≡ rel.ns_id = ground arith in
      let name : old.relname ≡ rel.relname = str_eq→eq _ _ (ground arith) in
      let names : f old.ns_id ≡ g rel.ns_id = str_eq→eq _ _ (ground arith) in
      let attrs : old.attrs ≡ rel.attrs = k.equal_tuple_descs→eq _ _ (ground arith) in
      let keys = same_key f g (table_key_index old) (table_key_index rel) (ground arith) in
      let names' : f rel.ns_id ≡ g rel.ns_id = rw ns at names in
      rw (keys, name, ns, attrs, row_schema-at f g rel.relname rel.ns_id rel.attrs names') refl

  -- Each entry was made of a version of some table.
  abbrev Coherent : Cache → Type 0
  Coherent cache =
      (i : ℕ) (e : Entry)
      → cache i ≡ some e
      → (names : ℕ → List ℕ) × (rel : Relation) × (e ≡ schema_cache_entry_update (at names) rel)

  put-Coherent :
      (v : Version) (cache : Cache)
      → Coherent cache
      → Coherent (put cache v.table.relid (schema_cache_entry_update (at v.namespaces) v.table))
  put-Coherent v cache h i e there = elim (Bool-cases (i == v.table.relid)) [
    | inl here ↦ (v.namespaces, v.table, ground arith)
    | inr other ↦ h i e (rw other at there)
  ]

  outcome-Coherent :
      (v : Version) (cache : Cache) (r : Lookup × Cache)
      → Outcome (at v.namespaces) v.table cache r
      → Coherent cache
      → Coherent r.1
  outcome-Coherent v cache r (same d h u) c = c
  outcome-Coherent v cache r (fails f n) c = put-Coherent v cache c
  outcome-Coherent v cache r breaks c = c
  outcome-Coherent v cache r (makes f s d w) c = put-Coherent v cache c

  cache_after-Coherent : (vs : List Version) → Coherent (cache_after vs)
  unfolding cache_after
  cache_after-Coherent [] i e h = absurd (ground arith)
  cache_after-Coherent (v ∷ vs) i e h =
      outcome-Coherent v (cache_after vs) _ (outcome (at v.namespaces) v.table (cache_after vs))
        (cache_after-Coherent vs) i e h

  current_after :
      (v : Version) (cache : Cache) (r : Lookup × Cache) (e : Entry)
      → Outcome (at v.namespaces) v.table cache r
      → Coherent cache
      → entry_of (at v.namespaces) r.0 ≡ some e
      → e.schemas ≡ made (at v.namespaces) (make_schemas (at v.namespaces) v.table)
  unfolding schema_cache_entry_update
  current_after v cache r e (same d h u) c g =
      let is_d : e ≡ d = ground arith in
      let (names, old, is) = c v.table.relid d h in
      let u' = rw is at u in rw (is_d, is, same_schemas names v.namespaces old v.table u') refl
  current_after v cache r e (fails f n) c g = absurd (ground arith)
  current_after v cache r e breaks c g = absurd (ground arith)
  current_after v cache r e (makes f s d w) c g =
      let is : e ≡ schema_cache_entry_update (at v.namespaces) v.table = ground arith in rw is refl

  -- Whatever tables were looked up before, in whatever versions, with whatever names their namespaces
  -- had, the schemas of an entry that a lookup gives are those that are made of the table and the
  -- namespaces as they are now, and none if these cannot be made.
  pub lookup_describes :
      (vs : List Version) (v : Version) (e : Entry)
      → entry_of
          (at v.namespaces)
          (schema_cache_lookup (at v.namespaces) v.table (cache_after vs)).0
        ≡ some e
      → e.schemas ≡ made (at v.namespaces) (make_schemas (at v.namespaces) v.table)
  lookup_describes vs v e g =
      current_after v (cache_after vs) _ e (outcome (at v.namespaces) v.table (cache_after vs))
        (cache_after-Coherent vs) g
