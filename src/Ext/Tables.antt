-- ===== src/Ext/Tables.antt =====
-- ext/oid2avro.c: which columns of a table make up its key and its rows, and their schemas.
pub mod Keys
use bottledwater_pg.Prelude.{
  ℕ, zero, suc, ◌+◌, ◌-◌, ◌<◌, ◌≤◌, ◌≡◌, ◌≢◌, refl, ap, Bool, true, false, not, ◌&&◌, ◌||◌, Option,
  none, some, List, [], ◌∷◌, ◌++◌, length, get_elem?, ◌==◌, leb, ltb, if◌then◌else◌, arith,
  Bool-cases, inl, inr, codes, Result, ok, err, einval, ◌>>=◌,
}
use bottledwater_pg.Ext.Naming.{make_avro_safe}

-- What Postgres' descriptors say of a column.
pub record Attribute : Type 0 where
  pub attname : List ℕ
  pub atttypid : ℕ
  pub attisdropped : Bool

pub data ReplicaIdentity : Type 0 where
  nothing index full default : ReplicaIdentity

-- An index, which is a relation too. `indkey` holds the numbers of its columns, from 1.
pub record Index : Type 0 where
  pub index_id : ℕ
  pub index_ns_id : ℕ
  pub index_name : List ℕ
  pub index_attrs : List Attribute
  pub indkey : List ℕ
  pub is_valid : Bool
  pub is_ready : Bool
  pub is_primary : Bool

-- A table. `replica_index` is the index that `RelationGetReplicaIndex` names, if it names one, and
-- `indexes` are those of `RelationGetIndexList`.
pub record Relation : Type 0 where
  pub relid : ℕ
  pub ns_id : ℕ
  pub relname : List ℕ
  pub replident : ReplicaIdentity
  pub replica_index : Option Index
  pub indexes : List Index
  pub attrs : List Attribute

abbrev pub is_key : Index → Bool
is_key i = i.is_valid && i.is_ready && i.is_primary

unfoldable pub primary_key : List Index → Option Index
primary_key [] = none
primary_key (i ∷ others) = let rest = primary_key others in if is_key i then some i else rest

abbrev replica_or : Option Index → Option Index → Option Index
replica_or none other = other
replica_or (some i) other = some i

unfoldable pub table_key_index : Relation → Option Index
unfolding primary_key
table_key_index rel = elim rel.replident [
  | ReplicaIdentity.nothing ↦ none
  | ReplicaIdentity.index ↦ replica_or rel.replica_index (primary_key rel.indexes)
  | ReplicaIdentity.full ↦ primary_key rel.indexes
  | ReplicaIdentity.default ↦ primary_key rel.indexes
]

abbrev pub dropped_at : List Attribute → ℕ → Bool
dropped_at [] i = false
dropped_at (a ∷ rest) zero = a.attisdropped
dropped_at (a ∷ rest) (suc i) = dropped_at rest i

-- The loop of `tuple_to_avro_key` over `rel_i`: the place in the tuple of a column of the table.
-- The descriptor of the tuple is read past its end in no run that `key_field` accepts.
unfoldable pub place_from : List Attribute → List Attribute → ℕ → ℕ → ℕ
place_from rel_attrs attrs zero tup_i = tup_i
place_from [] attrs (suc n) tup_i = tup_i
place_from (a ∷ rest) attrs (suc n) tup_i =
    place_from rest attrs n
      (if not a.attisdropped || dropped_at attrs tup_i then tup_i + 1 else tup_i)

-- The place of the column with number `attnum + 1`, unless it is no column of the tuple, an error.
unfoldable pub key_field : List Attribute → List Attribute → ℕ → Option ℕ
unfolding place_from
key_field rel_attrs attrs attnum =
    let tup_i = place_from rel_attrs attrs attnum 0 in
    if leb (length attrs) tup_i || dropped_at attrs tup_i then none else some tup_i

-- A record schema: its fields with their names and the types of their columns.
pub record RecordSchema : Type 0 where
  pub name : List ℕ
  pub namespace : List ℕ
  pub fields : List (List ℕ × Option ℕ)

-- GENERATED_SCHEMA_NAMESPACE
abbrev pub generated_schema_namespace : List ℕ
generated_schema_namespace = codes "com.martinkl.bottledwater.dbschema"

-- What Avro and Postgres' catalog do for schemas: whether a record schema of that name can be made,
-- the error of appending a field, whether a class can be made of a schema, the name of a namespace
-- that exists, and the comparison of tuple descriptors, which compares all that is said of columns.
pub record Catalog : Type 0 where
  pub schema_record : (name namespace : List ℕ) → Bool
  pub field_append : RecordSchema → List ℕ → Option ℕ → ℕ
  pub generic_class : RecordSchema → Bool
  pub get_namespace_name : ℕ → List ℕ
  pub equal_tuple_descs : List Attribute → List Attribute → Bool
  pub equal_tuple_descs_refl : (d : List Attribute) → equal_tuple_descs d d ≡ true
  pub equal_tuple_descs→eq : (d e : List Attribute) → equal_tuple_descs d e ≡ true → d ≡ e

abbrev pub with_field : RecordSchema → List ℕ → Option ℕ → RecordSchema
with_field s name typid = record s { fields = s.fields ++ ((name, typid) ∷ []) }

module _ (k : Catalog) where
  -- The loop over the columns. The schema of a column depends on the type's number only.
  unfoldable pub append_columns : List Attribute → RecordSchema → Result RecordSchema
  append_columns [] s = ok s
  append_columns (a ∷ rest) s =
      let attname_avro_safe = make_avro_safe a.attname false in
      let skipped = append_columns rest s in
      let appended = append_columns rest (with_field s attname_avro_safe (some a.atttypid)) in
      let e = k.field_append s attname_avro_safe (some a.atttypid) in
      if a.attisdropped then skipped else (if e == 0 then appended else err e)

  -- Of the name, the namespace and the columns of a table or an index. A table that never had a
  -- column gets a dummy field.
  unfoldable pub schema_for_table_row : List ℕ → ℕ → List Attribute → Result RecordSchema
  unfolding append_columns
  schema_for_table_row relname ns_id attrs =
      let namespace =
        make_avro_safe (generated_schema_namespace ++ (codes "." ++ k.get_namespace_name ns_id))
          true in
      let name = make_avro_safe relname false in
      let s : RecordSchema = record { name = name; namespace = namespace; fields = [] } in
      if not (k.schema_record name namespace)
      then err einval
      else if length attrs == 0
      then (let e = k.field_append s (codes "dummy") none in
          if e == 0 then ok (with_field s (codes "dummy") none) else err e)
      else append_columns attrs s

  abbrev pub schema_of_index : Option Index → Result (Option RecordSchema)
  schema_of_index none = ok none
  schema_of_index (some i) = do
    s ← schema_for_table_row i.index_name i.index_ns_id i.index_attrs
    ok (some s)

  -- An unkeyed table has no key schema.
  unfoldable pub schema_for_table_key : Relation → Result (Option RecordSchema)
  schema_for_table_key rel = schema_of_index (table_key_index rel)
