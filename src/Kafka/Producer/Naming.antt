-- ===== src/Kafka/Producer/Naming.antt =====
-- `topic_name_from_avro_schema`, and the tables that `on_table_schema` leaves out.
use bottledwater_pg.Prelude.{
  ℕ, zero, suc, ◌-◌, Bool, true, false, ◌&&◌, ◌||◌, Option, none, some, List, [], ◌∷◌, ◌++◌, ◌==◌,
  if◌then◌else◌, length, take, str_eq, codes,
}

-- TABLE_NAME_BUFFER_LENGTH
abbrev pub table_name_buffer_length : ℕ
table_name_buffer_length = 128

-- GENERATED_SCHEMA_NAMESPACE "."
abbrev pub generated_namespace_dot : List ℕ
generated_namespace_dot = codes "com.martinkl.bottledwater.dbschema."

-- What follows a prefix.
unfoldable pub strip_prefix : List ℕ → List ℕ → Option (List ℕ)
strip_prefix [] ys = some ys
strip_prefix (x ∷ xs) [] = none
strip_prefix (x ∷ xs) (y ∷ ys) = let rest = strip_prefix xs ys in if x == y then rest else none

-- `sscanf(namespace, GENERATED_SCHEMA_NAMESPACE ".%s", topic_name)`: the conversion needs one
-- character at least. A namespace holds no white space, at which it would end. Left out are a
-- namespace that ends inside the prefix, for which the result is EOF and the code goes on as after a
-- match, and one that is longer than the buffer.
abbrev pub conversion : Option (List ℕ) → Option (List ℕ)
conversion none = none
conversion (some []) = none
conversion (some (c ∷ cs)) = some (c ∷ cs)

-- `strncat(dest, src, TABLE_NAME_BUFFER_LENGTH - strlen(dest) - 1)`
unfoldable pub append_bounded : List ℕ → List ℕ → List ℕ
append_bounded dest src = dest ++ take (table_name_buffer_length - length dest - 1) src

abbrev qualified : List ℕ → Option (List ℕ) → List ℕ
qualified table_name none = take (table_name_buffer_length - 1) table_name
qualified table_name (some schema_name) =
    if str_eq schema_name (codes "public")
    then take (table_name_buffer_length - 1) table_name
    else append_bounded (append_bounded schema_name (codes ".")) table_name

-- Of the name and the namespace of a row schema.
unfoldable pub topic_name : List ℕ → List ℕ → List ℕ
unfolding strip_prefix append_bounded
topic_name table_name namespace =
    qualified table_name (conversion (strip_prefix generated_namespace_dot namespace))

abbrev pub map_table : List ℕ
map_table = codes "tbl_mapps"

abbrev pub map_hist_table : List ℕ
map_hist_table = codes "tbl_mapps_hist"

abbrev pub conn_table : List ℕ
conn_table = codes "kafka_con_config"

-- `!strncmp(a, b, n)`: the first `n` characters agree, or both texts end before.
unfoldable pub strn_eq : List ℕ → List ℕ → ℕ → Bool
strn_eq a b zero = true
strn_eq [] [] (suc n) = true
strn_eq [] (y ∷ ys) (suc n) = false
strn_eq (x ∷ xs) [] (suc n) = false
strn_eq (x ∷ xs) (y ∷ ys) (suc n) = (x == y) && strn_eq xs ys n

-- The condition under which `on_table_schema` returns early, as it stands there.
unfoldable pub is_internal_table : List ℕ → Bool
unfolding strn_eq
is_internal_table name =
    ((length name == length map_table) && strn_eq map_table name (length map_table))
    || ((length name == length map_table) && strn_eq conn_table name (length conn_table))
    || ((length name == length conn_table) && strn_eq conn_table name (length conn_table))
