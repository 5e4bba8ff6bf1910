-- ===== src/Kafka/Json.antt =====
-- kafka/json.c: the JSON encoding of keys and rows.
use bottledwater_pg.Prelude.{ℕ, Option, none, some, List, einval, Result, ok, err, ◌>>=◌}

-- What the code calls of libavro. Its failures are the error numbers of `Result`.
pub record Libavro : Type 1 where
  pub Schema : Type 0
  pub Iface : Type 0
  pub Value : Type 0
  pub schema_from_json : List ℕ → Result Schema
  pub class_from_schema : Schema → Option Iface
  pub value_new : Iface → Result Value
  pub value_read : List ℕ → Value → Result Value
  pub value_to_json : Value → Result (List ℕ)

module _ (avro : Libavro) where
  open avro use {Schema, Iface, Value, class_from_schema, value_new, value_read, value_to_json}

  abbrev iface_or_error : Option Iface → Result Iface
  iface_or_error none = err einval
  iface_or_error (some i) = ok i

  -- `none` stands for NULL, in and out.
  unfoldable pub avro_bin_to_json : Option Schema → Option (List ℕ) → Result (Option (List ℕ))
  avro_bin_to_json schema none = ok none
  avro_bin_to_json none (some val_bin) = err einval
  avro_bin_to_json (some schema) (some val_bin) = do
    iface ← iface_or_error (class_from_schema schema)
    blank ← value_new iface
    value ← value_read val_bin blank
    json ← value_to_json value
    ok (some json)

  -- The key, then the row.
  unfoldable pub json_encode_msg :
      Option Schema
      → Option Schema
      → Option (List ℕ)
      → Option (List ℕ)
      → Result (Option (List ℕ) × Option (List ℕ))
  unfolding avro_bin_to_json
  json_encode_msg key_schema row_schema key_bin row_bin = do
    key ← avro_bin_to_json key_schema key_bin
    row ← avro_bin_to_json row_schema row_bin
    ok (key, row)
