-- ===== src/Kafka/Registry.antt =====
-- kafka/registry.c: the client of the schema registry.
pub mod Laws
use bottledwater_pg.Prelude.{
  ℕ, ◌+◌, ◌^◌, ◌%◌, Bool, true, false, not, Option, none, some, List, [], ◌∷◌, ◌++◌, ltb, ◌==◌,
  if◌then◌else◌, length, get_or, take, codes, eio, einval, Result, ok, err, ◌>>=◌, ◌>>◌,
}
use bottledwater_pg.Client.Bytes.{htonl}

-- Texts are C strings without the terminating zero.
pub record Registry : Type 0 where
  pub registry_url : List ℕ

-- SCHEMA_REGISTRY_MSG_PREFIX_LEN
abbrev pub msg_prefix_len : ℕ
msg_prefix_len = 5

-- `s[i]`, for `i` up to the terminating zero.
abbrev pub char_at : List ℕ → ℕ → ℕ
char_at s i = get_or (s ++ (0 ∷ [])) i 0

unfoldable pub set_url : List ℕ → Registry
set_url url =
    let len = length url in
    record { registry_url = if char_at url len == b'/' then take len url else url }

-- NULL goes to NULL; `malloc` is taken to succeed.
unfoldable pub add_schema_prefix : ℕ → Option (List ℕ) → Option (List ℕ)
unfolding htonl
add_schema_prefix schema_id none = none
add_schema_prefix schema_id (some avro_bin) = some (0 ∷ (htonl schema_id ++ avro_bin))

-- The length of a `void *` with its `size_t`: 0 for NULL, as the callers pass it.
abbrev pub bin_len : Option (List ℕ) → ℕ
bin_len none = 0
bin_len (some b) = length b

pub record Encoded : Type 0 where
  pub key : Option (List ℕ)
  pub key_len : ℕ
  pub row : Option (List ℕ)
  pub row_len : ℕ

unfoldable pub encode_msg : ℕ → ℕ → Option (List ℕ) → Option (List ℕ) → Encoded
unfolding add_schema_prefix
encode_msg key_schema_id row_schema_id key_bin row_bin = record {
  key = add_schema_prefix key_schema_id key_bin;
  key_len = bin_len key_bin + msg_prefix_len;
  row = add_schema_prefix row_schema_id row_bin;
  row_len = bin_len row_bin + msg_prefix_len;
}

-- What libcurl and jansson report of one request: whether `json_dumps` gave a body, whether the
-- transfer succeeded, the HTTP status, whether the response parses, whether it is an object, and
-- its member "id" if that is an integer.
pub record Reply : Type 0 where
  pub encodable : Bool
  pub curl_ok : Bool
  pub resp_code : ℕ
  pub parsed : Bool
  pub is_object : Bool
  pub id : Option ℕ

-- The cast `(int)` keeps the low 32 bits.
abbrev pub id_result : Option ℕ → Result ℕ
id_result none = err eio
id_result (some i) = ok (i % 2 ^ 32)

unfoldable pub parse_response : Reply → Result ℕ
parse_response r =
    if not r.curl_ok
    then err eio
    else if not r.parsed
    then err eio
    else if not (r.resp_code == 200)
    then err eio
    else if r.is_object
    then id_result r.id
    else err eio

-- `"%s/subjects/%s-%s/versions"`
unfoldable pub request_url : Registry → List ℕ → Bool → List ℕ
request_url registry name is_key =
    registry.registry_url
    ++ (codes "/subjects/"
        ++ (name
            ++ (codes "-"
                ++ ((if is_key then codes "key" else codes "value") ++ codes "/versions"))))

-- sizeof(url)
abbrev pub url_size : ℕ
url_size = 512

-- `none`: `*schema_id_out` is left as it was.
unfoldable pub send_request : Registry → List ℕ → Bool → Reply → Result (Option ℕ)
unfolding parse_response request_url
send_request registry name is_key reply =
    if not (ltb (length (request_url registry name is_key)) url_size)
    then err einval
    else if not reply.encodable
    then err einval
    else (do schema_id ← parse_response reply; ok (some schema_id))

unfoldable pub request : Registry → List ℕ → Bool → Option (List ℕ) → Reply → Result (Option ℕ)
unfolding send_request
request registry name is_key none reply = ok none
request registry name is_key (some schema_json) reply =
    if length schema_json == 0 then ok none else send_request registry name is_key reply
