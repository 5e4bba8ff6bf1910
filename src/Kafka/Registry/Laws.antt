-- ===== src/Kafka/Registry/Laws.antt =====
-- The five-byte prefix of a message, the URL, and what a request can answer.
use bottledwater_pg.Prelude.{
  ℕ, ◌+◌, ◌^◌, ◌%◌, ◌<◌, ◌≡◌, refl, true, Option, none, some, List, [], ◌∷◌, length, drop, get_or,
  arith, ok, ◌↔◌,
}
use bottledwater_pg.Client.Bytes.{ntohl}
use bottledwater_pg.Kafka.Registry.{
  Reply, add_schema_prefix, encode_msg, bin_len, char_at, set_url, parse_response,
}

-- What a consumer decodes: nothing from NULL; from a message a first byte 0, the schema id and the
-- payload, in as many bytes as announced.
abbrev pub Decodes : ℕ → Option (List ℕ) → Option (List ℕ) → ℕ → Type 0
Decodes id none out n = out ≡ none
Decodes id (some bin) none n = ⊥
Decodes id (some bin) (some msg) n =
    (get_or msg 0 1 ≡ 0) × (ntohl (drop 1 msg) ≡ id) × (drop 5 msg ≡ bin) × (length msg ≡ n)

Decodes-add_schema_prefix :
    (id : ℕ) (bin : Option (List ℕ))
    → id < 2 ^ 32
    → Decodes id bin (add_schema_prefix id bin) (bin_len bin + 5)
unfolding add_schema_prefix ntohl
Decodes-add_schema_prefix id none h = refl
Decodes-add_schema_prefix id (some bin) h = (refl, omega arith, refl, omega arith)

-- For schema ids of 32 bits, the key and the row that `schema_registry_encode_msg` makes decode to
-- the ids and to the bytes that went in, and have the lengths that it returns.
pub encode_msg-Decodes :
    (key_id row_id : ℕ) (key row : Option (List ℕ))
    → key_id < 2 ^ 32
    → row_id < 2 ^ 32
    → let e = encode_msg key_id row_id key row in
      Decodes key_id key e.key e.key_len × Decodes row_id row e.row e.row_len
unfolding encode_msg
encode_msg-Decodes key_id row_id key row hk hr =
    (Decodes-add_schema_prefix key_id key hk, Decodes-add_schema_prefix row_id row hr)

get_or_at_end : (s : List ℕ) → char_at s (length s) ≡ 0
get_or_at_end [] = refl
get_or_at_end (x ∷ s) = get_or_at_end s

-- `set_url` keeps every URL as it is: a trailing slash too.
set_url_keeps : (url : List ℕ) → (set_url url).registry_url ≡ url
unfolding set_url
set_url_keeps url = rw get_or_at_end

-- A response gives a schema id exactly when the transfer succeeded with status 200 and a JSON object
-- whose member "id" is an integer; the id is that integer as an `int`.
parse_response_ok_iff :
    (r : Reply) (i : ℕ)
    → (parse_response r ≡ ok i) ↔ (
        (r.curl_ok ≡ true)
        × (r.parsed ≡ true)
        × (r.resp_code ≡ 200)
        × (r.is_object ≡ true)
        × (n : ℕ) × (r.id ≡ some n)
        × (i ≡ n % 2 ^ 32))
unfolding parse_response
parse_response_ok_iff r i = (λ h. ground arith, λ h. ground arith)
