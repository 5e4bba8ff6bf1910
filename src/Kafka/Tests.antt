-- ===== src/Kafka/Tests.antt =====
-- Each of the results of Kafka at one input.
use bottledwater_pg.Prelude.{
  ◌++◌, ℕ, ◌≡◌, ◌↔◌, refl, true, Option, none, some, List, [], ◌∷◌, get_or, codes, Result, ok,
  arith,
}
use bottledwater_pg.Kafka.Options.{parse_config_option, NoEquals, parse_config_option_iff}
use bottledwater_pg.Kafka.Registry.{Reply, encode_msg}
use bottledwater_pg.Kafka.Registry.Laws.{Decodes, encode_msg-Decodes}
use bottledwater_pg.Kafka.TableMapper.{Mapper, Answers, new_table, lookup, find}
use bottledwater_pg.Kafka.TableMapper.Update.{Schemas, locate, update, update_record}
use bottledwater_pg.Kafka.TableMapper.Lookup.{IsUnique}
use bottledwater_pg.Kafka.TableMapper.Known.{update-lookup}
use bottledwater_pg.Kafka.TableMapper.Repeat.{IsNamed, update_again}

abbrev reply : Reply
reply = record {
  encodable = true;
  curl_ok = true;
  resp_code = 200;
  parsed = true;
  is_object = true;
  id = some 3;
}

encode_msg-Decodes_example :
    let e = encode_msg 3 4 none (some (9 ∷ [])) in
    Decodes 3 none e.key e.key_len × Decodes 4 (some (9 ∷ [])) e.row e.row_len
encode_msg-Decodes_example = encode_msg-Decodes 3 4 none (some (9 ∷ [])) (omega arith) (omega arith)

abbrev no_tables : Mapper Unit
no_tables = record { registry = none; topic_prefix = none; capacity = 16; tables = []; closed = [] }

abbrev answers : Answers
answers = record { new_handle = some 1; key_reply = reply; row_reply = reply }

abbrev schemas : Schemas
schemas = record { name = codes "t"; key_json = none; row_json = some (codes "{}") }

abbrev from_json : List ℕ → Result {0} Unit
from_json json = ok tt

update-lookup_example :
    let (found, m') = update from_json answers 16 schemas no_tables in
    (lookup m' 16 ≡ found) × (lookup m' 17 ≡ lookup no_tables 17) × IsUnique m'.tables
update-lookup_example =
    update-lookup from_json answers 16 17 schemas no_tables (λ e. absurd (omega arith)) tt

abbrev once : Option ℕ × Mapper Unit
once = update from_json answers 16 schemas no_tables

succeeds : update from_json answers 16 schemas no_tables ≡ (some 0, once.1)
unfolding update update_record locate lookup find
succeeds = refl

no_topics : (j : ℕ) → IsNamed (get_or no_tables.tables j (new_table {Schema = Unit} 16))
unfolding new_table
no_topics j h = λ e. h refl

update_again_example : update from_json answers 16 schemas once.1 ≡ (some 0, once.1)
update_again_example =
    update_again from_json answers 16 schemas no_tables 0 once.1 tt no_topics succeeds

parse_config_option_iff_example :
    (parse_config_option (codes "a=b=c") ≡ some (codes "a", codes "b=c"))
    ↔ ((codes "a=b=c" ≡ codes "a" ++ (b'=' ∷ codes "b=c")) × NoEquals (codes "a"))
parse_config_option_iff_example = parse_config_option_iff (codes "a=b=c") (codes "a") (codes "b=c")
