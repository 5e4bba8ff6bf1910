-- ===== src/Kafka/Samples.antt =====
-- A producer and what is around it, for the tests.
use bottledwater_pg.Prelude.{true, false, none, some, [], ok}
use bottledwater_pg.Client.Stream.{Outside}
use bottledwater_pg.Client.Frames.{Avro}
use bottledwater_pg.Client.Samples
use bottledwater_pg.Kafka.Registry.{Reply}
use bottledwater_pg.Kafka.Json.{Libavro}
use bottledwater_pg.Kafka.TableMapper.{Mapper}
use bottledwater_pg.Kafka.Producer.{Context}
use bottledwater_pg.Kafka.Producer.Reach.{init_producer}
use bottledwater_pg.Kafka.Program.{Surroundings}

abbrev pub avro : Libavro
avro = record {
  Schema = Unit;
  Iface = Unit;
  Value = Unit;
  schema_from_json = λ json. ok tt;
  class_from_schema = λ s. some tt;
  value_new = λ i. ok tt;
  value_read = λ bin v. ok tt;
  value_to_json = λ v. ok [];
}

abbrev pub no_tables : Mapper Unit
no_tables = record { registry = none; topic_prefix = none; capacity = 16; tables = []; closed = [] }

abbrev pub start : Context Unit
start = init_producer Samples.start no_tables

abbrev no_reply : Reply
no_reply = record {
  encodable = false;
  curl_ok = false;
  parsed = false;
  resp_code = 0;
  is_object = false;
  id = none;
}

abbrev pub around : Surroundings avro
around = record {
  polls = λ c. [];
  attempts = λ c. [];
  answers = λ c. record { new_handle = none; key_reply = no_reply; row_reply = no_reply };
  schema_name = λ json. json;
  schema_namespace = λ json. [];
}

-- Schemas without content, of which a value is any buffer.
abbrev pub frames : Avro
frames = record { Schema = Unit; schema_from_json = λ json. ok tt; value_read = λ s buf. ok [] }

abbrev pub clock : Outside
clock = record { now = 3; copied = true; flushed = true }
