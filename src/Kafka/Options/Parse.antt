-- ===== src/Kafka/Options/Parse.antt =====
-- kafka/bottledwater.c: `parse_options`, and the settings that the program starts with.
use bottledwater_pg.Prelude.{
  ℕ, Bool, true, false, ◌||◌, Option, none, some, List, [], ◌∷◌, ◌++◌, codes, str_eq, if◌then◌else◌,
}
use bottledwater_pg.Prelude.Run.{Run, running, exited, ◌>>=◌}
use bottledwater_pg.Ext.Policy.{policy_log, policy_exit}
use bottledwater_pg.Kafka.Registry.{Registry, set_url}
use bottledwater_pg.Kafka.Producer.{OutputFormat, ErrorPolicy}
use bottledwater_pg.Kafka.Options.{parse_config_option}

-- The fields of `producer_context` and `client_context` that options set. `client_error_policy` is
-- the client's text. A configuration is the list of the properties that were set, oldest first.
pub record Settings : Type 0 where
  pub conninfo : Option (List ℕ)
  pub slot_name : List ℕ
  pub client_error_policy : List ℕ
  pub allow_unkeyed : Bool
  pub skip_snapshot : Bool
  pub brokers : List ℕ
  pub registry : Option Registry
  pub topic_prefix : Option (List ℕ)
  pub output_format : OutputFormat
  pub error_policy : ErrorPolicy
  pub kafka_conf : List (List ℕ × List ℕ)
  pub topic_conf : List (List ℕ × List ℕ)

-- What `getopt_long` gives, one after the other; `unknown` is an option that it refuses.
pub data CommandOption : Type 0 where
  postgres slot broker schema_registry format prefix on_error kafka_config topic_config :
      List ℕ → CommandOption
  allow_unkeyed skip_snapshot config_help help unknown : CommandOption

-- Whether librdkafka takes a property and its value into a configuration.
pub record Configurable : Type 0 where
  pub conf_set : (property value : List ℕ) → Bool
  pub topic_conf_set : (property value : List ℕ) → Bool

-- A call of `exit` before the program is connected to anything.
abbrev pub exit_with {ℓ} : {A : Type ℓ} → ℕ → Run A
exit_with status = exited (record { status = status; slot_dropped = false })

unfoldable pub usage {ℓ} : {A : Type ℓ} → ℕ → Run A
usage status = exit_with status

-- DEFAULT_REPLICATION_SLOT, DEFAULT_BROKER_LIST and DEFAULT_SCHEMA_REGISTRY
abbrev pub default_slot : List ℕ
default_slot = codes "bottledwater"

abbrev pub default_brokers : List ℕ
default_brokers = codes "localhost:9092"

abbrev pub default_registry : List ℕ
default_registry = codes "http://localhost:8081"

-- Memory is taken to suffice, so that there is a registry.
unfoldable pub init_schema_registry : List ℕ → Settings → Settings
unfolding set_url
init_schema_registry url s = record s { registry = some (set_url url) }

unfoldable pub set_output_format : List ℕ → Settings → Run Settings
set_output_format text s =
    if str_eq (codes "avro") text
    then running (record s { output_format = OutputFormat.avro })
    else if str_eq (codes "json") text
    then running (record s { output_format = OutputFormat.json })
    else exit_with 1

unfoldable pub output_format_name : OutputFormat → List ℕ
output_format_name OutputFormat.avro = codes "Avro"
output_format_name OutputFormat.json = codes "JSON"
output_format_name OutputFormat.undefined = codes "undefined (probably a bug)"

unfoldable pub set_error_policy : List ℕ → Settings → Run Settings
set_error_policy policy s =
    let told : Settings = record s { client_error_policy = policy } in
    if str_eq policy_log policy
    then running (record told { error_policy = ErrorPolicy.log })
    else if str_eq policy_exit policy
    then running (record told { error_policy = ErrorPolicy.exit })
    else exit_with 1

unfoldable pub error_policy_name : ErrorPolicy → List ℕ
error_policy_name ErrorPolicy.log = policy_log
error_policy_name ErrorPolicy.exit = policy_exit
error_policy_name ErrorPolicy.undefined = codes "undefined (probably a bug)"

module _ (conf : Configurable) where
  unfoldable pub set_kafka_config : List ℕ → List ℕ → Settings → Run Settings
  set_kafka_config property value s =
      if conf.conf_set property value
      then running (record s { kafka_conf = s.kafka_conf ++ ((property, value) ∷ []) })
      else exit_with 1

  unfoldable pub set_topic_config : List ℕ → List ℕ → Settings → Run Settings
  set_topic_config property value s =
      if conf.topic_conf_set property value
      then running (record s { topic_conf = s.topic_conf ++ ((property, value) ∷ []) })
      else exit_with 1

  abbrev pub split_option :
      (List ℕ → List ℕ → Settings → Run Settings)
      → Option (List ℕ × List ℕ)
      → Settings
      → Run Settings
  split_option set none s = exit_with 1
  split_option set (some (property, value)) s = set property value s

  -- The `switch` on an option.
  unfoldable pub parse_option : CommandOption → Settings → Run Settings
  unfolding set_output_format set_error_policy set_kafka_config set_topic_config
      init_schema_registry usage
  parse_option (CommandOption.postgres arg) s = running (record s { conninfo = some arg })
  parse_option (CommandOption.slot arg) s = running (record s { slot_name = arg })
  parse_option (CommandOption.broker arg) s = running (record s { brokers = arg })
  parse_option (CommandOption.schema_registry arg) s = running (init_schema_registry arg s)
  parse_option (CommandOption.format arg) s = set_output_format arg s
  parse_option (CommandOption.prefix arg) s = running (record s { topic_prefix = some arg })
  parse_option (CommandOption.on_error arg) s = set_error_policy arg s
  parse_option (CommandOption.kafka_config arg) s =
      split_option set_kafka_config (parse_config_option arg) s
  parse_option (CommandOption.topic_config arg) s =
      split_option set_topic_config (parse_config_option arg) s
  parse_option CommandOption.allow_unkeyed s = running (record s { allow_unkeyed = true })
  parse_option CommandOption.skip_snapshot s = running (record s { skip_snapshot = true })
  parse_option CommandOption.config_help s = exit_with 0
  parse_option CommandOption.help s = usage 0
  parse_option CommandOption.unknown s = usage 1

  unfoldable pub parse_loop : List CommandOption → Settings → Run Settings
  unfolding parse_option
  parse_loop [] s = running s
  parse_loop (o ∷ os) s = do s' ← parse_option o s; parse_loop os s'

  abbrev pub settle_registry : OutputFormat → Option Registry → Settings → Run Settings
  settle_registry OutputFormat.avro none s = running (init_schema_registry default_registry s)
  settle_registry OutputFormat.json (some r) s = usage 1
  settle_registry _ _ s = running s

  abbrev pub is_none : Option (List ℕ) → Bool
  is_none none = true
  is_none (some text) = false

  -- `left_over`: there are arguments that are no options.
  unfoldable pub parse_options : List CommandOption → (left_over : Bool) → Settings → Run Settings
  unfolding parse_loop init_schema_registry usage
  parse_options os left_over s = do
    s' ← parse_loop os s
    (if is_none s'.conninfo || left_over
        then usage 1
        else settle_registry s'.output_format s'.registry s')

-- The settings of `init_client` and `init_producer`, with the property that the latter sets.
unfoldable pub default_settings : Settings
default_settings = record {
  conninfo = none;
  slot_name = default_slot;
  client_error_policy = policy_exit;
  allow_unkeyed = false;
  skip_snapshot = false;
  brokers = default_brokers;
  registry = none;
  topic_prefix = none;
  output_format = OutputFormat.avro;
  error_policy = ErrorPolicy.exit;
  kafka_conf = [];
  topic_conf = (codes "produce.offset.report", codes "true") ∷ [];
}

-- librdkafka may refuse the property, which ends the program.
unfoldable pub init_settings : Configurable → Run Settings
unfolding default_settings
init_settings conf =
    if conf.topic_conf_set (codes "produce.offset.report") (codes "true")
    then running default_settings
    else exit_with 1
