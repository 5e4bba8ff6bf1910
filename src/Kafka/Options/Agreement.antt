-- ===== src/Kafka/Options/Agreement.antt =====
-- What the options of kafka/bottledwater.c leave: settings of the parts that agree.
use bottledwater_pg.Prelude.{
  ℕ, ◌≡◌, refl, Bool, Option, none, some, List, [], ◌∷◌, codes, str_eq, Bool-cases, Option-cases,
  inl, inr,
}
use bottledwater_pg.Prelude.Run.{Run, Holds, Holds-bind}
use bottledwater_pg.Ext.Policy.{Policy, policy_log, policy_exit, parse_error_policy}
use bottledwater_pg.Kafka.Registry.{Registry}
use bottledwater_pg.Kafka.Producer.{OutputFormat, ErrorPolicy}
use bottledwater_pg.Kafka.Options.{parse_config_option}
use bottledwater_pg.Kafka.Options.Parse.{
  Settings, CommandOption, Configurable, init_schema_registry, set_output_format, set_error_policy,
  set_kafka_config, set_topic_config, parse_option, parse_loop, parse_options, default_settings,
  settle_registry, split_option, usage,
}

-- The policy of the plugin that goes by the same name.
abbrev pub plugin_policy : ErrorPolicy → Policy
plugin_policy ErrorPolicy.log = Policy.log
plugin_policy ErrorPolicy.exit = Policy.exit
plugin_policy ErrorPolicy.undefined = Policy.undefined

-- Messages in Avro go with a registry, messages in JSON without one.
abbrev pub Fits : OutputFormat → Option Registry → Type 0
Fits OutputFormat.avro (some r) = Unit
Fits OutputFormat.json none = Unit
Fits _ _ = ⊥

pub record IsConfigured (s : Settings) : Type 0 where
  pub told : (text : List ℕ) × (s.conninfo ≡ some text)
  pub agreed : parse_error_policy s.client_error_policy ≡ some (plugin_policy s.error_policy)
  pub fits : Fits s.output_format s.registry

abbrev Chosen : OutputFormat → Type 0
Chosen OutputFormat.undefined = ⊥
Chosen _ = Unit

-- What every option keeps.
abbrev Agrees : Settings → Type 0
Agrees s =
    (parse_error_policy s.client_error_policy ≡ some (plugin_policy s.error_policy))
    × Chosen s.output_format

set_output_format-Agrees :
    (text : List ℕ) (s : Settings) → Agrees s → Holds Agrees (set_output_format text s)
unfolding set_output_format
set_output_format-Agrees text s a = elim (Bool-cases (str_eq (codes "avro") text)) [
  | inl avro ↦ rw avro (a.0, tt)
  | inr other ↦ elim (Bool-cases (str_eq (codes "json") text)) [
    | inl json ↦ rw (other, json) (a.0, tt)
    | inr neither ↦ rw (other, neither) tt
  ]
]

set_error_policy-Agrees :
    (policy : List ℕ) (s : Settings) → Agrees s → Holds Agrees (set_error_policy policy s)
unfolding set_error_policy parse_error_policy
set_error_policy-Agrees policy s a = elim (Bool-cases (str_eq policy_log policy)) [
  | inl logs ↦ rw logs (rw logs refl, a.1)
  | inr other ↦ elim (Bool-cases (str_eq policy_exit policy)) [
    | inl exits ↦ rw (other, exits) (rw (other, exits) refl, a.1)
    | inr neither ↦ rw (other, neither) tt
  ]
]

default-Agrees : Agrees default_settings
unfolding default_settings parse_error_policy
default-Agrees = (refl, tt)

module _ (conf : Configurable) where
  set_kafka_config-Agrees :
      (property value : List ℕ) (s : Settings)
      → Agrees s
      → Holds Agrees (set_kafka_config conf property value s)
  unfolding set_kafka_config
  set_kafka_config-Agrees property value s a = elim (Bool-cases (conf.conf_set property value)) [
    | inl taken ↦ rw taken a
    | inr refused ↦ rw refused tt
  ]

  set_topic_config-Agrees :
      (property value : List ℕ) (s : Settings)
      → Agrees s
      → Holds Agrees (set_topic_config conf property value s)
  unfolding set_topic_config
  set_topic_config-Agrees property value s a =
      elim (Bool-cases (conf.topic_conf_set property value)) [
        | inl taken ↦ rw taken a
        | inr refused ↦ rw refused tt
      ]

  split_option-Agrees :
      (set : List ℕ → List ℕ → Settings → Run Settings)
      → ((property value : List ℕ) (s : Settings) → Agrees s → Holds Agrees (set property value s))
      → (split : Option (List ℕ × List ℕ)) (s : Settings) → Agrees s
      → Holds Agrees (split_option conf set split s)
  split_option-Agrees set keeps none s a = tt
  split_option-Agrees set keeps (some (property, value)) s a = keeps property value s a

  parse_option-Agrees :
      (o : CommandOption) (s : Settings) → Agrees s → Holds Agrees (parse_option conf o s)
  unfolding parse_option init_schema_registry
  parse_option-Agrees (CommandOption.postgres arg) s a = a
  parse_option-Agrees (CommandOption.slot arg) s a = a
  parse_option-Agrees (CommandOption.broker arg) s a = a
  parse_option-Agrees (CommandOption.schema_registry arg) s a = a
  parse_option-Agrees (CommandOption.format arg) s a = set_output_format-Agrees arg s a
  parse_option-Agrees (CommandOption.prefix arg) s a = a
  parse_option-Agrees (CommandOption.on_error arg) s a = set_error_policy-Agrees arg s a
  parse_option-Agrees (CommandOption.kafka_config arg) s a =
      split_option-Agrees (set_kafka_config conf) set_kafka_config-Agrees (parse_config_option arg)
        s a
  parse_option-Agrees (CommandOption.topic_config arg) s a =
      split_option-Agrees (set_topic_config conf) set_topic_config-Agrees (parse_config_option arg)
        s a
  parse_option-Agrees CommandOption.allow_unkeyed s a = a
  parse_option-Agrees CommandOption.skip_snapshot s a = a
  parse_option-Agrees CommandOption.config_help s a = tt
  parse_option-Agrees CommandOption.help s a = tt
  parse_option-Agrees CommandOption.unknown s a = tt

  parse_loop-Agrees :
      (os : List CommandOption) (s : Settings) → Agrees s → Holds Agrees (parse_loop conf os s)
  unfolding parse_loop
  parse_loop-Agrees [] s a = a
  parse_loop-Agrees (o ∷ os) s a =
      Holds-bind Agrees Agrees (parse_option conf o s) (parse_loop conf os)
        (parse_option-Agrees o s a) (parse_loop-Agrees os)

  settled :
      (format : OutputFormat) (registry : Option Registry) (s : Settings)
      → s.output_format ≡ format
      → s.registry ≡ registry
      → (text : List ℕ) × (s.conninfo ≡ some text)
      → Agrees s
      → Holds IsConfigured (settle_registry conf format registry s)
  unfolding init_schema_registry usage
  settled OutputFormat.avro none s f r t a = record { told = t; agreed = a.0; fits = rw f tt }
  settled OutputFormat.avro (some g) s f r t a = record {
    told = t;
    agreed = a.0;
    fits = rw (f, r) tt;
  }
  settled OutputFormat.json none s f r t a = record { told = t; agreed = a.0; fits = rw (f, r) tt }
  settled OutputFormat.json (some g) s f r t a = tt
  settled OutputFormat.undefined registry s f r t a = absurd (rw f at a.1)

  -- Whatever options are given: if the program goes on, it knows a database, it has a schema registry
  -- if and only if it writes Avro, and the plugin will read the client's text for the error policy
  -- as the policy that the producer itself follows.
  pub parse_options-IsConfigured :
      (os : List CommandOption) (left_over : Bool)
      → Holds IsConfigured (parse_options conf os left_over default_settings)
  unfolding parse_options usage
  parse_options-IsConfigured os left_over =
      Holds-bind Agrees IsConfigured (parse_loop conf os default_settings) _
        (parse_loop-Agrees os default_settings default-Agrees)
        (λ s a. elim (Option-cases s.conninfo) [
          | inl missing ↦ rw missing tt
          | inr told ↦ rw (told.1) (elim (Bool-cases left_over) [
            | inl more ↦ rw more tt
            | inr all ↦ rw all (
                settled s.output_format s.registry (record s { conninfo = some told.0 }) refl refl
                  (told.0, refl) a)
          ])
        ])
