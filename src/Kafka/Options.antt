-- ===== src/Kafka/Options.antt =====
-- kafka/bottledwater.c: options of the form property=value. `none` is the call of `exit(1)` for a
-- value that is not of this form.
pub mod Parse
pub mod Agreement
use bottledwater_pg.Prelude.{
  ℕ, ◌≡◌, ◌↔◌, refl, ap, Bool-cases, inl, inr, false, Option, none, some, List, [], ◌∷◌, ◌++◌,
  codes, str_eq, ◌==◌, if◌then◌else◌, arith,
}
use bottledwater_pg.Kafka.Producer.{OutputFormat, Context}

abbrev with_first : ℕ → Option (List ℕ × List ℕ) → Option (List ℕ × List ℕ)
with_first c none = none
with_first c (some (property, value)) = some (c ∷ property, value)

-- The text before the first equals sign, which is overwritten, and the text after it.
unfoldable pub parse_config_option : List ℕ → Option (List ℕ × List ℕ)
parse_config_option [] = none
parse_config_option (c ∷ cs) =
    let rest = parse_config_option cs in if c == b'=' then some ([], cs) else with_first c rest

-- There is no equals sign in the text.
abbrev pub NoEquals : List ℕ → Type 0
NoEquals [] = Unit
NoEquals (c ∷ cs) = ((c == b'=') ≡ false) × NoEquals cs

parse_of_join :
    (property value : List ℕ)
    → NoEquals property
    → parse_config_option (property ++ (b'=' ∷ value)) ≡ some (property, value)
unfolding parse_config_option
parse_of_join [] value n = refl
parse_of_join (c ∷ cs) value n = rw (n.0, parse_of_join cs value n.1) refl

join_later :
    (c : ℕ) (cs property value : List ℕ) (r : Option (List ℕ × List ℕ))
    → (c == b'=') ≡ false
    → ((p v : List ℕ) → r ≡ some (p, v) → (cs ≡ p ++ (b'=' ∷ v)) × NoEquals p)
    → with_first c r ≡ some (property, value)
    → (c ∷ cs ≡ property ++ (b'=' ∷ value)) × NoEquals property
join_later c cs property value none other ih h = absurd (ground arith)
join_later c cs property value (some (p, v)) other ih h =
    let before : property ≡ c ∷ p = ground arith in
    let after : value ≡ v = ground arith in
    let (whole, rest) = ih p v refl in rw (before, after) (ap (λ r. c ∷ r) whole, (other, rest))

join_of_parse :
    (text property value : List ℕ)
    → parse_config_option text ≡ some (property, value)
    → (text ≡ property ++ (b'=' ∷ value)) × NoEquals property
unfolding parse_config_option
join_of_parse [] property value h = absurd (ground arith)
join_of_parse (c ∷ cs) property value h = elim (Bool-cases (c == b'=')) [
  | inl equals ↦
      let now : ◌≡◌ {A = Option (List ℕ × List ℕ)} (some ([], cs)) (some (property, value)) =
        rw equals at h in
      let before : property ≡ [] = ground arith in
      let after : value ≡ cs = ground arith in
      let here : c ≡ b'=' = ground arith in rw (before, after, here) (refl, tt)
  | inr other ↦
      join_later c cs property value (parse_config_option cs) other (join_of_parse cs)
        (rw other at h)
]

-- An option is split into a property and a value if and only if it is the property, an equals sign
-- and the value, with no equals sign in the property.
pub parse_config_option_iff :
    (text property value : List ℕ)
    → (parse_config_option text ≡ some (property, value))
      ↔ ((text ≡ property ++ (b'=' ∷ value)) × NoEquals property)
parse_config_option_iff text property value =
    (join_of_parse text property value, λ h. rw h.0 (parse_of_join property value h.1))
