-- ===== src/Ext/Policy.antt =====
-- ext/error_policy.c: what the plugin does about an error. `ereport(ERROR)` does not return: it is
-- `none`.
use bottledwater_pg.Prelude.{
  ℕ, ◌≡◌, refl, Option, none, some, List, codes, arith, str_eq, if◌then◌else◌, Bool-cases, inl, inr,
  str_eq→eq, ◌↔◌, ◌≢◌,
}

pub data Policy : Type 0 where
  undefined log exit : Policy

-- PROTOCOL_ERROR_POLICY_LOG and PROTOCOL_ERROR_POLICY_EXIT
abbrev pub policy_log : List ℕ
policy_log = codes "log"

abbrev pub policy_exit : List ℕ
policy_exit = codes "exit"

unfoldable pub parse_error_policy : List ℕ → Option Policy
parse_error_policy str =
    if str_eq policy_log str
    then some Policy.log
    else (if str_eq policy_exit str then some Policy.exit else none)

unfoldable pub error_policy_name : Policy → List ℕ
error_policy_name Policy.log = policy_log
error_policy_name Policy.exit = policy_exit
error_policy_name Policy.undefined = codes "undefined (probably a bug)"

-- Whether the call returns, so that the caller goes on.
unfoldable pub error_policy_handle : Policy → Option {0} Unit
error_policy_handle Policy.log = some tt
error_policy_handle Policy.exit = none
error_policy_handle Policy.undefined = none

parse_of_name :
    (p : Policy) → p ≢ Policy.undefined → parse_error_policy (error_policy_name p) ≡ some p
unfolding parse_error_policy error_policy_name
parse_of_name Policy.log h = refl
parse_of_name Policy.exit h = refl
parse_of_name Policy.undefined h = absurd (h refl)

name_of_parse :
    (str : List ℕ) (p : Policy)
    → parse_error_policy str ≡ some p
    → (error_policy_name p ≡ str) × (p ≢ Policy.undefined)
unfolding parse_error_policy error_policy_name
name_of_parse str p h = elim (Bool-cases (str_eq policy_log str)) [
  | inl logs ↦
      let e : p ≡ Policy.log = ground arith in rw e (str_eq→eq policy_log str logs, λ u. cc)
  | inr other ↦ elim (Bool-cases (str_eq policy_exit str)) [
    | inl exits ↦
        let e : p ≡ Policy.exit = ground arith in rw e (str_eq→eq policy_exit str exits, λ u. cc)
    | inr neither ↦ absurd (ground arith)
  ]
]

-- A text is accepted as a policy if and only if it is the name of that policy, and this is never
-- the undefined one.
parse_error_policy_iff :
    (str : List ℕ) (p : Policy)
    → (parse_error_policy str ≡ some p) ↔ ((error_policy_name p ≡ str) × (p ≢ Policy.undefined))
parse_error_policy_iff str p = (name_of_parse str p, λ h. rw h.0 at (parse_of_name p h.1))
