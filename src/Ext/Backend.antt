-- ===== src/Ext/Backend.antt =====
-- What a call inside a Postgres backend leaves: a result, or the end of the statement by
-- `elog(ERROR)`, or a null pointer that was followed.
use bottledwater_pg.Prelude.{ℕ, Result, ok, err}

pub data Backend {ℓ} (A : Type ℓ) : Type ℓ where
  returned : A → Backend A
  aborted : Backend A
  crashed : Backend A

infixl 5 ◌>>=◌
abbrev pub ◌>>=◌ {ℓ κ} : {A : Type ℓ} {B : Type κ} → Backend A → (A → Backend B) → Backend B
returned a >>= f = f a
aborted >>= f = aborted
crashed >>= f = crashed

-- The macro `check` about a call whose value is used.
abbrev pub check {ℓ κ} :
    {A : Type ℓ} {B : Type κ} → Backend (Result A) → (ℕ → B) → (A → Backend B) → Backend B
check (returned (ok a)) failed f = f a
check (returned (err e)) failed f = returned (failed e)
check aborted failed f = aborted
check crashed failed f = crashed
