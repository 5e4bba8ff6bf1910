-- ===== src/Client/Connect/Params.antt =====
-- The parameters of the connection in `client_connect` of client/connect.c.
use bottledwater_pg.Prelude.{
  ℕ, ◌+◌, ◌≡◌, List, [], ◌∷◌, length, length-append, arith, Bool-cases, inl, inr,
}
use bottledwater_pg.Client.Connect.{is_empty, kept_options, option_count, connection_params}

kept_count :
    (opts : List (List ℕ × List ℕ)) (n : ℕ) → option_count opts n ≡ n + length (kept_options opts)
unfolding option_count kept_options
kept_count [] n = omega arith
kept_count ((keyword, val) ∷ rest) n = elim (Bool-cases (is_empty val)) [
  | inl missing ↦ rw missing (kept_count rest n)
  | inr there ↦ rw there (omega (arith, kept_count rest (n + 1)))
]

-- The entries that are written for the connection are as many as were counted for the allocation,
-- whatever options the connection string has, so that the null pointers after them fit.
length-connection_params :
    (opts : List (List ℕ × List ℕ)) (app_name : List ℕ)
    → length (connection_params opts app_name) ≡ option_count opts 2
unfolding connection_params
length-connection_params opts app_name =
    omega (arith, kept_count opts 2, length-append (kept_options opts) _)
