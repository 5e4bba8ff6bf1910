-- ===== src/Ext/Tables/Keys.antt =====
-- The columns of the key are found in a tuple of the table, and in one of a query's result, which
-- has no place for columns that were dropped.
use bottledwater_pg.Prelude.{
  ℕ, zero, suc, ◌+◌, ◌<◌, ◌≤◌, ◌≡◌, refl, false, not, ◌||◌, some, List, [], ◌∷◌, length, get_elem?,
  if◌then◌else◌, arith,
}
use bottledwater_pg.Ext.Tables.{Attribute, dropped_at, place_from, key_field}

-- The columns that were not dropped.
abbrev pub kept : List Attribute → List Attribute
kept [] = []
kept (a ∷ rest) = if a.attisdropped then kept rest else a ∷ kept rest

-- How many of the first `n` columns were not dropped.
abbrev kept_before : List Attribute → ℕ → ℕ
kept_before attrs zero = 0
kept_before [] (suc n) = 0
kept_before (a ∷ rest) (suc n) =
    if a.attisdropped then kept_before rest n else suc (kept_before rest n)

place_from_same :
    (rest attrs : List Attribute) (n k : ℕ)
    → n ≤ length rest
    → ((j : ℕ) → dropped_at attrs (k + j) ≡ dropped_at rest j)
    → place_from rest attrs n k ≡ k + n
unfolding place_from
place_from_same rest attrs zero k h same = omega arith
place_from_same [] attrs (suc n) k h same = absurd (omega arith)
place_from_same (a ∷ rest) attrs (suc n) k h same =
    let here : dropped_at attrs k ≡ a.attisdropped = ground (arith, same 0) in
    let next : (if not a.attisdropped || dropped_at attrs k then k + 1 else k) ≡ k + 1 =
      ground arith in
    let same' : (j : ℕ) → dropped_at attrs (k + 1 + j) ≡ dropped_at rest j =
      λ j. let e : k + suc j ≡ k + 1 + j = omega arith in rw e at (same (suc j)) in
    let ih = place_from_same rest attrs n (k + 1) (omega arith) same' in rw next (omega (arith, ih))

-- In a tuple of the table itself a key column stands at its own place.
key_field_same :
    (attrs : List Attribute) (n : ℕ)
    → n < length attrs
    → dropped_at attrs n ≡ false
    → key_field attrs attrs n ≡ some n
unfolding key_field
key_field_same attrs n h live =
    let place : place_from attrs attrs n 0 ≡ n = omega (
      arith,
      place_from_same attrs attrs n 0 (omega arith)
          (λ j. let e : 0 + j ≡ j = omega arith in rw e refl),
    ) in
    rw place (ground arith)

dropped_at-kept : (attrs : List Attribute) (i : ℕ) → dropped_at (kept attrs) i ≡ false
dropped_at-kept [] i = refl
dropped_at-kept (a ∷ rest) zero = ground (arith, dropped_at-kept rest 0)
dropped_at-kept (a ∷ rest) (suc i) =
    ground (arith, dropped_at-kept rest (suc i), dropped_at-kept rest i)

place_from_kept :
    (rest attrs : List Attribute) (n k : ℕ)
    → ((i : ℕ) → dropped_at attrs i ≡ false)
    → place_from rest attrs n k ≡ k + kept_before rest n
unfolding place_from
place_from_kept rest attrs zero k live = omega arith
place_from_kept [] attrs (suc n) k live = omega arith
place_from_kept (a ∷ rest) attrs (suc n) k live =
    let step = place_from_kept rest attrs n in
    ground (arith, live k, step (k + 1) live, step k live)

get_elem?-kept :
    (attrs : List Attribute) (n : ℕ)
    → dropped_at attrs n ≡ false
    → n < length attrs
    → (get_elem? (kept attrs) (kept_before attrs n) ≡ get_elem? attrs n)
      × (kept_before attrs n < length (kept attrs))
get_elem?-kept [] n live h = absurd (omega arith)
get_elem?-kept (a ∷ rest) zero live h = (ground arith, ground arith)
get_elem?-kept (a ∷ rest) (suc n) live h =
    let ih = get_elem?-kept rest n live (omega arith) in
    (ground (arith, ih.0), ground (arith, ih.1))

-- In the result of a query, whose descriptor has the columns that were not dropped, a key column is
-- found at a place where the descriptor has that same column.
pub key_field-kept :
    (attrs : List Attribute) (n : ℕ)
    → n < length attrs
    → dropped_at attrs n ≡ false
    → (i : ℕ) × (key_field attrs (kept attrs) n ≡ some i)
      × (get_elem? (kept attrs) i ≡ get_elem? attrs n)
unfolding key_field
key_field-kept attrs n h live =
    let place = place_from_kept attrs (kept attrs) n 0 (dropped_at-kept attrs) in
    let found = get_elem?-kept attrs n live h in
    (
      kept_before attrs n,
      rw place (ground (arith, dropped_at-kept attrs (kept_before attrs n), found.1)),
      found.0,
    )
