-- ===== src/Ext/Export/Listing.antt =====
-- The tables that `get_table_list` of ext/snapshot.c finds.
use bottledwater_pg.Prelude.{
  ℕ, ◌≡◌, refl, ap, Bool, true, false, ◌&&◌, ◌||◌, Option, some, List, [], ◌∷◌, ◌++◌, ◌==◌, ◌⊎◌,
  inl, inr, Bool-cases, Option-cases, append-nil, arith,
}
use mathlib.Core.List.{append_assoc}
use bottledwater_pg.Ext.Backend.{Backend, returned, aborted, crashed, ◌>>=◌}
use bottledwater_pg.Ext.Tables.{Relation}
use bottledwater_pg.Ext.Export.{
  TableRow, ExportTable, relid_taken, is_keyed, allowed, table_of_row, list_tables, get_table_list,
}

-- No number twice.
abbrev pub Distinct : List ExportTable → Type 0
Distinct [] = Unit
Distinct (t ∷ ts) = (relid_taken t.relid ts ≡ false) × Distinct ts

abbrev pub all_keyed : List ExportTable → Bool
all_keyed [] = true
all_keyed (t ∷ ts) = is_keyed t && all_keyed ts

abbrev pub oids : List TableRow → List (Option ℕ)
oids [] = []
oids (row ∷ rows) = row.oid ∷ oids rows

abbrev pub relids : List ExportTable → List (Option ℕ)
relids [] = []
relids (t ∷ ts) = some t.relid ∷ relids ts

taken-append :
    (relid : ℕ) (ts : List ExportTable) (t : ExportTable)
    → relid_taken relid (ts ++ (t ∷ [])) ≡ (relid_taken relid ts || (relid == t.relid))
taken-append relid [] t = ground arith
taken-append relid (x ∷ ts) t = ground (arith, taken-append relid ts t)

Distinct-append :
    (ts : List ExportTable) (t : ExportTable)
    → Distinct ts
    → relid_taken t.relid ts ≡ false
    → Distinct (ts ++ (t ∷ []))
Distinct-append [] t d free = (refl, tt)
Distinct-append (x ∷ ts) t d free = (
  ground (arith, taken-append x.relid ts t, d.0, free),
  Distinct-append ts t d.1 (ground (arith, free)),
)

keyed-append :
    (ts : List ExportTable) (t : ExportTable)
    → all_keyed (ts ++ (t ∷ [])) ≡ (all_keyed ts && is_keyed t)
keyed-append [] t = ground arith
keyed-append (x ∷ ts) t = ground (arith, keyed-append ts t)

relids-append :
    (ts : List ExportTable) (t : ExportTable)
    → relids (ts ++ (t ∷ [])) ≡ relids ts ++ (some t.relid ∷ [])
relids-append [] t = refl
relids-append (x ∷ ts) t = ap (λ l. some x.relid ∷ l) (relids-append ts t)

table_of_row-oid :
    (relation_open : ℕ → Relation) (row : TableRow) (t : ExportTable)
    → table_of_row relation_open row ≡ some t
    → row.oid ≡ some t.relid
unfolding table_of_row
table_of_row-oid relation_open row t h = ground arith

-- What the loop has found.
abbrev Lists : List ExportTable → Bool → List (Option ℕ) → Type 0
Lists ts keyed found = Distinct ts × (keyed ≡ all_keyed ts) × (relids ts ≡ found)

list_tables-Lists :
    (relation_open : ℕ → Relation) (rows : List TableRow) (tables found : List ExportTable)
    (keyed keyed' : Bool)
    → Distinct tables
    → keyed ≡ all_keyed tables
    → list_tables relation_open rows tables keyed ≡ returned (found, keyed')
    → Lists found keyed' (relids tables ++ oids rows)
unfolding list_tables
list_tables-Lists relation_open [] tables found keyed keyed' d k h =
    let same : tables ≡ found = ground arith in
    let same' : keyed ≡ keyed' = ground arith in rw (← same, ← same', append-nil) (d, k, refl)
list_tables-Lists relation_open (row ∷ rows) tables found keyed keyed' d k h =
    elim (Option-cases (table_of_row relation_open row)) [
      | inl null ↦ absurd (let h' = rw (null, list_tables) at h in ground arith)
      | inr (t, made) ↦ elim (Bool-cases (relid_taken t.relid tables)) [
        | inl again ↦ absurd (let h' = rw (made, again, list_tables) at h in ground arith)
        | inr first ↦
            let h' = rw (made, first, list_tables) at h in
            let (d', k', r') =
              list_tables-Lists relation_open rows (tables ++ (t ∷ [])) found (keyed && is_keyed t)
                keyed' (Distinct-append tables t d first) (rw (keyed-append tables t, k) refl) h' in
            (
              d',
              k',
              rw
                  (
                    r',
                    relids-append tables t,
                    table_of_row-oid relation_open row t made,
                    append_assoc,
                  )
                  refl,
            )
      ]
    ]

allowed-Lists :
    (allow_unkeyed : Bool) (b : Backend (List ExportTable × Bool)) (tables : List ExportTable)
    (found : List (Option ℕ))
    → ((ts : List ExportTable) (keyed : Bool) → b ≡ returned (ts, keyed) → Lists ts keyed found)
    → (b >>= allowed allow_unkeyed) ≡ returned tables
    → Distinct tables
      × (relids tables ≡ found)
      × ((all_keyed tables ≡ true) ⊎ (allow_unkeyed ≡ true))
allowed-Lists allow_unkeyed aborted tables found lists h = absurd (ground arith)
allowed-Lists allow_unkeyed crashed tables found lists h = absurd (ground arith)
allowed-Lists true (returned (ts, keyed)) tables found lists h =
    let (d, k, r) = lists ts keyed refl in
    let same : ts ≡ tables = ground arith in rw (← same) (d, r, inr refl)
allowed-Lists false (returned (ts, false)) tables found lists h = absurd (ground arith)
allowed-Lists false (returned (ts, true)) tables found lists h =
    let (d, k, r) = lists ts true refl in
    let same : ts ≡ tables = ground arith in rw (← same) (d, r, inl (rw (← k) refl))

-- If the list of tables is made, it has the tables of the query's rows in their order, none twice,
-- and all of them have a key unless tables without one are allowed.
pub get_table_list-Distinct :
    (relation_open : ℕ → Relation) (rows : List TableRow) (allow_unkeyed : Bool)
    (tables : List ExportTable)
    → get_table_list relation_open rows allow_unkeyed ≡ returned tables
    → Distinct tables
      × (relids tables ≡ oids rows)
      × ((all_keyed tables ≡ true) ⊎ (allow_unkeyed ≡ true))
unfolding get_table_list
get_table_list-Distinct relation_open rows allow_unkeyed tables h =
    allowed-Lists allow_unkeyed (list_tables relation_open rows [] true) tables (oids rows)
      (λ ts keyed made. list_tables-Lists relation_open rows [] ts true keyed tt refl made) h
