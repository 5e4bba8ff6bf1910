-- ===== src/Ext/Rows/Laws.antt =====
-- A row is converted column by column.
use bottledwater_pg.Prelude.{
  ℕ, zero, suc, ◌+◌, ◌<◌, ◌≡◌, refl, ap, Bool, true, false, not, ◌&&◌, ◌||◌, Option, none, some,
  List, [], ◌∷◌, length, get_elem?, drop, ◌∙◌, append-nil, sym, codes, ◌<◌, ◌++◌, ◌==◌,
  if◌then◌else◌, Result, ok, err, einval, arith, Bool-cases, inl, inr,
}
use bottledwater_pg.Ext.Naming.{make_avro_safe}
use bottledwater_pg.Ext.Tables.{
  generated_schema_namespace, Attribute, RecordSchema, Catalog, with_field, append_columns,
  schema_for_table_row,
}
use bottledwater_pg.Ext.Datum.{typid_of}
use bottledwater_pg.Ext.Datum.Values.{Postgres, ColumnValue}
use bottledwater_pg.Ext.Datum.Schemas.{conforms, is_timestamptz, update_avro_with_datum-conforms}
use bottledwater_pg.Ext.Rows.{
  Tuple, AvroValues, column_value, field_schemas, schemas_at, prepend, set_field, row_from,
  tuple_to_avro_row,
}

abbrev pub field_typids : List (List ℕ × Option ℕ) → List (Option ℕ)
field_typids [] = []
field_typids ((name, typid) ∷ fs) = typid ∷ field_typids fs

-- The columns that are not dropped.
abbrev pub live_typids : List Attribute → List (Option ℕ)
live_typids [] = []
live_typids (a ∷ rest) =
    let others = live_typids rest in if a.attisdropped then others else some a.atttypid ∷ others

abbrev pub is_none {ℓ} : {A : Type ℓ} → Option A → Bool
is_none none = true
is_none (some a) = false

field_typids-append :
    (fs : List (List ℕ × Option ℕ)) (name : List ℕ) (typid : Option ℕ) (rest : List (Option ℕ))
    → field_typids (fs ++ ((name, typid) ∷ [])) ++ rest ≡ field_typids fs ++ (typid ∷ rest)
field_typids-append [] name typid rest = refl
field_typids-append ((n, t) ∷ fs) name typid rest =
    ap (λ l. t ∷ l) (field_typids-append fs name typid rest)

columns-typids :
    (k : Catalog) (attrs : List Attribute) (s s' : RecordSchema)
    → append_columns k attrs s ≡ ok s'
    → field_typids s'.fields ≡ field_typids s.fields ++ live_typids attrs
unfolding append_columns
columns-typids k [] s s' h =
    let same : s ≡ s' = ground arith in
    ap (λ (x : RecordSchema). field_typids x.fields) (sym same)
    ∙ sym (append-nil (field_typids s.fields))
columns-typids k (a ∷ rest) s s' h =
    let name = make_avro_safe a.attname false in
    elim (Bool-cases a.attisdropped) [
      | inl gone ↦
          let h' : append_columns k rest s ≡ ok s' = rw gone at h in
          rw gone (columns-typids k rest s s' h')
      | inr live ↦ elim (Bool-cases (k.field_append s name (some a.atttypid) == 0)) [
        | inl fine ↦
            let h' : append_columns k rest (with_field s name (some a.atttypid)) ≡ ok s' =
              rw fine at (rw live at h) in
            rw live (
              columns-typids k rest (with_field s name (some a.atttypid)) s' h'
              ∙ field_typids-append s.fields name (some a.atttypid) (live_typids rest))
        | inr failed ↦
            let h' : ◌≡◌ {A = Result RecordSchema} (err _) (ok s') = rw failed at (rw live at h) in
            absurd (ground arith)
      ]
    ]

-- The fields of a table's schema are the columns that are not dropped.
schema-typids :
    (k : Catalog) (relname : List ℕ) (ns_id : ℕ) (attrs : List Attribute) (s : RecordSchema)
    → 0 < length attrs
    → schema_for_table_row k relname ns_id attrs ≡ ok s
    → field_typids s.fields ≡ live_typids attrs
unfolding schema_for_table_row
schema-typids k relname ns_id attrs s some_column made =
    let namespace =
      make_avro_safe (generated_schema_namespace ++ (codes "." ++ k.get_namespace_name ns_id))
        true in
    let name = make_avro_safe relname false in
    let more : (length attrs == 0) ≡ false = ground arith in
    elim (Bool-cases (k.schema_record name namespace)) [
      | inl works ↦
          columns-typids k attrs (record { name = name; namespace = namespace; fields = [] }) s
            (rw more at (rw works at made))
      | inr fails ↦
          let refused : ◌≡◌ {A = Result RecordSchema} (err einval) (ok s) = rw fails at made in
          absurd (ground arith)
    ]

module _ (pg : Postgres) where
  -- Whether a column that is not dropped holds a timestamp with time zone, from place `i` on.
  abbrev pub has_timestamptz : List Attribute → Tuple pg → ℕ → Bool
  has_timestamptz [] tuple i = false
  has_timestamptz (a ∷ rest) tuple i =
      (not a.attisdropped && is_timestamptz (typid_of a.atttypid) && not (is_none (tuple i)))
      || has_timestamptz rest tuple (i + 1)

  abbrev pub live_values : List Attribute → Tuple pg → ℕ → List (ColumnValue pg.Float)
  live_values [] tuple i = []
  live_values (a ∷ rest) tuple i =
      let others = live_values rest tuple (i + 1) in
      if a.attisdropped then others else column_value pg a.atttypid (tuple i) ∷ others

  schemas_from :
      (fs : List (List ℕ × Option ℕ)) (field typid : ℕ) (rest : List (Option ℕ))
      → field_typids (drop field fs) ≡ some typid ∷ rest
      → (schemas_at (get_elem? fs field) ≡ field_schemas (some typid))
        × (field < length fs)
        × (field_typids (drop (suc field) fs) ≡ rest)
  schemas_from [] zero typid rest h = absurd (ground arith)
  schemas_from [] (suc n) typid rest h = absurd (ground arith)
  schemas_from ((name, t) ∷ fs) zero typid rest h =
      let same : t ≡ some typid = ground arith in (ap field_schemas same, omega arith, ground arith)
  schemas_from ((name, t) ∷ fs) (suc n) typid rest h =
      let (a, b, c) = schemas_from fs n typid rest h in (a, omega (arith, b), c)

  conforms-column :
      (typid : ℕ) (v : Option pg.Datum)
      → conforms (field_schemas (some typid)) (column_value pg typid v)
        ≡ not (is_timestamptz (typid_of typid) && not (is_none v))
  unfolding field_schemas conforms
  conforms-column typid none = ground arith
  conforms-column typid (some d) = rw update_avro_with_datum-conforms (ground arith)

  module _ (values : AvroValues pg.Float) where
    -- A field of a type takes a value unless that is a timestamp with time zone.
    set_typed :
        (s : RecordSchema) (field typid : ℕ) (v : Option pg.Datum) (rest : List (Option ℕ))
        (others : Result (List (ColumnValue pg.Float)))
        → field_typids (drop field s.fields) ≡ some typid ∷ rest
        → set_field pg values s field (column_value pg typid v) others ≡ (
            if is_timestamptz (typid_of typid) && not (is_none v)
            then err einval
            else prepend pg values (column_value pg typid v) others)
    unfolding set_field
    set_typed s field typid v rest others h =
        let (here, inside, later) = schemas_from s.fields field typid rest h in
        let column = conforms-column typid v in
        elim (Bool-cases (is_timestamptz (typid_of typid) && not (is_none v))) [
          | inl refused ↦
              rw
                (
                  values.get_field s field inside,
                  here,
                  values.set_refused (field_schemas (some typid)) (column_value pg typid v)
                      (rw (column, refused) refl),
                  refused,
                )
                refl
          | inr taken ↦
              rw
                (
                  values.get_field s field inside,
                  here,
                  values.set_conforms (field_schemas (some typid)) (column_value pg typid v)
                      (rw (column, taken) refl),
                  taken,
                )
                refl
        ]

    joined :
        (bad later : Bool) (v : ColumnValue pg.Float) (vs : List (ColumnValue pg.Float))
        → (if bad then err einval else prepend pg values v (if later then err einval else ok vs))
          ≡ (if bad || later then err einval else ok (v ∷ vs))
    joined true later v vs = refl
    joined false true v vs = refl
    joined false false v vs = refl

    row_from_lem :
        (s : RecordSchema) (attrs : List Attribute) (tuple : Tuple pg) (i field : ℕ)
        → field_typids (drop field s.fields) ≡ live_typids attrs
        → row_from pg values s attrs tuple i field
          ≡ (if has_timestamptz attrs tuple i then err einval else ok (live_values attrs tuple i))
    unfolding row_from
    row_from_lem s [] tuple i field h = refl
    row_from_lem s (a ∷ rest) tuple i field h = elim (Bool-cases a.attisdropped) [
      | inl gone ↦
          let h' : field_typids (drop field s.fields) ≡ live_typids rest = rw gone at h in
          rw gone (row_from_lem s rest tuple (i + 1) field h')
      | inr live ↦
          let h' : field_typids (drop field s.fields) ≡ some a.atttypid ∷ live_typids rest =
            rw live at h in
          let next : suc field ≡ field + 1 = omega arith in
          let (here, inside, after) =
            schemas_from s.fields field a.atttypid (live_typids rest) h' in
          let later : field_typids (drop (field + 1) s.fields) ≡ live_typids rest =
            rw next at after in
          let others = row_from_lem s rest tuple (i + 1) (field + 1) later in
          rw
            (
              live,
              set_typed s field a.atttypid (tuple i) (live_typids rest)
                  (row_from pg values s rest tuple (i + 1) (field + 1)) h',
              others,
            )
            (joined (is_timestamptz (typid_of a.atttypid) && not (is_none (tuple i)))
              (has_timestamptz rest tuple (i + 1)) (column_value pg a.atttypid (tuple i))
              (live_values rest tuple (i + 1)))
    ]

    tuple_to_avro_row_lem :
        (s : RecordSchema) (attrs : List Attribute) (tuple : Tuple pg)
        → field_typids s.fields ≡ live_typids attrs
        → tuple_to_avro_row pg values s attrs tuple
          ≡ (if has_timestamptz attrs tuple 0 then err einval else ok (live_values attrs tuple 0))
    unfolding tuple_to_avro_row
    tuple_to_avro_row_lem s attrs tuple h = row_from_lem s attrs tuple 0 0 h

    -- A row is converted by the schema of its table, which has at least one column, if the columns of
    -- the row that are not dropped have the types of those of the table that are not dropped: its
    -- values are those of its columns in order, null where the column is null, unless a column that
    -- is not dropped and not null is a timestamp with time zone. Then the row is refused as invalid.
    pub tuple_to_avro_row-schema_for_table_row :
        (k : Catalog) (relname : List ℕ) (ns_id : ℕ) (attrs tupdesc : List Attribute)
        (s : RecordSchema) (tuple : Tuple pg)
        → 0 < length attrs
        → live_typids tupdesc ≡ live_typids attrs
        → schema_for_table_row k relname ns_id attrs ≡ ok s
        → tuple_to_avro_row pg values s tupdesc tuple ≡ (
            if has_timestamptz tupdesc tuple 0
            then err einval
            else ok (live_values tupdesc tuple 0))
    tuple_to_avro_row-schema_for_table_row k relname ns_id attrs tupdesc s tuple some_column same
          made =
        tuple_to_avro_row_lem s tupdesc tuple
          (schema-typids k relname ns_id attrs s some_column made ∙ sym same)
