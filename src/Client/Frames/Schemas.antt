-- ===== src/Client/Frames/Schemas.antt =====
-- The list of the schemas that a frame reader was sent.
use bottledwater_pg.Prelude.{
  ℕ, ◌%◌, ◌^◌, ◌<◌, ◌≤◌, ◌≡◌, ◌≢◌, refl, Option, none, some, List, [], ◌∷◌, ◌++◌, length,
  length-append, ◌==◌, arith, Bool-cases, inl, inr,
}
use bottledwater_pg.Client.Frames.{
  SchemaListEntry, FrameReader, oid_mod, find_schema, overwrite, old_key, schema_list_lookup,
  schema_list_entry_new, store_entry, schema_list_replace,
}

module _ {Schema : Type 0} where
  find-overwrite :
      (relid : ℕ) (new : SchemaListEntry Schema) (es : List (SchemaListEntry Schema))
      {old : SchemaListEntry Schema}
      → new.relid ≡ relid
      → find_schema es relid ≡ some old
      → find_schema (overwrite relid new es) relid ≡ some new
  unfolding find_schema overwrite
  find-overwrite relid new [] own h = absurd (ground arith)
  find-overwrite relid new (e ∷ rest) own h = elim (Bool-cases (e.relid == relid)) [
    | inl here ↦ rw here (ground (arith, own))
    | inr later ↦
        let rest_found : find_schema rest relid ≡ _ = rw later at h in
        rw (later, later) (find-overwrite relid new rest own rest_found)
  ]

  find-overwrite_other :
      (relid other : ℕ) (new : SchemaListEntry Schema) (es : List (SchemaListEntry Schema))
      → new.relid ≡ relid
      → other ≢ relid
      → find_schema (overwrite relid new es) other ≡ find_schema es other
  unfolding find_schema overwrite
  find-overwrite_other relid other new [] own h = refl
  find-overwrite_other relid other new (e ∷ rest) own h =
      ground (arith, find-overwrite_other relid other new rest own h)

  find-append :
      (relid : ℕ) (new : SchemaListEntry Schema) (es : List (SchemaListEntry Schema))
      → new.relid ≡ relid
      → find_schema es relid ≡ none
      → find_schema (es ++ (new ∷ [])) relid ≡ some new
  unfolding find_schema
  find-append relid new [] own h = ground (arith, own)
  find-append relid new (e ∷ rest) own h = elim (Bool-cases (e.relid == relid)) [
    | inl here ↦ absurd (ground arith)
    | inr later ↦
        let gone : find_schema rest relid ≡ none = rw later at h in
        rw later (find-append relid new rest own gone)
  ]

  find-append_other :
      (relid other : ℕ) (new : SchemaListEntry Schema) (es : List (SchemaListEntry Schema))
      → new.relid ≡ relid
      → other ≢ relid
      → find_schema (es ++ (new ∷ [])) other ≡ find_schema es other
  unfolding find_schema
  find-append_other relid other new [] own h = ground (arith, own)
  find-append_other relid other new (e ∷ rest) own h =
      ground (arith, find-append_other relid other new rest own h)

  length-overwrite :
      (relid : ℕ) (new : SchemaListEntry Schema) (es : List (SchemaListEntry Schema))
      → length (overwrite relid new es) ≡ length es
  unfolding overwrite
  length-overwrite relid new [] = refl
  length-overwrite relid new (e ∷ rest) = ground (arith, length-overwrite relid new rest)

module _ {Schema Ctx : Type 0} where
  lookup-store :
      (relid other : ℕ) (found : Option (SchemaListEntry Schema)) (e : SchemaListEntry Schema)
      (r : FrameReader Schema Ctx)
      → find_schema r.schemas relid ≡ found
      → e.relid ≡ relid
      → other ≢ relid
      → let r' = store_entry relid found e r in
        (find_schema (r'.schemas) relid ≡ some e)
        × (find_schema (r'.schemas) other ≡ find_schema r.schemas other)
  unfolding store_entry schema_list_entry_new
  lookup-store relid other none e r h own ne =
      (find-append relid e r.schemas own h, find-append_other relid other e r.schemas own ne)
  lookup-store relid other (some old) e r h own ne =
      (find-overwrite relid e r.schemas own h, find-overwrite_other relid other e r.schemas own ne)

  -- The entry that the reader holds for a table, after its schemas were replaced.
  abbrev pub replaced :
      ℕ → (Option Schema → Option Schema) → Schema → FrameReader Schema Ctx → SchemaListEntry Schema
  replaced relid key row r = record {
    relid = relid % oid_mod;
    key_schema = key (old_key (schema_list_lookup r relid));
    row_schema = row;
  }

  -- After the schemas of a table were replaced, a lookup of that table gives them, and a lookup of
  -- any other table gives what it gave before.
  pub lookup-replace :
      (relid other : ℕ) (key : Option Schema → Option Schema) (row : Schema)
      (r : FrameReader Schema Ctx)
      → relid < oid_mod
      → other ≢ relid
      → let r' = schema_list_replace relid key row r in
        (schema_list_lookup r' relid ≡ some (replaced relid key row r))
        × (schema_list_lookup r' other ≡ schema_list_lookup r other)
  unfolding schema_list_replace schema_list_lookup
  lookup-replace relid other key row r small ne =
      lookup-store relid other (find_schema r.schemas relid) _ r refl (omega arith) ne

  -- The array has room for the schemas that it holds, and its size is a positive `int`.
  abbrev pub Fits : FrameReader Schema Ctx → Type 0
  Fits r = (0 < r.capacity) × (length r.schemas ≤ r.capacity) × (r.capacity < 2 ^ 31)

  store-Fits :
      (relid : ℕ) (found : Option (SchemaListEntry Schema)) (e : SchemaListEntry Schema)
      (r : FrameReader Schema Ctx)
      → length r.schemas < 2 ^ 29
      → Fits r
      → Fits (store_entry relid found e r)
  unfolding store_entry schema_list_entry_new
  store-Fits relid none e r few fits = (
    ground (arith, few, fits),
    ground (arith, few, fits, length-append r.schemas (e ∷ [])),
    ground (arith, few, fits),
  )
  store-Fits relid (some old) e r few fits =
      (fits.0, omega (arith, fits.1, length-overwrite relid e r.schemas), fits.2)

  -- If the array has room for the schemas that it holds, fewer than 2 ^ 29 of them, and its size is a
  -- positive `int`, then this is so after a replacement too: nothing is written past the end of the
  -- array, and its size does not overflow.
  pub replace-Fits :
      (relid : ℕ) (key : Option Schema → Option Schema) (row : Schema) (r : FrameReader Schema Ctx)
      → length r.schemas < 2 ^ 29
      → Fits r
      → Fits (schema_list_replace relid key row r)
  unfolding schema_list_replace
  replace-Fits relid key row r few fits = store-Fits relid (schema_list_lookup r relid) _ r few fits

  store-active :
      (relid : ℕ) (found : Option (SchemaListEntry Schema)) (e : SchemaListEntry Schema)
      (r : FrameReader Schema Ctx)
      → (store_entry relid found e r).active_schema_list ≡ r.active_schema_list
  unfolding store_entry schema_list_entry_new
  store-active relid none e r = refl
  store-active relid (some old) e r = refl

  -- The list of active tables is not touched.
  pub replace-active :
      (relid : ℕ) (key : Option Schema → Option Schema) (row : Schema) (r : FrameReader Schema Ctx)
      → (schema_list_replace relid key row r).active_schema_list ≡ r.active_schema_list
  unfolding schema_list_replace
  replace-active relid key row r = store-active relid (schema_list_lookup r relid) _ r

  store-context :
      (relid : ℕ) (found : Option (SchemaListEntry Schema)) (e : SchemaListEntry Schema)
      (r : FrameReader Schema Ctx)
      → (store_entry relid found e r).cb_context ≡ r.cb_context
  unfolding store_entry schema_list_entry_new
  store-context relid none e r = refl
  store-context relid (some old) e r = refl

  -- Nor is the program's own state.
  pub replace-context :
      (relid : ℕ) (key : Option Schema → Option Schema) (row : Schema) (r : FrameReader Schema Ctx)
      → (schema_list_replace relid key row r).cb_context ≡ r.cb_context
  unfolding schema_list_replace
  replace-context relid key row r = store-context relid (schema_list_lookup r relid) _ r
