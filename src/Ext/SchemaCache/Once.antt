-- ===== src/Ext/SchemaCache/Once.antt =====
-- A table's schemas are reported once for each change of the table.
use bottledwater_pg.Prelude.{
  ℕ, ◌≡◌, refl, ap, false, Option, none, some, str_eq_refl, arith, Bool-cases, inl, inr,
  Option-cases, err,
}
use bottledwater_pg.Ext.Tables.{Relation, Index, Catalog, table_key_index}
use bottledwater_pg.Ext.SchemaCache.{
  Schemas, Entry, Cache, put, Lookup, key_entry, make_schemas, schema_cache_entry_update,
  key_changed, schema_cache_entry_changed, updated, schema_cache_lookup,
}

module _ (k : Catalog) where
  key_unchanged : (i : Option Index) → key_changed k (key_entry k i) i ≡ false
  unfolding key_changed
  key_unchanged none = refl
  key_unchanged (some i) =
      rw
        (
          str_eq_refl i.index_name,
          str_eq_refl (k.get_namespace_name i.index_ns_id),
          k.equal_tuple_descs_refl i.index_attrs,
        )
        (ground arith)

  -- An entry made of a table stands for the table as it is.
  update_unchanged :
      (rel : Relation) → schema_cache_entry_changed k (schema_cache_entry_update k rel) rel ≡ false
  unfolding schema_cache_entry_changed schema_cache_entry_update
  update_unchanged rel =
      rw
        (
          str_eq_refl rel.relname,
          str_eq_refl (k.get_namespace_name rel.ns_id),
          key_unchanged (table_key_index rel),
          k.equal_tuple_descs_refl rel.attrs,
        )
        (ground arith)

  found_unchanged :
      (rel : Relation) (cache : Cache) (e : Entry)
      → cache rel.relid ≡ some e
      → schema_cache_entry_changed k e rel ≡ false
      → schema_cache_lookup k rel cache ≡ (Lookup.unchanged e, cache)
  unfolding schema_cache_lookup
  found_unchanged rel cache e h same = rw (h, schema_cache_lookup, same) refl

  after_put :
      (rel : Relation) (cache : Cache)
      → let e = schema_cache_entry_update k rel in
        schema_cache_lookup k rel (put cache rel.relid e)
        ≡ (Lookup.unchanged e, put cache rel.relid e)
  after_put rel cache =
      found_unchanged rel (put cache rel.relid (schema_cache_entry_update k rel))
        (schema_cache_entry_update k rel) (ground arith) (update_unchanged rel)

  abbrev pub entry_of : Lookup → Option Entry
  entry_of (Lookup.unchanged e) = some e
  entry_of (Lookup.changed e) = some e
  entry_of (Lookup.unseen e) = some e
  entry_of Lookup.not_updated = none
  entry_of Lookup.broken = none
  entry_of Lookup.not_created = none

  -- The cases of a lookup.
  pub data Outcome (rel : Relation) (cache : Cache) : Lookup × Cache → Type 0 where
    same :
        (e : Entry)
        → cache rel.relid ≡ some e
        → schema_cache_entry_changed k e rel ≡ false
        → Outcome rel cache (Lookup.unchanged e, cache)
    fails :
        (r : Lookup)
        → entry_of r ≡ none
        → Outcome rel cache (r, put cache rel.relid (schema_cache_entry_update k rel))
    breaks : Outcome rel cache (Lookup.broken, cache)
    makes :
        (r : Lookup) (s : Schemas)
        → entry_of r ≡ some (schema_cache_entry_update k rel)
        → (schema_cache_entry_update k rel).schemas ≡ some s
        → Outcome rel cache (r, put cache rel.relid (schema_cache_entry_update k rel))

  of_update :
      (rel : Relation) (cache : Cache) (done : Entry → Lookup) (failed : Lookup)
      → entry_of (done (schema_cache_entry_update k rel)) ≡ some (schema_cache_entry_update k rel)
      → entry_of failed ≡ none
      → (m : Option Schemas) → (schema_cache_entry_update k rel).schemas ≡ m
      → let e = schema_cache_entry_update k rel in
        Outcome rel cache (updated k done failed e m, put cache rel.relid e)
  of_update rel cache done failed d f none half = fails failed f
  of_update rel cache done failed d f (some s) whole = makes _ s d whole

  pub outcome :
      (rel : Relation) (cache : Cache) → Outcome rel cache (schema_cache_lookup k rel cache)
  unfolding schema_cache_lookup
  outcome rel cache = elim (Option-cases (cache rel.relid)) [
    | inl new ↦
        rw (new, schema_cache_lookup)
          (of_update rel cache Lookup.unseen Lookup.not_created refl refl _ refl)
    | inr (old, found) ↦ elim (Bool-cases (schema_cache_entry_changed k old rel)) [
      | inl other ↦ elim (Option-cases old.schemas) [
        | inl half ↦ rw (found, schema_cache_lookup, other, half) breaks
        | inr (s, whole) ↦
            rw (found, schema_cache_lookup, other, whole)
              (of_update rel cache Lookup.changed Lookup.not_updated refl refl _ refl)
      ]
      | inr same_still ↦ rw (found, schema_cache_lookup, same_still) (same old found same_still)
    ]
  ]

  again_after :
      (rel : Relation) (cache : Cache) (r : Lookup × Cache) (e : Entry)
      → Outcome rel cache r
      → entry_of r.0 ≡ some e
      → schema_cache_lookup k rel r.1 ≡ (Lookup.unchanged e, r.1)
  again_after rel cache r e (same d h u) g =
      let i : e ≡ d = ground arith in rw i (found_unchanged rel cache d h u)
  again_after rel cache r e (fails f n) g = absurd (ground arith)
  again_after rel cache r e breaks g = absurd (ground arith)
  again_after rel cache r e (makes f s d w) g =
      let i : e ≡ schema_cache_entry_update k rel = ground arith in rw i (after_put rel cache)

  -- After a lookup that gives an entry, the same table is unchanged with the same entry: its schemas
  -- are reported as new once.
  pub lookup_again :
      (rel : Relation) (cache : Cache) (e : Entry)
      → entry_of (schema_cache_lookup k rel cache).0 ≡ some e
      → let cache' = (schema_cache_lookup k rel cache).1 in
        schema_cache_lookup k rel cache' ≡ (Lookup.unchanged e, cache')
  lookup_again rel cache e g = again_after rel cache _ e (outcome rel cache) g

  numbered_after :
      (rel : Relation) (cache : Cache) (r : Lookup × Cache) (e : Entry)
      → Outcome rel cache r
      → entry_of r.0 ≡ some e
      → e.relid ≡ rel.relid
  unfolding schema_cache_entry_changed schema_cache_entry_update
  numbered_after rel cache r e (same d h u) g = let i : e ≡ d = ground arith in rw i (ground arith)
  numbered_after rel cache r e (fails f n) g = absurd (ground arith)
  numbered_after rel cache r e breaks g = absurd (ground arith)
  numbered_after rel cache r e (makes f s d w) g =
      let i : e ≡ schema_cache_entry_update k rel = ground arith in rw i refl

  -- The entry that a lookup gives has the table's number.
  pub lookup-relid :
      (rel : Relation) (cache : Cache) (e : Entry)
      → entry_of (schema_cache_lookup k rel cache).0 ≡ some e
      → e.relid ≡ rel.relid
  lookup-relid rel cache e g = numbered_after rel cache _ e (outcome rel cache) g

  -- When the schemas of a table that was not seen before cannot be made, the lookup reports the
  -- failure, but leaves its half made entry behind, which the next lookup gives as unchanged.
  pub lookup_half_made :
      (rel : Relation) (cache : Cache) (x : ℕ)
      → cache rel.relid ≡ none
      → make_schemas k rel ≡ err x
      → let (r, cache') = schema_cache_lookup k rel cache in
        (r ≡ Lookup.not_created)
        × (e : Entry) × ((schema_cache_lookup k rel cache').0 ≡ Lookup.unchanged e)
        × (e.schemas ≡ none)
  lookup_half_made rel cache x new failed =
      let e = schema_cache_entry_update k rel in
      let half : e.schemas ≡ none = unfold schema_cache_entry_update in rw failed refl in
      let first : schema_cache_lookup k rel cache ≡ (Lookup.not_created, put cache rel.relid e) =
        unfold schema_cache_lookup in rw (new, schema_cache_lookup, failed) refl in
      rw first (refl, e, ap (λ p. p.0) (after_put rel cache), half)
