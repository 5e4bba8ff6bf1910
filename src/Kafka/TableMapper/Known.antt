-- ===== src/Kafka/TableMapper/Known.antt =====
-- What a lookup finds after `table_mapper_update`.
use bottledwater_pg.Prelude.{
  ℕ, ◌<◌, ◌≡◌, ◌≢◌, refl, ◌∙◌, Bool, true, false, not, Option, some, List, length,
  get_or-append_last, get_or, arith, inl, inr, Option-cases, Result,
}
use bottledwater_pg.Kafka.Registry.{Registry, Reply}
use bottledwater_pg.Kafka.TableMapper.{
  Table, Mapper, Answers, is_live, find, lookup, new_table, update_topic, update_schema,
}
use bottledwater_pg.Kafka.TableMapper.Lookup.{
  IsUnique, find-lt-length, live_of_find, find-set_ne, find-set_self, find-append_ne,
  find-append_self, IsUnique-set, IsUnique-append,
}
use bottledwater_pg.Kafka.TableMapper.Update.{
  Schemas, locate, update_schemas, update_record, update,
}

module _ {Schema : Type 0} where
  -- The two fields by which a lookup goes are the same.
  abbrev SameKey : Table Schema → Table Schema → Type 0
  SameKey t t' = (t'.relid ≡ t.relid) × (t'.deleted ≡ t.deleted)

  SameKey-update_topic :
      (prefix : Option (List ℕ)) (h : Option ℕ) (name : List ℕ) (t : Table Schema) (closed : List ℕ)
      → SameKey t (update_topic prefix h name t closed).1
  unfolding update_topic
  SameKey-update_topic prefix h name t closed = (ground arith, ground arith)

module _ {Schema : Type 0} (from_json : List ℕ → Result Schema) where
  SameKey-update_schema :
      (g : Option Registry) (k : Bool) (json : Option (List ℕ)) (r : Reply) (t : Table Schema)
      → SameKey t (update_schema from_json g k json r t).1
  unfolding update_schema
  SameKey-update_schema g k json r t = (ground arith, ground arith)

  -- The relid stays; the record is in use after exactly the successful updates of one in use.
  update_record-key :
      (g : Option Registry) (prefix : Option (List ℕ)) (a : Answers) (x : Schemas)
      (t : Table Schema) (closed : List ℕ)
      → t.deleted ≡ false
      → let (done, t', closed') = update_record from_json g prefix a x t closed in
        (t'.relid ≡ t.relid) × (t'.deleted ≡ not done)
  unfolding update_record update_topic update_schemas
  update_record-key g prefix a x t closed h =
      let t₁ = (update_topic prefix a.new_handle x.name t closed).1 in
      let t₂ = (update_schema from_json g true x.key_json a.key_reply t₁).1 in
      (
        ground (
          arith,
          SameKey-update_topic prefix a.new_handle x.name t closed,
          SameKey-update_schema g true x.key_json a.key_reply t₁,
          SameKey-update_schema g false x.row_json a.row_reply t₂,
        ),
        ground (
          arith,
          SameKey-update_topic prefix a.new_handle x.name t closed,
          SameKey-update_schema g true x.key_json a.key_reply t₁,
          SameKey-update_schema g false x.row_json a.row_reply t₂,
        ),
      )

module _ {Schema : Type 0} where
  live_relid : (r : ℕ) (t : Table Schema) → is_live r t ≡ true → t.relid ≡ r
  live_relid r t h = ground arith

  live_deleted : (r : ℕ) (t : Table Schema) → is_live r t ≡ true → t.deleted ≡ false
  live_deleted r t h = ground arith

  -- The record to update stands where the lookup finds it, and no other lookup has changed.
  record Located (m : Mapper Schema) (r : ℕ) (i : ℕ) (m' : Mapper Schema) : Type 0 where
    found : find r m'.tables ≡ some i
    live : is_live r (get_or m'.tables i (new_table r)) ≡ true
    unique : IsUnique m'.tables
    others : (q : ℕ) → r ≢ q → find q m'.tables ≡ find q m.tables

  Located-locate :
      (m : Mapper Schema) (r : ℕ) → IsUnique m.tables → Located m r (locate m r).0 (locate m r).1
  unfolding locate lookup
  Located-locate m r u = elim (Option-cases (find r m.tables)) [
    | inl e ↦
        rw (e, locate)
          (record {
            found =
                find-append_self m.tables (new_table r) (unfold new_table in e)
                  (unfold new_table in refl);
            live = rw get_or-append_last (unfold new_table in ground arith);
            unique = IsUnique-append m.tables (new_table r) u (unfold new_table in e);
            others = λ q ne. find-append_ne q m.tables (new_table r) (unfold new_table in ne);
          })
    | inr (i, e) ↦
        rw (e, locate)
          (record {
            found = e;
            live = live_of_find r m.tables i (new_table r) e;
            unique = u;
            others = λ q ne. refl;
          })
  ]

  -- The record to update stands in the array.
  pub in_range :
      (r : ℕ) (m : Mapper Schema)
      → IsUnique m.tables
      → (locate m r).0 < length (locate m r).1.tables
  in_range r m u =
      find-lt-length r (locate m r).1.tables (locate m r).0 (Located-locate m r u).found

module _ {Schema : Type 0} (from_json : List ℕ → Result Schema) where
  -- In a mapper with at most one record in use for each relid, `table_mapper_update` keeps that; a
  -- lookup of the relid then finds exactly what the update returned, the record on success and
  -- nothing on failure, and a lookup of another relid finds what it found before.
  pub update-lookup :
      (a : Answers) (r q : ℕ) (x : Schemas) (m : Mapper Schema)
      → r ≢ q
      → IsUnique m.tables
      → let (found, m') = update from_json a r x m in
        (lookup m' r ≡ found) × (lookup m' q ≡ lookup m q) × IsUnique m'.tables
  unfolding update lookup
  update-lookup a r q x m ne u =
      let i = (locate m r).0 in
      let m' = (locate m r).1 in
      let t = get_or m'.tables i (new_table r) in
      let h = Located-locate m r u in
      let t' = (update_record from_json m.registry m.topic_prefix a x t m.closed).1 in
      let k =
        update_record-key from_json m.registry m.topic_prefix a x t m.closed
          (live_deleted r t h.live) in
      let e : t'.relid ≡ r = k.0 ∙ live_relid r t h.live in
      (
        ground (arith, find-set_self r m'.tables i t' h.unique e h.found),
        find-set_ne r q m'.tables i t' ne e h.found ∙ h.others q ne,
        IsUnique-set r m'.tables i t' h.unique e h.found,
      )
