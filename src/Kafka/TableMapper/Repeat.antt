-- ===== src/Kafka/TableMapper/Repeat.antt =====
-- A repeated update changes nothing.
use bottledwater_pg.Prelude.{
  suc, ℕ, ◌<◌, ◌≡◌, ◌≢◌, refl, ap, subst, ◌∙◌, Bool, true, false, Option, none, some, List, [],
  length, get_or-append_last, get_or-set_self, set-set, get_or, set, arith, inl, inr, Option-cases,
  Result, str_eq_refl, str_eq→eq,
}
use mathlib.Core.Option as P
use bottledwater_pg.Kafka.Registry.{Registry, Reply}
use bottledwater_pg.Kafka.TableMapper.{
  Table, Mapper, Answers, lookup, new_table, update_topic, update_schema,
}
use bottledwater_pg.Kafka.TableMapper.Lookup.{IsUnique}
use bottledwater_pg.Kafka.TableMapper.Known.{update-lookup, in_range}
use bottledwater_pg.Kafka.TableMapper.Update.{
  Schemas, locate, update_schemas, update_record, update,
}

module _ {Schema : Type 0} where
  -- A table with a topic has a name.
  abbrev pub IsNamed : Table Schema → Type 0
  IsNamed t = t.topic ≢ none → t.table_name ≢ none

  -- After a successful step the table has the name, and a topic.
  update_topic-some :
      (prefix : Option (List ℕ)) (h : Option ℕ) (name : List ℕ) (t : Table Schema) (closed : List ℕ)
      (t' : Table Schema) (closed' : List ℕ)
      → IsNamed t
      → update_topic prefix h name t closed ≡ (0, t', closed')
      → (t'.table_name ≡ some name) × (t'.topic ≢ none)
  unfolding update_topic
  update_topic-some prefix h name t closed t' closed' n e =
      (ground (arith, str_eq→eq name (P.get_or t.table_name [])), ground arith)

  update_topic_again :
      (prefix : Option (List ℕ)) (h : Option ℕ) (name : List ℕ) (t : Table Schema) (closed : List ℕ)
      → t.table_name ≡ some name
      → t.topic ≢ none
      → update_topic prefix h name t closed ≡ (0, t, closed)
  unfolding update_topic
  update_topic_again prefix h name t closed n e = ground (arith, str_eq_refl name)

module _ {Schema : Type 0} (from_json : List ℕ → Result Schema) where
  update_schema_again :
      (g : Option Registry) (k : Bool) (json : Option (List ℕ)) (r : Reply) (t t' : Table Schema)
      → update_schema from_json g k json r t ≡ (0, t')
      → update_schema from_json g k json r t' ≡ (0, t')
  unfolding update_schema
  update_schema_again g true json r t t' e = ground arith
  update_schema_again g false json r t t' e = ground arith

  -- The row's step keeps all but the row's fields.
  record RowOnly (t t' : Table Schema) : Type 0 where
    name : t'.table_name ≡ t.table_name
    topic : t'.topic ≡ t.topic
    key_id : t'.key_schema_id ≡ t.key_schema_id
    key : t'.key_schema ≡ t.key_schema

  RowOnly-update_schema :
      (g : Option Registry) (json : Option (List ℕ)) (r : Reply) (t : Table Schema)
      → RowOnly t (update_schema from_json g false json r t).1
  unfolding update_schema
  RowOnly-update_schema g json r t = record {
    name = ground arith;
    topic = ground arith;
    key_id = ground arith;
    key = ground arith;
  }

  name_kept :
      (g : Option Registry) (json : Option (List ℕ)) (r : Reply) (t : Table Schema)
      → let t' = (update_schema from_json g true json r t).1 in
        (t'.table_name ≡ t.table_name) × (t'.topic ≡ t.topic)
  unfolding update_schema
  name_kept g json r t = (ground arith, ground arith)

  -- The key's step reads and writes the key's fields and the topic alone.
  key_step :
      (g : Option Registry) (json : Option (List ℕ)) (r : Reply) (t t' : Table Schema)
      → RowOnly t t'
      → update_schema from_json g true json r t ≡ (0, t)
      → update_schema from_json g true json r t' ≡ (0, t')
  unfolding update_schema
  key_step none none r t t' o e = ground arith
  key_step none (some j) r t t' o e = ground arith
  key_step (some g) none r t t' o e = ground arith
  key_step (some g) (some j) r t t' o e = ground arith

  update_schemas_again :
      (g : Option Registry) (a : Answers) (x : Schemas) (t t' : Table Schema)
      → update_schemas from_json g a x t ≡ (true, t')
      → (update_schemas from_json g a x t' ≡ (true, t'))
        × (t'.table_name ≡ t.table_name)
        × (t'.topic ≡ t.topic)
  unfolding update_schemas
  update_schemas_again g a x t t' e =
      let t₁ = (update_schema from_json g true x.key_json a.key_reply t).1 in
      let first : update_schema from_json g true x.key_json a.key_reply t ≡ (0, t₁) =
        ground arith in
      let second : update_schema from_json g false x.row_json a.row_reply t₁ ≡ (0, t') =
        ground arith in
      let o : RowOnly t₁ t' =
        rw (← ap (λ (p : ℕ × Table Schema). p.1) second)
          (RowOnly-update_schema g x.row_json a.row_reply t₁) in
      let key : update_schema from_json g true x.key_json a.key_reply t' ≡ (0, t') =
        key_step g x.key_json a.key_reply t₁ t' o
          (update_schema_again g true x.key_json a.key_reply t t₁ first) in
      let row : update_schema from_json g false x.row_json a.row_reply t' ≡ (0, t') =
        update_schema_again g false x.row_json a.row_reply t₁ t' second in
      let n = name_kept g x.key_json a.key_reply t in
      (ground (arith, key, row), o.name ∙ n.0, o.topic ∙ n.1)

  update_record_again :
      (g : Option Registry) (prefix : Option (List ℕ)) (a : Answers) (x : Schemas)
      (t : Table Schema) (closed : List ℕ) (t' : Table Schema) (closed' : List ℕ)
      → IsNamed t
      → update_record from_json g prefix a x t closed ≡ (true, t', closed')
      → update_record from_json g prefix a x t' closed' ≡ (true, t', closed')
  unfolding update_record
  update_record_again g prefix a x t closed t' closed' n e =
      let t₁ = (update_topic prefix a.new_handle x.name t closed).1 in
      let topic : update_topic prefix a.new_handle x.name t closed ≡ (0, t₁, closed') =
        ground arith in
      let schemas : update_schemas from_json g a x t₁ ≡ (true, t') = ground arith in
      let s = update_schemas_again g a x t₁ t' schemas in
      let p = update_topic-some prefix a.new_handle x.name t closed t₁ closed' n topic in
      let same : update_topic prefix a.new_handle x.name t' closed' ≡ (0, t', closed') =
        update_topic_again prefix a.new_handle x.name t' closed' (s.1 ∙ p.0) (rw s.2 p.1) in
      ground (arith, same, s.0)

module _ {Schema : Type 0} where
  locate_found : (m : Mapper Schema) (r i : ℕ) → lookup m r ≡ some i → locate m r ≡ (i, m)
  unfolding locate
  locate_found m r i h = ground arith

  locate-IsNamed :
      (m : Mapper Schema) (r : ℕ)
      → ((j : ℕ) → IsNamed (get_or m.tables j (new_table r)))
      → IsNamed (get_or (locate m r).1.tables (locate m r).0 (new_table r))
  unfolding locate
  locate-IsNamed m r n = elim (Option-cases (lookup m r)) [
    | inl e ↦ rw (e, locate, get_or-append_last) (unfold new_table in λ h. absurd (h refl))
    | inr (i, e) ↦ rw (e, locate) (n i)
  ]

  -- Finding the record leaves the rest of the mapper alone.
  locate_keeps :
      (m : Mapper Schema) (r : ℕ)
      → let m₁ = (locate m r).1 in
        (m₁.registry ≡ m.registry) × (m₁.topic_prefix ≡ m.topic_prefix) × (m₁.closed ≡ m.closed)
  unfolding locate
  locate_keeps m r = (ground arith, ground arith, ground arith)

module _ {Schema : Type 0} (from_json : List ℕ → Result Schema) where
  update_fixed :
      (a : Answers) (r : ℕ) (x : Schemas) (m : Mapper Schema) (i : ℕ) (t : Table Schema)
      → locate m r ≡ (i, m)
      → get_or m.tables i (new_table r) ≡ t
      → update_record from_json m.registry m.topic_prefix a x t m.closed ≡ (true, t, m.closed)
      → set m.tables i t ≡ m.tables
      → update from_json a r x m ≡ (some i, m)
  unfolding update
  update_fixed a r x m i t there here same back = rw (there, here, same, back)

  -- A successful update that is repeated with the same arguments and the same replies of the
  -- registry returns the same record and changes nothing: no topic is opened or closed. (Of the
  -- mapper before: one record in use for each relid at most, and a name where there is a topic.)
  pub update_again :
      (a : Answers) (r : ℕ) (x : Schemas) (m : Mapper Schema) (i : ℕ) (m' : Mapper Schema)
      → IsUnique m.tables
      → ((j : ℕ) → IsNamed (get_or m.tables j (new_table r)))
      → update from_json a r x m ≡ (some i, m')
      → update from_json a r x m' ≡ (some i, m')
  unfolding update
  update_again a r x m i m' u n e =
      let i₀ = (locate m r).0 in
      let m₁ = (locate m r).1 in
      let t = get_or m₁.tables i₀ (new_table r) in
      let out = update_record from_json m.registry m.topic_prefix a x t m.closed in
      let t' = out.1 in
      let c' = out.2 in
      let done : out ≡ (true, t', c') = ground arith in
      let place : i ≡ i₀ = ground arith in
      let after : m' ≡ record m₁ { tables = set m₁.tables i₀ t'; closed = c' } = ground arith in
      let found : lookup m' r ≡ some i =
        subst (λ (p : Option ℕ × Mapper Schema). lookup p.1 r ≡ p.0) e
          (update-lookup from_json a r (suc r) x m (omega arith) u).0 in
      let there : locate m' r ≡ (i, m') = locate_found m' r i found in
      let inside : i < length m₁.tables = rw place (in_range r m u) in
      let kept : get_or m'.tables i (new_table r) ≡ t' =
        rw (after, place) (get_or-set_self m₁.tables i₀ t' (new_table r) (rw (← place) inside)) in
      let again : update_record from_json m.registry m.topic_prefix a x t' c' ≡ (true, t', c') =
        update_record_again from_json m.registry m.topic_prefix a x t m.closed t' c'
          (locate-IsNamed m r n) done in
      update_fixed a r x m' i t' there kept (ground (arith, again, locate_keeps m r))
        (rw (after, place) (set-set m₁.tables i₀ t' t'))
