-- ===== src/Kafka/Program/Leaves.antt =====
-- What the frame reader's steps leave of the producer's context, before and around a callback.
use bottledwater_pg.Prelude.{
  ℕ, ◌≡◌, refl, Option, none, some, List, ◌==◌, Bool-cases, Option-cases, Result-cases, inl, inr,
}
use bottledwater_pg.Prelude.Run.{Run, running, Holds, Holds-bind, Holds-after, Holds-of}
use bottledwater_pg.Client.Frames.{
  Avro, SchemaListEntry, State, schema_list_replace, store_entry, schema_list_entry_new, active,
  on_context, called, frame_reader_handle, check_handle, then_read, read_entirely,
  schema_list_lookup,
}
use bottledwater_pg.Client.Process.{with_entry, then_read_key, then_read_old}
use bottledwater_pg.Kafka.Json.{Libavro}
use bottledwater_pg.Kafka.Producer.{Context, handle_error}
use bottledwater_pg.Kafka.Producer.Callbacks.{on_client_error}
use bottledwater_pg.Kafka.Program.{Surroundings, init_client}

module _ (libavro : Libavro) (avro : Avro) (around : Surroundings libavro) where
  open libavro use {Schema}

  abbrev pub Reader : Type 0
  Reader = State avro (init_client libavro around)

  -- What holds of the context after a handler.
  abbrev pub Leaves : (Context Schema → Type 0) → ℕ × Reader → Type 0
  Leaves P x = P x.1.cb_context

  on_context-Leaves :
      (P : Context Schema → Type 0) (r : Reader) (f : Context Schema → Run (ℕ × Context Schema))
      → ((error : ℕ) (c : Context Schema) → f r.cb_context ≡ running (error, c) → P c)
      → Holds (Leaves P) (on_context avro (init_client libavro around) r f)
  on_context-Leaves P r f k =
      Holds-bind (λ x. P x.1) (Leaves P) (f r.cb_context) _
        (Holds-of (λ x. P x.1) (f r.cb_context) (λ x e. k x.0 x.1 e)) (λ x p. p)

  pub handle-Leaves :
      (P : Context Schema → Type 0) (e : ℕ) (r : Reader)
      → P r.cb_context
      → Holds (Leaves P) (frame_reader_handle avro (init_client libavro around) e r)
  unfolding frame_reader_handle init_client on_client_error
  handle-Leaves P e r p =
      Holds-bind (λ x. P x.1) (Leaves P) (on_client_error e r.cb_context) _
        (Holds-after (λ x. P x.1) (handle_error r.cb_context) _ (λ z. p)) (λ x q. q)

  check_handle-Leaves :
      (P : Context Schema → Type 0) (m : Run (ℕ × Reader))
      → Holds (Leaves P) m
      → Holds (Leaves P) (check_handle avro (init_client libavro around) m)
  unfolding check_handle
  check_handle-Leaves P m h = Holds-bind (Leaves P) (Leaves P) m _ h (λ (e, r) p.
      elim (Bool-cases (e == 0)) [
        | inl fine ↦ rw fine p
        | inr failed ↦ rw failed (handle-Leaves P e r p)
      ])

  -- Reading values before a callback: what is left if a read fails for good holds already.
  module _ (P Q : Context Schema → Type 0) (less : (c : Context Schema) → P c → Q c) where
    abbrev Continues : (Reader → Run (ℕ × Reader)) → Type 0
    Continues next = (r : Reader) → P r.cb_context → Holds (Leaves Q) (next r)

    pub then_read-Leaves :
        (s : avro.Schema) (buf : List ℕ) (next : Reader → Run (ℕ × Reader))
        → Continues next
        → Continues (λ r. then_read avro (init_client libavro around) s buf r next)
    unfolding then_read
    then_read-Leaves s buf next k r p =
        elim (Result-cases (read_entirely avro (init_client libavro around) s buf)) [
          | inl (u, whole) ↦ rw (whole, then_read) (k r p)
          | inr (e, broken) ↦
              rw (broken, then_read)
                (Holds-bind (Leaves P) (Leaves Q)
                  (frame_reader_handle avro (init_client libavro around) e r) _
                  (handle-Leaves P e r p)
                  (λ (e', r') p'. elim (Bool-cases (e' == 0)) [
                    | inl fine ↦ rw fine (k r' p')
                    | inr failed ↦ rw failed (less r'.cb_context p')
                  ]))
        ]

    pub then_read_key-Leaves :
        (s : Option avro.Schema) (key : Option (List ℕ)) (next : Reader → Run (ℕ × Reader))
        → Continues next
        → Continues (λ r. then_read_key avro (init_client libavro around) s key r next)
    unfolding then_read_key
    then_read_key-Leaves s none next k r p = k r p
    then_read_key-Leaves none (some key) next k r p = tt
    then_read_key-Leaves (some s) (some key) next k r p = then_read-Leaves s key next k r p

    pub then_read_old-Leaves :
        (s : avro.Schema) (old : Option (List ℕ)) (next : Reader → Run (ℕ × Reader))
        → Continues next
        → Continues (λ r. then_read_old avro (init_client libavro around) s old r next)
    unfolding then_read_old
    then_read_old-Leaves s none next k r p = k r p
    then_read_old-Leaves s (some old) next k r p = then_read-Leaves s old next k r p

    pub with_entry-Leaves :
        (relid : ℕ) (f : SchemaListEntry avro.Schema → Reader → Run (ℕ × Reader)) (r : Reader)
        → ((e : SchemaListEntry avro.Schema) → Continues (f e))
        → P r.cb_context
        → Holds (Leaves Q) (with_entry avro (init_client libavro around) relid r (λ e. f e r))
    unfolding with_entry
    with_entry-Leaves relid f r k p = elim (Bool-cases (active r.active_schema_list relid)) [
      | inr inactive ↦ rw inactive (less r.cb_context p)
      | inl listed ↦ elim (Option-cases (schema_list_lookup r relid)) [
        | inl unknown ↦ rw (listed, unknown, with_entry) (handle-Leaves Q _ r (less r.cb_context p))
        | inr (e, known) ↦ rw (listed, known, with_entry) (k e r p)
      ]
    ]

  -- A callback, when its result is one that the producer can reach.
  pub callback-Leaves :
      (P : Context Schema → Type 0) (r : Reader) (f : Context Schema → Run (ℕ × Context Schema))
      → ((error : ℕ) (c : Context Schema) → f r.cb_context ≡ running (error, c) → P c)
      → Holds (Leaves P) (
          check_handle avro
            (init_client libavro around)
            (called avro (init_client libavro around) r (some f)))
  callback-Leaves P r f k = check_handle-Leaves P _ (on_context-Leaves P r f k)

  pub replaced-context :
      (relid : ℕ) (key : Option avro.Schema → Option avro.Schema) (row : avro.Schema) (r : Reader)
      → (schema_list_replace relid key row r).cb_context ≡ r.cb_context
  unfolding schema_list_replace store_entry schema_list_entry_new
  replaced-context relid key row r = elim (Option-cases (schema_list_lookup r relid)) [
    | inl unknown ↦ rw (unknown, store_entry) refl
    | inr (old, known) ↦ rw (known, store_entry) refl
  ]
