-- ===== src/Ext/Export.antt =====
-- ext/snapshot.c: `bottledwater_export`, which gives one frame for each row of the exported tables.
pub mod Snapshot
pub mod Listing
pub mod Texts
pub mod Tests
use bottledwater_pg.Prelude.{
  ℕ, zero, suc, ◌+◌, ◌≡◌, Bool, true, false, not, ◌&&◌, ◌||◌, Option, none, some, List, [], ◌∷◌,
  ◌++◌, length, get_elem?, ltb, ◌==◌, if◌then◌else◌, Result, ok, err,
}
use bottledwater_pg.Ext.Backend.{Backend, returned, aborted, crashed, ◌>>=◌}
use bottledwater_pg.Ext.Writing.{MemoryWriter, try_writing, writes}
use bottledwater_pg.Ext.Policy.{Policy, error_policy_handle}
use bottledwater_pg.Ext.Tables.{
  Attribute, Relation, RecordSchema, Catalog, schema_for_table_key, schema_for_table_row,
}
use bottledwater_pg.Ext.SchemaCache.{Cache}
use bottledwater_pg.Ext.Datum.Values.{Postgres}
use bottledwater_pg.Ext.Rows.{Tuple, AvroValues}
use bottledwater_pg.Ext.Frames.{Frame, Encoding, Out, update_frame_with_insert}
use bottledwater_pg.Ext.Decoder.{FrameWriter}

-- A row of the query in `get_table_list`, each field null or not.
pub record TableRow : Type 0 where
  pub oid : Option ℕ
  pub nspname : Option (List ℕ)
  pub table_name : Option (List ℕ)
  pub relreplident : Option ℕ
  pub indname : Option (List ℕ)

-- `export_table`
pub record ExportTable : Type 0 where
  pub relid : ℕ
  pub rel : Relation
  pub namespace : List ℕ
  pub rel_name : List ℕ
  pub repl_ident : ℕ
  pub index_name : Option (List ℕ)

abbrev pub relid_taken : ℕ → List ExportTable → Bool
relid_taken relid [] = false
relid_taken relid (t ∷ ts) = (relid == t.relid) || relid_taken relid ts

abbrev pub is_keyed : ExportTable → Bool
is_keyed t = elim t.index_name [ none ↦ false | some name ↦ true ]

abbrev table_of_fields :
    (ℕ → Relation)
    → Option ℕ
    → Option (List ℕ)
    → Option (List ℕ)
    → Option ℕ
    → Option (List ℕ)
    → Option ExportTable
table_of_fields relation_open (some relid) (some namespace) (some rel_name) (some repl_ident)
      index_name =
    some (record {
      relid = relid;
      rel = relation_open relid;
      namespace = namespace;
      rel_name = rel_name;
      repl_ident = repl_ident;
      index_name = index_name;
    })
table_of_fields relation_open _ _ _ _ index_name = none

-- A row of the query as a table, unless a field that must not be null is.
unfoldable pub table_of_row : (ℕ → Relation) → TableRow → Option ExportTable
table_of_row relation_open row =
    table_of_fields relation_open row.oid row.nspname row.table_name row.relreplident row.indname

-- The loop over the rows of the query, after `tables`: the tables, and whether each has a key.
unfoldable pub list_tables :
    (ℕ → Relation) → List TableRow → List ExportTable → Bool → Backend (List ExportTable × Bool)
unfolding table_of_row
list_tables relation_open [] tables keyed = returned (tables, keyed)
list_tables relation_open (row ∷ rows) tables keyed = elim (table_of_row relation_open row) [
  | none ↦ aborted
  | some t ↦
      let rest = list_tables relation_open rows (tables ++ (t ∷ [])) (keyed && is_keyed t) in
      if relid_taken t.relid tables then aborted else rest
]

abbrev pub allowed : Bool → List ExportTable × Bool → Backend (List ExportTable)
allowed allow_unkeyed (tables, keyed) =
    if not keyed && not allow_unkeyed then aborted else returned tables

-- Of what `relation_open` gives and the rows of the query.
unfoldable pub get_table_list : (ℕ → Relation) → List TableRow → Bool → Backend (List ExportTable)
unfolding list_tables
get_table_list relation_open rows allow_unkeyed =
    list_tables relation_open rows [] true >>= allowed allow_unkeyed

module _ (w : MemoryWriter) (fw : FrameWriter w) (pg : Postgres) where
  -- `export_state`. `cursor` holds the rows that the open cursor has left.
  pub record ExportState : Type 0 where
    pub tables : List ExportTable
    pub current_table : ℕ
    pub schema_cache : Cache
    pub error_policy : Policy
    pub cursor : List (Tuple pg)

  -- What a call gives: a frame, or the end of the set. `running` is out of fuel.
  pub data Call : Type 0 where
    next : List ℕ → ExportState → Call
    finished : ExportState → Call
    running : Call

  -- What Postgres holds: the rows that a cursor over a table yields, and the columns of its result.
  pub record Contents : Type 0 where
    pub rows_of : ExportTable → List (Tuple pg)
    pub result_attrs : ExportTable → List Attribute

  abbrev pub opened : Contents → Option ExportTable → List (Tuple pg)
  opened contents none = []
  opened contents (some t) = contents.rows_of t

  -- With no table left the cursor is not used again.
  unfoldable pub open_next_table : Contents → ExportState → ExportState
  open_next_table contents st = record st {
    cursor = opened contents (get_elem? st.tables st.current_table);
  }

  unfoldable pub close_current_table : Contents → ExportState → ExportState
  unfolding open_next_table
  close_current_table contents st =
      open_next_table contents (record st { current_table = st.current_table + 1 })

  module _ (k : Catalog) (values : AvroValues pg.Float) (enc : Encoding pg.Float)
      (contents : Contents) where
    abbrev pub unless_exit {ℓ} : {A : Type ℓ} → Option {0} Unit → Backend A → Backend A
    unless_exit none rest = aborted
    unless_exit (some u) rest = rest

    abbrev pub output_of : Policy → Cache → Result (List ℕ) → Backend (Option (List ℕ) × Cache)
    output_of policy cache (ok output) = returned (some output, cache)
    output_of policy cache (err e) =
        unless_exit (error_policy_handle policy) (returned (none, cache))

    abbrev pub after_conversion : Policy → Backend Out → Backend (Option (List ℕ) × Cache)
    after_conversion policy aborted = aborted
    after_conversion policy crashed = crashed
    after_conversion policy (returned (e, frame, cache)) =
        let rest = output_of policy cache (try_writing w (fw.write_avro_binary frame)) in
        if e == 0 then rest else unless_exit (error_policy_handle policy) rest

    -- The frame of a row, unless its writing failed and the policy is to log, and the schema cache.
    unfoldable pub format_snapshot_row :
        Policy → Cache → ExportTable → Tuple pg → Backend (Option (List ℕ) × Cache)
    format_snapshot_row policy cache table tuple = after_conversion policy (
        update_frame_with_insert k w pg values enc table.rel (contents.result_attrs table) tuple []
          cache)

    abbrev pub emit :
        ExportState → (ExportState → Backend Call) → Option (List ℕ) × Cache → Backend Call
    emit st again (none, cache) = again (record st { schema_cache = cache })
    emit st again (some output, cache) =
        returned (Call.next output (record st { schema_cache = cache }))

    abbrev pub format_current :
        ExportState → Option ExportTable → Tuple pg → Backend (Option (List ℕ) × Cache)
    format_current st none tuple = crashed
    format_current st (some table) tuple =
        format_snapshot_row st.error_policy st.schema_cache table tuple

    -- One round of the loop, over what the cursor has left.
    abbrev pub fetch : ExportState → (ExportState → Backend Call) → List (Tuple pg) → Backend Call
    fetch st again [] = again (close_current_table contents st)
    fetch st again (tuple ∷ left) = do
      formatted ← format_current st (get_elem? st.tables st.current_table) tuple
      emit (record st { cursor = left }) again formatted

    -- One call of the function after the first one's preparation, on fuel.
    unfoldable pub bottledwater_export : ℕ → ExportState → Backend Call
    bottledwater_export zero st = returned Call.running
    bottledwater_export (suc n) st =
        let round = fetch st (λ st'. bottledwater_export n st') st.cursor in
        if ltb st.current_table (length st.tables) then round else returned (Call.finished st)

    -- Postgres calls the function until the set ends. `none` is out of fuel, of the calls or of one
    -- call.
    abbrev pub prepend_output :
        List ℕ → Backend (Option (List (List ℕ))) → Backend (Option (List (List ℕ)))
    prepend_output output (returned (some outputs)) = returned (some (output ∷ outputs))
    prepend_output output other = other

    abbrev pub and_later :
        (ExportState → Backend (Option (List (List ℕ))))
        → Backend Call
        → Backend (Option (List (List ℕ)))
    and_later later aborted = aborted
    and_later later crashed = crashed
    and_later later (returned (Call.next output st)) = prepend_output output (later st)
    and_later later (returned (Call.finished st)) = returned (some [])
    and_later later (returned Call.running) = returned none

    unfoldable pub all_calls : ℕ → ℕ → ExportState → Backend (Option (List (List ℕ)))
    unfolding bottledwater_export
    all_calls fuel zero st = returned none
    all_calls fuel (suc n) st =
        and_later (λ st'. all_calls fuel n st') (bottledwater_export fuel st)

  -- What the first call prepares, with the tables and the policy.
  unfoldable pub first_call : Contents → List ExportTable → Policy → ExportState
  unfolding open_next_table
  first_call contents tables policy = open_next_table contents (record {
    tables = tables;
    current_table = 0;
    schema_cache = λ relid. none;
    error_policy = policy;
    cursor = [];
  })
