-- ===== src/Ext/Export/Snapshot.antt =====
-- A snapshot holds each row of each table once, in order.
use bottledwater_pg.Prelude.{
  ℕ, zero, suc, ◌+◌, ◌-◌, ◌<◌, ◌≤◌, ◌≡◌, refl, ap, Option, none, some, List, [], ◌∷◌, ◌++◌, length,
  get_elem?, drop, ltb, arith, Bool-cases, inl, inr,
}
use bottledwater_pg.Ext.Backend.{Backend, returned, aborted, crashed, ◌>>=◌}
use bottledwater_pg.Ext.Writing.{MemoryWriter}
use bottledwater_pg.Ext.Policy.{Policy}
use bottledwater_pg.Ext.Tables.{Catalog}
use bottledwater_pg.Ext.SchemaCache.{Cache}
use bottledwater_pg.Ext.Datum.Values.{Postgres}
use bottledwater_pg.Ext.Rows.{Tuple, AvroValues}
use bottledwater_pg.Ext.Frames.{Encoding}
use bottledwater_pg.Ext.Decoder.{FrameWriter}
use bottledwater_pg.Ext.Export.{
  ExportTable, ExportState, Call, Contents, opened, open_next_table, close_current_table,
  format_snapshot_row, emit, fetch, bottledwater_export, prepend_output, and_later, all_calls,
  first_call,
}

drop-get :
    {A : Type 0} (xs : List A) (i : ℕ)
    → i < length xs
    → (x : A) × (get_elem? xs i ≡ some x) × (drop i xs ≡ x ∷ drop (suc i) xs)
drop-get [] i h = absurd (omega arith)
drop-get (x ∷ xs) zero h = (x, refl, refl)
drop-get (x ∷ xs) (suc i) h = drop-get xs i (omega arith)

drop_end : {A : Type 0} (xs : List A) (i : ℕ) → length xs ≤ i → drop i xs ≡ []
drop_end [] zero h = refl
drop_end [] (suc i) h = refl
drop_end (x ∷ xs) zero h = absurd (omega arith)
drop_end (x ∷ xs) (suc i) h = drop_end xs i (omega arith)

module _ (w : MemoryWriter) (fw : FrameWriter w) (pg : Postgres) where
  abbrev pub rows_with : ExportTable → List (Tuple pg) → List (ExportTable × Tuple pg)
  rows_with t [] = []
  rows_with t (r ∷ rs) = (t, r) ∷ rows_with t rs

  -- The rows of tables, each with its table.
  abbrev pub all_rows : Contents w fw pg → List ExportTable → List (ExportTable × Tuple pg)
  all_rows contents [] = []
  all_rows contents (t ∷ ts) = rows_with t (contents.rows_of t) ++ all_rows contents ts

  abbrev rows_from :
      Contents w fw pg → List ExportTable → List (Tuple pg) → List (ExportTable × Tuple pg)
  rows_from contents [] left = []
  rows_from contents (t ∷ ts) left = rows_with t left ++ all_rows contents ts

  -- What an export still has to give.
  abbrev pending : Contents w fw pg → ExportState w fw pg → List (ExportTable × Tuple pg)
  pending contents st = rows_from contents (drop st.current_table st.tables) st.cursor

  rows_from-opened :
      (contents : Contents w fw pg) (ts : List ExportTable) (i : ℕ)
      → rows_from contents (drop i ts) (opened w fw pg contents (get_elem? ts i))
        ≡ all_rows contents (drop i ts)
  rows_from-opened contents [] zero = refl
  rows_from-opened contents [] (suc i) = refl
  rows_from-opened contents (t ∷ ts) zero = refl
  rows_from-opened contents (t ∷ ts) (suc i) = rows_from-opened contents ts i

  module _ (k : Catalog) (values : AvroValues pg.Float) (enc : Encoding pg.Float)
      (contents : Contents w fw pg) where
    abbrev pub with_output : Option (List ℕ) → Backend (List (List ℕ)) → Backend (List (List ℕ))
    with_output none rest = rest
    with_output (some output) (returned outputs) = returned (output ∷ outputs)
    with_output (some output) aborted = aborted
    with_output (some output) crashed = crashed

    -- The rows are formatted one after the other, with one schema cache.
    unfoldable pub snapshot_rows :
        Policy → Cache → List (ExportTable × Tuple pg) → Backend (List (List ℕ))
    snapshot_rows policy cache [] = returned []
    snapshot_rows policy cache ((t, r) ∷ rest) = do
      (output, cache') ← format_snapshot_row w fw pg k values enc contents policy cache t r
      with_output output (snapshot_rows policy cache' rest)

    abbrev pub complete : Backend (List (List ℕ)) → Backend (Option (List (List ℕ)))
    complete (returned outputs) = returned (some outputs)
    complete aborted = aborted
    complete crashed = crashed

    abbrev expected : ExportState w fw pg → Backend (Option (List (List ℕ)))
    expected st = complete (snapshot_rows st.error_policy st.schema_cache (pending contents st))

    -- The rounds of the loop that are left.
    abbrev rounds : ExportState w fw pg → ℕ
    rounds st = (length st.tables - st.current_table) + length (pending contents st)

    prepend-complete :
        (output : List ℕ) (rest : Backend (List (List ℕ)))
        → prepend_output w fw pg k values enc contents output (complete rest)
          ≡ complete (with_output (some output) rest)
    prepend-complete output (returned outputs) = refl
    prepend-complete output aborted = refl
    prepend-complete output crashed = refl

    module _ (fuel : ℕ) where
      abbrev later : ℕ → Backend (Call w fw pg) → Backend (Option (List (List ℕ)))
      later n =
          and_later w fw pg k values enc contents
            (λ st. all_calls w fw pg k values enc contents fuel n st)

      abbrev again : ℕ → ExportState w fw pg → Backend (Call w fw pg)
      again n st = bottledwater_export w fw pg k values enc contents n st

      -- What a row leaves, if the rest of the loop and the later calls are right.
      after_row :
          (n calls : ℕ) (st : ExportState w fw pg) (left : List (ExportTable × Tuple pg))
          (m : Backend (Option (List ℕ) × Cache))
          → ((cache : Cache)
              → later calls (again n (record st { schema_cache = cache }))
                ≡ complete (snapshot_rows st.error_policy cache left))
          → ((cache : Cache)
              → all_calls w fw pg k values enc contents fuel calls
                  (record st { schema_cache = cache })
                ≡ complete (snapshot_rows st.error_policy cache left))
          → later calls (m >>= emit w fw pg k values enc contents st (again n))
            ≡ complete (m >>= λ x. with_output x.0 (snapshot_rows st.error_policy x.1 left))
      after_row n calls st left aborted loops comes = refl
      after_row n calls st left crashed loops comes = refl
      after_row n calls st left (returned (none, cache)) loops comes = loops cache
      after_row n calls st left (returned (some output, cache)) loops comes =
          rw (comes cache) (prepend-complete output (snapshot_rows st.error_policy cache left))

      next_table :
          (st : ExportState w fw pg)
          → st.cursor ≡ []
          → st.current_table < length st.tables
          → pending contents (close_current_table w fw pg contents st) ≡ pending contents st
      unfolding close_current_table open_next_table
      next_table st empty more =
          let (x, here, split) = drop-get st.tables st.current_table more in
          let step : st.current_table + 1 ≡ suc st.current_table = omega arith in
          let opens : pending contents (close_current_table w fw pg contents st)
              ≡ all_rows contents (drop (suc st.current_table) st.tables) =
            rw (← step) (rows_from-opened contents st.tables (st.current_table + 1)) in
          rw (opens, split, empty) refl

      next_row :
          (st : ExportState w fw pg) (tuple : Tuple pg) (left : List (Tuple pg))
          → st.cursor ≡ tuple ∷ left
          → st.current_table < length st.tables
          → (t : ExportTable) × (get_elem? st.tables st.current_table ≡ some t)
            × (pending contents st ≡ (t, tuple) ∷ pending contents (record st { cursor = left }))
      next_row st tuple left has more =
          let (x, here, split) = drop-get st.tables st.current_table more in
          (x, here, rw (split, has) refl)

      one_round :
          (n calls : ℕ) (st : ExportState w fw pg) (cursor : List (Tuple pg))
          → st.cursor ≡ cursor
          → st.current_table < length st.tables
          → rounds st < suc n
          → ((st' : ExportState w fw pg)
              → rounds st' < rounds st
              → later calls (again n st') ≡ expected st')
          → ((st' : ExportState w fw pg)
              → rounds st' < rounds st
              → all_calls w fw pg k values enc contents fuel calls st' ≡ expected st')
          → later calls (fetch w fw pg k values enc contents st (again n) cursor) ≡ expected st
      unfolding close_current_table open_next_table snapshot_rows
      one_round n calls st [] empty more enough loops comes =
          let same = next_table st empty more in
          let closed = close_current_table w fw pg contents st in
          let size : length (pending contents closed) ≡ length (pending contents st) =
            ap length same in
          let right = loops closed (omega (arith, size)) in rw same at right
      one_round n calls st (tuple ∷ left) has more enough loops comes =
          let (t, here, there) = next_row st tuple left has more in
          let st₁ : ExportState w fw pg = record st { cursor = left } in
          let size : length (pending contents st) ≡ suc (length (pending contents st₁)) =
            ap length there in
          let fewer : rounds st₁ < rounds st = omega (arith, size) in
          rw (here, there, snapshot_rows)
            (after_row n calls st₁ (pending contents st₁)
              (format_snapshot_row w fw pg k values enc contents st.error_policy st.schema_cache t
                tuple)
              (λ cache. loops (record st₁ { schema_cache = cache }) fewer)
              (λ cache. comes (record st₁ { schema_cache = cache }) fewer))

      -- One call and the calls after it, if these are right.
      from_call :
          (n calls : ℕ) (st : ExportState w fw pg)
          → rounds st < n
          → ((st' : ExportState w fw pg)
              → rounds st' < rounds st
              → all_calls w fw pg k values enc contents fuel calls st' ≡ expected st')
          → later calls (again n st) ≡ expected st
      unfolding bottledwater_export snapshot_rows
      from_call zero calls st enough comes = absurd (omega arith)
      from_call (suc n) calls st enough comes =
          elim (Bool-cases (ltb st.current_table (length st.tables))) [
            | inl more ↦ rw more (
                one_round n calls st st.cursor refl (ground arith) enough
                  (λ st' fewer.
                    from_call n calls st' (omega arith) (λ st'' still. comes st'' (omega arith)))
                  comes)
            | inr over ↦ rw (over, drop_end st.tables st.current_table (ground arith)) refl
          ]

      from_calls :
          (calls : ℕ) (st : ExportState w fw pg)
          → rounds st < fuel
          → rounds st < calls
          → all_calls w fw pg k values enc contents fuel calls st ≡ expected st
      unfolding all_calls
      from_calls zero st enough many = absurd (omega arith)
      from_calls (suc calls) st enough many =
          from_call fuel calls st enough
            (λ st' fewer. from_calls calls st' (omega arith) (omega arith))

    -- With enough fuel the export ends: the calls of the function give the frames of the rows of all
    -- tables, table by table, each row once and in the order of its cursor, formatted with one schema
    -- cache that starts empty, and stop early only where formatting a row stops.
    pub all_calls-snapshot_rows :
        (tables : List ExportTable) (policy : Policy) (fuel calls : ℕ)
        → length tables + length (all_rows contents tables) < fuel
        → length tables + length (all_rows contents tables) < calls
        → all_calls w fw pg k values enc contents fuel calls
            (first_call w fw pg contents tables policy)
          ≡ complete (snapshot_rows policy (λ relid. none) (all_rows contents tables))
    unfolding first_call open_next_table
    all_calls-snapshot_rows tables policy fuel calls enough many =
        let opens = rows_from-opened contents tables 0 in
        let size : length (pending contents (first_call w fw pg contents tables policy))
            ≡ length (all_rows contents tables) =
          ap length opens in
        let ends =
          from_calls fuel calls (first_call w fw pg contents tables policy) (omega (arith, size))
            (omega (arith, size)) in
        rw opens at ends
