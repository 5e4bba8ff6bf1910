-- ===== src/Ext/Decoder.antt =====
-- ext/logdecoder.c: the callbacks of the output plugin, which write one frame for each begin, commit
-- and changed row.
pub mod Losses
pub mod Tests
use bottledwater_pg.Prelude.{
  ℕ, ◌+◌, ◌≡◌, Option, none, some, List, [], ◌∷◌, ◌++◌, str_eq, codes, ◌==◌, if◌then◌else◌, Result,
  ok, err,
}
use bottledwater_pg.Client.Frames.{Message}
use bottledwater_pg.Ext.Backend.{Backend, returned, aborted, crashed}
use bottledwater_pg.Ext.Writing.{MemoryWriter, try_writing, writes}
use bottledwater_pg.Ext.Policy.{Policy, parse_error_policy, error_policy_handle}
use bottledwater_pg.Ext.Tables.{Relation, Catalog}
use bottledwater_pg.Ext.SchemaCache.{Cache}
use bottledwater_pg.Ext.Datum.Values.{Postgres}
use bottledwater_pg.Ext.Rows.{Tuple, AvroValues}
use bottledwater_pg.Ext.Frames.{
  Frame, all_made, Encoding, Out, update_frame_with_begin_txn, update_frame_with_commit_txn,
  update_frame_with_insert, update_frame_with_update, update_frame_with_delete,
}

-- Avro's writer of a frame, given the capacity of the buffer: a frame whose messages have all their
-- fields is written if it fits.
pub record FrameWriter (w : MemoryWriter) : Type 0 where
  pub frame_bytes : List Message → List ℕ
  pub write_avro_binary : Frame → ℕ → Result (List ℕ)
  pub write_made : (ms : List Message) → write_avro_binary (all_made ms) ≡ writes w (frame_bytes ms)

-- `plugin_state`, whose frame is reset at the start of each callback, and the frames that were given
-- to Postgres.
pub record PluginState : Type 0 where
  pub schema_cache : Cache
  pub error_policy : Policy
  pub written : List (List ℕ)

-- A change of a row.
pub data Change (pg : Postgres) : Type 0 where
  insert : (newtuple : Option (Tuple pg)) → Change pg
  update : (oldtuple newtuple : Option (Tuple pg)) → Change pg
  delete : (oldtuple : Option (Tuple pg)) → Change pg
  unknown : ℕ → Change pg

abbrev policy_value : Option (List ℕ) → Option Policy
policy_value none = none
policy_value (some text) = parse_error_policy text

abbrev and_then : Option Policy → (Policy → Option Policy) → Option Policy
and_then none next = none
and_then (some policy) next = next policy

-- The loop of `output_avro_startup` over the options, from the policy that the memory of the state
-- held: the policy, unless a value is missing or no policy.
unfoldable pub startup_policy : List (List ℕ × Option (List ℕ)) → Policy → Option Policy
startup_policy [] policy = some policy
startup_policy ((defname, arg) ∷ options) policy =
    let ignored = startup_policy options policy in
    let taken = and_then (policy_value arg) (λ p. startup_policy options p) in
    if str_eq defname (codes "error_policy") then taken else ignored

module _ (w : MemoryWriter) (fw : FrameWriter w) where
  abbrev output_plugin_write : PluginState → Result (List ℕ) → Result PluginState
  output_plugin_write state (ok output) =
      ok (record state { written = state.written ++ (output ∷ []) })
  output_plugin_write state (err e) = err e

  unfoldable pub write_frame : Frame → PluginState → Result PluginState
  write_frame frame state = output_plugin_write state (try_writing w (fw.write_avro_binary frame))

  -- A failure to write a begin or a commit is no matter of the policy.
  abbrev written_or_abort : Result PluginState → Backend PluginState
  written_or_abort (ok state) = returned state
  written_or_abort (err e) = aborted

  abbrev transaction_frame : ℕ × Frame → PluginState → Backend PluginState
  transaction_frame (e, frame) state =
      if e == 0 then written_or_abort (write_frame frame state) else aborted

  unfoldable pub output_avro_begin_txn : ℕ → PluginState → Backend PluginState
  unfolding update_frame_with_begin_txn
  output_avro_begin_txn xid state = transaction_frame (update_frame_with_begin_txn xid []) state

  unfoldable pub output_avro_commit_txn : ℕ → ℕ → PluginState → Backend PluginState
  unfolding update_frame_with_commit_txn
  output_avro_commit_txn xid commit_lsn state =
      transaction_frame (update_frame_with_commit_txn xid commit_lsn []) state

  abbrev unless_exit : Option {0} Unit → Backend PluginState → Backend PluginState
  unless_exit none next = aborted
  unless_exit (some u) next = next

  abbrev written_or_handled : PluginState → Result PluginState → Backend PluginState
  written_or_handled state (ok written) = returned written
  written_or_handled state (err e) =
      unless_exit (error_policy_handle state.error_policy) (returned state)

  -- What follows the conversion of a row.
  unfoldable pub finish_change : PluginState → Backend Out → Backend PluginState
  unfolding write_frame
  finish_change state aborted = aborted
  finish_change state crashed = crashed
  finish_change state (returned (e, frame, cache)) =
      let state₁ : PluginState = record state { schema_cache = cache } in
      let rest = written_or_handled state₁ (write_frame frame state₁) in
      if e == 0 then rest else unless_exit (error_policy_handle state.error_policy) rest

  module _ (k : Catalog) (pg : Postgres) (values : AvroValues pg.Float)
      (enc : Encoding pg.Float) where
    -- The `switch` on the action. A change that must have a new tuple and has none is an error.
    unfoldable pub convert_change : Relation → Change pg → Cache → Backend Out
    unfolding update_frame_with_insert update_frame_with_update update_frame_with_delete
    convert_change rel (Change.insert none) cache = aborted
    convert_change rel (Change.insert (some newtuple)) cache =
        update_frame_with_insert k w pg values enc rel rel.attrs newtuple [] cache
    convert_change rel (Change.update oldtuple none) cache = aborted
    convert_change rel (Change.update oldtuple (some newtuple)) cache =
        update_frame_with_update k w pg values enc rel oldtuple newtuple [] cache
    convert_change rel (Change.delete oldtuple) cache =
        update_frame_with_delete k w pg values enc rel oldtuple [] cache
    convert_change rel (Change.unknown action) cache = aborted

    unfoldable pub output_avro_change : Relation → Change pg → PluginState → Backend PluginState
    unfolding convert_change finish_change
    output_avro_change rel change state =
        finish_change state (convert_change rel change state.schema_cache)
