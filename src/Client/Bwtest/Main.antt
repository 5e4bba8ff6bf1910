-- ===== src/Client/Bwtest/Main.antt =====
-- client/bwtest.c: options, the end of the program, and `main`.
use bottledwater_pg.Prelude.{
  ℕ, Bool, true, false, Option, none, some, List, [], ◌∷◌, codes, ◌==◌, if◌then◌else◌,
}
use bottledwater_pg.Prelude.Int.{ℤ, pos, negsuc}
use bottledwater_pg.Prelude.Run.{Run, running, exited, ◌>>=◌}
use bottledwater_pg.Client.Postgres.{Server}
use bottledwater_pg.Client.Frames.{Avro, State, frame_reader_new}
use bottledwater_pg.Client.Connect.{SnapshotReader, ClientContext}
use bottledwater_pg.Client.Connect.Snapshot.{
  Event, Select, db_client_start, db_client_poll, db_client_wait,
}
use bottledwater_pg.Client.Program.{FrameDecoder, snapshot_reader}
use bottledwater_pg.Client.Bwtest.{Rendering, init_client, test_client}

-- The fields of the client context that options set.
pub record TestSettings : Type 0 where
  pub conninfo : Option (List ℕ)
  pub slot_name : List ℕ
  pub allow_unkeyed : Bool

-- What `getopt_long` gives; `unknown` is an option that it refuses.
pub data TestOption : Type 0 where
  postgres slot : List ℕ → TestOption
  allow_unkeyed unknown : TestOption

unfoldable pub usage {ℓ} : {A : Type ℓ} → Run A
usage = exited (record { status = 1; slot_dropped = false })

unfoldable pub parse_option : TestOption → TestSettings → Run TestSettings
unfolding usage
parse_option (TestOption.postgres arg) s = running (record s { conninfo = some arg })
parse_option (TestOption.slot arg) s = running (record s { slot_name = arg })
parse_option TestOption.allow_unkeyed s = running (record s { allow_unkeyed = true })
parse_option TestOption.unknown s = usage

unfoldable pub parse_loop : List TestOption → TestSettings → Run TestSettings
unfolding parse_option
parse_loop [] s = running s
parse_loop (o ∷ os) s = do s' ← parse_option o s; parse_loop os s'

abbrev with_conninfo : Option (List ℕ) → TestSettings → Run TestSettings
with_conninfo none s = usage
with_conninfo (some text) s = running s

-- `left_over`: there are arguments that are no options.
unfoldable pub parse_options :
    List TestOption → (left_over : Bool) → TestSettings → Run TestSettings
unfolding parse_loop usage
parse_options os left_over s = do
  s' ← parse_loop os s
  (if left_over then usage else with_conninfo s'.conninfo s')

abbrev text_or_empty : Option (List ℕ) → List ℕ
text_or_empty none = []
text_or_empty (some text) = text

-- `init_client`, before the options.
abbrev pub default_settings : TestSettings
default_settings = record {
  conninfo = none;
  slot_name = codes "bottledwater";
  allow_unkeyed = false;
}

-- What one round of the loop meets: the events of the poll, and those of the wait after it.
pub record Round : Type 0 where
  pub event : Event
  pub select : Select
  pub repl_consumed : Bool
  pub sql_consumed : Bool

module _ (avro : Avro) (libavro : Rendering) (decoder : FrameDecoder) (server : Server) where
  abbrev pub World : Type 0
  World = State avro (init_client libavro)

  abbrev pub Client : Type 0
  Client = ClientContext World

  abbrev pub reader : SnapshotReader World
  reader = snapshot_reader avro (init_client libavro) decoder test_client

  -- The context that `init_client` and the options leave. The error policy is never set.
  unfoldable pub configured : TestSettings → Client
  unfolding frame_reader_new
  configured s = record {
    conninfo = text_or_empty s.conninfo;
    app_name = codes "bottledwater";
    error_policy = [];
    slot_name = s.slot_name;
    output_plugin = codes "bottledwater";
    snapshot_name = [];
    sql_conn = false;
    allow_unkeyed = s.allow_unkeyed;
    skip_snapshot = false;
    slot_created = false;
    status = pos 0;
    sql_sent = [];
    repl_sent = [];
    world = frame_reader_new (record {
      stream = record {
        start_lsn = 0;
        recvd_lsn = 0;
        fsync_lsn = 0;
        last_checkpoint = 0;
        status = pos 0;
        wire = [];
      };
      taking_snapshot = false;
      printed = [];
    });
  }

  -- An unfinished snapshot takes its replication slot with it.
  unfoldable pub exit_nicely {ℓ} : {A : Type ℓ} → Client → Run A
  exit_nicely c = exited (record { status = 1; slot_dropped = c.world.cb_context.taking_snapshot })

  -- The macro `ensure`.
  abbrev pub ensure {ℓ} : {A : Type ℓ} → ℕ × Client → (Client → Run A) → Run A
  ensure (e, c) next = if e == 0 then next c else exit_nicely c

  abbrev pub is_negative : ℤ → Bool
  is_negative (pos n) = false
  is_negative (negsuc n) = true

  abbrev pub is_zero : ℤ → Bool
  is_zero (pos n) = n == 0
  is_zero (negsuc n) = false

  unfoldable pub round : Round → Client → Run Client
  unfolding exit_nicely
  round x c = do
    polled ← db_client_poll reader server x.event c
    ensure polled (λ c₁.
        if is_zero c₁.status
        then ensure (db_client_wait reader server x.select x.repl_consumed x.sql_consumed c₁, c₁)
            (λ c₂. running c₂)
        else running c₁)

  -- The loop, for these rounds, and the state in which it then goes on.
  unfoldable pub main_loop : List Round → Client → Run Client
  unfolding round
  main_loop [] c = running c
  main_loop (x ∷ xs) c =
      if is_negative c.status
      then exited (record { status = 0; slot_dropped = false })
      else do c' ← round x c; main_loop xs c'

  unfoldable pub main : List TestOption → (left_over : Bool) → List Round → Run Client
  unfolding parse_options configured exit_nicely main_loop
  main options left_over rounds = do
    s ← parse_options options left_over default_settings
    started ← db_client_start reader server (configured s)
    ensure started (main_loop rounds)
