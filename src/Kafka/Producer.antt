-- ===== src/Kafka/Producer.antt =====
-- kafka/bottledwater.c: the circular buffer of transactions between Postgres and Kafka, its
-- checkpoints, and the delivery reports of Kafka.
pub mod Naming
pub mod Callbacks
pub mod Window
pub mod Queue
pub mod Account
pub mod Open
pub mod Owed
pub mod Later
pub mod Session
pub mod Sending
pub mod Reach
pub mod Order
pub mod Failures
pub mod Tests
use bottledwater_pg.Prelude.{
  ℕ, zero, suc, ◌+◌, ◌-◌, ◌%◌, ◌^◌, Bool, true, false, not, ◌&&◌, ◌||◌, Option, none, some, List,
  [], ◌∷◌, ltb, ◌==◌, if◌then◌else◌, update, get_elem?, Result,
}
use bottledwater_pg.Prelude.Run.{Run, Exit, running, exited, ◌>>=◌}
use bottledwater_pg.Client.Stream.{Stream, Outside}
use bottledwater_pg.Client.Replication.{keepalive}
use bottledwater_pg.Kafka.TableMapper.{Topic, Mapper}

-- A C `int` counter is its 32-bit pattern.
pub record TransactionInfo : Type 0 where
  pub xid : ℕ
  pub recvd_events : ℕ
  pub pending_events : ℕ
  pub commit_lsn : ℕ

pub data OutputFormat : Type 0 where
  undefined avro json : OutputFormat

pub data ErrorPolicy : Type 0 where
  undefined log exit : ErrorPolicy

-- A message that Kafka has taken and not yet reported on: its envelope (with the index of its
-- transaction for the pointer `xact`) and what is published.
pub record Envelope : Type 0 where
  pub xact : ℕ
  pub wal_pos : ℕ
  pub relid : ℕ
  pub topic : Option Topic
  pub key : Option (List ℕ)
  pub val : Option (List ℕ)

-- `xact_list` is the array as a function of its index. `stream` and `taking_snapshot` are the
-- fields of `context->client` that the producer uses. `queue` is Kafka's: the messages in flight.
pub record Context (Schema : Type 0) : Type 0 where
  pub xact_list : ℕ → TransactionInfo
  pub xact_head : ℕ
  pub xact_tail : ℕ
  pub stream : Stream
  pub taking_snapshot : Bool
  pub mapper : Mapper Schema
  pub output_format : OutputFormat
  pub error_policy : ErrorPolicy
  pub queue : List Envelope

-- MAX_IN_FLIGHT_TRANSACTIONS
abbrev pub max_in_flight_transactions : ℕ
max_in_flight_transactions = 1000

-- XACT_LIST_LEN
abbrev pub xact_list_len : ℕ
xact_list_len = max_in_flight_transactions + 1

abbrev pub int_mod : ℕ
int_mod = 2 ^ 32

-- `x++` and `x--` on an `int` counter.
abbrev pub increment : ℕ → ℕ
increment n = (n + 1) % int_mod

abbrev pub decrement : ℕ → ℕ
decrement n = (n + int_mod - 1) % int_mod

-- The test of the `while` loop of `maybe_checkpoint`.
abbrev pub is_complete : TransactionInfo → Bool
is_complete x = (x.pending_events == 0) && (ltb 0 x.commit_lsn || (x.xid == 0))

-- A delivery report: the place of its message in the queue, and Kafka's error, 0 for success.
pub record Delivery : Type 0 where
  pub place : ℕ
  pub error : ℕ

-- What one `backpressure` meets: the delivery reports that `rd_kafka_poll` passes on, a shutdown
-- signal (0 for none), and what sending a status update finds.
pub record Poll : Type 0 where
  pub deliveries : List Delivery
  pub signal : ℕ
  pub outside : Outside

module _ {ℓ} {A : Type ℓ} where
  -- The list without what stands at a place.
  abbrev pub remove_at : List A → ℕ → List A
  remove_at [] i = []
  remove_at (x ∷ xs) zero = xs
  remove_at (x ∷ xs) (suc i) = x ∷ remove_at xs i

module _ {Schema : Type 0} where
  unfoldable pub xact_list_length : Context Schema → ℕ
  xact_list_length c = (xact_list_len + c.xact_head + 1 - c.xact_tail) % xact_list_len

  unfoldable pub xact_list_full : Context Schema → Bool
  unfolding xact_list_length
  xact_list_full c = xact_list_length c == xact_list_len - 1

  unfoldable pub xact_list_empty : Context Schema → Bool
  unfolding xact_list_length
  xact_list_empty c = xact_list_length c == 0

  -- The body of the loop of `maybe_checkpoint`, up to the test for an empty list.
  unfoldable pub checkpoint_tail : Context Schema → Context Schema
  checkpoint_tail c =
      let x = c.xact_list c.xact_tail in
      record c {
        stream = record (c.stream) { fsync_lsn = x.commit_lsn };
        taking_snapshot = if (x.xid == 0) && ltb 0 x.commit_lsn then false else c.taking_snapshot;
        xact_tail = (c.xact_tail + 1) % xact_list_len;
      }

  -- The loop, for at most so many rounds.
  unfoldable pub checkpoint_loop : ℕ → Context Schema → Context Schema
  checkpoint_loop zero c = c
  checkpoint_loop (suc n) c =
      let c' = checkpoint_tail c in
      let rest = checkpoint_loop n c' in
      if is_complete (c.xact_list c.xact_tail) then (if xact_list_empty c' then c' else rest) else c

  -- One round for each slot of the buffer is enough.
  unfoldable pub maybe_checkpoint : Context Schema → Context Schema
  maybe_checkpoint c = checkpoint_loop xact_list_len c

  -- `exit_nicely`: an unfinished snapshot that fails takes its replication slot with it.
  unfoldable pub exit_nicely : Context Schema → ℕ → Exit
  exit_nicely c status = record {
    status = status;
    slot_dropped = c.taking_snapshot && not (status == 0);
  }

  abbrev pub fatal_error {ℓ} : {A : Type ℓ} → Context Schema → Run A
  fatal_error c = exited (exit_nicely c 1)

  unfoldable pub handle_error : Context Schema → Run ℕ
  handle_error c = elim c.error_policy [
    | ErrorPolicy.log ↦ running 0
    | ErrorPolicy.exit ↦ fatal_error c
    | ErrorPolicy.undefined ↦ fatal_error c
  ]

  abbrev pub set_xact : ℕ → TransactionInfo → Context Schema → Context Schema
  set_xact i x c = record c { xact_list = update c.xact_list i x }

  -- The part of `on_deliver_msg` for a message that counts as delivered.
  unfoldable pub delivered : ℕ → Context Schema → Context Schema
  delivered i c =
      let x = c.xact_list i in
      maybe_checkpoint (set_xact i (record x { pending_events = decrement x.pending_events }) c)

  unfoldable pub on_deliver_msg : ℕ → ℕ → Context Schema → Run (Context Schema)
  on_deliver_msg xact error c =
      if error == 0
      then running (delivered xact c)
      else do err ← handle_error c; running (if err == 0 then delivered xact c else c)

  -- Kafka reports on a message once: it leaves the queue.
  unfoldable pub deliver : Delivery → Context Schema → Run (Context Schema)
  deliver d c = elim (get_elem? c.queue d.place) [
    | none ↦ running c
    | some e ↦ on_deliver_msg e.xact d.error (record c { queue = remove_at c.queue d.place })
  ]

  -- `rd_kafka_poll`.
  unfoldable pub poll : List Delivery → Context Schema → Run (Context Schema)
  poll [] c = running c
  poll (d ∷ ds) c = do c' ← deliver d c; poll ds c'

  unfoldable pub after_poll : Poll → Context Schema → Run (Context Schema)
  after_poll p c =
      if not (p.signal == 0)
      then exited (exit_nicely c 0)
      else let (err, s) = keepalive p.outside c.stream in
        let c' : Context Schema = record c { stream = s } in
        if err == 0 then running c' else fatal_error c'

  unfoldable pub backpressure : Poll → Context Schema → Run (Context Schema)
  backpressure p c = do c' ← poll p.deliveries c; after_poll p c'
