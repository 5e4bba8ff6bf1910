-- ===== src/Client/Connect/Polls.antt =====
-- The snapshot from its first frame to the stream, and the connections around it.
use bottledwater_pg.Prelude.{
  ℕ, ◌+◌, ◌*◌, ◌/◌, ◌%◌, ◌^◌, ◌<◌, ◌≡◌, refl, true, false, none, some, List, [], ◌∷◌, ◌++◌, ◌==◌,
  if◌then◌else◌, codes, arith, Bool-cases, inl, inr,
}
use bottledwater_pg.Prelude.Int.{ℤ, pos}
use bottledwater_pg.Prelude.Run.{Run, running, exited, waiting, ◌>>=◌}
use bottledwater_pg.Client.Postgres.{
  ExecStatus, QueryResult, is_tuples, is_command, is_copy, Server,
}
use bottledwater_pg.Client.Connect.{
  SnapshotReader, ClientContext, is_empty, slot_query, exec_sql, client_sql_disconnect,
  replication_slot_exists, start_command, replication_stream_start,
}
use bottledwater_pg.Client.Connect.Snapshot.{
  Event, Outcome, call_back, snapshot_tuple, snapshot_tuples, snapshot_poll, db_client_poll,
}

-- A result that holds one frame.
abbrev pub frame_result : List ℕ → QueryResult
frame_result frame = record {
  status = ExecStatus.single_tuple;
  nfields = 1;
  binary = true;
  rows = (some frame ∷ []) ∷ [];
}

-- The result without rows that ends a query in single-row mode.
abbrev pub end_result : QueryResult
end_result = record { status = ExecStatus.tuples_ok; nfields = 1; binary = true; rows = [] }

-- Times when the connection is busy.
pub data Waits : List Event → Type 0 where
  no_event : Waits []
  still_busy : (ev : Event) {evs : List Event} → ev.busy ≡ true → Waits evs → Waits (ev ∷ evs)

-- What a snapshot's connection brings before the null pointer: frames, then the result that ends the
-- query, and times when it is busy.
pub data Brings : List Event → List (List ℕ) → Type 0 where
  complete :
      (ev : Event) {evs : List Event}
      → ev.busy ≡ false
      → ev.result ≡ some end_result
      → Waits evs
      → Brings (ev ∷ evs) []
  busy :
      (ev : Event) {evs : List Event} {frames : List (List ℕ)}
      → ev.busy ≡ true
      → Brings evs frames
      → Brings (ev ∷ evs) frames
  frame :
      (ev : Event) (bytes : List ℕ) {evs : List Event} {frames : List (List ℕ)}
      → ev.busy ≡ false
      → ev.result ≡ some (frame_result bytes)
      → Brings evs frames
      → Brings (ev ∷ evs) (bytes ∷ frames)

-- If a step and what follows succeed, so do the step and what follows.
first_step :
    {A : Type 0} (next : A → Run (ℕ × A)) (w : A) (m : Run (ℕ × A))
    → (m >>= λ x. if x.0 == 0 then next x.1 else running (x.0, x.1)) ≡ running (0, w)
    → (w₁ : A) × (m ≡ running (0, w₁)) × (next w₁ ≡ running (0, w))
first_step next w (exited e) h = absurd (ground arith)
first_step next w waiting h = absurd (ground arith)
first_step {A} next w (running (e, w₁)) h = elim (Bool-cases (e == 0)) [
  | inl fine ↦ let none_left : e ≡ 0 = ground arith in (w₁, rw none_left refl, rw fine at h)
  | inr failed ↦
      let other : ◌≡◌ {A = Run (ℕ × A)} (running (e, w₁)) (running (0, w)) = rw failed at h in
      absurd (ground arith)
]

module _ {W : Type 0} (r : SnapshotReader W) (server : Server) where
  open r use {reader}

  -- Frames of a snapshot are read with an invalid position, up to the first error.
  unfoldable pub read_frames : List (List ℕ) → W → Run (ℕ × W)
  read_frames [] w = running (0, w)
  read_frames (bytes ∷ frames) w = do
    (e, w₁) ← reader.parse_frame 0 bytes w
    (let rest = read_frames frames w₁ in if e == 0 then rest else running (e, w₁))

  unfoldable pub polls : List Event → ClientContext W → Outcome r server
  polls [] c = running (0, c)
  polls (ev ∷ evs) c = do
    (e, c₁) ← db_client_poll r server ev c
    (let rest = polls evs c₁ in if e == 0 then rest else running (e, c₁))

  busy_step :
      (ev : Event) (c : ClientContext W)
      → ev.busy ≡ true
      → c.sql_conn ≡ true
      → db_client_poll r server ev c ≡ running (0, record c { status = pos 0 })
  unfolding db_client_poll
  busy_step ev c waits open_still = rw (open_still, waits) refl

  frame_step :
      (ev : Event) (bytes : List ℕ) (c : ClientContext W) (w : W)
      → ev.busy ≡ false
      → ev.result ≡ some (frame_result bytes)
      → c.sql_conn ≡ true
      → reader.parse_frame 0 bytes c.world ≡ running (0, w)
      → db_client_poll r server ev c ≡ running (0, record c { status = pos 1; world = w })
  unfolding db_client_poll snapshot_poll snapshot_tuples snapshot_tuple
  frame_step ev bytes c w ready there open_still parsed = rw (open_still, ready, there, parsed) refl

  end_of_query :
      (ev : Event) (c : ClientContext W)
      → ev.busy ≡ false
      → ev.result ≡ some end_result
      → c.sql_conn ≡ true
      → db_client_poll r server ev c ≡ running (0, record c { status = pos 1 })
  unfolding db_client_poll snapshot_poll snapshot_tuples
  end_of_query ev c ready there open_still = rw (open_still, ready, there) refl

  polls-Waits :
      (evs : List Event) (c : ClientContext W)
      → Waits evs
      → c.sql_conn ≡ true
      → (s : ℤ) × (polls evs c ≡ running (0, record c { status = s }))
  unfolding polls
  polls-Waits _ c no_event open_still = (c.status, refl)
  polls-Waits _ c (still_busy ev {evs = evs} is_busy later) open_still =
      let (s, rest) = polls-Waits evs (record c { status = pos 0 }) later open_still in
      (s, rw (busy_step ev c is_busy open_still) rest)

  polls_frames :
      (evs : List Event) (frames : List (List ℕ)) (c : ClientContext W) (w : W)
      → Brings evs frames
      → c.sql_conn ≡ true
      → read_frames frames c.world ≡ running (0, w)
      → (s : ℤ) × (polls evs c ≡ running (0, record c { status = s; world = w }))
  unfolding polls read_frames
  polls_frames _ _ c w (complete ev {evs = evs} is_ready there later) open_still read =
      let same : c.world ≡ w = ground arith in
      let (s, rest) = polls-Waits evs (record c { status = pos 1 }) later open_still in
      (s, rw (← same) (rw (end_of_query ev c is_ready there open_still) rest))
  polls_frames _ frames c w (busy ev {evs = evs} waits later) open_still read =
      let (s, rest) =
        polls_frames evs frames (record c { status = pos 0 }) w later open_still read in
      (s, rw (busy_step ev c waits open_still) rest)
  polls_frames _ _ c w (frame ev bytes {evs = evs} {frames = frames} ready there later) open_still
        read =
      let (w₁, parsed, left) =
        first_step (read_frames frames) w (reader.parse_frame 0 bytes c.world) read in
      let (s, rest) =
        polls_frames evs frames (record c { status = pos 1; world = w₁ }) w later open_still left in
      (s, rw (frame_step ev bytes c w₁ ready there open_still parsed) rest)

  polls-append :
      (evs : List Event) (last : Event) (c c₁ : ClientContext W)
      → polls evs c ≡ running (0, c₁)
      → polls (evs ++ (last ∷ [])) c ≡ polls (last ∷ []) c₁
  unfolding polls
  polls-append [] last c c₁ h = let same : c ≡ c₁ = ground arith in rw same refl
  polls-append (ev ∷ evs) last c c₁ h =
      let (c₂, polled, later) = first_step (polls evs) c₁ (db_client_poll r server ev c) h in
      rw polled (polls-append evs last c₂ c₁ later)

  pub end_step :
      (ev : Event) (c : ClientContext W) (w : W) (f : ℕ → ℕ → W → Run (ℕ × W))
      → ev.busy ≡ false
      → ev.result ≡ none
      → c.sql_conn ≡ true
      → is_command (server.sql_result (c.sql_sent ++ (codes "COMMIT" ∷ []))) ≡ true
      → r.commit_txn ≡ some f
      → f (reader.stream c.world).start_lsn 0 c.world ≡ running (0, w)
      → let c₁ : ClientContext W = record c {
        sql_conn = false;
        status = pos 1;
        sql_sent = c.sql_sent ++ (codes "COMMIT" ∷ []);
        world = w;
      } in
        db_client_poll r server ev c ≡ running (replication_stream_start r server c₁)
  unfolding db_client_poll snapshot_poll exec_sql call_back client_sql_disconnect
  end_step ev c w f ready ends open_still commits has takes =
      rw (open_still, ready, ends, commits, has, takes) refl

  -- Once the connection for the snapshot has brought its frames and the result that ends the query,
  -- and the program has read the frames without an error, one poll commits the snapshot, closes the
  -- connection, tells the program of the end by a commit with xid 0 at the stream's start, and starts
  -- the stream, if the server and the program's callback accept this: the frames were read in their
  -- order, and the program's state is the one that they and the commit leave.
  pub snapshot_ends :
      (evs : List Event) (last : Event) (frames : List (List ℕ)) (c c₁ : ClientContext W) (w w₁ : W)
      (f : ℕ → ℕ → W → Run (ℕ × W))
      → Brings evs frames
      → c.sql_conn ≡ true
      → read_frames frames c.world ≡ running (0, w)
      → last.busy ≡ false
      → last.result ≡ none
      → is_command (server.sql_result (c.sql_sent ++ (codes "COMMIT" ∷ []))) ≡ true
      → r.commit_txn ≡ some f
      → f (reader.stream w).start_lsn 0 w ≡ running (0, w₁)
      → c₁ ≡ record c {
        sql_conn = false;
        status = pos 1;
        sql_sent = c.sql_sent ++ (codes "COMMIT" ∷ []);
        world = w₁;
      }
      → is_copy (server.repl_result (c.repl_sent ++ (start_command r server c₁ ∷ []))) ≡ true
      → polls (evs ++ (last ∷ [])) c
        ≡ running (0, record c₁ { repl_sent = c.repl_sent ++ (start_command r server c₁ ∷ []) })
  unfolding polls replication_stream_start start_command
  snapshot_ends evs last frames c c₁ w w₁ f brings open_still read ready ends commits has takes is
        starts =
      let (s, polled) = polls_frames evs frames c w brings open_still read in
      let c₂ : ClientContext W = record c { status = s; world = w } in
      let starts' = rw is at starts in
      rw
        (
          is,
          polls-append evs last c c₂ polled,
          end_step last c₂ w₁ f ready ends open_still commits has takes,
          starts',
        )
        refl

  -- A client that finds its slot resumes where the server says: if the server prints the position of
  -- two 32-bit halves as the slot's restart position, the slot exists without an error, and the
  -- command that starts the stream names the same two halves.
  pub resumes_at :
      (c : ClientContext W) (h32 l32 : ℕ) (res : QueryResult)
      → h32 < 2 ^ 32
      → l32 < 2 ^ 32
      → is_empty c.slot_name ≡ false
      → server.sql_result (c.sql_sent ++ (slot_query c.slot_name ∷ [])) ≡ res
      → is_tuples res ≡ true
      → res.rows ≡ (some (server.print_hex h32 ++ (codes "/" ++ server.print_hex l32)) ∷ []) ∷ []
      → let (exists, e, c₁) = replication_slot_exists r server c in
        (exists ≡ true)
        × (e ≡ 0)
        × (start_command r server c₁
            ≡ codes "START_REPLICATION SLOT \""
              ++ (c.slot_name
                  ++ (codes "\" LOGICAL "
                      ++ (server.print_hex h32
                          ++ (codes "/"
                              ++ (server.print_hex l32
                                  ++ (codes " (\"error_policy\" '"
                                      ++ (c.error_policy ++ codes "')"))))))))
  unfolding replication_slot_exists start_command
  resumes_at c h32 l32 res hh hl named answers tuples row =
      let lsn = h32 * 2 ^ 32 + l32 in
      let c₁ : ClientContext W = record c {
        sql_sent = c.sql_sent ++ (slot_query c.slot_name ∷ []);
        world = reader.with_stream (record (reader.stream c.world) { start_lsn = lsn }) c.world;
      } in
      let found : replication_slot_exists r server c ≡ (true, 0, c₁) =
        rw (answers, named, tuples, row, server.scan_print h32 l32 hh hl) refl in
      let high : lsn / 2 ^ 32 % 2 ^ 32 ≡ h32 = omega arith in
      let low : lsn % 2 ^ 32 ≡ l32 = omega arith in
      rw (found, reader.stream_with, high, low) (refl, refl, refl)
