-- ===== src/Client/Stream.antt =====
-- client/replication.h: the state of a replication stream, and what its connection does.
use bottledwater_pg.Prelude.{ℕ, Bool, List}
use bottledwater_pg.Prelude.Int.{ℤ}

-- `wire` holds the messages that were handed to libpq for sending, newest last. Times are
-- microseconds since 2000-01-01.
pub record Stream : Type 0 where
  pub start_lsn : ℕ
  pub recvd_lsn : ℕ
  pub fsync_lsn : ℕ
  pub last_checkpoint : ℕ
  pub status : ℤ
  pub wire : List (List ℕ)

-- What a call finds outside the program: the clock, and whether `PQputCopyData` took the message
-- (a result above 0) and `PQflush` sent it (a result of 0).
pub record Outside : Type 0 where
  pub now : ℕ
  pub copied : Bool
  pub flushed : Bool
