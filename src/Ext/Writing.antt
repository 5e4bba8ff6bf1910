-- ===== src/Ext/Writing.antt =====
-- ext/io_util.c: writing into a buffer that grows until it fits.
use bottledwater_pg.Prelude.{
  ℕ, zero, suc, ◌+◌, ◌-◌, ◌*◌, ◌<◌, ◌≤◌, ◌≡◌, refl, true, List, length, ◌==◌, leb, if◌then◌else◌,
  arith, Result, ok, err, enospc, Bool-cases, inl, inr,
}

-- INIT_BUFFER_LENGTH
abbrev pub init_buffer_length : ℕ
init_buffer_length = 16384

-- MAX_BUFFER_LENGTH
abbrev pub max_buffer_length : ℕ
max_buffer_length = 1048576

-- VARHDRSZ
abbrev pub varhdrsz : ℕ
varhdrsz = 4

-- Avro's memory writer: the error of `avro_write` for so many bytes, in a buffer of some capacity
-- of which some bytes are used.
pub record MemoryWriter : Type 0 where
  pub avro_write : (capacity used bytes : ℕ) → ℕ
  pub write_fits :
      (capacity used bytes : ℕ) → used + bytes ≤ capacity → avro_write capacity used bytes ≡ 0
  pub write_full :
      (capacity used bytes : ℕ) → capacity < used + bytes → avro_write capacity used bytes ≡ enospc

module _ (w : MemoryWriter) where
  -- The null byte after what the callback wrote.
  unfoldable pub terminated : ℕ → Result (List ℕ) → Result (List ℕ)
  terminated capacity (ok bytes) =
      let e = w.avro_write capacity (length bytes) 1 in if e == 0 then ok bytes else err e
  terminated capacity (err e) = err e

  -- One round: the callback is given the capacity.
  unfoldable pub write_once : (ℕ → Result (List ℕ)) → ℕ → Result (List ℕ)
  write_once cb size = terminated (size - varhdrsz) (cb (size - varhdrsz))

  -- The loop goes on only if the buffer was too small.
  unfoldable pub unless_full : Result (List ℕ) → Result (List ℕ) → Result (List ℕ)
  unless_full again (ok bytes) = ok bytes
  unless_full again (err e) = if e == enospc then again else err e

  unfoldable pub try_sizes : ℕ → (ℕ → Result (List ℕ)) → ℕ → Result (List ℕ)
  try_sizes zero cb size = err enospc
  try_sizes (suc n) cb size =
      let again = try_sizes n cb (size * 4) in
      if leb size max_buffer_length then unless_full again (write_once cb size) else err enospc

  -- Four sizes do not exceed the largest, the fifth does.
  unfoldable pub try_writing : (ℕ → Result (List ℕ)) → Result (List ℕ)
  unfolding try_sizes
  try_writing cb = try_sizes 5 cb init_buffer_length

  -- A callback that writes these bytes, if they fit.
  abbrev pub writes : List ℕ → (ℕ → Result (List ℕ))
  writes bytes capacity = if leb (length bytes) capacity then ok bytes else err enospc

  write_once-fits :
      (bytes : List ℕ) (size : ℕ)
      → length bytes + 1 ≤ size - varhdrsz
      → write_once (writes bytes) size ≡ ok bytes
  unfolding write_once terminated
  write_once-fits bytes size h =
      let fits : leb (length bytes) (size - varhdrsz) ≡ true = ground arith in
      rw (fits, terminated, w.write_fits (size - varhdrsz) (length bytes) 1 h) refl

  write_once-full :
      (bytes : List ℕ) (size : ℕ)
      → size - varhdrsz < length bytes + 1
      → write_once (writes bytes) size ≡ err enospc
  unfolding write_once terminated
  write_once-full bytes size h = elim (Bool-cases (leb (length bytes) (size - varhdrsz))) [
    | inl fits ↦ rw (fits, terminated, w.write_full (size - varhdrsz) (length bytes) 1 h) refl
    | inr full ↦ rw (full, terminated) refl
  ]

  round :
      (bytes : List ℕ) (size : ℕ) (again : Result (List ℕ))
      → unless_full again (write_once (writes bytes) size)
        ≡ (if leb (length bytes + 1) (size - varhdrsz) then ok bytes else again)
  unfolding unless_full
  round bytes size again = elim (Bool-cases (leb (length bytes + 1) (size - varhdrsz))) [
    | inl fits ↦ rw (fits, write_once-fits bytes size (ground arith)) refl
    | inr full ↦ rw (full, write_once-full bytes size (ground arith)) refl
  ]

  -- A value is written if and only if it fits the largest buffer, with its null byte and the header;
  -- the bytes are then those of the value.
  pub try_writing-writes :
      (bytes : List ℕ)
      → try_writing (writes bytes)
        ≡ (if leb (length bytes + 1 + varhdrsz) max_buffer_length then ok bytes else err enospc)
  unfolding try_writing
  try_writing-writes bytes =
      rw (round bytes 16384, round bytes 65536, round bytes 262144, round bytes 1048576)
        (ground arith)
