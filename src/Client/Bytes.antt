-- ===== src/Client/Bytes.antt =====
-- client/replication.c: 64-bit integers in network byte order (`sendint64`, `recvint64`).
use bottledwater_pg.Prelude.{
  ℕ, ◌+◌, ◌*◌, ◌/◌, ◌%◌, ◌^◌, ◌<◌, ◌≡◌, List, [], ◌∷◌, ◌++◌, get_or, drop, length, arith,
}

-- The bytes of `htonl(x)` in memory, for a `uint32`.
unfoldable pub htonl : ℕ → List ℕ
htonl x = (x / 2 ^ 24 % 256) ∷ (x / 2 ^ 16 % 256) ∷ (x / 2 ^ 8 % 256) ∷ (x % 256) ∷ []

-- `ntohl` of the four bytes at a pointer; a byte past the end of the buffer reads as 0.
unfoldable pub ntohl : List ℕ → ℕ
ntohl buf =
    get_or buf 0 0 * 2 ^ 24 + get_or buf 1 0 * 2 ^ 16 + get_or buf 2 0 * 2 ^ 8 + get_or buf 3 0

-- An `int64` is its 64-bit pattern: `(uint32) (i64 >> 32)`, then `(uint32) i64`.
unfoldable pub sendint64 : ℕ → List ℕ
unfolding htonl
sendint64 x = htonl (x / 2 ^ 32 % 2 ^ 32) ++ htonl (x % 2 ^ 32)

-- `|=` joins disjoint halves. The pointer `&buf[i]` is `drop i buf`.
unfoldable pub recvint64 : List ℕ → ℕ
unfolding ntohl
recvint64 buf = ntohl buf * 2 ^ 32 + ntohl (drop 4 buf)

-- What `sendint64` writes of a 64-bit number, `recvint64` reads back, whatever bytes follow.
recvint64-sendint64 : (x : ℕ) (rest : List ℕ) → x < 2 ^ 64 → recvint64 (sendint64 x ++ rest) ≡ x
unfolding recvint64 sendint64
recvint64-sendint64 x rest h = omega arith

-- `sendint64` fills eight bytes.
length-sendint64 : (x : ℕ) (rest : List ℕ) → length (sendint64 x ++ rest) ≡ 8 + length rest
unfolding sendint64
length-sendint64 x rest = omega arith
