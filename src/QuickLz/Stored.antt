-- ===== src/QuickLz/Stored.antt =====
-- Data that is stored uncompressed, with either header, comes back.
use ts_cli.Prelude.{ℕ, ◌+◌, ◌/◌, ◌%◌, ◌^◌, ◌≤◌, ◌<◌, ◌∷◌, ok, length, ◌≡◌, arith}
use ts_cli.Binary.{Bytes}
use ts_cli.QuickLz.{unpack, decompress}

-- A short header: the flags (level 1, not compressed), the size of all, the size of the data.
abbrev pub stored_short : Bytes → Bytes
stored_short bytes = 0x04 ∷ (length bytes + 3) ∷ length bytes ∷ bytes

abbrev little32 : ℕ → Bytes → Bytes
little32 n rest = (n % 256) ∷ (n / 2 ^ 8 % 256) ∷ (n / 2 ^ 16 % 256) ∷ (n / 2 ^ 24 % 256) ∷ rest

-- A long header, with sizes of four bytes.
abbrev pub stored_long : Bytes → Bytes
stored_long bytes = 0x06 ∷ little32 (length bytes + 9) (little32 (length bytes) bytes)

-- Stored data with a long header comes back, if it has fewer than 2^31 bytes and is within the maximum.
pub decompress-stored_long :
    (bytes : Bytes) (maximum : ℕ)
    → length bytes < 2 ^ 31
    → length bytes ≤ maximum
    → decompress (stored_long bytes) maximum ≡ ok bytes
unfolding decompress unpack
decompress-stored_long bytes maximum fits within = ground arith

-- Stored data with a short header comes back, if it and the header have fewer than 256 bytes and it is
-- within the maximum.
pub decompress-stored_short :
    (bytes : Bytes) (maximum : ℕ)
    → length bytes + 3 < 256
    → length bytes ≤ maximum
    → decompress (stored_short bytes) maximum ≡ ok bytes
unfolding decompress unpack
decompress-stored_short bytes maximum fits within = ground arith
