-- ===== src/HashCash.antt =====
-- protocol/src/crypto/hash_cash.cpp: the offset that gives an identity its security level. SHA-1, and
-- the public key's text in Base64, are computed by a library, and are arguments.
pub mod Least
use ts_cli.Prelude.{
  ℕ, zero, suc, ◌+◌, ◌-◌, ◌/◌, ◌%◌, ◌^◌, Bool, ◌&&◌, [], ◌∷◌, ◌++◌, leb, ◌==◌, if◌then◌else◌,
}
use ts_cli.Binary.{Bytes}
use ts_cli.Message.Requests.{decimal}

-- `while ( ( byte & 0x01 ) == 0 )`: a byte that is not zero has fewer than 8 such bits.
unfoldable pub zero_bits : ℕ → ℕ → ℕ
zero_bits zero byte = 0
zero_bits (suc bits) byte =
    let more = zero_bits bits (byte / 2) in if byte % 2 == 0 then suc more else 0

-- The loop over the hash, with an 8-bit level.
unfoldable pub level_of : Bytes → ℕ → ℕ
unfolding zero_bits
level_of [] level = level
level_of (b ∷ bs) level =
    let next = level_of bs ((level + 8) % 2 ^ 8) in
    if b == 0 then next else ((level + zero_bits 8 b) % 2 ^ 8)

-- `GetLevel`
unfoldable pub get_level : (Bytes → Bytes) → Bytes → ℕ → ℕ
unfolding level_of
get_level sha1 key offset = level_of (sha1 (key ++ decimal offset)) 0

-- `ValidateOffset`
unfoldable pub validate_offset : (Bytes → Bytes) → Bytes → ℕ → ℕ → Bool
validate_offset sha1 key target offset = leb target (get_level sha1 key offset)

-- An offset, the empty result, the exception; `out_of_fuel` is none of the code's.
pub data Search : Type 0 where
  found : ℕ → Search
  stopped exhausted out_of_fuel : Search

abbrev pub progress_interval : ℕ
progress_interval = 65536

-- The loop of `FindOffset`; `stop` says whether a stop is requested when the loop asks at an offset. The
-- calls of `progress` are left out.
unfoldable pub find_from : ℕ → (Bytes → Bytes) → Bytes → ℕ → ℕ → (ℕ → Bool) → ℕ → Search
unfolding validate_offset
find_from zero sha1 key target start stop offset = out_of_fuel
find_from (suc fuel) sha1 key target start stop offset =
    let rest = find_from fuel sha1 key target start stop (offset + 1) in
    if validate_offset sha1 key target offset
    then found offset
    else if offset == 2 ^ 64 - 1
    then exhausted
    else if (offset - start + 1) % progress_interval == 0 && stop offset
    then stopped
    else rest

-- `FindOffset`. There are as many offsets as the fuel says.
unfoldable pub find_offset : (Bytes → Bytes) → Bytes → ℕ → ℕ → (ℕ → Bool) → Search
unfolding find_from
find_offset sha1 key target start stop = find_from (2 ^ 64 - start) sha1 key target start stop start
