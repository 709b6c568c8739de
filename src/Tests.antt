-- ===== src/Tests.antt =====
-- The theorems at concrete inputs.
mod Streams
mod Packets
mod Formats
mod Voices
mod Messages
mod Stores
mod Counters
mod Identities
mod Clients
mod Transports
mod Ciphers
use ts_cli.Prelude.{◌∷◌, []}
use ts_cli.Binary.{Bytes}

abbrev pub two : Bytes
two = 1 ∷ 2 ∷ []
