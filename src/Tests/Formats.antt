-- ===== src/Tests/Formats.antt =====
-- The theorems on QuickLZ and command values at concrete inputs.
use ts_cli.Prelude.{[], ◌∷◌, ok, All, ◌≡◌, arith}
use ts_cli.Binary.{Bytes}
use ts_cli.QuickLz.{decompress}
use ts_cli.QuickLz.Total.{IsDelivered, decompress_sound}
use ts_cli.QuickLz.Stored.{stored_short, stored_long, decompress-stored_long}
use ts_cli.Command.Parser.{decode_value}
use ts_cli.Command.Writer.{encode_value}
use ts_cli.Command.Escapes.{IsPlain, decode_value-encode_value}
use ts_cli.Tests.{two}

decompress_sound_example : IsDelivered (stored_short two) 100 (decompress (stored_short two) 100)
decompress_sound_example = decompress_sound (stored_short two) 100 (omega arith) (omega arith)

decompress-stored_long_example : decompress (stored_long two) 100 ≡ ok two
decompress-stored_long_example = decompress-stored_long two 100 (omega arith) (omega arith)

-- `a b`, whose space is escaped.
abbrev spaced : Bytes
spaced = 97 ∷ 32 ∷ 98 ∷ []

decode_value-encode_value_example :
    (e : Bytes) × (encode_value spaced ≡ ok e) × (decode_value e ≡ ok spaced) × All IsPlain e
decode_value-encode_value_example =
    decode_value-encode_value spaced (omega arith, (omega arith, (omega arith, tt)))
