-- ===== src/Tests/Identities.antt =====
-- The theorems on identities at concrete inputs.
use ts_cli.Prelude.{[], ◌∷◌, ◌==◌, arith}
use ts_cli.Binary.{Bytes}
use ts_cli.HashCash.{find_offset}
use ts_cli.HashCash.Least.{IsLeast, find_offset-IsLeast}

-- A stand-in for SHA-1: the text behind its first byte.
abbrev hash : Bytes → Bytes
hash [] = 0 ∷ 8 ∷ []
hash (c ∷ cs) = cs

find_offset-IsLeast_example :
    IsLeast hash (0 ∷ []) 3 (λ o. o == 65535) 0 (find_offset hash (0 ∷ []) 3 0 (λ o. o == 65535))
find_offset-IsLeast_example = find_offset-IsLeast hash (0 ∷ []) 3 0 (λ o. o == 65535) (omega arith)
