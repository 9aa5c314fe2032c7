-- ===== src/Base/Utf8.antt =====
-- Rust's `char` and `String` seen as Unicode scalar values, and their UTF-8 bytes.
use Prim.Native.Nat.{ℕ, ◌+◌, ◌/◌, ◌%◌}
use mathlib.Core.Bool.{◌||◌, ◌&&◌}
use mathlib.Core.Option.{Option, none, some}
use mathlib.Core.List.{List, [], ◌∷◌, ◌++◌}
use f4kvs_lsm.Base.Tests.{ltb, leb, if◌then◌else◌}
use f4kvs_lsm.Base.Keys.{Key}

-- A string as its characters.
abbrev pub Text : Type 0
Text = List ℕ

unfoldable pub encode_char : ℕ → Key
encode_char c =
    if ltb c 0x80
    then c ∷ []
    else if ltb c 0x800
    then (0xC0 + c / 64) ∷ (0x80 + c % 64) ∷ []
    else if ltb c 0x10000
    then (0xE0 + c / 4096) ∷ (0x80 + c / 64 % 64) ∷ (0x80 + c % 64) ∷ []
    else (0xF0 + c / 262144) ∷ (0x80 + c / 4096 % 64) ∷ (0x80 + c / 64 % 64) ∷ (0x80 + c % 64) ∷ []

-- `s.as_bytes()`
unfoldable pub as_bytes : Text → Key
unfolding encode_char
as_bytes [] = []
as_bytes (c ∷ s) = encode_char c ++ as_bytes s

-- `char::from_u32`: a scalar value is below 0x110000 and no surrogate.
unfoldable pub from_u32 : ℕ → Option ℕ
from_u32 c = if ltb c 0xD800 || (leb 0xE000 c && ltb c 0x110000) then some c else none
