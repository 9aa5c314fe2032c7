-- ===== src/Base/Bytes.antt =====
-- Little-endian words and slices of byte buffers. A slice out of range panics: `none`.
use Prim.Native.Nat.{ℕ, zero, suc, ◌+◌, ◌*◌, ◌/◌, ◌%◌, ◌<◌}
use mathlib.Core.Path.{◌≡◌, refl, ap}
use mathlib.Core.Option.{Option, none, some}
use mathlib.Core.List.{List, [], ◌∷◌, ◌++◌}
use native.Mathlib.Omega.{arith}
use f4kvs_lsm.Base.Lists.{length, take, drop, length-append}
use f4kvs_lsm.Base.Tests.{leb, if◌then◌else◌}

-- 256 ^ w
abbrev pub word : ℕ → ℕ
word zero = 1
word (suc w) = 256 * word w

-- `n.to_le_bytes()` in `w` bytes
unfoldable pub le_bytes : ℕ → ℕ → List ℕ
le_bytes zero n = []
le_bytes (suc w) n = (n % 256) ∷ le_bytes w (n / 256)

-- `from_le_bytes(bytes)`
unfoldable pub from_le : List ℕ → ℕ
from_le [] = 0
from_le (b ∷ bs) = b + 256 * from_le bs

pub from_le-le_bytes : (w n : ℕ) → n < word w → from_le (le_bytes w n) ≡ n
unfolding le_bytes from_le
from_le-le_bytes zero n h = omega arith
from_le-le_bytes (suc w) n h = omega (arith, from_le-le_bytes w (n / 256))

pub length-le_bytes : (w n : ℕ) → length (le_bytes w n) ≡ w
unfolding le_bytes
length-le_bytes zero n = refl
length-le_bytes (suc w) n = ap suc (length-le_bytes w (n / 256))

-- `&bytes[at..at + n]`
unfoldable pub slice : List ℕ → ℕ → ℕ → Option (List ℕ)
slice bytes at n = if leb (at + n) (length bytes) then some (take n (drop at bytes)) else none

pub drop-append {ℓ} : {A : Type ℓ} (xs ys : List A) → drop (length xs) (xs ++ ys) ≡ ys
drop-append [] ys = refl
drop-append (x ∷ xs) ys = drop-append xs ys

pub take-append {ℓ} : {A : Type ℓ} (xs ys : List A) → take (length xs) (xs ++ ys) ≡ xs
take-append [] ys = refl
take-append (x ∷ xs) ys = ap (◌∷◌ x) (take-append xs ys)

-- The slice that covers the middle of three parts is that part.
pub slice_middle :
    (before part after bytes : List ℕ) (at n : ℕ)
    → bytes ≡ before ++ (part ++ after)
    → length before ≡ at
    → length part ≡ n
    → slice bytes at n ≡ some part
unfolding slice
slice_middle before part after bytes at n e a l =
    rw (e, ← a, ← l, drop-append, take-append)
      (ground (arith, length-append before (part ++ after), length-append part after))

pub drop_before :
    (before after bytes : List ℕ) (n : ℕ)
    → bytes ≡ before ++ after
    → length before ≡ n
    → drop n bytes ≡ after
drop_before before after bytes n e l = rw (e, ← l) (drop-append before after)

pub take_before :
    (before after bytes : List ℕ) (n : ℕ)
    → bytes ≡ before ++ after
    → length before ≡ n
    → take n bytes ≡ before
take_before before after bytes n e l = rw (e, ← l) (take-append before after)
