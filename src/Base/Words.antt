-- ===== src/Base/Words.antt =====
-- Machine words: the largest values, checked arithmetic, and the little-endian bytes of a word.
use Prim.Native.Nat.{ℕ, zero, suc, ◌+◌, ◌-◌, ◌*◌, ◌/◌, ◌%◌, ◌≤◌, ◌<◌}
use mathlib.Core.Path.{◌≡◌, refl, ap}
use mathlib.Core.Option.{Option, none, some}
use mathlib.Core.List.{List, [], ◌∷◌}
use native.Mathlib.Omega.{arith}
use weregopher.Base.Tests.{leb, if◌then◌else◌}
use weregopher.Base.Lists.{length, All}

abbrev pub u8_max : ℕ
u8_max = 255

abbrev pub u16_max : ℕ
u16_max = 65535

abbrev pub u32_max : ℕ
u32_max = 4294967295

abbrev pub u64_max : ℕ
u64_max = 18446744073709551615

-- `usize` of the 64-bit targets.
abbrev pub usize_max : ℕ
usize_max = u64_max

-- `a.checked_add(b)` in a type whose largest value is `limit`.
abbrev pub checked_add : ℕ → ℕ → ℕ → Option ℕ
checked_add limit a b = if leb (a + b) limit then some (a + b) else none

abbrev pub checked_sub : ℕ → ℕ → Option ℕ
checked_sub a b = if leb b a then some (a - b) else none

abbrev pub saturating_add : ℕ → ℕ → ℕ → ℕ
saturating_add limit a b = if leb (a + b) limit then a + b else limit

abbrev pub IsByte : ℕ → Type 0
IsByte b = b < 256

-- `to_le_bytes` of an integer of `width` bytes.
unfoldable pub to_le_bytes : ℕ → ℕ → List ℕ
to_le_bytes zero n = []
to_le_bytes (suc width) n = n % 256 ∷ to_le_bytes width (n / 256)

unfoldable pub from_le_bytes : List ℕ → ℕ
from_le_bytes [] = 0
from_le_bytes (b ∷ bs) = b + 256 * from_le_bytes bs

unfoldable pub from_be_bytes : ℕ → List ℕ → ℕ
from_be_bytes acc [] = acc
from_be_bytes acc (b ∷ bs) = from_be_bytes (acc * 256 + b) bs

pub length-to_le_bytes : (width n : ℕ) → length (to_le_bytes width n) ≡ width
unfolding to_le_bytes
length-to_le_bytes zero n = refl
length-to_le_bytes (suc width) n = ap suc (length-to_le_bytes width (n / 256))

pub All-to_le_bytes : (width n : ℕ) → All IsByte (to_le_bytes width n)
unfolding to_le_bytes
All-to_le_bytes zero n = tt
All-to_le_bytes (suc width) n = (omega arith, All-to_le_bytes width (n / 256))

pub from_le_bytes-to_le_bytes_1 : (n : ℕ) → n ≤ u8_max → from_le_bytes (to_le_bytes 1 n) ≡ n
unfolding to_le_bytes from_le_bytes
from_le_bytes-to_le_bytes_1 n h = omega arith

pub from_le_bytes-to_le_bytes_2 : (n : ℕ) → n ≤ u16_max → from_le_bytes (to_le_bytes 2 n) ≡ n
unfolding to_le_bytes from_le_bytes
from_le_bytes-to_le_bytes_2 n h = omega arith

pub from_le_bytes-to_le_bytes_4 : (n : ℕ) → n ≤ u32_max → from_le_bytes (to_le_bytes 4 n) ≡ n
unfolding to_le_bytes from_le_bytes
from_le_bytes-to_le_bytes_4 n h = omega arith

pub from_le_bytes-to_le_bytes_8 : (n : ℕ) → n ≤ u64_max → from_le_bytes (to_le_bytes 8 n) ≡ n
unfolding to_le_bytes from_le_bytes
from_le_bytes-to_le_bytes_8 n h = omega arith

pub to_le_bytes-from_le_bytes :
    (bs : List ℕ) → All IsByte bs → to_le_bytes (length bs) (from_le_bytes bs) ≡ bs
unfolding to_le_bytes from_le_bytes
to_le_bytes-from_le_bytes [] h = refl
to_le_bytes-from_le_bytes (b ∷ bs) h =
    let rest = from_le_bytes bs in
    let low : (b + 256 * rest) % 256 ≡ b = omega (arith, h.0) in
    let high : (b + 256 * rest) / 256 ≡ rest = omega (arith, h.0) in
    rw (low, high, to_le_bytes-from_le_bytes bs h.1)
