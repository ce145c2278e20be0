-- ===== src/Prelude/Words.antt =====
-- Unsigned machine words: bytes in little-endian order, checked and saturating arithmetic, and the
-- two's complement reading of 64 bits.
use q2_26_accel_v1c70ryg0d.Prelude.Tests.{ltb, leb, if◌then◌else◌}
use q2_26_accel_v1c70ryg0d.Prelude.Lists.{length, take, drop, length-take}
use q2_26_accel_v1c70ryg0d.Prelude.Int.{ℤ, pos, negsuc, i64_min, i64_max, ◌≤ℤ◌}
use Prim.Native.Nat.{ℕ, zero, suc, ◌+◌, ◌-◌, ◌*◌, ◌/◌, ◌%◌, ◌^◌, ◌≤◌, ◌<◌}
use mathlib.Core.Path.{◌≡◌, refl, ap}
use mathlib.Core.Option.{Option, none, some}
use mathlib.Core.List.{List, [], ◌∷◌}
use native.Mathlib.Omega.{arith}
use native.Mathlib.Nat.{pow-suc}

abbrev pub Bytes : Type 0
Bytes = List ℕ

abbrev pub u64_max : ℕ
u64_max = 0xffff_ffff_ffff_ffff

-- `u64::checked_add`, `checked_mul` and `checked_pow`, on the exact value.
unfoldable pub checked_u64 : ℕ → Option ℕ
checked_u64 n = if leb n u64_max then some n else none

-- `u64::checked_sub`.
unfoldable pub checked_sub : ℕ → ℕ → Option ℕ
checked_sub a b = if leb b a then some (a - b) else none

-- `n.to_le_bytes()` for a word of `w` bytes.
unfoldable pub to_le_bytes : ℕ → ℕ → Bytes
to_le_bytes zero n = []
to_le_bytes (suc w) n = (n % 256) ∷ to_le_bytes w (n / 256)

unfoldable pub from_le_bytes : Bytes → ℕ
from_le_bytes [] = 0
from_le_bytes (b ∷ bs) = b + 256 * from_le_bytes bs

pub length-to_le_bytes : (w n : ℕ) → length (to_le_bytes w n) ≡ w
unfolding to_le_bytes
length-to_le_bytes zero n = refl
length-to_le_bytes (suc w) n = ap suc (length-to_le_bytes w (n / 256))

-- Reading back the bytes of a word gives the word.
pub from_le_bytes-to_le_bytes : (w n : ℕ) → n < 256 ^ w → from_le_bytes (to_le_bytes w n) ≡ n
unfolding to_le_bytes from_le_bytes
from_le_bytes-to_le_bytes zero n h = omega arith
from_le_bytes-to_le_bytes (suc w) n h =
    let bound : n < 256 ^ w * 256 = rw pow-suc at h in
    omega (arith, from_le_bytes-to_le_bytes w (n / 256) (omega arith))

-- An `i64` as its 64-bit pattern, and back.
unfoldable pub u64_of_i64 : ℤ → ℕ
u64_of_i64 (pos n) = n % 2 ^ 64
u64_of_i64 (negsuc n) = 2 ^ 64 - 1 - n % 2 ^ 64

unfoldable pub i64_of_u64 : ℕ → ℤ
i64_of_u64 w = if ltb w (2 ^ 63) then pos w else negsuc (2 ^ 64 - 1 - w)

pub i64_of_u64-u64_of_i64 : (a : ℤ) → i64_min ≤ℤ a → a ≤ℤ i64_max → i64_of_u64 (u64_of_i64 a) ≡ a
unfolding i64_of_u64 u64_of_i64
i64_of_u64-u64_of_i64 (pos n) lo hi = ground arith
i64_of_u64-u64_of_i64 (negsuc n) lo hi = ground arith

pub u64_of_i64-lt : (a : ℤ) → u64_of_i64 a < 2 ^ 64
unfolding u64_of_i64
u64_of_i64-lt (pos n) = omega arith
u64_of_i64-lt (negsuc n) = omega arith

abbrev pub AreBytes : Bytes → Type 0
AreBytes [] = Unit {0}
AreBytes (b ∷ bs) = (b < 256) × AreBytes bs

-- The value of a word of bytes is below its range.
pub from_le_bytes-lt : (d : Bytes) → AreBytes d → from_le_bytes d < 256 ^ length d
unfolding from_le_bytes
from_le_bytes-lt [] v = omega arith
from_le_bytes-lt (b ∷ bs) v = rw pow-suc (omega (arith, from_le_bytes-lt bs v.1))

pub take-AreBytes : (n : ℕ) (d : Bytes) → AreBytes d → AreBytes (take n d)
take-AreBytes zero d v = tt
take-AreBytes (suc n) [] v = tt
take-AreBytes (suc n) (b ∷ bs) v = (v.0, take-AreBytes n bs v.1)

pub drop-AreBytes : (n : ℕ) (d : Bytes) → AreBytes d → AreBytes (drop n d)
drop-AreBytes zero d v = v
drop-AreBytes (suc n) [] v = tt
drop-AreBytes (suc n) (b ∷ bs) v = drop-AreBytes n bs v.1

lt_of_short : (k n : ℕ) → k ≤ 8 → n < 256 ^ k → n < 2 ^ 64
lt_of_short zero n h b = omega arith
lt_of_short (suc zero) n h b = omega arith
lt_of_short (suc (suc zero)) n h b = omega arith
lt_of_short (suc (suc (suc zero))) n h b = omega arith
lt_of_short (suc (suc (suc (suc zero)))) n h b = omega arith
lt_of_short (suc (suc (suc (suc (suc zero))))) n h b = omega arith
lt_of_short (suc (suc (suc (suc (suc (suc zero)))))) n h b = omega arith
lt_of_short (suc (suc (suc (suc (suc (suc (suc zero))))))) n h b = omega arith
lt_of_short (suc (suc (suc (suc (suc (suc (suc (suc zero)))))))) n h b = omega arith
lt_of_short (suc (suc (suc (suc (suc (suc (suc (suc (suc k))))))))) n h b = absurd (omega arith)

-- A word of eight bytes that was read from real bytes fits in 64 bits.
pub from_le_bytes-u64 :
    (n : ℕ) (d : Bytes) → AreBytes d → from_le_bytes (take 8 (drop n d)) < 2 ^ 64
from_le_bytes-u64 n d v =
    let word = take 8 (drop n d) in
    let bound = from_le_bytes-lt word (take-AreBytes 8 (drop n d) (drop-AreBytes n d v)) in
    let short : length word ≤ 8 = omega (arith, length-take 8 (drop n d)) in
    lt_of_short (length word) (from_le_bytes word) short bound
